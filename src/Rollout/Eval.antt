-- ===== src/Rollout/Eval.antt =====
-- rollout_manager.py: the held-out evaluation, and the reward's specification of a task. Sampling and
-- scoring are the services of `_generate_one`.
use llm_rl_cpu_poc.Common.{
  ℕ, zero, suc, ◌+◌, none, some, List, [], ◌∷◌, ◌++◌, length, String, if◌then◌else◌, text_key,
}
use llm_rl_cpu_poc.Common.Dict.{Dict, insert}
use llm_rl_cpu_poc.Common.Float.{Float}
use llm_rl_cpu_poc.Types.{Sample, new_sample, completed, Value}
use llm_rl_cpu_poc.DataSource.{Task}
use llm_rl_cpu_poc.Rollout.{is_pending}
use llm_rl_cpu_poc.Rollout.Single.{Services}
use llm_rl_cpu_poc.Rollout.Batch.{mean}

-- The task's specification with its answer, if it has one.
unfoldable pub reward_spec_of : {F P : Type 0} → Task F P → Dict String (Value F P)
unfolding insert
reward_spec_of t = elim t.answer [ none ↦ t.reward_spec | some a ↦ insert "answer" a t.reward_spec ]

module _ (fl : Float) {P : Type 0} where
  open fl use {F}

  -- One sample of an evaluation task.
  unfoldable pub eval_one : Services fl P → Task F P → Sample F P
  eval_one v t =
      let s = v.generate (new_sample fl t.prompt t.task_id t.line t.image_path) t in
      let r : Sample F P = elim t.tests [
        | _ ∷ _ ↦ v.run_tests s t
        | [] ↦ if is_pending s.status then record s { status = completed } else s
      ] in
      record r { reward = v.compute_reward r t }

  -- `for _ in range(n)`, and the loop over the tasks: the rewards, with what the services answer to
  -- each sample, numbered from `i`.
  unfoldable pub eval_task : (ℕ → Services fl P) → ℕ → ℕ → Task F P → List F
  unfolding eval_one
  eval_task v i zero t = []
  eval_task v i (suc n) t = (eval_one (v i) t).reward ∷ eval_task v (i + 1) n t

  unfoldable pub eval_rewards : (ℕ → Services fl P) → ℕ → ℕ → List (Task F P) → List F
  unfolding eval_task
  eval_rewards v i n [] = []
  eval_rewards v i n (t ∷ ts) = eval_task v i n t ++ eval_rewards v (i + n) n ts

  -- The pass rate and the number of samples.
  unfoldable pub eval : (ℕ → Services fl P) → ℕ → List (Task F P) → F × ℕ
  unfolding eval_rewards mean
  eval v n tasks =
      let results = eval_rewards v 0 n tasks in
      (elim results [ [] ↦ fl.zero | x ∷ xs ↦ mean fl (x ∷ xs) ], length results)
