-- ===== src/Rollout/Tests.antt =====
-- rollout_manager.py at small batches; floats are natural numbers.
use llm_rl_cpu_poc.Common.{
  ℕ, ◌+◌, ◌≡◌, ◌⊎◌, refl, Bool, true, false, none, some, List, [], ◌∷◌, ◌++◌, map, length, arith,
  number_key, text_key,
}
use llm_rl_cpu_poc.Common.Dict.{Dict, lookup, insert}
use llm_rl_cpu_poc.Common.Int.{ℤ, pos, int_key}
use llm_rl_cpu_poc.Common.Result.{Result}
use llm_rl_cpu_poc.Common.Samples.{scaled}
use llm_rl_cpu_poc.Types.{Sample, new_sample, gen_error, null, str}
use llm_rl_cpu_poc.DataSource.{Task}
use llm_rl_cpu_poc.Rollout.{Live, bump}
use llm_rl_cpu_poc.Rollout.Single.{Services, generate_one, finish_one, settle_one, count_one}
use llm_rl_cpu_poc.Rollout.Remote.{
  Answer, Raised, sent, os_error, running, done, other, answered, stopped, start_remote,
  start_attempts, poll_loop, run_swe_one, take_ending, fill_logprob, add_records, add_tokens,
}
use llm_rl_cpu_poc.Rollout.Polling.{poll_loop-Bearable}
use llm_rl_cpu_poc.Rollout.Batch.{
  Counters, drain_buffer, requeue, requeue_one, is_finished, mean, set_of, is_in, sum_from,
  pack_group,
}
use llm_rl_cpu_poc.Rollout.Requeue.{groups_of, unfinished, pending_again, drain_buffer-requeue}
use llm_rl_cpu_poc.Rollout.Variance.{IsEquality, AllEqual, pack_group_lem}

abbrev sample : ℕ → ℕ → Sample ℕ ℕ
sample gid reward = record (new_sample scaled {P = ℕ} "prompt" "t" "A" none) {
  group_id = pos gid;
  reward = reward;
}

abbrev counters : Counters
counters = record { zero_var_groups = 0; aborted = 0; requeued = 0 }

abbrev live : Live
live = record {
  gen_waiting = 1;
  scoring = 2;
  done = 0;
  total = 2;
  groups_done = 0;
  groups_total = 1;
  group_progress = (pos 0, (0, 2)) ∷ [];
}

abbrev groups : Dict ℤ (List (Sample ℕ ℕ))
groups = (pos 0, sample 0 1 ∷ sample 0 2 ∷ []) ∷ (pos 1, sample 1 0 ∷ sample 1 3 ∷ []) ∷ []

program : Unit {0}
unfolding new_sample lookup insert bump generate_one finish_one settle_one count_one run_swe_one
    start_remote start_attempts poll_loop take_ending fill_logprob add_records add_tokens
    drain_buffer requeue requeue_one is_finished mean set_of is_in sum_from pack_group
program = tt

drain_buffer-requeue_example :
    let (buffer, c') = requeue ((sample 0 1 ∷ []) ∷ []) (groups_of groups) [] counters in
    (drain_buffer buffer
      ≡ (map pending_again (groups_of (unfinished ((sample 0 1 ∷ []) ∷ []) groups)), []))
    × (c'.aborted ≡ 0 + length buffer)
    × (c'.requeued ≡ 0 + length buffer)
unfolding lookup new_sample
drain_buffer-requeue_example =
    drain_buffer-requeue ((sample 0 1 ∷ []) ∷ []) groups counters (refl, (refl, tt))
      ((refl, (refl, tt)), ((refl, (refl, tt)), tt))

scaled-IsEquality : IsEquality scaled
scaled-IsEquality = record {
  same = λ x. ground arith;
  turned = λ x y h. ground (arith, h);
  chained = λ x y z h k. ground (arith, h, k);
}

pack_group_lem_example :
    let out = pack_group scaled true (sample 0 1 ∷ sample 0 3 ∷ []) in
    (AllEqual scaled 1 (1 ∷ 3 ∷ []) × (out ≡ ([], 1)))
    ⊎ ((¬ AllEqual scaled 1 (1 ∷ 3 ∷ []))
        × (out ≡ (
          map
              (λ (x : Sample ℕ ℕ). record x {
                advantage = scaled.sub x.reward (mean scaled (1 ∷ 3 ∷ []));
              })
              (sample 0 1 ∷ sample 0 3 ∷ []),
          0,
        )))
unfolding new_sample
pack_group_lem_example = pack_group_lem scaled scaled-IsEquality (sample 0 1) (sample 0 3 ∷ [])

abbrev answer : Answer ℕ ℕ
answer = record { reward = some 1; turns = some 7; get = λ k. null; grade = null }

poll_loop-Bearable_example :
    let polls = os_error "reset" ∷ os_error "reset" ∷ running ∷ os_error "reset" ∷ [] in
    (poll_loop polls 0 ≡ none)
    × (poll_loop (polls ++ (done answer ∷ [])) 0 ≡ some (answered answer))
    × (poll_loop (polls ++ (other "failed" ∷ [])) 0 ≡ some (stopped "failed"))
poll_loop-Bearable_example =
    poll_loop-Bearable 0 (os_error "reset" ∷ os_error "reset" ∷ running ∷ os_error "reset" ∷ []) []
      answer "failed" (omega arith, (omega arith, (omega arith, tt)))

abbrev left : Result Raised (Sample ℕ ℕ) × Bool × Live
left = (
  take_ending scaled ((some 2 ∷ none ∷ []) ∷ []) (answered answer)
      (record (sample 0 0) { metadata = insert "traj_id" (str "t-1") [] }),
  false,
  record live { done = 1; group_progress = (pos 0, (1, 2)) ∷ [] },
)

sent_lem :
    run_swe_one scaled "t-1"
      (λ i. sent)
      (running ∷ done answer ∷ [])
      ((some 2 ∷ none ∷ []) ∷ [])
      (sample 0 0)
      live
    ≡ some left
unfolding program
sent_lem = refl

abbrev services : Services scaled ℕ
services = record {
  generate = λ s t. record s { status = gen_error };
  multi_turn = none;
  run_tests = λ s t. s;
  compute_reward = λ s t. 1;
}

abbrev task : Task ℕ ℕ
task = record {
  task_id = "t";
  line = "A";
  prompt = "prompt";
  reward_spec = [];
  tier = "A";
  tests = [];
  answer = none;
  entry = "";
  repo = [];
  test_cmd = "";
  corpus = [];
  max_turns = 1;
  solution = "";
  image_path = none;
  split = "train";
  swe = none;
}
