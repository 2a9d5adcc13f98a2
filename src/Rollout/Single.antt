-- ===== src/Rollout/Single.antt =====
-- rollout_manager.py: one sample that node1 generates itself. The engine, the turns after the first,
-- the sandbox and the reward rule are the services it calls.
use llm_rl_cpu_poc.Common.{
  ℕ, ◌+◌, ◌-◌, ◌≡◌, refl, ◌⊎◌, inl, inr, Option, none, some, true, false, [], ◌∷◌, arith,
  Bool-cases, if◌then◌else◌,
}
use llm_rl_cpu_poc.Common.Float.{Float}
use llm_rl_cpu_poc.Types.{
  Sample, SampleStatus, pending, completed, truncated, aborted, gen_error, sandbox_error,
  sandbox_timeout, sandbox_oom,
}
use llm_rl_cpu_poc.DataSource.{Task}
use llm_rl_cpu_poc.Rollout.{Live, bump, is_gen_error, is_pending}

-- What the services answer during one call. They share a random generator, the weights and the
-- machine with other calls, so that each call, and each moment of interleaved ones, has its own.
pub record Services (fl : Float) (P : Type 0) : Type 0 where
  pub generate : Sample fl.F P → Task fl.F P → Sample fl.F P
  pub multi_turn : Option (Sample fl.F P → Task fl.F P → Sample fl.F P)
  pub run_tests : Sample fl.F P → Task fl.F P → Sample fl.F P
  pub compute_reward : Sample fl.F P → Task fl.F P → fl.F

gen_error_lem : (s : SampleStatus) → is_gen_error s ≡ true → s ≡ gen_error
gen_error_lem gen_error h = refl
gen_error_lem pending h = absurd (ground arith)
gen_error_lem completed h = absurd (ground arith)
gen_error_lem truncated h = absurd (ground arith)
gen_error_lem aborted h = absurd (ground arith)
gen_error_lem sandbox_error h = absurd (ground arith)
gen_error_lem sandbox_timeout h = absurd (ground arith)
gen_error_lem sandbox_oom h = absurd (ground arith)

module _ (fl : Float) {P : Type 0} where
  open fl use {F}

  -- What happens to a generated sample before its reward is computed.
  unfoldable pub settle_one : Services fl P → Sample F P → Task F P → Sample F P
  settle_one v s t =
      let spoken : Sample F P = elim v.multi_turn [ none ↦ s | some turns ↦ turns s t ] in
      elim t.tests [
        | _ ∷ _ ↦ v.run_tests spoken t
        | [] ↦ if is_pending spoken.status then record spoken { status = completed } else spoken
      ]

  unfoldable pub finish_one : Services fl P → Sample F P → Task F P → Sample F P
  unfolding settle_one
  finish_one v s t =
      if is_gen_error s.status
      then record s { reward = fl.zero }
      else (let r = settle_one v s t in record r { reward = v.compute_reward r t })

  -- The counters over the whole call, with no other sample in between: the waiting count goes up and
  -- down again, scoring goes up unless generation failed, and the `finally` block takes one from it
  -- in any case.
  unfoldable pub count_one : Sample F P → Sample F P → Live → Live
  unfolding bump
  count_one generated out l =
      let raised : ℕ = if is_gen_error generated.status then l.scoring else l.scoring + 1 in
      record l {
        gen_waiting = (l.gen_waiting + 1) - 1;
        scoring = raised - 1;
        done = l.done + 1;
        group_progress = bump out.group_id l.group_progress;
      }

  unfoldable pub generate_one : Services fl P → Sample F P → Task F P → Live → Sample F P × Live
  unfolding finish_one count_one
  generate_one v s t l =
      let g = v.generate s t in let out = finish_one v g t in (out, count_one g out l)

  -- A sample is counted as done once and leaves the waiting count as it found it, on every branch.
  -- Where generation failed it keeps its status and scores zero, and `scoring` loses a sample that
  -- another call added; else the reward is the rule's for the sample returned, and `scoring` is as
  -- before.
  pub generate_one_lem :
      (v : Services fl P) (s : Sample F P) (t : Task F P) (l : Live)
      → let (out, l') = generate_one v s t l in
        (l'.done ≡ l.done + 1)
        × (l'.gen_waiting ≡ l.gen_waiting)
        × (((is_gen_error (v.generate s t).status ≡ true)
              × (out.status ≡ gen_error)
              × (out.reward ≡ fl.zero)
              × (l'.scoring ≡ l.scoring - 1))
            ⊎ ((is_gen_error (v.generate s t).status ≡ false)
                × ((b : Sample F P) × (out ≡ record b { reward = v.compute_reward b t }))
                × (l'.scoring ≡ l.scoring)))
  unfolding generate_one
  generate_one_lem v s t l = (
    refl,
    omega arith,
    elim (Bool-cases (is_gen_error (v.generate s t).status)) [
      | inl e ↦
          inl (e, rw e (gen_error_lem (v.generate s t).status e), rw e refl, ground (arith, e))
      | inr e ↦ inr (e, (settle_one v (v.generate s t) t, rw e refl), ground (arith, e))
    ],
  )
