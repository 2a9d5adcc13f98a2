-- ===== src/Rollout/Completion.antt =====
-- rollout_manager.py: the coroutines of `_generate_one` never block one another for good.
use llm_rl_cpu_poc.Common.{
  ℕ, zero, suc, ◌≤◌, ◌<◌, ◌≡◌, ◌⊎◌, refl, ap, List, [], ◌∷◌, arith, inl, inr,
}
use llm_rl_cpu_poc.Common.Float.{Float}
use llm_rl_cpu_poc.Types.{Sample}
use llm_rl_cpu_poc.Rollout.Single.{Services}
use llm_rl_cpu_poc.Rollout.Coroutines.{
  Stage, created, waiting, generating, talking, scoring, Event, resume, fail, cancel, Coroutine,
  Shared, score_sample, take_answer, talk, move, step_call, free_slot,
}
use llm_rl_cpu_poc.Rollout.Gauges.{generates}
use llm_rl_cpu_poc.Rollout.Progress.{weigh}

-- How many events a coroutine can still take part in.
abbrev pub left : Stage → ℕ
left created = 5
left waiting = 4
left generating = 3
left talking = 2
left scoring = 1
left _ = 0

module _ (fl : Float) {P : Type 0} (v : Services fl P) where
  open fl use {F}

  score_sample-left :
      (s : Sample F P) (c : Coroutine F P) (sh : Shared)
      → left (score_sample fl v s c sh).0.stage ≤ 1
  unfolding score_sample
  score_sample-left s c sh = ground arith

  take_answer-left :
      (s : Sample F P) (c : Coroutine F P) (sh : Shared)
      → left (take_answer fl v s c sh).0.stage ≤ 2
  unfolding take_answer
  take_answer-left s c sh = ground (arith, score_sample-left s c sh)

  -- Any event leaves a coroutine with fewer, or changes nothing at all.
  move-left :
      (k : Stage) (e : Event) (c : Coroutine F P) (sh : Shared)
      → c.stage ≡ k
      → (left (move fl v k e c sh).0.stage < left k) ⊎ (move fl v k e c sh ≡ (c, sh))
  unfolding move
  move-left created e c sh q = ground arith
  move-left waiting e c sh q = ground arith
  move-left generating resume c sh q =
      inl (omega (arith, take_answer-left (v.generate c.sample c.task) c (free_slot sh)))
  move-left generating fail c sh q = inl (omega arith)
  move-left generating cancel c sh q = inl (omega arith)
  move-left talking resume c sh q = inl (omega (arith, score_sample-left (talk fl v c) c sh))
  move-left talking fail c sh q = inl (omega arith)
  move-left talking cancel c sh q = inl (omega arith)
  move-left scoring e c sh q = ground arith
  move-left _ _ c sh q = inr refl

  -- Every event either changes nothing or uses up one of the finitely many that are left.
  pub step_call-left :
      (i : ℕ) (e : Event) (cs : List (Coroutine F P)) (sh : Shared)
      → (weigh left (step_call fl v i e cs sh).0 < weigh left cs)
        ⊎ (step_call fl v i e cs sh ≡ (cs, sh))
  unfolding step_call
  step_call-left i e [] sh = inr refl
  step_call-left zero e (c ∷ cs) sh = elim (move-left c.stage e c sh refl) [
    | inl h ↦ inl (omega (arith, h))
    | inr h ↦ inr (ap (λ (p : Coroutine F P × Shared). (p.0 ∷ cs, p.1)) h)
  ]
  step_call-left (suc i) e (c ∷ cs) sh = elim (step_call-left i e cs sh) [
    | inl h ↦ inl (omega (arith, h))
    | inr h ↦ inr (ap (λ (p : List (Coroutine F P) × Shared). (c ∷ p.0, p.1)) h)
  ]

  -- Resuming the i-th coroutine is progress, in any shared state that has `n` slots at least.
  abbrev Runs : ℕ → ℕ → List (Coroutine F P) → Type 0
  Runs n i cs =
      (sh : Shared) → n ≤ sh.slots → weigh left (step_call fl v i resume cs sh).0 < weigh left cs

  -- A coroutine that runs without a slot; or nobody holds a slot, and one runs with a slot or all
  -- are at their ends.
  abbrev Looks : List (Coroutine F P) → Type 0
  Looks cs =
      ((i : ℕ) × Runs 0 i cs)
      ⊎ ((weigh generates cs ≡ 0) × (((i : ℕ) × Runs 1 i cs) ⊎ (weigh left cs ≡ 0)))
