-- ===== src/Rollout/Gauges.antt =====
-- rollout_manager.py: what the `live` counters say of the coroutines of `_generate_one`, whatever the
-- order in which the event loop runs, fails and cancels them.
use llm_rl_cpu_poc.Common.{ℕ, ◌+◌, ◌-◌, ◌≤◌, ◌≡◌, ◌⊎◌, refl, arith}
use llm_rl_cpu_poc.Common.Int.{int_key}
use llm_rl_cpu_poc.Common.Float.{Float}
use llm_rl_cpu_poc.Types.{Sample}
use llm_rl_cpu_poc.Rollout.{bump}
use llm_rl_cpu_poc.Rollout.Single.{Services}
use llm_rl_cpu_poc.Rollout.Coroutines.{
  Stage, created, waiting, generating, talking, scoring, returned, thrown, Event, resume, Coroutine,
  Shared, free_slot, talk, score_sample, take_answer, move,
}

-- How much a stage counts for each gauge.
abbrev pub waits : Stage → ℕ
waits waiting = 1
waits _ = 0

abbrev pub generates : Stage → ℕ
generates generating = 1
generates _ = 0

abbrev pub scores : Stage → ℕ
scores scoring = 1
scores _ = 0

abbrev pub ends : Stage → ℕ
ends returned = 1
ends thrown = 1
ends _ = 0

-- How one event moves the gauges, by the stages before and after it.
pub record Moves (c c' : Stage) (sh sh' : Shared) : Type 0 where
  pub wait : sh'.live.gen_waiting ≡ sh.live.gen_waiting + waits c' - waits c
  pub done : sh'.live.done + ends c ≡ sh.live.done + ends c'
  pub slots : sh'.slots + generates c' ≡ sh.slots + generates c
  pub score : sh'.live.scoring ≤ sh.live.scoring + scores c' - scores c

-- A stage in which a coroutine holds neither a place in the queue nor in the sandbox.
abbrev IsIdle : Stage → Type 0
IsIdle s = (waits s ≡ 0) × (scores s ≡ 0) × (ends s ≡ 0) × (generates s ≡ 0)

module _ {F P : Type 0} where
  -- A group's progress changes only where a coroutine of the group ends.
  abbrev pub Counts : (c c' : Coroutine F P) (sh sh' : Shared) → Type 0
  Counts c c' sh sh' =
      ((ends c'.stage ≡ ends c.stage)
        × ((ends c.stage ≡ 0) ⊎ (c'.sample ≡ c.sample))
        × (sh'.live.group_progress ≡ sh.live.group_progress))
      ⊎ ((ends c.stage ≡ 0)
          × (ends c'.stage ≡ 1)
          × (sh'.live.group_progress ≡ bump c'.sample.group_id sh.live.group_progress))

module _ (fl : Float) {P : Type 0} (v : Services fl P) where
  open fl use {F}

  score_sample-Moves :
      (s : Sample F P) (k : Stage) (c : Coroutine F P) (sh : Shared)
      → IsIdle k
      → let (c', sh') = score_sample fl v s c sh in Moves k c'.stage sh sh'
  unfolding score_sample
  score_sample-Moves s k c sh h = ground arith

  take_answer-Moves :
      (s : Sample F P) (k : Stage) (c : Coroutine F P) (sh : Shared)
      → IsIdle k
      → let (c', sh') = take_answer fl v s c sh in Moves k c'.stage sh sh'
  unfolding take_answer
  take_answer-Moves s k c sh h = ground arith

  pub move-Moves :
      (s : Stage) (e : Event) (c : Coroutine F P) (sh : Shared)
      → c.stage ≡ s
      → let (c', sh') = move fl v s e c sh in Moves s c'.stage sh sh'
  unfolding move
  move-Moves created e c sh q = ground arith
  move-Moves waiting e c sh q = ground arith
  move-Moves generating resume c sh q =
      let m =
        take_answer-Moves (v.generate c.sample c.task) created c (free_slot sh)
          (refl, refl, refl, refl) in
      record { wait = m.wait; done = m.done; slots = omega (arith, m.slots); score = m.score }
  move-Moves talking resume c sh q =
      score_sample-Moves (talk fl v c) talking c sh (refl, refl, refl, refl)
  move-Moves scoring e c sh q = ground arith
  move-Moves _ _ c sh q = ground arith

  score_sample-Counts :
      (s : Sample F P) (c : Coroutine F P) (sh : Shared)
      → ends c.stage ≡ 0
      → let (c', sh') = score_sample fl v s c sh in Counts c c' sh sh'
  unfolding score_sample
  score_sample-Counts s c sh h = ground arith

  take_answer-Counts :
      (s : Sample F P) (c : Coroutine F P) (sh : Shared)
      → ends c.stage ≡ 0
      → let (c', sh') = take_answer fl v s c sh in Counts c c' sh sh'
  unfolding take_answer
  take_answer-Counts s c sh h = ground arith

  pub move-Counts :
      (s : Stage) (e : Event) (c : Coroutine F P) (sh : Shared)
      → c.stage ≡ s
      → let (c', sh') = move fl v s e c sh in Counts c c' sh sh'
  unfolding move
  move-Counts created e c sh q = ground arith
  move-Counts waiting e c sh q = ground arith
  move-Counts generating resume c sh q =
      take_answer-Counts (v.generate c.sample c.task) c (free_slot sh) (rw q refl)
  move-Counts talking resume c sh q = score_sample-Counts (talk fl v c) c sh (rw q refl)
  move-Counts scoring e c sh q = ground arith
  move-Counts _ _ c sh q = ground arith
