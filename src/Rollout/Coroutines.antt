-- ===== src/Rollout/Coroutines.antt =====
-- rollout_manager.py: the calls of `_generate_one` as coroutines of one event loop. They share the
-- `live` counters and the semaphore; each runs from one await to the next without interruption.
use llm_rl_cpu_poc.Common.{
  ℕ, zero, suc, ◌+◌, ◌-◌, ltb, Bool, true, false, Option, none, some, List, [], ◌∷◌, if◌then◌else◌,
}
use mathlib.Core.Option
use llm_rl_cpu_poc.Common.Int.{ℤ}
use llm_rl_cpu_poc.Common.Float.{Float}
use llm_rl_cpu_poc.Types.{Sample, completed}
use llm_rl_cpu_poc.DataSource.{Task}
use llm_rl_cpu_poc.Rollout.{Live, bump, is_gen_error, is_pending}
use llm_rl_cpu_poc.Rollout.Single.{Services}

-- Where a coroutine stands: not run yet, at the semaphore, in the engine's thread, in the further
-- turns, in the sandbox, returned, left by an exception, or cancelled before it ran.
pub data Stage : Type 0 where
  created waiting generating talking scoring returned thrown dropped : Stage

-- What the event loop does to one coroutine. `resume` continues it behind the await it stands at,
-- which has succeeded; `fail` raises the exception of what it awaits; `cancel` raises
-- `CancelledError`. A thread that a cancelled coroutine leaves behind is not modelled.
pub data Event : Type 0 where
  resume fail cancel : Event

pub record Coroutine (F P : Type 0) : Type 0 where
  pub sample : Sample F P
  pub task : Task F P
  pub stage : Stage

-- What the coroutines share. `slots` is what is left of the semaphore.
pub record Shared : Type 0 where
  pub live : Live
  pub slots : ℕ

-- The `finally` block.
unfoldable pub leave_call : Bool → ℤ → Live → Live
unfolding bump
leave_call acquired gid l = record l {
  gen_waiting = if acquired then l.gen_waiting else l.gen_waiting - 1;
  scoring = l.scoring - 1;
  done = l.done + 1;
  group_progress = bump gid l.group_progress;
}

abbrev pub free_slot : Shared → Shared
free_slot sh = record sh { slots = sh.slots + 1 }

module _ {F P : Type 0} where
  -- The coroutine ends with a sample, or with an exception, behind the `finally` block.
  unfoldable pub give_back : Sample F P → Coroutine F P → Shared → Coroutine F P × Shared
  unfolding leave_call
  give_back s c sh = (
    record c { sample = s; stage = returned },
    record sh { live = leave_call true s.group_id sh.live },
  )

  unfoldable pub throw : Bool → Coroutine F P → Shared → Coroutine F P × Shared
  unfolding leave_call
  throw acquired c sh = (
    record c { stage = thrown },
    record sh { live = leave_call acquired c.sample.group_id sh.live },
  )

  abbrev pub begin_call : Coroutine F P → Shared → Coroutine F P × Shared
  begin_call c sh = (
    record c { stage = waiting },
    record sh { live = record sh.live { gen_waiting = sh.live.gen_waiting + 1 } },
  )

  -- The semaphore lets a coroutine in only while there is a slot.
  abbrev pub enter_engine : Coroutine F P → Shared → Coroutine F P × Shared
  enter_engine c sh =
      if ltb 0 sh.slots
      then (
        record c { stage = generating },
        record {
          live = record sh.live { gen_waiting = sh.live.gen_waiting - 1 };
          slots = sh.slots - 1;
        },
      )
      else (c, sh)

  -- The calls of one rollout, as coroutines that have not run.
  abbrev pub called : List (Sample F P × Task F P) → List (Coroutine F P)
  called [] = []
  called ((s, t) ∷ calls) = record { sample = s; task = t; stage = created } ∷ called calls

  -- `list(await asyncio.gather(...))`, none while a call has not returned or where one has raised.
  unfoldable pub gathered : List (Coroutine F P) → Option (List (Sample F P))
  gathered [] = some []
  gathered (c ∷ cs) =
      let rest = gathered cs in
      elim c.stage [ returned ↦ Option.map (λ out. c.sample ∷ out) rest | _ ↦ none ]

  -- The end of `_process_group`, behind its barrier.
  unfoldable pub end_group : List (Coroutine F P) → Live → Option (List (Sample F P) × Live)
  unfolding gathered
  end_group cs l =
      Option.map (λ out. (out, record l { groups_done = l.groups_done + 1 })) (gathered cs)

module _ (fl : Float) {P : Type 0} (v : Services fl P) where
  open fl use {F}

  -- Behind the turns: the tests are submitted, or the sample is scored at once.
  unfoldable pub score_sample : Sample F P → Coroutine F P → Shared → Coroutine F P × Shared
  unfolding give_back
  score_sample s c sh =
      let raised : Shared = record sh { live = record sh.live { scoring = sh.live.scoring + 1 } } in
      elim c.task.tests [
        | _ ∷ _ ↦ (record c { sample = s; stage = scoring }, raised)
        | [] ↦
            let r : Sample F P =
              if is_pending s.status then record s { status = completed } else s in
            give_back (record r { reward = v.compute_reward r c.task }) c raised
      ]

  -- The engine's thread has returned, and the semaphore is released.
  unfoldable pub take_answer : Sample F P → Coroutine F P → Shared → Coroutine F P × Shared
  unfolding give_back score_sample
  take_answer s c sh =
      if is_gen_error s.status
      then give_back (record s { reward = fl.zero }) c sh
      else elim v.multi_turn [
        | none ↦ score_sample s c sh
        | some _ ↦ (record c { sample = s; stage = talking }, sh)
      ]

  abbrev pub talk : Coroutine F P → Sample F P
  talk c = elim v.multi_turn [ none ↦ c.sample | some turns ↦ turns c.sample c.task ]

  -- One event at a coroutine in a stage. An event that cannot happen there changes nothing.
  unfoldable pub move : Stage → Event → Coroutine F P → Shared → Coroutine F P × Shared
  unfolding give_back throw score_sample take_answer
  move created resume c sh = begin_call c sh
  move created cancel c sh = (record c { stage = dropped }, sh)
  move waiting resume c sh = enter_engine c sh
  move waiting cancel c sh = throw false c sh
  move generating resume c sh = take_answer (v.generate c.sample c.task) c (free_slot sh)
  move generating fail c sh = throw true c (free_slot sh)
  move generating cancel c sh = throw true c (free_slot sh)
  move talking resume c sh = score_sample (talk c) c sh
  move talking fail c sh = throw true c sh
  move talking cancel c sh = throw true c sh
  move scoring resume c sh =
      let r = v.run_tests c.sample c.task in
      give_back (record r { reward = v.compute_reward r c.task }) c sh
  move scoring fail c sh = throw true c sh
  move scoring cancel c sh = throw true c sh
  move _ _ c sh = (c, sh)

  -- One event at the i-th coroutine.
  unfoldable pub step_call :
      ℕ → Event → List (Coroutine F P) → Shared → List (Coroutine F P) × Shared
  unfolding move
  step_call i e [] sh = ([], sh)
  step_call zero e (c ∷ cs) sh = let (c', sh') = move c.stage e c sh in (c' ∷ cs, sh')
  step_call (suc i) e (c ∷ cs) sh = let (cs', sh') = step_call i e cs sh in (c ∷ cs', sh')

module _ (fl : Float) {P : Type 0} where
  open fl use {F}

  -- The events in their order, with what the services answer at each.
  unfoldable pub run_events :
      (ℕ → Services fl P)
      → List (ℕ × Event)
      → List (Coroutine F P)
      → Shared
      → List (Coroutine F P) × Shared
  unfolding step_call
  run_events v [] cs sh = (cs, sh)
  run_events v ((i, e) ∷ es) cs sh =
      let (cs', sh') = step_call fl (v 0) i e cs sh in run_events (λ n. v (suc n)) es cs' sh'
