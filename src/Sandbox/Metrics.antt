-- ===== src/Sandbox/Metrics.antt =====
-- sandbox.py: the counters of the pool against the executor that runs its tasks.
use llm_rl_cpu_poc.Common.{ℕ, ◌+◌, ◌≤◌, ◌<◌, ◌≡◌, max, List, [], ◌∷◌, ◌++◌, length}
use llm_rl_cpu_poc.Common.Float.{Float}
use llm_rl_cpu_poc.Types.{Sample, Value}
use llm_rl_cpu_poc.Sandbox.Pool.{PoolMetrics, new_metrics, submit, start_one, finish_one}

-- An executor with a first-in first-out queue: the tasks that wait, those that a worker runs, and
-- those that are done. It takes a task only while a worker is free.
pub record Executor (A : Type 0) : Type 0 where
  pub waiting : List A
  pub busy : List A
  pub finished : List A

abbrev pub idle : {A : Type 0} → Executor A
idle = record { waiting = []; busy = []; finished = [] }

module _ (fl : Float) {P : Type 0} (value : Value fl.F P → fl.F) (workers : ℕ) where
  open fl use {F}

  abbrev pub State : Type 0
  State = Executor (Sample F P) × PoolMetrics F

  -- One step of the executor together with what the pool's code does to the counters at it.
  pub data Step : State → State → Type 0 where
    submitted :
        (now : F) (s : Sample F P) (e : Executor (Sample F P)) (m : PoolMetrics F)
        → Step
            (e, m)
            (
              record e { waiting = e.waiting ++ ((submit fl now s m).0 ∷ []) },
              (submit fl now s m).1,
            )
    taken :
        (s : Sample F P) (rest : List (Sample F P)) (e : Executor (Sample F P)) (m : PoolMetrics F)
        → e.waiting ≡ s ∷ rest
        → length e.busy < workers
        → Step (e, m) (record e { waiting = rest; busy = s ∷ e.busy }, start_one m)
    ended :
        (s out : Sample F P) (before after : List (Sample F P)) (e : Executor (Sample F P))
        (m : PoolMetrics F)
        → e.busy ≡ before ++ (s ∷ after)
        → Step
            (e, m)
            (
              record e { busy = before ++ after; finished = out ∷ e.finished },
              finish_one fl value out m,
            )

  -- A run from the idle pool, with the longest queue and the most busy workers that it has seen.
  pub data Run : State → ℕ → ℕ → Type 0 where
    start : Run (idle, new_metrics) 0 0
    next :
        {x y : State} {q b : ℕ}
        → Run x q b
        → Step x y
        → Run y (max q (length y.0.waiting)) (max b (length y.0.busy))

  -- The counters are the sizes of the executor's three parts, and the peaks the maxima over the run.
  pub record Refines (x : State) (q b : ℕ) : Type 0 where
    pub running_busy : x.1.running ≡ length x.0.busy
    pub completed_finished : x.1.completed ≡ length x.0.finished
    pub submitted_all : x.1.submitted ≡ length x.0.waiting + length x.0.busy + length x.0.finished
    pub peak_queue_max : x.1.peak_queue ≡ q
    pub peak_busy_max : x.1.peak_busy ≡ b
    pub queue_below : length x.0.waiting ≤ q
    pub busy_below : length x.0.busy ≤ b
    pub busy_capped : b ≤ workers
