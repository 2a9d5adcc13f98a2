-- ===== src/Sandbox/Pool.antt =====
-- sandbox.py: the pool of workers. Its counters change at three points of a task's life, each under
-- the lock: at its submission, when a worker takes it, and when it ends.
use llm_rl_cpu_poc.Common.{
  ℕ, ◌+◌, ◌-◌, max, ltb, none, some, List, [], ◌∷◌, ◌++◌, text_key, if◌then◌else◌,
}
use llm_rl_cpu_poc.Common.Dict.{lookup, insert}
use llm_rl_cpu_poc.Common.Float.{Float}
use llm_rl_cpu_poc.Common.Result.{Result, ok, err}
use llm_rl_cpu_poc.Types.{Sample, Value, num}

pub record PoolMetrics (F : Type 0) : Type 0 where
  pub submitted : ℕ
  pub completed : ℕ
  pub running : ℕ
  pub peak_queue : ℕ
  pub peak_busy : ℕ
  pub queue_waits : List F
  pub exec_walls : List F

abbrev pub new_metrics : {F : Type 0} → PoolMetrics F
new_metrics = record {
  submitted = 0;
  completed = 0;
  running = 0;
  peak_queue = 0;
  peak_busy = 0;
  queue_waits = [];
  exec_walls = [];
}

-- The ValueError of the constructor.
pub data Refusal : Type 0 where
  no_workers : Refusal

unfoldable pub new_pool : {F : Type 0} → ℕ → Result Refusal (ℕ × PoolMetrics F)
new_pool workers = if ltb workers 1 then err no_workers else ok (workers, new_metrics)

unfoldable pub start_one : {F : Type 0} → PoolMetrics F → PoolMetrics F
start_one m = record m { running = m.running + 1; peak_busy = max m.peak_busy (m.running + 1) }

module _ (fl : Float) {P : Type 0} where
  open fl use {F}

  unfoldable pub submit : F → Sample F P → PoolMetrics F → Sample F P × PoolMetrics F
  unfolding insert
  submit now s m =
      let queued = m.submitted + 1 - m.completed - m.running in
      (
        record s { sandbox = insert "pool_submit_ts" (num now) s.sandbox },
        record m { submitted = m.submitted + 1; peak_queue = max m.peak_queue queued },
      )

  -- `value` reads a number out of a dict's value.
  unfoldable pub finish_one : (Value F P → F) → Sample F P → PoolMetrics F → PoolMetrics F
  unfolding lookup
  finish_one value s m = record m {
    running = m.running - 1;
    completed = m.completed + 1;
    queue_waits = elim (lookup "pool_submit_ts" s.sandbox) [
      | none ↦ m.queue_waits
      | some t ↦ elim (lookup "submit_ts" s.sandbox) [
        | none ↦ m.queue_waits
        | some u ↦ m.queue_waits ++ (fl.sub (value u) (value t) ∷ [])
      ]
    ];
    exec_walls = elim (lookup "exec_wall_s" s.sandbox) [
      | none ↦ m.exec_walls
      | some w ↦ m.exec_walls ++ (value w ∷ [])
    ];
  }
