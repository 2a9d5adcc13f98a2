-- ===== src/Rollout.antt =====
-- rl_sim/rollout_manager.py: the rollout pipeline. Its children are the two ways to produce a
-- sample, and the batches.
pub mod Single
pub mod Remote
pub mod Batch
pub mod Requeue
pub mod Polling
pub mod Variance
pub mod Coroutines
pub mod Gauges
pub mod Progress
pub mod Completion
pub mod Eval
mod Tests
mod EventTests
use llm_rl_cpu_poc.Common.{ℕ, zero, suc, ◌+◌, ◌-◌, Option, none, some, Bool, true, false}
use llm_rl_cpu_poc.Common.Dict.{Dict, lookup, insert}
use llm_rl_cpu_poc.Common.Int.{ℤ, int_key}
use llm_rl_cpu_poc.Types.{
  SampleStatus, pending, completed, truncated, aborted, gen_error, sandbox_error, sandbox_timeout,
  sandbox_oom,
}

-- The `live` counters. A group's progress is how many of its samples are done, and how many it has.
pub record Live : Type 0 where
  pub gen_waiting : ℕ
  pub scoring : ℕ
  pub done : ℕ
  pub total : ℕ
  pub groups_done : ℕ
  pub groups_total : ℕ
  pub group_progress : Dict ℤ (ℕ × ℕ)

-- `if gid in progress: progress[gid][0] += 1`.
unfoldable pub bump : ℤ → Dict ℤ (ℕ × ℕ) → Dict ℤ (ℕ × ℕ)
bump gid d = elim (lookup gid d) [ none ↦ d | some (n, size) ↦ insert gid (n + 1, size) d ]

abbrev pub is_gen_error : SampleStatus → Bool
is_gen_error gen_error = true
is_gen_error _ = false

abbrev pub is_pending : SampleStatus → Bool
is_pending pending = true
is_pending _ = false
