-- ===== src/TrainAsync.antt =====
-- train_async.py: the loop of the asynchronous driver. The batches are given in the order in which
-- the generation thread returns them.
pub mod Lag
mod Tests
use llm_rl_cpu_poc.Common.{
  ℕ, zero, suc, ◌+◌, ◌-◌, ◌%◌, leb, Bool, true, false, Option, none, some, List, [], ◌∷◌, ◌++◌,
  length, keep, if◌then◌else◌, ◌==◌, number_key,
}
use llm_rl_cpu_poc.Common.Float.{Float}
use llm_rl_cpu_poc.Types.{Sample}
use llm_rl_cpu_poc.Trainer.{Settings, Metrics, Tally, async_train}

-- The trainer's version, the version that the engine generates with, the stale samples dropped, the
-- metrics of the rollouts and the generator of the trainer.
pub record Progress (F Rng : Type 0) : Type 0 where
  pub weight_version : ℕ
  pub engine_version : ℕ
  pub dropped_stale_total : ℕ
  pub history : List (Metrics F)
  pub rng : Rng

module _ (fl : Float) {P Rng : Type 0} (v : Settings fl P Rng) where
  open fl use {F}

  -- The samples within `--max-staleness` of the trainer's version, or all without it.
  unfoldable pub filter_stale : Option ℕ → ℕ → List (Sample F P) → List (Sample F P)
  filter_stale max_staleness version samples = elim max_staleness [
    | none ↦ samples
    | some m ↦ keep (λ (s : Sample F P). leb (version - s.weight_version) m) samples
  ]

  -- One rollout of the loop: the interval is `--update-weights-interval`.
  unfoldable pub train_rollout :
      Option ℕ → ℕ → ℕ → List (Sample F P) → Progress F Rng → Progress F Rng
  unfolding filter_stale async_train
  train_rollout max_staleness interval rid samples p =
      let kept = filter_stale max_staleness p.weight_version samples in
      let (metrics, version, tally) = async_train fl v rid kept p.weight_version p.rng in
      record {
        weight_version = version;
        engine_version = if (rid + 1) % interval == 0 then version else p.engine_version;
        dropped_stale_total = p.dropped_stale_total + (length samples - length kept);
        history = p.history ++ (metrics ∷ []);
        rng = tally.rng;
      }

  unfoldable pub train_rollouts :
      Option ℕ → ℕ → ℕ → List (List (Sample F P)) → Progress F Rng → Progress F Rng
  unfolding train_rollout
  train_rollouts max_staleness interval rid [] p = p
  train_rollouts max_staleness interval rid (samples ∷ batches) p =
      train_rollouts max_staleness interval (rid + 1) batches
        (train_rollout max_staleness interval rid samples p)
