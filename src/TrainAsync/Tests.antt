-- ===== src/TrainAsync/Tests.antt =====
-- train_async.py over three batches with an interval of two.
use llm_rl_cpu_poc.Common.{ℕ, ◌+◌, ◌%◌, ◌<◌, ◌≡◌, true, none, some, List, [], ◌∷◌, arith, length}
use llm_rl_cpu_poc.Common.Samples.{scaled}
use llm_rl_cpu_poc.Types.{Sample, new_sample}
use llm_rl_cpu_poc.Trainer.{Settings}
use llm_rl_cpu_poc.TrainAsync.{train_rollouts}
use llm_rl_cpu_poc.TrainAsync.Lag.{at_start, trained, all_samples, train_rollouts_lem}

abbrev settings : Settings scaled ℕ ℕ
settings = record {
  eps_low = 0;
  eps_high = 0;
  use_tis = true;
  tis_beta = 2;
  sim_tokens_per_s = 50000;
  sim_max_s = 3;
  idle_s = 0;
  mismatch_sigma = 1;
  rescore_fn = none;
  gauss = λ rng mu sigma. (rng, rng + 1);
  sqrt = λ x. x;
}

abbrev sample : Sample ℕ ℕ
sample = new_sample scaled {P = ℕ} "prompt" "t" "A" none

abbrev batches : List (List (Sample ℕ ℕ))
batches = (sample ∷ []) ∷ (sample ∷ sample ∷ []) ∷ (sample ∷ []) ∷ []

train_rollouts_lem_example :
    let p = train_rollouts scaled settings (some 1) 2 0 batches (at_start 7) in
    (p.weight_version ≡ length batches)
    × (p.engine_version + length batches % 2 ≡ length batches)
    × (p.weight_version < p.engine_version + 2)
    × (p.dropped_stale_total + trained p.history ≡ all_samples batches)
train_rollouts_lem_example = train_rollouts_lem scaled settings (some 1) 2 (omega arith) batches 7
