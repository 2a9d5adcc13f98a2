-- ===== src/Trainer/Tests.antt =====
-- trainer.py at two samples; floats are natural numbers.
use llm_rl_cpu_poc.Common.{ℕ, ◌+◌, true, none, List, [], ◌∷◌}
use llm_rl_cpu_poc.Common.Samples.{scaled}
use llm_rl_cpu_poc.Types.{Sample, new_sample}
use llm_rl_cpu_poc.Trainer.{Settings}

abbrev settings : Settings scaled ℕ ℕ
settings = record {
  eps_low = 0;
  eps_high = 0;
  use_tis = true;
  tis_beta = 2;
  sim_tokens_per_s = 50000;
  sim_max_s = 3;
  idle_s = 0;
  mismatch_sigma = 1;
  rescore_fn = none;
  gauss = λ rng mu sigma. (rng, rng + 1);
  sqrt = λ x. x;
}

abbrev sample : ℕ → Sample ℕ ℕ
sample version = record (new_sample scaled {P = ℕ} "prompt" "t" "A" none) {
  weight_version = version;
  num_tokens = 10;
}

abbrev batch : List (Sample ℕ ℕ)
batch = sample 1 ∷ sample 3 ∷ []
