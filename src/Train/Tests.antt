-- ===== src/Train/Tests.antt =====
-- train.py: three rollouts with a checkpoint at every second.
use llm_rl_cpu_poc.Common.{ℕ, ◌+◌, ◌≡◌, refl, true, none, [], ◌∷◌}
use llm_rl_cpu_poc.Common.Samples.{scaled}
use llm_rl_cpu_poc.Types.{Sample, new_sample}
use llm_rl_cpu_poc.Engine.{new_engine}
use llm_rl_cpu_poc.Trainer.{Settings}
use llm_rl_cpu_poc.Train.{LoopArgs, Training, Surroundings}
use llm_rl_cpu_poc.Train.Loop.{due}

abbrev settings : Settings scaled ℕ ℕ
settings = record {
  eps_low = 0;
  eps_high = 0;
  use_tis = true;
  tis_beta = 2;
  sim_tokens_per_s = 50000;
  sim_max_s = 3;
  idle_s = 0;
  mismatch_sigma = 1;
  rescore_fn = none;
  gauss = λ rng mu sigma. (rng, rng + 1);
  sqrt = λ x. x;
}

abbrev sample_at : ℕ → Sample ℕ ℕ
sample_at version = record (new_sample scaled {P = ℕ} "prompt" "t" "A" none) {
  weight_version = version;
}

abbrev around : Surroundings ℕ ℕ ℕ
around = record {
  generate = λ rid version. sample_at version ∷ sample_at version ∷ [];
  eval = λ version. version;
  readings = λ rid. record { window = 1; reload = 0 };
}

abbrev args : LoopArgs
args = record { num_rollout = 3; save_interval = 2; eval_interval = 5 }

abbrev begin : Training ℕ ℕ ℕ
begin = record {
  weight_version = 0;
  rng = 7;
  updater = record {
    engine = new_engine;
    monitor = none;
    sim_param_gb = 4;
    sim_bandwidth_gbps = 2;
    history = [];
  };
  checkpoints = [];
  history = [];
}

saves_two_and_three : due args 3 0 ≡ (2, 1) ∷ (3, 2) ∷ []
saves_two_and_three = refl
