-- ===== src/Trainer/Accounts.antt =====
-- trainer.py: the counts of a training step add up.
use llm_rl_cpu_poc.Common.{ℕ, ◌+◌, ◌-◌, ◌≤◌, ◌≡◌, max, List, [], ◌∷◌, length}
use llm_rl_cpu_poc.Common.Float.{Float}
use llm_rl_cpu_poc.Types.{Sample}
use llm_rl_cpu_poc.Trainer.{Settings, Tally, max_of}

-- The largest staleness of the samples, zero where there are none.
abbrev pub oldest : {F P : Type 0} → ℕ → List (Sample F P) → ℕ
oldest version [] = 0
oldest version (s ∷ ss) = max (version - s.weight_version) (oldest version ss)

abbrev pub tokens : {F P : Type 0} → List (Sample F P) → ℕ
tokens [] = 0
tokens (s ∷ ss) = s.num_tokens + tokens ss

module _ (fl : Float) {P Rng : Type 0} (v : Settings fl P Rng) where
  open fl use {F}

  -- What a tally becomes over some samples.
  abbrev pub Adds : ℕ → List (Sample F P) → Tally F P Rng → Tally F P Rng → Type 0
  Adds version ss t t' =
      (t'.n_masked + length t'.losses ≡ t.n_masked + length t.losses + length ss)
      × (t'.n_clipped + length t.losses ≤ t.n_clipped + length t'.losses)
      × (t'.total_tokens ≤ t.total_tokens + tokens ss)
      × (max_of t'.staleness_list ≡ max (max_of t.staleness_list) (oldest version ss))
