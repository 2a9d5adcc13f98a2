-- ===== src/Train/Loop.antt =====
-- train.py: what the synchronous loop has done when it ends.
use llm_rl_cpu_poc.Common.{
  ℕ, zero, suc, ◌+◌, ◌-◌, ◌%◌, ◌≡◌, ◌||◌, ◌==◌, number_key, Bool, false, Option, List, [], ◌∷◌,
  length, All, if◌then◌else◌,
}
use llm_rl_cpu_poc.Common.Float.{Float}
use llm_rl_cpu_poc.Trainer.{Settings, Metrics}
use llm_rl_cpu_poc.Train.{LoopArgs, Training, Surroundings}

-- What is tested where the interval is above zero.
abbrev pub due_now : ℕ → ℕ → ℕ → Bool
due_now interval num_rollout rid = (rid + 1) % interval == 0 || rid == num_rollout - 1

-- The checkpoints of `left` rollouts from `rid` on: the rollouts that are due, each under its number
-- plus one.
abbrev pub due : LoopArgs → ℕ → ℕ → List (ℕ × ℕ)
due args zero rid = []
due args (suc left) rid =
    let rest = due args left (rid + 1) in
    if due_now args.save_interval args.num_rollout rid then (rid + 1, rid) ∷ rest else rest

module _ (fl : Float) {P E Rng : Type 0} (v : Settings fl P Rng) (env : Surroundings fl.F P E)
    (args : LoopArgs) where
  open fl use {F}

  abbrev pub IsFresh : Metrics F × Option E → Type 0
  IsFresh (m, ev) = m.staleness_max ≡ 0

  -- The state before the rollout `rid`, with the checkpoints so far.
  pub record IsAt (rid : ℕ) (saved : List (ℕ × ℕ)) (t : Training F E Rng) : Type 0 where
    pub trained : t.weight_version ≡ rid
    pub synced : t.updater.engine.weight_version ≡ rid
    pub open_gate : t.updater.engine.paused ≡ false
    pub updates : length t.updater.history ≡ rid
    pub checkpoints : t.checkpoints ≡ saved
    pub rollouts : length t.history ≡ rid
    pub fresh : All IsFresh t.history
