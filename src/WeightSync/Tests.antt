-- ===== src/WeightSync/Tests.antt =====
-- weight_sync.py: runs at small values.
use llm_rl_cpu_poc.Common.{ℕ, refl, true, none, [], ◌∷◌, arith, inl}
use llm_rl_cpu_poc.Engine.{is_open, enter, leave, new_engine, pause_generation, set_version}
use llm_rl_cpu_poc.WeightSync.{WeightUpdater, Readings}
use llm_rl_cpu_poc.WeightSync.Gate.{
  State, Reach, initial, next, passes, enters, draws, stamps, pauses, stores, start, stored,
  IsConsistent, Reach-IsConsistent,
}

abbrev readings : Readings ℕ
readings = record { window = 7; reload = 3 }

abbrev updater : WeightUpdater ℕ
updater = record {
  engine = new_engine;
  monitor = none;
  sim_param_gb = 4;
  sim_bandwidth_gbps = 2;
  history = [];
}

-- A generation that drew under the weights 0 and is stamped inside the window in which they became 1.
abbrev late : State
late = record {
  engine = record { weight_version = 1; paused = true; inflight = 0 };
  updater = stored;
  passed = 1;
  running = [];
  done = (0, 1) ∷ [];
}

late-Reach : Reach late
unfolding is_open enter leave pause_generation set_version
late-Reach =
    next
      (next
        (next
          (next (next (next (next initial (passes start refl)) (passes _ refl)) (enters _ 1 refl))
            (draws _ [] [] refl))
          (pauses _ (inl refl)))
        (stores _ 1 refl (omega arith)))
      (stamps _ 0 [] [] refl)

Reach-IsConsistent_example : IsConsistent late
Reach-IsConsistent_example = Reach-IsConsistent late-Reach
