-- ===== src/DualMonitor/Tests.antt =====
-- dual_monitor.py at a few ticks; floats are natural numbers.
use llm_rl_cpu_poc.Common.{ℕ, ◌≡◌, ◌⊎◌, ◌++◌, some, List, [], ◌∷◌}
use llm_rl_cpu_poc.Common.Result.{ok, err}
use llm_rl_cpu_poc.Sandboxd.{Stats}
use llm_rl_cpu_poc.Sandboxd.Get.{SysStats}
use llm_rl_cpu_poc.DualMonitor.{
  Reading, TimelineRow, DualMonitor, new_monitor, happen, start_call, stop_call, begin_round,
  end_round, happen_all,
}
use llm_rl_cpu_poc.DualMonitor.Timeline.{rounds, stop_is_final}

abbrev load : ℕ → SysStats ℕ
load busy = record { ts = 0; cpu_busy_pct = busy; load1 = 1; mem_total_mb = 100; mem_used_mb = 50 }

abbrev served : Stats
served = record {
  active_sandboxes = 3;
  live_mem = 512;
  mem_cap = 6000;
  created = 4;
  execs = 17;
  rejected = 2;
  exec_wall = 90;
  running = 1;
  trajectories_active = 1;
  trajectories_total = 2;
}

abbrev early : Reading ℕ
early = record { time = 0; local = load 5; pull_sys = err "refused"; pull_stats = err "refused" }

-- The other node answers, and is then out of reach.
abbrev readings : List (Reading ℕ)
readings =
    record { time = 1; local = load 10; pull_sys = ok (load 70); pull_stats = ok served }
    ∷ record { time = 2; local = load 20; pull_sys = err "timed out"; pull_stats = err "timed out" }
    ∷ []

-- The stop comes while the first row is being made.
abbrev caught : DualMonitor ℕ
caught = happen_all (start_call ∷ begin_round early ∷ []) new_monitor

stop_is_final_example :
    let m' = happen_all (stop_call ∷ end_round ∷ start_call ∷ rounds readings) caught in
    (m'.rows ≡ [])
    ⊎ ((row : TimelineRow ℕ) × (caught.sampling ≡ some row) × (m'.rows ≡ [] ++ (row ∷ [])))
unfolding happen_all happen
stop_is_final_example = stop_is_final (end_round ∷ start_call ∷ rounds readings) caught
