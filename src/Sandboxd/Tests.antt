-- ===== src/Sandboxd/Tests.antt =====
-- sandboxd.py at small registries.
use llm_rl_cpu_poc.Common.{
  ℕ, ◌+◌, ◌≤◌, ◌<◌, ◌≡◌, ◌≢◌, ◌⊎◌, refl, true, none, some, [], ◌∷◌, arith, inl, inr, text_key,
}
use llm_rl_cpu_poc.Common.Dict.{lookup, insert}
use llm_rl_cpu_poc.Common.Result.{ok}
use llm_rl_cpu_poc.Sandbox.{b, tier_of, profile_of}
use llm_rl_cpu_poc.Sandboxd.{
  SandboxEntry, SandboxRegistry, new_registry, FileSystem, live_mem_mb, create, admit_entry,
  choose_id, new_entry, reap_idle, running_execs,
}
use llm_rl_cpu_poc.Sandboxd.Command.{exec_guard, exec_spawn}
use llm_rl_cpu_poc.Sandboxd.Memory.{
  Creates, create-Creates, Fits, here, next, created, spawned, Reach-Fits,
}
use llm_rl_cpu_poc.Sandboxd.Exec.{exec_race_exceeds_cap}
use llm_rl_cpu_poc.Sandboxd.Lifecycle.{KillsNothing, quiet, lease, reap_idle_lem}
use llm_rl_cpu_poc.Sandboxd.Trajectories.{
  StartRequest, Launch, run_root_of, launch_of, register, start_trajectory, Workers, absent,
}

abbrev disk : FileSystem
disk = record { join = λ dir file. file; makes = λ dir. true }

abbrev empty_registry : SandboxRegistry
empty_registry = new_registry "/scratch" 2 6000 600 "http://node2"

-- What a run of the registry unfolds.
program : Unit {0}
unfolding new_registry create admit_entry choose_id new_entry lookup insert live_mem_mb profile_of
    tier_of start_trajectory launch_of run_root_of register running_execs exec_guard
program = tt

abbrev first : SandboxEntry
first = record {
  ident = 0;
  sandbox_id = "sb-1";
  workdir = "sb-1";
  profile = b;
  ttl_s = none;
  created_ts = 100;
  last_used_ts = 100;
  proc = none;
  exec_count = 0;
}

abbrev with_first : SandboxRegistry
with_first = record {
  scratch_root = "/scratch";
  max_concurrent_exec = 2;
  mem_cap_mb = 6000;
  ttl_s = 600;
  self_url = "http://node2";
  sandboxes = ("sb-1", first) ∷ [];
  trajectories = [];
  created_total = 1;
  exec_total = 0;
  rejected_total = 0;
  exec_wall_total = 0;
}

created_first : create disk "B" none none "1" 100 empty_registry ≡ (ok first, with_first)
unfolding program
created_first = refl

-- A second sandbox of 4096 MB does not fit under 6000 MB.
create-Creates_example :
    Creates 4096 with_first (create disk "B" (some "other") none "2" 110 with_first)
unfolding program
create-Creates_example = create-Creates disk "B" (some "other") none "2" 110 with_first

Reach-Fits_example : Fits 6000 (exec_spawn 0 7 (create disk "B" none none "1" 100 empty_registry).1)
Reach-Fits_example = Reach-Fits disk "/scratch" "http://node2" 2 6000 600 (
    next (next here (created "B" none none "1" 100 empty_registry))
      (spawned 0 7 (create disk "B" none none "1" 100 empty_registry).1))

abbrev two_idle : SandboxRegistry
two_idle = record with_first {
  max_concurrent_exec = 1;
  sandboxes = ("sb-1", first) ∷ ("sb-2", record first { ident = 1; sandbox_id = "sb-2" }) ∷ [];
}

exec_race_exceeds_cap_example :
    (exec_guard two_idle ≡ (ok tt, two_idle))
    × (exec_guard (exec_guard two_idle).1 ≡ (ok tt, two_idle))
    × (running_execs (exec_spawn 1 8 (exec_spawn 0 7 two_idle)).sandboxes ≡ 1 + 1)
unfolding program
exec_race_exceeds_cap_example =
    exec_race_exceeds_cap 0 1 7 8 two_idle (omega arith) (inl (refl, refl, (omega arith, tt)))
      (inr (omega arith, inl (refl, refl, tt))) refl

reap_idle_lem_example :
    let (_, r', fx) = reap_idle quiet (λ pid. true) 800 with_first in
    (((first.proc ≡ none)
        × (100 + lease with_first first < 800)
        × (lookup "sb-1" r'.sandboxes ≡ none))
      ⊎ (((first.proc ≢ none) ⊎ (800 ≤ 100 + lease with_first first))
          × (lookup "sb-1" r'.sandboxes ≡ some first)))
    × KillsNothing fx
unfolding program
reap_idle_lem_example = reap_idle_lem (λ pid. true) 800 with_first (refl, tt) "sb-1" first refl

abbrev request : StartRequest ℕ
request = record {
  traj_id = some "t-1";
  run_root = none;
  swe = some 5;
  adapter_url = some "http://adapter";
  git_dir = some "/repo";
  venv = none;
  max_turns = none;
  agent_timeout_s = none;
  grade_timeout_s = none;
}

abbrev launched : Launch ℕ
launched = record {
  adapter_url = "http://adapter";
  sandboxd_url = "http://node2";
  git_dir = "/repo";
  venv = "";
  run_dir = "t-1";
  swe_file = "swe.json";
  swe = 5;
  traj_id = "t-1";
  max_turns = 40;
  agent_timeout_s = 1800;
  grade_timeout_s = 600;
}

started_once :
    start_trajectory disk.join request 9 100 with_first
    ≡ (ok ("t-1", some launched), register "t-1" 9 "t-1" 100 with_first)
unfolding program
started_once = refl

abbrev workers : Workers ℕ
workers = record { poll = λ pid. none; result = λ dir. absent; log_tail = λ dir. absent }
