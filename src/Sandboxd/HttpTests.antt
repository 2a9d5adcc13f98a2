-- ===== src/Sandboxd/HttpTests.antt =====
-- sandboxd.py: POST requests to a registry with one sandbox.
use llm_rl_cpu_poc.Common.{ℕ, ◌≡◌, refl, true, false, none, some, [], ◌∷◌, arith}
use llm_rl_cpu_poc.Common.Dict.{lookup, insert}
use llm_rl_cpu_poc.Common.Result.{err}
use llm_rl_cpu_poc.Sandbox.{b}
use llm_rl_cpu_poc.Sandboxd.{SandboxRegistry}
use llm_rl_cpu_poc.Sandboxd.Http.{
  Machine, sandbox_create, sandbox_exec, trajectory_start, trajectory_abort, started, do_post,
  status_code,
}
use llm_rl_cpu_poc.Common.Samples.{scaled}
use llm_rl_cpu_poc.Sandboxd.Trajectories.{StartRequest, absent}
use llm_rl_cpu_poc.Sandboxd.Get.{Proc, trajectory_page, page_code, do_get}
use llm_rl_cpu_poc.Sandboxd.Known.{IsReadable, serve_all, do_get-serve_all}

abbrev machine : Machine ℕ
machine = record {
  fs = record { join = λ dir file. file; makes = λ dir. true };
  fresh = "2";
  now = 110;
  pid = 7;
  run = λ cmd. err "no such file";
  polls_none = λ pid. true;
  workers = record { poll = λ pid. none; result = λ dir. absent; log_tail = λ dir. absent };
}

abbrev one : SandboxRegistry
one = record {
  scratch_root = "/scratch";
  max_concurrent_exec = 2;
  mem_cap_mb = 6000;
  ttl_s = 600;
  self_url = "http://node2";
  sandboxes =
      (
        "sb-1",
        record {
          ident = 0;
          sandbox_id = "sb-1";
          workdir = "sb-1";
          profile = b;
          ttl_s = none;
          created_ts = 100;
          last_used_ts = 100;
          proc = none;
          exec_count = 0;
        },
      )
      ∷ [];
  trajectories = [];
  created_total = 1;
  exec_total = 0;
  rejected_total = 0;
  exec_wall_total = 0;
}

-- A request without a command is answered as one for an unknown sandbox.
no_command :
    status_code (do_post machine {P = ℕ} (some (sandbox_exec (some "sb-1") none)) one).0 ≡ 404
unfolding do_post status_code lookup
no_command = refl

abbrev request : StartRequest ℕ
request = record {
  traj_id = some "t-1";
  run_root = none;
  swe = some 5;
  adapter_url = some "http://node1";
  git_dir = some "/repo";
  venv = none;
  max_turns = none;
  agent_timeout_s = none;
  grade_timeout_s = none;
}

abbrev with_run : SandboxRegistry
with_run = record one {
  trajectories = ("t-1", record { proc = 7; run_dir = "t-1"; started_ts = 110 }) ∷ [];
}

started_lem : do_post machine (some (trajectory_start request)) one ≡ (started "t-1", with_run)
unfolding do_post lookup insert
started_lem = refl

abbrev proc : Proc ℕ
proc = record { before = []; after = []; meminfo = []; loadavg = 0; time = 0 }

machine-IsReadable : IsReadable machine.workers
machine-IsReadable dir = ((λ e. absurd (ground (arith, e))), (λ e. absurd (ground (arith, e))))

-- An abort and a request for another sandbox come in between.
do_get-serve_all_example :
    page_code (
      do_get scaled machine.workers
        (λ pid. false)
        proc
        200
        (trajectory_page "t-1" [])
        (serve_all {P = ℕ}
          ((machine, some (trajectory_abort (some "t-1")))
            ∷ (machine, some (sandbox_create none none none))
            ∷ [])
          with_run))
    ≡ some 200
do_get-serve_all_example =
    do_get-serve_all scaled machine request one with_run "t-1"
      ((machine, some (trajectory_abort (some "t-1")))
        ∷ (machine, some (sandbox_create none none none))
        ∷ [])
      machine.workers (λ pid. false) proc 200 [] started_lem machine-IsReadable
