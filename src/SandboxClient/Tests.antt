-- ===== src/SandboxClient/Tests.antt =====
-- sandbox_client.py against a daemon with an empty registry.
use llm_rl_cpu_poc.Common.{ℕ, ◌≡◌, refl, true, none, [], ◌∷◌, leb}
use llm_rl_cpu_poc.Common.Result.{ok, err}
use llm_rl_cpu_poc.Sandbox.{b, profile_of}
use llm_rl_cpu_poc.Common.Dict.{lookup, insert}
use llm_rl_cpu_poc.Sandboxd.{SandboxRegistry, live_mem_mb}
use llm_rl_cpu_poc.Sandboxd.Trajectories.{absent}
use llm_rl_cpu_poc.Sandboxd.Http.{Machine, created}
use llm_rl_cpu_poc.SandboxClient.{Opener, whole, create_sandbox}

abbrev usual : Opener
usual = record { raises = λ code. leb 400 code }

abbrev machine : Machine ℕ
machine = record {
  fs = record { join = λ dir file. file; makes = λ dir. true };
  fresh = "2";
  now = 110;
  pid = 7;
  run = λ cmd. err "no such file";
  polls_none = λ pid. true;
  workers = record { poll = λ pid. none; result = λ dir. absent; log_tail = λ dir. absent };
}

abbrev empty : SandboxRegistry
empty = record {
  scratch_root = "/scratch";
  max_concurrent_exec = 2;
  mem_cap_mb = 6000;
  ttl_s = 600;
  self_url = "http://node2";
  sandboxes = [];
  trajectories = [];
  created_total = 0;
  exec_total = 0;
  rejected_total = 0;
  exec_wall_total = 0;
}

abbrev with_one : SandboxRegistry
with_one = record empty {
  sandboxes =
      (
        "sb-2",
        record {
          ident = 0;
          sandbox_id = "sb-2";
          workdir = "sb-2";
          profile = b;
          ttl_s = none;
          created_ts = 110;
          last_used_ts = 110;
          proc = none;
          exec_count = 0;
        },
      )
      ∷ [];
  created_total = 1;
}

created_lem :
    create_sandbox usual ℕ machine whole "B" none none empty
    ≡ (ok (created "sb-2" "sb-2"), with_one)
unfolding create_sandbox live_mem_mb profile_of lookup insert
created_lem = refl
