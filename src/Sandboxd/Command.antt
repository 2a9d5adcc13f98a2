-- ===== src/Sandboxd/Command.antt =====
-- sandboxd.py: one command in a sandbox, split at the points where the lock is free.
use llm_rl_cpu_poc.Common.{
  ℕ, ◌+◌, ◌-◌, leb, String, Bool, true, none, some, List, [], ◌∷◌, ◌++◌, length, drop, ◌==◌,
  number_key, if◌then◌else◌,
}
use llm_rl_cpu_poc.Common.Dict.{Dict}
use llm_rl_cpu_poc.Common.Result.{Result, ok, err}
use llm_rl_cpu_poc.Common.Int.{ℤ}
use llm_rl_cpu_poc.Sandbox.{Tier, profile_of, Word, word, with_pair, isolation_prefix, limits}
use llm_rl_cpu_poc.Sandboxd.{
  SandboxEntry, SandboxRegistry, Failure, concurrency_cap, undecodable, Effect, kill_group,
  running_execs,
}

-- `entry.x = …` on the object `ident`, where the registry still holds it; the command's thread keeps
-- its object also when the registry has dropped it.
unfoldable pub update_entry :
    ℕ → (SandboxEntry → SandboxEntry) → Dict String SandboxEntry → Dict String SandboxEntry
update_entry ident f [] = []
update_entry ident f ((sid, e) ∷ d) =
    (sid, if e.ident == ident then f e else e) ∷ update_entry ident f d

-- The four parts of `exec_in_sandbox` that touch shared state, in order. Only the first and the
-- last hold the lock, and other threads may run between any two.
unfoldable pub exec_guard : SandboxRegistry → Result Failure (Unit {0}) × SandboxRegistry
exec_guard r =
    if leb r.max_concurrent_exec (running_execs r.sandboxes)
    then (err concurrency_cap, record r { rejected_total = r.rejected_total + 1 })
    else (ok tt, r)

unfoldable pub exec_spawn : ℕ → ℕ → SandboxRegistry → SandboxRegistry
exec_spawn ident pid r = record r {
  sandboxes = update_entry ident (λ e. record e { proc = some pid }) r.sandboxes;
}

unfoldable pub exec_finish : ℕ → ℕ → SandboxRegistry → SandboxRegistry
exec_finish ident now r = record r {
  sandboxes =
      update_entry ident
        (λ e. record e { proc = none; last_used_ts = now; exec_count = e.exec_count + 1 })
        r.sandboxes;
}

unfoldable pub exec_account : ℕ → SandboxRegistry → SandboxRegistry
exec_account wall_s r = record r {
  exec_total = r.exec_total + 1;
  exec_wall_total = r.exec_wall_total + wall_s;
}

-- What the spawned command does: texts are lists of code points. `decoded` is false where
-- `communicate` cannot decode what was printed.
pub record Run : Type 0 where
  pub pid : ℕ
  pub decoded : Bool
  pub timed_out : Bool
  pub rc : ℤ
  pub stdout : List ℕ
  pub stderr : List ℕ
  pub spawned : ℕ
  pub ended : ℕ
  pub cpu_s : ℕ
  pub maxrss_kb : ℕ

pub record ExecReply : Type 0 where
  pub rc : ℤ
  pub stdout : List ℕ
  pub stderr : List ℕ
  pub wall_s : ℕ
  pub cpu_s : ℕ
  pub maxrss_kb : ℕ
  pub timed_out : Bool

-- `text[-n:]` for `n` above zero.
unfoldable pub tail_of : ℕ → List ℕ → List ℕ
tail_of n text = drop (length text - n) text

unfoldable pub exec_cmd : ℕ → ℕ → Tier → String → List Word
unfolding isolation_prefix limits
exec_cmd uid gid tier cmd =
    isolation_prefix uid gid true
    ++ (limits (profile_of tier)
        ++ (with_pair "--nofile=" 1024 1024 ∷ word "bash" ∷ word "-c" ∷ word cmd ∷ []))

-- The whole call with nothing running in between: the reply, the registry and what was killed. The
-- exception of `communicate` leaves `entry.proc` set; what was killed is told with a reply only.
unfoldable pub exec_in_sandbox :
    SandboxEntry
    → Run
    → SandboxRegistry
    → Result Failure (ExecReply × List Effect) × SandboxRegistry
unfolding exec_guard exec_spawn exec_finish exec_account tail_of
exec_in_sandbox entry run r =
    let (admitted, r₁) = exec_guard r in
    elim admitted [
      | err e ↦ (err e, r₁)
      | ok _ ↦
          let r₂ = exec_spawn entry.ident run.pid r₁ in
          if run.decoded
          then (
            ok (
              record {
                rc = run.rc;
                stdout = tail_of 65536 run.stdout;
                stderr = tail_of 16384 run.stderr;
                wall_s = run.ended - run.spawned;
                cpu_s = run.cpu_s;
                maxrss_kb = run.maxrss_kb;
                timed_out = run.timed_out;
              },
              if run.timed_out then kill_group run.pid ∷ [] else [],
            ),
            exec_account (run.ended - run.spawned) (exec_finish entry.ident run.ended r₂),
          )
          else (err undecodable, r₂)
    ]
