-- ===== src/Sandboxd/Http.antt =====
-- sandboxd.py: the HTTP front. A request comes with its body's fields, none where one is missing, and
-- with what the machine answers to it.
use llm_rl_cpu_poc.Common.{ℕ, String, Bool, Option, none, some, List}
use llm_rl_cpu_poc.Common.Result.{Result, ok, err}
use llm_rl_cpu_poc.Sandboxd.{
  SandboxEntry, SandboxRegistry, Failure, unknown_profile, already_exists, key_error, memory_cap,
  concurrency_cap, os_error, undecodable, FileSystem, Effect, create, get, stop,
}
use llm_rl_cpu_poc.Sandboxd.Command.{Run, ExecReply, exec_guard, exec_in_sandbox}
use llm_rl_cpu_poc.Sandboxd.Trajectories.{StartRequest, Workers, start_trajectory, abort_trajectory}
use mathlib.Core.Option

-- The paths of a POST with their bodies.
pub data Post (P : Type 0) : Type 0 where
  sandbox_create : Option String → Option String → Option ℕ → Post P
  sandbox_exec : Option String → Option String → Post P
  sandbox_stop : Option String → Post P
  trajectory_start : StartRequest P → Post P
  trajectory_abort : Option String → Post P
  other_path : Post P

-- What a POST answers.
pub data Answer : Type 0 where
  created : String → String → Answer
  ran : ExecReply → Answer
  stopped : Bool → Answer
  started : String → Answer
  aborted : Bool → Answer
  failed : Failure → Answer
  unknown_path bad_json : Answer

-- The status of an exception: KeyError, AdmissionError, ValueError and OSError.
unfoldable pub failure_status : Failure → ℕ
failure_status (key_error key) = 404
failure_status memory_cap = 429
failure_status concurrency_cap = 429
failure_status (unknown_profile name) = 400
failure_status (already_exists sid) = 400
failure_status (os_error why) = 400
failure_status undecodable = 400

unfoldable pub status_code : Answer → ℕ
unfolding failure_status
status_code (failed e) = failure_status e
status_code unknown_path = 404
status_code bad_json = 400
status_code _ = 200

-- What the machine does during one request: a free id, the clock, the next process, the run of a
-- command or the OSError of its start, and whether a process still runs.
pub record Machine (J : Type 0) : Type 0 where
  pub fs : FileSystem
  pub fresh : String
  pub now : ℕ
  pub pid : ℕ
  pub run : String → Result String Run
  pub polls_none : ℕ → Bool
  pub workers : Workers J

-- A command: the start of its process may fail after the cap's test.
unfoldable pub exec_started :
    SandboxEntry
    → Result String Run
    → SandboxRegistry
    → Result Failure (ExecReply × List Effect) × SandboxRegistry
unfolding exec_guard exec_in_sandbox
exec_started entry (ok run) r = exec_in_sandbox entry run r
exec_started entry (err why) r =
    let (admitted, r') = exec_guard r in
    elim admitted [ err e ↦ (err e, r') | ok _ ↦ (err (os_error why), r') ]

-- A result as the answer that is made of it.
abbrev pub answer_with :
    {A : Type 0} → (A → Answer) → Result Failure A × SandboxRegistry → Answer × SandboxRegistry
answer_with f (ok a, r) = (f a, r)
answer_with f (err e, r) = (failed e, r)

module _ {J : Type 0} (k : Machine J) where
  abbrev pub exec_found :
      Result Failure SandboxEntry → Option String → SandboxRegistry → Answer × SandboxRegistry
  exec_found (err e) cmd r = (failed e, r)
  exec_found (ok entry) none r = (failed (key_error "cmd"), r)
  exec_found (ok entry) (some cmd) r = answer_with (λ o. ran o.0) (exec_started entry (k.run cmd) r)

  unfoldable pub do_post :
      {P : Type 0} → Option (Post P) → SandboxRegistry → Answer × SandboxRegistry
  unfolding create get stop start_trajectory abort_trajectory exec_started
  do_post none r = (bad_json, r)
  do_post (some (sandbox_create profile sandbox_id ttl_s)) r =
      answer_with (λ e. created e.sandbox_id e.workdir)
        (create k.fs (Option.get_or profile "B") sandbox_id ttl_s k.fresh k.now r)
  do_post (some (sandbox_exec none cmd)) r = (failed (key_error "sandbox_id"), r)
  do_post (some (sandbox_exec (some sid) cmd)) r = exec_found (get sid r) cmd r
  do_post (some (sandbox_stop none)) r = (failed (key_error "sandbox_id"), r)
  do_post (some (sandbox_stop (some sid))) r =
      let (done, r', _) = stop k.polls_none sid r in (stopped done, r')
  do_post (some (trajectory_start req)) r =
      answer_with (λ o. started o.0) (start_trajectory k.fs.join req k.pid k.now r)
  do_post (some (trajectory_abort none)) r = (failed (key_error "traj_id"), r)
  do_post (some (trajectory_abort (some id))) r = (aborted (abort_trajectory k.workers id r).0, r)
  do_post (some other_path) r = (unknown_path, r)
