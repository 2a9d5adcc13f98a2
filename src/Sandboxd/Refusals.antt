-- ===== src/Sandboxd/Refusals.antt =====
-- sandboxd.py: what a POST that does not succeed leaves behind.
use llm_rl_cpu_poc.Common.{
  ℕ, ◌+◌, ◌≡◌, ◌⊎◌, refl, sym, subst, String, Option, none, some, leb, text_key, arith, Bool-cases,
  Option-cases, inl, inr,
}
use llm_rl_cpu_poc.Common.Dict.{lookup}
use llm_rl_cpu_poc.Common.Result.{Result, ok, err, Result-cases}
use llm_rl_cpu_poc.Sandboxd.{
  SandboxEntry, SandboxRegistry, Failure, unknown_profile, already_exists, key_error, memory_cap,
  concurrency_cap, os_error, undecodable, create, get, running_execs,
}
use llm_rl_cpu_poc.Sandboxd.Command.{Run, exec_guard, exec_spawn, exec_in_sandbox}
use llm_rl_cpu_poc.Sandboxd.Trajectories.{StartRequest, launch_of, start_trajectory}
use llm_rl_cpu_poc.Sandboxd.Http.{
  Post, sandbox_create, sandbox_exec, sandbox_stop, trajectory_start, trajectory_abort, other_path,
  Answer, created, ran, started, status_code, failure_status, Machine, exec_started, answer_with,
  exec_found, do_post,
}
use llm_rl_cpu_poc.Sandboxd.Memory.{Creates, need_of, create-Creates}
use mathlib.Core.Option

abbrev pub rejected_once : SandboxRegistry → SandboxRegistry
rejected_once r = record r { rejected_total = r.rejected_total + 1 }

-- A command's process stays assigned to its sandbox.
abbrev pub IsStuck : SandboxRegistry → SandboxRegistry → Type 0
IsStuck r r' = (ident : ℕ) × (pid : ℕ) × (r' ≡ exec_spawn ident pid r)

abbrev pub Remains : ℕ → SandboxRegistry → SandboxRegistry → Type 0
Remains status r r' =
    (r' ≡ r) ⊎ ((status ≡ 429) × (r' ≡ rejected_once r)) ⊎ ((status ≡ 400) × IsStuck r r')

abbrev IsKept : {A : Type 0} → SandboxRegistry → Result Failure A × SandboxRegistry → Type 0
IsKept r (ok a, r') = Unit
IsKept r (err e, r') = Remains (failure_status e) r r'

Creates-IsKept :
    (need : ℕ) (r : SandboxRegistry) (out : Result Failure SandboxEntry × SandboxRegistry)
    → Creates need r out
    → IsKept r out
unfolding failure_status
Creates-IsKept need r (ok e, r') c = tt
Creates-IsKept need r (err memory_cap, r') c = inr (inl (refl, c.1))
Creates-IsKept need r (err concurrency_cap, r') c = inl c
Creates-IsKept need r (err (unknown_profile name), r') c = inl c
Creates-IsKept need r (err (already_exists sid), r') c = inl c
Creates-IsKept need r (err (key_error key), r') c = inl c
Creates-IsKept need r (err (os_error why), r') c = inl c
Creates-IsKept need r (err undecodable, r') c = inl c

exec_started-IsKept :
    (entry : SandboxEntry) (run : Result String Run) (r : SandboxRegistry)
    → IsKept r (exec_started entry run r)
unfolding exec_started exec_guard exec_in_sandbox failure_status
exec_started-IsKept entry run r =
    elim (Bool-cases (leb r.max_concurrent_exec (running_execs r.sandboxes))) [
      | inl e ↦ elim run as (λ run. IsKept r (exec_started entry run r)) [
        | ok x ↦
            let refused : exec_started entry (ok x) r ≡ (err concurrency_cap, rejected_once r) =
              ground (arith, e) in
            subst (IsKept r) (sym refused) (inr (inl (refl, refl)))
        | err x ↦
            let refused : exec_started entry (err x) r ≡ (err concurrency_cap, rejected_once r) =
              ground (arith, e) in
            subst (IsKept r) (sym refused) (inr (inl (refl, refl)))
      ]
      | inr e ↦ elim run as (λ run. IsKept r (exec_started entry run r)) [
        | ok x ↦ elim (Bool-cases x.decoded) [
          | inl q ↦ rw (e, q, IsKept) tt
          | inr q ↦
              let refused : exec_started entry (ok x) r
                  ≡ (err undecodable, exec_spawn entry.ident x.pid r) =
                ground (arith, e, q) in
              subst (IsKept r) (sym refused) (inr (inr (refl, (entry.ident, x.pid, refl))))
        ]
        | err x ↦
            let refused : exec_started entry (err x) r ≡ (err (os_error x), r) =
              ground (arith, e) in
            subst (IsKept r) (sym refused) (inl refl)
      ]
    ]

start_trajectory-IsKept :
    {P : Type 0} (join : String → String → String) (req : StartRequest P) (pid now : ℕ)
    (r : SandboxRegistry)
    → IsKept r (start_trajectory join req pid now r)
unfolding start_trajectory
start_trajectory-IsKept join req pid now r = elim (Option-cases req.traj_id) [
  | inl n ↦
      let refused : start_trajectory join req pid now r ≡ (err (key_error "traj_id"), r) =
        rw (n, start_trajectory) refl in
      subst (IsKept r) (sym refused) (inl refl)
  | inr (x, q) ↦ elim (Option-cases (lookup x r.trajectories)) [
    | inr (t, known) ↦ rw (q, known, IsKept) tt
    | inl free ↦ elim (Result-cases (launch_of join req x r)) [
      | inr (f, le) ↦
          let refused : start_trajectory join req pid now r ≡ (err f, r) =
            rw (q, free, le, start_trajectory) refl in
          subst (IsKept r) (sym refused) (inl refl)
      | inl (l, le) ↦ rw (q, free, le, IsKept) tt
    ]
  ]
]

-- What is said of an answer and the registry that it leaves.
abbrev pub IsClean : SandboxRegistry → Answer × SandboxRegistry → Type 0
IsClean r (answer, r') = (status_code answer ≡ 200) ⊎ Remains (status_code answer) r r'

answer_with-IsClean :
    {A : Type 0} (f : A → Answer) (r : SandboxRegistry) (out : Result Failure A × SandboxRegistry)
    → ((a : A) → status_code (f a) ≡ 200)
    → IsKept r out
    → IsClean r (answer_with f out)
unfolding status_code
answer_with-IsClean f r (ok a, r') good h = inl (good a)
answer_with-IsClean f r (err e, r') good h = inr h

module _ {J : Type 0} (k : Machine J) where
  exec_found-IsClean :
      (found : Result Failure SandboxEntry) (cmd : Option String) (r : SandboxRegistry)
      → IsClean r (exec_found k found cmd r)
  unfolding status_code
  exec_found-IsClean (err e) cmd r = inr (inl refl)
  exec_found-IsClean (ok entry) none r = inr (inl refl)
  exec_found-IsClean (ok entry) (some cmd) r =
      answer_with-IsClean (λ o. ran o.0) r (exec_started entry (k.run cmd) r) (λ o. refl)
        (exec_started-IsKept entry (k.run cmd) r)

  -- A POST that is not answered with 200 leaves the registry as it was, but for one more counted
  -- rejection where it is answered with 429, or a command's process that stays assigned to its
  -- sandbox where it is answered with 400.
  pub do_post-IsClean :
      {P : Type 0} (request : Option (Post P)) (r : SandboxRegistry)
      → IsClean r (do_post k request r)
  unfolding do_post status_code
  do_post-IsClean none r = inr (inl refl)
  do_post-IsClean (some (sandbox_create profile sandbox_id ttl_s)) r =
      let out = create k.fs (Option.get_or profile "B") sandbox_id ttl_s k.fresh k.now r in
      answer_with-IsClean (λ e. created e.sandbox_id e.workdir) r out (λ e. refl)
        (Creates-IsKept (need_of (Option.get_or profile "B")) r out
          (create-Creates k.fs (Option.get_or profile "B") sandbox_id ttl_s k.fresh k.now r))
  do_post-IsClean (some (sandbox_exec none cmd)) r = inr (inl refl)
  do_post-IsClean (some (sandbox_exec (some sid) cmd)) r = exec_found-IsClean (get sid r) cmd r
  do_post-IsClean (some (sandbox_stop none)) r = inr (inl refl)
  do_post-IsClean (some (sandbox_stop (some sid))) r = inl refl
  do_post-IsClean (some (trajectory_start req)) r =
      answer_with-IsClean (λ o. started o.0) r (start_trajectory k.fs.join req k.pid k.now r)
        (λ o. refl) (start_trajectory-IsKept k.fs.join req k.pid k.now r)
  do_post-IsClean (some (trajectory_abort none)) r = inr (inl refl)
  do_post-IsClean (some (trajectory_abort (some id))) r = inl refl
  do_post-IsClean (some other_path) r = inr (inl refl)
