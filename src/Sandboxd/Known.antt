-- ===== src/Sandboxd/Known.antt =====
-- sandboxd.py: a trajectory that was started stays known.
use llm_rl_cpu_poc.Common.{
  ℕ, ◌≡◌, ◌≢◌, refl, subst, ap, ◌∙◌, String, Bool, Option, none, some, List, [], ◌∷◌, arith,
  Option-cases, inl, inr, text_key, ◌==◌, Bool-cases,
}
use llm_rl_cpu_poc.Common.Dict.{lookup, lookup-insert}
use llm_rl_cpu_poc.Common.Int.{ℤ}
use llm_rl_cpu_poc.Common.Float.{Float}
use llm_rl_cpu_poc.Common.Result.{Result, ok, err, Result-cases}
use llm_rl_cpu_poc.Sandboxd.{
  SandboxEntry, Trajectory, SandboxRegistry, Failure, create, admit_entry, get, stop,
}
use llm_rl_cpu_poc.Sandboxd.Command.{Run, exec_guard, exec_in_sandbox}
use llm_rl_cpu_poc.Sandboxd.Trajectories.{
  StartRequest, Launch, launch_of, register, State, running, done, failed, Read, absent, contents,
  unreadable, Workers, state_of, trajectory_status, start_trajectory, registered,
}
use llm_rl_cpu_poc.Sandboxd.Http.{
  Post, sandbox_create, sandbox_exec, sandbox_stop, trajectory_start, trajectory_abort, other_path,
  Answer, created, ran, started, Machine, exec_started, answer_with, exec_found, do_post,
}
use llm_rl_cpu_poc.Sandboxd.Get.{trajectory_page, Proc, page_code, do_get}
use mathlib.Core.Option

-- The registry knows a trajectory.
abbrev pub IsKnown : String → SandboxRegistry → Type 0
IsKnown id r = (t : Trajectory) × (lookup id r.trajectories ≡ some t)

create_keeps :
    {J : Type 0} (k : Machine J) (profile : String) (sandbox_id : Option String) (ttl_s : Option ℕ)
    (r : SandboxRegistry)
    → (create k.fs profile sandbox_id ttl_s k.fresh k.now r).1.trajectories ≡ r.trajectories
unfolding create admit_entry
create_keeps k profile sandbox_id ttl_s r = ground arith

exec_keeps :
    (entry : SandboxEntry) (run : Result String Run) (r : SandboxRegistry)
    → (exec_started entry run r).1.trajectories ≡ r.trajectories
unfolding exec_started exec_in_sandbox exec_guard
exec_keeps entry (ok run) r = ground arith
exec_keeps entry (err why) r = ground arith

stop_keeps :
    (polls_none : ℕ → Bool) (sid : String) (r : SandboxRegistry)
    → (stop polls_none sid r).1.trajectories ≡ r.trajectories
unfolding stop
stop_keeps polls_none sid r = ground arith

register-IsKnown :
    (id traj_id dir : String) (pid now : ℕ) (r : SandboxRegistry)
    → IsKnown id r
    → IsKnown id (register traj_id pid dir now r)
unfolding register
register-IsKnown id traj_id dir pid now r (t, h) = elim (Bool-cases (traj_id == id)) [
  | inl e ↦ (made, lookup-insert traj_id id made r.trajectories ∙ rw e refl)
  | inr e ↦ (t, lookup-insert traj_id id made r.trajectories ∙ rw e h)
]
  where
    made : Trajectory
    made = record { proc = pid; run_dir = dir; started_ts = now }

start_trajectory-IsKnown :
    {P : Type 0} (join : String → String → String) (req : StartRequest P) (pid now : ℕ)
    (id : String) (r : SandboxRegistry)
    → IsKnown id r
    → IsKnown id (start_trajectory join req pid now r).1
unfolding start_trajectory
start_trajectory-IsKnown join req pid now id r h = elim (Option-cases req.traj_id) [
  | inl n ↦ rw (n, start_trajectory) h
  | inr (x, q) ↦ elim (Option-cases (lookup x r.trajectories)) [
    | inr (t, known) ↦ rw (q, known, start_trajectory) h
    | inl free ↦ elim (Result-cases (launch_of join req x r)) [
      | inr (f, le) ↦ rw (q, free, le, start_trajectory) h
      | inl (l, le) ↦
          rw (q, free, le, start_trajectory) (register-IsKnown id x l.run_dir pid now r h)
    ]
  ]
]

answer_with-IsKnown :
    {A : Type 0} (f : A → Answer) (id : String) (r : SandboxRegistry)
    (out : Result Failure A × SandboxRegistry)
    → IsKnown id out.1
    → IsKnown id (answer_with f out).1
answer_with-IsKnown f id r (ok a, r') h = h
answer_with-IsKnown f id r (err e, r') h = h

same-IsKnown :
    (id : String) (r r' : SandboxRegistry)
    → r'.trajectories ≡ r.trajectories
    → IsKnown id r
    → IsKnown id r'
same-IsKnown id r r' e (t, h) = (t, ap (λ d. lookup id d) e ∙ h)

module _ {J : Type 0} where
  -- The worker's files can be decoded.
  abbrev pub IsReadable : Workers J → Type 0
  IsReadable w = (dir : String) → (w.result dir ≢ unreadable) × (w.log_tail dir ≢ unreadable)

  state_of-some :
      (w : Workers J) (t : Trajectory) → IsReadable w → (st : State J) × (state_of w t ≡ some st)
  unfolding state_of
  state_of-some w t h = by_poll (w.poll t.proc) refl
    where
      by_log :
          (rc : ℤ) (o : Read (List ℕ))
          → w.log_tail t.run_dir ≡ o
          → w.poll t.proc ≡ some rc
          → w.result t.run_dir ≡ absent
          → (st : State J) × (state_of w t ≡ some st)
      by_log rc unreadable q e n = absurd ((h t.run_dir).1 q)
      by_log rc absent q e n = (failed rc [], rw (e, n, q, state_of) refl)
      by_log rc (contents tail) q e n = (failed rc tail, rw (e, n, q, state_of) refl)

      by_result :
          (rc : ℤ) (o : Read J)
          → w.result t.run_dir ≡ o
          → w.poll t.proc ≡ some rc
          → (st : State J) × (state_of w t ≡ some st)
      by_result rc unreadable q e = absurd ((h t.run_dir).0 q)
      by_result rc absent q e = by_log rc (w.log_tail t.run_dir) refl e q
      by_result rc (contents j) q e = (done j, rw (e, q, state_of) refl)

      by_poll : (o : Option ℤ) → w.poll t.proc ≡ o → (st : State J) × (state_of w t ≡ some st)
      by_poll none q = (running, rw (q, state_of) refl)
      by_poll (some rc) q = by_result rc (w.result t.run_dir) refl q

module _ {J P : Type 0} where
  do_post-IsKnown :
      (k : Machine J) (p : Option (Post P)) (id : String) (r : SandboxRegistry)
      → IsKnown id r
      → IsKnown id (do_post k p r).1
  unfolding do_post
  do_post-IsKnown k none id r h = h
  do_post-IsKnown k (some (sandbox_create profile sandbox_id ttl_s)) id r h =
      let out = create k.fs (Option.get_or profile "B") sandbox_id ttl_s k.fresh k.now r in
      answer_with-IsKnown (λ e. created e.sandbox_id e.workdir) id r out
        (same-IsKnown id r out.1 (create_keeps k (Option.get_or profile "B") sandbox_id ttl_s r) h)
  do_post-IsKnown k (some (sandbox_exec none cmd)) id r h = h
  do_post-IsKnown k (some (sandbox_exec (some sid) cmd)) id r h = found (get sid r) cmd
    where
      found :
          (e : Result Failure SandboxEntry) (cmd : Option String)
          → IsKnown id (exec_found k e cmd r).1
      found (err e) cmd = h
      found (ok entry) none = h
      found (ok entry) (some cmd) =
          let out = exec_started entry (k.run cmd) r in
          answer_with-IsKnown (λ o. ran o.0) id r out
            (same-IsKnown id r out.1 (exec_keeps entry (k.run cmd) r) h)
  do_post-IsKnown k (some (sandbox_stop none)) id r h = h
  do_post-IsKnown k (some (sandbox_stop (some sid))) id r h =
      same-IsKnown id r (stop k.polls_none sid r).1 (stop_keeps k.polls_none sid r) h
  do_post-IsKnown k (some (trajectory_start req)) id r h =
      let out = start_trajectory k.fs.join req k.pid k.now r in
      answer_with-IsKnown (λ o. started o.0) id r out
        (start_trajectory-IsKnown k.fs.join req k.pid k.now id r h)
  do_post-IsKnown k (some (trajectory_abort none)) id r h = h
  do_post-IsKnown k (some (trajectory_abort (some x))) id r h = h
  do_post-IsKnown k (some other_path) id r h = h

  -- Requests that the daemon serves one after the other, each with what the machine does then.
  unfoldable pub serve_all : List (Machine J × Option (Post P)) → SandboxRegistry → SandboxRegistry
  unfolding do_post
  serve_all [] r = r
  serve_all ((k, p) ∷ rest) r = serve_all rest (do_post k p r).1

  serve_all-IsKnown :
      (later : List (Machine J × Option (Post P))) (id : String) (r : SandboxRegistry)
      → IsKnown id r
      → IsKnown id (serve_all later r)
  unfolding serve_all
  serve_all-IsKnown [] id r h = h
  serve_all-IsKnown ((k, p) ∷ rest) id r h =
      serve_all-IsKnown rest id (do_post k p r).1 (do_post-IsKnown k p id r h)

  start-IsKnown :
      (k : Machine J) (req : StartRequest P) (r r' : SandboxRegistry) (id : String)
      → do_post k (some (trajectory_start req)) r ≡ (started id, r')
      → IsKnown id r'
  unfolding do_post
  start-IsKnown k req r r' id h = go (start_trajectory k.fs.join req k.pid k.now r) refl h
    where
      go :
          (out : Result Failure (String × Option (Launch P)) × SandboxRegistry)
          → start_trajectory k.fs.join req k.pid k.now r ≡ out
          → answer_with (λ o. started o.0) out ≡ (started id, r')
          → IsKnown id r'
      go (err e, r₂) run h = absurd (ground (arith, h))
      go (ok (x, launch), r₂) run h =
          let (t, q) = registered k.fs.join req k.pid k.now r r₂ x launch run in
          let same : x ≡ id = ground (arith, h) in
          let kept : r₂ ≡ r' = ground (arith, h) in
          (
            t,
            subst (λ i. lookup i r'.trajectories ≡ some t) same
                (subst (λ (y : SandboxRegistry). lookup x y.trajectories ≡ some t) kept q),
          )

  -- Once a start of a trajectory was answered, and where the files that its worker leaves can be
  -- decoded, a status request whose first part behind `trajectory` is its id is answered with 200,
  -- whatever requests the daemon has served in between.
  pub do_get-serve_all :
      (fl : Float) (k : Machine J) (req : StartRequest P) (r r' : SandboxRegistry) (id : String)
      (later : List (Machine J × Option (Post P))) (w : Workers J) (polls_none : ℕ → Bool)
      (proc : Proc fl.F) (now : ℕ) (further : List String)
      → do_post k (some (trajectory_start req)) r ≡ (started id, r')
      → IsReadable w
      → page_code
          (do_get fl w polls_none proc now (trajectory_page id further) (serve_all later r'))
        ≡ some 200
  unfolding do_get page_code trajectory_status
  do_get-serve_all fl k req r r' id later w polls_none proc now further h readable =
      let (t, q) = serve_all-IsKnown later id r' (start-IsKnown k req r r' id h) in
      let (st, n) = state_of-some w t readable in ground (arith, q, n)
