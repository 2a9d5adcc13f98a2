-- ===== src/Sandboxd/Trajectories.antt =====
-- sandboxd.py: the trajectory endpoints. The worker processes, their result files and the file
-- system are parameters.
use llm_rl_cpu_poc.Common.{
  ℕ, ◌-◌, ◌≡◌, refl, sym, ap, subst, ◌∙◌, String, Bool, true, false, Option, none, some, List, [],
  ◌∷◌, arith, Option-cases, inl, inr, ◌==◌, text_key, if◌then◌else◌,
}
use llm_rl_cpu_poc.Common.Dict.{Dict, lookup, insert, lookup-insert}
use llm_rl_cpu_poc.Common.Int.{ℤ}
use llm_rl_cpu_poc.Common.Result.{Result, ok, err, ◌>>=◌, Result-cases}
use llm_rl_cpu_poc.Sandboxd.{SandboxRegistry, Trajectory, Failure, key_error, Effect, kill_group}
use mathlib.Core.Option
use text.Mathlib.TextEquality.{eq_iff}

-- The JSON body of a start request; a missing field is `none`.
pub record StartRequest (P : Type 0) : Type 0 where
  pub traj_id : Option String
  pub run_root : Option String
  pub swe : Option P
  pub adapter_url : Option String
  pub git_dir : Option String
  pub venv : Option String
  pub max_turns : Option ℕ
  pub agent_timeout_s : Option ℕ
  pub grade_timeout_s : Option ℕ

-- The worker's command line, and the payload that its swe file holds.
pub record Launch (P : Type 0) : Type 0 where
  pub adapter_url : String
  pub sandboxd_url : String
  pub git_dir : String
  pub venv : String
  pub run_dir : String
  pub swe_file : String
  pub swe : P
  pub traj_id : String
  pub max_turns : ℕ
  pub agent_timeout_s : ℕ
  pub grade_timeout_s : ℕ

-- `req["key"]`.
abbrev pub field {ℓ} : {A : Type ℓ} → String → Option A → Result Failure A
field key none = err (key_error key)
field key (some x) = ok x

-- `req.get("run_root") or …`: an empty text counts as none.
unfoldable pub run_root_of : (String → String → String) → Option String → String → String
run_root_of join none scratch = join scratch "runs"
run_root_of join (some root) scratch = if root == "" then join scratch "runs" else root

-- The second locked part: the entry of a spawned worker.
unfoldable pub register : String → ℕ → String → ℕ → SandboxRegistry → SandboxRegistry
register traj_id pid run_dir now r = record r {
  trajectories =
      insert traj_id (record { proc = pid; run_dir = run_dir; started_ts = now }) r.trajectories;
}

module _ {P : Type 0} (join : String → String → String) where
  -- The part between the two locked ones: what is launched for a new id.
  unfoldable pub launch_of : StartRequest P → String → SandboxRegistry → Result Failure (Launch P)
  unfolding run_root_of
  launch_of req traj_id r = do
    let run_dir = join (run_root_of join req.run_root r.scratch_root) traj_id
    swe ← field "swe" req.swe
    adapter_url ← field "adapter_url" req.adapter_url
    git_dir ← field "git_dir" req.git_dir
    ok (record {
      adapter_url = adapter_url;
      sandboxd_url = r.self_url;
      git_dir = git_dir;
      venv = Option.get_or req.venv "";
      run_dir = run_dir;
      swe_file = join run_dir "swe.json";
      swe = swe;
      traj_id = traj_id;
      max_turns = Option.get_or req.max_turns 40;
      agent_timeout_s = Option.get_or req.agent_timeout_s 1800;
      grade_timeout_s = Option.get_or req.grade_timeout_s 600;
    })

  -- The whole call with nothing in between. `pid` is the worker's process if one is spawned; the
  -- launch is `none` where the id is already known.
  unfoldable pub start_trajectory :
      StartRequest P
      → ℕ
      → ℕ
      → SandboxRegistry
      → Result Failure (String × Option (Launch P)) × SandboxRegistry
  unfolding launch_of register
  start_trajectory req pid now r = elim req.traj_id [
    | none ↦ (err (key_error "traj_id"), r)
    | some traj_id ↦ elim (lookup traj_id r.trajectories) [
      | some _ ↦ (ok (traj_id, none), r)
      | none ↦ elim (launch_of req traj_id r) [
        | err e ↦ (err e, r)
        | ok launch ↦ (ok (traj_id, some launch), register traj_id pid launch.run_dir now r)
      ]
    ]
  ]

-- The parts of the call, with the lock free in between: the lookup with the launch that it leads to,
-- and the registration of the worker, if one was launched.
module _ {P : Type 0} where
  unfoldable pub start_begin :
      (String → String → String)
      → StartRequest P
      → SandboxRegistry
      → Result Failure (String × Option (Launch P))
  unfolding launch_of
  start_begin join req r = elim req.traj_id [
    | none ↦ err (key_error "traj_id")
    | some traj_id ↦ elim (lookup traj_id r.trajectories) [
      | some _ ↦ ok (traj_id, none)
      | none ↦ elim (launch_of join req traj_id r) [
        | err e ↦ err e
        | ok launch ↦ ok (traj_id, some launch)
      ]
    ]
  ]

  unfoldable pub start_end : String × Option (Launch P) → ℕ → ℕ → SandboxRegistry → SandboxRegistry
  unfolding register
  start_end (traj_id, none) pid now r = r
  start_end (traj_id, some launch) pid now r = register traj_id pid launch.run_dir now r

-- What a status request answers.
pub data State (J : Type 0) : Type 0 where
  running : State J
  done : J → State J
  failed : ℤ → List ℕ → State J

-- What a file gives: nothing where it does not exist, its contents, or an exception of decoding it.
pub data Read (A : Type 0) : Type 0 where
  absent : Read A
  contents : A → Read A
  unreadable : Read A

-- The worker's side: `poll` is the exit code once it ended, `result` the result file with its JSON,
-- `log_tail` the end of the log.
pub record Workers (J : Type 0) : Type 0 where
  pub poll : ℕ → Option ℤ
  pub result : String → Read J
  pub log_tail : String → Read (List ℕ)

module _ {J : Type 0} (w : Workers J) where
  -- None is the exception of a file that cannot be decoded.
  unfoldable pub state_of : Trajectory → Option (State J)
  state_of t = elim (w.poll t.proc) [
    | none ↦ some running
    | some rc ↦ elim (w.result t.run_dir) [
      | contents j ↦ some (done j)
      | unreadable ↦ none
      | absent ↦ elim (w.log_tail t.run_dir) [
        | contents tail ↦ some (failed rc tail)
        | absent ↦ some (failed rc [])
        | unreadable ↦ none
      ]
    ]
  ]

  -- The state with the start time and the time since then; an error of the registry, or none.
  unfoldable pub trajectory_status :
      String → ℕ → SandboxRegistry → Result Failure (Option (State J × ℕ × ℕ))
  unfolding state_of
  trajectory_status traj_id now r = elim (lookup traj_id r.trajectories) [
    | none ↦ err (key_error traj_id)
    | some t ↦
        ok (Option.map (λ (st : State J). (st, t.started_ts, now - t.started_ts)) (state_of t))
  ]

  unfoldable pub abort_trajectory : String → SandboxRegistry → Bool × List Effect
  abort_trajectory traj_id r = elim (lookup traj_id r.trajectories) [
    | none ↦ (false, [])
    | some t ↦ (true, elim (w.poll t.proc) [ none ↦ kill_group t.proc ∷ [] | some _ ↦ [] ])
  ]

pub lookup-register :
    (id dir : String) (pid now : ℕ) (r : SandboxRegistry)
    → lookup id (register id pid dir now r).trajectories
      ≡ some (record { proc = pid; run_dir = dir; started_ts = now })
unfolding register
lookup-register id dir pid now r = ground (
  arith,
  eq_iff id id,
  lookup-insert id id (record { proc = pid; run_dir = dir; started_ts = now }) r.trajectories,
)

module _ {P : Type 0} (join : String → String → String) where
  pub registered :
      (req : StartRequest P) (pid now : ℕ) (r r' : SandboxRegistry) (id : String)
      (launch : Option (Launch P))
      → start_trajectory join req pid now r ≡ (ok (id, launch), r')
      → (t : Trajectory) × (lookup id r'.trajectories ≡ some t)
  unfolding start_trajectory register
  registered req pid now r r' id launch h = elim (Option-cases req.traj_id) [
    | inl n ↦ absurd (ground (arith, n))
    | inr (x, q) ↦ elim (Option-cases (lookup x r.trajectories)) [
      | inr (t, known) ↦ (t, ground (arith, q, known))
      | inl free ↦ elim (Result-cases (launch_of join req x r)) [
        | inr (f, le) ↦ absurd (ground (arith, q, free, le))
        | inl (l, le) ↦
            let run : start_trajectory join req pid now r
                ≡ (ok (x, some l), register x pid l.run_dir now r) =
              rw (q, free, le, start_trajectory) refl in
            let same = sym run ∙ h in
            let id_same : x ≡ id = ground (
              arith,
              ap (λ (o : Result Failure (String × Option (Launch P)) × SandboxRegistry). o.0) same,
            ) in
            let r_same =
              ap
                (λ (o : Result Failure (String × Option (Launch P)) × SandboxRegistry).
                  o.1.trajectories)
                same in
            let t : Trajectory = record { proc = pid; run_dir = l.run_dir; started_ts = now } in
            (
              t,
              subst (λ i. lookup i r'.trajectories ≡ some t) id_same
                  (subst (λ (d : Dict String Trajectory). lookup x d ≡ some t) r_same
                    (lookup-register x l.run_dir pid now r)),
            )
      ]
    ]
  ]

  -- A start that is sent again, whatever else its body says, answers the same id, spawns nothing and
  -- changes nothing.
  pub start_again :
      (req again : StartRequest P) (pid now pid' now' : ℕ) (r r' : SandboxRegistry) (id : String)
      (launch : Option (Launch P))
      → start_trajectory join req pid now r ≡ (ok (id, launch), r')
      → again.traj_id ≡ some id
      → start_trajectory join again pid' now' r' ≡ (ok (id, none), r')
  unfolding start_trajectory
  start_again req again pid now pid' now' r r' id launch h e =
      ground (arith, e, registered req pid now r r' id launch h)

module _ {P : Type 0} (join : String → String → String) where
  -- The whole call is its parts.
  start_trajectory-split :
      (req : StartRequest P) (pid now : ℕ) (r : SandboxRegistry)
      → start_trajectory join req pid now r ≡ (elim (start_begin join req r) [
        | err e ↦ (err e, r)
        | ok out ↦ (ok out, start_end out pid now r)
      ])
  unfolding start_trajectory start_begin start_end
  start_trajectory-split req pid now r = elim (Option-cases req.traj_id) [
    | inl n ↦ rw (n, start_trajectory, start_begin) refl
    | inr (x, q) ↦ elim (Option-cases (lookup x r.trajectories)) [
      | inr (t, known) ↦ rw (q, known, start_trajectory, start_begin) refl
      | inl free ↦ elim (Result-cases (launch_of join req x r)) [
        | inr (f, le) ↦ rw (q, free, le, start_trajectory, start_begin) refl
        | inl (l, le) ↦ rw (q, free, le, start_trajectory, start_begin) refl
      ]
    ]
  ]
