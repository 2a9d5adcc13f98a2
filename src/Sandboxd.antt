-- ===== src/Sandboxd.antt =====
-- rl_sim/sandboxd.py: the registry of sandboxes on node2. A method that mutates returns the new
-- registry; a method that raises returns it too. Times are natural numbers of one unit.
pub mod Command
pub mod Memory
pub mod Lifecycle
pub mod Exec
pub mod Trajectories
pub mod Http
pub mod Refusals
pub mod Get
pub mod Known
mod HttpTests
mod Tests
use llm_rl_cpu_poc.Common.{
  ℕ, zero, suc, ◌+◌, ltb, leb, String, Bool, true, false, not, ◌&&◌, Option, none, some, List, [],
  ◌∷◌, ◌++◌, length, drop, ◌-◌, ◌==◌, text_key, number_key, if◌then◌else◌,
}
use llm_rl_cpu_poc.Common.Dict.{Dict, lookup, insert, erase, contains}
use llm_rl_cpu_poc.Common.Result.{Result, ok, err}
use llm_rl_cpu_poc.Common.Int.{ℤ}
use llm_rl_cpu_poc.Sandbox.{
  Tier, tier_of, profile_of, Word, word, with_pair, isolation_prefix, limits,
}
use Prim.Native.String.{◌++◌ as str_append}

-- `ident` is the identity of the Python object: another entry under the same id is another object.
pub record SandboxEntry : Type 0 where
  pub ident : ℕ
  pub sandbox_id : String
  pub workdir : String
  pub profile : Tier
  pub ttl_s : Option ℕ
  pub created_ts : ℕ
  pub last_used_ts : ℕ
  pub proc : Option ℕ
  pub exec_count : ℕ

-- A started worker: its process id, its run directory and its start time.
pub record Trajectory : Type 0 where
  pub proc : ℕ
  pub run_dir : String
  pub started_ts : ℕ

pub record SandboxRegistry : Type 0 where
  pub scratch_root : String
  pub max_concurrent_exec : ℕ
  pub mem_cap_mb : ℕ
  pub ttl_s : ℕ
  pub self_url : String
  pub sandboxes : Dict String SandboxEntry
  pub trajectories : Dict String Trajectory
  pub created_total : ℕ
  pub exec_total : ℕ
  pub rejected_total : ℕ
  pub exec_wall_total : ℕ

unfoldable pub new_registry : String → ℕ → ℕ → ℕ → String → SandboxRegistry
new_registry scratch_root max_concurrent_exec mem_cap_mb ttl_s self_url = record {
  scratch_root = scratch_root;
  max_concurrent_exec = max_concurrent_exec;
  mem_cap_mb = mem_cap_mb;
  ttl_s = ttl_s;
  self_url = self_url;
  sandboxes = [];
  trajectories = [];
  created_total = 0;
  exec_total = 0;
  rejected_total = 0;
  exec_wall_total = 0;
}

-- The exceptions of the registry's methods.
pub data Failure : Type 0 where
  unknown_profile already_exists : String → Failure
  key_error : String → Failure
  memory_cap concurrency_cap : Failure
  os_error : String → Failure
  undecodable : Failure

-- What a method does to the machine.
pub data Effect : Type 0 where
  kill_group : ℕ → Effect
  remove_tree : String → Effect

abbrev pub mem_of : SandboxEntry → ℕ
mem_of e = (profile_of e.profile).mem_mb

unfoldable pub live_mem_mb : Dict String SandboxEntry → ℕ
live_mem_mb [] = 0
live_mem_mb ((_, e) ∷ d) = mem_of e + live_mem_mb d

-- `sandbox_id or f"sb-{uuid…}"`: an empty text counts as none.
unfoldable pub choose_id : Option String → String → String
choose_id none fresh = str_append "sb-" fresh
choose_id (some sid) fresh = if sid == "" then str_append "sb-" fresh else sid

-- `os.path.join`, and whether `makedirs` finds the directory free.
pub record FileSystem : Type 0 where
  pub join : String → String → String
  pub makes : String → Bool

module _ (fs : FileSystem) where
  -- The entry that `create` makes.
  unfoldable pub new_entry : Tier → String → Option ℕ → ℕ → SandboxRegistry → SandboxEntry
  new_entry tier sid ttl_s now r = record {
    ident = r.created_total;
    sandbox_id = sid;
    workdir = fs.join r.scratch_root sid;
    profile = tier;
    ttl_s = ttl_s;
    created_ts = now;
    last_used_ts = now;
    proc = none;
    exec_count = 0;
  }

  -- The body of `create` under the lock, for a known profile.
  unfoldable pub admit_entry :
      Tier → String → Option ℕ → ℕ → SandboxRegistry → Result Failure SandboxEntry × SandboxRegistry
  unfolding new_entry
  admit_entry tier sid ttl_s now r =
      if ltb r.mem_cap_mb (live_mem_mb r.sandboxes + (profile_of tier).mem_mb)
      then (err memory_cap, record r { rejected_total = r.rejected_total + 1 })
      else if contains sid r.sandboxes
      then (err (already_exists sid), r)
      else if not (fs.makes (fs.join r.scratch_root sid))
      then (err (os_error sid), r)
      else (let entry = new_entry tier sid ttl_s now r in
          (
            ok entry,
            record r {
              sandboxes = insert sid entry r.sandboxes;
              created_total = r.created_total + 1;
            },
          ))

  unfoldable pub create :
      String
      → Option String
      → Option ℕ
      → String
      → ℕ
      → SandboxRegistry
      → Result Failure SandboxEntry × SandboxRegistry
  unfolding admit_entry tier_of choose_id
  create profile sandbox_id ttl_s fresh now r = elim (tier_of profile) [
    | none ↦ (err (unknown_profile profile), r)
    | some tier ↦ admit_entry tier (choose_id sandbox_id fresh) ttl_s now r
  ]

unfoldable pub get : String → SandboxRegistry → Result Failure SandboxEntry
get sandbox_id r = elim (lookup sandbox_id r.sandboxes) [
  | none ↦ err (key_error sandbox_id)
  | some e ↦ ok e
]

-- The machine work of `stop`: `polls_none pid` says that the process still runs.
unfoldable pub stop_effects : (ℕ → Bool) → SandboxEntry → List Effect
stop_effects polls_none e = elim e.proc [
  | none ↦ remove_tree e.workdir ∷ []
  | some pid ↦
      if polls_none pid
      then kill_group pid ∷ remove_tree e.workdir ∷ []
      else remove_tree e.workdir ∷ []
]

unfoldable pub stop : (ℕ → Bool) → String → SandboxRegistry → Bool × SandboxRegistry × List Effect
unfolding stop_effects
stop polls_none sandbox_id r = elim (lookup sandbox_id r.sandboxes) [
  | none ↦ (false, r, [])
  | some e ↦
      (true, record r { sandboxes = erase sandbox_id r.sandboxes }, stop_effects polls_none e)
]

-- The test of `reap_idle` on one entry: no command in flight, and idle for more than its lease.
unfoldable pub is_victim : ℕ → ℕ → SandboxEntry → Bool
is_victim default_ttl now e =
    let ttl : ℕ = elim e.ttl_s [ none ↦ default_ttl | some t ↦ t ] in
    elim e.proc [ none ↦ ltb (e.last_used_ts + ttl) now | some _ ↦ false ]

unfoldable pub victims : ℕ → ℕ → Dict String SandboxEntry → List String
unfolding is_victim
victims default_ttl now [] = []
victims default_ttl now ((sid, e) ∷ d) =
    let rest = victims default_ttl now d in if is_victim default_ttl now e then sid ∷ rest else rest

-- The comprehension that stops the victims and lists those that were still there. The lock is free
-- before each stop: `others n` is what other threads do to the registry before the n-th.
unfoldable pub stop_all :
    (ℕ → SandboxRegistry → SandboxRegistry)
    → (ℕ → Bool)
    → List String
    → SandboxRegistry
    → List String × SandboxRegistry × List Effect
unfolding stop
stop_all others polls_none [] r = ([], r, [])
stop_all others polls_none (sid ∷ sids) r =
    let (done, r₁, fx) = stop polls_none sid (others 0 r) in
    let (reaped, r₂, more) = stop_all (λ n. others (suc n)) polls_none sids r₁ in
    (if done then sid ∷ reaped else reaped, r₂, fx ++ more)

-- The victims are chosen under the lock, and stopped one by one behind it.
unfoldable pub reap_idle :
    (ℕ → SandboxRegistry → SandboxRegistry)
    → (ℕ → Bool)
    → ℕ
    → SandboxRegistry
    → List String × SandboxRegistry × List Effect
unfolding stop_all victims
reap_idle others polls_none now r = stop_all others polls_none (victims r.ttl_s now r.sandboxes) r

-- `sum(1 for e in sandboxes.values() if e.proc)`.
unfoldable pub running_execs : Dict String SandboxEntry → ℕ
running_execs [] = 0
running_execs ((_, e) ∷ d) = elim e.proc [ none ↦ 0 | some _ ↦ 1 ] + running_execs d

-- `sum(1 for t in trajectories.values() if t["proc"].poll() is None)`.
unfoldable pub active_trajectories : (ℕ → Bool) → Dict String Trajectory → ℕ
active_trajectories polls_none [] = 0
active_trajectories polls_none ((_, t) ∷ d) =
    (if polls_none t.proc then 1 else 0) + active_trajectories polls_none d

pub record Stats : Type 0 where
  pub active_sandboxes : ℕ
  pub live_mem : ℕ
  pub mem_cap : ℕ
  pub created : ℕ
  pub execs : ℕ
  pub rejected : ℕ
  pub exec_wall : ℕ
  pub running : ℕ
  pub trajectories_active : ℕ
  pub trajectories_total : ℕ

unfoldable pub stats : (ℕ → Bool) → SandboxRegistry → Stats
stats polls_none r = record {
  active_sandboxes = length r.sandboxes;
  live_mem = live_mem_mb r.sandboxes;
  mem_cap = r.mem_cap_mb;
  created = r.created_total;
  execs = r.exec_total;
  rejected = r.rejected_total;
  exec_wall = r.exec_wall_total;
  running = running_execs r.sandboxes;
  trajectories_active = active_trajectories polls_none r.trajectories;
  trajectories_total = length r.trajectories;
}
