-- ===== src/Sandboxd/Exec.antt =====
-- sandboxd.py: the cap on concurrent commands. Its test and the assignment of `entry.proc` are two
-- steps, with the lock released in between.
use llm_rl_cpu_poc.Common.{
  ℕ, ◌+◌, ◌≤◌, ◌<◌, ◌≡◌, refl, ◌≢◌, String, none, some, [], ◌∷◌, arith, inl, inr, ◌⊎◌, number_key,
}
use llm_rl_cpu_poc.Common.Dict.{Dict}
use llm_rl_cpu_poc.Common.Result.{ok}
use llm_rl_cpu_poc.Sandboxd.{SandboxEntry, SandboxRegistry, running_execs}
use llm_rl_cpu_poc.Sandboxd.Command.{update_entry, exec_guard, exec_spawn}

-- No entry of the dict is the object `ident`.
abbrev pub Absent : ℕ → Dict String SandboxEntry → Type 0
Absent ident [] = Unit
Absent ident ((_, e) ∷ d) = (e.ident ≢ ident) × Absent ident d

-- The object `ident` is in the dict once, with no command in flight.
abbrev pub IsIdle : ℕ → Dict String SandboxEntry → Type 0
IsIdle ident [] = ⊥
IsIdle ident ((_, e) ∷ d) =
    ((e.ident ≡ ident) × (e.proc ≡ none) × Absent ident d) ⊎ ((e.ident ≢ ident) × IsIdle ident d)

abbrev spawned : ℕ → SandboxEntry → SandboxEntry
spawned pid e = record e { proc = some pid }

update_entry-Absent :
    (ident : ℕ) (f : SandboxEntry → SandboxEntry) (d : Dict String SandboxEntry)
    → Absent ident d
    → update_entry ident f d ≡ d
unfolding update_entry
update_entry-Absent ident f [] h = refl
update_entry-Absent ident f ((sid, e) ∷ d) h = ground (arith, update_entry-Absent ident f d h.1)

running_execs-spawn :
    (ident pid : ℕ) (d : Dict String SandboxEntry)
    → IsIdle ident d
    → running_execs (update_entry ident (spawned pid) d) ≡ running_execs d + 1
unfolding running_execs update_entry
running_execs-spawn ident pid [] h = absurd h
running_execs-spawn ident pid ((sid, e) ∷ d) (inl h) =
    ground (arith, update_entry-Absent ident (spawned pid) d)
running_execs-spawn ident pid ((sid, e) ∷ d) (inr h) =
    ground (arith, running_execs-spawn ident pid d)

Absent-update :
    (k ident pid : ℕ) (d : Dict String SandboxEntry)
    → Absent k d
    → Absent k (update_entry ident (spawned pid) d)
unfolding update_entry
Absent-update k ident pid [] h = tt
Absent-update k ident pid ((sid, e) ∷ d) h = ground (arith, Absent-update k ident pid d)

IsIdle-update :
    (k ident pid : ℕ) (d : Dict String SandboxEntry)
    → k ≢ ident
    → IsIdle k d
    → IsIdle k (update_entry ident (spawned pid) d)
unfolding update_entry
IsIdle-update k ident pid [] ne h = h
IsIdle-update k ident pid ((sid, e) ∷ d) ne (inl h) =
    inl (ground arith, ground arith, Absent-update k ident pid d h.2)
IsIdle-update k ident pid ((sid, e) ∷ d) ne (inr h) =
    inr (ground arith, IsIdle-update k ident pid d ne h.1)

-- A command whose test and assignment nothing comes between keeps the cap: a registry with at most
-- `max_concurrent_exec` running commands has no more after it.
pub exec_alone_keeps_cap :
    (ident pid : ℕ) (r r₁ : SandboxRegistry)
    → IsIdle ident r.sandboxes
    → exec_guard r ≡ (ok tt, r₁)
    → running_execs (exec_spawn ident pid r₁).sandboxes ≤ r.max_concurrent_exec
unfolding exec_guard exec_spawn
exec_alone_keeps_cap ident pid r r₁ idle h =
    let same : r₁.sandboxes ≡ r.sandboxes = ground arith in
    let room : running_execs r.sandboxes < r.max_concurrent_exec = ground arith in
    rw same (omega (arith, running_execs-spawn ident pid r.sandboxes idle, room))

-- Two commands that both pass the test before either has set `proc` pass the cap by one, wherever
-- one place is left and two sandboxes are idle.
pub exec_race_exceeds_cap :
    (a b p q : ℕ) (r : SandboxRegistry)
    → a ≢ b
    → IsIdle a r.sandboxes
    → IsIdle b r.sandboxes
    → r.max_concurrent_exec ≡ running_execs r.sandboxes + 1
    → (exec_guard r ≡ (ok tt, r))
      × (exec_guard (exec_guard r).1 ≡ (ok tt, r))
      × (running_execs (exec_spawn b q (exec_spawn a p r)).sandboxes ≡ r.max_concurrent_exec + 1)
unfolding exec_guard exec_spawn
exec_race_exceeds_cap a b p q r ne ia ib room = (
  ground arith,
  ground arith,
  ground (
    arith,
    running_execs-spawn a p r.sandboxes ia,
    running_execs-spawn b q (update_entry a (spawned p) r.sandboxes),
    IsIdle-update b a p r.sandboxes,
  ),
)
