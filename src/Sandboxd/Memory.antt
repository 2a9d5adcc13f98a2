-- ===== src/Sandboxd/Memory.antt =====
-- sandboxd.py: memory admission, on every way that `create` can end and over every history.
use llm_rl_cpu_poc.Common.{
  ℕ, ◌+◌, ◌≤◌, ◌<◌, ltb, ◌≡◌, refl, sym, ap, subst, String, Bool, Option, none, some, [], ◌∷◌,
  arith, Bool-cases, Option-cases, inl, inr, text_key, number_key,
}
use llm_rl_cpu_poc.Common.Dict.{Dict, lookup, insert, erase}
use llm_rl_cpu_poc.Common.Result.{Result, ok, err}
use llm_rl_cpu_poc.Sandbox.{Tier, tier_of, profile_of}
use llm_rl_cpu_poc.Sandboxd.{
  SandboxEntry, SandboxRegistry, new_registry, Failure, unknown_profile, already_exists, key_error,
  memory_cap, concurrency_cap, os_error, undecodable, FileSystem, mem_of, live_mem_mb, choose_id,
  new_entry, admit_entry, create, stop,
}
use llm_rl_cpu_poc.Sandboxd.Command.{
  update_entry, exec_guard, exec_spawn, exec_finish, exec_account,
}

live_mem_mb-insert :
    (sid : String) (e : SandboxEntry) (d : Dict String SandboxEntry)
    → lookup sid d ≡ none
    → live_mem_mb (insert sid e d) ≡ live_mem_mb d + mem_of e
unfolding live_mem_mb lookup insert
live_mem_mb-insert sid e [] h = omega arith
live_mem_mb-insert sid e ((j, x) ∷ d) h = ground (arith, live_mem_mb-insert sid e d)

live_mem_mb-erase :
    (sid : String) (d : Dict String SandboxEntry) → live_mem_mb (erase sid d) ≤ live_mem_mb d
unfolding live_mem_mb erase
live_mem_mb-erase sid [] = omega arith
live_mem_mb-erase sid ((j, x) ∷ d) = ground (arith, live_mem_mb-erase sid d)

-- What `create` did for a sandbox that needs `need` MB, by how it ended. A success takes a free id
-- and fits under the cap; a refusal for memory means that the sandbox would not fit, and only counts
-- itself; any other error changes nothing.
abbrev pub Creates : ℕ → SandboxRegistry → Result Failure SandboxEntry × SandboxRegistry → Type 0
Creates need r (ok e, r') =
    (lookup e.sandbox_id r.sandboxes ≡ none)
    × (r' ≡ record r {
      sandboxes = insert e.sandbox_id e r.sandboxes;
      created_total = r.created_total + 1;
    })
    × (live_mem_mb r'.sandboxes ≡ live_mem_mb r.sandboxes + need)
    × (live_mem_mb r'.sandboxes ≤ r.mem_cap_mb)
Creates need r (err memory_cap, r') =
    (r.mem_cap_mb < live_mem_mb r.sandboxes + need)
    × (r' ≡ record r { rejected_total = r.rejected_total + 1 })
Creates need r (err _, r') = r' ≡ r

-- The memory of the profile with that name; an unknown profile needs none.
abbrev pub need_of : String → ℕ
need_of profile = elim (tier_of profile) [ none ↦ 0 | some t ↦ (profile_of t).mem_mb ]

module _ (fs : FileSystem) where
  fitting_entry :
      (tier : Tier) (sid : String) (ttl : Option ℕ) (now : ℕ) (r : SandboxRegistry)
      → lookup sid r.sandboxes ≡ none
      → live_mem_mb r.sandboxes + (profile_of tier).mem_mb ≤ r.mem_cap_mb
      → let e = new_entry fs tier sid ttl now r in
        Creates (profile_of tier).mem_mb r (
          ok e,
          record r { sandboxes = insert sid e r.sandboxes; created_total = r.created_total + 1 },
        )
  unfolding new_entry
  fitting_entry tier sid ttl now r free fits =
      let e = new_entry fs tier sid ttl now r in
      let grows = live_mem_mb-insert sid e r.sandboxes free in
      (free, refl, grows, omega (arith, grows, fits))

  admit_entry-Creates :
      (tier : Tier) (sid : String) (ttl : Option ℕ) (now : ℕ) (r : SandboxRegistry)
      → Creates (profile_of tier).mem_mb r (admit_entry fs tier sid ttl now r)
  unfolding admit_entry
  admit_entry-Creates tier sid ttl now r =
      let is =
        λ (out : Result Failure SandboxEntry × SandboxRegistry)
            (eq : admit_entry fs tier sid ttl now r ≡ out)
            (c : Creates (profile_of tier).mem_mb r out).
          subst (Creates (profile_of tier).mem_mb r) (sym eq) c in
      elim (Bool-cases (ltb r.mem_cap_mb (live_mem_mb r.sandboxes + (profile_of tier).mem_mb))) [
        | inl e ↦
            is (err memory_cap, record r { rejected_total = r.rejected_total + 1 })
              (ground (arith, e)) (ground arith, refl)
        | inr e ↦ elim (Option-cases (lookup sid r.sandboxes)) [
          | inr (x, f) ↦ is (err (already_exists sid), r) (ground (arith, e, f)) refl
          | inl f ↦ elim (Bool-cases (fs.makes (fs.join r.scratch_root sid))) [
            | inr g ↦ is (err (os_error sid), r) (ground (arith, e, f, g)) refl
            | inl g ↦
                is
                  (
                    ok (new_entry fs tier sid ttl now r),
                    record r {
                      sandboxes = insert sid (new_entry fs tier sid ttl now r) r.sandboxes;
                      created_total = r.created_total + 1;
                    },
                  )
                  (ground (arith, e, f, g)) (fitting_entry tier sid ttl now r f (ground arith))
          ]
        ]
      ]

  -- `create` admits a sandbox only under a free id and within the memory cap, which the live
  -- sandboxes then still keep. A refusal for memory means that the profile's memory would pass the
  -- cap, and only counts itself; any other error leaves the registry as it was.
  pub create-Creates :
      (profile : String) (sandbox_id : Option String) (ttl : Option ℕ) (fresh : String) (now : ℕ)
      (r : SandboxRegistry)
      → Creates (need_of profile) r (create fs profile sandbox_id ttl fresh now r)
  unfolding create
  create-Creates profile sandbox_id ttl fresh now r = by_tier (tier_of profile)
    where
      by_tier :
          (t : Option Tier)
          → Creates
              (elim t [ none ↦ 0 | some t ↦ (profile_of t).mem_mb ])
              r
              (elim t [
                | none ↦ (err (unknown_profile profile), r)
                | some tier ↦ admit_entry fs tier (choose_id sandbox_id fresh) ttl now r
              ])
      by_tier none = refl
      by_tier (some t) = admit_entry-Creates t (choose_id sandbox_id fresh) ttl now r

live_mem_mb-update :
    (ident : ℕ) (f : SandboxEntry → SandboxEntry) (d : Dict String SandboxEntry)
    → ((e : SandboxEntry) → (f e).profile ≡ e.profile)
    → live_mem_mb (update_entry ident f d) ≡ live_mem_mb d
unfolding live_mem_mb update_entry
live_mem_mb-update ident f [] h = refl
live_mem_mb-update ident f ((sid, e) ∷ d) h = ground (arith, h e, live_mem_mb-update ident f d h)

-- A step that one thread makes while it holds the lock, or between two such.
pub data Step (fs : FileSystem) : SandboxRegistry → SandboxRegistry → Type 0 where
  created :
      (profile : String) (sandbox_id : Option String) (ttl : Option ℕ) (fresh : String) (now : ℕ)
      (r : SandboxRegistry)
      → Step fs r (create fs profile sandbox_id ttl fresh now r).1
  stopped :
      (polls_none : ℕ → Bool) (sid : String) (r : SandboxRegistry)
      → Step fs r (stop polls_none sid r).1
  guarded : (r : SandboxRegistry) → Step fs r (exec_guard r).1
  spawned : (ident pid : ℕ) (r : SandboxRegistry) → Step fs r (exec_spawn ident pid r)
  finished : (ident now : ℕ) (r : SandboxRegistry) → Step fs r (exec_finish ident now r)
  accounted : (wall : ℕ) (r : SandboxRegistry) → Step fs r (exec_account wall r)

pub data Reach (fs : FileSystem) (s : SandboxRegistry) : SandboxRegistry → Type 0 where
  here : Reach fs s s
  next : {t u : SandboxRegistry} → Reach fs s t → Step fs t u → Reach fs s u

-- The live sandboxes fit under the cap `bound`.
pub record Fits (bound : ℕ) (r : SandboxRegistry) : Type 0 where
  pub within : live_mem_mb r.sandboxes ≤ r.mem_cap_mb
  pub same_cap : r.mem_cap_mb ≡ bound

Creates-Fits :
    (bound need : ℕ) (r : SandboxRegistry) (out : Result Failure SandboxEntry × SandboxRegistry)
    → Fits bound r
    → Creates need r out
    → Fits bound out.1
Creates-Fits bound need r (ok e, r') v c = record {
  within = ground (arith, c.3, ap (λ (q : SandboxRegistry). q.mem_cap_mb) c.1);
  same_cap = ground (arith, ap (λ (q : SandboxRegistry). q.mem_cap_mb) c.1);
}
Creates-Fits bound need r (err memory_cap, r') v c =
    rw c.1 (record { within = v.within; same_cap = v.same_cap })
Creates-Fits bound need r (err (unknown_profile p), r') v c = rw c v
Creates-Fits bound need r (err (already_exists p), r') v c = rw c v
Creates-Fits bound need r (err (key_error p), r') v c = rw c v
Creates-Fits bound need r (err concurrency_cap, r') v c = rw c v
Creates-Fits bound need r (err (os_error p), r') v c = rw c v
Creates-Fits bound need r (err undecodable, r') v c = rw c v

Step-Fits :
    (fs : FileSystem) (bound : ℕ) {r r' : SandboxRegistry}
    → Step fs r r'
    → Fits bound r
    → Fits bound r'
unfolding stop exec_guard exec_spawn exec_finish exec_account
Step-Fits fs bound (created profile sid ttl fresh now r) v =
    Creates-Fits bound (need_of profile) r _ v (create-Creates fs profile sid ttl fresh now r)
Step-Fits fs bound (stopped polls_none sid r) v = ground (arith, live_mem_mb-erase sid r.sandboxes)
Step-Fits fs bound (guarded r) v = ground arith
Step-Fits fs bound (spawned ident pid r) v = record {
  within =
      rw (live_mem_mb-update ident (λ e. record e { proc = some pid }) r.sandboxes (λ e. refl))
        v.within;
  same_cap = v.same_cap;
}
Step-Fits fs bound (finished ident now r) v = record {
  within =
      rw
        (live_mem_mb-update ident
          (λ e. record e { proc = none; last_used_ts = now; exec_count = e.exec_count + 1 })
          r.sandboxes (λ e. refl))
        v.within;
  same_cap = v.same_cap;
}
Step-Fits fs bound (accounted wall r) v = record { within = v.within; same_cap = v.same_cap }

Reach-Fits_from :
    (fs : FileSystem) (bound : ℕ) {s r : SandboxRegistry}
    → Fits bound s
    → Reach fs s r
    → Fits bound r
Reach-Fits_from fs bound v here = v
Reach-Fits_from fs bound v (next h st) = Step-Fits fs bound st (Reach-Fits_from fs bound v h)

-- However threads interleave creations, stops and the parts of running commands, the summed memory
-- of the live sandboxes stays within the cap that the registry was made with.
pub Reach-Fits :
    (fs : FileSystem) (root url : String) (max_exec bound ttl : ℕ) {r : SandboxRegistry}
    → Reach fs (new_registry root max_exec bound ttl url) r
    → Fits bound r
unfolding new_registry live_mem_mb
Reach-Fits fs root url max_exec bound ttl h =
    Reach-Fits_from fs bound (record { within = omega arith; same_cap = refl }) h
