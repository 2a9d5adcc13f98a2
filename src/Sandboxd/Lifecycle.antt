-- ===== src/Sandboxd/Lifecycle.antt =====
-- sandboxd.py: `stop` undoes `create`, and what `reap_idle` takes.
use llm_rl_cpu_poc.Common.{
  ℕ, ◌+◌, ◌<◌, ◌≤◌, ◌≡◌, ◌≢◌, ◌⊎◌, refl, ◌∙◌, ap, String, Bool, true, false, ◌||◌, Option, none,
  some, List, [], ◌∷◌, All, All-append, arith, Option-cases, inl, inr, ◌==◌, text_key,
  if◌then◌else◌, subst,
}
use llm_rl_cpu_poc.Common.Dict.{Dict, lookup, insert, erase, Distinct, lookup-insert, lookup-erase}
use llm_rl_cpu_poc.Common.Result.{ok}
use llm_rl_cpu_poc.Sandboxd.{
  SandboxEntry, SandboxRegistry, Effect, kill_group, remove_tree, FileSystem, create, stop,
  stop_effects, is_victim, victims, stop_all, reap_idle,
}
use llm_rl_cpu_poc.Sandboxd.Memory.{Creates, need_of, create-Creates}
use text.Mathlib.TextEquality.{eq_iff}

erase_absent : (k : String) (d : Dict String SandboxEntry) → lookup k d ≡ none → erase k d ≡ d
unfolding lookup erase
erase_absent k [] h = refl
erase_absent k ((j, x) ∷ d) h = ground (arith, erase_absent k d)

erase-insert :
    (k : String) (e : SandboxEntry) (d : Dict String SandboxEntry)
    → lookup k d ≡ none
    → erase k (insert k e d) ≡ d
unfolding lookup insert erase
erase-insert k e [] h = ground (arith, eq_iff k k)
erase-insert k e ((j, x) ∷ d) h = ground (arith, eq_iff j k, erase-insert k e d)

-- Stopping a sandbox right after its creation answers true and gives back the sandboxes of before.
pub stop-create :
    (fs : FileSystem) (polls_none : ℕ → Bool) (profile : String) (sandbox_id : Option String)
    (ttl : Option ℕ) (fresh : String) (now : ℕ) (r r' : SandboxRegistry) (e : SandboxEntry)
    → create fs profile sandbox_id ttl fresh now r ≡ (ok e, r')
    → ((stop polls_none e.sandbox_id r').0 ≡ true)
      × ((stop polls_none e.sandbox_id r').1 ≡ record r { created_total = r.created_total + 1 })
unfolding stop
stop-create fs polls_none profile sandbox_id ttl fresh now r r' e h =
    let (free, made, _, _) =
      subst (Creates (need_of profile) r) h
        (create-Creates fs profile sandbox_id ttl fresh now r) in
    let found : lookup e.sandbox_id r'.sandboxes ≡ some e =
      ap (λ (q : SandboxRegistry). lookup e.sandbox_id q.sandboxes) made
      ∙ ground (
        arith,
        lookup-insert e.sandbox_id e.sandbox_id e r.sandboxes,
        eq_iff e.sandbox_id e.sandbox_id,
      ) in
    let gone : erase e.sandbox_id r'.sandboxes ≡ r.sandboxes =
      ap (λ (q : SandboxRegistry). erase e.sandbox_id q.sandboxes) made
      ∙ erase-insert e.sandbox_id e r.sandboxes free in
    (ground (arith, found), ground (arith, found, gone, made))

-- `sid in sids`.
abbrev pub has : String → List String → Bool
has sid [] = false
has sid (s ∷ sids) = s == sid || has sid sids

-- No other thread touches the registry.
abbrev pub quiet : ℕ → SandboxRegistry → SandboxRegistry
quiet n r = r

lookup-stop_all :
    (polls_none : ℕ → Bool) (sids : List String) (r : SandboxRegistry) (sid : String)
    → lookup sid (stop_all quiet polls_none sids r).1.sandboxes
      ≡ (if has sid sids then none else lookup sid r.sandboxes)
unfolding stop_all stop
lookup-stop_all polls_none [] r sid = refl
lookup-stop_all polls_none (s ∷ sids) r sid = ground (
  arith,
  lookup-stop_all polls_none sids (stop polls_none s r).1 sid,
  lookup-erase s sid r.sandboxes,
  eq_iff s sid,
)

has_absent :
    (ttl now : ℕ) (sid : String) (d : Dict String SandboxEntry)
    → lookup sid d ≡ none
    → has sid (victims ttl now d) ≡ false
unfolding lookup victims
has_absent ttl now sid [] h = refl
has_absent ttl now sid ((j, e) ∷ d) h = ground (arith, has_absent ttl now sid d)

has-victims :
    (ttl now : ℕ) (sid : String) (e : SandboxEntry) (d : Dict String SandboxEntry)
    → Distinct d
    → lookup sid d ≡ some e
    → has sid (victims ttl now d) ≡ is_victim ttl now e
unfolding lookup victims
has-victims ttl now sid e [] h f = ground arith
has-victims ttl now sid e ((j, x) ∷ d) h f =
    ground (arith, has-victims ttl now sid e d, has_absent ttl now j d, eq_iff j sid)

abbrev pub KillsNothing : List Effect → Type 0
KillsNothing = All (λ e. elim e [ kill_group _ ↦ ⊥ | remove_tree _ ↦ Unit {0} ])

effects-KillsNothing :
    (polls_none : ℕ → Bool) (e : SandboxEntry)
    → e.proc ≡ none
    → KillsNothing (stop_effects polls_none e)
unfolding stop_effects
effects-KillsNothing polls_none e h = rw h (tt, tt)

stop-KillsNothing :
    (polls_none : ℕ → Bool) (s : String) (r : SandboxRegistry)
    → ((e : SandboxEntry) → lookup s r.sandboxes ≡ some e → e.proc ≡ none)
    → KillsNothing (stop polls_none s r).2
unfolding stop
stop-KillsNothing polls_none s r h = elim (Option-cases (lookup s r.sandboxes)) [
  | inl e ↦ rw (e, stop) tt
  | inr (x, e) ↦ rw (e, stop) (effects-KillsNothing polls_none x (h x e))
]

stop-shrinks :
    (polls_none : ℕ → Bool) (s sid : String) (r : SandboxRegistry) (e : SandboxEntry)
    → lookup sid (stop polls_none s r).1.sandboxes ≡ some e
    → lookup sid r.sandboxes ≡ some e
unfolding stop
stop-shrinks polls_none s sid r e h = ground (arith, lookup-erase s sid r.sandboxes)

stop_all-KillsNothing :
    (polls_none : ℕ → Bool) (sids : List String) (r : SandboxRegistry)
    → ((sid : String) (e : SandboxEntry)
        → has sid sids ≡ true
        → lookup sid r.sandboxes ≡ some e
        → e.proc ≡ none)
    → KillsNothing (stop_all quiet polls_none sids r).2
unfolding stop_all
stop_all-KillsNothing polls_none [] r h = tt
stop_all-KillsNothing polls_none (s ∷ sids) r h =
    All-append _ (stop polls_none s r).2 _
      (stop-KillsNothing polls_none s r (λ e f. h s e (ground (arith, eq_iff s s)) f))
      (stop_all-KillsNothing polls_none sids (stop polls_none s r).1
        (λ sid e m f. h sid e (ground (arith, m)) (stop-shrinks polls_none s sid r e f)))

-- The idle lease of an entry: its own, or the registry's default.
abbrev pub lease : SandboxRegistry → SandboxEntry → ℕ
lease r e = elim e.ttl_s [ none ↦ r.ttl_s | some t ↦ t ]

module _ (polls_none : ℕ → Bool) (now : ℕ) (r : SandboxRegistry)
    (distinct : Distinct r.sandboxes) where
  -- Where no id stands twice and no other thread touches the registry between the choice of the
  -- victims and the last stop, `reap_idle` splits the sandboxes in two: one with no command in flight
  -- that was idle for longer than its lease is gone after it, and one with a command in flight or still
  -- within its lease is there unchanged. No process is killed.
  pub reap_idle_lem :
      (sid : String) (e : SandboxEntry)
      → lookup sid r.sandboxes ≡ some e
      → let (_, r', fx) = reap_idle quiet polls_none now r in
        (((e.proc ≡ none) × (e.last_used_ts + lease r e < now) × (lookup sid r'.sandboxes ≡ none))
          ⊎ (((e.proc ≢ none) ⊎ (now ≤ e.last_used_ts + lease r e))
              × (lookup sid r'.sandboxes ≡ some e)))
        × KillsNothing fx
  unfolding reap_idle is_victim
  reap_idle_lem sid e f =
      let hit = has-victims r.ttl_s now sid e r.sandboxes distinct f in
      let after = lookup-stop_all polls_none (victims r.ttl_s now r.sandboxes) r sid in
      (
        ground (arith, hit, after, f),
        stop_all-KillsNothing polls_none (victims r.ttl_s now r.sandboxes) r
            (λ s x m g. ground (arith, m, has-victims r.ttl_s now s x r.sandboxes distinct g)),
      )

abbrev pub KillsIn : ℕ → List Effect → Type 0
KillsIn pid [] = ⊥
KillsIn pid (fx ∷ rest) = (fx ≡ kill_group pid) ⊎ KillsIn pid rest
