-- ===== src/Router/Pick.antt =====
-- router.py: the choice that `pick` makes, over any history of the ring.
use llm_rl_cpu_poc.Common.{
  ℕ, ◌+◌, ◌≤◌, ◌<◌, ◌≡◌, refl, ◌∙◌, ap, sym, ◌≢◌, inl, inr, String, Option, none, some, subst,
  some_inj, [], All, arith, Bool-cases, Option-cases, ◌==◌, text_key,
}
use llm_rl_cpu_poc.Common.Dict.{lookup, insert, lookup-insert, lookup-erase, insert-Distinct}
use llm_rl_cpu_poc.Router.{
  BackendRing, new_ring, add, remove, revive, best, choose, pick, mark_failure,
}
use llm_rl_cpu_poc.Router.Best.{best_mem, best_max, best-erase, best-eq-none}
use llm_rl_cpu_poc.Router.Ring.{
  IsValid, add-IsValid, remove-IsValid, mark_failure-IsValid, revive-IsValid, revive_not_due,
  revive_registry, revive_idle, revive_remaining, revive_due,
}
use text.Mathlib.TextEquality.{eq_iff}

module _ (digest : String → String → ℕ) where
  -- `pick` found `name` at `url`, and left the ring `r'`: the name is alive and registered under
  -- that URL, and no other name that is alive scores more for the key.
  pub record Picked (key name url : String) (r' : BackendRing) : Type 0 where
    pub is_alive : lookup name r'.alive ≡ some url
    pub is_registered : lookup name r'.registry ≡ some url
    pub is_best : All (λ e. digest e.0 key ≤ digest name key) r'.alive

  -- What a pick returned and left, over the ring `r` whose revivals are done.
  abbrev pub Chosen : String → BackendRing → Option (String × String) × BackendRing → Type 0
  Chosen key r (none, r') = (r'.alive ≡ []) × (r' ≡ r) × IsValid r'
  Chosen key r (some (name, url), r') =
      Picked key name url r'
      × IsValid r'
      × (r'.alive ≡ r.alive)
      × (r'.failed ≡ r.failed)
      × (r'.revive_after_s ≡ r.revive_after_s)
      × (best (λ b. digest b key) r.alive ≡ some name)

  -- The count of a known backend goes up, and nothing else changes.
  count_known :
      (key name url : String) (r : BackendRing) (c : ℕ)
      → IsValid r
      → best (λ b. digest b key) r.alive ≡ some name
      → lookup name r.alive ≡ some url
      → lookup name r.counts ≡ some c
      → Chosen key r (some (name, url), record r { counts = insert name (c + 1) r.counts })
  count_known key name url r c v e f h = (
    record {
      is_alive = f;
      is_registered = v.listed name url f;
      is_best = best_max (λ b. digest b key) r.alive name e;
    },
    record {
      listed = v.listed;
      counted =
          λ n p. ground (arith, v.counted n, lookup-insert name n (c + 1) r.counts, eq_iff name n);
      distinct = v.distinct;
    },
    refl,
    refl,
    refl,
    e,
  )

  choose-Chosen :
      (key : String) (r : BackendRing)
      → IsValid r
      → (out : Option (String × String) × BackendRing) × (choose digest key r ≡ some out)
        × Chosen key r out
  unfolding choose
  choose-Chosen key r v = elim (Option-cases (best (λ b. digest b key) r.alive)) [
    | inl e ↦ ((none, r), ground (arith, e), (best-eq-none _ r.alive e, refl, v))
    | inr (name, e) ↦ elim (Option-cases (lookup name r.alive)) [
      | inl f ↦ absurd (best_mem (λ b. digest b key) r.alive name e f)
      | inr (url, f) ↦ elim (Option-cases (lookup name r.counts)) [
        | inl h ↦ absurd (v.counted name (ground (arith, v.listed name url f)) h)
        | inr (c, h) ↦ (
          (some (name, url), record r { counts = insert name (c + 1) r.counts }),
          ground (arith, e, f, h),
          count_known key name url r c v e f h,
        )
      ]
    ]
  ]

  -- From a valid ring `pick` never raises. Either no backend is alive and it returns none, or it
  -- returns a backend with its registered URL that scores best for the key among those that are
  -- alive after the revivals that are due. The ring stays valid.
  pub pick-Chosen :
      (now : ℕ) (key : String) (r : BackendRing)
      → IsValid r
      → (out : Option (String × String) × BackendRing) × (pick digest now key r ≡ some out)
        × Chosen key (revive now r.failed r) out
  unfolding pick
  pick-Chosen now key r v =
      choose-Chosen key (revive now r.failed r) (revive-IsValid now r.failed r v)

  -- What a returned pick chose, read back from the call.
  pub pick_inv :
      (now : ℕ) (key : String) (r : BackendRing) (out : Option (String × String) × BackendRing)
      → IsValid r
      → pick digest now key r ≡ some out
      → Chosen key (revive now r.failed r) out
  pick_inv now key r out v h =
      let (out', e, c) = pick-Chosen now key r v in
      subst (Chosen key (revive now r.failed r)) (some_inj (sym e ∙ h)) c

  -- A backend that was marked as failed is not picked before its revival is due.
  pub pick_avoids_failed :
      (failed_at now : ℕ) (key name other url : String) (r r' : BackendRing)
      → IsValid r
      → now < failed_at + r.revive_after_s
      → pick digest now key (mark_failure failed_at name r) ≡ some (some (other, url), r')
      → other ≢ name
  unfolding mark_failure
  pick_avoids_failed failed_at now key name other url r r' v early h =
      let r₁ = mark_failure failed_at name r in
      let (p, _, q, _, _, _) =
        pick_inv now key r₁ (some (other, url), r') (mark_failure-IsValid failed_at name r v) h in
      let gone : lookup name (revive now r₁.failed r₁).alive ≡ lookup name r₁.alive =
        revive_not_due now r₁.failed r₁ name (insert-Distinct name failed_at r.failed v.distinct)
          (λ t g. ground (arith, lookup-insert name name failed_at r.failed, eq_iff name name)) in
      λ same. ground (
        arith,
        gone,
        p.is_alive,
        ap (lookup name) q,
        lookup-erase name name r.alive,
        eq_iff name name,
      )

  -- Right after the revivals of a pick none is due, also with a failure noted at that moment.
  nothing_due :
      (now : ℕ) (failing : String) (r r' : BackendRing)
      → IsValid r
      → 0 < r.revive_after_s
      → r'.failed ≡ (revive now r.failed r).failed
      → r'.revive_after_s ≡ r.revive_after_s
      → (n : String) (ts : ℕ) → lookup n (insert failing now r'.failed) ≡ some ts
      → now < ts + r'.revive_after_s
  nothing_due now failing r r' v pos f a n ts h = elim (Bool-cases (failing == n)) [
    | inl e ↦ ground (arith, lookup-insert failing n now r'.failed)
    | inr e ↦
        let still : lookup n (revive now r.failed r).failed ≡ some ts =
          ground (arith, lookup-insert failing n now r'.failed, ap (lookup n) f) in
        let (noted, late) = revive_remaining now r.failed r n ts still in
        ground (arith, late ts noted)
  ]

  -- The choice at a ring where `name` scores best.
  only_choice :
      (key name url : String) (r : BackendRing) (out : Option (String × String) × BackendRing)
      → Chosen key r out
      → best (λ b. digest b key) r.alive ≡ some name
      → lookup name r.alive ≡ some url
      → (r' : BackendRing) × (out ≡ (some (name, url), r'))
  unfolding best
  only_choice key name url r (none, r') c e f = absurd (ground (arith, c.0))
  only_choice key name url r (some (n, u), r') (p, _, same, _, _, b) e f =
      (r', ground (arith, some_inj (sym b ∙ e), p.is_alive, ap (lookup n) same))

  -- Session affinity: after a pick, the failure of another backend leaves the key's choice as it is.
  pub pick_keeps_affinity :
      (now : ℕ) (key name url failing : String) (r r' : BackendRing)
      → IsValid r
      → 0 < r.revive_after_s
      → pick digest now key r ≡ some (some (name, url), r')
      → name ≢ failing
      → (r'' : BackendRing) × (pick digest now key (mark_failure now failing r')
          ≡ some (some (name, url), r''))
  unfolding mark_failure pick
  pick_keeps_affinity now key name url failing r r' v pos h ne =
      let (p, v', same, f, a, b) = pick_inv now key r (some (name, url), r') v h in
      let r₁ = mark_failure now failing r' in
      let v₁ = mark_failure-IsValid now failing r' v' in
      let idle : revive now r₁.failed r₁ ≡ r₁ =
        revive_idle now r₁.failed r₁ v₁.distinct
          (nothing_due now failing r r' v pos f (a ∙ (revive_registry now r.failed r).1)) in
      let (out, e, c) = choose-Chosen key r₁ v₁ in
      let (r'', q) =
        only_choice key name url r₁ out c
          (best-erase _ failing name r'.alive (ap (best λ b. digest b key) same ∙ b) ne)
          (ground (arith, lookup-erase failing name r'.alive, p.is_alive, eq_iff failing name)) in
      (r'', rw (idle, pick) (e ∙ ap some q))

  left_alive :
      (key name : String) (r : BackendRing) (out : Option (String × String) × BackendRing)
      → Chosen key r out
      → lookup name out.1.alive ≡ lookup name r.alive
  left_alive key name r (none, r') c = rw c.1
  left_alive key name r (some _, r') (_, _, same, _, _, _) = ap (lookup name) same

  -- A failed backend that is still registered is alive again in any pick after `revive_after_s`.
  pub pick_revives :
      (failed_at now : ℕ) (key name url : String) (r : BackendRing)
      (out : Option (String × String) × BackendRing)
      → IsValid r
      → lookup name r.registry ≡ some url
      → failed_at + r.revive_after_s ≤ now
      → pick digest now key (mark_failure failed_at name r) ≡ some out
      → lookup name out.1.alive ≡ some url
  unfolding mark_failure
  pick_revives failed_at now key name url r out v reg due h =
      let r₁ = mark_failure failed_at name r in
      let v₁ = mark_failure-IsValid failed_at name r v in
      let back : lookup name (revive now r₁.failed r₁).alive ≡ some url =
        revive_due now r₁.failed r₁ name url failed_at
          (ground (arith, lookup-insert name name failed_at r.failed, eq_iff name name)) due reg in
      left_alive key name (revive now r₁.failed r₁) out (pick_inv now key r₁ out v₁ h) ∙ back

-- The rings that a router can hold: a new one, and what its calls make of it.
pub data Reachable (digest : String → String → ℕ) : BackendRing → Type 0 where
  start : (revive_after_s : ℕ) → Reachable digest (new_ring revive_after_s)
  added :
      {r : BackendRing} (name url : String) → Reachable digest r → Reachable digest (add name url r)
  removed :
      {r : BackendRing} (name : String) → Reachable digest r → Reachable digest (remove name r)
  marked :
      {r : BackendRing} (now : ℕ) (name : String)
      → Reachable digest r
      → Reachable digest (mark_failure now name r)
  picked :
      {r r' : BackendRing} (now : ℕ) (key : String) (got : Option (String × String))
      → Reachable digest r
      → pick digest now key r ≡ some (got, r')
      → Reachable digest r'

Chosen-IsValid :
    (digest : String → String → ℕ) (key : String) (r : BackendRing)
    (out : Option (String × String) × BackendRing)
    → Chosen digest key r out
    → IsValid out.1
Chosen-IsValid digest key r (none, r') c = c.2
Chosen-IsValid digest key r (some _, r') c = c.1

-- Every ring that a history of calls can reach is valid: what is alive is registered under the same
-- URL, what is registered is counted, and no name has two failure times.
pub Reachable-IsValid :
    (digest : String → String → ℕ) {r : BackendRing} → Reachable digest r → IsValid r
unfolding new_ring lookup
Reachable-IsValid digest (start t) = record {
  listed = λ n u h. ground arith;
  counted = λ n h. absurd (h refl);
  distinct = tt;
}
Reachable-IsValid digest (added name url h) = add-IsValid name url _ (Reachable-IsValid digest h)
Reachable-IsValid digest (removed name h) = remove-IsValid name _ (Reachable-IsValid digest h)
Reachable-IsValid digest (marked now name h) =
    mark_failure-IsValid now name _ (Reachable-IsValid digest h)
Reachable-IsValid digest (picked {r = r} {r' = r'} now key got h e) =
    Chosen-IsValid digest key _ (got, r')
      (pick_inv digest now key r (got, r') (Reachable-IsValid digest h) e)
