-- ===== src/Router/Ring.antt =====
-- router.py: the ring's invariant, and what `pick` and `mark_failure` do to the choice.
use llm_rl_cpu_poc.Common.{
  ℕ, ◌+◌, ◌≤◌, ◌<◌, ◌≡◌, refl, ◌∙◌, ◌≢◌, ◌⊎◌, inl, inr, String, none, some, List, [], ◌∷◌, arith,
  Option-cases, text_key,
}
use llm_rl_cpu_poc.Common.Dict.{
  lookup, Distinct, lookup-insert, lookup-erase, insert-Distinct, erase-Distinct,
}
use llm_rl_cpu_poc.Router.{BackendRing, add, remove, revive_one, revive, mark_failure}
use text.Mathlib.TextEquality.{eq_iff}

-- What is alive is registered under the same URL, what is registered is counted, and no name has
-- two failure times.
pub record IsValid (r : BackendRing) : Type 0 where
  pub listed : (n u : String) → lookup n r.alive ≡ some u → lookup n r.registry ≡ some u
  pub counted : (n : String) → lookup n r.registry ≢ none → lookup n r.counts ≢ none
  pub distinct : Distinct r.failed

pub add-IsValid : (name url : String) (r : BackendRing) → IsValid r → IsValid (add name url r)
unfolding add
add-IsValid name url r v = record {
  listed = λ n u h.
      ground (
        arith,
        v.listed n u,
        lookup-insert name n url r.alive,
        lookup-insert name n url r.registry,
      );
  counted = λ n h. ground (
    arith,
    v.counted n,
    lookup-insert name n url r.registry,
    lookup-insert name n 0 r.counts,
    eq_iff name n,
  );
  distinct = v.distinct;
}

pub remove-IsValid : (name : String) (r : BackendRing) → IsValid r → IsValid (remove name r)
unfolding remove
remove-IsValid name r v = record {
  listed = λ n u h.
      ground (arith, v.listed n u, lookup-erase name n r.alive, lookup-erase name n r.registry);
  counted = λ n h. ground (arith, v.counted n, lookup-erase name n r.registry);
  distinct = erase-Distinct name r.failed v.distinct;
}

pub mark_failure-IsValid :
    (now : ℕ) (name : String) (r : BackendRing) → IsValid r → IsValid (mark_failure now name r)
unfolding mark_failure
mark_failure-IsValid now name r v = record {
  listed = λ n u h. ground (arith, v.listed n u, lookup-erase name n r.alive);
  counted = v.counted;
  distinct = insert-Distinct name now r.failed v.distinct;
}

-- A name that the revival may put back is found as before, or under its registered URL.
revive_one_alive :
    (now : ℕ) (e : String × ℕ) (r : BackendRing) (n : String)
    → (lookup n (revive_one now e r).alive ≡ lookup n r.alive)
      ⊎ ((e.0 ≡ n)
          × (e.1 + r.revive_after_s ≤ now)
          × (lookup n (revive_one now e r).alive ≡ lookup n r.registry))
unfolding revive_one
revive_one_alive now (name, ts) r n = elim (Option-cases (lookup name r.registry)) [
  | inl e ↦ ground arith
  | inr (url, e) ↦ ground (arith, lookup-insert name n url r.alive, eq_iff name n)
]

revive_one-IsValid :
    (now : ℕ) (e : String × ℕ) (r : BackendRing) → IsValid r → IsValid (revive_one now e r)
unfolding revive_one
revive_one-IsValid now (name, ts) r v = record {
  listed = λ n u h. ground (arith, v.listed n u, revive_one_alive now (name, ts) r n);
  counted = λ n h. ground (arith, v.counted n);
  distinct = ground (arith, v.distinct, erase-Distinct name r.failed);
}

pub revive-IsValid :
    (now : ℕ) (es : List (String × ℕ)) (r : BackendRing) → IsValid r → IsValid (revive now es r)
unfolding revive
revive-IsValid now [] r v = v
revive-IsValid now (e ∷ es) r v = revive-IsValid now es _ (revive_one-IsValid now e r v)

pub revive_one_registry :
    (now : ℕ) (e : String × ℕ) (r : BackendRing)
    → ((revive_one now e r).registry ≡ r.registry)
      × ((revive_one now e r).revive_after_s ≡ r.revive_after_s)
unfolding revive_one
revive_one_registry now (name, ts) r = ground arith

-- A name whose failure in the snapshot is not due is found after the revivals as before them.
pub revive_not_due :
    (now : ℕ) (es : List (String × ℕ)) (r : BackendRing) (n : String)
    → Distinct es
    → ((ts : ℕ) → lookup n es ≡ some ts → now < ts + r.revive_after_s)
    → lookup n (revive now es r).alive ≡ lookup n r.alive
unfolding revive lookup
revive_not_due now [] r n d late = refl
revive_not_due now ((m, ts) ∷ es) r n d late =
    let (same, after) = revive_one_registry now (m, ts) r in
    let step : lookup n (revive_one now (m, ts) r).alive ≡ lookup n r.alive =
      ground (arith, revive_one_alive now (m, ts) r n, late ts, eq_iff m n) in
    revive_not_due now es (revive_one now (m, ts) r) n d.1
      (λ t h. ground (arith, late t, after, eq_iff m n, d.0))
    ∙ step

pub revive_registry :
    (now : ℕ) (es : List (String × ℕ)) (r : BackendRing)
    → ((revive now es r).registry ≡ r.registry)
      × ((revive now es r).revive_after_s ≡ r.revive_after_s)
unfolding revive
revive_registry now [] r = (refl, refl)
revive_registry now (e ∷ es) r =
    let (p, q) = revive_one_registry now e r in
    let (p', q') = revive_registry now es (revive_one now e r) in (p' ∙ p, q' ∙ q)

-- Where nothing is due, the loop changes nothing.
pub revive_idle :
    (now : ℕ) (es : List (String × ℕ)) (r : BackendRing)
    → Distinct es
    → ((n : String) (ts : ℕ) → lookup n es ≡ some ts → now < ts + r.revive_after_s)
    → revive now es r ≡ r
unfolding revive lookup revive_one
revive_idle now [] r d late = refl
revive_idle now ((m, ts) ∷ es) r d late =
    let here : now < ts + r.revive_after_s = late m ts (ground (arith, eq_iff m m)) in
    let step : revive_one now (m, ts) r ≡ r = ground arith in
    rw step (revive_idle now es r d.1 (λ n t h. late n t (ground (arith, eq_iff m n, d.0))))

-- A failure that is still noted after the loop was noted before it, and is not due.
pub revive_remaining :
    (now : ℕ) (es : List (String × ℕ)) (r : BackendRing) (n : String) (ts : ℕ)
    → lookup n (revive now es r).failed ≡ some ts
    → (lookup n r.failed ≡ some ts) × ((t : ℕ) → lookup n es ≡ some t → now < t + r.revive_after_s)
unfolding revive lookup revive_one
revive_remaining now [] r n ts h = (h, λ t p. ground arith)
revive_remaining now ((m, t₀) ∷ es) r n ts h =
    let (p, q) = revive_remaining now es (revive_one now (m, t₀) r) n ts h in
    let after = (revive_one_registry now (m, t₀) r).1 in
    (
      ground (arith, p, lookup-erase m n r.failed),
      λ t g. ground (arith, p, q t, after, lookup-erase m n r.failed, eq_iff m n),
    )

-- The loop leaves a name as it was, or puts it back under its registered URL.
revive_alive :
    (now : ℕ) (es : List (String × ℕ)) (r : BackendRing) (n : String)
    → (lookup n (revive now es r).alive ≡ lookup n r.alive)
      ⊎ (lookup n (revive now es r).alive ≡ lookup n r.registry)
unfolding revive
revive_alive now [] r n = inl refl
revive_alive now (e ∷ es) r n = ground (
  arith,
  revive_one_alive now e r n,
  revive_alive now es (revive_one now e r) n,
  (revive_one_registry now e r).0,
)

-- A registered name whose failure is due is alive after the loop.
pub revive_due :
    (now : ℕ) (es : List (String × ℕ)) (r : BackendRing) (n url : String) (ts : ℕ)
    → lookup n es ≡ some ts
    → ts + r.revive_after_s ≤ now
    → lookup n r.registry ≡ some url
    → lookup n (revive now es r).alive ≡ some url
unfolding revive lookup revive_one
revive_due now [] r n url ts h due reg = ground arith
revive_due now ((m, t₀) ∷ es) r n url ts h due reg =
    let (same, after) = revive_one_registry now (m, t₀) r in
    ground (
      arith,
      eq_iff m n,
      same,
      after,
      revive_due now es (revive_one now (m, t₀) r) n url ts,
      revive_alive now es (revive_one now (m, t₀) r) n,
      lookup-insert m n url r.alive,
    )
