-- ===== src/Router/Forward.antt =====
-- router.py: what a forwarded call does to the ring, on every way that it can end.
use llm_rl_cpu_poc.Common.{
  ℕ, zero, suc, ◌+◌, ◌-◌, ◌≤◌, ◌<◌, leb, ltb, ◌≡◌, refl, ◌∙◌, sym, ◌≢◌, ◌⊎◌, inl, inr, String,
  Option, none, some, [], ◌∷◌, ◌&&◌, arith, Bool-cases, subst, length, length-append, text_key,
  if◌then◌else◌,
}
use llm_rl_cpu_poc.Common.Dict.{lookup}
use llm_rl_cpu_poc.Common.Result.{ok, err}
use llm_rl_cpu_poc.Router.{
  BackendRing, pick, mark_failure, revive, Outcome, reply, http_error, transport_error, uncaught,
  no_alive_backends, key_error, request_rejected, all_backends_failed, raised, Surroundings,
  attempts, forward_inner, Router, forward, Answer, settle, try_picked,
}
use llm_rl_cpu_poc.Router.Ring.{IsValid, mark_failure-IsValid, revive_registry}
use llm_rl_cpu_poc.Router.Pick.{Chosen, pick-Chosen, pick_inv, pick_avoids_failed}
use Prim.Native.String.{◌++◌ as str_append}

-- An answer that `_forward_inner` takes for a failure of the backend.
abbrev pub Fails : {R : Type 0} → Outcome R → Type 0
Fails (reply _) = ⊥
Fails (http_error code _) = (code < 400) ⊎ (500 ≤ code)
Fails (transport_error _) = Unit
Fails (uncaught _) = ⊥

module _ (digest : String → String → ℕ) {Q R : Type 0} (env : Surroundings Q R) where
  -- How a call may end: never by a KeyError, and a backend that rejected the request is alive.
  abbrev pub EndsWell : Answer R → Type 0
  EndsWell (ok (_, name), r) = IsValid r × (lookup name r.alive ≢ none)
  EndsWell (err no_alive_backends, r) = IsValid r × (r.alive ≡ [])
  EndsWell (err key_error, r) = ⊥
  EndsWell (err (request_rejected name code _), r) =
      IsValid r × (lookup name r.alive ≢ none) × (400 ≤ code) × (code < 500)
  EndsWell (err (all_backends_failed _), r) = IsValid r
  EndsWell (err (raised _), r) = IsValid r

  settle-EndsWell :
      (again : String → Answer R) (name : String) (r : BackendRing) (o : Outcome R)
      → IsValid r
      → lookup name r.alive ≢ none
      → ((why : String) → EndsWell (again why))
      → EndsWell (settle again name r o)
  unfolding settle
  settle-EndsWell again name r (reply out) v a h = (v, a)
  settle-EndsWell again name r (http_error code body) v a h =
      elim (Bool-cases (leb 400 code && ltb code 500)) [
        | inl e ↦
            subst
              (λ b. EndsWell (if b then (err (request_rejected name code body), r) else again body))
              (sym e) (v, a, ground arith, ground arith)
        | inr e ↦
            subst
              (λ b. EndsWell (if b then (err (request_rejected name code body), r) else again body))
              (sym e) (h body)
      ]
  settle-EndsWell again name r (transport_error why) v a h = h why
  settle-EndsWell again name r (uncaught why) v a h = v

  try_picked-EndsWell :
      (failed_at : ℕ) (key : String) (post : String → Outcome R)
      (again : String → BackendRing → Answer R) (r r₀ : BackendRing)
      (out : Option (String × String) × BackendRing)
      → Chosen digest key r₀ out
      → ((why : String) (marked : BackendRing) → IsValid marked → EndsWell (again why marked))
      → EndsWell (try_picked failed_at post again r (some out))
  unfolding try_picked
  try_picked-EndsWell failed_at key post again r r₀ (none, r₁) (e, _, v) h = (v, e)
  try_picked-EndsWell failed_at key post again r r₀ (some (name, base), r₁) c h =
      settle-EndsWell _ name r₁ (post base) c.1 (ground (arith, c.0.is_alive))
        (λ why. h why _ (mark_failure-IsValid failed_at name r₁ c.1))

  attempts-EndsWell :
      (left i : ℕ) (last : Option String) (path : String) (q : Q) (key : String) (r : BackendRing)
      → IsValid r
      → EndsWell (attempts digest env left i last path q key r)
  unfolding attempts
  attempts-EndsWell zero i last path q key r v = v
  attempts-EndsWell (suc left) i last path q key r v =
      let (out, e, c) = pick-Chosen digest (env.pick_time i) key r v in
      let post = λ (base : String). env.post i (str_append base path) q in
      let again = λ (why : String) (marked : BackendRing).
        attempts digest env left (i + 1) (some why) path q key marked in
      subst (λ o. EndsWell (try_picked (env.failure_time i) post again r o)) (sym e)
        (try_picked-EndsWell (env.failure_time i) key post again r
          (revive (env.pick_time i) r.failed r) out c
          (λ why marked vm. attempts-EndsWell left (i + 1) (some why) path q key marked vm))

  -- A call on a valid ring leaves a valid ring and never ends in a KeyError. A backend that replied,
  -- or that rejected the request with a 4xx code, is still alive after the call; "no alive backends"
  -- is raised only where none is. Every call, also one that raises, records one latency.
  pub forward-EndsWell :
      (path : String) (q : Q) (key : String) (rt : Router)
      → IsValid rt.ring
      → let (result, rt') = forward digest env path q key rt in
        EndsWell (result, rt'.ring) × (length rt'.forward_lat_s ≡ length rt.forward_lat_s + 1)
  unfolding forward forward_inner
  forward-EndsWell path q key rt v = (
    attempts-EndsWell 2 0 none path q key rt.ring v,
    omega (arith, length-append rt.forward_lat_s ((env.ended - env.started) ∷ [])),
  )

  settle-Fails :
      (again : String → Answer R) (name : String) (r : BackendRing) (o : Outcome R)
      → Fails o
      → (why : String) × (settle again name r o ≡ again why)
  unfolding settle
  settle-Fails again name r (reply out) f = absurd f
  settle-Fails again name r (http_error code body) f = (body, ground arith)
  settle-Fails again name r (transport_error why) f = (why, refl)
  settle-Fails again name r (uncaught why) f = absurd f

  settle_reply :
      (again : String → Answer R) (name other : String) (r r' : BackendRing) (o : Outcome R)
      (out : R)
      → settle again name r o ≡ (ok (out, other), r')
      → (name ≡ other) ⊎ ((why : String) × (again why ≡ (ok (out, other), r')))
  unfolding settle
  settle_reply again name other r r' (reply x) out h = inl (ground arith)
  settle_reply again name other r r' (http_error code body) out h =
      elim (Bool-cases (leb 400 code && ltb code 500)) [
        | inl e ↦ ground (arith, h)
        | inr e ↦ inr (body, ground (arith, h))
      ]
  settle_reply again name other r r' (transport_error why) out h = inr (why, h)
  settle_reply again name other r r' (uncaught why) out h = ground arith

  -- A reply in the last round comes from the backend that the round picked.
  last_reply :
      (failed_at : ℕ) (post : String → Outcome R) (last : String) (r r' : BackendRing)
      (other : String) (out : R) (o : Option (Option (String × String) × BackendRing))
      → try_picked failed_at post (λ why marked. (err (all_backends_failed (some why)), marked)) r o
        ≡ (ok (out, other), r')
      → (base : String) × (r₂ : BackendRing) × (o ≡ some (some (other, base), r₂))
  unfolding try_picked
  last_reply failed_at post last r r' other out none h = ground arith
  last_reply failed_at post last r r' other out (some (none, r₁)) h = ground arith
  last_reply failed_at post last r r' other out (some (some (name, base), r₁)) h =
      elim (settle_reply _ name other r₁ r' (post base) out h) [
        | inl e ↦ (base, r₁, rw e)
        | inr (why, e) ↦ ground (arith, e)
      ]

  -- Failover goes elsewhere: where the first backend fails and the second pick comes before the
  -- first one's revival is due, a reply comes from another backend.
  pub failover_elsewhere :
      (path : String) (q : Q) (key name base other : String) (r r₁ r' : BackendRing) (out : R)
      → IsValid r
      → pick digest (env.pick_time 0) key r ≡ some (some (name, base), r₁)
      → Fails (env.post 0 (str_append base path) q)
      → env.pick_time 1 < env.failure_time 0 + r.revive_after_s
      → forward_inner digest env path q key r ≡ (ok (out, other), r')
      → other ≢ name
  unfolding forward_inner attempts try_picked
  failover_elsewhere path q key name base other r r₁ r' out v p fails early h =
      let again = λ (why : String).
        attempts digest env 1 1 (some why) path q key (mark_failure (env.failure_time 0) name r₁) in
      let (why, e) = settle-Fails again name r₁ (env.post 0 (str_append base path) q) fails in
      let (_, v₁, _, _, after, _) = pick_inv digest (env.pick_time 0) key r _ v p in
      let second : again why ≡ (ok (out, other), r') =
        sym e ∙ (rw (p, forward_inner, attempts, try_picked) at h) in
      let (base₂, r₂, p₂) =
        last_reply (env.failure_time 1) (λ x. env.post 1 (str_append x path) q) why
          (mark_failure (env.failure_time 0) name r₁) r' other out
          (pick digest (env.pick_time 1) key (mark_failure (env.failure_time 0) name r₁)) second in
      pick_avoids_failed digest (env.failure_time 0) (env.pick_time 1) key name other base₂ r₁ r₂ v₁
        (omega (arith, early, after, (revive_registry (env.pick_time 0) r.failed r).1)) p₂
