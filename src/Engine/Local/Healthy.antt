-- ===== src/Engine/Local/Healthy.antt =====
-- engine_local.py: how the wait for the servers' health ends.
use llm_rl_cpu_poc.Common.{
  ℕ, zero, suc, ◌+◌, ◌-◌, ◌≤◌, ◌<◌, ◌≡◌, refl, sym, ap, ◌∙◌, subst, ◌⊎◌, ltb, String, Bool, true,
  false, Option, some, List, [], ◌∷◌, map, arith, Bool-cases, Option-cases, inl, inr,
}
use llm_rl_cpu_poc.Common.Int.{ℤ}
use llm_rl_cpu_poc.Common.Result.{Result, ok, err, Result-cases}
use llm_rl_cpu_poc.Engine.Local.Servers.{
  InstanceSpec, Manager, keep_pending, check_round, wait_rounds, wait_healthy,
}

abbrev pub In : String → List String → Type 0
In n [] = ⊥
In n (m ∷ ms) = (n ≡ m) ⊎ In n ms

module _ (exited : ℕ → String → Option ℤ) (health : ℕ → String → Bool) where
  -- What one round says: an end that was raised is one of a pending process; a name that is left was
  -- pending and not healthy; a name that is gone was healthy.
  abbrev Told : ℕ → List String → Result (String × ℤ) (List String) → Type 0
  Told i names (err (n, rc)) = In n names × (exited i n ≡ some rc)
  Told i names (ok left) =
      ((n : String) → In n left → In n names × (health i n ≡ false))
      × ((n : String) → In n names → In n left ⊎ (health i n ≡ true))

  keep_pending-Told :
      (i : ℕ) (n : String) (names : List String) (healthy : Bool)
      → health i n ≡ healthy
      → (rest : Result (String × ℤ) (List String)) → Told i names rest
      → Told i (n ∷ names) (keep_pending healthy n rest)
  keep_pending-Told i n names healthy w (err (m, rc)) (h, e) = (inr h, e)
  keep_pending-Told i n names true w (ok left) (below, above) = (
    λ m h. (inr (below m h).0, (below m h).1),
    λ m h. elim h [ inl e ↦ inr (ap (health i) e ∙ w) | inr k ↦ above m k ],
  )
  keep_pending-Told i n names false w (ok left) (below, above) = (
    λ m h. elim h [
      | inl e ↦ (inl e, ap (health i) e ∙ w)
      | inr k ↦ (inr (below m k).0, (below m k).1)
    ],
    λ m h. elim h [
      | inl e ↦ inl (inl e)
      | inr k ↦ elim (above m k) [ inl a ↦ inl (inr a) | inr a ↦ inr a ]
    ],
  )

  check_round-Told :
      (i : ℕ) (names : List String) → Told i names (check_round (exited i) (health i) names)
  unfolding check_round
  check_round-Told i [] = (λ n h. absurd h, λ n h. absurd h)
  check_round-Told i (n ∷ names) = elim (Option-cases (exited i n)) [
    | inr (rc, e) ↦
        let ends : check_round (exited i) (health i) (n ∷ names) ≡ err (n, rc) =
          rw (e, check_round) refl in
        subst (Told i (n ∷ names)) (sym ends) (inl refl, e)
    | inl e ↦
        let rest = check_round (exited i) (health i) names in
        let goes_on : check_round (exited i) (health i) (n ∷ names)
            ≡ keep_pending (health i n) n rest =
          rw (e, check_round) refl in
        subst (Told i (n ∷ names)) (sym goes_on)
          (keep_pending-Told i n names (health i n) refl rest (check_round-Told i names))
  ]

module _ (now : ℕ → ℕ) (exited : ℕ → String → Option ℤ) (health : ℕ → String → Bool) where
  -- What the end of the loop, from round `i` on, says of the names that it waits for: all of them
  -- were healthy in some round; one was in no round before the deadline; or one's process ended.
  abbrev pub Explained : ℕ → ℕ → List String → Result (String × ℤ) Bool → Type 0
  Explained deadline i names (ok true) = (n : String) → In n names → (j : ℕ) × (health j n ≡ true)
  Explained deadline i names (ok false) =
      (n : String) × In n names × ((j : ℕ) → i ≤ j → now j < deadline → health j n ≡ false)
  Explained deadline i names (err (n, rc)) = In n names × ((j : ℕ) × (exited j n ≡ some rc))

  -- From the names that a round left to those it began with.
  Explained-earlier :
      (deadline i : ℕ) (names left : List String) (out : Result (String × ℤ) Bool)
      → Told exited health i names (ok left)
      → Explained deadline (i + 1) left out
      → Explained deadline i names out
  Explained-earlier deadline i names left (ok true) (below, above) h =
      λ n m. elim (above n m) [ inl k ↦ h n k | inr k ↦ (i, k) ]
  Explained-earlier deadline i names left (ok false) (below, above) (n, m, never) = (
    n,
    (below n m).0,
    λ j le early. elim (Bool-cases (ltb i j)) [
      | inl later ↦ never j (ground (arith, later)) early
      | inr same ↦
          let here : i ≡ j = ground (arith, same, le) in
          subst (λ x. health x n ≡ false) here (below n m).1
    ],
  )
  Explained-earlier deadline i names left (err (n, rc)) (below, above) (m, ended) =
      ((below n m).0, ended)

  module _ (clock : (i : ℕ) → now i < now (i + 1)) where
    later : (i k : ℕ) → now i ≤ now (i + k)
    later i zero =
        let same : i ≡ i + 0 = omega arith in subst (λ x. now i ≤ now x) same (omega arith)
    later i (suc k) =
        let same : (i + k) + 1 ≡ i + suc k = omega arith in
        subst (λ x. now i ≤ now x) same (omega (arith, later i k, clock (i + k)))

    monotone : (i j : ℕ) → i ≤ j → now i ≤ now j
    monotone i j le =
        let same : i + (j - i) ≡ j = omega (arith, le) in
        subst (λ x. now i ≤ now x) same (later i (j - i))

    -- Past the deadline no round is before it.
    past :
        (deadline i : ℕ) (p : String) (ps : List String)
        → deadline ≤ now i
        → Explained deadline i (p ∷ ps) (ok false)
    past deadline i p ps h =
        (p, inl refl, λ j le early. absurd (omega (arith, h, early, monotone i j le)))

    wait_rounds_lem :
        (deadline fuel i : ℕ) (names : List String)
        → deadline ≤ now i + fuel
        → (out : Result (String × ℤ) Bool) × (wait_rounds now exited health deadline fuel i names
            ≡ some out)
          × Explained deadline i names out
    unfolding wait_rounds
    wait_rounds_lem deadline fuel i [] h = (ok true, refl, λ n m. absurd m)
    wait_rounds_lem deadline zero i (p ∷ ps) h =
        let late : ltb (now i) deadline ≡ false = ground (arith, h) in
        (ok false, rw late refl, past deadline i p ps (omega (arith, h)))
    wait_rounds_lem deadline (suc fuel) i (p ∷ ps) h = elim (Bool-cases (ltb (now i) deadline)) [
      | inr late ↦ (ok false, rw late refl, past deadline i p ps (ground (arith, late)))
      | inl early ↦
          let round = check_round (exited i) (health i) (p ∷ ps) in
          let told = check_round-Told exited health i (p ∷ ps) in
          elim (Result-cases round) [
            | inr ((n, rc), e) ↦
                let (m, ended) = subst (Told exited health i (p ∷ ps)) e told in
                (err (n, rc), rw (early, e) refl, (m, (i, ended)))
            | inl (left, e) ↦
                let left_told = subst (Told exited health i (p ∷ ps)) e told in
                let enough : deadline ≤ now (i + 1) + fuel = omega (arith, h, clock i) in
                let (out, runs, explained) = wait_rounds_lem deadline fuel (i + 1) left enough in
                (
                  out,
                  rw (early, e) runs,
                  Explained-earlier deadline i (p ∷ ps) left out left_told explained,
                )
          ]
    ]

    -- Where each round ends later than it began, as after its sleep, and the clock at the first round
    -- is not before the one that the deadline counts from, the wait ends within as many rounds as the
    -- timeout has units of time: with true where every server was healthy in some round, with false
    -- where one was in no round before the deadline, else with the code of a server whose process had
    -- ended.
    pub wait_healthy_lem :
        {H : Type 0} (begun timeout : ℕ) (m : Manager H)
        → begun ≤ now 0
        → (out : Result (String × ℤ) Bool) × (wait_healthy now exited health begun timeout m
            ≡ some out)
          × Explained (begun + timeout) 0 (map (λ (e : String × InstanceSpec). e.0) m.specs) out
    unfolding wait_healthy
    wait_healthy_lem begun timeout m h =
        wait_rounds_lem (begun + timeout) timeout 0
          (map (λ (e : String × InstanceSpec). e.0) m.specs) (omega (arith, h))
