-- ===== src/Monitor/Ranks.antt =====
-- monitor.py: percentiles are in range and have the rank they are named for.
use llm_rl_cpu_poc.Common.{
  ℕ, zero, suc, ◌+◌, ◌*◌, ◌≤◌, ◌<◌, ◌≡◌, ◌≢◌, refl, Option, none, some, List, [], ◌∷◌, length, All,
  arith, text_key,
}
use llm_rl_cpu_poc.Common.Float.{Float}
use llm_rl_cpu_poc.Monitor.{place, get_elem?, percentiles}

scaled_le : (p n : ℕ) → p ≤ 100 → p * n ≤ 100 * n
scaled_le p zero h = omega arith
scaled_le p (suc n) h = ground (arith, scaled_le p n h)

place_lem :
    (p n : ℕ)
    → p * n ≤ 100 * n
    → 1 ≤ n
    → (place p n < n) × (p * n ≤ 100 * (place p n + 1)) × (100 * place p n ≤ p * n)
unfolding place
place_lem p n h k = (omega (arith, h, k), omega (arith, h, k), omega (arith, h, k))

get_elem?-some :
    {A : Type 0} (xs : List A) (i : ℕ) → i < length xs → (x : A) × (get_elem? xs i ≡ some x)
unfolding get_elem?
get_elem?-some [] i h = absurd (omega (arith, h))
get_elem?-some (x ∷ xs) zero h = (x, refl)
get_elem?-some (x ∷ xs) (suc i) h = get_elem?-some xs i (omega (arith, h))

-- Each entry is a value of the list, at a place such that at least `p` percent of the values are
-- there or before it, and at most `p` percent are before it.
abbrev pub IsRanked : {F : Type 0} → List F → ℕ × Option F → Type 0
IsRanked xs (p, v) =
    (i : ℕ) × (i < length xs)
    × (v ≢ none)
    × (v ≡ get_elem? xs i)
    × (p * length xs ≤ 100 * (i + 1))
    × (100 * i ≤ p * length xs)

-- Percentiles up to 100 of a list that is not empty never raise: for a sort that keeps the length,
-- each is a value of the sorted list with the rank that its number asks for.
pub percentiles-IsRanked :
    (fl : Float) (sorted : List fl.F → List fl.F) (v : fl.F) (vs : List fl.F) (ps : List ℕ)
    → length (sorted (v ∷ vs)) ≡ length (v ∷ vs)
    → All (λ p. p ≤ 100) ps
    → All (IsRanked (sorted (v ∷ vs))) (percentiles fl sorted (v ∷ vs) ps)
unfolding percentiles
percentiles-IsRanked fl sorted v vs [] h below = tt
percentiles-IsRanked fl sorted v vs (p ∷ ps) h below =
    let xs = sorted (v ∷ vs) in
    let n = length xs in
    let (inside, enough, few) = place_lem p n (scaled_le p n below.0) (omega (arith, h)) in
    let (x, found) = get_elem?-some xs (place p n) inside in
    (
      (place p n, inside, rw found (ground arith), refl, enough, few),
      percentiles-IsRanked fl sorted v vs ps h below.1,
    )
