-- ===== src/Router/Best.antt =====
-- router.py: `max(alive, key=…)`, the rendezvous choice itself.
use llm_rl_cpu_poc.Common.{
  ℕ, ◌≤◌, ltb, ◌≡◌, refl, ◌≢◌, ◌⊎◌, inl, inr, String, none, some, [], ◌∷◌, All, arith, Bool-cases,
  text_key, if◌then◌else◌,
}
use llm_rl_cpu_poc.Common.Dict.{Dict, lookup, erase}
use llm_rl_cpu_poc.Router.{best_from, best}
use text.Mathlib.TextEquality.{eq_iff}

module _ (score : String → ℕ) where
  best_from-le :
      (bound : ℕ) (m : String) (d : Dict String String)
      → score (best_from score m d) ≤ bound
      → (score m ≤ bound) × All (λ e. score e.0 ≤ bound) d
  unfolding best_from
  best_from-le bound m [] h = (h, tt)
  best_from-le bound m ((n, u) ∷ d) h = elim (Bool-cases (ltb (score m) (score n))) [
    | inl e ↦
        let (p, q) = best_from-le bound n d (rw (e, if◌then◌else◌) at h) in (ground arith, (p, q))
    | inr e ↦
        let (p, q) = best_from-le bound m d (rw (e, if◌then◌else◌) at h) in (p, (ground arith, q))
  ]

  -- The chosen name is the start or one of the names of the dict.
  best_from_mem :
      (m : String) (d : Dict String String)
      → (best_from score m d ≡ m) ⊎ (lookup (best_from score m d) d ≢ none)
  unfolding best_from lookup
  best_from_mem m [] = inl refl
  best_from_mem m ((n, u) ∷ d) = ground (
    arith,
    best_from_mem n d,
    best_from_mem m d,
    eq_iff n (best_from score n d),
    eq_iff n (best_from score m d),
  )

  pub best_mem : (d : Dict String String) (b : String) → best score d ≡ some b → lookup b d ≢ none
  unfolding best lookup
  best_mem [] b h = ground arith
  best_mem ((n, u) ∷ d) b h = ground (arith, best_from_mem n d, eq_iff n b)

  -- No name of the dict scores more than the chosen one.
  pub best_max :
      (d : Dict String String) (b : String)
      → best score d ≡ some b
      → All (λ e. score e.0 ≤ score b) d
  unfolding best
  best_max [] b h = tt
  best_max ((n, u) ∷ d) b h = best_from-le (score b) n d (ground arith)

  -- A start that scores no more than `k` changes nothing where `k` itself loses.
  best_from_start :
      (k m : String) (d : Dict String String)
      → score m ≤ score k
      → best_from score k d ≢ k
      → best_from score m d ≡ best_from score k d
  unfolding best_from
  best_from_start k m [] h ne = absurd (ne refl)
  best_from_start k m ((n, u) ∷ d) h ne =
      ground (arith, best_from_start k m d, best_from_start k n d)

  best_from-erase :
      (k m : String) (d : Dict String String)
      → best_from score m d ≢ k
      → m ≢ k
      → best_from score m (erase k d) ≡ best_from score m d
  unfolding best_from erase
  best_from-erase k m [] h ne = refl
  best_from-erase k m ((n, u) ∷ d) h ne =
      ground
        (arith, eq_iff n k, best_from-erase k m d, best_from-erase k n d, best_from_start k m d)

  best-erase_from :
      (k : String) (d : Dict String String)
      → best_from score k d ≢ k
      → best score (erase k d) ≡ some (best_from score k d)
  unfolding best best_from erase
  best-erase_from k [] ne = absurd (ne refl)
  best-erase_from k ((n, u) ∷ d) ne =
      ground (arith, eq_iff n k, best-erase_from k d, best_from-erase k n d, best_from_start k n d)

  -- Taking another name away leaves the choice as it is.
  pub best-erase :
      (k b : String) (d : Dict String String)
      → best score d ≡ some b
      → b ≢ k
      → best score (erase k d) ≡ some b
  unfolding best erase
  best-erase k b [] h ne = h
  best-erase k b ((n, u) ∷ d) h ne =
      ground (arith, eq_iff n k, best-erase_from k d, best_from-erase k n d)

  pub best-eq-none : (d : Dict String String) → best score d ≡ none → d ≡ []
  unfolding best
  best-eq-none [] h = refl
  best-eq-none (e ∷ d) h = ground arith
