-- ===== src/Rollout/Variance.antt =====
-- rollout_manager.py: which groups `_pack` drops, and what it keeps.
use llm_rl_cpu_poc.Common.{
  ◌≡◌, ◌↔◌, ◌⊎◌, refl, sym, subst, true, List, [], ◌∷◌, map, length, nat_beq, All, arith,
  Bool-cases, inl, inr, if◌then◌else◌,
}
use llm_rl_cpu_poc.Common.Float.{Float}
use llm_rl_cpu_poc.Types.{Sample}
use llm_rl_cpu_poc.Rollout.Batch.{is_in, set_of, mean, rewards_of, pack_group}

-- Float equality is an equivalence on the rewards, which holds where none is NaN.
pub record IsEquality (fl : Float) : Type 0 where
  pub same : (x : fl.F) → fl.eq x x ≡ true
  pub turned : (x y : fl.F) → fl.eq x y ≡ true → fl.eq y x ≡ true
  pub chained : (x y z : fl.F) → fl.eq x y ≡ true → fl.eq y z ≡ true → fl.eq x z ≡ true

module _ (fl : Float) where
  open fl use {F}

  -- Every element equals `r`.
  abbrev pub AllEqual : F → List F → Type 0
  AllEqual r = All (λ x. fl.eq x r ≡ true)

  module _ (law : IsEquality fl) where
    -- At most one element, which equals `r`.
    abbrev pub AtMost : F → List F → Type 0
    AtMost r [] = Unit
    AtMost r (z ∷ []) = fl.eq z r ≡ true
    AtMost r (z ∷ _ ∷ _) = ⊥

    add-AtMost :
        (r x : F) (zs : List F)
        → fl.eq x r ≡ true
        → AtMost r zs
        → AtMost r (if is_in fl x zs then zs else x ∷ zs)
    unfolding is_in
    add-AtMost r x [] e h = e
    add-AtMost r x (z ∷ []) e h = rw (law.chained x r z e (law.turned z r h)) h
    add-AtMost r x (z ∷ y ∷ zs) e h = absurd h

    set_of-AtMost : (r : F) (xs : List F) → AllEqual r xs → AtMost r (set_of fl xs)
    unfolding set_of
    set_of-AtMost r [] h = tt
    set_of-AtMost r (x ∷ xs) h = add-AtMost r x (set_of fl xs) h.0 (set_of-AtMost r xs h.1)

    AtMost-one :
        (r x : F) (zs : List F)
        → AtMost r (if is_in fl x zs then zs else x ∷ zs)
        → length (if is_in fl x zs then zs else x ∷ zs) ≡ 1
    unfolding is_in
    AtMost-one r x [] h = refl
    AtMost-one r x (z ∷ []) h = ground arith
    AtMost-one r x (z ∷ y ∷ zs) h = ground arith

    set_of-empty : (xs : List F) → set_of fl xs ≡ [] → xs ≡ []
    unfolding set_of is_in
    set_of-empty [] h = refl
    set_of-empty (x ∷ xs) h = ground (arith, set_of-empty xs)

    one-AllEqual : (r : F) (xs : List F) → set_of fl xs ≡ r ∷ [] → AllEqual r xs
    unfolding set_of is_in
    one-AllEqual r [] h = tt
    one-AllEqual r (x ∷ xs) h = elim (Bool-cases (is_in fl x (set_of fl xs))) [
      | inl e ↦
          let rest : set_of fl xs ≡ r ∷ [] = ground (arith, e) in
          (ground (arith, e, rest), one-AllEqual r xs rest)
      | inr e ↦
          let alone : x ∷ set_of fl xs ≡ r ∷ [] = rw e at h in
          (
            subst (λ z. fl.eq x z ≡ true) (ground (arith, alone)) (law.same x),
            subst (AllEqual r) (sym (set_of-empty xs (ground (arith, alone)))) tt,
          )
    ]

    only : (xs : List F) → length xs ≡ 1 → (z : F) × (xs ≡ z ∷ [])
    only [] h = absurd (ground arith)
    only (z ∷ []) h = (z, refl)
    only (z ∷ y ∷ xs) h = absurd (ground arith)

    AllEqual-again : (r z : F) (xs : List F) → fl.eq r z ≡ true → AllEqual z xs → AllEqual r xs
    AllEqual-again r z [] e h = tt
    AllEqual-again r z (x ∷ xs) e h =
        (law.chained x z r h.0 (law.turned r z e), AllEqual-again r z xs e h.1)

    one_iff : (r : F) (xs : List F) → (length (set_of fl (r ∷ xs)) ≡ 1) ↔ AllEqual r (r ∷ xs)
    unfolding set_of
    one_iff r xs = (
      (λ h.
          let (z, e) = only (set_of fl (r ∷ xs)) h in
          let all = one-AllEqual z (r ∷ xs) e in AllEqual-again r z (r ∷ xs) all.0 all),
      (λ h. AtMost-one r r (set_of fl xs) (set_of-AtMost r (r ∷ xs) h)),
    )

    module _ {P : Type 0} where
      -- Where groups of zero variance are to be dropped and float equality is an equivalence on the
      -- rewards, a group is dropped, and counted as one
      -- of zero variance, exactly if all its rewards equal the first one; any other group is kept
      -- whole, in order, each sample unchanged but for its advantage, which is its reward less the
      -- group's mean.
      pub pack_group_lem :
          (s : Sample F P) (g : List (Sample F P))
          → let out = pack_group fl true (s ∷ g) in
            (AllEqual s.reward (rewards_of fl (s ∷ g)) × (out ≡ ([], 1)))
            ⊎ ((¬ AllEqual s.reward (rewards_of fl (s ∷ g)))
                × (out ≡ (
                  map
                      (λ (x : Sample F P). record x {
                        advantage = fl.sub x.reward (mean fl (rewards_of fl (s ∷ g)));
                      })
                      (s ∷ g),
                  0,
                )))
      unfolding pack_group
      pack_group_lem s g =
          let xs = rewards_of fl (s ∷ g) in
          let (forth, back) = one_iff s.reward (rewards_of fl g) in
          elim (Bool-cases (nat_beq (length (set_of fl xs)) 1)) [
            | inl e ↦ inl (forth (ground (arith, e)), rw (e, pack_group) refl)
            | inr e ↦ inr ((λ all. ground (arith, e, back all)), rw (e, pack_group) refl)
          ]
