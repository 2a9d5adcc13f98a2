-- ===== src/AgentRunner/Pruning.antt =====
-- agent_runner.py: pruning the history is done once for each message.
use llm_rl_cpu_poc.Common.{
  ℕ, zero, suc, ◌+◌, ◌-◌, ◌≡◌, ◌⊎◌, refl, sym, ap, ◌∙◌, true, false, List, [], ◌∷◌, length, take,
  ltb, All, arith, Bool-cases, inl, inr, number_key, if◌then◌else◌,
}
use llm_rl_cpu_poc.AgentRunner.{
  World, Config, Role, Message, is_tool, is_member, elide_at, prune_each, prune_messages,
  tool_indices, old_indices,
}

-- The roles of the messages, which pruning keeps.
abbrev pub roles : List Message → List Role
roles [] = []
roles (m ∷ ms) = m.role ∷ roles ms

unfoldable indices_by : ℕ → List Role → List ℕ
indices_by i [] = []
indices_by i (r ∷ rs) = let rest = indices_by (i + 1) rs in if is_tool r then i ∷ rest else rest

module _ (w : World) where
  elide_at_same :
      (n i : ℕ) (ms : List Message) → (elide_at w n i ms).1 ≡ false → (elide_at w n i ms).0 ≡ ms
  unfolding elide_at
  elide_at_same n i [] h = refl
  elide_at_same n zero (m ∷ ms) h = ground arith
  elide_at_same n (suc i) (m ∷ ms) h = ap (λ l. m ∷ l) (elide_at_same n i ms h)

  elide_at_other :
      (n i j : ℕ) (ms : List Message)
      → (elide_at w n i ms).1 ≡ false
      → (elide_at w n i (elide_at w n j ms).0).1 ≡ false
  unfolding elide_at
  elide_at_other n i j [] h = refl
  elide_at_other n zero zero (m ∷ ms) h = ground arith
  elide_at_other n zero (suc j) (m ∷ ms) h = ground arith
  elide_at_other n (suc i) zero (m ∷ ms) h = ground arith
  elide_at_other n (suc i) (suc j) (m ∷ ms) h = elide_at_other n i j ms h

  -- One pass over the index `i`.
  abbrev next : ℕ → ℕ → List Message × List ℕ → List Message × List ℕ
  next n i p =
      let (cut, hit) = elide_at w n i p.0 in
      if is_member i p.1 then p else (cut, if hit then i ∷ p.1 else p.1)

  -- Another pass over `i` changes nothing: it is cut already, or short.
  abbrev Settled : ℕ → ℕ → List Message × List ℕ → Type 0
  Settled n i p = (is_member i p.1 ≡ true) ⊎ ((elide_at w n i p.0).1 ≡ false)

  next-Settled : (n i : ℕ) (p : List Message × List ℕ) → Settled n i (next n i p)
  unfolding is_member
  next-Settled n i p = elim (Bool-cases (is_member i p.1)) [
    | inl e ↦ inl (ground (arith, e))
    | inr e ↦ elim (Bool-cases (elide_at w n i p.0).1) [
      | inl h ↦ inl (ground (arith, e, h))
      | inr h ↦ inr (rw e (elide_at_other n i i p.0 h))
    ]
  ]

  next-keeps : (n i j : ℕ) (p : List Message × List ℕ) → Settled n j p → Settled n j (next n i p)
  unfolding is_member
  next-keeps n i j p (inl h) = inl (ground (arith, h))
  next-keeps n i j p (inr h) = elim (Bool-cases (is_member i p.1)) [
    | inl e ↦ inr (rw e h)
    | inr e ↦ inr (rw e (elide_at_other n j i p.0 h))
  ]

  prune_each-keeps :
      (n j : ℕ) (old : List ℕ) (p : List Message × List ℕ)
      → Settled n j p
      → Settled n j (prune_each w n old p)
  unfolding prune_each
  prune_each-keeps n j [] p h = h
  prune_each-keeps n j (i ∷ old) p h = prune_each-keeps n j old (next n i p) (next-keeps n i j p h)

  prune_each-Settled :
      (n : ℕ) (old : List ℕ) (p : List Message × List ℕ)
      → All (λ i. Settled n i (prune_each w n old p)) old
  unfolding prune_each
  prune_each-Settled n [] p = tt
  prune_each-Settled n (i ∷ old) p = (
    prune_each-keeps n i old (next n i p) (next-Settled n i p),
    prune_each-Settled n old (next n i p),
  )

  next_idle : (n i : ℕ) (p : List Message × List ℕ) → Settled n i p → next n i p ≡ p
  next_idle n i p (inl h) = rw h refl
  next_idle n i (ms, elided) (inr h) = elim (Bool-cases (is_member i elided)) [
    | inl e ↦ rw e refl
    | inr e ↦ rw (e, h) (ap (λ l. (l, elided)) (elide_at_same n i ms h))
  ]

  prune_each_idle :
      (n : ℕ) (old : List ℕ) (p : List Message × List ℕ)
      → All (λ i. Settled n i p) old
      → prune_each w n old p ≡ p
  unfolding prune_each
  prune_each_idle n [] p h = refl
  prune_each_idle n (i ∷ old) p h =
      ap (prune_each w n old) (next_idle n i p h.0) ∙ prune_each_idle n old p h.1

  elide_at-roles : (n i : ℕ) (ms : List Message) → roles (elide_at w n i ms).0 ≡ roles ms
  unfolding elide_at
  elide_at-roles n i [] = refl
  elide_at-roles n zero (m ∷ ms) = elim (Bool-cases (ltb n (length m.content))) [
    | inl e ↦ rw e refl
    | inr e ↦ rw e refl
  ]
  elide_at-roles n (suc i) (m ∷ ms) = ap (λ l. m.role ∷ l) (elide_at-roles n i ms)

  next-roles : (n i : ℕ) (p : List Message × List ℕ) → roles (next n i p).0 ≡ roles p.0
  next-roles n i p = elim (Bool-cases (is_member i p.1)) [
    | inl e ↦ rw e refl
    | inr e ↦ rw e (elide_at-roles n i p.0)
  ]

  prune_each-roles :
      (n : ℕ) (old : List ℕ) (p : List Message × List ℕ)
      → roles (prune_each w n old p).0 ≡ roles p.0
  unfolding prune_each
  prune_each-roles n [] p = refl
  prune_each-roles n (i ∷ old) p = prune_each-roles n old (next n i p) ∙ next-roles n i p

  tool_indices-roles : (i : ℕ) (ms : List Message) → tool_indices i ms ≡ indices_by i (roles ms)
  unfolding tool_indices indices_by
  tool_indices-roles i [] = refl
  tool_indices-roles i (m ∷ ms) =
      ap (λ l. if is_tool m.role then i ∷ l else l) (tool_indices-roles (i + 1) ms)

  old_indices-roles :
      (k : ℕ) (ms ms' : List Message) → roles ms ≡ roles ms' → old_indices k ms ≡ old_indices k ms'
  unfolding old_indices
  old_indices-roles k ms ms' h =
      ap (λ idx. if ltb 0 k then take (length idx - k) idx else idx)
        (tool_indices-roles 0 ms ∙ ap (indices_by 0) h ∙ sym (tool_indices-roles 0 ms'))

  -- Pruning a history that was just pruned changes nothing: no observation is cut twice, and every
  -- message keeps its role and its place.
  pub prune_messages_again :
      (cfg : Config) (p : List Message × List ℕ)
      → (prune_messages w cfg (prune_messages w cfg p) ≡ prune_messages w cfg p)
        × (roles (prune_messages w cfg p).0 ≡ roles p.0)
  unfolding prune_messages
  prune_messages_again cfg (ms, elided) =
      let n = cfg.prune_old_chars in
      let old = old_indices cfg.prune_keep_tools ms in
      let once = prune_each w n old (ms, elided) in
      let same_roles = prune_each-roles n old (ms, elided) in
      (
        ap (λ o. prune_each w n o once)
              (old_indices-roles cfg.prune_keep_tools once.0 ms same_roles)
            ∙ prune_each_idle n old once (prune_each-Settled n old (ms, elided)),
        same_roles,
      )
