-- ===== src/Rollout/Requeue.antt =====
-- rollout_manager.py: what the partial buffer carries from one rollout to the next.
use llm_rl_cpu_poc.Common.{
  suc, ◌+◌, ◌≡◌, ◌≢◌, refl, sym, ap, ◌∙◌, subst, Bool, true, false, not, none, some, List, [], ◌∷◌,
  ◌++◌, map, keep, length, length-append, All, All-keep, arith, Bool-cases, inl, inr,
}
use llm_rl_cpu_poc.Common.Dict.{Dict, lookup, insert, Distinct}
use llm_rl_cpu_poc.Common.Int.{ℤ, int_key}
use llm_rl_cpu_poc.Types.{Sample, pending, aborted}
use llm_rl_cpu_poc.Rollout.Batch.{
  Counters, append_to, by_group, drain_buffer, is_finished, requeue_one, requeue,
}

append_assoc : {A : Type 0} (xs ys zs : List A) → (xs ++ ys) ++ zs ≡ xs ++ (ys ++ zs)
append_assoc [] ys zs = refl
append_assoc (x ∷ xs) ys zs = ap (λ l. x ∷ l) (append_assoc xs ys zs)

append_nil : {A : Type 0} (xs : List A) → xs ++ [] ≡ xs
append_nil [] = refl
append_nil (x ∷ xs) = ap (λ l. x ∷ l) (append_nil xs)

module _ {F P : Type 0} where
  -- The groups of a rollout with their ids: none is empty, and each sample carries its group's id.
  abbrev pub IsGroup : ℤ × List (Sample F P) → Type 0
  IsGroup (gid, []) = ⊥
  IsGroup (gid, s ∷ g) = All (λ (x : Sample F P). x.group_id ≡ gid) (s ∷ g)

  abbrev pub groups_of : Dict ℤ (List (Sample F P)) → List (List (Sample F P))
  groups_of d = map (λ (e : ℤ × List (Sample F P)). e.1) d

  abbrev pub unfinished :
      List (List (Sample F P)) → Dict ℤ (List (Sample F P)) → Dict ℤ (List (Sample F P))
  unfinished finished d = keep (λ e. not (is_finished finished e.0)) d

  -- The samples of the groups, in order, all marked as aborted.
  abbrev pub aborted_samples : Dict ℤ (List (Sample F P)) → List (Sample F P)
  aborted_samples [] = []
  aborted_samples ((_, g) ∷ d) =
      map (λ (x : Sample F P). record x { status = aborted }) g ++ aborted_samples d

  abbrev pub pending_again : List (Sample F P) → List (Sample F P)
  pending_again g = map (λ (x : Sample F P). record x { status = pending }) g

  abbrev counted : List (Sample F P) → Counters → Counters
  counted g c = record c { aborted = c.aborted + length g; requeued = c.requeued + length g }

  left_out :
      (finished : List (List (Sample F P))) (s : Sample F P) (g buffer : List (Sample F P))
      (c : Counters)
      → is_finished finished s.group_id ≡ true
      → requeue_one finished (s ∷ g) buffer c ≡ (buffer, c)
  unfolding requeue_one
  left_out finished s g buffer c e = rw (e, requeue_one) refl

  put_back :
      (finished : List (List (Sample F P))) (s : Sample F P) (g buffer : List (Sample F P))
      (c : Counters)
      → is_finished finished s.group_id ≡ false
      → requeue_one finished (s ∷ g) buffer c ≡ (
        buffer ++ map (λ (x : Sample F P). record x { status = aborted }) (s ∷ g),
        counted (s ∷ g) c,
      )
  unfolding requeue_one
  put_back finished s g buffer c e = rw (e, requeue_one) refl

  requeue_samples :
      (finished : List (List (Sample F P))) (d : Dict ℤ (List (Sample F P)))
      (buffer : List (Sample F P)) (c : Counters)
      → All IsGroup d
      → (requeue finished (groups_of d) buffer c).0
        ≡ buffer ++ aborted_samples (unfinished finished d)
  unfolding requeue
  requeue_samples finished [] buffer c h = sym (append_nil buffer)
  requeue_samples finished ((gid, []) ∷ d) buffer c h = absurd h.0
  requeue_samples finished ((gid, s ∷ g) ∷ d) buffer c h =
      elim (Bool-cases (is_finished finished gid)) [
        | inl e ↦
            ap (λ q. (requeue finished (groups_of d) q.0 q.1).0)
              (left_out finished s g buffer c
                (subst (λ k. is_finished finished k ≡ true) (sym h.0.0) e))
            ∙ requeue_samples finished d buffer c h.1
            ∙ rw e refl
        | inr e ↦
            ap (λ q. (requeue finished (groups_of d) q.0 q.1).0)
              (put_back finished s g buffer c
                (subst (λ k. is_finished finished k ≡ false) (sym h.0.0) e))
            ∙ requeue_samples finished d _ _ h.1
            ∙ append_assoc buffer (map (λ (x : Sample F P). record x { status = aborted }) (s ∷ g))
                _
            ∙ rw e refl
      ]

  length_marked :
      (g : List (Sample F P))
      → length (map (λ (x : Sample F P). record x { status = aborted }) g) ≡ length g
  length_marked [] = refl
  length_marked (s ∷ g) = ap suc (length_marked g)

  requeue_counts :
      (finished gs : List (List (Sample F P))) (buffer : List (Sample F P)) (c : Counters)
      → let (buffer', c') = requeue finished gs buffer c in
        (c'.aborted + length buffer ≡ c.aborted + length buffer')
        × (c'.requeued + length buffer ≡ c.requeued + length buffer')
  unfolding requeue
  requeue_counts finished [] buffer c = (refl, refl)
  requeue_counts finished ([] ∷ gs) buffer c = requeue_counts finished gs buffer c
  requeue_counts finished ((s ∷ g) ∷ gs) buffer c =
      elim (Bool-cases (is_finished finished s.group_id)) [
        | inl e ↦
            subst
              (λ q.
                let (b, c') = requeue finished gs q.0 q.1 in
                (c'.aborted + length buffer ≡ c.aborted + length b)
                × (c'.requeued + length buffer ≡ c.requeued + length b))
              (sym (left_out finished s g buffer c e)) (requeue_counts finished gs buffer c)
        | inr e ↦
            let marked = map (λ (x : Sample F P). record x { status = aborted }) (s ∷ g) in
            let more = requeue_counts finished gs (buffer ++ marked) (counted (s ∷ g) c) in
            let grown = length-append buffer marked in
            let kept = length_marked (s ∷ g) in
            subst
              (λ q.
                let (b, c') = requeue finished gs q.0 q.1 in
                (c'.aborted + length buffer ≡ c.aborted + length b)
                × (c'.requeued + length buffer ≡ c.requeued + length b))
              (sym (put_back finished s g buffer c e))
              (omega (arith, more.0, grown, kept), omega (arith, more.1, grown, kept))
      ]

  lookup_last :
      (gid : ℤ) (g : List (Sample F P)) (d : Dict ℤ (List (Sample F P)))
      → lookup gid d ≡ none
      → lookup gid (d ++ ((gid, g) ∷ [])) ≡ some g
  unfolding lookup
  lookup_last gid g [] h = ground (arith, int_key.same_iff gid gid)
  lookup_last gid g ((j, x) ∷ d) h = ground (arith, lookup_last gid g d)

  insert_last :
      (gid : ℤ) (g g' : List (Sample F P)) (d : Dict ℤ (List (Sample F P)))
      → lookup gid d ≡ none
      → insert gid g' (d ++ ((gid, g) ∷ [])) ≡ d ++ ((gid, g') ∷ [])
  unfolding lookup insert
  insert_last gid g g' [] h = ground (arith, int_key.same_iff gid gid)
  insert_last gid g g' ((j, x) ∷ d) h = ground (arith, insert_last gid g g' d)

  insert_new :
      (gid : ℤ) (g : List (Sample F P)) (d : Dict ℤ (List (Sample F P)))
      → lookup gid d ≡ none
      → insert gid g d ≡ d ++ ((gid, g) ∷ [])
  unfolding lookup insert
  insert_new gid g [] h = refl
  insert_new gid g ((j, x) ∷ d) h = ground (arith, insert_new gid g d)

  append_to_last :
      (gid : ℤ) (s : Sample F P) (h : List (Sample F P)) (d : Dict ℤ (List (Sample F P)))
      → s.group_id ≡ gid
      → lookup gid d ≡ none
      → append_to s (d ++ ((gid, h) ∷ [])) ≡ d ++ ((gid, h ++ (s ∷ [])) ∷ [])
  unfolding append_to
  append_to_last gid s h d same free =
      ground (arith, same, lookup_last gid h d free, insert_last gid h (h ++ (s ∷ [])) d free)

  append_to_new :
      (gid : ℤ) (s : Sample F P) (d : Dict ℤ (List (Sample F P)))
      → s.group_id ≡ gid
      → lookup gid d ≡ none
      → append_to s d ≡ d ++ ((gid, s ∷ []) ∷ [])
  unfolding append_to
  append_to_new gid s d same free = ground (arith, same, insert_new gid (s ∷ []) d free)

  by_group_rest :
      (gid : ℤ) (g h : List (Sample F P)) (d : Dict ℤ (List (Sample F P)))
      → lookup gid d ≡ none
      → All (λ (x : Sample F P). x.group_id ≡ gid) g
      → by_group g (d ++ ((gid, h) ∷ [])) ≡ d ++ ((gid, h ++ pending_again g) ∷ [])
  unfolding by_group
  by_group_rest gid [] h d free same = ap (λ l. d ++ ((gid, l) ∷ [])) (sym (append_nil h))
  by_group_rest gid (s ∷ g) h d free same =
      ap (by_group g) (append_to_last gid (record s { status = pending }) h d same.0 free)
      ∙ by_group_rest gid g (h ++ (record s { status = pending } ∷ [])) d free same.1
      ∙ ap (λ l. d ++ ((gid, l) ∷ []))
          (append_assoc h (record s { status = pending } ∷ []) (pending_again g))

  by_group-append :
      (xs ys : List (Sample F P)) (d : Dict ℤ (List (Sample F P)))
      → by_group (xs ++ ys) d ≡ by_group ys (by_group xs d)
  unfolding by_group
  by_group-append [] ys d = refl
  by_group-append (x ∷ xs) ys d = by_group-append xs ys _

  lookup_shifted :
      (k gid : ℤ) (x y : List (Sample F P)) (d u : Dict ℤ (List (Sample F P)))
      → lookup k (d ++ ((gid, x) ∷ u)) ≡ none
      → lookup k ((d ++ ((gid, y) ∷ [])) ++ u) ≡ none
  unfolding lookup
  lookup_shifted k gid x y [] u h = ground arith
  lookup_shifted k gid x y ((j, w) ∷ d) u h = ground (arith, lookup_shifted k gid x y d u)

  Distinct-shifted :
      (gid : ℤ) (x y : List (Sample F P)) (d u : Dict ℤ (List (Sample F P)))
      → Distinct (d ++ ((gid, x) ∷ u))
      → Distinct ((d ++ ((gid, y) ∷ [])) ++ u)
  Distinct-shifted gid x y [] u h = h
  Distinct-shifted gid x y ((j, w) ∷ d) u h =
      (lookup_shifted j gid x y d u h.0, Distinct-shifted gid x y d u h.1)

  Distinct-free :
      (gid : ℤ) (x : List (Sample F P)) (d u : Dict ℤ (List (Sample F P)))
      → Distinct (d ++ ((gid, x) ∷ u))
      → lookup gid d ≡ none
  unfolding lookup
  Distinct-free gid x [] u h = refl
  Distinct-free gid x ((j, w) ∷ d) u h = ground (
    arith,
    Distinct-free gid x d u h.1,
    absent_before j gid x d u h.0,
    int_key.same_iff j gid,
    int_key.same_iff gid j,
  )
    where
      absent_before :
          (k gid : ℤ) (x : List (Sample F P)) (d u : Dict ℤ (List (Sample F P)))
          → lookup k (d ++ ((gid, x) ∷ u)) ≡ none
          → gid ≢ k
      absent_before k gid x [] u h = ground (arith, int_key.same_iff gid k)
      absent_before k gid x ((j, w) ∷ d) u h = ground (arith, absent_before k gid x d u)

  lookup-keep :
      (p : ℤ × List (Sample F P) → Bool) (k : ℤ) (d : Dict ℤ (List (Sample F P)))
      → lookup k d ≡ none
      → lookup k (keep p d) ≡ none
  unfolding lookup
  lookup-keep p k [] h = refl
  lookup-keep p k ((j, x) ∷ d) h = ground (arith, lookup-keep p k d)

  keep-Distinct :
      (p : ℤ × List (Sample F P) → Bool) (d : Dict ℤ (List (Sample F P)))
      → Distinct d
      → Distinct (keep p d)
  keep-Distinct p [] h = tt
  keep-Distinct p ((j, x) ∷ d) h = elim (Bool-cases (p (j, x))) [
    | inl e ↦ rw e (lookup-keep p j d h.0, keep-Distinct p d h.1)
    | inr e ↦ rw e (keep-Distinct p d h.1)
  ]

  abbrev renewed : Dict ℤ (List (Sample F P)) → Dict ℤ (List (Sample F P))
  renewed d = map (λ (e : ℤ × List (Sample F P)). (e.0, pending_again e.1)) d

  abbrev marked : List (Sample F P) → List (Sample F P)
  marked g = map (λ (x : Sample F P). record x { status = aborted }) g

  pending-marked : (g : List (Sample F P)) → pending_again (marked g) ≡ pending_again g
  pending-marked [] = refl
  pending-marked (s ∷ g) = ap (λ l. record s { status = pending } ∷ l) (pending-marked g)

  marked-All :
      (gid : ℤ) (g : List (Sample F P))
      → All (λ (x : Sample F P). x.group_id ≡ gid) g
      → All (λ (x : Sample F P). x.group_id ≡ gid) (marked g)
  marked-All gid [] h = tt
  marked-All gid (s ∷ g) h = (h.0, marked-All gid g h.1)

  by_group_new :
      (gid : ℤ) (s : Sample F P) (g : List (Sample F P)) (d : Dict ℤ (List (Sample F P)))
      → lookup gid d ≡ none
      → All (λ (x : Sample F P). x.group_id ≡ gid) (s ∷ g)
      → by_group (marked (s ∷ g)) d ≡ d ++ ((gid, pending_again (s ∷ g)) ∷ [])
  unfolding by_group
  by_group_new gid s g d free same =
      ap (by_group (marked g)) (append_to_new gid (record s { status = pending }) d same.0 free)
      ∙ by_group_rest gid (marked g) (record s { status = pending } ∷ []) d free
          (marked-All gid g same.1)
      ∙ ap (λ l. d ++ ((gid, record s { status = pending } ∷ l) ∷ [])) (pending-marked g)

  by_group-aborted_samples :
      (u d : Dict ℤ (List (Sample F P)))
      → Distinct (d ++ u)
      → All IsGroup u
      → by_group (aborted_samples u) d ≡ d ++ renewed u
  unfolding by_group
  by_group-aborted_samples [] d h g = sym (append_nil d)
  by_group-aborted_samples ((gid, []) ∷ u) d h g = absurd g.0
  by_group-aborted_samples ((gid, s ∷ x) ∷ u) d h g =
      by_group-append (marked (s ∷ x)) (aborted_samples u) d
      ∙ ap (by_group (aborted_samples u))
          (by_group_new gid s x d (Distinct-free gid (s ∷ x) d u h) g.0)
      ∙ by_group-aborted_samples u (d ++ ((gid, pending_again (s ∷ x)) ∷ []))
          (Distinct-shifted gid (s ∷ x) _ d u h) g.1
      ∙ append_assoc d ((gid, pending_again (s ∷ x)) ∷ []) (renewed u)

  groups-renewed :
      (u : Dict ℤ (List (Sample F P))) → groups_of (renewed u) ≡ map pending_again (groups_of u)
  groups-renewed [] = refl
  groups-renewed ((gid, g) ∷ u) = ap (λ l. pending_again g ∷ l) (groups-renewed u)

  -- The groups that a rollout leaves unfinished come back in the next one, if their ids are distinct,
  -- none is empty and each sample carries its group's id: from an empty buffer,
  -- requeueing and draining give exactly the groups whose id did not finish, in their order, with
  -- all their samples, each pending again and otherwise unchanged. Both counters grow by the number
  -- of those samples, and the drained buffer is empty.
  pub drain_buffer-requeue :
      (finished : List (List (Sample F P))) (d : Dict ℤ (List (Sample F P))) (c : Counters)
      → Distinct d
      → All IsGroup d
      → let (buffer, c') = requeue finished (groups_of d) [] c in
        (drain_buffer buffer ≡ (map pending_again (groups_of (unfinished finished d)), []))
        × (c'.aborted ≡ c.aborted + length buffer)
        × (c'.requeued ≡ c.requeued + length buffer)
  unfolding drain_buffer
  drain_buffer-requeue finished d c h g =
      let left = unfinished finished d in
      let counts = requeue_counts finished (groups_of d) [] c in
      (
        ap drain_buffer (requeue_samples finished d [] c g)
            ∙ ap (λ (u : Dict ℤ (List (Sample F P))). (groups_of u, []))
                (by_group-aborted_samples left [] (keep-Distinct _ d h) (All-keep IsGroup _ d g))
            ∙ ap (λ l. (l, [])) (groups-renewed left),
        omega (arith, counts.0),
        omega (arith, counts.1),
      )
