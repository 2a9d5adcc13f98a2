-- ===== src/DataSource/Epochs.antt =====
-- data_source.py: what a call of `get_groups` draws, and that an epoch uses every task once.
use llm_rl_cpu_poc.Common.{
  ℕ, zero, suc, ◌+◌, ◌<◌, ◌≡◌, refl, ap, ◌∙◌, sym, ◌≢◌, some, List, [], ◌∷◌, ◌++◌, replicate,
  length, length-append, subst, arith, inl, inr, Option-cases,
}
use llm_rl_cpu_poc.Common.Float.{Float}
use llm_rl_cpu_poc.Common.Perms.{length-Perm}
use llm_rl_cpu_poc.Types.{Sample}
use llm_rl_cpu_poc.DataSource.{
  Task, RolloutDataSource, pop, refill, next_task, group_sample, get_groups,
}
use mathlib.Core.List.{
  Perm, Subset, perm_append_singleton, mem-append_left, mem-append_right, mem-cons_self, nil-subset,
  cons-subset,
}
use mathlib.Core.List.Perm

pop-eq-some : {A : Type 0} (xs ys : List A) (y : A) → pop xs ≡ some (ys, y) → xs ≡ ys ++ y ∷ []
unfolding pop
pop-eq-some [] ys y h = cc
pop-eq-some (x ∷ xs) ys y h = elim (Option-cases (pop xs)) [
  | inl e ↦ ground arith
  | inr ((zs, z), e) ↦ ground (arith, pop-eq-some xs zs z e)
]

length_pos : {A : Type 0} (xs : List A) → xs ≢ [] → 0 < length xs
length_pos [] h = absurd (h refl)
length_pos (x ∷ xs) h = omega arith

pop-cons : {A : Type 0} (x : A) (xs : List A) → (r : List A × A) × (pop (x ∷ xs) ≡ some r)
unfolding pop
pop-cons x xs = elim (Option-cases (pop xs)) [
  | inl e ↦ (([], x), rw e)
  | inr ((zs, z), e) ↦ ((x ∷ zs, z), rw e)
]

module _ (fl : Float) {P : Type 0} where
  open fl use {F}

  -- The groups that the tasks `ts` give, numbered from `gid`: `n` equal samples for each task.
  abbrev pub groups_of : ℕ → List (Task F P) → ℕ → List (List (Sample F P))
  groups_of n [] gid = []
  groups_of n (t ∷ ts) gid = replicate n (group_sample fl t gid) ∷ groups_of n ts (gid + 1)

  module _ {Rng : Type 0} (shuffle : Rng → List (Task F P) → List (Task F P) × Rng) where
    -- `get_groups` returned the groups of `ts`, and `s'` is the source that it left.
    pub record Drawn (s : RolloutDataSource F P Rng) (batch : ℕ) (ts : List (Task F P))
        (s' : RolloutDataSource F P Rng) : Type 0 where
      pub returns : get_groups fl shuffle batch s ≡ some (groups_of s.n ts s.group_counter, s')
      pub count : length ts ≡ batch
      pub counter : s'.group_counter ≡ s.group_counter + batch
      pub same_tasks : s'.tasks ≡ s.tasks

    pub record IsValid (s : RolloutDataSource F P Rng) : Type 0 where
      pub some_task : s.tasks ≢ []
      pub from_tasks : Subset s.epoch s.tasks

    get_groups_first :
        (k : ℕ) (s r : RolloutDataSource F P Rng)
        → 0 < k
        → next_task shuffle s ≡ next_task shuffle r
        → get_groups fl shuffle k s ≡ get_groups fl shuffle k r
    unfolding get_groups
    get_groups_first zero s r h e = absurd (omega (arith, h))
    get_groups_first (suc k) s r h e = rw (e, get_groups)

    -- A draw from an epoch that has a task takes its last one.
    next_task_in_epoch :
        (s : RolloutDataSource F P Rng) (t : Task F P) (ts : List (Task F P))
        → s.epoch ≡ t ∷ ts
        → (u : Task F P) × (rest : List (Task F P)) × (next_task shuffle s
            ≡ some (u, record s { epoch = rest }))
          × (s.epoch ≡ rest ++ u ∷ [])
    unfolding next_task refill
    next_task_in_epoch s t ts e =
        let ((rest, u), p) = pop-cons t ts in
        (u, rest, ground (arith, p), rw e (pop-eq-some (t ∷ ts) rest u p))

    module _ (shuffle-perm : (r : Rng) (xs : List (Task F P)) → Perm (shuffle r xs).0 xs) where
      -- An empty epoch is refilled first, and the draw is then one from the refilled source.
      shuffled-cons :
          (r : Rng) (xs : List (Task F P))
          → xs ≢ []
          → (t : Task F P) × (ts : List (Task F P)) × ((shuffle r xs).0 ≡ t ∷ ts)
      shuffled-cons r [] h = absurd (h refl)
      shuffled-cons r (x ∷ xs) h = nonempty (shuffle r (x ∷ xs)).0 refl
        where
          nonempty :
              (ys : List (Task F P))
              → (shuffle r (x ∷ xs)).0 ≡ ys
              → (t : Task F P) × (ts : List (Task F P)) × ((shuffle r (x ∷ xs)).0 ≡ t ∷ ts)
          nonempty [] e = absurd (omega (arith, length-Perm (shuffle-perm r (x ∷ xs)), ap length e))
          nonempty (t ∷ ts) e = (t, ts, e)

      refill_cases :
          (s : RolloutDataSource F P Rng) (xs : List (Task F P))
          → s.epoch ≡ xs
          → IsValid s
          → (t : Task F P) × (ts : List (Task F P)) × (r : RolloutDataSource F P Rng) × (r.epoch
              ≡ t ∷ ts)
            × (next_task shuffle s ≡ next_task shuffle r)
            × IsValid r
            × (r.tasks ≡ s.tasks)
            × (r.n ≡ s.n)
            × (r.group_counter ≡ s.group_counter)
      unfolding next_task refill
      refill_cases s (t ∷ ts) e v = (t, ts, s, e, refl, v, refl, refl, refl)
      refill_cases s [] e v =
          let (t, ts, p) = shuffled-cons s.rng s.tasks v.some_task in
          (
            t,
            ts,
            record s { rng = (shuffle s.rng s.tasks).1; epoch = (shuffle s.rng s.tasks).0 },
            p,
            ground (arith, p),
            record {
              some_task = v.some_task;
              from_tasks = λ u. (Perm.mem_iff (shuffle-perm s.rng s.tasks)).0;
            },
            refl,
            refl,
            refl,
          )

      -- One round of the loop of `get_groups`, given what the draw and the rest returned.
      round_Drawn :
          (batch : ℕ) (s s₁ s₂ : RolloutDataSource F P Rng) (t : Task F P) (ts : List (Task F P))
          → next_task shuffle s ≡ some (t, s₁)
          → s₁.n ≡ s.n
          → s₁.tasks ≡ s.tasks
          → s₁.group_counter ≡ s.group_counter
          → Drawn (record s₁ { group_counter = s₁.group_counter + 1 }) batch ts s₂
          → Drawn s (suc batch) (t ∷ ts) s₂
      unfolding get_groups
      round_Drawn batch s s₁ s₂ t ts p n same c d = record {
        returns = ground (arith, d.returns);
        count = omega (arith, d.count);
        counter = omega (arith, d.counter);
        same_tasks = d.same_tasks ∙ same;
      }

      -- From a valid source every call returns: `batch` groups of `n` samples with consecutive ids,
      -- over tasks of the source, and the source stays valid.
      pub get_groups_total :
          (batch : ℕ) (s : RolloutDataSource F P Rng)
          → IsValid s
          → (ts : List (Task F P)) × (s' : RolloutDataSource F P Rng) × Drawn s batch ts s'
            × Subset ts s.tasks
            × IsValid s'
      unfolding get_groups
      get_groups_total zero s v = (
        [],
        s,
        record { returns = refl; count = refl; counter = omega arith; same_tasks = refl },
        nil-subset _,
        v,
      )
      get_groups_total (suc batch) s v =
          let (t, ts, r, e, same, vr, rt, rn, rc) = refill_cases s s.epoch refl v in
          let (u, rest, p, split) = next_task_in_epoch r t ts e in
          let s₁ = record r { epoch = rest; group_counter = r.group_counter + 1 } in
          let v₁ : IsValid s₁ = record {
            some_task = vr.some_task;
            from_tasks = λ a m. vr.from_tasks a (rw split (mem-append_left _ m));
          } in
          let (us, s₂, d, sub, v₂) = get_groups_total batch s₁ v₁ in
          (
            u ∷ us,
            s₂,
            round_Drawn batch s (record r { epoch = rest }) s₂ u us (same ∙ p) rn rt rc d,
            cons-subset.1 (
              rw rt at (vr.from_tasks u (rw split (mem-append_right rest mem-cons_self))),
              rw rt at sub,
            ),
            v₂,
          )

      -- As many draws as the epoch has tasks use it up, each task once.
      drain :
          (k : ℕ) (s : RolloutDataSource F P Rng) (xs : List (Task F P))
          → s.epoch ≡ xs
          → length xs ≡ k
          → (ts : List (Task F P)) × (s' : RolloutDataSource F P Rng) × Drawn s k ts s'
            × Perm ts xs
            × (s'.epoch ≡ [])
      unfolding get_groups
      drain zero s [] e l = (
        [],
        s,
        record { returns = refl; count = refl; counter = omega arith; same_tasks = refl },
        Perm.nil,
        e,
      )
      drain zero s (x ∷ xs) e l = absurd (omega (arith, l))
      drain (suc k) s [] e l = absurd (omega (arith, l))
      drain (suc k) s (x ∷ xs) e l =
          let (u, rest, p, split) = next_task_in_epoch s x xs e in
          let fits : length rest ≡ k =
            omega (arith, ap length (sym e ∙ split), length-append rest (u ∷ [])) in
          let (us, s₂, d, perm, empty) =
            drain k (record s { epoch = rest; group_counter = s.group_counter + 1 }) rest refl
              fits in
          (
            u ∷ us,
            s₂,
            round_Drawn k s (record s { epoch = rest }) s₂ u us p refl refl refl d,
            subst (λ l. Perm (u ∷ us) l) (sym split ∙ e)
                (Perm.trans (Perm.cons u perm) (Perm.symm (perm_append_singleton u rest))),
            empty,
          )

      -- At the start of an epoch, as many groups as there are tasks take every task exactly once, in
      -- some order, and leave the epoch empty again.
      pub epoch_covers :
          (s : RolloutDataSource F P Rng)
          → s.epoch ≡ []
          → s.tasks ≢ []
          → (ts : List (Task F P)) × (s' : RolloutDataSource F P Rng) × Drawn s
              (length s.tasks)
              ts
              s'
            × Perm ts s.tasks
            × (s'.epoch ≡ [])
      unfolding get_groups next_task refill
      epoch_covers s e h =
          let (t, ts, p) = shuffled-cons s.rng s.tasks h in
          let (shuffled, rng) = shuffle s.rng s.tasks in
          let r = record s { rng = rng; epoch = shuffled } in
          let same : next_task shuffle s ≡ next_task shuffle r = ground (arith, p) in
          let (us, s', d, perm, empty) =
            drain (length s.tasks) r shuffled refl (length-Perm (shuffle-perm s.rng s.tasks)) in
          (
            us,
            s',
            record {
              returns =
                  get_groups_first (length s.tasks) s r (length_pos s.tasks h) same ∙ d.returns;
              count = d.count;
              counter = d.counter;
              same_tasks = d.same_tasks;
            },
            Perm.trans perm (shuffle-perm s.rng s.tasks),
            empty,
          )
