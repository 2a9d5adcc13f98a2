-- ===== src/DataSource/Ready.antt =====
-- data_source.py: what a source over the built-in tasks hands out can be run.
use llm_rl_cpu_poc.Common.{
  ℕ, ◌≡◌, ◌≢◌, refl, sym, subst, String, none, some, true, List, [], ◌∷◌, keep, length, ltb, ◌==◌,
  text_key, All, arith, Bool-cases, if◌then◌else◌, inl, inr,
}
use llm_rl_cpu_poc.Common.Float.{Float}
use llm_rl_cpu_poc.Common.Result.{ok, err}
use llm_rl_cpu_poc.Sandbox.{Tier, a, b, c, tier_of}
use llm_rl_cpu_poc.DataSource.{
  Task, RolloutDataSource, no_tasks, bad_group_size, task_by_id, init, get_groups,
}
use llm_rl_cpu_poc.DataSource.Tables.{a_task, all_tasks}
use llm_rl_cpu_poc.DataSource.Epochs.{IsValid, groups_of, get_groups_total}
use mathlib.Core.Logic.{∥∥₁_prop}
use mathlib.Core.Logic.Or
use mathlib.Core.List.{Mem, Subset, Perm, mem-cons, not-mem-nil, nil-subset, cons-subset}

-- Where the property holds of all, it holds of each; that it does is a proposition.
All-mem : {A : Type 0} (P : A → Type 0) (x : A) (ys : List A) → All P ys → Mem x ys → ∥ P x ∥₁
All-mem P x [] h m = absurd (not-mem-nil m)
All-mem P x (y ∷ ys) h m =
    Or.elim ∥∥₁_prop (mem-cons.0 m) (λ e. ∣ subst P (sym e) h.0 ∣₁) (λ n. All-mem P x ys h.1 n)

All-subset :
    {A : Type 0} (P : A → Type 0) (xs ys : List A)
    → All P ys
    → Subset xs ys
    → All (λ x. ∥ P x ∥₁) xs
All-subset P [] ys h s = tt
All-subset P (x ∷ xs) ys h s =
    let (m, rest) = cons-subset.0 s in (All-mem P x ys h m, All-subset P xs ys h rest)

some_ne : (t : Tier) → some t ≢ none
some_ne t e = cc e

module _ {F P : Type 0} where
  -- A task that its id finds in the table, with a resource profile for its tier, and of the split.
  abbrev pub IsReady : String → Task F P → Type 0
  IsReady split t =
      (task_by_id all_tasks t.task_id ≡ some t)
      × (tier_of t.tier ≢ none)
      × ((t.split == split) ≡ true)

  abbrev IsListed : Task F P → Type 0
  IsListed t = (task_by_id all_tasks t.task_id ≡ some t) × (tier_of t.tier ≢ none)

  keep-IsReady :
      (split : String) (ts : List (Task F P))
      → All IsListed ts
      → All (IsReady split) (keep (λ (t : Task F P). t.split == split) ts)
  keep-IsReady split [] h = tt
  keep-IsReady split (t ∷ ts) (h, hs) = elim (Bool-cases (t.split == split)) [
    | inl e ↦ rw e ((h.0, h.1, e), keep-IsReady split ts hs)
    | inr e ↦ rw e (keep-IsReady split ts hs)
  ]

module _ (F P : Type 0) where
  all_tasks-IsListed : All (IsListed {F = F} {P = P}) all_tasks
  unfolding all_tasks a_task task_by_id tier_of
  all_tasks-IsListed = (
    (refl, some_ne a),
    (
      (refl, some_ne a),
      (
        (refl, some_ne a),
        (
          (refl, some_ne a),
          (
            (refl, some_ne a),
            (
              (refl, some_ne a),
              (
                (refl, some_ne a),
                (
                  (refl, some_ne a),
                  (
                    (refl, some_ne b),
                    (
                      (refl, some_ne c),
                      (
                        (refl, some_ne c),
                        (
                          (refl, some_ne a),
                          (
                            (refl, some_ne a),
                            ((refl, some_ne a), ((refl, some_ne a), ((refl, some_ne a), tt))),
                          ),
                        ),
                      ),
                    ),
                  ),
                ),
              ),
            ),
          ),
        ),
      ),
    ),
  )

module _ (fl : Float) {P Rng : Type 0}
    (shuffle : Rng → List (Task fl.F P) → List (Task fl.F P) × Rng)
    (shuffle-perm : (r : Rng) (xs : List (Task fl.F P)) → Perm (shuffle r xs).0 xs) where
  open fl use {F}

  -- What `init` makes: the tasks of the split, of which there is one, and an empty epoch.
  pub init_lem :
      (all : List (Task F P)) (n : ℕ) (rng : Rng) (split : String) (s : RolloutDataSource F P Rng)
      → init all n rng split ≡ ok s
      → (s.tasks ≡ keep (λ (t : Task F P). t.split == split) all)
        × IsValid fl shuffle s
        × (s.n ≡ n)
        × (s.group_counter ≡ 0)
  unfolding init
  init_lem all n rng split s h = go (keep (λ (t : Task F P). t.split == split) all) refl h
    where
      Made : RolloutDataSource F P Rng → Type 0
      Made s =
          (s.tasks ≡ keep (λ (t : Task F P). t.split == split) all)
          × IsValid fl shuffle s
          × (s.n ≡ n)
          × (s.group_counter ≡ 0)

      go :
          (ts : List (Task F P))
          → keep (λ (t : Task F P). t.split == split) all ≡ ts
          → (elim ts [
            | [] ↦ err (no_tasks split)
            | t ∷ ts ↦
                if ltb n 1
                then err bad_group_size
                else ok (record { tasks = t ∷ ts; n = n; rng = rng; epoch = []; group_counter = 0 })
          ])
            ≡ ok s
          → Made s
      go [] e h = absurd (ground (arith, h))
      go (t ∷ ts) e h = elim (Bool-cases (ltb n 1)) [
        | inl q ↦ absurd (ground (arith, q, h))
        | inr q ↦
            let made : RolloutDataSource F P Rng = record {
              tasks = t ∷ ts;
              n = n;
              rng = rng;
              epoch = [];
              group_counter = 0;
            } in
            let same : made ≡ s = ground (arith, q, h) in
            subst Made same (
              sym e,
              record { some_task = λ x. cc x; from_tasks = nil-subset (t ∷ ts) },
              refl,
              refl,
            )
      ]

  -- A source made over the built-in tasks for a split returns from its first call of `get_groups`: the
  -- groups of as many tasks as asked for, numbered from 0, and each of these tasks is the one that `task_by_id` finds by
  -- its id, has a resource profile for its tier, and belongs to the split. It is assumed
  -- that `shuffle` permutes its list.
  pub get_groups-init :
      (n : ℕ) (rng : Rng) (split : String) (batch : ℕ) (s : RolloutDataSource F P Rng)
      → init all_tasks n rng split ≡ ok s
      → (ts : List (Task F P)) × (s' : RolloutDataSource F P Rng) × (get_groups fl shuffle batch s
          ≡ some (groups_of fl n ts 0, s'))
        × (length ts ≡ batch)
        × All (λ t. ∥ IsReady split t ∥₁) ts
  get_groups-init n rng split batch s h =
      let (tasks, valid, same_n, zero) = init_lem all_tasks n rng split s h in
      let (ts, s', d, sub, _) = get_groups_total fl shuffle shuffle-perm batch s valid in
      (
        ts,
        s',
        subst (λ k. get_groups fl shuffle batch s ≡ some (groups_of fl k ts 0, s')) same_n
            (subst (λ g. get_groups fl shuffle batch s ≡ some (groups_of fl s.n ts g, s')) zero
              d.returns),
        d.count,
        All-subset (IsReady split) ts s.tasks
            (subst (λ us. All (IsReady split) us) (sym tasks)
              (keep-IsReady split all_tasks (all_tasks-IsListed F P)))
            sub,
      )
