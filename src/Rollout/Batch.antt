-- ===== src/Rollout/Batch.antt =====
-- rollout_manager.py: a batch of groups, from the data source and the partial buffer to the packed
-- training data. How the event loop orders and ends the groups is a parameter.
use llm_rl_cpu_poc.Common.{
  ℕ, ◌+◌, leb, Bool, false, ◌&&◌, ◌||◌, Option, none, some, List, [], ◌∷◌, ◌++◌, map, keep, length,
  nat_beq, ◌==◌, text_key, if◌then◌else◌,
}
use llm_rl_cpu_poc.Common.Dict.{Dict, lookup, insert}
use llm_rl_cpu_poc.Common.Int.{ℤ, int_key}
use llm_rl_cpu_poc.Common.Float.{Float}
use llm_rl_cpu_poc.Types.{Sample, pending, aborted}
use llm_rl_cpu_poc.Rollout.{is_gen_error}

-- The `stats` dictionary of the manager.
pub record Counters : Type 0 where
  pub zero_var_groups : ℕ
  pub aborted : ℕ
  pub requeued : ℕ

module _ {F P : Type 0} where
  -- `by_group.setdefault(s.group_id, []).append(s)`.
  unfoldable pub append_to : Sample F P → Dict ℤ (List (Sample F P)) → Dict ℤ (List (Sample F P))
  append_to s d = elim (lookup s.group_id d) [
    | none ↦ insert s.group_id (s ∷ []) d
    | some g ↦ insert s.group_id (g ++ (s ∷ [])) d
  ]

  unfoldable pub by_group :
      List (Sample F P) → Dict ℤ (List (Sample F P)) → Dict ℤ (List (Sample F P))
  unfolding append_to
  by_group [] d = d
  by_group (s ∷ ss) d = by_group ss (append_to (record s { status = pending }) d)

  -- The groups of the partial buffer, which is empty afterwards.
  unfoldable pub drain_buffer : List (Sample F P) → List (List (Sample F P)) × List (Sample F P)
  unfolding by_group
  drain_buffer buffer = (map (λ (e : ℤ × List (Sample F P)). e.1) (by_group buffer []), [])

  -- `g and g[0].task_line in supported`.
  unfoldable pub is_supported : Bool → List (Sample F P) → Bool
  is_supported remote [] = false
  is_supported remote (s ∷ _) =
      s.task_line == "A"
      || s.task_line == "V1"
      || s.task_line == "V2"
      || s.task_line == "L3"
      || s.task_line == "MOCK"
      || (remote && s.task_line == "SWE")

  -- The loop over the groups as they complete, `none` for one that raised: it stops once `limit`
  -- groups are done. The groups that it never reads are cancelled.
  unfoldable pub collect :
      ℕ → List (Option (List (Sample F P))) → List (List (Sample F P)) → List (List (Sample F P))
  collect limit [] finished = finished
  collect limit (none ∷ rest) finished = collect limit rest finished
  collect limit (some g ∷ rest) finished =
      let finished' : List (List (Sample F P)) = finished ++ (g ∷ []) in
      let more = collect limit rest finished' in
      if leb limit (length finished') then finished' else more

  -- `g[0].group_id in finished_ids`.
  unfoldable pub is_finished : List (List (Sample F P)) → ℤ → Bool
  is_finished [] gid = false
  is_finished ([] ∷ gs) gid = is_finished gs gid
  is_finished ((s ∷ g) ∷ gs) gid = s.group_id == gid || is_finished (g ∷ gs) gid

  -- One group of the loop that requeues: if it did not finish, its samples go behind the buffer,
  -- marked as aborted, and are counted.
  unfoldable pub requeue_one :
      List (List (Sample F P))
      → List (Sample F P)
      → List (Sample F P)
      → Counters
      → List (Sample F P) × Counters
  unfolding is_finished
  requeue_one finished [] buffer c = (buffer, c)
  requeue_one finished (s ∷ g) buffer c = if is_finished finished s.group_id then (buffer, c) else (
    buffer ++ map (λ (x : Sample F P). record x { status = aborted }) (s ∷ g),
    record c { aborted = c.aborted + length (s ∷ g); requeued = c.requeued + length (s ∷ g) },
  )

  unfoldable pub requeue :
      List (List (Sample F P))
      → List (List (Sample F P))
      → List (Sample F P)
      → Counters
      → List (Sample F P) × Counters
  unfolding requeue_one
  requeue finished [] buffer c = (buffer, c)
  requeue finished (g ∷ gs) buffer c =
      let (buffer', c') = requeue_one finished g buffer c in requeue finished gs buffer' c'

-- `sum(xs)`, `len(set(xs)) == 1`, and the mean.
module _ (fl : Float) where
  open fl use {F}

  unfoldable pub sum_from : F → List F → F
  sum_from acc [] = acc
  sum_from acc (x ∷ xs) = sum_from (fl.add acc x) xs

  unfoldable pub is_in : F → List F → Bool
  is_in x [] = false
  is_in x (y ∷ ys) = fl.eq x y || is_in x ys

  unfoldable pub set_of : List F → List F
  unfolding is_in
  set_of [] = []
  set_of (x ∷ xs) = let rest = set_of xs in if is_in x rest then rest else x ∷ rest

  unfoldable pub mean : List F → F
  unfolding sum_from
  mean xs = fl.div (sum_from fl.zero xs) (fl.of_nat (length xs))

  module _ {P : Type 0} where
    abbrev pub rewards_of : List (Sample F P) → List F
    rewards_of g = map (λ (s : Sample F P). s.reward) g

    -- What a group adds to the batch: nothing and one count where all rewards are equal and such
    -- groups are dropped, else its samples with their advantages.
    unfoldable pub pack_group : Bool → List (Sample F P) → List (Sample F P) × ℕ
    unfolding set_of mean
    pack_group drop_zero_var [] = ([], 0)
    pack_group drop_zero_var (s ∷ g) =
        if drop_zero_var && nat_beq (length (set_of (rewards_of (s ∷ g)))) 1 then ([], 1) else (
          map
              (λ (x : Sample F P). record x {
                advantage = fl.sub x.reward (mean (rewards_of (s ∷ g)));
              })
              (s ∷ g),
          0,
        )

    unfoldable pub pack_groups : Bool → List (List (Sample F P)) → List (Sample F P) × ℕ
    unfolding pack_group
    pack_groups drop_zero_var [] = ([], 0)
    pack_groups drop_zero_var (g ∷ gs) =
        let (samples, zero_var) = pack_group drop_zero_var g in
        let (more, others) = pack_groups drop_zero_var gs in (samples ++ more, zero_var + others)

    abbrev pub all_rewards : List (List (Sample F P)) → List F
    all_rewards [] = []
    all_rewards (g ∷ gs) = rewards_of g ++ all_rewards gs

    abbrev pub gen_errors : List (List (Sample F P)) → ℕ
    gen_errors [] = 0
    gen_errors (g ∷ gs) =
        length (keep (λ (s : Sample F P). is_gen_error s.status) g) + gen_errors gs

-- The training data of a rollout.
pub record Batch (F P : Type 0) : Type 0 where
  pub rollout_id : ℕ
  pub samples : List (Sample F P)
  pub num_groups : ℕ
  pub wall_s : ℕ
  pub gen_errors : ℕ
  pub mean_reward : F
  pub kept_samples : ℕ
  pub stats : Counters

module _ (fl : Float) {P : Type 0} where
  open fl use {F}

  unfoldable pub pack : Bool → ℕ → List (List (Sample F P)) → ℕ → Counters → Batch F P × Counters
  unfolding pack_groups mean
  pack drop_zero_var rollout_id groups wall_s c =
      let (samples, zero_var) = pack_groups fl drop_zero_var groups in
      let c' : Counters = record c { zero_var_groups = c.zero_var_groups + zero_var } in
      (
        record {
          rollout_id = rollout_id;
          samples = samples;
          num_groups = length groups;
          wall_s = wall_s;
          gen_errors = gen_errors fl groups;
          mean_reward = elim (all_rewards fl groups) [ [] ↦ fl.zero | x ∷ xs ↦ mean fl (x ∷ xs) ];
          kept_samples = length samples;
          stats = c';
        },
        c',
      )

  -- One rollout. `fresh` is what the data source gave, `ends` maps the admitted groups to their
  -- ends in the order of completion, `none` for a group that raised, and `left` maps each admitted
  -- group to its samples as the rollout leaves them, which are the same objects. Without a limit all are awaited,
  -- and the first that raises ends the rollout with its exception, which is `none` here.
  unfoldable pub all_done : List (Option (List (Sample F P))) → Option (List (List (Sample F P)))
  all_done [] = some []
  all_done (none ∷ rest) = none
  all_done (some g ∷ rest) =
      let more = all_done rest in elim more [ none ↦ none | some gs ↦ some (g ∷ gs) ]

  unfoldable pub generate_async :
      Bool
      → Bool
      → Option ℕ
      → (List (List (Sample F P)) → List (Option (List (Sample F P))))
      → (List (Sample F P) → List (Sample F P))
      → ℕ
      → List (List (Sample F P))
      → ℕ
      → List (Sample F P)
      → Counters
      → Option (Batch F P × List (Sample F P) × Counters)
  unfolding drain_buffer is_supported collect all_done requeue pack
  generate_async remote drop_zero_var abort_after ends left rollout_id fresh wall_s buffer c =
      let (requeued, emptied) = drain_buffer buffer in
      let groups = keep (is_supported remote) (requeued ++ fresh) in
      let finished : Option (List (List (Sample F P))) = elim abort_after [
        | none ↦ all_done (ends groups)
        | some limit ↦ some (collect limit (ends groups) [])
      ] in
      elim finished [
        | none ↦ none
        | some done_groups ↦
            let (buffer', c₁) = requeue done_groups (map left groups) emptied c in
            let (batch, c₂) = pack drop_zero_var rollout_id done_groups wall_s c₁ in
            some (batch, buffer', c₂)
      ]
