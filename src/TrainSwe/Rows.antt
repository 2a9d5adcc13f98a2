-- ===== src/TrainSwe/Rows.antt =====
-- train_swe.py: what the history and the rows of a run hold.
use llm_rl_cpu_poc.Common.{
  ℕ, zero, suc, ◌+◌, ◌≡◌, refl, sym, ◌∙◌, ap, Bool, true, false, Option, none, some, List, [], ◌∷◌,
  ◌++◌, map, length, keep, All, arith,
}
use mathlib.Core.List.{append-nil, append_assoc, Perm}
use llm_rl_cpu_poc.Common.Float.{Float}
use llm_rl_cpu_poc.Common.Result.{ok}
use llm_rl_cpu_poc.Types.{Sample}
use llm_rl_cpu_poc.DataSource.{RolloutDataSource, Task, init}
use llm_rl_cpu_poc.DataSource.Epochs.{IsValid, groups_of, get_groups_total}
use llm_rl_cpu_poc.DataSource.Ready.{init_lem}
use llm_rl_cpu_poc.Rollout.Batch.{
  Counters, Batch, is_supported, drain_buffer, requeue_one, requeue, pack_group, pack_groups, pack,
  all_done, generate_async,
}
use llm_rl_cpu_poc.DualMonitor.{DualMonitor, happen, stop_call, report}
use llm_rl_cpu_poc.TrainSwe.{
  SweArgs, SweRow, RolloutInfo, SweSummary, SweRun, SweOutside, sample_row, info_of, watched,
  swe_rollout, swe_loop, begin_run, swe_run,
}

module _ {F P : Type 0} where
  requeue_one-zero_var :
      (finished : List (List (Sample F P))) (g buffer : List (Sample F P)) (c : Counters)
      → (requeue_one finished g buffer c).1.zero_var_groups ≡ c.zero_var_groups
  unfolding requeue_one
  requeue_one-zero_var finished [] buffer c = refl
  requeue_one-zero_var finished (s ∷ g) buffer c = ground arith

  requeue-zero_var :
      (finished gs : List (List (Sample F P))) (buffer : List (Sample F P)) (c : Counters)
      → (requeue finished gs buffer c).1.zero_var_groups ≡ c.zero_var_groups
  unfolding requeue
  requeue-zero_var finished [] buffer c = refl
  requeue-zero_var finished (g ∷ gs) buffer c =
      let out = requeue_one finished g buffer c in
      requeue-zero_var finished gs out.0 out.1 ∙ requeue_one-zero_var finished g buffer c

module _ (fl : Float) {P : Type 0} where
  open fl use {F}

  pack_groups-keeps : (gs : List (List (Sample F P))) → (pack_groups fl false gs).1 ≡ 0
  unfolding pack_groups pack_group
  pack_groups-keeps [] = refl
  pack_groups-keeps ([] ∷ gs) = omega (arith, pack_groups-keeps gs)
  pack_groups-keeps ((s ∷ g) ∷ gs) = omega (arith, pack_groups-keeps gs)

  -- A batch of that number and size, with the counters, where no group was ever dropped.
  abbrev Returned : ℕ → Option (Batch F P × List (Sample F P) × Counters) → Type 0
  Returned rid out =
      (batch : Batch F P) × (buffer : List (Sample F P)) × (c : Counters) × (out
        ≡ some (batch, buffer, c))
      × (batch.rollout_id ≡ rid)
      × (batch.kept_samples ≡ length batch.samples)
      × (batch.stats.zero_var_groups ≡ 0)
      × (c.zero_var_groups ≡ 0)

  generate_async-Returned :
      (ends : List (List (Sample F P)) → List (Option (List (Sample F P))))
      (left : List (Sample F P) → List (Sample F P)) (rid wall_s : ℕ)
      (fresh : List (List (Sample F P))) (buffer : List (Sample F P)) (c : Counters)
      → ((groups : List (List (Sample F P)))
          → (done : List (List (Sample F P))) × (all_done fl (ends groups) ≡ some done))
      → c.zero_var_groups ≡ 0
      → Returned rid (generate_async fl true false none ends left rid fresh wall_s buffer c)
  unfolding generate_async pack
  generate_async-Returned ends left rid wall_s fresh buffer c gathers h =
      let (requeued, emptied) = drain_buffer buffer in
      let groups = keep (is_supported true) (requeued ++ fresh) in
      let (done, e) = gathers groups in
      let same = requeue-zero_var done (map left groups) emptied c in
      let kept = pack_groups-keeps done in
      let (buffer', c') = requeue done (map left groups) emptied c in
      let packed = pack fl false rid done wall_s c' in
      let none_dropped : packed.1.zero_var_groups ≡ 0 = omega (arith, same, kept, h) in
      (
        packed.0,
        buffer',
        packed.1,
        rw (e, generate_async) refl,
        refl,
        refl,
        none_dropped,
        none_dropped,
      )

-- The rows fall into blocks, one for each entry in order: the entries are numbered from `rid`, a
-- block has the entry's number in each row and as many rows as the entry says were kept, and no
-- group was dropped for its rewards.
abbrev pub Tells : {F P : Type 0} → ℕ → List (RolloutInfo F) → List (SweRow F P) → Type 0
Tells rid [] rows = rows ≡ []
Tells {F = F} {P = P} rid (h ∷ hs) rows =
    (here : List (SweRow F P)) × (rest : List (SweRow F P)) × (rows ≡ here ++ rest)
    × (h.rollout_id ≡ rid)
    × (length here ≡ h.kept_samples)
    × All (λ (r : SweRow F P). r.rollout_id ≡ rid) here
    × (h.stats.zero_var_groups ≡ 0)
    × Tells (rid + 1) hs rest

module _ {F P : Type 0} (rid : ℕ) where
  length-rows : (ss : List (Sample F P)) → length (map (sample_row rid) ss) ≡ length ss
  length-rows [] = refl
  length-rows (s ∷ ss) = omega (arith, length-rows ss)

  rows-numbered :
      (ss : List (Sample F P))
      → All (λ (r : SweRow F P). r.rollout_id ≡ rid) (map (sample_row rid) ss)
  unfolding sample_row
  rows-numbered [] = tt
  rows-numbered (s ∷ ss) = (refl, rows-numbered ss)

module _ (fl : Float) {P Rng : Type 0} (env : SweOutside fl.F P Rng) (args : SweArgs)
    (shuffle-perm : (r : Rng) (xs : List (Task fl.F P)) → Perm (env.shuffle r xs).0 xs)
    (gathers : (rid : ℕ) (groups : List (List (Sample fl.F P)))
      → (done : List (List (Sample fl.F P))) × (all_done fl (env.ends rid groups)
          ≡ some done)) where
  open fl use {F}

  -- The source can draw, and no group was dropped so far.
  abbrev IsReady : SweRun F P Rng → Type 0
  IsReady t = IsValid fl env.shuffle t.source × (t.counters.zero_var_groups ≡ 0)

  -- A rollout returns, and adds an entry and its block.
  swe_rollout_lem :
      (rid : ℕ) (t : SweRun F P Rng)
      → IsReady t
      → (t' : SweRun F P Rng) × (h : RolloutInfo F) × (here : List (SweRow F P)) × (swe_rollout fl
            env args rid t
          ≡ (true, t'))
        × (t'.history ≡ t.history ++ (h ∷ []))
        × (t'.sample_rows ≡ t.sample_rows ++ here)
        × (h.rollout_id ≡ rid)
        × (length here ≡ h.kept_samples)
        × All (λ (r : SweRow F P). r.rollout_id ≡ rid) here
        × (h.stats.zero_var_groups ≡ 0)
        × IsReady t'
  unfolding swe_rollout info_of
  swe_rollout_lem rid t (v, z) =
      let (ts, source, d, _, v') =
        get_groups_total fl env.shuffle shuffle-perm args.rollout_batch_size t.source v in
      let (batch, buffer, c, e, number, size, dropped, z') =
        generate_async-Returned fl (env.ends rid) (env.left rid) rid (env.wall_s rid)
          (groups_of fl t.source.n ts t.source.group_counter) t.buffer t.counters (gathers rid) z in
      (
        record {
          source = source;
          buffer = buffer;
          counters = c;
          history = t.history ++ (info_of batch ∷ []);
          sample_rows = t.sample_rows ++ map (sample_row rid) batch.samples;
          monitor = watched (env.rounds rid) t.monitor;
        },
        info_of batch,
        map (sample_row rid) batch.samples,
        rw (d.returns, e, swe_rollout) refl,
        refl,
        refl,
        number,
        length-rows rid batch.samples ∙ sym size,
        rows-numbered rid batch.samples,
        dropped,
        (v', z'),
      )

  swe_loop_lem :
      (left rid : ℕ) (t : SweRun F P Rng)
      → IsReady t
      → (t' : SweRun F P Rng) × (hs : List (RolloutInfo F)) × (rows : List (SweRow F P)) × (swe_loop
            fl env args left rid t
          ≡ (true, t'))
        × (t'.history ≡ t.history ++ hs)
        × (t'.sample_rows ≡ t.sample_rows ++ rows)
        × (length hs ≡ left)
        × Tells rid hs rows
  unfolding swe_loop
  swe_loop_lem zero rid t v =
      (t, [], [], refl, sym (append-nil t.history), sym (append-nil t.sample_rows), refl, refl)
  swe_loop_lem (suc left) rid t v =
      let (t₁, h, here, e, p, q, number, size, numbered, dropped, v₁) = swe_rollout_lem rid t v in
      let returned = ap (λ (o : Bool × SweRun F P Rng). o.0) e in
      let state = ap (λ (o : Bool × SweRun F P Rng). o.1) e in
      let (t', hs, rows, e', p', q', count, told) = swe_loop_lem left (rid + 1) t₁ v₁ in
      (
        t',
        h ∷ hs,
        here ++ rows,
        rw (returned, state, swe_loop) e',
        p' ∙ ap (λ l. l ++ hs) p ∙ append_assoc t.history (h ∷ []) hs,
        q' ∙ ap (λ l. l ++ rows) q ∙ append_assoc t.sample_rows here rows,
        omega (arith, count),
        (here, rows, refl, number, size, numbered, dropped, told),
      )

  -- Where `shuffle` permutes its list and no group of a rollout raises, a run from a source that
  -- `init` made comes to its summary. The history has an entry for each rollout, numbered from 0,
  -- and the rows fall into a block for each in this order, of as many rows as samples were kept, with
  -- the rollout's number; no group is dropped for its rewards. The monitor is stopped.
  pub swe_run-Tells :
      (tasks : List (Task F P)) (source : RolloutDataSource F P Rng)
      → init tasks args.n_samples_per_prompt env.rng "train" ≡ ok source
      → (summary : SweSummary F P) × ((swe_run fl env args tasks source).0 ≡ some summary)
        × (length summary.history ≡ args.num_rollout)
        × Tells 0 summary.history summary.sample_rows
        × ((swe_run fl env args tasks source).1.stop_set ≡ true)
  unfolding swe_run begin_run happen
  swe_run-Tells tasks source h =
      let (_, valid, _, _) =
        init_lem fl env.shuffle shuffle-perm tasks args.n_samples_per_prompt env.rng "train" source
          h in
      let (t', hs, rows, e, p, q, count, told) =
        swe_loop_lem args.num_rollout 0 (begin_run fl env args source) (valid, refl) in
      let returned = ap (λ (o : Bool × SweRun F P Rng). o.0) e in
      let state = ap (λ (o : Bool × SweRun F P Rng). o.1) e in
      let m : DualMonitor F = happen stop_call t'.monitor in
      (
        record {
          instances = map (λ (task : Task F P). task.task_id) tasks;
          n_samples_per_prompt = args.n_samples_per_prompt;
          num_rollout = args.num_rollout;
          history = t'.history;
          sample_rows = t'.sample_rows;
          dual_monitor = report fl m;
        },
        rw (returned, state, swe_run) refl,
        ap length p ∙ count,
        rw (p, q) told,
        rw (returned, swe_run) refl,
      )
