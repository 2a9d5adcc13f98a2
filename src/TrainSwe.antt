-- ===== src/TrainSwe.antt =====
-- train_swe.py: the driver of the dual-node rollouts, from the instances to its summary. How the
-- groups of a rollout end, and what the monitor's thread reads, are parameters.
pub mod Rows
mod Tests
use llm_rl_cpu_poc.Common.{
  ℕ, zero, suc, ◌+◌, String, Bool, true, false, Option, none, some, List, [], ◌∷◌, ◌++◌, map,
  text_key,
}
use llm_rl_cpu_poc.Common.Dict.{Dict, lookup}
use llm_rl_cpu_poc.Common.Float.{Float}
use llm_rl_cpu_poc.Common.Int.{ℤ}
use llm_rl_cpu_poc.Common.Result.{Result, ok, err, ◌>>=◌}
use llm_rl_cpu_poc.Types.{Sample, Value, value}
use llm_rl_cpu_poc.DataSource.{Task, RolloutDataSource, Refusal, init, get_groups}
use llm_rl_cpu_poc.Swebench.{SweInstance, SwePayload, Failure, load_tasks}
use llm_rl_cpu_poc.Rollout.Batch.{Counters, Batch, generate_async}
use llm_rl_cpu_poc.DualMonitor.{
  Reading, DualMonitor, Report, new_monitor, start_call, stop_call, begin_round, end_round, happen,
  report,
}

pub record SweArgs : Type 0 where
  pub repo : Option String
  pub limit : Option ℕ
  pub n_samples_per_prompt : ℕ
  pub num_rollout : ℕ
  pub rollout_batch_size : ℕ
  pub max_turns : ℕ

-- A row of `sample_rows`.
pub record SweRow (F P : Type 0) : Type 0 where
  pub rollout_id : ℕ
  pub task_id : String
  pub group_id : ℤ
  pub traj_id : Option (Value F P)
  pub reward : F
  pub turns : ℕ
  pub status : String
  pub rollout_logprob : F
  pub num_tokens : ℕ
  pub sandbox : Dict String (Value F P)

-- An entry of `history`: the batch without its samples.
pub record RolloutInfo (F : Type 0) : Type 0 where
  pub rollout_id : ℕ
  pub num_groups : ℕ
  pub wall_s : ℕ
  pub gen_errors : ℕ
  pub mean_reward : F
  pub kept_samples : ℕ
  pub stats : Counters

-- The summary, without the name of its mode and the total time.
pub record SweSummary (F P : Type 0) : Type 0 where
  pub instances : List String
  pub n_samples_per_prompt : ℕ
  pub num_rollout : ℕ
  pub history : List (RolloutInfo F)
  pub sample_rows : List (SweRow F P)
  pub dual_monitor : Report F

-- ValueErrors before the monitor starts.
pub data SetupError : Type 0 where
  not_loaded : Failure → SetupError
  no_source : Refusal → SetupError

-- The source and the manager's buffer and counters, what is written down, and the monitor.
pub record SweRun (F P Rng : Type 0) : Type 0 where
  pub source : RolloutDataSource F P Rng
  pub buffer : List (Sample F P)
  pub counters : Counters
  pub history : List (RolloutInfo F)
  pub sample_rows : List (SweRow F P)
  pub monitor : DualMonitor F

-- What a run meets: the random generator, and in each rollout the ends of its groups, what it leaves of a group, its time, and
-- what the monitor's thread does meanwhile: it begins a round with a reading, or ends one.
pub record SweOutside (F P Rng : Type 0) : Type 0 where
  pub shuffle : Rng → List (Task F P) → List (Task F P) × Rng
  pub rng : Rng
  pub ends : ℕ → List (List (Sample F P)) → List (Option (List (Sample F P)))
  pub left : ℕ → List (Sample F P) → List (Sample F P)
  pub wall_s : ℕ → ℕ
  pub rounds : ℕ → List (Option (Reading F))

module _ {F P : Type 0} where
  unfoldable pub sample_row : ℕ → Sample F P → SweRow F P
  unfolding value lookup
  sample_row rid s = record {
    rollout_id = rid;
    task_id = s.task_id;
    group_id = s.group_id;
    traj_id = lookup "traj_id" s.metadata;
    reward = s.reward;
    turns = s.turns;
    status = value s.status;
    rollout_logprob = s.rollout_logprob;
    num_tokens = s.num_tokens;
    sandbox = s.sandbox;
  }

  unfoldable pub info_of : Batch F P → RolloutInfo F
  info_of batch = record {
    rollout_id = batch.rollout_id;
    num_groups = batch.num_groups;
    wall_s = batch.wall_s;
    gen_errors = batch.gen_errors;
    mean_reward = batch.mean_reward;
    kept_samples = batch.kept_samples;
    stats = batch.stats;
  }

unfoldable pub watched : {F : Type 0} → List (Option (Reading F)) → DualMonitor F → DualMonitor F
unfolding happen
watched [] m = m
watched (none ∷ rs) m = watched rs (happen end_round m)
watched (some r ∷ rs) m = watched rs (happen (begin_round r) m)

module _ (fl : Float) {P Rng : Type 0} (env : SweOutside fl.F P Rng) (args : SweArgs) where
  open fl use {F}

  -- The body of the loop, and whether it returned. Behind an exception only the monitor is read.
  unfoldable pub swe_rollout : ℕ → SweRun F P Rng → Bool × SweRun F P Rng
  unfolding get_groups generate_async watched info_of sample_row
  swe_rollout rid t =
      let t' : SweRun F P Rng = record t { monitor = watched (env.rounds rid) t.monitor } in
      elim (get_groups fl env.shuffle args.rollout_batch_size t.source) [
        | none ↦ (false, t')
        | some (fresh, source) ↦
            elim (generate_async fl true false none (env.ends rid) (env.left rid) rid fresh
              (env.wall_s rid) t.buffer t.counters) [
                | none ↦ (false, t')
                | some (batch, buffer, counters) ↦ (
                  true,
                  record {
                    source = source;
                    buffer = buffer;
                    counters = counters;
                    history = t.history ++ (info_of batch ∷ []);
                    sample_rows = t.sample_rows ++ map (sample_row rid) batch.samples;
                    monitor = t'.monitor;
                  },
                )
              ]
      ]

  unfoldable pub swe_loop : ℕ → ℕ → SweRun F P Rng → Bool × SweRun F P Rng
  unfolding swe_rollout
  swe_loop zero rid t = (true, t)
  swe_loop (suc left) rid t =
      let (returned, t') = swe_rollout rid t in
      elim returned [ false ↦ (false, t') | true ↦ swe_loop left (rid + 1) t' ]

  unfoldable pub begin_run : RolloutDataSource F P Rng → SweRun F P Rng
  begin_run source = record {
    source = source;
    buffer = [];
    counters = record { zero_var_groups = 0; aborted = 0; requeued = 0 };
    history = [];
    sample_rows = [];
    monitor = happen start_call new_monitor;
  }

  -- The loop with its `finally`: the summary, or none where a rollout raised, and the monitor.
  unfoldable pub swe_run :
      List (Task F P) → RolloutDataSource F P Rng → Option (SweSummary F P) × DualMonitor F
  unfolding swe_loop begin_run report happen
  swe_run tasks source =
      let (returned, t) = swe_loop args.num_rollout 0 (begin_run source) in
      let m : DualMonitor F = happen stop_call t.monitor in
      elim returned [
        | false ↦ (none, m)
        | true ↦ (
          some (record {
            instances = map (λ (task : Task F P). task.task_id) tasks;
            n_samples_per_prompt = args.n_samples_per_prompt;
            num_rollout = args.num_rollout;
            history = t.history;
            sample_rows = t.sample_rows;
            dual_monitor = report fl m;
          }),
          m,
        )
      ]

abbrev pub or_raise : {E A : Type 0} → (E → SetupError) → Result E A → Result SetupError A
or_raise f (ok a) = ok a
or_raise f (err e) = err (f e)

-- `main` over the lines of the instance file.
unfoldable pub swe_main :
    (fl : Float) {Rng : Type 0}
    → SweOutside fl.F SwePayload Rng
    → SweArgs
    → List (Option (Result Failure SweInstance))
    → Result SetupError (Option (SweSummary fl.F SwePayload) × DualMonitor fl.F)
unfolding load_tasks init swe_run
swe_main fl env args lines = do
  tasks ← or_raise not_loaded (load_tasks args.repo args.limit "B" args.max_turns "train" lines)
  source ← or_raise no_source (init tasks args.n_samples_per_prompt env.rng "train")
  ok (swe_run fl env args tasks source)
