-- ===== src/Train.antt =====
-- train.py: the synchronous driver, from its local engines to the loop of main. What the rollout
-- manager answers, and the evaluation, are parameters.
pub mod Loop
mod Tests
use llm_rl_cpu_poc.Common.{
  ℕ, zero, suc, ◌+◌, ◌-◌, ◌*◌, ◌%◌, String, Bool, true, false, ◌||◌, Option, none, some, List, [],
  ◌∷◌, ◌++◌, if◌then◌else◌, ◌==◌, number_key,
}
use llm_rl_cpu_poc.Common.Float.{Float}
use llm_rl_cpu_poc.Common.Int.{ℤ}
use llm_rl_cpu_poc.Common.Result.{Result, ok, err}
use llm_rl_cpu_poc.Types.{Sample}
use llm_rl_cpu_poc.Trainer.{Settings, Metrics, Tally, async_train}
use llm_rl_cpu_poc.Monitor.{new_timer}
use llm_rl_cpu_poc.WeightSync.{WeightUpdater, Readings, no_hook, update_weights}
use llm_rl_cpu_poc.Engine.Local.Servers.{InstanceSpec}
use Prim.Native.String.{◌++◌ as str_append}
use mathlib.Core.Option

-- The arguments of the local engine.
pub record LocalArgs : Type 0 where
  pub base_port : ℕ
  pub cores_base : ℕ
  pub cores_per_engine : ℕ
  pub engine_slots : ℕ
  pub engine_instances : ℕ
  pub model : String

-- The first and the last core of an instance.
unfoldable pub core_range : LocalArgs → ℕ → ℕ × ℕ
core_range args i = (
  args.cores_base + i * args.cores_per_engine,
  args.cores_base + (i + 1) * args.cores_per_engine - 1,
)

module _ (text_of : ℕ → String) where
  unfoldable pub spec_at : LocalArgs → ℕ → InstanceSpec
  unfolding core_range
  spec_at args i =
      let (low, high) = core_range args i in
      record {
        name = str_append "e" (text_of i);
        port = args.base_port + i;
        cores = str_append (text_of low) (str_append "-" (text_of high));
        slots = args.engine_slots;
        model = args.model;
        mmproj = "";
        extra = [];
      }

  unfoldable pub specs_from : LocalArgs → ℕ → ℕ → List InstanceSpec
  unfolding spec_at
  specs_from args zero i = []
  specs_from args (suc left) i = spec_at args i ∷ specs_from args left (i + 1)

  unfoldable pub specs_of : LocalArgs → List InstanceSpec
  unfolding specs_from
  specs_of args = specs_from args args.engine_instances 0

pub record LoopArgs : Type 0 where
  pub num_rollout : ℕ
  pub save_interval : ℕ
  pub eval_interval : ℕ

-- `(rid + 1) % interval == 0 or rid == args.num_rollout - 1`; none is a ZeroDivisionError.
unfoldable pub is_due : ℕ → ℕ → ℕ → Option Bool
is_due zero num_rollout rid = none
is_due (suc k) num_rollout rid = some ((rid + 1) % suc k == 0 || rid == num_rollout - 1)

-- The state of the loop: the trainer's version and generator, the updater with the engine, the
-- checkpoints as the version in their name and the rollout, and the metrics with the evaluation.
pub record Training (F E Rng : Type 0) : Type 0 where
  pub weight_version : ℕ
  pub rng : Rng
  pub updater : WeightUpdater F
  pub checkpoints : List (ℕ × ℕ)
  pub history : List (Metrics F × Option E)

-- What the surroundings give: the samples of a rollout under the engine's version, the result of an
-- evaluation under it, and the clock of each weight update.
pub record Surroundings (F P E : Type 0) : Type 0 where
  pub generate : ℕ → ℕ → List (Sample F P)
  pub eval : ℕ → E
  pub readings : ℕ → Readings F

module _ (fl : Float) {P E Rng : Type 0} (v : Settings fl P Rng) (env : Surroundings fl.F P E)
    (args : LoopArgs) where
  open fl use {F}

  -- The weights of the next rollout; the stage timer is the monitor's, which a rollout ends by reset.
  abbrev pub sync : ℕ → ℕ → WeightUpdater F → WeightUpdater F
  sync rid version u = (update_weights fl {X = Unit} no_hook (env.readings rid) version u).1

  -- A rollout whose checkpoint and evaluation are due or not.
  unfoldable pub train_due : Bool → Bool → ℕ → Training F E Rng → Training F E Rng
  unfolding async_train update_weights
  train_due saves evals rid t =
      let samples = env.generate rid t.updater.engine.weight_version in
      let (metrics, version, tally) = async_train fl v rid samples t.weight_version t.rng in
      let updater : WeightUpdater F = sync rid version t.updater in
      let ev : Option E = if evals then some (env.eval updater.engine.weight_version) else none in
      record {
        weight_version = version;
        rng = tally.rng;
        updater = record updater { monitor = Option.map (λ m. new_timer fl) updater.monitor };
        checkpoints = if saves then t.checkpoints ++ ((version, rid) ∷ []) else t.checkpoints;
        history = t.history ++ ((metrics, ev) ∷ []);
      }

  unfoldable pub train_step : ℕ → Training F E Rng → Option (Training F E Rng)
  unfolding train_due is_due
  train_step rid t = elim (is_due args.save_interval args.num_rollout rid) [
    | none ↦ none
    | some saves ↦ elim (is_due args.eval_interval args.num_rollout rid) [
      | none ↦ none
      | some evals ↦ some (train_due saves evals rid t)
    ]
  ]

  -- `for rid in range(...)`, with `left` rollouts to go; none where one raises.
  unfoldable pub train_from : ℕ → ℕ → Training F E Rng → Option (Training F E Rng)
  unfolding train_step
  train_from zero rid t = some t
  train_from (suc left) rid t = elim (train_step rid t) [
    | none ↦ none
    | some t' ↦ train_from left (rid + 1) t'
  ]

  unfoldable pub train_loop : Training F E Rng → Option (Training F E Rng)
  unfolding train_from
  train_loop t = train_from args.num_rollout 0 t
