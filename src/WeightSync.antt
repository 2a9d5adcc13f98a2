-- ===== src/WeightSync.antt =====
-- rl_sim/weight_sync.py: WeightUpdater.update_weights over the state of an engine.
pub mod Window
pub mod Gate
mod Tests
use llm_rl_cpu_poc.Common.{
  ℕ, Option, none, some, List, [], ◌∷◌, ◌++◌, Bool, true, false, if◌then◌else◌,
}
use llm_rl_cpu_poc.Common.Float.{Float}
use llm_rl_cpu_poc.Common.Result.{Result, ok, err}
use llm_rl_cpu_poc.Monitor.{StageTimer, record_stage}
use mathlib.Core.Option
use llm_rl_cpu_poc.Engine.{Engine, pause_generation, continue_generation, set_version}

pub record SyncRecord (F : Type 0) : Type 0 where
  pub version : ℕ
  pub sim_transfer_s : F
  pub pause_window_s : F
  pub reload_s : F

pub record WeightUpdater (F : Type 0) : Type 0 where
  pub engine : Engine
  pub monitor : Option (StageTimer F)
  pub sim_param_gb : F
  pub sim_bandwidth_gbps : F
  pub history : List (SyncRecord F)

-- `reload_hook`: none, or how its call ends.
pub data Reload (X : Type 0) : Type 0 where
  no_hook : Reload X
  reloaded : Reload X
  hook_raised : X → Reload X

-- The clock around the window and around the reload.
pub record Readings (F : Type 0) : Type 0 where
  pub window : F
  pub reload : F

module _ (fl : Float) {X : Type 0} where
  open fl use {F}

  -- The updater is returned next to the record, or to the exception of the hook, at which the method
  -- stops.
  unfoldable pub update_weights :
      Reload X → Readings F → ℕ → WeightUpdater F → Result X (SyncRecord F) × WeightUpdater F
  unfolding record_stage pause_generation continue_generation set_version
  update_weights reload k new_version u =
      let shut : Engine = pause_generation u.engine in
      let resumed : Engine = continue_generation (set_version new_version shut) in
      let rec : F → SyncRecord F = λ reload_s. record {
        version = new_version;
        sim_transfer_s = fl.div u.sim_param_gb u.sim_bandwidth_gbps;
        pause_window_s = k.window;
        reload_s = reload_s;
      } in
      let done : F → Result X (SyncRecord F) × WeightUpdater F = λ reload_s. (
        ok (rec reload_s),
        record u {
          engine = resumed;
          history = u.history ++ (rec reload_s ∷ []);
          monitor = Option.map (record_stage fl "weight_sync" k.window k.window) u.monitor;
        },
      ) in
      elim reload [
        | no_hook ↦ done fl.zero
        | reloaded ↦ done k.reload
        | hook_raised x ↦ (err x, record u { engine = shut })
      ]
