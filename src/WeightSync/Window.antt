-- ===== src/WeightSync/Window.antt =====
-- weight_sync.py: how a weight update ends, and what it does to the gate of the engine.
use llm_rl_cpu_poc.Common.{ℕ, ◌≡◌, [], ◌∷◌, ◌++◌, false, true}
use llm_rl_cpu_poc.Common.Float.{Float}
use llm_rl_cpu_poc.Common.Result.{Result, ok, err}
use llm_rl_cpu_poc.Engine.{is_open}
use llm_rl_cpu_poc.WeightSync.{Reload, hook_raised, SyncRecord, WeightUpdater}

module _ (fl : Float) {X : Type 0} where
  -- What an update leaves: a hook that does not raise lets generations in again under the new
  -- version, with one more record of the history; one that raises leaves the engine shut for every
  -- generation, under the old version, and records nothing. Those in flight are not waited for.
  abbrev pub Ends :
      Reload X → ℕ → WeightUpdater fl.F → Result X (SyncRecord fl.F) × WeightUpdater fl.F → Type 0
  Ends (hook_raised x) version u (out, u') =
      (out ≡ err x)
      × (is_open u'.engine ≡ false)
      × (u'.engine.weight_version ≡ u.engine.weight_version)
      × (u'.engine.inflight ≡ u.engine.inflight)
      × (u'.history ≡ u.history)
  Ends _ version u (out, u') =
      (is_open u'.engine ≡ true)
      × (u'.engine
          ≡ record { weight_version = version; paused = false; inflight = u.engine.inflight })
      × ((rec : SyncRecord fl.F) × (out ≡ ok rec)
          × (rec.version ≡ version)
          × (u'.history ≡ u.history ++ (rec ∷ [])))
