-- ===== src/Monitor.antt =====
-- rl_sim/monitor.py: the accumulated times of the stages, and nearest-rank percentiles. Sorting is
-- Python's, a parameter.
pub mod Ranks
mod Tests
use llm_rl_cpu_poc.Common.{
  ℕ, zero, suc, ◌+◌, ◌-◌, ◌*◌, ◌/◌, min, max, String, Option, none, some, List, [], ◌∷◌, length,
  map, ◌==◌, text_key, number_key,
}
use llm_rl_cpu_poc.Common.Dict.{Dict, lookup, insert}
use llm_rl_cpu_poc.Common.Float.{Float}
use mathlib.Core.Option

pub record StageTimer (F : Type 0) : Type 0 where
  pub wall : Dict String F
  pub cpu : Dict String F

module _ (fl : Float) where
  open fl use {F}

  abbrev pub new_timer : StageTimer F
  new_timer = record { wall = []; cpu = [] }

  -- `d[name] = d.get(name, 0.0) + s`.
  unfoldable pub add_time : String → F → Dict String F → Dict String F
  unfolding lookup insert
  add_time name s d = insert name (fl.add (Option.get_or (lookup name d) fl.zero) s) d

  unfoldable pub record_stage : String → F → F → StageTimer F → StageTimer F
  unfolding add_time
  record_stage name wall_s cpu_s t = record {
    wall = add_time name wall_s t.wall;
    cpu = add_time name cpu_s t.cpu;
  }

  unfoldable pub snapshot : StageTimer F → Dict String (F × F)
  unfolding lookup
  snapshot t =
      map (λ (e : String × F). (e.0, (e.1, Option.get_or (lookup e.0 t.cpu) fl.zero))) t.wall

-- `min(max(1, ceil(p * n / 100)), n) - 1`, for `n` above zero.
unfoldable pub place : ℕ → ℕ → ℕ
place p n = min (max 1 ((p * n + 99) / 100)) n - 1

-- `xs[i]`; none is an IndexError.
unfoldable pub get_elem? {ℓ} : {A : Type ℓ} → List A → ℕ → Option A
get_elem? [] i = none
get_elem? (x ∷ xs) zero = some x
get_elem? (x ∷ xs) (suc i) = get_elem? xs i

unfoldable pub percentiles :
    (fl : Float) → (List fl.F → List fl.F) → List fl.F → List ℕ → List (ℕ × Option fl.F)
unfolding place get_elem?
percentiles fl sorted values ps = elim values [
  | [] ↦ map (λ (p : ℕ). (p, some fl.zero)) ps
  | x ∷ xs ↦
      let ordered = sorted (x ∷ xs) in
      map (λ (p : ℕ). (p, get_elem? ordered (place p (length ordered)))) ps
]
