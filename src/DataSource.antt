-- ===== src/DataSource.antt =====
-- rl_sim/data_source.py: the task schema and the epoch-based group sampler. Python's random
-- generator is the parameter `shuffle`, over a type of generator states.
pub mod Epochs
pub mod Tables
pub mod Ready
mod Tests
use llm_rl_cpu_poc.Common.{
  ℕ, zero, suc, ◌+◌, ltb, String, Bool, true, false, Option, none, some, List, [], ◌∷◌, ◌++◌, keep,
  replicate, ◌==◌, text_key, if◌then◌else◌,
}
use llm_rl_cpu_poc.Common.Dict.{Dict, insert}
use llm_rl_cpu_poc.Common.Int.{ℤ, pos}
use llm_rl_cpu_poc.Common.Float.{Float}
use llm_rl_cpu_poc.Common.Result.{Result, ok, err}
use llm_rl_cpu_poc.Types.{Sample, Value, str, int, payload, new_sample}

-- `swe` is `none` for the empty dict, which the code tests by its truth value.
pub record Task (F P : Type 0) : Type 0 where
  pub task_id : String
  pub line : String
  pub prompt : String
  pub reward_spec : Dict String (Value F P)
  pub tier : String
  pub tests : List String
  pub answer : Option (Value F P)
  pub entry : String
  pub repo : Dict String String
  pub test_cmd : String
  pub corpus : Dict String String
  pub max_turns : ℕ
  pub solution : String
  pub image_path : Option String
  pub split : String
  pub swe : Option P

-- ValueError of the constructor, by its message.
pub data Refusal : Type 0 where
  no_tasks : String → Refusal
  bad_group_size : Refusal

-- `list.pop()`: the last element, and the rest.
unfoldable pub pop {ℓ} : {A : Type ℓ} → List A → Option (List A × A)
pop [] = none
pop (x ∷ xs) = elim (pop xs) [ none ↦ some ([], x) | some (ys, y) ↦ some (x ∷ ys, y) ]

-- The first task of the list (`ALL_TASKS` in the program) with that id; none is a KeyError.
unfoldable pub task_by_id : {F P : Type 0} → List (Task F P) → String → Option (Task F P)
task_by_id [] task_id = none
task_by_id (t ∷ ts) task_id = if t.task_id == task_id then some t else task_by_id ts task_id

unfoldable pub get_eval_tasks : {F P : Type 0} → List (Task F P) → List (Task F P)
get_eval_tasks all_tasks = keep (λ t. t.split == "eval") all_tasks

pub record RolloutDataSource (F P Rng : Type 0) : Type 0 where
  pub tasks : List (Task F P)
  pub n : ℕ
  pub rng : Rng
  pub epoch : List (Task F P)
  pub group_counter : ℕ

module _ {F P Rng : Type 0} where
  unfoldable pub init :
      List (Task F P) → ℕ → Rng → String → Result Refusal (RolloutDataSource F P Rng)
  init tasks n rng split = elim (keep (λ (t : Task F P). t.split == split) tasks) [
    | [] ↦ err (no_tasks split)
    | t ∷ ts ↦
        if ltb n 1
        then err bad_group_size
        else ok (record { tasks = t ∷ ts; n = n; rng = rng; epoch = []; group_counter = 0 })
  ]

  module _ (shuffle : Rng → List (Task F P) → List (Task F P) × Rng) where
    -- The refill of an empty epoch.
    unfoldable pub refill : RolloutDataSource F P Rng → RolloutDataSource F P Rng
    refill s = elim s.epoch [
      | [] ↦ let (shuffled, rng) = shuffle s.rng s.tasks in record s { rng = rng; epoch = shuffled }
      | _ ↦ s
    ]

    -- None is the IndexError of `pop` on an empty list.
    unfoldable pub next_task :
        RolloutDataSource F P Rng → Option (Task F P × RolloutDataSource F P Rng)
    unfolding refill pop
    next_task s =
        let r = refill s in
        elim (pop r.epoch) [ none ↦ none | some (rest, t) ↦ some (t, record r { epoch = rest }) ]

module _ (fl : Float) {P : Type 0} where
  open fl use {F}

  -- One sample of a group: the fields that `get_groups` sets, the others at their defaults.
  unfoldable pub group_sample : Task F P → ℕ → Sample F P
  unfolding new_sample insert
  group_sample t gid =
      let base = insert "max_turns" (int (pos t.max_turns)) (insert "tier" (str t.tier) []) in
      record (new_sample fl t.prompt t.task_id t.line t.image_path) {
        group_id = pos gid;
        metadata = elim t.swe [ none ↦ base | some swe ↦ insert "swe" (payload swe) base ];
      }

  module _ {Rng : Type 0} (shuffle : Rng → List (Task F P) → List (Task F P) × Rng) where
    unfoldable pub get_groups :
        ℕ
        → RolloutDataSource F P Rng
        → Option (List (List (Sample F P)) × RolloutDataSource F P Rng)
    unfolding next_task group_sample
    get_groups zero s = some ([], s)
    get_groups (suc batch) s = elim (next_task shuffle s) [
      | none ↦ none
      | some (task, s₁) ↦
          let group = replicate s₁.n (group_sample task s₁.group_counter) in
          elim (get_groups batch (record s₁ { group_counter = s₁.group_counter + 1 })) [
            | none ↦ none
            | some (groups, s₂) ↦ some (group ∷ groups, s₂)
          ]
    ]
