-- ===== src/DataSource/Tests.antt =====
-- data_source.py at concrete tasks; `shuffle` is list reversal.
use llm_rl_cpu_poc.Common.{
  ℕ, String, ◌≡◌, refl, none, some, List, [], ◌∷◌, keep, length, All, ◌==◌, text_key, arith, ◌≢◌,
  ◌+◌,
}
use llm_rl_cpu_poc.Common.Result.{ok}
use llm_rl_cpu_poc.DataSource.{Task, RolloutDataSource, init, get_groups}
use llm_rl_cpu_poc.DataSource.Tables.{a_task, all_tasks}
use llm_rl_cpu_poc.DataSource.Ready.{IsReady, get_groups-init}
use llm_rl_cpu_poc.DataSource.Epochs.{groups_of, Drawn, IsValid, epoch_covers}
use llm_rl_cpu_poc.Common.Samples.{scaled}
use mathlib.Core.List.{Perm, reverse, reverse_perm, nil-subset}

abbrev task : String → Task ℕ ℕ
task name = record {
  task_id = name;
  line = "A";
  prompt = "p";
  reward_spec = [];
  tier = "A";
  tests = [];
  answer = none;
  entry = "";
  repo = [];
  test_cmd = "";
  corpus = [];
  max_turns = 1;
  solution = "";
  image_path = none;
  split = "train";
  swe = none;
}

abbrev reversal : ℕ → List (Task ℕ ℕ) → List (Task ℕ ℕ) × ℕ
reversal r xs = (reverse xs, r + 1)

abbrev source : RolloutDataSource ℕ ℕ ℕ
source = record {
  tasks = task "a" ∷ task "b" ∷ task "c" ∷ [];
  n = 2;
  rng = 0;
  epoch = [];
  group_counter = 5;
}

init-source :
    init (task "a" ∷ record (task "x") { split = "eval" } ∷ task "b" ∷ task "c" ∷ []) 2 0 "train"
    ≡ ok (record source { group_counter = 0 })
unfolding init
init-source = refl

tasks_ne : source.tasks ≢ []
tasks_ne = ground arith

source-IsValid : IsValid scaled reversal source
source-IsValid = record { some_task = tasks_ne; from_tasks = nil-subset _ }

epoch_covers_example :
    (ts : List (Task ℕ ℕ)) × (s' : RolloutDataSource ℕ ℕ ℕ) × Drawn scaled reversal source 3 ts s'
    × Perm ts source.tasks
    × (s'.epoch ≡ [])
epoch_covers_example = epoch_covers scaled reversal (λ r xs. reverse_perm xs) source refl tasks_ne

-- The training tasks of the table, two samples for each group.
abbrev training : RolloutDataSource ℕ ℕ ℕ
training = record {
  tasks = keep (λ (t : Task ℕ ℕ). t.split == "train") all_tasks;
  n = 2;
  rng = 0;
  epoch = [];
  group_counter = 0;
}

init-training : init all_tasks 2 0 "train" ≡ ok training
unfolding init all_tasks a_task
init-training = refl

get_groups-init_example :
    (ts : List (Task ℕ ℕ)) × (s' : RolloutDataSource ℕ ℕ ℕ) × (get_groups scaled reversal 5 training
      ≡ some (groups_of scaled 2 ts 0, s'))
    × (length ts ≡ 5)
    × All (λ t. ∥ IsReady "train" t ∥₁) ts
get_groups-init_example =
    get_groups-init scaled reversal (λ r xs. reverse_perm xs) 2 0 "train" 5 training init-training
