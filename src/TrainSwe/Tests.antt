-- ===== src/TrainSwe/Tests.antt =====
-- train_swe.py over two tasks; `shuffle` is list reversal, and every group ends as it began.
use llm_rl_cpu_poc.Common.{
  ℕ, ◌+◌, String, ◌≡◌, refl, true, Option, none, some, List, [], ◌∷◌, map, length,
}
use llm_rl_cpu_poc.Common.Result.{ok, err}
use llm_rl_cpu_poc.Common.Samples.{scaled}
use llm_rl_cpu_poc.Types.{Sample}
use llm_rl_cpu_poc.DataSource.{Task, RolloutDataSource, init}
use llm_rl_cpu_poc.Rollout.Batch.{all_done}
use llm_rl_cpu_poc.Swebench.{SwePayload, no_instances, load_instances, load_lines}
use llm_rl_cpu_poc.TrainSwe.{SweArgs, SweOutside, SweSummary, swe_run, swe_main, not_loaded}
use llm_rl_cpu_poc.TrainSwe.Rows.{Tells, swe_run-Tells}
use mathlib.Core.List.{reverse, reverse_perm}

abbrev task : String → Task ℕ SwePayload
task name = record {
  task_id = name;
  line = "SWE";
  prompt = "p";
  reward_spec = [];
  tier = "B";
  tests = [];
  answer = none;
  entry = "";
  repo = [];
  test_cmd = "";
  corpus = [];
  max_turns = 40;
  solution = "";
  image_path = none;
  split = "train";
  swe = none;
}

abbrev tasks : List (Task ℕ SwePayload)
tasks = task "a" ∷ task "b" ∷ []

abbrev args : SweArgs
args = record {
  repo = none;
  limit = none;
  n_samples_per_prompt = 2;
  num_rollout = 3;
  rollout_batch_size = 2;
  max_turns = 40;
}

abbrev Groups : Type 0
Groups = List (List (Sample ℕ SwePayload))

abbrev kept : List (Sample ℕ SwePayload) → Option (List (Sample ℕ SwePayload))
kept g = some g

abbrev env : SweOutside ℕ SwePayload ℕ
env = record {
  shuffle = λ r xs. (reverse xs, r + 1);
  rng = 0;
  ends = λ rid groups. map kept groups;
  left = λ rid g. g;
  wall_s = λ rid. rid;
  rounds = λ rid. none ∷ [];
}

kept-all_done : (groups : Groups) → all_done scaled (map kept groups) ≡ some groups
unfolding all_done
kept-all_done [] = refl
kept-all_done (g ∷ groups) = rw (kept-all_done groups) refl

abbrev source : RolloutDataSource ℕ SwePayload ℕ
source = record { tasks = tasks; n = 2; rng = 0; epoch = []; group_counter = 0 }

init-source : init tasks 2 0 "train" ≡ ok source
unfolding init
init-source = refl

swe_run-Tells_example :
    (summary : SweSummary ℕ SwePayload) × ((swe_run scaled env args tasks source).0 ≡ some summary)
    × (length summary.history ≡ 3)
    × Tells 0 summary.history summary.sample_rows
    × ((swe_run scaled env args tasks source).1.stop_set ≡ true)
swe_run-Tells_example =
    swe_run-Tells scaled env args (λ r xs. reverse_perm xs)
      (λ rid groups. (groups, kept-all_done groups)) tasks source init-source

without_lines : swe_main scaled env args (none ∷ []) ≡ err (not_loaded no_instances)
unfolding swe_main load_instances load_lines
without_lines = refl
