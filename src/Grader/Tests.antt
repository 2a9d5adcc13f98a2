-- ===== src/Grader/Tests.antt =====
-- grader.py at an instance whose tests pass.
use llm_rl_cpu_poc.Common.{ℕ, ◌≡◌, refl, false, some, [], ◌∷◌}
use llm_rl_cpu_poc.Common.Int.{pos, int_key}
use llm_rl_cpu_poc.Common.Samples.{scaled}
use llm_rl_cpu_poc.AgentRunner.{submitted}
use llm_rl_cpu_poc.AgentRunner.Run.{Meta}
use llm_rl_cpu_poc.Grader.{
  Site, Grade, passed, step, test_step, grade_body, grade, is_graded, run_trajectory,
}
use llm_rl_cpu_poc.Grader.Score.{Grades, grade-Grades}

abbrev site : Site
site = record {
  create = some "sb-2";
  exec = λ c. some (record { rc = pos 0; stdout = []; stderr = []; wall_s = 2 });
  is_blank = false;
  nodes = "test_one" ∷ [];
}

abbrev meta : Meta
meta = record {
  status = submitted;
  turns = 0;
  gen_lat_total_s = 0;
  exec_wall_total_s = 0;
  turn_stats = [];
  patch = 5 ∷ [];
}

abbrev full : Grade ℕ
full = record { reward = 1; rc = some (pos 0); n_nodes = 1; detail = passed }

grade-Grades_example : Grades scaled site (some "sb-2") (grade scaled site)
grade-Grades_example = grade-Grades scaled site

graded : (run_trajectory scaled (some meta) (λ patch. site)).0 ≡ some (meta, 1, full)
unfolding step test_step grade_body grade is_graded run_trajectory
graded = refl
