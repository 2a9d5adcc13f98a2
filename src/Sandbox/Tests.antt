-- ===== src/Sandbox/Tests.antt =====
-- sandbox.py at one task whose solution passes one of two tests.
use llm_rl_cpu_poc.Common.{ℕ, refl, Bool, true, false, none, some, List, [], ◌∷◌, ◌++◌}
use llm_rl_cpu_poc.Common.Int.{pos}
use llm_rl_cpu_poc.Common.Samples.{scaled}
use llm_rl_cpu_poc.Types.{Sample, new_sample}
use llm_rl_cpu_poc.Sandbox.Task.{imported, runner, marker, Completed, is_limit_kill, map_result}
use llm_rl_cpu_poc.Sandbox.Outcome.{Reports, map_result-Reports}

abbrev sample : Sample ℕ ℕ
sample = new_sample scaled {P = ℕ} "prompt" "t" "A" none

abbrev tests : List Bool
tests = true ∷ false ∷ []

-- The solution prints a line of its own before the runner's.
abbrev process : Completed
process = record {
  returncode = pos 0;
  lines = (104 ∷ 105 ∷ []) ∷ (marker ++ (7 ∷ [])) ∷ [];
  detail = "rc=0";
}

map_result-Reports_example : Reports imported tests (
    map_result (λ text. some (runner {F = ℕ} {P = ℕ} imported tests [])) "CPU limit" process sample)
unfolding is_limit_kill
map_result-Reports_example =
    map_result-Reports (λ text. some (runner imported tests [])) "CPU limit" imported tests []
      process ((104 ∷ 105 ∷ []) ∷ []) [] (7 ∷ []) sample refl refl tt refl
