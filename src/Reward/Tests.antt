-- ===== src/Reward/Tests.antt =====
-- reward.py at small texts; floats are natural numbers.
use llm_rl_cpu_poc.Common.{ℕ, ◌≡◌, refl, none, []}
use llm_rl_cpu_poc.Common.Result.{ok}
use llm_rl_cpu_poc.Common.Samples.{scaled}
use llm_rl_cpu_poc.Types.{completed}
use llm_rl_cpu_poc.Reward.{Matching, Scored, Spec, reward_from_tests, compute_reward}

abbrev matching : Matching scaled
matching = record {
  boxed = λ text. [];
  numbers = λ text. [];
  to_float = λ text. none;
  normalize = λ text. text;
  abs = λ x. x;
  rel_tol = 0;
}

abbrev scored : Scored
scored = record { status = completed; tests_passed = 4; tests_total = 2; response = [] }

abbrev by_tests : Spec ℕ
by_tests = record { kind = none; number = none; text = none }

reward_two : compute_reward scaled matching scored by_tests ≡ ok 2
unfolding compute_reward reward_from_tests
reward_two = refl
