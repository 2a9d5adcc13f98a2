-- ===== src/Monitor/Tests.antt =====
-- monitor.py at four values.
use llm_rl_cpu_poc.Common.{refl, [], ◌∷◌, All, arith}
use llm_rl_cpu_poc.Common.Samples.{scaled}
use llm_rl_cpu_poc.Monitor.{percentiles}
use llm_rl_cpu_poc.Monitor.Ranks.{IsRanked, percentiles-IsRanked}

percentiles-IsRanked_example :
    All
      (IsRanked (3 ∷ 5 ∷ 8 ∷ 9 ∷ []))
      (percentiles scaled (λ xs. xs) (3 ∷ 5 ∷ 8 ∷ 9 ∷ []) (50 ∷ 99 ∷ []))
percentiles-IsRanked_example =
    percentiles-IsRanked scaled (λ xs. xs) 3 (5 ∷ 8 ∷ 9 ∷ []) (50 ∷ 99 ∷ []) refl
      (omega arith, (omega arith, tt))
