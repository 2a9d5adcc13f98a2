-- ===== src/Bake/Tests.antt =====
-- bake_swe_env.py: runs on a small dataset.
use llm_rl_cpu_poc.Common.{ℕ, ◌≡◌, refl, String, Option, none, some, List, [], ◌∷◌, arith}
use llm_rl_cpu_poc.Common.Result.{ok}
use llm_rl_cpu_poc.Bake.{Instance, select_subset, step_fetch}
use llm_rl_cpu_poc.Bake.Fetch.{serve, step_fetch-serve}

abbrev instance_of : String → String → Option (List (Option ℕ)) → Instance
instance_of id repo version = record { instance_id = some id; repo = some repo; version = version }

abbrev dataset : List Instance
dataset =
    instance_of "a" "sympy" (some (some 1 ∷ some 9 ∷ []))
    ∷ instance_of "b" "django" none
    ∷ instance_of "c" "sympy" (some (some 1 ∷ some 12 ∷ []))
    ∷ instance_of "d" "sympy" (some (some 2 ∷ none ∷ []))
    ∷ []

-- The versions from 1.11 on, compared as numbers.
recent :
    select_subset (λ xs. xs) "sympy" (some 50) (some (some 1 ∷ some 11 ∷ [])) dataset
    ≡ ok (
        instance_of "c" "sympy" (some (some 1 ∷ some 12 ∷ []))
        ∷ instance_of "d" "sympy" (some (some 2 ∷ none ∷ []))
        ∷ [])
unfolding select_subset
recent = refl

step_fetch-serve_example :
    step_fetch (λ xs. xs) (serve dataset) 1 "sympy" (some 1) none
    ≡ some (select_subset (λ xs. xs) "sympy" (some 1) none dataset)
step_fetch-serve_example = step_fetch-serve (λ xs. xs) dataset 0 "sympy" (some 1) none (omega arith)
