-- ===== src/Reward.antt =====
-- rl_sim/reward.py: the rule-based rewards. Regular expressions, `float` and the normalisation of
-- whitespace and case are the parameter `Matching`; texts are lists of code points.
pub mod Rules
mod Tests
use llm_rl_cpu_poc.Common.{
  ℕ, zero, suc, ◌+◌, ◌-◌, ◌*◌, max, String, Bool, true, false, not, ◌&&◌, ◌||◌, Option, none, some,
  List, [], ◌∷◌, length, drop, ◌==◌, text_key, number_key, if◌then◌else◌,
}
use llm_rl_cpu_poc.Common.Float.{Float}
use llm_rl_cpu_poc.Common.Result.{Result, ok, err}
use llm_rl_cpu_poc.Types.{
  SampleStatus, pending, completed, truncated, aborted, gen_error, sandbox_error, sandbox_timeout,
  sandbox_oom,
}

-- `boxed` and `numbers` are the matches of `_BOXED` and `_NUMBER`, `to_float` is `_to_float`,
-- `normalize` is `normalize_text`.
pub record Matching (fl : Float) : Type 0 where
  pub boxed : List ℕ → List (List ℕ)
  pub numbers : List ℕ → List (List ℕ)
  pub to_float : List ℕ → Option fl.F
  pub normalize : List ℕ → List ℕ
  pub abs : fl.F → fl.F
  pub rel_tol : fl.F

-- The fields of a sample that a rule reads.
pub record Scored : Type 0 where
  pub status : SampleStatus
  pub tests_passed : ℕ
  pub tests_total : ℕ
  pub response : List ℕ

-- `spec`: its type, `tests` where the key is missing, and its answer as a number and as a text, none
-- where `float` or `str` of it raises.
pub record Spec (F : Type 0) : Type 0 where
  pub kind : Option String
  pub number : Option F
  pub text : Option (List ℕ)

pub data Failure : Type 0 where
  no_answer : Failure
  unknown_type : String → Failure

abbrev pub is_completed : SampleStatus → Bool
is_completed completed = true
is_completed _ = false

abbrev pub is_gen_error : SampleStatus → Bool
is_gen_error gen_error = true
is_gen_error _ = false

-- `xs[-1]`, none for an empty list.
unfoldable pub last_of {ℓ} : {A : Type ℓ} → List A → Option A
last_of [] = none
last_of (x ∷ xs) = elim (last_of xs) [ none ↦ some x | some y ↦ some y ]

-- `part in text`.
unfoldable pub starts_with : List ℕ → List ℕ → Bool
starts_with [] text = true
starts_with (c ∷ part) [] = false
starts_with (c ∷ part) (d ∷ text) = c == d && starts_with part text

unfoldable pub occurs_in : List ℕ → List ℕ → Bool
unfolding starts_with
occurs_in part [] = starts_with part []
occurs_in part (c ∷ text) = starts_with part (c ∷ text) || occurs_in part text

module _ (fl : Float) where
  open fl use {F}

  unfoldable pub reward_from_tests : Scored → F
  reward_from_tests s =
      if not (is_completed s.status) || s.tests_total == 0
      then fl.zero
      else fl.div (fl.of_nat s.tests_passed) (fl.of_nat s.tests_total)

  module _ (m : Matching fl) where
    unfoldable pub extract_number : List ℕ → Option F
    unfolding last_of
    extract_number text = elim (last_of (m.boxed text)) [
      | some b ↦ m.to_float b
      | none ↦ elim (last_of (m.numbers text)) [ none ↦ none | some n ↦ m.to_float n ]
    ]

    unfoldable pub numeric_match : List ℕ → F → Bool
    unfolding extract_number
    numeric_match response answer = elim (extract_number response) [
      | none ↦ false
      | some got ↦
          if fl.eq answer fl.zero
          then fl.le (m.abs got) m.rel_tol
          else fl.le (fl.div (m.abs (fl.sub got answer)) (m.abs answer)) m.rel_tol
    ]

    unfoldable pub exact_match : List ℕ → List ℕ → Bool
    unfolding occurs_in
    exact_match response answer =
        let resp = m.normalize response in
        let ans = m.normalize answer in
        if length ans == 0
        then false
        else occurs_in ans (drop (length resp - max (length ans * 4) 64) resp)

    unfoldable pub compute_reward : Scored → Spec F → Result Failure F
    unfolding reward_from_tests numeric_match exact_match
    compute_reward s spec =
        let kind : String = elim spec.kind [ none ↦ "tests" | some k ↦ k ] in
        if kind == "tests"
        then ok (reward_from_tests s)
        else if is_gen_error s.status
        then ok fl.zero
        else if kind == "numeric"
        then elim spec.number [
          | none ↦ err no_answer
          | some a ↦ ok (if numeric_match s.response a then fl.one else fl.zero)
        ]
        else if kind == "exact"
        then elim spec.text [
          | none ↦ err no_answer
          | some a ↦ ok (if exact_match s.response a then fl.one else fl.zero)
        ]
        else err (unknown_type kind)
