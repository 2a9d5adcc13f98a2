-- ===== src/Reward/Rules.antt =====
-- reward.py: what a sample can score, and where an exact answer is found.
use llm_rl_cpu_poc.Common.{
  ℕ, zero, suc, ◌-◌, ◌*◌, ◌≤◌, ◌≡◌, ◌≢◌, ◌⊎◌, refl, max, true, false, List, [], ◌∷◌, ◌++◌, length,
  drop, length-append, arith, text_key, number_key,
}
use llm_rl_cpu_poc.Common.Float.{Float}
use llm_rl_cpu_poc.Common.Result.{ok}
use llm_rl_cpu_poc.Reward.{
  Matching, Scored, Spec, is_completed, is_gen_error, starts_with, occurs_in, exact_match,
  reward_from_tests, compute_reward,
}

starts_with_self : (part : List ℕ) → starts_with part part ≡ true
unfolding starts_with
starts_with_self [] = refl
starts_with_self (c ∷ part) = ground (arith, starts_with_self part)

occurs_in_end : (part before : List ℕ) → occurs_in part (before ++ part) ≡ true
unfolding occurs_in
occurs_in_end [] [] = refl
occurs_in_end (c ∷ part) [] = ground (arith, starts_with_self (c ∷ part))
occurs_in_end part (d ∷ before) = ground (arith, occurs_in_end part before)

drop-append : (n : ℕ) (xs ys : List ℕ) → n ≤ length xs → drop n (xs ++ ys) ≡ drop n xs ++ ys
drop-append zero xs ys h = refl
drop-append (suc n) [] ys h = absurd (omega (arith, h))
drop-append (suc n) (x ∷ xs) ys h = drop-append n xs ys (omega (arith, h))

module _ (fl : Float) (m : Matching fl) where
  open fl use {F}

  -- A response that ends in the answer, both normalised, always matches it, however long the two
  -- are, unless the answer is empty.
  pub exact_match_end :
      (response answer before : List ℕ)
      → m.normalize response ≡ before ++ m.normalize answer
      → length (m.normalize answer) ≢ 0
      → exact_match fl m response answer ≡ true
  unfolding exact_match
  exact_match_end response answer before ends h =
      let ans = m.normalize answer in
      let total = length-append before ans in
      let cut : length (before ++ ans) - max (length ans * 4) 64 ≤ length before =
        omega (arith, total) in
      rw ends (
        ground (
          arith,
          h,
          drop-append (length (before ++ ans) - max (length ans * 4) 64) before ans cut,
          occurs_in_end ans (drop (length (before ++ ans) - max (length ans * 4) 64) before),
        ))

  -- A reward is zero, one, or the share of passed tests of a completed sample with tests; a sample
  -- whose generation failed has no reward but zero.
  pub compute_reward_lem :
      (s : Scored) (spec : Spec F) (r : F)
      → compute_reward fl m s spec ≡ ok r
      → ((r ≡ fl.zero)
          ⊎ ((r ≡ fl.one) × (is_gen_error s.status ≡ false))
          ⊎ ((is_completed s.status ≡ true)
              × (s.tests_total ≢ 0)
              × (r ≡ fl.div (fl.of_nat s.tests_passed) (fl.of_nat s.tests_total))))
  unfolding compute_reward reward_from_tests
  compute_reward_lem s spec r h = ground (arith, h)
