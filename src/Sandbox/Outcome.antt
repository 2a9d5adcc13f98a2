-- ===== src/Sandbox/Outcome.antt =====
-- sandbox.py: what the runner reports reaches the sample.
use llm_rl_cpu_poc.Common.{
  ℕ, ◌≤◌, ◌≡◌, refl, sym, ap, ◌∙◌, subst, String, Bool, true, false, Option, none, some, List, [],
  ◌∷◌, ◌++◌, length, nat_beq, All, All-append, arith, text_key, number_key, if◌then◌else◌,
}
use llm_rl_cpu_poc.Common.Dict.{Dict}
use llm_rl_cpu_poc.Types.{Sample, Value, completed, sandbox_error, sandbox_oom}
use llm_rl_cpu_poc.Sandbox.Task.{
  Import, imported, out_of_memory, raised, Payload, count_passes, run_tests, runner, marker, behind,
  first_marked, parse_result_line, Completed, is_limit_kill, take_payload, map_result,
}
use mathlib.Core.List.{reverse, reverse-append, reverse-cons, append_assoc}

-- The line carries no result.
abbrev pub IsUnmarked : List ℕ → Type 0
IsUnmarked line = behind marker line ≡ none

All-reverse : (lines : List (List ℕ)) → All IsUnmarked lines → All IsUnmarked (reverse lines)
All-reverse [] h = tt
All-reverse (l ∷ lines) h =
    subst (All IsUnmarked) (sym (reverse-append (l ∷ []) lines))
      (All-append IsUnmarked (reverse lines) (l ∷ []) (All-reverse lines h.1) (h.0, tt))

first_marked-append :
    {A : Type 0} (loads : List ℕ → Option A) (lines rest : List (List ℕ))
    → All IsUnmarked lines
    → first_marked loads (lines ++ rest) ≡ first_marked loads rest
unfolding first_marked
first_marked-append loads [] rest h = refl
first_marked-append loads (l ∷ lines) rest h =
    ground (arith, h.0, first_marked-append loads lines rest h.1)

-- The last marked line decides, whoever printed it.
parse_result_line-last :
    {A : Type 0} (loads : List ℕ → Option A) (before after : List (List ℕ)) (text : List ℕ)
    → All IsUnmarked after
    → parse_result_line loads (before ++ ((marker ++ text) ∷ after)) ≡ loads text
unfolding parse_result_line first_marked
parse_result_line-last loads before after text h =
    ap (first_marked loads) (
      reverse-append before ((marker ++ text) ∷ after)
      ∙ ap (λ l. l ++ reverse before) (reverse-cons (marker ++ text) after)
      ∙ append_assoc (reverse after) ((marker ++ text) ∷ []) (reverse before))
    ∙ first_marked-append loads (reverse after) ((marker ++ text) ∷ reverse before)
        (All-reverse after h)

count_passes-le : (tests : List Bool) → count_passes tests ≤ length tests
unfolding count_passes
count_passes-le [] = omega arith
count_passes-le (t ∷ ts) = ground (arith, count_passes-le ts)

module _ {F P : Type 0} where
  -- What a sample says of a run of these tests: it is completed only where the solution could be
  -- imported, with the number of tests that ran through; no other run counts a test as passed.
  abbrev pub Reports : Import → List Bool → Sample F P → Type 0
  Reports imported tests s =
      (s.status ≡ completed)
      × (s.tests_passed ≡ count_passes tests)
      × (s.tests_total ≡ length tests)
      × (s.tests_passed ≤ s.tests_total)
  Reports out_of_memory tests s =
      (s.status ≡ sandbox_oom) × (s.tests_passed ≡ 0) × (s.tests_total ≡ length tests)
  Reports raised tests s =
      (s.status ≡ sandbox_error) × (s.tests_passed ≡ 0) × (s.tests_total ≡ length tests)

  take_payload-runner :
      (loads : List ℕ → Option (Payload F P)) (cpu_detail : String) (imp : Import)
      (tests : List Bool) (fields : Dict String (Value F P)) (s : Sample F P)
      → Reports imp tests (take_payload loads cpu_detail (runner imp tests fields) s)
  unfolding take_payload runner run_tests
  take_payload-runner loads cpu_detail imported tests fields s =
      (told (nat_beq (count_passes tests) (length tests)), refl, refl, count_passes-le tests)
    where
      told :
          (b : Bool)
          → (take_payload loads cpu_detail
              (record (runner imported tests fields) {
                status = some (if b then "passed" else "failed");
              })
              s).status
            ≡ completed
      told true = refl
      told false = refl
  take_payload-runner loads cpu_detail out_of_memory tests fields s = (refl, refl, refl)
  take_payload-runner loads cpu_detail raised tests fields s = (refl, refl, refl)

  -- Whatever the solution prints before, the result that the runner prints as the last marked line of
  -- a process that no limit killed is what the sample reports, if reading back the printed JSON gives
  -- the same object.
  pub map_result-Reports :
      (loads : List ℕ → Option (Payload F P)) (cpu_detail : String) (imp : Import)
      (tests : List Bool) (fields : Dict String (Value F P)) (proc : Completed)
      (before after : List (List ℕ)) (text : List ℕ) (s : Sample F P)
      → is_limit_kill proc.returncode ≡ false
      → proc.lines ≡ before ++ ((marker ++ text) ∷ after)
      → All IsUnmarked after
      → loads text ≡ some (runner imp tests fields)
      → Reports imp tests (map_result loads cpu_detail proc s)
  unfolding map_result
  map_result-Reports loads cpu_detail imp tests fields proc before after text s alive printed quiet
        read =
      let found : parse_result_line loads proc.lines ≡ some (runner imp tests fields) =
        ap (parse_result_line loads) printed
        ∙ parse_result_line-last loads before after text quiet
        ∙ read in
      subst (Reports imp tests) (sym (ground (arith, alive, found)))
        (take_payload-runner loads cpu_detail imp tests fields s)
