-- ===== src/Grader/Score.antt =====
-- grader.py and trajectory_worker.py: when a trajectory earns its reward.
use llm_rl_cpu_poc.Common.{
  ℕ, ◌≡◌, refl, sym, ap, subst, ◌∙◌, String, Bool, true, false, ◌&&◌, ◌||◌, Option, none, some,
  List, [], ◌∷◌, ◌++◌, All, arith, Option-cases, Bool-cases, some_inj, inl, inr, if◌then◌else◌,
}
use llm_rl_cpu_poc.Common.Float.{Float}
use llm_rl_cpu_poc.Common.Int.{int_key}
use llm_rl_cpu_poc.AgentRunner.{ExecResult}
use llm_rl_cpu_poc.AgentRunner.Run.{Meta}
use llm_rl_cpu_poc.Grader.{
  Command, Detail, checkout_failed, model_patch_failed, test_patch_failed, no_nodes, checkout,
  model_patch, test_patch, run_tests, Call, create, exec, stop, Grade, Site, succeeded, result,
  step, test_step, nodes_step, grade_body, grade, is_graded, run_trajectory,
}

-- The command answered, with exit code zero.
abbrev pub works : Site → Command → Bool
works v c = elim (v.exec c) [ none ↦ false | some r ↦ succeeded r ]

abbrev has_nodes : List String → Bool
has_nodes [] = false
has_nodes (_ ∷ _) = true

-- The whole chain: the checkout, the model's patch unless it is blank, the official test patch, at
-- least one test node, and the tests.
abbrev pub resolves : Site → Bool
resolves v =
    works v checkout
    && ((v.is_blank || works v model_patch)
        && (works v test_patch && (has_nodes v.nodes && works v run_tests)))

works-some : (v : Site) (c : Command) (r : ExecResult) → v.exec c ≡ some r → works v c ≡ succeeded r
works-some v c r e = rw (e, works) refl

working :
    (v : Site) (c : Command) (r : ExecResult) (b : Bool)
    → v.exec c ≡ some r
    → succeeded r ≡ true
    → (works v c && b) ≡ b
working v c r b e q = ap (λ x. x && b) (works-some v c r e ∙ q)

not_working :
    (v : Site) (c : Command) (r : ExecResult) (b : Bool)
    → v.exec c ≡ some r
    → succeeded r ≡ false
    → (works v c && b) ≡ false
not_working v c r b e q = ap (λ x. x && b) (works-some v c r e ∙ q)

abbrev pub IsExec : Call → Type 0
IsExec c = elim c [ create ↦ ⊥ | exec _ ↦ Unit {0} | stop _ ↦ ⊥ ]

module _ (fl : Float) where
  open fl use {F}

  -- Only commands were sent; where there is no grade one of them raised, and a grade's reward is one
  -- or zero as `earned` says.
  abbrev pub Good : Site → Bool → Option (Grade F) × List Call → Type 0
  Good v earned (out, calls) = All IsExec calls × elim out [
    | none ↦ (c : Command) × (v.exec c ≡ none)
    | some g ↦ g.reward ≡ (if earned then fl.one else fl.zero)
  ]

  step-Good :
      (v : Site) (c : Command) (failed : List ℕ → Detail) (b : Bool)
      (more : Option (Grade F) × List Call)
      → Good v b more
      → Good v (works v c && b) (step fl v c failed more)
  unfolding step
  step-Good v c failed b more h = elim (Option-cases (v.exec c)) [
    | inl e ↦ rw (e, step) ((tt, tt), (c, e))
    | inr (r, e) ↦ elim (Bool-cases (succeeded r)) [
      | inl q ↦
          subst (λ x. Good v x (step fl v c failed more)) (sym (working v c r b e q))
            (rw (e, q, step) ((tt, h.0), h.1))
      | inr q ↦
          subst (λ x. Good v x (step fl v c failed more)) (sym (not_working v c r b e q))
            (rw (e, q, step) ((tt, tt), refl))
    ]
  ]

  test_step-Good : (v : Site) → Good v (works v run_tests) (test_step fl v)
  unfolding test_step
  test_step-Good v = elim (Option-cases (v.exec run_tests)) [
    | inl e ↦ rw (e, test_step) ((tt, tt), (run_tests, e))
    | inr (r, e) ↦
        subst (λ x. Good v x (test_step fl v)) (sym (works-some v run_tests r e))
          (rw (e, test_step) ((tt, tt), refl))
  ]

  nodes_step-Good : (v : Site) → Good v (has_nodes v.nodes && works v run_tests) (nodes_step fl v)
  nodes_step-Good v = go v.nodes
    where
      go :
          (nodes : List String)
          → Good v
              (has_nodes nodes && works v run_tests)
              (elim nodes [ [] ↦ (some (result fl no_nodes), []) | _ ∷ _ ↦ test_step fl v ])
      go [] = (tt, refl)
      go (_ ∷ _) = test_step-Good v

  grade_body-Good : (v : Site) → Good v (resolves v) (grade_body fl v)
  unfolding grade_body
  grade_body-Good v = step-Good v checkout checkout_failed _ _ (patched v.is_blank)
    where
      tested :
          Good v
            (works v test_patch && (has_nodes v.nodes && works v run_tests))
            (step fl v test_patch test_patch_failed (nodes_step fl v))
      tested = step-Good v test_patch test_patch_failed _ _ (nodes_step-Good v)

      patched :
          (blank : Bool)
          → Good v
              ((blank || works v model_patch)
                && (works v test_patch && (has_nodes v.nodes && works v run_tests)))
              (let next = step fl v test_patch test_patch_failed (nodes_step fl v) in
                if blank then next else step fl v model_patch model_patch_failed next)
      patched true = tested
      patched false = step-Good v model_patch model_patch_failed _ _ tested

  -- A grading by the sandbox id that was created, if any: without one nothing else is called; with
  -- one, that sandbox is stopped once, after all commands, on every way out.
  abbrev pub Grades : Site → Option String → Option (Grade F) × List Call → Type 0
  Grades v none (out, calls) = (out ≡ none) × (calls ≡ create ∷ [])
  Grades v (some sandbox_id) (out, calls) =
      (sent : List Call) × Good v (resolves v) (out, sent)
      × (calls ≡ create ∷ (sent ++ (stop sandbox_id ∷ [])))

  -- A grading stops the sandbox it created, whatever happens; it gives a grade unless the client
  -- raised, and the reward is one exactly if the checkout, the model's patch (unless blank), the test
  -- patch and the tests all exit with zero and there is a test node, else zero.
  pub grade-Grades : (v : Site) → Grades v v.create (grade fl v)
  unfolding grade
  grade-Grades v = elim (Option-cases v.create) [
    | inl e ↦ rw (e, grade) (refl, refl)
    | inr (sandbox_id, e) ↦ rw (e, grade) ((grade_body fl v).1, grade_body-Good v, refl)
  ]

  Grades-reward :
      (v : Site) (o : Option String) (out : Option (Grade F) × List Call) (g : Grade F)
      → Grades v o out
      → out.0 ≡ some g
      → g.reward ≡ (if resolves v then fl.one else fl.zero)
  Grades-reward v none (out, calls) g h e = absurd (ground (arith, h.0, e))
  Grades-reward v (some sandbox_id) (none, calls) g h e = absurd (ground (arith, e))
  Grades-reward v (some sandbox_id) (some g', calls) g (sent, good, _) e =
      subst (λ (x : Grade F). x.reward ≡ (if resolves v then fl.one else fl.zero)) (some_inj e)
        good.1

  -- A worker's result earns one exactly if its status is a graded one and its patch resolves the
  -- instance, else zero.
  pub run_trajectory_lem :
      (ran : Option Meta) (site : List ℕ → Site) (meta : Meta) (r : F) (g : Grade F)
      → (run_trajectory fl ran site).0 ≡ some (meta, r, g)
      → (ran ≡ some meta)
        × (r ≡ (if is_graded meta.status && resolves (site meta.patch) then fl.one else fl.zero))
  unfolding run_trajectory
  run_trajectory_lem none site meta r g h = absurd (ground arith)
  run_trajectory_lem (some m) site meta r g h = elim (Bool-cases (is_graded m.status)) [
    | inr e ↦
        let same = some_inj (rw (e, run_trajectory) at h) in
        let here : m ≡ meta = ap (λ (q : Meta × F × Grade F). q.0) same in
        (
          ap some here,
          subst
              (λ (x : Meta).
                r ≡ (if is_graded x.status && resolves (site x.patch) then fl.one else fl.zero))
              here (rw e (sym (ap (λ (q : Meta × F × Grade F). q.1) same))),
        )
    | inl e ↦ elim (Option-cases (grade fl (site m.patch)).0) [
      | inl n ↦ absurd (ground (arith, h, e, n))
      | inr (g', n) ↦
          let same = some_inj (rw (e, n, run_trajectory) at h) in
          let here : m ≡ meta = ap (λ (q : Meta × F × Grade F). q.0) same in
          (
            ap some here,
            subst
                (λ (x : Meta).
                  r ≡ (if is_graded x.status && resolves (site x.patch) then fl.one else fl.zero))
                here
                (rw e (
                  sym (ap (λ (q : Meta × F × Grade F). q.1) same)
                  ∙ Grades-reward (site m.patch) _ (grade fl (site m.patch)) g'
                      (grade-Grades (site m.patch)) n)),
          )
    ]
  ]
