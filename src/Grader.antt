-- ===== src/Grader.antt =====
-- rl_sim/grader.py and rl_sim/trajectory_worker.py: the score of a patch in a fresh sandbox, and
-- which runs are scored. The sandbox client and the test nodes that the instance resolves to are
-- parameters.
pub mod Score
mod Tests
use llm_rl_cpu_poc.Common.{
  ℕ, String, Bool, true, false, not, ◌&&◌, ◌||◌, Option, none, some, List, [], ◌∷◌, ◌++◌, length,
  ◌==◌, if◌then◌else◌,
}
use llm_rl_cpu_poc.Common.Float.{Float}
use llm_rl_cpu_poc.Common.Int.{ℤ, pos, int_key}
use llm_rl_cpu_poc.AgentRunner.{
  ExecResult, last_chars, Status, error, max_turns, timeout, submitted, no_tool_call,
  adapter_http_error, adapter_error,
}
use llm_rl_cpu_poc.AgentRunner.Run.{Meta}

-- The commands of a grading, in the order in which they are sent.
pub data Command : Type 0 where
  checkout model_patch test_patch run_tests : Command

pub data Call : Type 0 where
  create : Call
  exec : Command → Call
  stop : String → Call

-- The text of `detail`, with the error output it ends in.
pub data Detail : Type 0 where
  checkout_failed model_patch_failed test_patch_failed : List ℕ → Detail
  no_nodes tests_failed passed : Detail
  not_graded : Status → Detail

pub record Grade (F : Type 0) : Type 0 where
  pub reward : F
  pub rc : Option ℤ
  pub n_nodes : ℕ
  pub detail : Detail

-- `exec` answers none for an exception; `is_blank` is `not patch.strip()`.
pub record Site : Type 0 where
  pub create : Option String
  pub exec : Command → Option ExecResult
  pub is_blank : Bool
  pub nodes : List String

abbrev pub succeeded : ExecResult → Bool
succeeded r = r.rc == pos 0

-- `GRADED_STATUSES`.
unfoldable pub is_graded : Status → Bool
is_graded submitted = true
is_graded max_turns = true
is_graded timeout = true
is_graded no_tool_call = true
is_graded _ = false

module _ (fl : Float) where
  open fl use {F}

  abbrev pub result : Detail → Grade F
  result detail = record { reward = fl.zero; rc = none; n_nodes = 0; detail = detail }

  -- The steps of the `try` block, from the last one back. Each gives the grade, none for an
  -- exception, and the commands it sent.
  unfoldable pub test_step : Site → Option (Grade F) × List Call
  test_step v = elim (v.exec run_tests) [
    | none ↦ (none, exec run_tests ∷ [])
    | some r ↦ (
      some (record {
        reward = if succeeded r then fl.one else fl.zero;
        rc = some r.rc;
        n_nodes = length v.nodes;
        detail = if succeeded r then passed else tests_failed;
      }),
      exec run_tests ∷ [],
    )
  ]

  abbrev pub nodes_step : Site → Option (Grade F) × List Call
  nodes_step v = elim v.nodes [ [] ↦ (some (result no_nodes), []) | _ ∷ _ ↦ test_step v ]

  -- One command: an exception or a failure ends the grading, else `more` follows.
  unfoldable pub step :
      Site
      → Command
      → (List ℕ → Detail)
      → Option (Grade F) × List Call
      → Option (Grade F) × List Call
  unfolding last_chars
  step v c failed more = elim (v.exec c) [
    | none ↦ (none, exec c ∷ [])
    | some r ↦
        if succeeded r
        then (more.0, exec c ∷ more.1)
        else (some (result (failed (last_chars 300 r.stderr))), exec c ∷ [])
  ]

  unfoldable pub grade_body : Site → Option (Grade F) × List Call
  unfolding step test_step
  grade_body v =
      let tested = step v test_patch test_patch_failed (nodes_step v) in
      let patched = if v.is_blank then tested else step v model_patch model_patch_failed tested in
      step v checkout checkout_failed patched

  unfoldable pub grade : Site → Option (Grade F) × List Call
  unfolding grade_body
  grade v = elim v.create [
    | none ↦ (none, create ∷ [])
    | some sandbox_id ↦
        let (out, calls) = grade_body v in (out, create ∷ (calls ++ (stop sandbox_id ∷ [])))
  ]

  -- The reward and the grade of a worker's result, and the calls that the grading made; none where
  -- the agent's run or the grading raised. `site` is the world after the run, for its patch.
  unfoldable pub run_trajectory :
      Option Meta → (List ℕ → Site) → Option (Meta × F × Grade F) × List Call
  unfolding grade is_graded
  run_trajectory ran site = elim ran [
    | none ↦ (none, [])
    | some meta ↦
        if is_graded meta.status
        then (let (out, calls) = grade (site meta.patch) in
            (elim out [ none ↦ none | some g ↦ some (meta, g.reward, g) ], calls))
        else (let g = result (not_graded meta.status) in (some (meta, g.reward, g), []))
  ]
