-- ===== src/Rollout/Remote.antt =====
-- rollout_manager.py: one trajectory that runs on node2: its start with retries, the polling loop
-- and what the sample takes from the result. What the network answers is a list of outcomes.
use llm_rl_cpu_poc.Common.{
  ℕ, zero, suc, ◌+◌, ◌-◌, ltb, String, Bool, true, false, Option, none, some, List, [], ◌∷◌,
  text_key, if◌then◌else◌,
}
use llm_rl_cpu_poc.Common.Dict.{Dict, insert}
use llm_rl_cpu_poc.Common.Float.{Float}
use llm_rl_cpu_poc.Common.Result.{Result, ok, err}
use llm_rl_cpu_poc.Types.{Sample, Value, str, completed, sandbox_error}
use llm_rl_cpu_poc.Rollout.{Live, bump}
use mathlib.Core.Option
use Prim.Native.String.{◌++◌ as str_append}

-- `result.json` as the status endpoint sends it; `get` gives what `r.get(key)` answers.
pub record Answer (F P : Type 0) : Type 0 where
  pub reward : Option F
  pub turns : Option ℕ
  pub get : String → Value F P
  pub grade : Value F P

-- What a call can be left by, other than the OSErrors that it handles.
pub data Raised : Type 0 where
  cancelled another : Raised

-- One round of the polling: an OSError with its text, the state that the server named, or an
-- exception that ends the call, also one of reading the answer or its log.
pub data Poll (F P : Type 0) : Type 0 where
  interrupted : Raised → Poll F P
  os_error : String → Poll F P
  running : Poll F P
  done : Answer F P → Poll F P
  other : String → Poll F P

-- How the polling loop ends.
pub data Ending (F P : Type 0) : Type 0 where
  gave_up : String → Ending F P
  answered : Answer F P → Ending F P
  stopped : String → Ending F P
  left_by : Raised → Ending F P

-- A POST of a start, with the sleep behind an OSError.
pub data Start : Type 0 where
  sent : Start
  refused : String → Start
  broken_off : Raised → Start

-- At most `attempts` POSTs; the error of the last one if all fail, and how many were sent. `last`
-- is the error so far.
unfoldable pub start_attempts : ℕ → String → (ℕ → Start) → ℕ → Start × ℕ
start_attempts zero last posts attempt = (refused last, attempt)
start_attempts (suc left) last posts attempt = elim (posts attempt) [
  | sent ↦ (sent, attempt + 1)
  | refused e ↦ start_attempts left e posts (attempt + 1)
  | broken_off x ↦ (broken_off x, attempt + 1)
]

unfoldable pub start_remote : (ℕ → Start) → Start × ℕ
unfolding start_attempts
start_remote posts = start_attempts 3 "" posts 0

-- The loop over the outcomes of the polls, with the errors in a row so far; none means that it
-- still polls after them.
unfoldable pub poll_loop : {F P : Type 0} → List (Poll F P) → ℕ → Option (Ending F P)
poll_loop [] poll_errors = none
poll_loop (os_error e ∷ polls) poll_errors =
    let more = poll_loop polls (poll_errors + 1) in
    if ltb (poll_errors + 1) 5 then more else some (gave_up e)
poll_loop (running ∷ polls) poll_errors = poll_loop polls 0
poll_loop (interrupted x ∷ polls) poll_errors = some (left_by x)
poll_loop (done answer ∷ polls) poll_errors = some (answered answer)
poll_loop (other state ∷ polls) poll_errors = some (stopped state)

module _ (fl : Float) where
  open fl use {F}

  -- The sums over the adapter's log: a record is the list of its tokens' logprobs, none where the
  -- key is missing. A log that cannot be read counts as empty.
  unfoldable pub add_tokens : List (Option F) → F × ℕ → F × ℕ
  add_tokens [] acc = acc
  add_tokens (lp ∷ lps) (total, ntok) =
      add_tokens lps (fl.add total (Option.get_or lp fl.zero), ntok + 1)

  unfoldable pub add_records : List (List (Option F)) → F × ℕ → F × ℕ
  unfolding add_tokens
  add_records [] acc = acc
  add_records (r ∷ rs) acc = add_records rs (add_tokens r acc)

module _ (fl : Float) {P : Type 0} where
  open fl use {F}

  unfoldable pub fill_logprob : List (List (Option F)) → Sample F P → Sample F P
  unfolding add_records
  fill_logprob log s =
      let (total_lp, ntok) = add_records fl log (fl.zero, 0) in
      record s { rollout_logprob = total_lp; num_tokens = ntok }

  abbrev pub failed_with : String → Sample F P → Sample F P
  failed_with detail s = record s {
    status = sandbox_error;
    reward = fl.zero;
    sandbox = insert "detail" (str detail) s.sandbox;
  }

  -- The four keys of `sandbox.update`.
  abbrev pub update_sandbox : Answer F P → Dict String (Value F P) → Dict String (Value F P)
  update_sandbox r d = insert "grade" r.grade (
      insert "traj_status" (r.get "status") (
        insert "gen_lat_s" (r.get "gen_lat_total_s")
          (insert "exec_wall_s" (r.get "exec_wall_total_s") d)))

  -- What the sample becomes, or the exception.
  unfoldable pub take_ending :
      List (List (Option F)) → Ending F P → Sample F P → Result Raised (Sample F P)
  unfolding fill_logprob insert
  take_ending log (gave_up e) s = ok (failed_with (str_append "status poll failed x5: " e) s)
  take_ending log (stopped state) s = ok (failed_with (str_append "trajectory " state) s)
  take_ending log (left_by x) s = err x
  take_ending log (answered r) s = ok (
      fill_logprob log (record s {
        reward = Option.get_or r.reward fl.zero;
        turns = Option.get_or r.turns 0;
        status = completed;
        sandbox = update_sandbox r s.sandbox;
      }))

  -- The `except` clause: an abort is sent where the call was cancelled.
  abbrev pub aborts : Result Raised (Sample F P) → Bool
  aborts (err cancelled) = true
  aborts _ = false

  abbrev pub named_as : String → Sample F P → Sample F P
  named_as traj_id s = record s { metadata = insert "traj_id" (str traj_id) s.metadata }

  -- The counters behind the `finally` block.
  abbrev pub end_remote :
      Sample F P → Live → Result Raised (Sample F P) → Result Raised (Sample F P) × Bool × Live
  end_remote s l out = (
    out,
    aborts out,
    record l {
      gen_waiting = (l.gen_waiting + 1) - 1;
      done = l.done + 1;
      group_progress = bump s.group_id l.group_progress;
    },
  )

  -- The whole call: what it returns or raises, whether an abort was sent, and the counters behind
  -- the `finally` block. None means that it still polls after the given outcomes.
  unfoldable pub run_swe_one :
      String
      → (ℕ → Start)
      → List (Poll F P)
      → List (List (Option F))
      → Sample F P
      → Live
      → Option (Result Raised (Sample F P) × Bool × Live)
  unfolding start_remote poll_loop take_ending insert bump
  run_swe_one traj_id posts polls log s l = elim (start_remote posts).0 [
    | refused e ↦ some (
        end_remote s l
          (ok (failed_with (str_append "start failed after retries: " e) (named_as traj_id s))))
    | broken_off x ↦ some (end_remote s l (err x))
    | sent ↦ elim (poll_loop polls 0) [
      | none ↦ none
      | some ending ↦ some (end_remote s l (take_ending log ending (named_as traj_id s)))
    ]
  ]
