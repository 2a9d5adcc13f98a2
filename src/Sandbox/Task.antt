-- ===== src/Sandbox/Task.antt =====
-- sandbox.py: one task in a subprocess: the runner program, and how its outcome comes back to the
-- sample. The process, the clock and the JSON library are parameters; a line is a list of code points.
use llm_rl_cpu_poc.Common.{
  ℕ, suc, String, Bool, ◌||◌, Option, none, some, List, [], ◌∷◌, length, nat_beq, ◌==◌, text_key,
  number_key, if◌then◌else◌,
}
use llm_rl_cpu_poc.Common.Dict.{Dict, lookup, insert}
use llm_rl_cpu_poc.Common.Int.{ℤ, negsuc, int_key}
use llm_rl_cpu_poc.Common.Float.{Float}
use llm_rl_cpu_poc.Types.{
  Sample, Value, str, num, completed, sandbox_error, sandbox_timeout, sandbox_oom,
}
use mathlib.Core.Option
use mathlib.Core.List.{reverse}

-- How `from solution import *` ends.
pub data Import : Type 0 where
  imported : Import
  out_of_memory : Import
  raised : Import

-- The runner's `result`, as far as the sandbox reads it; `fields` is the whole object.
pub record Payload (F P : Type 0) : Type 0 where
  pub status : Option String
  pub passed : Option ℕ
  pub total : Option ℕ
  pub fields : Dict String (Value F P)

-- `npass`, where a test is whether it ran through.
unfoldable pub count_passes : List Bool → ℕ
count_passes [] = 0
count_passes (t ∷ ts) = let rest = count_passes ts in if t then suc rest else rest

-- The `status` and `passed` of the runner.
unfoldable pub run_tests : Import → List Bool → String × ℕ
unfolding count_passes
run_tests imported tests =
    (if nat_beq (count_passes tests) (length tests) then "passed" else "failed", count_passes tests)
run_tests out_of_memory tests = ("oom", 0)
run_tests raised tests = ("error", 0)

unfoldable pub runner : {F P : Type 0} → Import → List Bool → Dict String (Value F P) → Payload F P
unfolding run_tests
runner imp tests fields =
    let (status, passed) = run_tests imp tests in
    record {
      status = some status;
      passed = some passed;
      total = some (length tests);
      fields = fields;
    }

-- The line that marks a result: `__RESULT__`.
abbrev pub marker : List ℕ
marker = 95 ∷ 95 ∷ 82 ∷ 69 ∷ 83 ∷ 85 ∷ 76 ∷ 84 ∷ 95 ∷ 95 ∷ []

-- What stands behind a prefix.
unfoldable pub behind : List ℕ → List ℕ → Option (List ℕ)
behind [] line = some line
behind (c ∷ prefix) [] = none
behind (c ∷ prefix) (d ∷ line) = let rest = behind prefix line in if c == d then rest else none

unfoldable pub first_marked : {A : Type 0} → (List ℕ → Option A) → List (List ℕ) → Option A
unfolding behind
first_marked loads [] = none
first_marked loads (line ∷ lines) =
    let rest = first_marked loads lines in
    elim (behind marker line) [ none ↦ rest | some text ↦ loads text ]

-- `lines` is `stdout.splitlines()`; `loads` is none for malformed JSON.
unfoldable pub parse_result_line : {A : Type 0} → (List ℕ → Option A) → List (List ℕ) → Option A
unfolding first_marked
parse_result_line loads lines = first_marked loads (reverse lines)

-- `{k: payload[k] for k in (...) if k in payload}`, put into a dict.
unfoldable pub copy_keys :
    {V : Type 0} → List String → Dict String V → Dict String V → Dict String V
unfolding lookup insert
copy_keys [] src dst = dst
copy_keys (k ∷ ks) src dst =
    copy_keys ks src (elim (lookup k src) [ none ↦ dst | some v ↦ insert k v dst ])

abbrev pub copied : List String
copied =
    "cpu_s" ∷ "maxrss_kb" ∷ "io_read_bytes" ∷ "io_write_bytes" ∷ "boot_ts" ∷ "detail" ∷ "uid" ∷ []

-- A finished process.
pub record Completed : Type 0 where
  pub returncode : ℤ
  pub lines : List (List ℕ)
  pub detail : String

-- `-signal.SIGXCPU` and `-signal.SIGKILL`.
unfoldable pub is_limit_kill : ℤ → Bool
is_limit_kill rc = rc == negsuc 23 || rc == negsuc 8

module _ {F P : Type 0} (loads : List ℕ → Option (Payload F P)) (cpu_detail : String) where
  -- The sample with the payload's counts, copied fields and status.
  unfoldable pub take_payload : Payload F P → Sample F P → Sample F P
  unfolding copy_keys
  take_payload p s =
      let told : String = Option.get_or p.status "" in
      record s {
        sandbox = copy_keys copied p.fields s.sandbox;
        tests_passed = Option.get_or p.passed 0;
        tests_total = Option.get_or p.total 0;
        status =
            if told == "passed" || told == "failed"
            then completed
            else if told == "oom"
            then sandbox_oom
            else sandbox_error;
      }

  unfoldable pub map_result : Completed → Sample F P → Sample F P
  unfolding parse_result_line take_payload is_limit_kill
  map_result proc s =
      if is_limit_kill proc.returncode
      then record s {
        status = sandbox_timeout;
        sandbox = insert "detail" (str cpu_detail) s.sandbox;
      }
      else elim (parse_result_line loads proc.lines) [
        | none ↦ record s {
          status = sandbox_error;
          sandbox = insert "detail" (str proc.detail) s.sandbox;
        }
        | some p ↦ take_payload p s
      ]

-- The clock readings of one task, and the number in a dict's value, none where it is no number.
pub record Clock (fl : Float) (P : Type 0) : Type 0 where
  pub submit_ts : fl.F
  pub spawn_ts : fl.F
  pub end_ts : fl.F
  pub round : fl.F → fl.F
  pub number : Value fl.F P → Option fl.F

module _ (fl : Float) {P : Type 0} (loads : List ℕ → Option (Payload fl.F P))
    (cpu_detail timeout_detail : String) where
  open fl use {F}

  -- The last `sandbox.update`; none is the TypeError of a boot time that is no number.
  unfoldable pub stamp : Clock fl P → String → Sample F P → Option (Sample F P)
  unfolding insert lookup
  stamp k tier s =
      let booted : Option F = elim (lookup "boot_ts" s.sandbox) [
        | none ↦ some k.spawn_ts
        | some v ↦ k.number v
      ] in
      elim booted [
        | none ↦ none
        | some boot_ts ↦ some (record s {
          sandbox = insert "tier" (str tier) (
              insert "exec_wall_s" (num (k.round (fl.sub k.end_ts k.spawn_ts))) (
                insert "launch_overhead_s" (num (k.round (fl.sub boot_ts k.spawn_ts))) (
                  insert "end_ts" (num k.end_ts) (
                    insert "spawn_ts" (num k.spawn_ts)
                      (insert "submit_ts" (num k.submit_ts) s.sandbox)))));
        })
      ]

  -- `proc` is none where the wall time ran out.
  unfoldable pub run_sandbox_task :
      Clock fl P → Option Completed → String → Sample F P → Option (Sample F P)
  unfolding map_result stamp
  run_sandbox_task k proc tier s = stamp k tier (elim proc [
    | none ↦ record s {
      status = sandbox_timeout;
      sandbox = insert "detail" (str timeout_detail) s.sandbox;
    }
    | some done ↦ map_result loads cpu_detail done s
  ])
