-- ===== src/Swebench.antt =====
-- rl_sim/swebench.py: the instances and their tasks. A JSON row is a record of what `row.get`
-- answers. The test nodes that an instance resolves to are in Patch.
pub mod Loading
pub mod Patch
mod Scan
pub mod Nodes
mod Tests
use llm_rl_cpu_poc.Common.{
  ℕ, zero, suc, ◌+◌, leb, String, Bool, true, false, not, ◌&&◌, ◌||◌, Option, none, some, List, [],
  ◌∷◌, ◌++◌, length, map, ◌==◌, text_key, number_key, if◌then◌else◌,
}
use llm_rl_cpu_poc.Common.Dict.{Dict, lookup, insert, set_default}
use llm_rl_cpu_poc.Common.Result.{Result, ok, err, ◌>>=◌}
use llm_rl_cpu_poc.Types.{Value, str, swe, line_value}
use llm_rl_cpu_poc.DataSource.{Task}
use mathlib.Core.Option
use Prim.Native.String.{◌++◌ as str_append}

-- What a JSON value is to `_as_list`. A text is given with its parse: none for malformed JSON, the
-- elements where it is a list, and `not_list` with the type's name where it is another value.
pub data Parsed : Type 0 where
  elements : List String → Parsed
  not_list : String → Parsed

pub data Json : Type 0 where
  null : Json
  items : List String → Json
  blank : Json
  text : Option Parsed → Json
  other : String → Json

pub data Failure : Type 0 where
  missing : String → Failure
  malformed : Failure
  expected_list : String → Failure
  not_coercible : String → Failure
  no_instances : Failure

unfoldable pub as_list : Json → Result Failure (List String)
as_list null = ok []
as_list (items xs) = ok xs
as_list blank = ok []
as_list (text none) = err malformed
as_list (text (some (elements xs))) = ok xs
as_list (text (some (not_list kind))) = err (expected_list kind)
as_list (other kind) = err (not_coercible kind)

pub record Row : Type 0 where
  pub instance_id : Option String
  pub repo : Option String
  pub base_commit : Option String
  pub problem_statement : Option String
  pub test_patch : Option String
  pub fail_to_pass : Json
  pub pass_to_pass : Json
  pub version : Option String
  pub patch : Option String

pub record SweInstance : Type 0 where
  pub instance_id : String
  pub repo : String
  pub base_commit : String
  pub problem_statement : String
  pub test_patch : String
  pub fail_to_pass : List String
  pub pass_to_pass : List String
  pub version : String
  pub gold_patch : String

-- `row["key"]`.
abbrev pub required : String → Option String → Result Failure String
required key none = err (missing key)
required key (some x) = ok x

unfoldable pub parse_instance : Row → Result Failure SweInstance
unfolding as_list
parse_instance row = do
  instance_id ← required "instance_id" row.instance_id
  repo ← required "repo" row.repo
  base_commit ← required "base_commit" row.base_commit
  fail_to_pass ← as_list row.fail_to_pass
  pass_to_pass ← as_list row.pass_to_pass
  ok (record {
    instance_id = instance_id;
    repo = repo;
    base_commit = base_commit;
    problem_statement = Option.get_or row.problem_statement "";
    test_patch = Option.get_or row.test_patch "";
    fail_to_pass = fail_to_pass;
    pass_to_pass = pass_to_pass;
    version = Option.get_or row.version "";
    gold_patch = Option.get_or row.patch "";
  })

-- `repo is not None and inst.repo != repo` does not hold.
abbrev pub is_wanted : Option String → SweInstance → Bool
is_wanted none inst = true
is_wanted (some repo) inst = inst.repo == repo

abbrev pub is_full : Option ℕ → ℕ → Bool
is_full none n = false
is_full (some limit) n = leb limit n

-- The loop over the lines: none is a blank line, else what parsing the line gives. `out` are the
-- instances so far.
unfoldable pub load_lines :
    Option String
    → Option ℕ
    → List (Option (Result Failure SweInstance))
    → List SweInstance
    → Result Failure (List SweInstance)
load_lines repo limit [] out = ok out
load_lines repo limit (none ∷ lines) out = load_lines repo limit lines out
load_lines repo limit (some (err e) ∷ lines) out = err e
load_lines repo limit (some (ok inst) ∷ lines) out =
    let skip = load_lines repo limit lines out in
    let out' : List SweInstance = out ++ (inst ∷ []) in
    let more = load_lines repo limit lines out' in
    if is_wanted repo inst then (if is_full limit (length out') then ok out' else more) else skip

-- `if not out: raise ValueError`.
abbrev pub not_empty : Result Failure (List SweInstance) → Result Failure (List SweInstance)
not_empty (err e) = err e
not_empty (ok []) = err no_instances
not_empty (ok (i ∷ is)) = ok (i ∷ is)

unfoldable pub load_instances :
    Option String
    → Option ℕ
    → List (Option (Result Failure SweInstance))
    → Result Failure (List SweInstance)
unfolding load_lines
load_instances repo limit lines = not_empty (load_lines repo limit lines [])

-- The `swe` payload of a task: the instance without its gold patch.
pub record SwePayload : Type 0 where
  pub instance_id : String
  pub repo : String
  pub base_commit : String
  pub problem_statement : String
  pub test_patch : String
  pub fail_to_pass : List String
  pub pass_to_pass : List String
  pub version : String

unfoldable pub to_task : {F : Type 0} → String → ℕ → String → SweInstance → Task F SwePayload
unfolding line_value
to_task tier max_turns split inst = record {
  task_id = str_append "swe_" inst.instance_id;
  line = line_value swe;
  prompt = inst.problem_statement;
  reward_spec = ("type", str "swebench") ∷ [];
  tier = tier;
  tests = [];
  answer = none;
  entry = "";
  repo = [];
  test_cmd = "";
  corpus = [];
  max_turns = max_turns;
  solution = "";
  image_path = none;
  split = split;
  swe = some (record {
    instance_id = inst.instance_id;
    repo = inst.repo;
    base_commit = inst.base_commit;
    problem_statement = inst.problem_statement;
    test_patch = inst.test_patch;
    fail_to_pass = inst.fail_to_pass;
    pass_to_pass = inst.pass_to_pass;
    version = inst.version;
  });
}

unfoldable pub load_tasks :
    {F : Type 0}
    → Option String
    → Option ℕ
    → String
    → ℕ
    → String
    → List (Option (Result Failure SweInstance))
    → Result Failure (List (Task F SwePayload))
unfolding load_instances to_task
load_tasks repo limit tier max_turns split lines = do
  instances ← load_instances repo limit lines
  ok (map (to_task tier max_turns split) instances)
