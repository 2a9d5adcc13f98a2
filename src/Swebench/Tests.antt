-- ===== src/Swebench/Tests.antt =====
-- swebench.py: runs on small inputs.
use llm_rl_cpu_poc.Common.{
  ◌≡◌, refl, String, Bool, Option, none, some, List, [], ◌∷◌, ◌++◌, ◌==◌, text_key, map, keep,
}
use llm_rl_cpu_poc.Common.Result.{ok}
use llm_rl_cpu_poc.Swebench.{SweInstance, load_instances, is_wanted}
use llm_rl_cpu_poc.Swebench.Patch.{PatchLine, diff, added, context, resolve_test_nodes}
use llm_rl_cpu_poc.Swebench.Loading.{read, instances_of, unless_empty, cut, load_instances_lem}
use llm_rl_cpu_poc.Swebench.Nodes.{IsNode, Pairwise, resolve_test_nodes-IsNode}

abbrev instance_of : String → String → SweInstance
instance_of id repo = record {
  instance_id = id;
  repo = repo;
  base_commit = "c0";
  problem_statement = "";
  test_patch = "";
  fail_to_pass = [];
  pass_to_pass = [];
  version = "1.0";
  gold_patch = "";
}

abbrev rows : List (Option SweInstance)
rows =
    some (instance_of "a" "sympy")
    ∷ none
    ∷ some (instance_of "b" "django")
    ∷ some (instance_of "c" "sympy")
    ∷ some (instance_of "d" "sympy")
    ∷ []

load_two :
    load_instances (some "sympy") (some 2) (map read rows)
    ≡ ok (instance_of "a" "sympy" ∷ instance_of "c" "sympy" ∷ [])
unfolding load_instances
load_two = refl

load_instances_lem_example :
    load_instances (some "sympy") (some 2) (map read rows)
    ≡ unless_empty (cut (some 2) 0 (keep (is_wanted (some "sympy")) (instances_of rows)))
load_instances_lem_example = load_instances_lem (some "sympy") (some 2) rows

-- A limit of zero lets one instance through.
load_zero : load_instances none (some 0) (map read rows) ≡ ok (instance_of "a" "sympy" ∷ [])
unfolding load_instances
load_zero = refl

abbrev patch : List PatchLine
patch =
    diff "x.py"
    ∷ added (some "test_a")
    ∷ context
    ∷ diff "y.py"
    ∷ added none
    ∷ added (some "test_b")
    ∷ []

abbrev is_full : String → Bool
is_full name = name == "x.py::test_a"

resolve_three :
    resolve_test_nodes is_full patch ("test_b" ∷ "x.py::test_a" ∷ []) ("test_c" ∷ [])
    ≡ "y.py::test_b" ∷ "x.py::test_a" ∷ "x.py::test_c" ∷ []
unfolding resolve_test_nodes
resolve_three = refl

resolve_test_nodes-IsNode_example :
    Pairwise
      (IsNode is_full patch)
      (("test_b" ∷ "x.py::test_a" ∷ []) ++ ("test_c" ∷ []))
      (resolve_test_nodes is_full patch ("test_b" ∷ "x.py::test_a" ∷ []) ("test_c" ∷ []))
resolve_test_nodes-IsNode_example =
    resolve_test_nodes-IsNode is_full patch ("test_b" ∷ "x.py::test_a" ∷ []) ("test_c" ∷ [])
