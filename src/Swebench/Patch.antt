-- ===== src/Swebench/Patch.antt =====
-- swebench.py: the test nodes that an instance resolves to. The regular expressions are parameters.
use llm_rl_cpu_poc.Common.{
  String, Bool, false, ◌||◌, Option, none, some, List, [], ◌∷◌, ◌++◌, map, ◌==◌, text_key,
  if◌then◌else◌,
}
use llm_rl_cpu_poc.Common.Dict.{Dict, lookup, insert, set_default}
use Prim.Native.String.{◌++◌ as str_append}

-- A line of the test patch, as the two regular expressions and the test of its first character see
-- it: the file that a `diff --git` line names, else whether it is added, with the test it defines.
pub data PatchLine : Type 0 where
  diff : String → PatchLine
  added : Option String → PatchLine
  context : PatchLine

unfoldable pub is_in : String → List String → Bool
is_in x [] = false
is_in x (y ∷ ys) = y == x || is_in x ys

abbrev pub add_test : String → List String → List String
add_test t ts = if is_in t ts then ts else ts ++ (t ∷ [])

-- The loop over the patch: the current file and the tests added per file. An empty file name counts
-- as none, but no match is empty.
unfoldable pub scan_patch :
    List PatchLine → Option String → Dict String (List String) → Dict String (List String)
unfolding is_in lookup insert
scan_patch [] current d = d
scan_patch (diff file ∷ lines) current d = scan_patch lines (some file) (set_default file [] d)
scan_patch (added (some t) ∷ lines) (some file) d =
    scan_patch lines (some file)
      (elim (lookup file d) [ none ↦ d | some ts ↦ insert file (add_test t ts) d ])
scan_patch (_ ∷ lines) current d = scan_patch lines current d

-- `next((f for f in files if name in file_tests[f]), None)`.
unfoldable pub find_file : String → Dict String (List String) → Option String
unfolding is_in
find_file name [] = none
find_file name ((file, ts) ∷ d) =
    let rest = find_file name d in if is_in name ts then some file else rest

-- A name that no file has: `files[0]` where there is a file.
abbrev pub fall_back : Dict String (List String) → String → String
fall_back [] name = name
fall_back ((first, ts) ∷ d) name = str_append first (str_append "::" name)

-- `is_full_id` is `"::" in name or "/" in name`.
unfoldable pub resolve_one : (String → Bool) → Dict String (List String) → String → String
unfolding find_file
resolve_one is_full_id file_tests name =
    if is_full_id name then name else elim (find_file name file_tests) [
      | some file ↦ str_append file (str_append "::" name)
      | none ↦ fall_back file_tests name
    ]

unfoldable pub resolve_test_nodes :
    (String → Bool) → List PatchLine → List String → List String → List String
unfolding scan_patch resolve_one
resolve_test_nodes is_full_id patch fail_to_pass pass_to_pass =
    map (resolve_one is_full_id (scan_patch patch none [])) (fail_to_pass ++ pass_to_pass)
