-- ===== src/Swebench/Nodes.antt =====
-- swebench.py: which file a bare test name of an instance is anchored to.
use llm_rl_cpu_poc.Common.{
  some_inj, map, ◌≡◌, refl, sym, ap, ◌∙◌, String, Bool, true, false, Option, none, some, List, [],
  ◌∷◌, ◌++◌, arith, Bool-cases, Option-cases, inl, inr, ◌==◌, text_key,
}
use llm_rl_cpu_poc.Common.Dict.{lookup, Distinct}
use llm_rl_cpu_poc.Swebench.Patch.{
  PatchLine, is_in, scan_patch, find_file, resolve_one, fall_back, resolve_test_nodes,
}
use Prim.Native.String.{◌++◌ as str_append}
use llm_rl_cpu_poc.Swebench.Scan.{Tests, has, holds, head, adds_in, first_file, scan_patch-Scanned}

-- The file that is found has the test; where none is found, none has it.
find_file-some :
    (t f : String) (d : Tests) → Distinct d → find_file t d ≡ some f → holds d f t ≡ true
unfolding find_file lookup
find_file-some t f [] h e = absurd (ground (arith, e))
find_file-some t f ((g, ts) ∷ d) h e = elim (Bool-cases (is_in t ts)) [
  | inl i ↦ let same : g ≡ f = some_inj (rw i at e) in rw ((text_key.same_iff g f).1 same) i
  | inr i ↦
      let found : holds d f t ≡ true = find_file-some t f d h.1 (rw i at e) in
      elim (Bool-cases (g == f)) [
        | inr n ↦ rw n found
        | inl y ↦
            let same : g ≡ f = (text_key.same_iff g f).0 y in
            let absent : holds d f t ≡ false =
              ap (λ o. has o t) (ap (λ x. lookup x d) (sym same) ∙ h.0) in
            absurd (ground (arith, found, absent))
      ]
]

find_file-none : (t f : String) (d : Tests) → find_file t d ≡ none → holds d f t ≡ false
unfolding find_file lookup
find_file-none t f [] e = refl
find_file-none t f ((g, ts) ∷ d) e = elim (Bool-cases (is_in t ts)) [
  | inl i ↦ absurd (ground (arith, e, i))
  | inr i ↦
      let rest : holds d f t ≡ false = find_file-none t f d (rw i at e) in
      elim (Bool-cases (g == f)) [ inl y ↦ rw y i | inr n ↦ rw n rest ]
]

-- A name that is anchored to a file.
abbrev pub anchored : Option String → String → String
anchored none t = t
anchored (some f) t = str_append f (str_append "::" t)

fall_back_lem : (d : Tests) (t : String) → fall_back d t ≡ anchored (head d) t
fall_back_lem [] t = refl
fall_back_lem ((f, ts) ∷ d) t = refl

-- How a name of an instance and its node stand together.
pub data IsNode (is_full_id : String → Bool) (patch : List PatchLine) (t node : String)
    : Type 0 where
  full : is_full_id t ≡ true → node ≡ t → IsNode is_full_id patch t node
  found :
      (f : String)
      → is_full_id t ≡ false
      → adds_in patch none f t ≡ true
      → node ≡ anchored (some f) t
      → IsNode is_full_id patch t node
  nowhere :
      is_full_id t ≡ false
      → ((f : String) → adds_in patch none f t ≡ false)
      → node ≡ anchored (first_file patch) t
      → IsNode is_full_id patch t node

abbrev pub Pairwise : (String → String → Type 0) → List String → List String → Type 0
Pairwise R [] [] = Unit
Pairwise R (x ∷ xs) (y ∷ ys) = R x y × Pairwise R xs ys
Pairwise R _ _ = ⊥

module _ (is_full_id : String → Bool) (patch : List PatchLine) where
  resolve_one-IsNode :
      (t : String) → IsNode is_full_id patch t (resolve_one is_full_id (scan_patch patch none []) t)
  unfolding resolve_one lookup
  resolve_one-IsNode t =
      let d : Tests = scan_patch patch none [] in
      let scanned = scan_patch-Scanned patch none [] tt tt in
      elim (Bool-cases (is_full_id t)) [
        | inl e ↦ full e (rw e refl)
        | inr bare ↦ elim (Option-cases (find_file t d)) [
          | inr (f, e) ↦
              found f bare (sym (scanned.tests f t) ∙ find_file-some t f d scanned.distinct e)
                (rw (bare, e) refl)
          | inl e ↦
              nowhere bare (λ f. sym (scanned.tests f t) ∙ find_file-none t f d e)
                (rw (bare, e) (fall_back_lem d t ∙ ap (λ o. anchored o t) scanned.first))
        ]
      ]

  each-IsNode :
      (names : List String)
      → Pairwise
          (IsNode is_full_id patch)
          names
          (map (resolve_one is_full_id (scan_patch patch none [])) names)
  each-IsNode [] = tt
  each-IsNode (t ∷ names) = (resolve_one-IsNode t, each-IsNode names)

  -- The nodes stand one to one for the names: a full id for itself, a bare name behind a file to
  -- which the patch adds that test, and one that the patch adds to no file behind the first file of
  -- the patch, or alone where the patch has no file.
  pub resolve_test_nodes-IsNode :
      (fail_to_pass pass_to_pass : List String)
      → Pairwise
          (IsNode is_full_id patch)
          (fail_to_pass ++ pass_to_pass)
          (resolve_test_nodes is_full_id patch fail_to_pass pass_to_pass)
  unfolding resolve_test_nodes
  resolve_test_nodes-IsNode fail_to_pass pass_to_pass = each-IsNode (fail_to_pass ++ pass_to_pass)
