-- ===== src/Swebench/Scan.antt =====
-- swebench.py: what the loop over a test patch collects.
use llm_rl_cpu_poc.Common.{
  ◌≡◌, refl, sym, ap, ◌∙◌, subst, String, Bool, false, ◌&&◌, ◌||◌, Option, none, some, List, [],
  ◌∷◌, ◌++◌, arith, Bool-cases, Option-cases, inl, inr, ◌⊎◌, ◌==◌, text_key, if◌then◌else◌,
}
use llm_rl_cpu_poc.Common.Dict.{
  Dict, lookup, insert, set_default, contains, lookup-insert, insert-Distinct, Distinct,
}
use llm_rl_cpu_poc.Swebench.Patch.{PatchLine, diff, added, context, is_in, add_test, scan_patch}

abbrev pub Tests : Type 0
Tests = Dict String (List String)

abbrev pub has : Option (List String) → String → Bool
has none t = false
has (some ts) t = is_in t ts

abbrev pub holds : Tests → String → String → Bool
holds d f t = has (lookup f d) t

abbrev pub or_else : Option String → Option String → Option String
or_else none y = y
or_else (some x) y = some x

or_else_assoc : (x y z : Option String) → or_else (or_else x y) z ≡ or_else x (or_else y z)
or_else_assoc none y z = refl
or_else_assoc (some x) y z = refl

-- The first file of the dict, `files[0]`.
abbrev pub head : Tests → Option String
head [] = none
head ((f, ts) ∷ d) = some f

-- Whether the lines add the test `t` below a header of the file `f`, where `current` is the file of
-- the last header before them.
abbrev pub adds_in : List PatchLine → Option String → String → String → Bool
adds_in [] current f t = false
adds_in (diff file ∷ lines) current f t = adds_in lines (some file) f t
adds_in (added (some u) ∷ lines) (some file) f t =
    (file == f && u == t) || adds_in lines (some file) f t
adds_in (_ ∷ lines) current f t = adds_in lines current f t

-- The file of the first header.
abbrev pub first_file : List PatchLine → Option String
first_file [] = none
first_file (diff file ∷ lines) = some file
first_file (_ ∷ lines) = first_file lines

is_in-append : (t u : String) (ts : List String) → is_in t (ts ++ (u ∷ [])) ≡ is_in t ts || u == t
unfolding is_in
is_in-append t u [] = ground arith
is_in-append t u (x ∷ ts) = ground (arith, is_in-append t u ts)

is_in-add_test : (t u : String) (ts : List String) → is_in t (add_test u ts) ≡ u == t || is_in t ts
is_in-add_test t u ts = elim (Bool-cases (is_in u ts)) [
  | inl e ↦ ground (arith, e, text_key.same_iff u t)
  | inr e ↦ rw e (is_in-append t u ts ∙ ground arith)
]

module _ (g : String) (d : Tests) where
  set_default-cases :
      ((ts : List String) × (lookup g d ≡ some ts) × (set_default g [] d ≡ d))
      ⊎ ((lookup g d ≡ none) × (set_default g [] d ≡ insert g [] d))
  set_default-cases = elim (Option-cases (lookup g d)) [
    | inr (ts, e) ↦ inl (ts, e, rw (e, set_default, contains) refl)
    | inl e ↦ inr (e, rw (e, set_default, contains) refl)
  ]

  holds-insert :
      (ts : List String) (f t : String)
      → holds (insert g ts d) f t ≡ (if g == f then is_in t ts else holds d f t)
  holds-insert ts f t =
      ap (λ o. has o t) (lookup-insert g f ts d)
      ∙ elim (Bool-cases (g == f)) [ inl e ↦ rw e refl | inr e ↦ rw e refl ]

  -- A file that has no tests yet holds none.
  holds-set_default : (f t : String) → holds (set_default g [] d) f t ≡ holds d f t
  unfolding is_in
  holds-set_default f t = elim set_default-cases [
    | inl (_, _, e) ↦ rw e refl
    | inr (e, new) ↦ ap (λ x. holds x f t) new ∙ holds-insert [] f t ∙ elim (Bool-cases (g == f)) [
      | inr h ↦ rw h refl
      | inl h ↦
          let same : g ≡ f = (text_key.same_iff g f).0 h in
          rw h (sym (ap (λ o. has o t) (ap (λ x. lookup x d) (sym same) ∙ e)))
    ]
  ]

  holds-add :
      (ts : List String) (u f t : String)
      → lookup g d ≡ some ts
      → holds (insert g (add_test u ts) d) f t ≡ (g == f && u == t) || holds d f t
  holds-add ts u f t e = holds-insert (add_test u ts) f t ∙ elim (Bool-cases (g == f)) [
    | inr h ↦ rw h refl
    | inl h ↦
        let same : g ≡ f = (text_key.same_iff g f).0 h in
        let held : holds d f t ≡ is_in t ts =
          ap (λ o. has o t) (ap (λ x. lookup x d) (sym same) ∙ e) in
        rw h (is_in-add_test t u ts ∙ ap (λ b. u == t || b) (sym held))
  ]

  set_default-Distinct : Distinct d → Distinct (set_default g [] d)
  set_default-Distinct h = elim set_default-cases [
    | inl (_, _, e) ↦ subst Distinct (sym e) h
    | inr (_, e) ↦ subst Distinct (sym e) (insert-Distinct g [] d h)
  ]

-- The files and their first.
head-insert :
    (g : String) (d : Tests) (ts : List String) → head (insert g ts d) ≡ or_else (head d) (some g)
unfolding insert
head-insert g [] ts = refl
head-insert g ((f, us) ∷ d) ts = elim (Bool-cases (f == g)) [
  | inl e ↦ rw e refl
  | inr e ↦ rw e refl
]

head_present :
    (g : String) (d : Tests) (ts : List String) (x : Option String)
    → lookup g d ≡ some ts
    → or_else (head d) x ≡ head d
unfolding lookup
head_present g [] ts x e = absurd (ground (arith, e))
head_present g ((f, us) ∷ d) ts x e = refl

head-set_default : (g : String) (d : Tests) → head (set_default g [] d) ≡ or_else (head d) (some g)
head-set_default g d = elim (set_default-cases g d) [
  | inl (ts, h, e) ↦ ap head e ∙ sym (head_present g d ts (some g) h)
  | inr (_, e) ↦ ap head e ∙ head-insert g d []
]

or_else-none : (x : Option String) → or_else x none ≡ x
or_else-none none = refl
or_else-none (some x) = refl

-- The file that the loop is at has its tests in the dict.
abbrev pub At : Option String → Tests → Type 0
At none d = Unit
At (some g) d = (ts : List String) × (lookup g d ≡ some ts)

set_default-At : (g : String) (d : Tests) → At (some g) (set_default g [] d)
set_default-At g d = elim (set_default-cases g d) [
  | inl (ts, e, same) ↦ (ts, ap (lookup g) same ∙ e)
  | inr (_, new) ↦
      ([], ap (lookup g) new ∙ lookup-insert g g [] d ∙ rw ((text_key.same_iff g g).1 refl) refl)
]

pub record Scanned (lines : List PatchLine) (current : Option String) (d d' : Tests) : Type 0 where
  pub distinct : Distinct d'
  pub first : head d' ≡ or_else (head d) (first_file lines)
  pub tests : (f t : String) → holds d' f t ≡ holds d f t || adds_in lines current f t

pub scan_patch-Scanned :
    (lines : List PatchLine) (current : Option String) (d : Tests)
    → At current d
    → Distinct d
    → Scanned lines current d (scan_patch lines current d)
unfolding scan_patch
scan_patch-Scanned [] current d a h = record {
  distinct = h;
  first = sym (or_else-none (head d));
  tests = λ f t. ground arith;
}
scan_patch-Scanned (diff g ∷ lines) current d a h =
    let rest =
      scan_patch-Scanned lines (some g) (set_default g [] d) (set_default-At g d)
        (set_default-Distinct g d h) in
    record {
      distinct = rest.distinct;
      first =
          rest.first
          ∙ ap (λ x. or_else x (first_file lines)) (head-set_default g d)
          ∙ or_else_assoc (head d) (some g) (first_file lines);
      tests = λ f t.
          rest.tests f t ∙ ap (λ b. b || adds_in lines (some g) f t) (holds-set_default g d f t);
    }
scan_patch-Scanned (added none ∷ lines) current d a h =
    let rest = scan_patch-Scanned lines current d a h in
    record { distinct = rest.distinct; first = rest.first; tests = rest.tests }
scan_patch-Scanned (context ∷ lines) current d a h =
    let rest = scan_patch-Scanned lines current d a h in
    record { distinct = rest.distinct; first = rest.first; tests = rest.tests }
scan_patch-Scanned (added (some u) ∷ lines) none d a h =
    let rest = scan_patch-Scanned lines none d a h in
    record { distinct = rest.distinct; first = rest.first; tests = rest.tests }
scan_patch-Scanned (added (some u) ∷ lines) (some g) d (ts, e) h =
    let d' : Tests = insert g (add_test u ts) d in
    let at : At (some g) d' = (
      add_test u ts,
      lookup-insert g g (add_test u ts) d ∙ rw ((text_key.same_iff g g).1 refl) refl,
    ) in
    let rest = scan_patch-Scanned lines (some g) d' at (insert-Distinct g (add_test u ts) d h) in
    rw e (record {
      distinct = rest.distinct;
      first =
          rest.first
          ∙ ap (λ x. or_else x (first_file lines))
              (head-insert g d (add_test u ts) ∙ head_present g d ts (some g) e);
      tests = λ f t.
          rest.tests f t
          ∙ ap (λ b. b || adds_in lines (some g) f t) (holds-add g d ts u f t e)
          ∙ ground arith;
    })
