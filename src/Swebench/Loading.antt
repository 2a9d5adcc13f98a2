-- ===== src/Swebench/Loading.antt =====
-- swebench.py: the loop that loads instances against a filter and a cut.
use llm_rl_cpu_poc.Common.{
  ℕ, zero, suc, ◌+◌, ◌-◌, ◌<◌, ◌≡◌, refl, sym, ap, ◌∙◌, subst, max, String, true, false, Option,
  none, some, List, [], ◌∷◌, ◌++◌, length, length-append, map, keep, take, arith, Bool-cases, inl,
  inr, text_key,
}
use llm_rl_cpu_poc.Common.Result.{Result, ok, err}
use llm_rl_cpu_poc.Swebench.{
  SweInstance, Failure, no_instances, is_wanted, is_full, load_lines, load_instances, not_empty,
}
use mathlib.Core.List.{append-nil, append_assoc}

-- A line that is blank, or parses to an instance.
abbrev pub read : Option SweInstance → Option (Result Failure SweInstance)
read none = none
read (some inst) = some (ok inst)

abbrev pub instances_of : List (Option SweInstance) → List SweInstance
instances_of [] = []
instances_of (none ∷ rows) = instances_of rows
instances_of (some inst ∷ rows) = inst ∷ instances_of rows

-- What a limit leaves when `n` were taken before; a limit of zero still lets one through.
abbrev pub cut : Option ℕ → ℕ → List SweInstance → List SweInstance
cut none n xs = xs
cut (some limit) n xs = take (max limit 1 - n) xs

abbrev HasRoom : Option ℕ → ℕ → Type 0
HasRoom none n = Unit
HasRoom (some limit) n = n < max limit 1

abbrev pub unless_empty : List SweInstance → Result Failure (List SweInstance)
unless_empty [] = err no_instances
unless_empty (i ∷ is) = ok (i ∷ is)

cut-full :
    (limit : Option ℕ) (n : ℕ) (i : SweInstance) (xs : List SweInstance)
    → HasRoom limit n
    → is_full limit (n + 1) ≡ true
    → cut limit n (i ∷ xs) ≡ i ∷ []
cut-full none n i xs h e = absurd (ground (arith, e))
cut-full (some limit) n i xs h e =
    let one : max limit 1 - n ≡ 1 = ground (arith, h, e) in rw one refl

cut-open :
    (limit : Option ℕ) (n : ℕ) (i : SweInstance) (xs : List SweInstance)
    → HasRoom limit n
    → is_full limit (n + 1) ≡ false
    → HasRoom limit (n + 1) × (cut limit n (i ∷ xs) ≡ i ∷ cut limit (n + 1) xs)
cut-open none n i xs h e = (tt, refl)
cut-open (some limit) n i xs h e =
    let more : max limit 1 - n ≡ suc (max limit 1 - (n + 1)) = ground (arith, h, e) in
    (ground (arith, h, e), rw more refl)

abbrev take-nothing : (k : ℕ) → take {A = SweInstance} k [] ≡ []
take-nothing zero = refl
take-nothing (suc k) = refl

cut-nothing : (limit : Option ℕ) (n : ℕ) → cut limit n [] ≡ []
cut-nothing none n = refl
cut-nothing (some limit) n = take-nothing (max limit 1 - n)

more_by_one : (out : List SweInstance) (i : SweInstance) → length (out ++ (i ∷ [])) ≡ length out + 1
more_by_one out i = length-append out (i ∷ [])

at_start : (limit : Option ℕ) → HasRoom limit 0
at_start none = tt
at_start (some limit) = omega arith

not_empty-ok : (xs : List SweInstance) → not_empty (ok xs) ≡ unless_empty xs
not_empty-ok [] = refl
not_empty-ok (i ∷ is) = refl

module _ (repo : Option String) (limit : Option ℕ) where
  load_lines_ok :
      (rows : List (Option SweInstance)) (out : List SweInstance)
      → HasRoom limit (length out)
      → load_lines repo limit (map read rows) out
        ≡ ok (out ++ cut limit (length out) (keep (is_wanted repo) (instances_of rows)))
  unfolding load_lines
  load_lines_ok [] out h =
      ap ok (sym (ap (λ l. out ++ l) (cut-nothing limit (length out)) ∙ append-nil out))
  load_lines_ok (none ∷ rows) out h = load_lines_ok rows out h
  load_lines_ok (some i ∷ rows) out h = elim (Bool-cases (is_wanted repo i)) [
    | inr e ↦ rw e (load_lines_ok rows out h)
    | inl e ↦
        let rest : List SweInstance = keep (is_wanted repo) (instances_of rows) in
        elim (Bool-cases (is_full limit (length (out ++ (i ∷ []))))) [
          | inl f ↦
              let full : cut limit (length out) (i ∷ rest) ≡ i ∷ [] =
                cut-full limit (length out) i rest h
                  (ap (is_full limit) (sym (more_by_one out i)) ∙ f) in
              rw (e, f, full) refl
          | inr f ↦
              let open_ =
                cut-open limit (length out) i rest h
                  (ap (is_full limit) (sym (more_by_one out i)) ∙ f) in
              let room : HasRoom limit (length (out ++ (i ∷ []))) =
                subst (HasRoom limit) (sym (more_by_one out i)) open_.0 in
              let cut_more : cut limit (length out) (i ∷ rest)
                  ≡ i ∷ cut limit (length (out ++ (i ∷ []))) rest =
                open_.1 ∙ ap (λ n. i ∷ cut limit n rest) (sym (more_by_one out i)) in
              rw (e, f, cut_more)
                (load_lines_ok rows (out ++ (i ∷ [])) room
                  ∙ ap ok (append_assoc out (i ∷ []) (cut limit (length (out ++ (i ∷ []))) rest)))
        ]
  ]

  -- Loading lines that are blank or parse keeps the wanted instances in order, the first `limit` of
  -- them where there is a limit, but one where the limit is zero; where none is left it fails.
  pub load_instances_lem :
      (rows : List (Option SweInstance))
      → load_instances repo limit (map read rows)
        ≡ unless_empty (cut limit 0 (keep (is_wanted repo) (instances_of rows)))
  unfolding load_instances
  load_instances_lem rows =
      ap not_empty (load_lines_ok rows [] (at_start limit))
      ∙ not_empty-ok (cut limit 0 (keep (is_wanted repo) (instances_of rows)))
