-- ===== src/Bake/Fetch.antt =====
-- bake_swe_env.py: the pages together are the dataset.
use llm_rl_cpu_poc.Common.{
  ℕ, zero, suc, ◌+◌, ◌*◌, ◌≤◌, ◌≡◌, refl, sym, ap, ◌∙◌, String, false, Option, none, some, List, [],
  ◌∷◌, ◌++◌, map, length, ltb, take, drop, arith, Bool-cases, inl, inr,
}
use llm_rl_cpu_poc.Bake.{
  Page, Instance, present, rows_to_instances, has_more, fetch_rows, select_subset, step_fetch,
}
use mathlib.Core.Option

module _ {R : Type 0} where
  -- A server with the dataset `xs`: a page is the next 100 rows, and every page tells the total.
  abbrev pub serve : List R → ℕ → Page R
  serve xs offset = record {
    rows = some (map some (take 100 (drop offset xs)));
    num_rows_total = some (length xs);
  }

  present-map : (xs : List R) → present (map some xs) ≡ xs
  unfolding present
  present-map [] = refl
  present-map (x ∷ xs) = ap (λ l. x ∷ l) (present-map xs)

  take-nil : (n : ℕ) → take {A = R} n [] ≡ []
  take-nil zero = refl
  take-nil (suc n) = refl

  take-add : (m n : ℕ) (xs : List R) → take (m + n) xs ≡ take m xs ++ take n (drop m xs)
  take-add zero n xs = let same : 0 + n ≡ n = omega arith in ap (λ k. take k xs) same
  take-add (suc m) n [] = take-nil (suc m + n) ∙ sym (take-nil n)
  take-add (suc m) n (x ∷ xs) =
      let same : suc m + n ≡ suc (m + n) = omega arith in
      ap (λ k. take k (x ∷ xs)) same ∙ ap (λ l. x ∷ l) (take-add m n xs)

  take-all : (n : ℕ) (xs : List R) → length xs ≤ n → take n xs ≡ xs
  take-all n [] h = take-nil n
  take-all zero (x ∷ xs) h = absurd (omega (arith, h))
  take-all (suc n) (x ∷ xs) h = ap (λ l. x ∷ l) (take-all n xs (omega (arith, h)))

  next_page :
      (xs : List R) (offset : ℕ)
      → take offset xs ++ rows_to_instances (serve xs offset) ≡ take (offset + 100) xs
  unfolding rows_to_instances
  next_page xs offset =
      ap (λ l. take offset xs ++ l) (present-map (take 100 (drop offset xs)))
      ∙ sym (take-add offset 100 xs)

  fetch_rows-serve :
      (xs : List R) (fuel offset : ℕ)
      → length xs ≤ offset + 100 * fuel
      → fetch_rows (serve xs) fuel (some (length xs)) offset (take offset xs) ≡ some xs
  unfolding fetch_rows has_more
  fetch_rows-serve xs zero offset h =
      let over : ltb offset (length xs) ≡ false = ground (arith, h) in
      rw over (ap some (take-all offset xs (omega (arith, h))))
  fetch_rows-serve xs (suc fuel) offset h = elim (Bool-cases (ltb offset (length xs))) [
    | inr over ↦ rw over (ap some (take-all offset xs (ground (arith, over))))
    | inl e ↦
        rw (e, next_page xs offset) (fetch_rows-serve xs fuel (offset + 100) (omega (arith, h)))
  ]

  -- With fuel for as many requests as it takes pages of 100 to hold the dataset, one at least.
  fetch_rows_all :
      (xs : List R) (fuel : ℕ)
      → length xs ≤ 100 * suc fuel
      → fetch_rows (serve xs) (suc fuel) none 0 [] ≡ some xs
  unfolding fetch_rows has_more rows_to_instances
  fetch_rows_all xs fuel h =
      ap (λ l. fetch_rows (serve xs) fuel (some (length xs)) 100 l) (present-map (take 100 xs))
      ∙ fetch_rows-serve xs fuel 100 (omega (arith, h))

-- Against a server that gives a dataset in pages of 100 rows and tells its size, the paging ends
-- within as many requests as the pages it takes, one at least, and the subset that is written is the
-- one selected from the whole dataset.
pub step_fetch-serve :
    (sort : List Instance → List Instance) (xs : List Instance) (fuel : ℕ) (repo : String)
    (limit : Option ℕ) (min_version : Option (List (Option ℕ)))
    → length xs ≤ 100 * suc fuel
    → step_fetch sort (serve xs) (suc fuel) repo limit min_version
      ≡ some (select_subset sort repo limit min_version xs)
unfolding step_fetch
step_fetch-serve sort xs fuel repo limit min_version h =
    ap (Option.map (select_subset sort repo limit min_version)) (fetch_rows_all xs fuel h)
