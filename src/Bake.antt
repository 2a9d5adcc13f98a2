-- ===== src/Bake.antt =====
-- tools/bake_swe_env.py: the rows of the dataset, page by page, and the subset that is kept. HTTP,
-- sorting and the parts of a version text are parameters.
pub mod Fetch
pub mod Steps
mod Tests
use llm_rl_cpu_poc.Common.{
  ℕ, zero, suc, ◌+◌, ltb, String, Bool, true, false, Option, none, some, List, [], ◌∷◌, ◌++◌, keep,
  take, ◌==◌, text_key, number_key, if◌then◌else◌,
}
use llm_rl_cpu_poc.Common.Result.{Result, ok, err}
use mathlib.Core.Option

-- A page of the dataset's API; an entry of `rows` is none where it has no key `row`.
pub record Page (R : Type 0) : Type 0 where
  pub rows : Option (List (Option R))
  pub num_rows_total : Option ℕ

unfoldable pub present : {R : Type 0} → List (Option R) → List R
present [] = []
present (none ∷ rs) = present rs
present (some r ∷ rs) = r ∷ present rs

unfoldable pub rows_to_instances : {R : Type 0} → Page R → List R
unfolding present
rows_to_instances payload = present (Option.get_or payload.rows [])

-- The parts of a version between its dots: its number, none for a part that is no digits.
unfoldable pub parse_version : List (Option ℕ) → List ℕ
unfolding present
parse_version parts = elim (present (take 2 parts)) [ [] ↦ 0 ∷ [] | p ∷ ps ↦ p ∷ ps ]

-- `>=` on tuples of numbers.
unfoldable pub at_least : List ℕ → List ℕ → Bool
at_least xs [] = true
at_least [] (y ∷ ys) = false
at_least (x ∷ xs) (y ∷ ys) =
    let rest = at_least xs ys in if ltb y x then true else (if x == y then rest else false)

pub record Instance : Type 0 where
  pub instance_id : Option String
  pub repo : Option String
  pub version : Option (List (Option ℕ))

pub data Refusal : Type 0 where
  no_instances : Refusal

-- `version` defaults to the text "0", with the one part 0.
unfoldable pub is_recent : Option (List (Option ℕ)) → Instance → Bool
unfolding parse_version at_least
is_recent none r = true
is_recent (some floor) r =
    at_least (parse_version (Option.get_or r.version (some 0 ∷ []))) (parse_version floor)

unfoldable pub is_of : String → Instance → Bool
is_of repo r = elim r.repo [ none ↦ false | some name ↦ name == repo ]

-- `sort` orders by the text of `instance_id`.
unfoldable pub select_subset :
    (List Instance → List Instance)
    → String
    → Option ℕ
    → Option (List (Option ℕ))
    → List Instance
    → Result Refusal (List Instance)
unfolding is_recent is_of
select_subset sort repo limit min_version instances =
    let sorted = sort (keep (is_recent min_version) (keep (is_of repo) instances)) in
    let cut : List Instance = elim limit [ none ↦ sorted | some n ↦ take n sorted ] in
    elim cut [ [] ↦ err no_instances | r ∷ rs ↦ ok (r ∷ rs) ]

-- `total is None or offset < total`.
unfoldable pub has_more : Option ℕ → ℕ → Bool
has_more none offset = true
has_more (some total) offset = ltb offset total

-- The loop over the pages of 100 rows, with the fuel for as many requests; none is that it ran out.
unfoldable pub fetch_rows :
    {R : Type 0} → (ℕ → Page R) → ℕ → Option ℕ → ℕ → List R → Option (List R)
unfolding rows_to_instances has_more
fetch_rows get zero total offset rows = if has_more total offset then none else some rows
fetch_rows get (suc fuel) total offset rows =
    let rest =
      fetch_rows get fuel (some (Option.get_or (get offset).num_rows_total 0)) (offset + 100)
        (rows ++ rows_to_instances (get offset)) in
    if has_more total offset then rest else some rows

-- The subset that is written to the file.
unfoldable pub step_fetch :
    (List Instance → List Instance)
    → (ℕ → Page Instance)
    → ℕ
    → String
    → Option ℕ
    → Option (List (Option ℕ))
    → Option (Result Refusal (List Instance))
unfolding fetch_rows select_subset
step_fetch sort get fuel repo limit min_version =
    Option.map (select_subset sort repo limit min_version) (fetch_rows get fuel none 0 [])
