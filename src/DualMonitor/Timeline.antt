-- ===== src/DualMonitor/Timeline.antt =====
-- dual_monitor.py: what the report says of the rows, and what a stop does to later starts.
use llm_rl_cpu_poc.Common.{
  ℕ, ◌+◌, ◌≡◌, refl, sym, ◌∙◌, true, false, Option, none, some, List, [], ◌∷◌, ◌++◌, length, arith,
  Option-cases, ◌⊎◌, inl, inr,
}
use mathlib.Core.List.{append-nil, append_assoc}
use mathlib.Core.Option
use llm_rl_cpu_poc.Common.Float.{Float}
use llm_rl_cpu_poc.Common.Result.{ok, err, Result-cases}
use llm_rl_cpu_poc.Sandboxd.{Stats}
use llm_rl_cpu_poc.DualMonitor.{
  TimelineRow, Reading, DualMonitor, new_monitor, Happening, start_call, stop_call, begin_round,
  end_round, row_of, happen, happen_all, sandbox_stats, last_stats, count_errors, report,
}

-- The event is set, and the rows are the given ones, or those with the row that was being made.
abbrev IsStopped :
    {F : Type 0} → List (TimelineRow F) → Option (TimelineRow F) → DualMonitor F → Type 0
IsStopped rows none m = (m.stop_set ≡ true) × (m.rows ≡ rows) × (m.sampling ≡ none)
IsStopped rows (some row) m =
    (m.stop_set ≡ true)
    × (((m.rows ≡ rows) × (m.sampling ≡ some row))
        ⊎ ((m.rows ≡ rows ++ (row ∷ [])) × (m.sampling ≡ none)))

happen-IsStopped :
    {F : Type 0} (rows : List (TimelineRow F)) (sampling : Option (TimelineRow F)) (h : Happening F)
    (m : DualMonitor F)
    → IsStopped rows sampling m
    → IsStopped rows sampling (happen h m)
unfolding happen
happen-IsStopped rows none start_call m v = ground arith
happen-IsStopped rows none stop_call m v = ground arith
happen-IsStopped rows none (begin_round r) m v = ground arith
happen-IsStopped rows none end_round m v = ground arith
happen-IsStopped rows (some row) start_call m v = ground arith
happen-IsStopped rows (some row) stop_call m v = ground arith
happen-IsStopped rows (some row) (begin_round r) m v = ground arith
happen-IsStopped rows (some row) end_round m v = ground arith

happen_all-IsStopped :
    {F : Type 0} (rows : List (TimelineRow F)) (sampling : Option (TimelineRow F))
    (hs : List (Happening F)) (m : DualMonitor F)
    → IsStopped rows sampling m
    → IsStopped rows sampling (happen_all hs m)
unfolding happen_all
happen_all-IsStopped rows sampling [] m v = v
happen_all-IsStopped rows sampling (h ∷ hs) m v =
    happen_all-IsStopped rows sampling hs (happen h m) (happen-IsStopped rows sampling h m v)

-- A monitor that is stopped adds no further row, however often it is started later, but for the one
-- row that its thread was making at the stop.
pub stop_is_final :
    {F : Type 0} (hs : List (Happening F)) (m : DualMonitor F)
    → let m' = happen_all (stop_call ∷ hs) m in
      (m'.rows ≡ m.rows)
      ⊎ ((row : TimelineRow F) × (m.sampling ≡ some row) × (m'.rows ≡ m.rows ++ (row ∷ [])))
unfolding happen_all happen
stop_is_final hs m = elim (Option-cases m.sampling) [
  | inl e ↦ inl (happen_all-IsStopped m.rows none hs (happen stop_call m) (refl, refl, e)).1
  | inr (row, e) ↦
      elim (happen_all-IsStopped m.rows (some row) hs (happen stop_call m)
        (refl, inl (refl, e))).1 [ inl q ↦ inl q.0 | inr q ↦ inr (row, e, q.0) ]
]

-- A tick of a reading whose pulls both succeed, and one of a reading where a pull fails.
abbrev pub failures : {F : Type 0} → List (Reading F) → ℕ
failures [] = 0
failures (r ∷ rs) = elim r.pull_sys [
  | err _ ↦ failures rs + 1
  | ok _ ↦ elim r.pull_stats [ err _ ↦ failures rs + 1 | ok _ ↦ failures rs ]
]

abbrev pub rounds : {F : Type 0} → List (Reading F) → List (Happening F)
rounds [] = []
rounds (r ∷ rs) = begin_round r ∷ end_round ∷ rounds rs

abbrev pub rows_of : {F : Type 0} → List (Reading F) → List (TimelineRow F)
rows_of [] = []
rows_of (r ∷ rs) = row_of r ∷ rows_of rs

rounds-rows :
    {F : Type 0} (rs : List (Reading F)) (rows : List (TimelineRow F))
    → (happen_all
        (rounds rs)
        (record { rows = rows; stop_set = false; thread = true; sampling = none })).rows
      ≡ rows ++ rows_of rs
unfolding happen_all happen
rounds-rows [] rows = sym (append-nil rows)
rounds-rows (r ∷ rs) rows =
    rounds-rows rs (rows ++ (row_of r ∷ [])) ∙ append_assoc rows (row_of r ∷ []) (rows_of rs)

count_errors-rows_of :
    {F : Type 0} (rs : List (Reading F)) → count_errors (rows_of rs) ≡ failures rs
unfolding row_of
count_errors-rows_of [] = refl
count_errors-rows_of (r ∷ rs) = ground (arith, count_errors-rows_of rs)

length-rows_of : {F : Type 0} (rs : List (Reading F)) → length (rows_of rs) ≡ length rs
length-rows_of [] = refl
length-rows_of (r ∷ rs) = omega (arith, length-rows_of rs)

length-sandbox_stats :
    {F : Type 0} (rs : List (Reading F))
    → length (sandbox_stats (rows_of rs)) + failures rs ≡ length rs
unfolding row_of
length-sandbox_stats [] = refl
length-sandbox_stats (r ∷ rs) = ground (arith, length-sandbox_stats rs)

-- The statistics of the last reading whose pulls both succeed, or else the given ones.
abbrev pub last_served : {F : Type 0} → Option Stats → List (Reading F) → Option Stats
last_served acc [] = acc
last_served acc (r ∷ rs) =
    last_served
      (elim r.pull_sys [ err _ ↦ acc | ok _ ↦ elim r.pull_stats [ err _ ↦ acc | ok st ↦ some st ] ])
      rs

abbrev or_else : Option Stats → Option Stats → Option Stats
or_else none acc = acc
or_else (some s) acc = some s

last_stats_cons :
    (s : Stats) (ss : List Stats) (acc : Option Stats)
    → or_else (last_stats (s ∷ ss)) acc ≡ or_else (last_stats ss) (some s)
unfolding last_stats
last_stats_cons s [] acc = refl
last_stats_cons s (t ∷ ss) acc = last_stats_cons t ss acc ∙ sym (last_stats_cons t ss (some s))

last_served-last_stats :
    {F : Type 0} (acc : Option Stats) (rs : List (Reading F))
    → last_served acc rs ≡ or_else (last_stats (sandbox_stats (rows_of rs))) acc
unfolding row_of last_stats
last_served-last_stats acc [] = refl
last_served-last_stats acc (r ∷ rs) = elim (Result-cases r.pull_sys) [
  | inr (why, e) ↦ ground (arith, e, last_served-last_stats acc rs)
  | inl (sys, e) ↦ elim (Result-cases r.pull_stats) [
    | inr (why, q) ↦ ground (arith, e, q, last_served-last_stats acc rs)
    | inl (st, q) ↦ ground (
      arith,
      e,
      q,
      last_served-last_stats (some st) rs,
      last_stats_cons st (sandbox_stats (rows_of rs)) acc,
    )
  ]
]

or_else-none : (o : Option Stats) → or_else o none ≡ o
or_else-none none = refl
or_else-none (some s) = refl

module _ (fl : Float) where
  open fl use {F}

  -- A monitor that was started samples one row in each round of its thread. The report counts
  -- the rounds, and as unreachable those in which a pull failed; the totals are those of
  -- the last round in which none did.
  pub report_lem :
      (rs : List (Reading F))
      → let rep = report fl (happen_all (start_call ∷ rounds rs) new_monitor) in
        (rep.samples ≡ length rs)
        × (rep.unreachable_samples ≡ failures rs)
        × (rep.exec_total ≡ Option.map (λ (s : Stats). s.execs) (last_served none rs))
        × (rep.rejected_total ≡ Option.map (λ (s : Stats). s.rejected) (last_served none rs))
  unfolding report happen_all happen
  report_lem rs =
      let rows = rounds-rows rs [] in
      let last =
        last_served-last_stats none rs ∙ or_else-none (last_stats (sandbox_stats (rows_of rs))) in
      rw (rows, last) (length-rows_of rs, count_errors-rows_of rs, refl, refl)
