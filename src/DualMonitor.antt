-- ===== src/DualMonitor.antt =====
-- rl_sim/dual_monitor.py: the rows of the two nodes on one timeline, their report, and the thread that
-- samples them. What each tick reads is a parameter.
pub mod Timeline
mod Tests
use llm_rl_cpu_poc.Common.{
  ℕ, ◌+◌, ltb, String, Bool, true, false, Option, none, some, List, [], ◌∷◌, ◌++◌, length,
  if◌then◌else◌,
}
use llm_rl_cpu_poc.Common.Float.{Float}
use llm_rl_cpu_poc.Common.Result.{Result, ok, err}
use mathlib.Core.Option
use llm_rl_cpu_poc.Sandboxd.{Stats}
use llm_rl_cpu_poc.Sandboxd.Get.{SysStats}

pub record TimelineRow (F : Type 0) : Type 0 where
  pub ts : F
  pub node1_sys : SysStats F
  pub node2_sys : Option (SysStats F)
  pub node2_sandbox : Option Stats
  pub node2_error : Option String

-- What one tick reads: the time, this node's load, and the two pulls from the other node, each of
-- which may raise an exception with its text. The second is only made behind the first.
pub record Reading (F : Type 0) : Type 0 where
  pub time : F
  pub local : SysStats F
  pub pull_sys : Result String (SysStats F)
  pub pull_stats : Result String Stats

-- `_thread` is whether a thread is kept, `_stop` the event. `sampling` is the row that the thread is
-- making, if it is inside `sample_once`: a stop waits for it for five seconds and then goes on.
pub record DualMonitor (F : Type 0) : Type 0 where
  pub rows : List (TimelineRow F)
  pub stop_set : Bool
  pub thread : Bool
  pub sampling : Option (TimelineRow F)

abbrev pub new_monitor : {F : Type 0} → DualMonitor F
new_monitor = record { rows = []; stop_set = false; thread = false; sampling = none }

-- What happens to a monitor: the two methods, and a round of its thread's loop, which begins where
-- the event is tested and ends where the row is appended.
pub data Happening (F : Type 0) : Type 0 where
  start_call stop_call : Happening F
  begin_round : Reading F → Happening F
  end_round : Happening F

module _ {F : Type 0} where
  unfoldable pub row_of : Reading F → TimelineRow F
  row_of r = elim r.pull_sys [
    | err why ↦ record {
      ts = r.time;
      node1_sys = r.local;
      node2_sys = none;
      node2_sandbox = none;
      node2_error = some why;
    }
    | ok sys ↦ elim r.pull_stats [
      | err why ↦ record {
        ts = r.time;
        node1_sys = r.local;
        node2_sys = some sys;
        node2_sandbox = none;
        node2_error = some why;
      }
      | ok st ↦ record {
        ts = r.time;
        node1_sys = r.local;
        node2_sys = some sys;
        node2_sandbox = some st;
        node2_error = none;
      }
    ]
  ]

  -- No round begins once the event is set, without a thread, or inside another round.
  unfoldable pub happen : Happening F → DualMonitor F → DualMonitor F
  unfolding row_of
  happen start_call m = if m.thread then m else record m { thread = true }
  happen stop_call m = record m { stop_set = true; thread = false }
  happen (begin_round r) m = elim m.sampling [
    | some _ ↦ m
    | none ↦
        if m.stop_set then m else if m.thread then record m { sampling = some (row_of r) } else m
  ]
  happen end_round m = elim m.sampling [
    | none ↦ m
    | some row ↦ record m { rows = m.rows ++ (row ∷ []); sampling = none }
  ]

  unfoldable pub happen_all : List (Happening F) → DualMonitor F → DualMonitor F
  unfolding happen
  happen_all [] m = m
  happen_all (h ∷ hs) m = happen_all hs (happen h m)

-- `[r["node1_sys"]["cpu_busy_pct"] for r in rows]` and the two lists of the other node.
module _ {F : Type 0} where
  abbrev pub node1_busy : List (TimelineRow F) → List F
  node1_busy [] = []
  node1_busy (r ∷ rs) = r.node1_sys.cpu_busy_pct ∷ node1_busy rs

  abbrev pub node2_busy : List (TimelineRow F) → List F
  node2_busy [] = []
  node2_busy (r ∷ rs) = elim r.node2_sys [
    | none ↦ node2_busy rs
    | some s ↦ s.cpu_busy_pct ∷ node2_busy rs
  ]

  abbrev pub sandbox_stats : List (TimelineRow F) → List Stats
  sandbox_stats [] = []
  sandbox_stats (r ∷ rs) = elim r.node2_sandbox [
    | none ↦ sandbox_stats rs
    | some s ↦ s ∷ sandbox_stats rs
  ]

  abbrev pub count_errors : List (TimelineRow F) → ℕ
  count_errors [] = 0
  count_errors (r ∷ rs) = elim r.node2_error [
    | none ↦ count_errors rs
    | some _ ↦ count_errors rs + 1
  ]

-- `sb[-1]`, and `max` of the active sandboxes, none for no statistics.
unfoldable pub last_stats : List Stats → Option Stats
last_stats [] = none
last_stats (s ∷ []) = some s
last_stats (s ∷ t ∷ ss) = last_stats (t ∷ ss)

unfoldable pub peak_active : List Stats → Option ℕ
peak_active [] = none
peak_active (s ∷ ss) = elim (peak_active ss) [
  | none ↦ some s.active_sandboxes
  | some n ↦ some (if ltb s.active_sandboxes n then n else s.active_sandboxes)
]

pub record Report (F : Type 0) : Type 0 where
  pub samples : ℕ
  pub node1_mean : Option F
  pub node1_peak : Option F
  pub node2_mean : Option F
  pub node2_peak : Option F
  pub sandbox_peak_active : Option ℕ
  pub exec_total : Option ℕ
  pub rejected_total : Option ℕ
  pub unreachable_samples : ℕ

module _ (fl : Float) where
  open fl use {F}

  unfoldable pub sum_busy : F → List F → F
  sum_busy acc [] = acc
  sum_busy acc (x ∷ xs) = sum_busy (fl.add acc x) xs

  unfoldable pub mean_of : List F → Option F
  unfolding sum_busy
  mean_of [] = none
  mean_of (x ∷ xs) = some (fl.div (sum_busy fl.zero (x ∷ xs)) (fl.of_nat (length (x ∷ xs))))

  unfoldable pub peak_from : F → List F → F
  peak_from best [] = best
  peak_from best (x ∷ xs) = peak_from (if fl.lt best x then x else best) xs

  unfoldable pub peak_of : List F → Option F
  unfolding peak_from
  peak_of [] = none
  peak_of (x ∷ xs) = some (peak_from x xs)

  unfoldable pub report : DualMonitor F → Report F
  unfolding mean_of peak_of last_stats peak_active
  report m =
      let sb = sandbox_stats m.rows in
      record {
        samples = length m.rows;
        node1_mean = mean_of (node1_busy m.rows);
        node1_peak = peak_of (node1_busy m.rows);
        node2_mean = mean_of (node2_busy m.rows);
        node2_peak = peak_of (node2_busy m.rows);
        sandbox_peak_active = peak_active sb;
        exec_total = Option.map (λ (s : Stats). s.execs) (last_stats sb);
        rejected_total = Option.map (λ (s : Stats). s.rejected) (last_stats sb);
        unreachable_samples = count_errors m.rows;
      }
