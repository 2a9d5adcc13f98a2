-- ===== src/Sandboxd/Get.antt =====
-- sandboxd.py: the GET paths of the HTTP front, and the load of the node that one of them reports.
use llm_rl_cpu_poc.Common.{
  ℕ, String, Bool, Option, none, some, List, [], ◌∷◌, ◌==◌, text_key, if◌then◌else◌,
}
use llm_rl_cpu_poc.Common.Dict.{Dict, lookup, insert}
use llm_rl_cpu_poc.Common.Float.{Float}
use llm_rl_cpu_poc.Common.Result.{ok, err}
use llm_rl_cpu_poc.Sandboxd.{SandboxRegistry, Stats, stats}
use llm_rl_cpu_poc.Sandboxd.Trajectories.{State, Workers, trajectory_status}
use mathlib.Core.Option

-- What `read_sys_stats` returns.
pub record SysStats (F : Type 0) : Type 0 where
  pub ts : F
  pub cpu_busy_pct : F
  pub load1 : F
  pub mem_total_mb : F
  pub mem_used_mb : F

-- What it reads: the numbers of the first line of /proc/stat, before and after the sleep; the keys
-- of /proc/meminfo with their numbers; the load and the time.
pub record Proc (F : Type 0) : Type 0 where
  pub before : List F
  pub after : List F
  pub meminfo : List (String × F)
  pub loadavg : F
  pub time : F

module _ (fl : Float) where
  open fl use {F}

  unfoldable pub sum_of : F → List F → F
  sum_of acc [] = acc
  sum_of acc (x ∷ xs) = sum_of (fl.add acc x) xs

  -- The busy and the total times; none is an IndexError.
  unfoldable pub read_cpu_times : List F → Option (F × F)
  unfolding sum_of
  read_cpu_times (u ∷ n ∷ s ∷ idle ∷ iowait ∷ rest) =
      let total = sum_of fl.zero (u ∷ n ∷ s ∷ idle ∷ iowait ∷ rest) in
      some (fl.sub total (fl.add idle iowait), total)
  read_cpu_times _ = none

  -- `mem`, over the lines of the file.
  unfoldable pub read_mem : List (String × F) → Dict String F → Dict String F
  unfolding insert
  read_mem [] mem = mem
  read_mem ((k, kb) ∷ rest) mem = read_mem rest (
      if k == "MemTotal"
      then insert k (fl.div kb (fl.of_nat 1024)) mem
      else if k == "MemAvailable"
      then insert k (fl.div kb (fl.of_nat 1024)) mem
      else mem)

  -- `max(1.0, x)`.
  abbrev pub at_least_one : F → F
  at_least_one x = if fl.lt fl.one x then x else fl.one

  unfoldable pub read_sys_stats : Proc F → Option (SysStats F)
  unfolding read_cpu_times read_mem lookup
  read_sys_stats p = elim (read_cpu_times p.before) [
    | none ↦ none
    | some (b₀, t₀) ↦ elim (read_cpu_times p.after) [
      | none ↦ none
      | some (b₁, t₁) ↦
          let mem = read_mem p.meminfo [] in
          let total = Option.get_or (lookup "MemTotal" mem) fl.zero in
          some (record {
            ts = p.time;
            cpu_busy_pct =
                fl.div (fl.mul (fl.of_nat 100) (fl.sub b₁ b₀)) (at_least_one (fl.sub t₁ t₀));
            load1 = p.loadavg;
            mem_total_mb = total;
            mem_used_mb = fl.sub total (Option.get_or (lookup "MemAvailable" mem) fl.zero);
          })
    ]
  ]

-- The paths of a GET. A path that starts with `/trajectory/` and ends with `/status` is given by the
-- parts between the slashes: the first behind `trajectory`, and those that follow before `status`.
pub data Get : Type 0 where
  healthz stats_page sysstats : Get
  trajectory_page : String → List String → Get
  elsewhere : Get

-- What a GET answers. An exception that is not caught ends the exchange without an answer.
pub data GetAnswer (F J : Type 0) : Type 0 where
  healthy_page : GetAnswer F J
  stats_answer : Stats → GetAnswer F J
  sys_answer : SysStats F → GetAnswer F J
  status_answer : State J × ℕ × ℕ → GetAnswer F J
  unknown_trajectory : String → GetAnswer F J
  not_found : GetAnswer F J
  no_answer : GetAnswer F J

-- None where there is no answer.
unfoldable pub page_code : {F J : Type 0} → GetAnswer F J → Option ℕ
page_code (unknown_trajectory id) = some 404
page_code not_found = some 404
page_code no_answer = none
page_code _ = some 200

module _ (fl : Float) {J : Type 0} (w : Workers J) where
  unfoldable pub do_get : (ℕ → Bool) → Proc fl.F → ℕ → Get → SandboxRegistry → GetAnswer fl.F J
  unfolding stats read_sys_stats trajectory_status
  do_get polls_none proc now healthz r = healthy_page
  do_get polls_none proc now stats_page r = stats_answer (stats polls_none r)
  do_get polls_none proc now sysstats r = elim (read_sys_stats fl proc) [
    | none ↦ no_answer
    | some st ↦ sys_answer st
  ]
  do_get polls_none proc now (trajectory_page id further) r = elim (trajectory_status w id now r) [
    | ok none ↦ no_answer
    | ok (some status) ↦ status_answer status
    | err _ ↦ unknown_trajectory id
  ]
  do_get polls_none proc now elsewhere r = not_found
