-- ===== src/Engine/Local/Servers.antt =====
-- engine_local.py: LlamaServerManager. A process is what the parameters say of its handle `H`.
use llm_rl_cpu_poc.Common.{
  ℕ, zero, suc, ◌+◌, ltb, String, Bool, true, false, Option, none, some, List, [], ◌∷◌, ◌++◌, map,
  ◌==◌, text_key, if◌then◌else◌,
}
use llm_rl_cpu_poc.Common.Dict.{Dict, lookup, insert, erase}
use llm_rl_cpu_poc.Common.Int.{ℤ}
use llm_rl_cpu_poc.Common.Result.{Result, ok, err, ◌>>=◌}
use Prim.Native.String.{◌++◌ as str_append}

pub record InstanceSpec : Type 0 where
  pub name : String
  pub port : ℕ
  pub cores : String
  pub slots : ℕ
  pub model : String
  pub mmproj : String
  pub extra : List String

pub record Manager (H : Type 0) : Type 0 where
  pub binary : String
  pub specs : Dict String InstanceSpec
  pub procs : Dict String H
  pub log_files : Dict String String

-- `{s.name: s for s in specs}`.
unfoldable pub by_name : List InstanceSpec → Dict String InstanceSpec → Dict String InstanceSpec
unfolding insert
by_name [] d = d
by_name (s ∷ specs) d = by_name specs (insert s.name s d)

unfoldable pub new_manager : {H : Type 0} → String → List InstanceSpec → Manager H
unfolding by_name
new_manager binary specs = record {
  binary = binary;
  specs = by_name specs [];
  procs = [];
  log_files = [];
}

module _ (text_of : ℕ → String) where
  unfoldable pub server_cmd : String → InstanceSpec → List String
  server_cmd binary spec =
      (if spec.cores == "" then [] else "taskset" ∷ "-c" ∷ spec.cores ∷ [])
      ++ (binary
          ∷ "--model"
          ∷ spec.model
          ∷ "--port"
          ∷ text_of spec.port
          ∷ "--parallel"
          ∷ text_of spec.slots
          ∷ "--jinja"
          ∷ "--log-disable"
          ∷ [])
      ++ (if spec.mmproj == "" then [] else "--mmproj" ∷ spec.mmproj ∷ [])
      ++ spec.extra

  unfoldable pub url_of : ℕ → String
  url_of port = str_append "http://127.0.0.1:" (text_of port)

  unfoldable pub urls : {H : Type 0} → Manager H → Dict String String
  unfolding url_of
  urls m = map (λ (e : String × InstanceSpec). (e.0, url_of e.1.port)) m.specs

pub data StartError : Type 0 where
  unknown : String → StartError
  not_spawned : String → StartError

module _ {H : Type 0} (text_of : ℕ → String) (spawn : List String → Result String H) where
  unfoldable pub start : String → Manager H → Result StartError (Manager H)
  unfolding server_cmd lookup insert
  start name m = elim (lookup name m.specs) [
    | none ↦ err (unknown name)
    | some spec ↦ elim (spawn (server_cmd text_of m.binary spec)) [
      | err e ↦ err (not_spawned e)
      | ok h ↦ ok (record m {
        procs = insert name h m.procs;
        log_files = insert name (str_append name ".log") m.log_files;
      })
    ]
  ]

  unfoldable pub start_each : List String → Manager H → Result StartError (Manager H)
  unfolding start
  start_each [] m = ok m
  start_each (name ∷ names) m = start name m >>= (λ m'. start_each names m')

-- What stopping does to a process and a log.
pub data Effect (H : Type 0) : Type 0 where
  terminate kill : H → Effect H
  close : String → Effect H

module _ {H : Type 0} (is_alive : H → Bool) (ends_in_time : H → Bool) where
  unfoldable pub stop : String → Manager H → Manager H × List (Effect H)
  unfolding lookup erase
  stop name m = (
    record m { procs = erase name m.procs; log_files = erase name m.log_files },
    (elim (lookup name m.procs) [
      | none ↦ []
      | some h ↦
          if is_alive h then terminate h ∷ (if ends_in_time h then [] else kill h ∷ []) else []
    ])
        ++ (elim (lookup name m.log_files) [ none ↦ [] | some log ↦ close log ∷ [] ]),
  )

  unfoldable pub stop_each : List String → Manager H → Manager H × List (Effect H)
  unfolding stop
  stop_each [] m = (m, [])
  stop_each (name ∷ names) m =
      let (m₁, fx) = stop name m in let (m₂, more) = stop_each names m₁ in (m₂, fx ++ more)

  unfoldable pub stop_servers : Manager H → Manager H × List (Effect H)
  unfolding stop_each
  stop_servers m = stop_each (map (λ (e : String × H). e.0) m.procs) m

  unfoldable pub restart :
      (ℕ → String)
      → (List String → Result String H)
      → String
      → Manager H
      → Result StartError (Manager H) × List (Effect H)
  unfolding stop start
  restart text_of spawn name m = let (m', fx) = stop name m in (start text_of spawn name m', fx)

-- The names that stay pending, with one more where it is not healthy.
abbrev pub keep_pending :
    Bool → String → Result (String × ℤ) (List String) → Result (String × ℤ) (List String)
keep_pending healthy name (err e) = err e
keep_pending true name (ok left) = ok left
keep_pending false name (ok left) = ok (name ∷ left)

-- A round of `wait_healthy` over the names that are pending: `exited` is the code of a process that
-- has ended, `health` the answer of its port. It gives the names that stay pending, or the process
-- whose end is raised.
module _ (exited : String → Option ℤ) (health : String → Bool) where
  unfoldable pub check_round : List String → Result (String × ℤ) (List String)
  check_round [] = ok []
  check_round (name ∷ names) = elim (exited name) [
    | some rc ↦ err (name, rc)
    | none ↦ keep_pending (health name) name (check_round names)
  ]

module _ (now : ℕ → ℕ) (exited : ℕ → String → Option ℤ) (health : ℕ → String → Bool) where
  -- The loop at its round `i`, with the fuel for as many rounds; none is that the fuel ran out.
  unfoldable pub wait_rounds : ℕ → ℕ → ℕ → List String → Option (Result (String × ℤ) Bool)
  unfolding check_round
  wait_rounds deadline fuel i [] = some (ok true)
  wait_rounds deadline zero i (p ∷ ps) = if ltb (now i) deadline then none else some (ok false)
  wait_rounds deadline (suc fuel) i (p ∷ ps) =
      if ltb (now i) deadline
      then elim (check_round (exited i) (health i) (p ∷ ps)) [
        | err e ↦ some (err e)
        | ok left ↦ wait_rounds deadline fuel (i + 1) left
      ]
      else some (ok false)

  -- `begun` is the clock before the loop, and `set(self.specs)` the names.
  unfoldable pub wait_healthy : {H : Type 0} → ℕ → ℕ → Manager H → Option (Result (String × ℤ) Bool)
  unfolding wait_rounds
  wait_healthy begun timeout m =
      wait_rounds (begun + timeout) timeout 0 (map (λ (e : String × InstanceSpec). e.0) m.specs)
