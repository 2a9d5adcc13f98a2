-- ===== src/Router.antt =====
-- rl_sim/router.py: the ring of backends with rendezvous hashing, and the router's forwarding.
-- Times are natural numbers of one unit. The digest (`_h`), the clock and the backends' answers are
-- parameters.
pub mod Best
pub mod Ring
pub mod Pick
pub mod Forward
mod Tests
use llm_rl_cpu_poc.Common.{
  ℕ, zero, suc, ◌+◌, ◌-◌, leb, ltb, String, Bool, ◌&&◌, Option, none, some, List, [], ◌∷◌, ◌++◌,
  text_key, if◌then◌else◌,
}
use llm_rl_cpu_poc.Common.Dict.{Dict, lookup, insert, erase, set_default}
use llm_rl_cpu_poc.Common.Result.{Result, ok, err}
use Prim.Native.String.{◌++◌ as str_append}
use mathlib.Core.Option

pub record BackendRing : Type 0 where
  pub alive : Dict String String
  pub registry : Dict String String
  pub failed : Dict String ℕ
  pub revive_after_s : ℕ
  pub counts : Dict String ℕ
  pub failures : Dict String ℕ

unfoldable pub new_ring : ℕ → BackendRing
new_ring revive_after_s = record {
  alive = [];
  registry = [];
  failed = [];
  revive_after_s = revive_after_s;
  counts = [];
  failures = [];
}

unfoldable pub add : String → String → BackendRing → BackendRing
add name base_url r = record r {
  alive = insert name base_url r.alive;
  registry = insert name base_url r.registry;
  counts = set_default name 0 r.counts;
  failures = set_default name 0 r.failures;
}

unfoldable pub remove : String → BackendRing → BackendRing
remove name r = record r {
  alive = erase name r.alive;
  registry = erase name r.registry;
  failed = erase name r.failed;
}

-- One round of the revival loop in `pick`: an entry of the snapshot of `_failed`.
unfoldable pub revive_one : ℕ → String × ℕ → BackendRing → BackendRing
revive_one now (name, ts) r =
    if leb (ts + r.revive_after_s) now
    then record r {
      alive = elim (lookup name r.registry) [ none ↦ r.alive | some url ↦ insert name url r.alive ];
      failed = erase name r.failed;
    }
    else r

unfoldable pub revive : ℕ → List (String × ℕ) → BackendRing → BackendRing
revive now [] r = r
revive now (entry ∷ snapshot) r = revive now snapshot (revive_one now entry r)

-- `max(alive, key=…)`: the first of the names with the greatest score.
unfoldable pub best_from : (String → ℕ) → String → Dict String String → String
best_from score m [] = m
best_from score m ((n, _) ∷ d) = best_from score (if ltb (score m) (score n) then n else m) d

unfoldable pub best : (String → ℕ) → Dict String String → Option String
best score [] = none
best score ((n, _) ∷ d) = some (best_from score n d)

-- `counts[name] += 1`; a missing key is a KeyError.
unfoldable pub count_pick : String → BackendRing → Option BackendRing
count_pick name r =
    Option.map (λ c. record r { counts = insert name (c + 1) r.counts }) (lookup name r.counts)

module _ (digest : String → String → ℕ) where
  -- The choice among the backends that are alive. The outer `none` is a KeyError.
  unfoldable pub choose : String → BackendRing → Option (Option (String × String) × BackendRing)
  unfolding best count_pick
  choose session_key r = elim (best (λ b. digest b session_key) r.alive) [
    | none ↦ some (none, r)
    | some name ↦ elim (count_pick name r) [
      | none ↦ none
      | some r' ↦ Option.map (λ url. (some (name, url), r')) (lookup name r.alive)
    ]
  ]

  unfoldable pub pick : ℕ → String → BackendRing → Option (Option (String × String) × BackendRing)
  pick now session_key r = choose session_key (revive now r.failed r)

unfoldable pub mark_failure : ℕ → String → BackendRing → BackendRing
mark_failure now name r = record r {
  failures = insert name (elim (lookup name r.failures) [ none ↦ 1 | some c ↦ c + 1 ]) r.failures;
  alive = erase name r.alive;
  failed = insert name now r.failed;
}

-- What a POST to a backend ends with: a JSON reply, an HTTP error, one of the transport errors that
-- `_forward_inner` catches, or an exception that it does not.
pub data Outcome (R : Type 0) : Type 0 where
  reply : R → Outcome R
  http_error : ℕ → String → Outcome R
  transport_error : String → Outcome R
  uncaught : String → Outcome R

pub data ForwardError : Type 0 where
  no_alive_backends key_error : ForwardError
  request_rejected : String → ℕ → String → ForwardError
  all_backends_failed : Option String → ForwardError
  raised : String → ForwardError

-- What the surroundings do during one call: the clock at each attempt's pick and failure, the clock
-- before and after the call, and the answer to each attempt's POST.
pub record Surroundings (Q R : Type 0) : Type 0 where
  pub pick_time : ℕ → ℕ
  pub failure_time : ℕ → ℕ
  pub started : ℕ
  pub ended : ℕ
  pub post : ℕ → String → Q → Outcome R

abbrev pub Answer : Type 0 → Type 0
Answer R = Result ForwardError (R × String) × BackendRing

-- The `try` statement of one attempt at the backend `name`: `again` is the rest of the loop after a
-- failure. A reply comes with the backend's name (`_backend`).
unfoldable pub settle :
    {R : Type 0} → (String → Answer R) → String → BackendRing → Outcome R → Answer R
settle again name r (reply out) = (ok (out, name), r)
settle again name r (http_error code body) =
    if leb 400 code && ltb code 500 then (err (request_rejected name code body), r) else again body
settle again name r (transport_error why) = again why
settle again name r (uncaught why) = (err (raised why), r)

-- The body of the loop after its `pick`: `again` gets the cause and the marked ring.
unfoldable pub try_picked :
    {R : Type 0}
    → ℕ
    → (String → Outcome R)
    → (String → BackendRing → Answer R)
    → BackendRing
    → Option (Option (String × String) × BackendRing)
    → Answer R
unfolding settle
try_picked failed_at post again r none = (err key_error, r)
try_picked failed_at post again r (some (none, r₁)) = (err no_alive_backends, r₁)
try_picked failed_at post again r (some (some (name, base), r₁)) =
    settle (λ why. again why (mark_failure failed_at name r₁)) name r₁ (post base)

module _ (digest : String → String → ℕ) {Q R : Type 0} (env : Surroundings Q R) where
  -- The `for _ in range(2)` loop, with `left` rounds to go before the final raise.
  unfoldable pub attempts : ℕ → ℕ → Option String → String → Q → String → BackendRing → Answer R
  unfolding try_picked
  attempts zero i last_err path payload session_key r = (err (all_backends_failed last_err), r)
  attempts (suc left) i last_err path payload session_key r =
      try_picked (env.failure_time i) (λ base. env.post i (str_append base path) payload)
        (λ why marked. attempts left (i + 1) (some why) path payload session_key marked) r
        (pick digest (env.pick_time i) session_key r)

  unfoldable pub forward_inner : String → Q → String → BackendRing → Answer R
  unfolding attempts
  forward_inner path payload session_key r = attempts 2 0 none path payload session_key r

pub record Router : Type 0 where
  pub ring : BackendRing
  pub forward_lat_s : List ℕ

module _ (digest : String → String → ℕ) {Q R : Type 0} (env : Surroundings Q R) where
  -- The `finally` block records the latency of every call, also of one that raises.
  unfoldable pub forward : String → Q → String → Router → Result ForwardError (R × String) × Router
  unfolding forward_inner
  forward path payload session_key rt =
      let (result, ring) = forward_inner digest env path payload session_key rt.ring in
      (
        result,
        record { ring = ring; forward_lat_s = rt.forward_lat_s ++ (env.ended - env.started) ∷ [] },
      )
