-- ===== src/Router/Tests.antt =====
-- router.py at a ring of two backends; the digest is a small table.
use llm_rl_cpu_poc.Common.{
  ℕ, ◌+◌, ◌≡◌, refl, String, Option, some, [], ◌∷◌, length, ◌==◌, text_key, if◌then◌else◌,
}
use llm_rl_cpu_poc.Common.Dict.{lookup, insert, erase}
use llm_rl_cpu_poc.Common.Result.{ok}
use llm_rl_cpu_poc.Router.{
  BackendRing, new_ring, add, revive_one, revive, best_from, best, count_pick, choose, pick,
  attempts, try_picked, settle, mark_failure, Surroundings, reply, transport_error, forward_inner,
  forward,
}
use llm_rl_cpu_poc.Router.Ring.{IsValid}
use llm_rl_cpu_poc.Router.Pick.{
  Chosen, pick-Chosen, Reachable, start, added, marked, Reachable-IsValid,
}
use llm_rl_cpu_poc.Router.Forward.{EndsWell, forward-EndsWell}

abbrev digest : String → String → ℕ
digest name key = if name == "e1" then 7 else if name == "e2" then 5 else 1

-- What a run of the ring unfolds.
program : Unit {0}
unfolding add new_ring lookup insert erase pick choose best best_from count_pick mark_failure revive
    revive_one forward_inner attempts try_picked settle
program = tt

abbrev two : BackendRing
two = record {
  alive = ("e1", "u1") ∷ ("e2", "u2") ∷ [];
  registry = ("e1", "u1") ∷ ("e2", "u2") ∷ [];
  failed = [];
  revive_after_s = 60;
  counts = ("e1", 0) ∷ ("e2", 0) ∷ [];
  failures = ("e1", 0) ∷ ("e2", 0) ∷ [];
}

two_lem : add "e2" "u2" (add "e1" "u1" (new_ring 60)) ≡ two
unfolding program
two_lem = refl

two-Reachable : Reachable digest (add "e2" "u2" (add "e1" "u1" (new_ring 60)))
two-Reachable = added "e2" "u2" (added "e1" "u1" (start 60))

two-IsValid : IsValid two
unfolding program
two-IsValid = Reachable-IsValid digest two-Reachable

Reachable-IsValid_example : IsValid (mark_failure 10 "e1" (add "e1" "u1" (new_ring 60)))
Reachable-IsValid_example = Reachable-IsValid digest (marked 10 "e1" (added "e1" "u1" (start 60)))

pick-Chosen_example :
    (out : Option (String × String) × BackendRing) × (pick digest 100 "k" two ≡ some out)
    × Chosen digest "k" (revive 100 two.failed two) out
pick-Chosen_example = pick-Chosen digest 100 "k" two two-IsValid

abbrev left_by_pick : BackendRing
left_by_pick = record two { counts = ("e1", 1) ∷ ("e2", 0) ∷ [] }

pick_first : pick digest 100 "k" two ≡ some (some ("e1", "u1"), left_by_pick)
unfolding program
pick_first = refl

abbrev without_first : BackendRing
without_first = record two {
  alive = ("e2", "u2") ∷ [];
  failed = ("e1", 100) ∷ [];
  counts = ("e1", 0) ∷ ("e2", 1) ∷ [];
  failures = ("e1", 1) ∷ ("e2", 0) ∷ [];
}

pick_second :
    pick digest 120 "k" (mark_failure 100 "e1" two) ≡ some (some ("e2", "u2"), without_first)
unfolding program
pick_second = refl

abbrev revived : BackendRing
revived = record two {
  alive = ("e2", "u2") ∷ ("e1", "u1") ∷ [];
  counts = ("e1", 1) ∷ ("e2", 0) ∷ [];
  failures = ("e1", 1) ∷ ("e2", 0) ∷ [];
}

pick_after_revival :
    pick digest 160 "k" (mark_failure 100 "e1" two) ≡ some (some ("e1", "u1"), revived)
unfolding program
pick_after_revival = refl

-- The first POST times out, the second is answered.
abbrev env : Surroundings ℕ ℕ
env = record {
  pick_time = λ i. 100 + i;
  failure_time = λ i. 100 + i;
  started = 100;
  ended = 130;
  post = λ i url q. if url == "u1/x" then transport_error "timed out" else reply 42;
}

abbrev after_failover : BackendRing
after_failover = record two {
  alive = ("e2", "u2") ∷ [];
  failed = ("e1", 100) ∷ [];
  counts = ("e1", 1) ∷ ("e2", 1) ∷ [];
  failures = ("e1", 1) ∷ ("e2", 0) ∷ [];
}

forward_fails_over : forward_inner digest env "/x" 0 "k" two ≡ (ok (42, "e2"), after_failover)
unfolding program
forward_fails_over = refl

forward-EndsWell_example :
    let (result, rt') = forward digest env "/x" 0 "k" (record { ring = two; forward_lat_s = [] }) in
    EndsWell digest env (result, rt'.ring) × (length rt'.forward_lat_s ≡ 1)
forward-EndsWell_example =
    forward-EndsWell digest env "/x" 0 "k" (record { ring = two; forward_lat_s = [] }) two-IsValid
