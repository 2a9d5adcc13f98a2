-- ===== src/Engine/Tests.antt =====
-- engine.py and engine_local.py: runs at small values.
use llm_rl_cpu_poc.Common.{
  ℕ, ◌+◌, ◌<◌, ◌≡◌, refl, leb, String, Bool, true, false, ◌||◌, Option, none, some, [], ◌∷◌, map,
  ◌==◌, text_key, arith, if◌then◌else◌,
}
use llm_rl_cpu_poc.Common.Int.{ℤ}
use llm_rl_cpu_poc.Common.Result.{Result, ok, err}
use llm_rl_cpu_poc.Common.Samples.{scaled}
use llm_rl_cpu_poc.Engine.Api.{content, caught, chat, failed}
use llm_rl_cpu_poc.Engine.Local.Servers.{
  InstanceSpec, Manager, server_cmd, wait_healthy, start, stop, kill, terminate, close,
}
use llm_rl_cpu_poc.Engine.Local.Healthy.{Explained, wait_healthy_lem}

abbrev spec_of : String → String → InstanceSpec
spec_of name cores = record {
  name = name;
  port = 1;
  cores = cores;
  slots = 8;
  model = "m";
  mmproj = "";
  extra = [];
}

abbrev text_of : ℕ → String
text_of n = "1"

command :
    server_cmd text_of "bin" (spec_of "a" "0-3")
    ≡ "taskset" ∷ "-c" ∷ "0-3" ∷ "bin" ∷ "--model" ∷ "m" ∷ "--port" ∷ "1" ∷ "--parallel" ∷ "1"
      ∷ "--jinja" ∷ "--log-disable" ∷ []
unfolding server_cmd
command = refl

abbrev manager : Manager ℕ
manager = record {
  binary = "bin";
  specs = ("a", spec_of "a" "") ∷ ("b", spec_of "b" "") ∷ [];
  procs = ("a", 7) ∷ [];
  log_files = ("a", "a.log") ∷ [];
}

stop_a :
    stop (λ h. true) (λ h. false) "a" manager
    ≡ (record manager { procs = []; log_files = [] }, terminate 7 ∷ kill 7 ∷ close "a.log" ∷ [])
unfolding stop
stop_a = refl

-- A server that is started while it runs: nothing stops the process 7, whose handle is lost.
start_again :
    start text_of (λ cmd. ok 8) "a" manager ≡ ok (record manager { procs = ("a", 8) ∷ [] })
unfolding start
start_again = refl

-- One second per round; the second server answers from its third round on.
abbrev clock : ℕ → ℕ
clock i = i

abbrev exited : ℕ → String → Option ℤ
exited i name = none

abbrev health : ℕ → String → Bool
health i name = name == "a" || leb 2 i

wait_both : wait_healthy clock exited health 0 5 manager ≡ some (ok true)
unfolding wait_healthy
wait_both = refl

wait_short : wait_healthy clock exited health 0 2 manager ≡ some (ok false)
unfolding wait_healthy
wait_short = refl

ticks : (i : ℕ) → clock i < clock (i + 1)
ticks i = omega arith

wait_healthy_lem_example :
    (out : Result (String × ℤ) Bool) × (wait_healthy clock exited health 0 5 manager ≡ some out)
    × Explained clock exited health
        (0 + 5)
        0
        (map (λ (e : String × InstanceSpec). e.0) manager.specs)
        out
wait_healthy_lem_example = wait_healthy_lem clock exited health ticks 0 5 manager (omega arith)

-- Three tries with one error before an answer, and one sleep.
chat_twice : chat scaled 3 (λ i. if leb 1 i then content "x" else caught "reset") ≡ (ok "x", 1 ∷ [])
unfolding chat
chat_twice = refl

chat_fails : chat scaled 2 (λ i. caught "reset") ≡ (err (failed (some "reset")), 1 ∷ 2 ∷ [])
unfolding chat
chat_fails = refl
