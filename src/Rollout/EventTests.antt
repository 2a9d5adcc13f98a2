-- ===== src/Rollout/EventTests.antt =====
-- rollout_manager.py: two calls of `_generate_one` under a few events, and a small evaluation; floats
-- are natural numbers.
use llm_rl_cpu_poc.Common.{ℕ, ◌≡◌, refl, none, some, List, [], ◌∷◌, text_key, map}
use llm_rl_cpu_poc.Common.Dict.{lookup, insert}
use llm_rl_cpu_poc.Common.Int.{pos}
use llm_rl_cpu_poc.Common.Samples.{scaled}
use llm_rl_cpu_poc.Types.{Sample, new_sample, completed}
use llm_rl_cpu_poc.DataSource.{Task}
use llm_rl_cpu_poc.Rollout.Single.{Services, finish_one}
use llm_rl_cpu_poc.Rollout.Coroutines.{Event, resume, cancel, Shared, called, run_events, end_group}
use llm_rl_cpu_poc.Rollout.Progress.{base_of, Agrees, run_events-called-Agrees}

abbrev sample : ℕ → Sample ℕ ℕ
sample gid = record (new_sample scaled {P = ℕ} "prompt" "t" "A" none) { group_id = pos gid }

abbrev task : Task ℕ ℕ
task = record {
  task_id = "t";
  line = "A";
  prompt = "prompt";
  reward_spec = [];
  tier = "A";
  tests = "assert f(1)" ∷ [];
  answer = none;
  entry = "";
  repo = [];
  test_cmd = "";
  corpus = [];
  max_turns = 1;
  solution = "";
  image_path = none;
  split = "train";
  swe = none;
}

-- Every sample passes its tests.
abbrev services : Services scaled ℕ
services = record {
  generate = λ s t. record s { code = "def f" };
  multi_turn = none;
  run_tests = λ s t. record s { status = completed };
  compute_reward = λ s t. 1;
}

abbrev calls : List (Sample ℕ ℕ × Task ℕ ℕ)
calls = (sample 0, task) ∷ (sample 0, task) ∷ []

-- One slot for two calls.
abbrev shared : Shared
shared = record {
  live = record {
    gen_waiting = 0;
    scoring = 0;
    done = 0;
    total = 2;
    groups_done = 0;
    groups_total = 1;
    group_progress = (pos 0, (0, 2)) ∷ [];
  };
  slots = 1;
}

-- The second call enters the engine while the first waits, and the first is cancelled.
abbrev events : List (ℕ × Event)
events = (0, resume) ∷ (1, resume) ∷ (1, resume) ∷ (0, resume) ∷ (1, resume) ∷ (0, cancel) ∷ []

-- Both return, interleaved.
abbrev both : List (ℕ × Event)
both =
    (0, resume)
    ∷ (1, resume)
    ∷ (1, resume)
    ∷ (1, resume)
    ∷ (0, resume)
    ∷ (1, resume)
    ∷ (0, resume)
    ∷ (0, resume)
    ∷ []

both_done :
    end_group (run_events scaled (λ n. services) both (called calls) shared).0 shared.live
    ≡ some (
      map
          (λ (c : Sample ℕ ℕ × Task ℕ ℕ).
            finish_one scaled services (services.generate c.0 c.1) c.1)
          calls,
      record shared.live { groups_done = 1 },
    )
unfolding end_group run_events new_sample finish_one lookup insert
both_done = refl

run_events-called-Agrees_example :
    let (cs, sh') = run_events scaled (λ n. services) events (called calls) shared in
    Agrees (base_of shared) cs sh'
run_events-called-Agrees_example =
    run_events-called-Agrees scaled (λ n. services) calls events shared
