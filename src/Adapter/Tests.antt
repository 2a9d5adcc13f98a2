-- ===== src/Adapter/Tests.antt =====
-- adapter.py: runs with one backend.
use llm_rl_cpu_poc.Common.{ℕ, ◌≡◌, refl, String, none, some, List, [], ◌∷◌, text_key}
use llm_rl_cpu_poc.Common.Samples.{scaled}
use llm_rl_cpu_poc.Router.{
  pick, choose, revive, best_from, Router, new_ring, add, Surroundings, reply,
}
use llm_rl_cpu_poc.Types.{Sample, new_sample}
use llm_rl_cpu_poc.Adapter.{generate, Body, Payload, Completion, new_adapter}
use llm_rl_cpu_poc.Adapter.Http.{do_post}
use llm_rl_cpu_poc.Adapter.Accounts.{Call, generate_all, IsAccounted, generate_all-IsAccounted}

abbrev digest : String → String → ℕ
digest name key = 1

abbrev completion : Completion ℕ String
completion = record {
  choices = some (
      record {
        content = some "hi";
        tool_calls = none;
        toks =
            record { token = some "h"; logprob = some 2 }
            ∷ record { token = none; logprob = none }
            ∷ [];
        finish_reason = some "stop";
      }
      ∷ []);
  prompt_tokens = none;
  completion_tokens = none;
}

abbrev env_of : Completion ℕ String → Surroundings (Payload ℕ String String) (Completion ℕ String)
env_of out = record {
  pick_time = λ i. 0;
  failure_time = λ i. 0;
  started = 0;
  ended = 3;
  post = λ i url payload. reply out;
}

abbrev body : Body ℕ String String
body = record {
  traj_id = some "t-1";
  turn = none;
  messages = some "m";
  tools = none;
  max_tokens = none;
  temperature = none;
}

abbrev router : Router
router = record { ring = add "e1" "u1" (new_ring 60); forward_lat_s = [] }

abbrev sample : Sample ℕ ℕ
sample = new_sample scaled "p" "t" "SWE" none

-- A reply without choices is answered as if the caller had left a field out.
no_choices_status :
    (do_post scaled digest
      (env_of (record completion { choices = none }))
      0
      0
      "/generate"
      (some body)
      (new_adapter router [] 1 16 none)).0
    ≡ 400
unfolding do_post new_adapter add new_ring pick choose revive best_from
no_choices_status = refl

abbrev calls : List (Call ℕ String String String)
calls =
    record { env = env_of completion; ts = 0; lat = 3; body = body }
    ∷ record { env = env_of completion; ts = 0; lat = 3; body = record body { messages = none } }
    ∷ record {
      env = env_of completion;
      ts = 0;
      lat = 3;
      body = record body { traj_id = some "t-2" };
    }
    ∷ []

four_tokens :
    (generate_all scaled {P = ℕ} digest sample calls 0
      (new_adapter router [] 1 16 none)).1.tokens_out
    ≡ 4
unfolding generate new_adapter add new_ring pick choose revive best_from
four_tokens = refl

generate_all-IsAccounted_example :
    (let (answered, a) =
        generate_all scaled {P = ℕ} digest sample calls 0 (new_adapter router [] 1 16 none) in
      IsAccounted scaled sample answered a)
generate_all-IsAccounted_example =
    generate_all-IsAccounted scaled digest sample router 1 16 none calls
