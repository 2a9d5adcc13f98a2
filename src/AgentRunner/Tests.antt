-- ===== src/AgentRunner/Tests.antt =====
-- agent_runner.py at one short run.
use llm_rl_cpu_poc.Common.{
  ℕ, some, List, [], ◌∷◌, ◌++◌, refl, ◌==◌, text_key, number_key, if◌then◌else◌,
}
use llm_rl_cpu_poc.Common.Int.{pos}
use llm_rl_cpu_poc.AgentRunner.{
  Message, assistant, tool, create, exec, prune_messages, World, Config, response,
}
use llm_rl_cpu_poc.AgentRunner.Run.{Loop, first_loop, run_turn, run}
use llm_rl_cpu_poc.AgentRunner.Transcript.{
  IsChat, headers, Reached, first, next, prune_messages-IsChat,
}
use llm_rl_cpu_poc.AgentRunner.Loop.{Finishes, run-Finishes}

-- The first turn runs a command, the second submits.
abbrev world : World
world = record {
  create = some "sb-1";
  exec = λ i cmd. some (record { rc = pos 0; stdout = i ∷ []; stderr = []; wall_s = 3 });
  generate = λ turn messages. response [] (
      (if turn == 0
        then record { ident = "c0"; name = "bash"; arguments = "ls" }
        else record { ident = "c1"; name = "submit"; arguments = "" })
      ∷ []);
  elapsed = λ turn. turn;
  gen_lat = λ turn. 1;
  parse_cmd = λ text. some text;
  points = λ text. 0 ∷ [];
  digits = λ n. 7 ∷ [];
}

abbrev config : Config
config = record {
  max_turns = 40;
  agent_timeout_s = 1800;
  obs_limit = 8000;
  max_nudges = 2;
  prune_keep_tools = 2;
  prune_old_chars = 300;
  setup_cmd = "setup";
  diff_cmd = "diff";
  issue = [];
  system_prompt = [];
}

run-Finishes_example : Finishes config (some "sb-1") (run world config)
run-Finishes_example = run-Finishes world config

abbrev text : List ℕ
text = 1 ∷ 2 ∷ 3 ∷ 4 ∷ 5 ∷ []

abbrev observation : List ℕ → Message
observation content = record { role = tool; content = content; tool_calls = []; tool_call_id = "" }

-- Two of the three observations are old, and one of them is too long.
abbrev history : List Message × List ℕ
history = (observation text ∷ observation [] ∷ observation text ∷ [], [])

abbrev small : Config
small = record config { prune_keep_tools = 1; prune_old_chars = 3 }

-- The loop behind the first turn.
abbrev second_loop : Loop
second_loop = record {
  messages =
      (first_loop world config).messages
      ++ (record {
        role = assistant;
        content = [];
        tool_calls = record { ident = "c0"; name = "bash"; arguments = "ls" } ∷ [];
        tool_call_id = "";
      }
          ∷ record {
            role = tool;
            content = 0 ∷ 7 ∷ 0 ∷ 1 ∷ [];
            tool_calls = [];
            tool_call_id = "c0";
          }
          ∷ []);
  elided = [];
  nudges = 0;
  turn_stats = record { turn = 0; gen_lat_s = 1; exec_wall_s = 3; n_tool_calls = 1 } ∷ [];
  calls = create ∷ exec "setup" ∷ exec "ls" ∷ [];
}

reached : Reached world config 1 second_loop
unfolding run_turn
reached = next first refl

prune_messages-IsChat_example :
    IsChat (headers (prune_messages world config (second_loop.messages, second_loop.elided)).0)
prune_messages-IsChat_example = prune_messages-IsChat world config reached
