-- ===== src/Adapter.antt =====
-- rl_sim/adapter.py: the service between the agent loops and the router. It keeps the tokens of each
-- trajectory in a log and answers text. The log directory is a dict from trajectories to records.
pub mod Accounts
pub mod Http
mod Tests
use llm_rl_cpu_poc.Common.{
  ℕ, zero, suc, ◌+◌, String, Bool, true, false, Option, none, some, List, [], ◌∷◌, ◌++◌, map,
  length, ◌==◌, text_key, if◌then◌else◌,
}
use llm_rl_cpu_poc.Common.Dict.{Dict, lookup, insert}
use llm_rl_cpu_poc.Common.Float.{Float}
use llm_rl_cpu_poc.Common.Int.{ℤ, negsuc}
use llm_rl_cpu_poc.Common.Result.{Result, ok, err}
use llm_rl_cpu_poc.Router.{Router, Surroundings, ForwardError, forward}
use llm_rl_cpu_poc.Router.ForwardError.{
  no_alive_backends, key_error, request_rejected, all_backends_failed, raised,
}
use mathlib.Core.Option

-- The body of a request: messages and tools are passed on unread (`M`, `T`); an empty list of tools
-- is none, as the code tests its truth.
pub record Body (F M T : Type 0) : Type 0 where
  pub traj_id : Option String
  pub turn : Option ℤ
  pub messages : Option M
  pub tools : Option T
  pub max_tokens : Option ℕ
  pub temperature : Option F

-- What is sent to the router, less the constant entries.
pub record Payload (F M T : Type 0) : Type 0 where
  pub messages : M
  pub temperature : F
  pub max_tokens : ℕ
  pub session_key : String
  pub tools : Option T
  pub top_p : Option F

pub record Token (F : Type 0) : Type 0 where
  pub token : Option String
  pub logprob : Option F

-- A choice of a completion; `C` are the tool calls, none for a missing or empty list.
pub record Choice (F C : Type 0) : Type 0 where
  pub content : Option String
  pub tool_calls : Option C
  pub toks : List (Token F)
  pub finish_reason : Option String

-- `choices` is none where the key is missing.
pub record Completion (F C : Type 0) : Type 0 where
  pub choices : Option (List (Choice F C))
  pub prompt_tokens : Option ℕ
  pub completion_tokens : Option ℕ

pub record LogRecord (F : Type 0) : Type 0 where
  pub traj_id : String
  pub turn : ℤ
  pub ts : F
  pub backend : String
  pub prompt_tokens : Option ℕ
  pub completion_tokens : Option ℕ
  pub finish_reason : Option String
  pub out_tokens : List (String × F)

pub record Adapter (F : Type 0) : Type 0 where
  pub router : Router
  pub logs : Dict String (List (LogRecord F))
  pub temperature : F
  pub max_tokens : ℕ
  pub top_p : Option F
  pub calls : ℕ
  pub tokens_out : ℕ
  pub lat_s : List F

-- The log directory is kept as it is found.
unfoldable pub new_adapter :
    {F : Type 0} → Router → Dict String (List (LogRecord F)) → F → ℕ → Option F → Adapter F
new_adapter router logs temperature max_tokens top_p = record {
  router = router;
  logs = logs;
  temperature = temperature;
  max_tokens = max_tokens;
  top_p = top_p;
  calls = 0;
  tokens_out = 0;
  lat_s = [];
}

-- A KeyError with its key, or another exception.
pub data Failure : Type 0 where
  missing : String → Failure
  index_error : Failure
  router_error : ForwardError → Failure

-- The answer, less its rounded latency.
pub record Answer (C : Type 0) : Type 0 where
  pub text : String
  pub tool_calls : Option C
  pub finish_reason : Option String
  pub prompt_tokens : Option ℕ
  pub completion_tokens : Option ℕ
  pub backend : String

-- An append to the file of a trajectory.
unfoldable pub log_call :
    {F : Type 0}
    → String
    → LogRecord F
    → Dict String (List (LogRecord F))
    → Dict String (List (LogRecord F))
unfolding lookup insert
log_call traj_id rec logs =
    insert traj_id (Option.get_or (lookup traj_id logs) [] ++ (rec ∷ [])) logs

-- The router's exceptions: a KeyError is one here too.
unfoldable pub failure_of : ForwardError → Failure
failure_of key_error = missing ""
failure_of e = router_error e

unfoldable pub stats : {F : Type 0} → Adapter F → ℕ × ℕ × List F × Dict String ℕ
stats a = (a.calls, a.tokens_out, a.lat_s, a.router.ring.counts)

module _ (fl : Float) where
  open fl use {F}

  unfoldable pub out_tokens : List (Token F) → List (String × F)
  out_tokens toks =
      map (λ (t : Token F). (Option.get_or t.token "", Option.get_or t.logprob fl.zero)) toks

  unfoldable pub build_payload :
      {M T : Type 0} → String → M → Body F M T → Adapter F → Payload F M T
  build_payload traj_id messages body a = record {
    messages = messages;
    temperature = Option.get_or body.temperature a.temperature;
    max_tokens = Option.get_or body.max_tokens a.max_tokens;
    session_key = traj_id;
    tools = body.tools;
    top_p = a.top_p;
  }

  -- What happens to a choice: its tokens are logged and counted.
  unfoldable pub take_choice :
      {C : Type 0}
      → String
      → ℤ
      → F
      → F
      → String
      → Completion F C
      → Choice F C
      → Adapter F
      → Answer C × Adapter F
  unfolding log_call out_tokens
  take_choice traj_id turn ts lat backend out c a = (
    record {
      text = Option.get_or c.content "";
      tool_calls = c.tool_calls;
      finish_reason = c.finish_reason;
      prompt_tokens = out.prompt_tokens;
      completion_tokens = out.completion_tokens;
      backend = backend;
    },
    record a {
      logs =
          log_call traj_id
            (record {
              traj_id = traj_id;
              turn = turn;
              ts = ts;
              backend = backend;
              prompt_tokens = out.prompt_tokens;
              completion_tokens = out.completion_tokens;
              finish_reason = c.finish_reason;
              out_tokens = out_tokens c.toks;
            })
            a.logs;
      calls = a.calls + 1;
      tokens_out = a.tokens_out + length c.toks;
      lat_s = a.lat_s ++ (lat ∷ []);
    },
  )

  -- `choices[0]`, with the router's state after the call in `a`.
  unfoldable pub take_first :
      {C : Type 0}
      → String
      → ℤ
      → F
      → F
      → String
      → Completion F C
      → Option (List (Choice F C))
      → Adapter F
      → Result Failure (Answer C) × Adapter F
  unfolding take_choice
  take_first traj_id turn ts lat backend out none a = (err (missing "choices"), a)
  take_first traj_id turn ts lat backend out (some []) a = (err index_error, a)
  take_first traj_id turn ts lat backend out (some (c ∷ _)) a =
      let (answer, a') = take_choice traj_id turn ts lat backend out c a in (ok answer, a')

  unfoldable pub take_sent :
      {C : Type 0}
      → String
      → ℤ
      → F
      → F
      → Result ForwardError (Completion F C × String)
      → Adapter F
      → Result Failure (Answer C) × Adapter F
  unfolding take_first failure_of
  take_sent traj_id turn ts lat (err e) a = (err (failure_of e), a)
  take_sent traj_id turn ts lat (ok (out, backend)) a =
      take_first traj_id turn ts lat backend out out.choices a

module _ (fl : Float) {M T C : Type 0} where
  open fl use {F}

  -- `generate` on the required fields of its body.
  unfoldable pub generate_with :
      (String → String → ℕ)
      → Surroundings (Payload F M T) (Completion F C)
      → F
      → F
      → Body F M T
      → Option String
      → Option M
      → Adapter F
      → Result Failure (Answer C) × Adapter F
  unfolding build_payload take_sent forward
  generate_with digest env ts lat body none messages a = (err (missing "traj_id"), a)
  generate_with digest env ts lat body (some traj_id) none a = (err (missing "messages"), a)
  generate_with digest env ts lat body (some traj_id) (some messages) a =
      let (sent, router) =
        forward digest env "/v1/chat/completions" (build_payload fl traj_id messages body a) traj_id
          a.router in
      take_sent fl traj_id (Option.get_or body.turn (negsuc 0)) ts lat sent
        (record a { router = router })

  -- `ts` and `lat` are the clock's; `env` is what happens to the call that the router forwards.
  unfoldable pub generate :
      (String → String → ℕ)
      → Surroundings (Payload F M T) (Completion F C)
      → F
      → F
      → Body F M T
      → Adapter F
      → Result Failure (Answer C) × Adapter F
  unfolding generate_with
  generate digest env ts lat body a =
      generate_with digest env ts lat body body.traj_id body.messages a
