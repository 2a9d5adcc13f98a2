-- ===== src/Engine/Api.antt =====
-- engine.py: the engine behind a remote chat API. A request is what it ends with.
use llm_rl_cpu_poc.Common.{ℕ, zero, suc, ◌+◌, String, Option, none, some, List, [], ◌∷◌, text_key}
use llm_rl_cpu_poc.Common.Dict.{insert}
use llm_rl_cpu_poc.Common.Float.{Float}
use llm_rl_cpu_poc.Common.Result.{Result, ok, err}
use llm_rl_cpu_poc.Types.{Sample, str, pending, gen_error}
use mathlib.Core.Option

-- One request: the text of its answer, one of the errors that `_chat` catches, or another exception.
pub data Request : Type 0 where
  content : String → Request
  caught : String → Request
  uncaught : String → Request

-- EngineError with the last error, none where nothing was tried, or the exception that came through.
pub data ChatError : Type 0 where
  failed : Option String → ChatError
  raised : String → ChatError

-- What a chat ends with, and the sleeps between its requests.
abbrev pub Chat : Type 0 → Type 0
Chat F = Result ChatError String × List F

module _ (fl : Float) where
  open fl use {F}

  -- The loop with `left` tries to go; it sleeps after each error, also after the last.
  unfoldable pub chat_tries : ℕ → ℕ → F → Option String → (ℕ → Request) → Chat F
  chat_tries zero i delay last_err requests = (err (failed last_err), [])
  chat_tries (suc left) i delay last_err requests = elim (requests i) [
    | content text ↦ (ok text, [])
    | caught e ↦
        let (out, sleeps) =
          chat_tries left (i + 1) (fl.mul delay (fl.of_nat 2)) (some e) requests in
        (out, delay ∷ sleeps)
    | uncaught e ↦ (err (raised e), [])
  ]

  unfoldable pub chat : ℕ → (ℕ → Request) → Chat F
  unfolding chat_tries
  chat max_retries requests = chat_tries max_retries 0 fl.one none requests

-- The texts' functions: `code_block` is the search of the regular expression, its first group.
pub record Texts : Type 0 where
  pub code_block : String → Option String
  pub strip : String → String
  pub words : String → ℕ
  pub told : ChatError → String

unfoldable pub extract_code : Texts → String → String
extract_code py text = py.strip (Option.get_or (py.code_block text) text)

module _ (fl : Float) {P : Type 0} (py : Texts) where
  open fl use {F}

  -- What `generate` does with the end of `_chat`; `rate` is -0.5, and `version` the one at the end.
  unfoldable pub generate_api : F → ℕ → Result ChatError String → Sample F P → Sample F P
  unfolding extract_code insert
  generate_api rate version (err e) s = record s {
    status = gen_error;
    metadata = insert "error" (str (py.told e)) s.metadata;
  }
  generate_api rate version (ok text) s = record s {
    response = text;
    code = extract_code py text;
    num_tokens = py.words text;
    rollout_logprob = fl.mul rate (fl.of_nat (py.words text));
    weight_version = version;
    turns = 1;
    status = pending;
  }
