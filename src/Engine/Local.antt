-- ===== src/Engine/Local.antt =====
-- rl_sim/engine_local.py: the server processes, and the engine that talks to them. Processes, HTTP
-- and the clock are parameters.
pub mod Servers
pub mod Healthy
use llm_rl_cpu_poc.Common.{
  ℕ, zero, suc, ◌+◌, String, Option, none, some, List, [], ◌∷◌, ◌++◌, text_key, length, nat_beq,
  if◌then◌else◌,
}
use llm_rl_cpu_poc.Common.Dict.{insert}
use llm_rl_cpu_poc.Common.Float.{Float}
use llm_rl_cpu_poc.Common.Result.{Result, ok, err}
use llm_rl_cpu_poc.Types.{Sample, str, pending, gen_error}
use llm_rl_cpu_poc.Engine.Api.{Texts, extract_code}
use mathlib.Core.Option

-- The client's own counters.
pub record Profile (F : Type 0) : Type 0 where
  pub req_count : ℕ
  pub tok_generated : ℕ
  pub req_lat_s : List F

abbrev pub new_profile : {F : Type 0} → Profile F
new_profile = record { req_count = 0; tok_generated = 0; req_lat_s = [] }

module _ (fl : Float) where
  open fl use {F}

  -- The sum over the tokens; a token without the key counts as 0.0.
  unfoldable pub sum_logprobs : F → List (Option F) → F
  sum_logprobs total [] = total
  sum_logprobs total (t ∷ toks) = sum_logprobs (fl.add total (Option.get_or t fl.zero)) toks

  unfoldable pub aggregate_logprobs : List (Option F) → F × ℕ
  unfolding sum_logprobs
  aggregate_logprobs toks = (sum_logprobs fl.zero toks, length toks)

-- The first choice of a completion: its text, none for null, and its tokens' logprobs.
pub record Choice (F : Type 0) : Type 0 where
  pub text : Option String
  pub toks : List (Option F)

module _ (fl : Float) (py : Texts) where
  open fl use {F}

  -- What `_chat` takes from a reply: `len(toks) or len(text.split())` tokens.
  unfoldable pub read_choice : Choice F → String × F × ℕ
  unfolding sum_logprobs
  read_choice c =
      let text : String = Option.get_or c.text "" in
      (
        text,
        sum_logprobs fl fl.zero c.toks,
        if nat_beq (length c.toks) 0 then py.words text else length c.toks,
      )

module _ (fl : Float) {P : Type 0} (py : Texts) where
  open fl use {F}

  -- `generate` behind the gate: `reply` is what the request ends with, an exception as its text, and
  -- `lat` the time it took, which the `finally` block counts on both branches.
  unfoldable pub generate_local :
      ℕ → F → Result String (Choice F) → Sample F P → Profile F → Sample F P × Profile F
  unfolding read_choice extract_code insert
  generate_local version lat reply s p =
      let counted : Profile F = record p {
        req_count = p.req_count + 1;
        req_lat_s = p.req_lat_s ++ (lat ∷ []);
      } in
      elim reply [
        | err e ↦
            (record s { status = gen_error; metadata = insert "error" (str e) s.metadata }, counted)
        | ok c ↦
            let (text, logprob_sum, ntok) = read_choice fl py c in
            (
              record s {
                response = text;
                code = extract_code py text;
                num_tokens = ntok;
                rollout_logprob = logprob_sum;
                weight_version = version;
                turns = 1;
                status = pending;
              },
              record counted { tok_generated = p.tok_generated + ntok },
            )
      ]
