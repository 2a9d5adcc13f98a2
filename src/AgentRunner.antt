-- ===== src/AgentRunner.antt =====
-- rl_sim/agent_runner.py: the multi-turn agent loop. The adapter, the sandbox client, the clock and
-- the JSON library are the parameter `World`; texts that the loop cuts are lists of code points.
pub mod Texts
pub mod Pruning
pub mod Run
pub mod Loop
pub mod Transcript
mod Tests
use llm_rl_cpu_poc.Common.{
  ℕ, zero, suc, ◌+◌, ◌-◌, ◌/◌, ltb, leb, String, Bool, true, false, not, ◌&&◌, ◌||◌, Option, none,
  some, List, [], ◌∷◌, ◌++◌, length, take, drop, nat_beq, ◌==◌, text_key, number_key, if◌then◌else◌,
}
use llm_rl_cpu_poc.Common.Int.{ℤ, pos, int_key}

pub record ToolCall : Type 0 where
  pub ident : String
  pub name : String
  pub arguments : String

pub data Role : Type 0 where
  system user assistant tool : Role

pub record Message : Type 0 where
  pub role : Role
  pub content : List ℕ
  pub tool_calls : List ToolCall
  pub tool_call_id : String

pub record ExecResult : Type 0 where
  pub rc : ℤ
  pub stdout : List ℕ
  pub stderr : List ℕ
  pub wall_s : ℕ

-- What the adapter answers: a response, an HTTP error with the start of its body, or another
-- exception with its text.
pub data Reply : Type 0 where
  response : List ℕ → List ToolCall → Reply
  http_error : ℕ → String → Reply
  failure : String → Reply

pub data Status : Type 0 where
  error max_turns timeout submitted no_tool_call : Status
  adapter_http_error : ℕ → String → Status
  adapter_error : String → Status

-- One call of the sandbox client.
pub data Call : Type 0 where
  create : Call
  exec : String → Call
  stop : String → Call

-- None of `create` and `exec` is an exception. `exec i cmd` is the answer to the i-th command of the
-- trajectory; `parse_cmd` reads `cmd` out of a call's arguments, none for malformed JSON.
pub record World : Type 0 where
  pub create : Option String
  pub exec : ℕ → String → Option ExecResult
  pub generate : ℕ → List Message → Reply
  pub elapsed : ℕ → ℕ
  pub gen_lat : ℕ → ℕ
  pub parse_cmd : String → Option String
  pub points : String → List ℕ
  pub digits : ℤ → List ℕ

pub record Config : Type 0 where
  pub max_turns : ℕ
  pub agent_timeout_s : ℕ
  pub obs_limit : ℕ
  pub max_nudges : ℕ
  pub prune_keep_tools : ℕ
  pub prune_old_chars : ℕ
  pub setup_cmd : String
  pub diff_cmd : String
  pub issue : List ℕ
  pub system_prompt : List ℕ

-- `text[-n:]`: all of the text for zero.
unfoldable pub last_chars : ℕ → List ℕ → List ℕ
last_chars n text = if n == 0 then text else drop (length text - n) text

abbrev pub is_tool : Role → Bool
is_tool tool = true
is_tool _ = false

-- The indices of the tool messages, from `i` on.
unfoldable pub tool_indices : ℕ → List Message → List ℕ
tool_indices i [] = []
tool_indices i (m ∷ ms) =
    let rest = tool_indices (i + 1) ms in if is_tool m.role then i ∷ rest else rest

-- `tool_idx[:-k] if k > 0 else tool_idx`.
unfoldable pub old_indices : ℕ → List Message → List ℕ
unfolding tool_indices
old_indices keep_tools messages =
    let idx = tool_indices 0 messages in
    if ltb 0 keep_tools then take (length idx - keep_tools) idx else idx

unfoldable pub is_member : ℕ → List ℕ → Bool
is_member i [] = false
is_member i (j ∷ js) = i == j || is_member i js

module _ (w : World) where
  unfoldable pub truncate : List ℕ → ℕ → List ℕ
  unfolding last_chars
  truncate text limit =
      if leb (length text) limit
      then text
      else take (limit / 2) text
        ++ (w.points "\n...[truncated "
            ++ (w.digits (pos (length text - limit))
                ++ (w.points " chars]...\n" ++ last_chars (limit / 2) text)))

  abbrev pub elide : ℕ → List ℕ → List ℕ
  elide old_chars content =
      take old_chars content
      ++ (w.points "\n...[elided "
          ++ (w.digits (pos (length content - old_chars)) ++ w.points " chars]"))

  -- The body of the loop over the old indices, at the message `i` of the list.
  unfoldable pub elide_at : ℕ → ℕ → List Message → List Message × Bool
  elide_at old_chars i [] = ([], false)
  elide_at old_chars zero (m ∷ ms) =
      if ltb old_chars (length m.content)
      then (record m { content = elide old_chars m.content } ∷ ms, true)
      else (m ∷ ms, false)
  elide_at old_chars (suc i) (m ∷ ms) = let (rest, cut) = elide_at old_chars i ms in (m ∷ rest, cut)

  unfoldable pub prune_each : ℕ → List ℕ → List Message × List ℕ → List Message × List ℕ
  unfolding is_member elide_at
  prune_each old_chars [] (messages, elided) = (messages, elided)
  prune_each old_chars (i ∷ old) (messages, elided) =
      let (cut, hit) = elide_at old_chars i messages in
      prune_each old_chars old (
        if is_member i elided
        then (messages, elided)
        else (cut, if hit then i ∷ elided else elided))

  -- The messages, and the set of the indices that are cut already.
  unfoldable pub prune_messages : Config → List Message × List ℕ → List Message × List ℕ
  unfolding prune_each old_indices
  prune_messages cfg (messages, elided) =
      prune_each cfg.prune_old_chars (old_indices cfg.prune_keep_tools messages) (messages, elided)
