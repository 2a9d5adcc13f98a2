-- ===== src/AgentRunner/Run.antt =====
-- agent_runner.py: one turn of the loop and the whole run.
use llm_rl_cpu_poc.Common.{
  ℕ, zero, suc, ◌+◌, ltb, Bool, true, false, not, ◌||◌, Option, none, some, List, [], ◌∷◌, ◌++◌,
  length, ◌==◌, text_key, if◌then◌else◌,
}
use llm_rl_cpu_poc.Common.Int.{pos, int_key}
use llm_rl_cpu_poc.AgentRunner.{
  ToolCall, Role, system, user, assistant, tool, Message, ExecResult, response, http_error, failure,
  Status, max_turns, timeout, submitted, no_tool_call, adapter_http_error, adapter_error, Call,
  create, exec, stop, World, Config, truncate, prune_messages,
}

pub record TurnStat : Type 0 where
  pub turn : ℕ
  pub gen_lat_s : ℕ
  pub exec_wall_s : ℕ
  pub n_tool_calls : ℕ

-- The local variables of `run`, with the indices of the cut messages and the calls made so far.
pub record Loop : Type 0 where
  pub messages : List Message
  pub elided : List ℕ
  pub nudges : ℕ
  pub turn_stats : List TurnStat
  pub calls : List Call

-- The end of one turn: the next turn, a `break` with a status, or an exception.
pub data Turn : Type 0 where
  go_on : Loop → Turn
  break_with : Status → Loop → Turn
  raised : Loop → Turn

abbrev pub plain : Role → List ℕ → Message
plain role content = record { role = role; content = content; tool_calls = []; tool_call_id = "" }

abbrev pub is_submit : List ToolCall → Bool
is_submit [] = false
is_submit (tc ∷ tcs) = tc.name == "submit" || is_submit tcs

abbrev pub is_empty : List ToolCall → Bool
is_empty [] = true
is_empty (_ ∷ _) = false

abbrev pub add_call : Call → Loop → Loop
add_call c l = record l { calls = l.calls ++ (c ∷ []) }

abbrev pub add_message : Message → Loop → Loop
add_message m l = record l { messages = l.messages ++ (m ∷ []) }

abbrev pub add_stat : TurnStat → Loop → Loop
add_stat t l = record l { turn_stats = l.turn_stats ++ (t ∷ []) }

-- The number of commands sent so far.
abbrev pub count_execs : List Call → ℕ
count_execs [] = 0
count_execs (exec _ ∷ calls) = suc (count_execs calls)
count_execs (_ ∷ calls) = count_execs calls

module _ (w : World) (cfg : Config) where
  -- The observation of a command.
  unfoldable pub observe : ExecResult → List ℕ
  unfolding truncate
  observe r =
      let err_text : List ℕ = elim r.stderr [
        | [] ↦ []
        | c ∷ cs ↦ w.points "\nSTDERR:\n" ++ (c ∷ cs)
      ] in
      w.points "exit="
      ++ (w.digits r.rc ++ (w.points "\n" ++ truncate w (r.stdout ++ err_text) cfg.obs_limit))

  abbrev pub answer_call : ToolCall → List ℕ → Loop → Loop
  answer_call tc text l = add_message (record (plain tool text) { tool_call_id = tc.ident }) l

  -- One tool call, with the time its command took; none is an exception of the sandbox client.
  unfoldable pub run_tool : ToolCall → Loop → Option (Loop × ℕ) × Loop
  unfolding observe
  run_tool tc l =
      if tc.name == "bash"
      then elim (w.parse_cmd tc.arguments) [
        | none ↦
            let l' = answer_call tc (w.points "error: malformed tool arguments") l in
            (some (l', 0), l')
        | some cmd ↦
            if cmd == ""
            then (let l' = answer_call tc [] l in (some (l', 0), l'))
            else (let sent = add_call (exec cmd) l in
                elim (w.exec (count_execs l.calls) cmd) [
                  | none ↦ (none, sent)
                  | some r ↦ let l' = answer_call tc (observe r) sent in (some (l', r.wall_s), l')
                ])
      ]
      else (let l' = answer_call tc (w.points "error: unknown tool " ++ w.points tc.name) l in
          (some (l', 0), l'))

  unfoldable pub run_tools : List ToolCall → ℕ → Loop → Option (Loop × ℕ) × Loop
  unfolding run_tool
  run_tools [] wall l = (some (l, wall), l)
  run_tools (tc ∷ tcs) wall l =
      let (out, left) = run_tool tc l in
      elim out [ none ↦ (none, left) | some (l', s) ↦ run_tools tcs (wall + s) l' ]

  abbrev pub nudge : Message
  nudge = plain user (w.points "Use the bash tool to work on the repo, or call submit when done.")

  -- The part of a turn behind the reply.
  unfoldable pub act : ℕ → List ToolCall → Loop → Turn
  unfolding run_tools
  act turn tool_calls l =
      let stat : TurnStat = record {
        turn = turn;
        gen_lat_s = w.gen_lat turn;
        exec_wall_s = 0;
        n_tool_calls = 0;
      } in
      if is_submit tool_calls
      then break_with submitted (add_stat stat l)
      else if is_empty tool_calls
      then (let l' = add_stat stat (record l { nudges = l.nudges + 1 }) in
          if ltb cfg.max_nudges l'.nudges
          then break_with no_tool_call l'
          else go_on (add_message nudge l'))
      else (let (out, left) = run_tools tool_calls 0 (record l { nudges = 0 }) in
          elim out [
            | none ↦ raised left
            | some (l', wall) ↦
                go_on (
                  add_stat (record stat { exec_wall_s = wall; n_tool_calls = length tool_calls })
                    l')
          ])

  unfoldable pub run_turn : ℕ → Loop → Turn
  unfolding act prune_messages
  run_turn turn l =
      if ltb cfg.agent_timeout_s (w.elapsed turn)
      then break_with timeout l
      else (let (messages, elided) = prune_messages w cfg (l.messages, l.elided) in
          let pruned : Loop = record l { messages = messages; elided = elided } in
          elim (w.generate turn messages) [
            | http_error code detail ↦ break_with (adapter_http_error code detail) pruned
            | failure text ↦ break_with (adapter_error text) pruned
            | response text tool_calls ↦
                act turn tool_calls
                  (add_message (record (plain assistant text) { tool_calls = tool_calls }) pruned)
          ])

  -- `for turn in range(max_turns)`, with `left` turns to go; the status where no turn breaks is
  -- `max_turns`, and none is an exception.
  unfoldable pub run_turns : ℕ → ℕ → Loop → Option Status × Loop
  unfolding run_turn
  run_turns zero turn l = (some max_turns, l)
  run_turns (suc left) turn l = elim (run_turn turn l) [
    | go_on l' ↦ run_turns left (turn + 1) l'
    | break_with status l' ↦ (some status, l')
    | raised l' ↦ (none, l')
  ]

abbrev pub sum_by : (TurnStat → ℕ) → List TurnStat → ℕ
sum_by f [] = 0
sum_by f (t ∷ ts) = f t + sum_by f ts

-- What `run` returns; none of the fields but the calls where it raised.
pub record Meta : Type 0 where
  pub status : Status
  pub turns : ℕ
  pub gen_lat_total_s : ℕ
  pub exec_wall_total_s : ℕ
  pub turn_stats : List TurnStat
  pub patch : List ℕ

module _ (w : World) (cfg : Config) where
  abbrev pub first_loop : Loop
  first_loop = record {
    messages =
        plain system cfg.system_prompt
        ∷ plain user (w.points "Issue to fix:\n\n" ++ cfg.issue)
        ∷ [];
    elided = [];
    nudges = 0;
    turn_stats = [];
    calls = create ∷ exec cfg.setup_cmd ∷ [];
  }

  -- `_extract_patch` behind the loop; an exception of the client is none.
  unfoldable pub extract_patch : Status → Loop → Option Meta × List Call
  extract_patch status l =
      let calls = l.calls ++ (exec cfg.diff_cmd ∷ []) in
      elim (w.exec (count_execs l.calls) cfg.diff_cmd) [
        | none ↦ (none, calls)
        | some r ↦ (
          some (record {
            status = status;
            turns = length l.turn_stats;
            gen_lat_total_s = sum_by (λ t. t.gen_lat_s) l.turn_stats;
            exec_wall_total_s = sum_by (λ t. t.exec_wall_s) l.turn_stats;
            turn_stats = l.turn_stats;
            patch = if r.rc == pos 0 then r.stdout else [];
          }),
          calls,
        )
      ]

  -- The `try` block behind `create`, with the calls it made.
  unfoldable pub run_body : Option Meta × List Call
  unfolding extract_patch run_turns
  run_body = elim (w.exec 0 cfg.setup_cmd) [
    | none ↦ (none, create ∷ exec cfg.setup_cmd ∷ [])
    | some r ↦
        if not (r.rc == pos 0)
        then (none, create ∷ exec cfg.setup_cmd ∷ [])
        else (let (status, l) = run_turns w cfg cfg.max_turns 0 first_loop in
            elim status [ none ↦ (none, l.calls) | some s ↦ extract_patch s l ])
  ]

  -- None is an exception. The `finally` block stops the sandbox if it was created.
  unfoldable pub run : Option Meta × List Call
  unfolding run_body
  run = elim w.create [
    | none ↦ (none, create ∷ [])
    | some sandbox_id ↦ let (out, calls) = run_body in (out, calls ++ (stop sandbox_id ∷ []))
  ]
