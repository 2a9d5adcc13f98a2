-- ===== src/AgentRunner/Transcript.antt =====
-- agent_runner.py: the history that the loop sends to the model is a well-formed chat: every tool
-- message answers a call of the assistant's message before it.
use llm_rl_cpu_poc.Common.{
  ℕ, zero, suc, ◌+◌, ◌≡◌, ◌≢◌, length, refl, sym, ap, ◌∙◌, subst, Option, none, some, true, false,
  String, List, [], ◌∷◌, ◌++◌, map, ltb, arith, Bool-cases, Option-cases, inl, inr, ◌==◌, text_key,
  number_key,
}
use mathlib.Core.List.{map-append, append-nil, append_assoc}
use llm_rl_cpu_poc.AgentRunner.{
  ToolCall, Role, system, user, assistant, tool, Message, Reply, response, http_error, failure,
  adapter_http_error, adapter_error, World, Config, is_member, elide_at, prune_each, prune_messages,
  old_indices,
}
use llm_rl_cpu_poc.AgentRunner.Run.{
  Loop, Turn, go_on, break_with, raised, is_submit, is_empty, plain, nudge, add_message, add_stat,
  count_execs, run_tool, run_tools, act, run_turn, first_loop,
}

-- A message without its text.
pub record Header : Type 0 where
  pub role : Role
  pub calls : List ToolCall
  pub answers : String

abbrev pub header : Message → Header
header m = record { role = m.role; calls = m.tool_calls; answers = m.tool_call_id }

abbrev pub headers : List Message → List Header
headers = map header

abbrev pub says : Role → Header
says r = record { role = r; calls = []; answers = "" }

abbrev pub asks : List ToolCall → Header
asks tcs = record { role = assistant; calls = tcs; answers = "" }

abbrev pub answers_to : ToolCall → Header
answers_to tc = record { role = tool; calls = []; answers = tc.ident }

-- Chats: a system and a user message, then rounds. In a round the assistant asks for nothing and
-- the user answers, or it asks for calls and each of them is answered once, in their order.
pub data IsChat : List Header → Type 0 where
  opened : IsChat (says system ∷ says user ∷ [])
  nudged : {hs out : List Header} → IsChat hs → out ≡ hs ++ (asks [] ∷ says user ∷ []) → IsChat out
  called :
      {hs out : List Header} (tcs : List ToolCall)
      → tcs ≢ []
      → IsChat hs
      → out ≡ hs ++ (asks tcs ∷ map answers_to tcs)
      → IsChat out

module _ (w : World) (cfg : Config) where
  elide_at-headers : (n i : ℕ) (ms : List Message) → headers (elide_at w n i ms).0 ≡ headers ms
  unfolding elide_at
  elide_at-headers n i [] = refl
  elide_at-headers n zero (m ∷ ms) = ground arith
  elide_at-headers n (suc i) (m ∷ ms) = ap (λ hs. header m ∷ hs) (elide_at-headers n i ms)

  prune_each-headers :
      (n : ℕ) (is : List ℕ) (ms : List Message) (elided : List ℕ)
      → headers (prune_each w n is (ms, elided)).0 ≡ headers ms
  unfolding prune_each
  prune_each-headers n [] ms elided = refl
  prune_each-headers n (i ∷ is) ms elided = elim (Bool-cases (is_member i elided)) [
    | inl e ↦ rw (e, prune_each) (prune_each-headers n is ms elided)
    | inr e ↦ rw (e, prune_each) (prune_each-headers n is _ _ ∙ elide_at-headers n i ms)
  ]

  prune_messages-headers :
      (ms : List Message) (elided : List ℕ)
      → headers (prune_messages w cfg (ms, elided)).0 ≡ headers ms
  unfolding prune_messages
  prune_messages-headers ms elided =
      prune_each-headers cfg.prune_old_chars (old_indices cfg.prune_keep_tools ms) ms elided

  -- What the tool calls add to the history, where none of them raises.
  abbrev Adds : List Header → Loop → Option (Loop × ℕ) × Loop → Type 0
  Adds hs l (none, left) = Unit {0}
  Adds hs l (some (l', s), left) = headers l'.messages ≡ headers l.messages ++ hs

  run_tool-Adds : (tc : ToolCall) (l : Loop) → Adds (answers_to tc ∷ []) l (run_tool w cfg tc l)
  unfolding run_tool
  run_tool-Adds tc l = elim (Bool-cases (tc.name == "bash")) [
    | inr e ↦ rw (e, run_tool) (map-append header l.messages _)
    | inl e ↦ elim (Option-cases (w.parse_cmd tc.arguments)) [
      | inl p ↦ rw (e, p, run_tool) (map-append header l.messages _)
      | inr (cmd, p) ↦ elim (Bool-cases (cmd == "")) [
        | inl q ↦ rw (e, p, q, run_tool) (map-append header l.messages _)
        | inr q ↦ elim (Option-cases (w.exec (count_execs l.calls) cmd)) [
          | inl f ↦ rw (e, p, q, f, run_tool) tt
          | inr (r, f) ↦ rw (e, p, q, f, run_tool) (map-append header l.messages _)
        ]
      ]
    ]
  ]

  run_tools-Adds :
      (tcs : List ToolCall) (wall : ℕ) (l : Loop)
      → Adds (map answers_to tcs) l (run_tools w cfg tcs wall l)
  unfolding run_tools
  run_tools-Adds [] wall l = sym (append-nil (headers l.messages))
  run_tools-Adds (tc ∷ tcs) wall l =
      go (run_tool w cfg tc l) (run_tool-Adds tc l) (λ s l'. run_tools-Adds tcs (wall + s) l')
    where
      more :
          (l' : Loop) (out : Option (Loop × ℕ) × Loop)
          → headers l'.messages ≡ headers l.messages ++ (answers_to tc ∷ [])
          → Adds (map answers_to tcs) l' out
          → Adds (map answers_to (tc ∷ tcs)) l out
      more l' (none, left) h k = tt
      more l' (some (l₂, s), left) h k =
          k
          ∙ ap (λ hs. hs ++ map answers_to tcs) h
          ∙ append_assoc (headers l.messages) (answers_to tc ∷ []) (map answers_to tcs)

      go :
          (out : Option (Loop × ℕ) × Loop)
          → Adds (answers_to tc ∷ []) l out
          → ((s : ℕ) (l' : Loop) → Adds (map answers_to tcs) l' (run_tools w cfg tcs (wall + s) l'))
          → Adds (map answers_to (tc ∷ tcs)) l (elim out.0 [
            | none ↦ (none, out.1)
            | some (l', s) ↦ run_tools w cfg tcs (wall + s) l'
          ])
      go (none, left) k f = tt
      go (some (l', s), left) k f = more l' (run_tools w cfg tcs (wall + s) l') k (f s l')

  -- A turn that goes on leaves a chat.
  abbrev Chats : Turn → Type 0
  Chats (go_on l) = IsChat (headers l.messages)
  Chats (break_with s l) = Unit {0}
  Chats (raised l) = Unit {0}

  act-Chats :
      (turn : ℕ) (tcs : List ToolCall) (hs : List Header) (l : Loop)
      → IsChat hs
      → headers l.messages ≡ hs ++ (asks tcs ∷ [])
      → Chats (act w cfg turn tcs l)
  unfolding act
  act-Chats turn tcs hs l c h = elim (Bool-cases (is_submit tcs)) [
    | inl e ↦ rw (e, act) tt
    | inr e ↦ elim (Bool-cases (is_empty tcs)) [
      | inl q ↦ elim (Bool-cases (ltb cfg.max_nudges (l.nudges + 1))) [
        | inl x ↦ rw (e, q, x, act) tt
        | inr x ↦ rw (e, q, x, act) (nudge_chat tcs h q)
      ]
      | inr q ↦
          rw (e, q, act)
            (go q (run_tools w cfg tcs 0 (record l { nudges = 0 }))
              (run_tools-Adds tcs 0 (record l { nudges = 0 })))
    ]
  ]
    where
      nudge_chat :
          (tcs : List ToolCall)
          → headers l.messages ≡ hs ++ (asks tcs ∷ [])
          → is_empty tcs ≡ true
          → IsChat (headers (l.messages ++ (nudge w cfg ∷ [])))
      nudge_chat [] h q = nudged c (
          map-append header l.messages (nudge w cfg ∷ [])
          ∙ ap (λ x. x ++ (says user ∷ [])) h
          ∙ append_assoc hs (asks [] ∷ []) (says user ∷ []))
      nudge_chat (tc ∷ tcs) h q = absurd (ground (arith, q))

      go :
          is_empty tcs ≡ false
          → (out : Option (Loop × ℕ) × Loop)
          → Adds (map answers_to tcs) (record l { nudges = 0 }) out
          → Chats (elim out.0 [
            | none ↦ raised out.1
            | some (l', wall) ↦ go_on (
                add_stat
                  (record {
                    turn = turn;
                    gen_lat_s = w.gen_lat turn;
                    exec_wall_s = wall;
                    n_tool_calls = length tcs;
                  })
                  l')
          ])
      go q (none, left) k = tt
      go q (some (l', s), left) k =
          called tcs (λ p. cc (ap is_empty p, q)) c
            (k
              ∙ ap (λ x. x ++ map answers_to tcs) h
              ∙ append_assoc hs (asks tcs ∷ []) (map answers_to tcs))

  run_turn-Chats :
      (turn : ℕ) (l : Loop) → IsChat (headers l.messages) → Chats (run_turn w cfg turn l)
  unfolding run_turn
  run_turn-Chats turn l c = elim (Bool-cases (ltb cfg.agent_timeout_s (w.elapsed turn))) [
    | inl e ↦ rw (e, run_turn) tt
    | inr e ↦
        rw (e, run_turn) (replied (w.generate turn (prune_messages w cfg (l.messages, l.elided)).0))
  ]
    where
      pruned : Loop
      pruned =
          let (messages, elided) = prune_messages w cfg (l.messages, l.elided) in
          record l { messages = messages; elided = elided }

      replied :
          (reply : Reply)
          → Chats (elim reply [
            | http_error code detail ↦ break_with (adapter_http_error code detail) pruned
            | failure text ↦ break_with (adapter_error text) pruned
            | response text tool_calls ↦
                act w cfg turn tool_calls
                  (add_message (record (plain assistant text) { tool_calls = tool_calls }) pruned)
          ])
      replied (http_error code detail) = tt
      replied (failure text) = tt
      replied (response text tcs) =
          act-Chats turn tcs (headers pruned.messages)
            (add_message (record (plain assistant text) { tool_calls = tcs }) pruned)
            (subst IsChat (sym (prune_messages-headers l.messages l.elided)) c)
            (map-append header pruned.messages _)

  -- The loops that the turns reach, with the number of the next turn.
  pub data Reached : ℕ → Loop → Type 0 where
    first : Reached 0 (first_loop w cfg)
    next : {n : ℕ} {l l' : Loop} → Reached n l → run_turn w cfg n l ≡ go_on l' → Reached (suc n) l'

  Reached-IsChat : {n : ℕ} {l : Loop} → Reached n l → IsChat (headers l.messages)
  Reached-IsChat first = opened
  Reached-IsChat (next {n} {l} r e) = subst Chats e (run_turn-Chats n l (Reached-IsChat r))

  -- In every turn that the loop reaches, the history that is sent to the model is a chat, pruned or not: a system and a user message,
  -- then rounds in which the user answers an assistant that calls nothing, or each call of the assistant
  -- is answered by one tool message with its id, in the order of the calls.
  pub prune_messages-IsChat :
      {n : ℕ} {l : Loop}
      → Reached n l
      → IsChat (headers (prune_messages w cfg (l.messages, l.elided)).0)
  prune_messages-IsChat {n} {l} r =
      subst IsChat (sym (prune_messages-headers l.messages l.elided)) (Reached-IsChat r)
