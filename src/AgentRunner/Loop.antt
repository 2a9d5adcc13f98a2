-- ===== src/AgentRunner/Loop.antt =====
-- agent_runner.py: the sandbox is stopped on every way out, and the loop is bounded.
use llm_rl_cpu_poc.Common.{
  ℕ, zero, suc, ◌+◌, ◌≤◌, ◌≡◌, ◌≢◌, refl, ap, subst, ltb, String, Option, none, some, List, [], ◌∷◌,
  ◌++◌, length, length-append, All, All-append, arith, Bool-cases, Option-cases, inl, inr, ◌==◌,
  text_key,
}
use llm_rl_cpu_poc.Common.Int.{pos, int_key}
use llm_rl_cpu_poc.AgentRunner.{
  ToolCall, assistant, Reply, response, http_error, failure, Status, error, adapter_http_error,
  adapter_error, Call, create, exec, stop, World, Config, prune_messages,
}
use llm_rl_cpu_poc.AgentRunner.Run.{
  Loop, TurnStat, Turn, go_on, break_with, raised, is_submit, is_empty, add_message, add_stat,
  run_tool, run_tools, count_execs, act, run_turn, run_turns, Meta, plain, first_loop,
  extract_patch, run_body, run,
}

abbrev pub IsExec : Call → Type 0
IsExec c = elim c [ create ↦ ⊥ | exec _ ↦ Unit {0} | stop _ ↦ ⊥ ]

-- The sandbox was created, and only commands were sent since.
abbrev pub IsOpen : List Call → Type 0
IsOpen calls = (execs : List Call) × All IsExec execs × (calls ≡ create ∷ execs)

IsOpen-exec : (calls : List Call) (cmd : String) → IsOpen calls → IsOpen (calls ++ (exec cmd ∷ []))
IsOpen-exec calls cmd (execs, all, same) = (
  execs ++ (exec cmd ∷ []),
  All-append IsExec execs (exec cmd ∷ []) all (tt, tt),
  ap (λ c. c ++ (exec cmd ∷ [])) same,
)

-- A loop that is open and has recorded at most `n` turns.
abbrev pub Within : ℕ → Loop → Type 0
Within n l = IsOpen l.calls × (length l.turn_stats ≤ n)

Within-add_stat : (n : ℕ) (t : TurnStat) (l : Loop) → Within n l → Within (n + 1) (add_stat t l)
Within-add_stat n t l h = (h.0, omega (arith, length-append l.turn_stats (t ∷ []), h.1))

abbrev ToolEnds : ℕ → Option (Loop × ℕ) × Loop → Type 0
ToolEnds n (none, left) = IsOpen left.calls
ToolEnds n (some (l, _), left) = Within n l

abbrev TurnEnds : ℕ → ℕ → Turn → Type 0
TurnEnds n m (go_on l) = Within m l
TurnEnds n m (break_with s l) = Within m l × (s ≢ error)
TurnEnds n m (raised l) = IsOpen l.calls

module _ (w : World) (cfg : Config) where
  run_tool-ToolEnds :
      (n : ℕ) (tc : ToolCall) (l : Loop) → Within n l → ToolEnds n (run_tool w cfg tc l)
  unfolding run_tool
  run_tool-ToolEnds n tc l h = elim (Bool-cases (tc.name == "bash")) [
    | inr e ↦ rw (e, run_tool) h
    | inl e ↦ elim (Option-cases (w.parse_cmd tc.arguments)) [
      | inl p ↦ rw (e, p, run_tool) h
      | inr (cmd, p) ↦ elim (Bool-cases (cmd == "")) [
        | inl q ↦ rw (e, p, q, run_tool) h
        | inr q ↦ elim (Option-cases (w.exec (count_execs l.calls) cmd)) [
          | inl f ↦ rw (e, p, q, f, run_tool) (IsOpen-exec l.calls cmd h.0)
          | inr (r, f) ↦ rw (e, p, q, f, run_tool) (IsOpen-exec l.calls cmd h.0, h.1)
        ]
      ]
    ]
  ]

  run_tools-ToolEnds :
      (n : ℕ) (tcs : List ToolCall) (wall : ℕ) (l : Loop)
      → Within n l
      → ToolEnds n (run_tools w cfg tcs wall l)
  unfolding run_tools
  run_tools-ToolEnds n [] wall l h = h
  run_tools-ToolEnds n (tc ∷ tcs) wall l h =
      go (run_tool w cfg tc l) (run_tool-ToolEnds n tc l h)
        (λ s l'. run_tools-ToolEnds n tcs (wall + s) l')
    where
      go :
          (out : Option (Loop × ℕ) × Loop)
          → ToolEnds n out
          → ((s : ℕ) (l' : Loop) → Within n l' → ToolEnds n (run_tools w cfg tcs (wall + s) l'))
          → ToolEnds n (elim out.0 [
            | none ↦ (none, out.1)
            | some (l', s) ↦ run_tools w cfg tcs (wall + s) l'
          ])
      go (none, left) k f = k
      go (some (l', s), left) k f = f s l' k

  act-TurnEnds :
      (n turn : ℕ) (tcs : List ToolCall) (l : Loop)
      → Within n l
      → TurnEnds n (n + 1) (act w cfg turn tcs l)
  unfolding act
  act-TurnEnds n turn tcs l h = elim (Bool-cases (is_submit tcs)) [
    | inl e ↦ rw (e, act) (Within-add_stat n _ l h, ground arith)
    | inr e ↦ elim (Bool-cases (is_empty tcs)) [
      | inl q ↦ elim (Bool-cases (ltb cfg.max_nudges (l.nudges + 1))) [
        | inl x ↦ rw (e, q, x, act) (Within-add_stat n _ l h, ground arith)
        | inr x ↦ rw (e, q, x, act) (Within-add_stat n _ l h)
      ]
      | inr q ↦
          rw (e, q, act)
            (go (run_tools w cfg tcs 0 (record l { nudges = 0 }))
              (run_tools-ToolEnds n tcs 0 (record l { nudges = 0 }) h))
    ]
  ]
    where
      go :
          (out : Option (Loop × ℕ) × Loop)
          → ToolEnds n out
          → TurnEnds n (n + 1) (elim out.0 [
            | none ↦ raised out.1
            | some (l', wall) ↦ go_on (
                add_stat
                  (record {
                    turn = turn;
                    gen_lat_s = w.gen_lat turn;
                    exec_wall_s = wall;
                    n_tool_calls = length tcs;
                  })
                  l')
          ])
      go (none, left) k = k
      go (some (l', s), left) k = Within-add_stat n _ l' k

  Within-more : (n : ℕ) (l : Loop) → Within n l → Within (n + 1) l
  Within-more n l h = (h.0, omega (arith, h.1))

  abbrev pruned : Loop → Loop
  pruned l =
      let (messages, elided) = prune_messages w cfg (l.messages, l.elided) in
      record l { messages = messages; elided = elided }

  run_turn-TurnEnds :
      (n turn : ℕ) (l : Loop) → Within n l → TurnEnds n (n + 1) (run_turn w cfg turn l)
  unfolding run_turn
  run_turn-TurnEnds n turn l h = elim (Bool-cases (ltb cfg.agent_timeout_s (w.elapsed turn))) [
    | inl e ↦ rw (e, run_turn) (Within-more n l h, ground arith)
    | inr e ↦
        rw (e, run_turn) (replied (w.generate turn (prune_messages w cfg (l.messages, l.elided)).0))
  ]
    where
      replied :
          (reply : Reply)
          → TurnEnds n (n + 1) (elim reply [
            | http_error code detail ↦ break_with (adapter_http_error code detail) (pruned l)
            | failure text ↦ break_with (adapter_error text) (pruned l)
            | response text tool_calls ↦
                act w cfg turn tool_calls (
                  add_message
                    (record (plain assistant text) { tool_calls = tool_calls })
                    (pruned l))
          ])
      replied (http_error code detail) = (Within-more n (pruned l) h, ground arith)
      replied (failure text) = (Within-more n (pruned l) h, ground arith)
      replied (response text tool_calls) =
          act-TurnEnds n turn tool_calls
            (add_message (record (plain assistant text) { tool_calls = tool_calls }) (pruned l)) h

  -- What the loop leaves: it stays open, records at most `n` turns and has a status other than the
  -- initial one.
  abbrev pub Leaves : ℕ → Option Status × Loop → Type 0
  Leaves n (none, l) = IsOpen l.calls
  Leaves n (some s, l) = Within n l × (s ≢ error)

  run_turns-Leaves :
      (left n turn : ℕ) (l : Loop) → Within n l → Leaves (n + left) (run_turns w cfg left turn l)
  unfolding run_turns
  run_turns-Leaves zero n turn l h = ((h.0, omega (arith, h.1)), ground arith)
  run_turns-Leaves (suc left) n turn l h =
      go (run_turn w cfg turn l) (run_turn-TurnEnds n turn l h)
        (λ l' k. run_turns-Leaves left (n + 1) (turn + 1) l' k)
    where
      go :
          (t : Turn)
          → TurnEnds n (n + 1) t
          → ((l' : Loop)
              → Within (n + 1) l'
              → Leaves (n + 1 + left) (run_turns w cfg left (turn + 1) l'))
          → Leaves (n + suc left) (elim t [
            | go_on l' ↦ run_turns w cfg left (turn + 1) l'
            | break_with status l' ↦ (some status, l')
            | raised l' ↦ (none, l')
          ])
      go (go_on l') k f =
          subst (λ m. Leaves m (run_turns w cfg left (turn + 1) l')) (omega arith) (f l' k)
      go (break_with s l') k f = ((k.0.0, omega (arith, k.0.1)), k.1)
      go (raised l') k f = k

-- How a run ends for the sandbox id that was created, if any. Without one nothing else is called.
-- With one, the calls are the creation, commands, and one stop of that sandbox as the last call, also
-- where the run raised; where it returned, it recorded at most `max_turns` turns, counted them right
-- and replaced the initial status.
abbrev pub Finishes : Config → Option String → Option Meta × List Call → Type 0
Finishes cfg none (out, calls) = (out ≡ none) × (calls ≡ create ∷ [])
Finishes cfg (some sandbox_id) (out, calls) =
    ((execs : List Call) × All IsExec execs × (calls ≡ create ∷ (execs ++ (stop sandbox_id ∷ []))))
    × elim out [
      | none ↦ Unit {0}
      | some m ↦ (m.turns ≤ cfg.max_turns) × (m.turns ≡ length m.turn_stats) × (m.status ≢ error)
    ]

-- The same before the stop.
abbrev BodyEnds : Config → Option Meta × List Call → Type 0
BodyEnds cfg (out, calls) = IsOpen calls × elim out [
  | none ↦ Unit {0}
  | some m ↦ (m.turns ≤ cfg.max_turns) × (m.turns ≡ length m.turn_stats) × (m.status ≢ error)
]

module _ (w : World) (cfg : Config) where
  extract_patch-BodyEnds :
      (s : Status) (l : Loop)
      → Within cfg.max_turns l
      → s ≢ error
      → BodyEnds cfg (extract_patch w cfg s l)
  unfolding extract_patch
  extract_patch-BodyEnds s l h ne =
      elim (Option-cases (w.exec (count_execs l.calls) cfg.diff_cmd)) [
        | inl e ↦ rw (e, extract_patch) (IsOpen-exec l.calls cfg.diff_cmd h.0, tt)
        | inr (r, e) ↦ rw (e, extract_patch) (IsOpen-exec l.calls cfg.diff_cmd h.0, (h.1, refl, ne))
      ]

  first-Within : Within 0 (first_loop w cfg)
  first-Within = ((exec cfg.setup_cmd ∷ [], (tt, tt), refl), omega arith)

  run_body-BodyEnds : BodyEnds cfg (run_body w cfg)
  unfolding run_body
  run_body-BodyEnds = elim (Option-cases (w.exec 0 cfg.setup_cmd)) [
    | inl e ↦ rw (e, run_body) (first-Within.0, tt)
    | inr (r, e) ↦ elim (Bool-cases (r.rc == pos 0)) [
      | inr q ↦ rw (e, q, run_body) (first-Within.0, tt)
      | inl q ↦
          rw (e, q, run_body)
            (go (run_turns w cfg cfg.max_turns 0 (first_loop w cfg))
              (run_turns-Leaves w cfg cfg.max_turns 0 0 (first_loop w cfg) first-Within))
    ]
  ]
    where
      go :
          (out : Option Status × Loop)
          → Leaves w cfg (0 + cfg.max_turns) out
          → BodyEnds cfg
              (elim out.0 [ none ↦ (none, out.1.calls) | some s ↦ extract_patch w cfg s out.1 ])
      go (none, l) k = (k, tt)
      go (some s, l) k = extract_patch-BodyEnds s l (k.0.0, omega (arith, k.0.1)) k.1

  -- However a run ends, it ends as `Finishes` says for the sandbox that it created.
  pub run-Finishes : Finishes cfg w.create (run w cfg)
  unfolding run
  run-Finishes = elim (Option-cases w.create) [
    | inl e ↦ rw (e, run) (refl, refl)
    | inr (sandbox_id, e) ↦
        let ((execs, all, same), good) = run_body-BodyEnds in
        rw (e, run) ((execs, all, ap (λ c. c ++ (stop sandbox_id ∷ [])) same), good)
  ]
