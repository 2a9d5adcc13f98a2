-- ===== src/Adapter/Accounts.antt =====
-- adapter.py: its counters, its logs, and what rollout_manager.py reads out of a log.
use llm_rl_cpu_poc.Common.{
  ℕ, suc, ◌+◌, ◌≡◌, refl, ap, ◌∙◌, String, Option, none, some, List, [], ◌∷◌, ◌++◌, map, length,
  length-append, ◌==◌, text_key, arith, Bool-cases, inl, inr,
}
use llm_rl_cpu_poc.Common.Dict.{Dict, lookup, insert}
use llm_rl_cpu_poc.Common.Float.{Float}
use llm_rl_cpu_poc.Common.Int.{ℤ}
use llm_rl_cpu_poc.Common.Result.{Result, ok, err}
use llm_rl_cpu_poc.Router.{Router, Surroundings, ForwardError}
use llm_rl_cpu_poc.Rollout.Remote.{add_tokens, add_records, fill_logprob}
use llm_rl_cpu_poc.Types.{Sample}
use llm_rl_cpu_poc.Adapter.{
  Body, Payload, Choice, Completion, LogRecord, Adapter, new_adapter, Failure, Answer, log_call,
  out_tokens, take_choice, take_first, take_sent, generate_with, generate,
}
use mathlib.Core.Option

-- The logprobs of a record, as the reader of the log sees them.
abbrev pub logprobs_of : {F : Type 0} → LogRecord F → List (Option F)
logprobs_of r = map (λ t. some t.1) r.out_tokens

-- The sum of a measure over all logs.
abbrev pub total : {A : Type 0} → (List A → ℕ) → Dict String (List A) → ℕ
total f [] = 0
total f ((_, log) ∷ d) = f log + total f d

map-one :
    {F : Type 0} (log : List (LogRecord F)) (r : LogRecord F)
    → map logprobs_of (log ++ (r ∷ [])) ≡ map logprobs_of log ++ (logprobs_of r ∷ [])
map-one [] r = refl
map-one (q ∷ log) r = ap (λ l. logprobs_of q ∷ l) (map-one log r)

length-map : {A B : Type 0} (f : A → B) (xs : List A) → length (map f xs) ≡ length xs
length-map f [] = refl
length-map f (x ∷ xs) = ap suc (length-map f xs)

total-append :
    {A : Type 0} (f : List A → ℕ) (r : A) (k : ℕ) (t : String) (d : Dict String (List A))
    → f [] ≡ 0
    → ((log : List A) → f (log ++ (r ∷ [])) ≡ f log + k)
    → total f (insert t (Option.get_or (lookup t d) [] ++ (r ∷ [])) d) ≡ total f d + k
unfolding insert lookup
total-append f r k t [] z more = omega (arith, z, more [])
total-append f r k t ((j, log) ∷ d) z more = elim (Bool-cases (j == t)) [
  | inl e ↦ rw e (omega (arith, more log))
  | inr e ↦
      let found : lookup t ((j, log) ∷ d) ≡ lookup t d = rw (e, lookup) refl in
      let put : List _ → Dict String (List _) = λ v. insert t v ((j, log) ∷ d) in
      let v : List _ = Option.get_or (lookup t d) [] ++ (r ∷ []) in
      let behind : insert t v ((j, log) ∷ d) ≡ (j, log) ∷ insert t v d = rw (e, insert) refl in
      ap (λ o. total f (put (Option.get_or o [] ++ (r ∷ [])))) found
      ∙ ap (total f) behind
      ∙ omega (arith, total-append f r k t d z more)
]

-- One more answer where a call returned.
abbrev pub count_answer : {C : Type 0} → Result Failure (Answer C) → ℕ
count_answer (ok _) = 1
count_answer (err _) = 0

module _ (fl : Float) where
  open fl use {F}

  add_tokens-count :
      (lps : List (Option F)) (x : F) (n : ℕ) → (add_tokens fl lps (x, n)).1 ≡ n + length lps
  unfolding add_tokens
  add_tokens-count [] x n = omega arith
  add_tokens-count (lp ∷ lps) x n =
      omega (arith, add_tokens-count lps (fl.add x (Option.get_or lp fl.zero)) (n + 1))

  add_records-append :
      (rs : List (List (Option F))) (r : List (Option F)) (acc : F × ℕ)
      → (add_records fl (rs ++ (r ∷ [])) acc).1 ≡ (add_records fl rs acc).1 + length r
  unfolding add_records
  add_records-append [] r (x, n) = add_tokens-count r x n
  add_records-append (q ∷ rs) r acc = add_records-append rs r (add_tokens fl q acc)

  module _ {P : Type 0} (s : Sample F P) where
    -- What the rollout side counts as a trajectory's tokens when it has read its log.
    abbrev pub tokens_read : List (LogRecord F) → ℕ
    tokens_read log = (fill_logprob fl (map logprobs_of log) s).num_tokens

    tokens_read-append :
        (log : List (LogRecord F)) (r : LogRecord F)
        → tokens_read (log ++ (r ∷ [])) ≡ tokens_read log + length r.out_tokens
    unfolding fill_logprob
    tokens_read-append log r =
        ap (λ l. (add_records fl l (fl.zero, 0)).1) (map-one log r)
        ∙ add_records-append (map logprobs_of log) (logprobs_of r) (fl.zero, 0)
        ∙ ap (λ n. tokens_read log + n) (length-map (λ t. some t.1) r.out_tokens)

    pub record IsAccounted (answered : ℕ) (a : Adapter F) : Type 0 where
      pub calls_answered : a.calls ≡ answered
      pub calls_logged : a.calls ≡ total length a.logs
      pub latencies : length a.lat_s ≡ a.calls
      pub tokens_logged : a.tokens_out ≡ total tokens_read a.logs

  module _ {P : Type 0} (s : Sample F P) where
    -- The router's own state does not count.
    forwarded-IsAccounted :
        (answered : ℕ) (a : Adapter F) (router : Router)
        → IsAccounted s answered a
        → IsAccounted s answered (record a { router = router })
    forwarded-IsAccounted answered a router h = record {
      calls_answered = h.calls_answered;
      calls_logged = h.calls_logged;
      latencies = h.latencies;
      tokens_logged = h.tokens_logged;
    }

    unchanged :
        (answered : ℕ) (a : Adapter F) → IsAccounted s answered a → IsAccounted s (answered + 0) a
    unchanged answered a h = record {
      calls_answered = omega (arith, h);
      calls_logged = h.calls_logged;
      latencies = h.latencies;
      tokens_logged = h.tokens_logged;
    }

  module _ {C P : Type 0} (s : Sample F P) where
    take_choice-IsAccounted :
        (answered : ℕ) (traj_id : String) (turn : ℤ) (ts lat : F) (backend : String)
        (out : Completion F C) (c : Choice F C) (a : Adapter F)
        → IsAccounted s answered a
        → IsAccounted s (answered + 1) (take_choice fl traj_id turn ts lat backend out c a).1
    unfolding take_choice log_call out_tokens fill_logprob
    take_choice-IsAccounted answered traj_id turn ts lat backend out c a h =
        let r : LogRecord F = record {
          traj_id = traj_id;
          turn = turn;
          ts = ts;
          backend = backend;
          prompt_tokens = out.prompt_tokens;
          completion_tokens = out.completion_tokens;
          finish_reason = c.finish_reason;
          out_tokens = out_tokens fl c.toks;
        } in
        let records =
          total-append length r 1 traj_id a.logs refl (λ log. length-append log (r ∷ [])) in
        let tokens =
          total-append (tokens_read s) r (length (out_tokens fl c.toks)) traj_id a.logs refl
            (λ log. tokens_read-append s log r) in
        let kept : length (out_tokens fl c.toks) ≡ length c.toks =
          length-map (λ t. (Option.get_or t.token "", Option.get_or t.logprob fl.zero)) c.toks in
        record {
          calls_answered = omega (arith, h);
          calls_logged = omega (arith, h, records);
          latencies = omega (arith, h, length-append a.lat_s (lat ∷ []));
          tokens_logged = omega (arith, h, tokens, kept);
        }

    -- A call that fails leaves the accounts as they were.
    abbrev pub IsAccountedAfter : ℕ → Result Failure (Answer C) × Adapter F → Type 0
    IsAccountedAfter answered (out, a) = IsAccounted s (answered + count_answer out) a

    take_first-IsAccounted :
        (answered : ℕ) (traj_id : String) (turn : ℤ) (ts lat : F) (backend : String)
        (out : Completion F C) (choices : Option (List (Choice F C))) (a : Adapter F)
        → IsAccounted s answered a
        → IsAccountedAfter answered (take_first fl traj_id turn ts lat backend out choices a)
    unfolding take_first
    take_first-IsAccounted answered traj_id turn ts lat backend out none a h =
        unchanged s answered a h
    take_first-IsAccounted answered traj_id turn ts lat backend out (some []) a h =
        unchanged s answered a h
    take_first-IsAccounted answered traj_id turn ts lat backend out (some (c ∷ _)) a h =
        take_choice-IsAccounted answered traj_id turn ts lat backend out c a h

    take_sent-IsAccounted :
        (answered : ℕ) (traj_id : String) (turn : ℤ) (ts lat : F)
        (sent : Result ForwardError (Completion F C × String)) (a : Adapter F)
        → IsAccounted s answered a
        → IsAccountedAfter answered (take_sent fl traj_id turn ts lat sent a)
    unfolding take_sent
    take_sent-IsAccounted answered traj_id turn ts lat (err e) a h = unchanged s answered a h
    take_sent-IsAccounted answered traj_id turn ts lat (ok (out, backend)) a h =
        take_first-IsAccounted answered traj_id turn ts lat backend out out.choices a h

-- A call: what happens to it, the clock's readings, and its body.
pub record Call (F M T C : Type 0) : Type 0 where
  pub env : Surroundings (Payload F M T) (Completion F C)
  pub ts : F
  pub lat : F
  pub body : Body F M T

module _ (fl : Float) {M T C P : Type 0} (digest : String → String → ℕ) (s : Sample fl.F P) where
  open fl use {F}

  generate_with-IsAccounted :
      (answered : ℕ) (k : Call F M T C) (traj_id : Option String) (messages : Option M)
      (a : Adapter F)
      → IsAccounted fl s answered a
      → IsAccountedAfter fl s answered
          (generate_with fl digest k.env k.ts k.lat k.body traj_id messages a)
  unfolding generate_with
  generate_with-IsAccounted answered k none messages a h = unchanged fl s answered a h
  generate_with-IsAccounted answered k (some traj_id) none a h = unchanged fl s answered a h
  generate_with-IsAccounted answered k (some traj_id) (some messages) a h =
      take_sent-IsAccounted fl s answered traj_id _ k.ts k.lat _ _
        (forwarded-IsAccounted fl s answered a _ h)

  -- The calls in the order in which they end, from an adapter on; the number of those that returned.
  abbrev pub generate_all : List (Call F M T C) → ℕ → Adapter F → ℕ × Adapter F
  generate_all [] answered a = (answered, a)
  generate_all (k ∷ calls) answered a =
      let (out, a') = generate fl digest k.env k.ts k.lat k.body a in
      generate_all calls (answered + count_answer out) a'

  generate_all-after :
      (calls : List (Call F M T C)) (answered : ℕ) (a : Adapter F)
      → IsAccounted fl s answered a
      → IsAccounted fl s (generate_all calls answered a).0 (generate_all calls answered a).1
  unfolding generate
  generate_all-after [] answered a h = h
  generate_all-after (k ∷ calls) answered a h =
      generate_all-after calls _ _
        (generate_with-IsAccounted answered k k.body.traj_id k.body.messages a h)

  -- After any calls of an adapter that was made over an empty log directory, failed ones included: as many calls are counted as returned an
  -- answer, and each has one record in a log and one latency; and the count of tokens is the sum over
  -- the trajectories of the tokens that the rollout side reads out of their logs.
  pub generate_all-IsAccounted :
      (router : Router) (temperature : F) (max_tokens : ℕ) (top_p : Option F)
      (calls : List (Call F M T C))
      → (let (answered, a) =
            generate_all calls 0 (new_adapter router [] temperature max_tokens top_p) in
          IsAccounted fl s answered a)
  unfolding new_adapter
  generate_all-IsAccounted router temperature max_tokens top_p calls =
      generate_all-after calls 0 (new_adapter router [] temperature max_tokens top_p) (record {
        calls_answered = refl;
        calls_logged = refl;
        latencies = refl;
        tokens_logged = refl;
      })
