-- ===== src/Rollout/Progress.antt =====
-- rollout_manager.py: the `live` counters and the semaphore agree with the coroutines of
-- `_generate_one` after any events.
use llm_rl_cpu_poc.Common.{
  ℕ, zero, suc, ◌+◌, ◌-◌, ◌≤◌, ◌≡◌, refl, sym, ◌∙◌, ap, Option, none, some, List, [], ◌∷◌, arith,
  Bool-cases, Option-cases, inl, inr, if◌then◌else◌, ◌==◌,
}
use llm_rl_cpu_poc.Common.Dict.{Dict, lookup, lookup-insert}
use llm_rl_cpu_poc.Common.Int.{ℤ, int_key, int_beq_iff}
use llm_rl_cpu_poc.Common.Float.{Float}
use llm_rl_cpu_poc.Types.{Sample}
use llm_rl_cpu_poc.Rollout.{bump}
use llm_rl_cpu_poc.DataSource.{Task}
use llm_rl_cpu_poc.Rollout.Single.{Services}
use llm_rl_cpu_poc.Rollout.Coroutines.{
  Stage, created, Event, Coroutine, Shared, called, move, step_call, run_events,
}
use llm_rl_cpu_poc.Rollout.Gauges.{waits, generates, scores, ends, Counts, move-Moves, move-Counts}

-- A count of finished samples, raised by `k` where the group is counted at all.
abbrev pub grown : ℕ → Option (ℕ × ℕ) → Option (ℕ × ℕ)
grown k none = none
grown k (some (n, size)) = some (n + k, size)

grown-grown : (a b : ℕ) (o : Option (ℕ × ℕ)) → grown a (grown b o) ≡ grown (b + a) o
grown-grown a b none = refl
grown-grown a b (some (n, size)) = ground arith

grown_zero : (o : Option (ℕ × ℕ)) → o ≡ grown 0 o
grown_zero none = refl
grown_zero (some (n, size)) = ground arith

lookup-bump :
    (g gid : ℤ) (d : Dict ℤ (ℕ × ℕ))
    → lookup gid (bump g d) ≡ (if g == gid then grown 1 (lookup gid d) else lookup gid d)
unfolding bump
lookup-bump g gid d = elim (Option-cases (lookup g d)) [
  | inl e ↦ ground (arith, e, int_beq_iff g gid)
  | inr (p, e) ↦ ground (arith, e, int_beq_iff g gid, lookup-insert g gid (p.0 + 1, p.1) d)
]

-- The values of the gauges before the coroutines ran, and the size of the semaphore.
pub record Base : Type 0 where
  pub gen_waiting : ℕ
  pub done : ℕ
  pub scoring : ℕ
  pub slots : ℕ
  pub progress : ℤ → Option (ℕ × ℕ)

abbrev pub base_of : Shared → Base
base_of sh = record {
  gen_waiting = sh.live.gen_waiting;
  done = sh.live.done;
  scoring = sh.live.scoring;
  slots = sh.slots;
  progress = λ gid. lookup gid sh.live.group_progress;
}

module _ {F P : Type 0} where
  abbrev pub weigh : (Stage → ℕ) → List (Coroutine F P) → ℕ
  weigh f [] = 0
  weigh f (c ∷ cs) = f c.stage + weigh f cs

  -- How much of its group's progress a coroutine has made.
  abbrev pub ended_one : ℤ → Coroutine F P → ℕ
  ended_one gid c = if c.sample.group_id == gid then ends c.stage else 0

  abbrev pub ended_in : ℤ → List (Coroutine F P) → ℕ
  ended_in gid [] = 0
  ended_in gid (c ∷ cs) = ended_one gid c + ended_in gid cs

  -- The gauges count the coroutines: those at the semaphore, those that ended, the slots not in use,
  -- at most those in the sandbox, and for each group those of it that ended.
  pub record Agrees (b : Base) (cs : List (Coroutine F P)) (sh : Shared) : Type 0 where
    pub gen_waiting : sh.live.gen_waiting ≡ b.gen_waiting + weigh waits cs
    pub done : sh.live.done ≡ b.done + weigh ends cs
    pub slots : sh.slots + weigh generates cs ≡ b.slots
    pub scoring : sh.live.scoring ≤ b.scoring + weigh scores cs
    pub progress :
        (gid : ℤ) → lookup gid sh.live.group_progress ≡ grown (ended_in gid cs) (b.progress gid)

  -- The gauges once the coroutine `c` has been counted.
  abbrev beside : Coroutine F P → Base → Base
  beside c b = record {
    gen_waiting = b.gen_waiting + waits c.stage;
    done = b.done + ends c.stage;
    scoring = b.scoring + scores c.stage;
    slots = b.slots - generates c.stage;
    progress = λ gid. grown (ended_one gid c) (b.progress gid);
  }

  Agrees-split :
      (b : Base) (c : Coroutine F P) (cs : List (Coroutine F P)) (sh : Shared)
      → Agrees b (c ∷ cs) sh
      → Agrees (beside c b) cs sh
  Agrees-split b c cs sh h = record {
    gen_waiting = omega (arith, h.gen_waiting);
    done = omega (arith, h.done);
    slots = omega (arith, h.slots);
    scoring = omega (arith, h.scoring);
    progress = λ gid.
        h.progress gid ∙ sym (grown-grown (ended_in gid cs) (ended_one gid c) (b.progress gid));
  }

  Agrees-join :
      (b : Base) (c : Coroutine F P) (cs : List (Coroutine F P)) (sh : Shared)
      → generates c.stage ≤ b.slots
      → Agrees (beside c b) cs sh
      → Agrees b (c ∷ cs) sh
  Agrees-join b c cs sh k h = record {
    gen_waiting = omega (arith, h.gen_waiting);
    done = omega (arith, h.done);
    slots = omega (arith, h.slots, k);
    scoring = omega (arith, h.scoring);
    progress =
        λ gid. h.progress gid ∙ (grown-grown (ended_in gid cs) (ended_one gid c) (b.progress gid));
  }

  grown-Counts :
      (c c' : Coroutine F P) (sh sh' : Shared) (gid : ℤ) (k : ℕ) (o : Option (ℕ × ℕ))
      → Counts c c' sh sh'
      → lookup gid sh.live.group_progress ≡ grown (ended_one gid c + k) o
      → lookup gid sh'.live.group_progress ≡ grown (ended_one gid c' + k) o
  grown-Counts c c' sh sh' gid k o (inl (q, inl z, p)) e =
      rw p (e ∙ ap (λ (m : ℕ). grown (m + k) o) (ground (arith, q, z)))
  grown-Counts c c' sh sh' gid k o (inl (q, inr z, p)) e =
      rw p (e ∙ ap (λ (m : ℕ). grown (m + k) o) (ground (arith, q, z)))
  grown-Counts c c' sh sh' gid k o (inr (z, w, p)) e =
      rw (p, lookup-bump c'.sample.group_id gid sh.live.group_progress)
        (elim (Bool-cases (c'.sample.group_id == gid)) [
          | inl q ↦
              rw (q, e, grown-grown 1 (ended_one gid c + k) o)
                (ap (λ (m : ℕ). grown m o) (ground (arith, z, w)))
          | inr q ↦ rw q (e ∙ ap (λ (m : ℕ). grown (m + k) o) (ground (arith, z)))
        ])

  Agrees-more :
      (b : Base) (s : Sample F P) (t : Task F P) (cs : List (Coroutine F P)) (sh : Shared)
      → Agrees b cs sh
      → Agrees b (record { sample = s; task = t; stage = created } ∷ cs) sh
  Agrees-more b s t cs sh h = record {
    gen_waiting = omega (arith, h.gen_waiting);
    done = omega (arith, h.done);
    slots = omega (arith, h.slots);
    scoring = omega (arith, h.scoring);
    progress = λ gid. elim (Bool-cases (s.group_id == gid)) [
      | inl e ↦ rw e (h.progress gid ∙ ap (λ (m : ℕ). grown m (b.progress gid)) (omega arith))
      | inr e ↦ rw e (h.progress gid ∙ ap (λ (m : ℕ). grown m (b.progress gid)) (omega arith))
    ];
  }

  called-Agrees :
      (calls : List (Sample F P × Task F P)) (sh : Shared) → Agrees (base_of sh) (called calls) sh
  called-Agrees [] sh = record {
    gen_waiting = omega arith;
    done = omega arith;
    slots = omega arith;
    scoring = omega arith;
    progress = λ gid. grown_zero (lookup gid sh.live.group_progress);
  }
  called-Agrees ((s, t) ∷ calls) sh =
      Agrees-more (base_of sh) s t (called calls) sh (called-Agrees calls sh)

module _ (fl : Float) {P : Type 0} (v : Services fl P) where
  open fl use {F}

  pub step_call-Agrees :
      (b : Base) (i : ℕ) (e : Event) (cs : List (Coroutine F P)) (sh : Shared)
      → Agrees b cs sh
      → let (cs', sh') = step_call fl v i e cs sh in Agrees b cs' sh'
  unfolding step_call
  step_call-Agrees b i e [] sh h = h
  step_call-Agrees b zero e (c ∷ cs) sh h =
      let (c', sh') = move fl v c.stage e c sh in
      let m = move-Moves fl v c.stage e c sh refl in
      record {
        gen_waiting = omega (arith, m.wait, h.gen_waiting);
        done = omega (arith, m.done, h.done);
        slots = omega (arith, m.slots, h.slots);
        scoring = omega (arith, m.score, h.scoring);
        progress = λ gid.
            grown-Counts c c' sh sh' gid (ended_in gid cs) (b.progress gid)
              (move-Counts fl v c.stage e c sh refl) (h.progress gid);
      }
  step_call-Agrees b (suc i) e (c ∷ cs) sh h =
      let (cs', sh') = step_call fl v i e cs sh in
      Agrees-join b c cs' sh' (omega (arith, h.slots))
        (step_call-Agrees (beside c b) i e cs sh (Agrees-split b c cs sh h))

module _ (fl : Float) {P : Type 0} where
  open fl use {F}

  pub run_events-Agrees :
      (v : ℕ → Services fl P) (b : Base) (es : List (ℕ × Event)) (cs : List (Coroutine F P))
      (sh : Shared)
      → Agrees b cs sh
      → let (cs', sh') = run_events fl v es cs sh in Agrees b cs' sh'
  unfolding run_events
  run_events-Agrees v b [] cs sh h = h
  run_events-Agrees v b ((i, e) ∷ es) cs sh h =
      let (cs', sh') = step_call fl (v 0) i e cs sh in
      run_events-Agrees (λ n. v (suc n)) b es cs' sh' (step_call-Agrees fl (v 0) b i e cs sh h)

  -- Whatever the event loop does to the calls, and in whatever order, each gauge has moved as the
  -- stages of the calls say: `gen_waiting` by those at the semaphore, `done` by those that ended,
  -- the free slots by those in the engine, `scoring` by at most those in the sandbox, and a
  -- group's progress by those of the group that ended; a group without progress gets none.
  pub run_events-called-Agrees :
      (v : ℕ → Services fl P) (calls : List (Sample F P × Task F P)) (es : List (ℕ × Event))
      (sh : Shared)
      → let (cs', sh') = run_events fl v es (called calls) sh in Agrees (base_of sh) cs' sh'
  run_events-called-Agrees v calls es sh =
      run_events-Agrees v (base_of sh) es (called calls) sh (called-Agrees calls sh)
