-- ===== src/WeightSync/Gate.antt =====
-- weight_sync.py with engine.py: the weight updates of one thread among the generations of others, on
-- the offline engine, whose generations are counted.
use llm_rl_cpu_poc.Common.{
  ℕ, ◌+◌, ◌≤◌, ◌≡◌, refl, ap, subst, ◌∙◌, true, false, Option, none, some, List, [], ◌∷◌, ◌++◌,
  length, length-append, All, All-append, All-map, arith, ◌⊎◌, inl,
}
use llm_rl_cpu_poc.Common.Float.{Float}
use llm_rl_cpu_poc.WeightSync.{
  WeightUpdater, Readings, Reload, no_hook, reloaded, hook_raised, update_weights,
}
use llm_rl_cpu_poc.Engine.{
  Engine, new_engine, is_open, enter, leave, pause_generation, continue_generation, set_version,
}

-- Where the updater is: outside, inside its window with the old or the new weights, or behind an
-- exception of its reload hook.
pub data Updater : Type 0 where
  outside shut stored broken : Updater

-- How many generations passed the gate and are not counted yet; those that are counted, each with the version under which it drew its answer, none
-- before that; and those that are done, with the version drawn under and the version stamped.
pub record State : Type 0 where
  pub engine : Engine
  pub updater : Updater
  pub passed : ℕ
  pub running : List (Option ℕ)
  pub done : List (ℕ × ℕ)

abbrev pub start : State
start = record { engine = new_engine; updater = outside; passed = 0; running = []; done = [] }

pub data Step : State → State → Type 0 where
  passes : (s : State) → is_open s.engine ≡ true → Step s (record s { passed = s.passed + 1 })
  enters :
      (s : State) (left : ℕ)
      → s.passed ≡ left + 1
      → Step s (record s { engine = enter s.engine; passed = left; running = none ∷ s.running })
  draws :
      (s : State) (before after : List (Option ℕ))
      → s.running ≡ before ++ (none ∷ after)
      → Step s (record s { running = before ++ (some s.engine.weight_version ∷ after) })
  stamps :
      (s : State) (v : ℕ) (before after : List (Option ℕ))
      → s.running ≡ before ++ (some v ∷ after)
      → Step s (record s {
        engine = leave s.engine;
        running = before ++ after;
        done = (v, s.engine.weight_version) ∷ s.done;
      })
  fails :
      (s : State) (g : Option ℕ) (before after : List (Option ℕ))
      → s.running ≡ before ++ (g ∷ after)
      → Step s (record s { engine = leave s.engine; running = before ++ after })
  pauses :
      (s : State)
      → (s.updater ≡ outside) ⊎ (s.updater ≡ broken)
      → Step s (record s { engine = pause_generation s.engine; updater = shut })
  raises : (s : State) → s.updater ≡ shut → Step s (record s { updater = broken })
  stores :
      (s : State) (version : ℕ)
      → s.updater ≡ shut
      → s.engine.weight_version ≤ version
      → Step s (record s { engine = set_version version s.engine; updater = stored })
  continues :
      (s : State)
      → s.updater ≡ stored
      → Step s (record s { engine = continue_generation s.engine; updater = outside })

pub data Reach : State → Type 0 where
  initial : Reach start
  next : {s s' : State} → Reach s → Step s s' → Reach s'

abbrev pub IsShutIn : Updater → Engine → Type 0
IsShutIn outside e = e.paused ≡ false
IsShutIn _ e = e.paused ≡ true

abbrev pub DrawnBy : ℕ → Option ℕ → Type 0
DrawnBy version none = Unit
DrawnBy version (some v) = v ≤ version

abbrev pub StampedBy : ℕ → ℕ × ℕ → Type 0
StampedBy version (drawn, stamped) = (drawn ≤ stamped) × (stamped ≤ version)

pub record IsConsistent (s : State) : Type 0 where
  pub gate : IsShutIn s.updater s.engine
  pub counted : s.engine.inflight ≡ length s.running
  pub drawn : All (DrawnBy s.engine.weight_version) s.running
  pub stamped : All (StampedBy s.engine.weight_version) s.done

module _ (P : Option ℕ → Type 0) where
  All-split :
      (before : List (Option ℕ)) (g : Option ℕ) (after : List (Option ℕ))
      → All P (before ++ (g ∷ after))
      → All P before × P g × All P after
  All-split [] g after h = (tt, h.0, h.1)
  All-split (b ∷ before) g after h =
      let (front, here, back) = All-split before g after h.1 in ((h.0, front), here, back)

  All-replaced :
      (before : List (Option ℕ)) (g g' : Option ℕ) (after : List (Option ℕ))
      → All P (before ++ (g ∷ after))
      → P g'
      → All P (before ++ (g' ∷ after))
  All-replaced before g g' after h new =
      let (front, _, back) = All-split before g after h in
      All-append P before (g' ∷ after) front (new, back)

  All-removed :
      (before : List (Option ℕ)) (g : Option ℕ) (after : List (Option ℕ))
      → All P (before ++ (g ∷ after))
      → All P (before ++ after)
  All-removed before g after h =
      let (front, _, back) = All-split before g after h in All-append P before after front back

one_fewer :
    (before : List (Option ℕ)) (g : Option ℕ) (after : List (Option ℕ))
    → length (before ++ (g ∷ after)) ≡ length (before ++ after) + 1
one_fewer before g after =
    omega (arith, length-append before (g ∷ after), length-append before after)

DrawnBy-later : (v w : ℕ) → v ≤ w → (g : Option ℕ) → DrawnBy v g → DrawnBy w g
DrawnBy-later v w le none h = tt
DrawnBy-later v w le (some x) h = omega (arith, le, h)

-- The gate's state depends on the flag only.
IsShutIn-paused :
    (u : Updater) (e e' : Engine) → e'.paused ≡ e.paused → IsShutIn u e → IsShutIn u e'
IsShutIn-paused outside e e' same h = same ∙ h
IsShutIn-paused shut e e' same h = same ∙ h
IsShutIn-paused stored e e' same h = same ∙ h
IsShutIn-paused broken e e' same h = same ∙ h

module _ (s : State) where
  -- A generation that ends, with or without an answer.
  leave-IsConsistent :
      (g : Option ℕ) (before after : List (Option ℕ))
      → s.running ≡ before ++ (g ∷ after)
      → IsConsistent s
      → IsConsistent (record s { engine = leave s.engine; running = before ++ after })
  unfolding leave
  leave-IsConsistent g before after w c = record {
    gate = IsShutIn-paused s.updater s.engine (leave s.engine) refl c.gate;
    counted = omega (arith, c.counted, ap length w, one_fewer before g after);
    drawn =
        All-removed (DrawnBy s.engine.weight_version) before g after
          (subst (All (DrawnBy s.engine.weight_version)) w c.drawn);
    stamped = c.stamped;
  }

Step-IsConsistent : {s s' : State} → Step s s' → IsConsistent s → IsConsistent s'
unfolding enter leave pause_generation continue_generation set_version
Step-IsConsistent (passes s free) c = record {
  gate = c.gate;
  counted = c.counted;
  drawn = c.drawn;
  stamped = c.stamped;
}
Step-IsConsistent (enters s left some_passed) c = record {
  gate = IsShutIn-paused s.updater s.engine (enter s.engine) refl c.gate;
  counted = omega (arith, c.counted);
  drawn = (tt, c.drawn);
  stamped = c.stamped;
}
Step-IsConsistent (raises s w) c = record {
  gate = subst (λ u. IsShutIn u s.engine) w c.gate;
  counted = c.counted;
  drawn = c.drawn;
  stamped = c.stamped;
}
Step-IsConsistent (draws s before after w) c = record {
  gate = c.gate;
  counted = omega (
    arith,
    c.counted,
    ap length w,
    one_fewer before none after,
    one_fewer before (some s.engine.weight_version) after,
  );
  drawn =
      All-replaced (DrawnBy s.engine.weight_version) before none (some s.engine.weight_version)
        after (subst (All (DrawnBy s.engine.weight_version)) w c.drawn) (omega arith);
  stamped = c.stamped;
}
Step-IsConsistent (stamps s v before after w) c =
    let left = leave-IsConsistent s (some v) before after w c in
    let held = subst (All (DrawnBy s.engine.weight_version)) w c.drawn in
    let (_, drawn_v, _) = All-split (DrawnBy s.engine.weight_version) before (some v) after held in
    record {
      gate = left.gate;
      counted = left.counted;
      drawn = left.drawn;
      stamped = ((drawn_v, omega arith), c.stamped);
    }
Step-IsConsistent (fails s g before after w) c = leave-IsConsistent s g before after w c
Step-IsConsistent (pauses s w) c = record {
  gate = refl;
  counted = c.counted;
  drawn = c.drawn;
  stamped = c.stamped;
}
Step-IsConsistent (stores s version w le) c = record {
  gate = subst (λ u. IsShutIn u s.engine) w c.gate;
  counted = c.counted;
  drawn =
      All-map (DrawnBy s.engine.weight_version) (DrawnBy version) s.running
        (DrawnBy-later s.engine.weight_version version le) c.drawn;
  stamped =
      All-map (StampedBy s.engine.weight_version) (StampedBy version) s.done
        (λ d h. (h.0, omega (arith, h.1, le))) c.stamped;
}
Step-IsConsistent (continues s w) c = record {
  gate = refl;
  counted = c.counted;
  drawn = c.drawn;
  stamped = c.stamped;
}

-- In every state that generations of the offline engine and the updater reach, where stored versions
-- do not fall, the gate is shut exactly from the updater's pause to its end and, where its hook
-- raised, from then until an update ends well; the counter is the number of generations that were
-- counted and have not ended, and each is stamped with a version from the one it drew under up to
-- the current one.
pub Reach-IsConsistent : {s : State} → Reach s → IsConsistent s
Reach-IsConsistent initial = record { gate = refl; counted = refl; drawn = tt; stamped = tt }
Reach-IsConsistent (next r st) = Step-IsConsistent st (Reach-IsConsistent r)

-- Where the updater is behind an update with that hook.
abbrev pub behind : {X : Type 0} → Reload X → Updater
behind (hook_raised x) = broken
behind _ = outside

-- An update is some of these steps, however its hook ends.
pub update_weights-Reach :
    (fl : Float) (X : Type 0) (reload : Reload X) (k : Readings fl.F) (version : ℕ)
    (u : WeightUpdater fl.F) (s : State)
    → Reach (record s { engine = u.engine; updater = outside })
    → u.engine.weight_version ≤ version
    → Reach (record s {
      engine = (update_weights fl reload k version u).1.engine;
      updater = behind reload;
    })
unfolding update_weights pause_generation
update_weights-Reach fl X no_hook k version u s r le =
    next (next (next r (pauses _ (inl refl))) (stores _ version refl le)) (continues _ refl)
update_weights-Reach fl X reloaded k version u s r le =
    next (next (next r (pauses _ (inl refl))) (stores _ version refl le)) (continues _ refl)
update_weights-Reach fl X (hook_raised x) k version u s r le =
    next (next r (pauses _ (inl refl))) (raises _ refl)
