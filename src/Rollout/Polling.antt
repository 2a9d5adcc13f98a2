-- ===== src/Rollout/Polling.antt =====
-- rollout_manager.py: when a remote trajectory is given up, and what its sample is then.
use llm_rl_cpu_poc.Common.{
  ℕ, ◌+◌, ◌≡◌, ◌≢◌, ◌⊎◌, ◌<◌, refl, String, none, some, Bool, true, false, List, [], ◌∷◌, ◌++◌,
  arith, ◌↔◌,
}
use llm_rl_cpu_poc.Common.Float.{Float}
use llm_rl_cpu_poc.Common.Result.{Result, ok, err}
use llm_rl_cpu_poc.Types.{Sample, completed, sandbox_error}
use llm_rl_cpu_poc.Rollout.{Live, bump}
use Prim.Native.String.{◌++◌ as str_append}
use llm_rl_cpu_poc.Rollout.Remote.{
  Answer, Raised, cancelled, Poll, os_error, running, done, other, interrupted, gave_up, answered,
  stopped, Start, sent, broken_off, start_attempts, start_remote, poll_loop,
}

-- A start that is not broken off answers as soon as one of three POSTs succeeds, and fails only where all
-- three fail, with the error of the third.
pub start_remote_lem :
    (posts : ℕ → Start)
    → ((start_remote posts ≡ (sent, 1)) × (posts 0 ≡ sent))
      ⊎ ((start_remote posts ≡ (sent, 2)) × (posts 0 ≢ sent) × (posts 1 ≡ sent))
      ⊎ ((start_remote posts ≡ (sent, 3)) × (posts 0 ≢ sent) × (posts 1 ≢ sent) × (posts 2 ≡ sent))
      ⊎ ((start_remote posts ≡ (posts 2, 3))
          × (posts 0 ≢ sent)
          × (posts 1 ≢ sent)
          × (posts 2 ≢ sent))
      ⊎ ((x : Raised) × ((start_remote posts).0 ≡ broken_off x))
unfolding start_remote start_attempts
start_remote_lem posts = ground arith

module _ {F P : Type 0} where
  abbrev pub is_transient : Poll F P → Bool
  is_transient (os_error _) = true
  is_transient running = true
  is_transient (done _) = false
  is_transient (other _) = false
  is_transient (interrupted _) = false

  -- Fewer than five errors in a row everywhere, `e` of them before the first outcome.
  abbrev pub Bearable : ℕ → List (Poll F P) → Type 0
  Bearable e [] = Unit
  Bearable e (os_error _ ∷ polls) = (e + 1 < 5) × Bearable (e + 1) polls
  Bearable e (running ∷ polls) = Bearable 0 polls
  Bearable e (done _ ∷ polls) = ⊥
  Bearable e (other _ ∷ polls) = ⊥
  Bearable e (interrupted _ ∷ polls) = ⊥

  -- The loop survives any transient errors, in whatever order they mix with answers that say
  -- `running`, as long as there are never five in a row; the first final state then decides.
  pub poll_loop-Bearable :
      (e : ℕ) (polls rest : List (Poll F P)) (answer : Answer F P) (state : String)
      → Bearable e polls
      → (poll_loop polls e ≡ none)
        × (poll_loop (polls ++ (done answer ∷ rest)) e ≡ some (answered answer))
        × (poll_loop (polls ++ (other state ∷ rest)) e ≡ some (stopped state))
  unfolding poll_loop
  poll_loop-Bearable e [] rest answer state h = (refl, refl, refl)
  poll_loop-Bearable e (os_error x ∷ polls) rest answer state h =
      ground (arith, poll_loop-Bearable (e + 1) polls rest answer state h.1)
  poll_loop-Bearable e (running ∷ polls) rest answer state h =
      poll_loop-Bearable 0 polls rest answer state h
  poll_loop-Bearable e (done x ∷ polls) rest answer state h = absurd h
  poll_loop-Bearable e (other x ∷ polls) rest answer state h = absurd h
  poll_loop-Bearable e (interrupted x ∷ polls) rest answer state h = absurd h

  -- After bearable outcomes that end with an answer, five errors in a row end the loop, whatever
  -- comes after them.
  pub poll_loop-Five :
      (e : ℕ) (polls rest : List (Poll F P)) (a b c d x : String)
      → Bearable e polls
      → poll_loop
          (polls
            ++ (running ∷ os_error a ∷ os_error b ∷ os_error c ∷ os_error d ∷ os_error x ∷ rest))
          e
        ≡ some (gave_up x)
  unfolding poll_loop
  poll_loop-Five e [] rest a b c d x h = refl
  poll_loop-Five e (os_error y ∷ polls) rest a b c d x h =
      ground (arith, poll_loop-Five (e + 1) polls rest a b c d x h.1)
  poll_loop-Five e (running ∷ polls) rest a b c d x h = poll_loop-Five 0 polls rest a b c d x h
  poll_loop-Five e (done y ∷ polls) rest a b c d x h = absurd h
  poll_loop-Five e (other y ∷ polls) rest a b c d x h = absurd h
  poll_loop-Five e (interrupted y ∷ polls) rest a b c d x h = absurd h

module _ (fl : Float) {P : Type 0} where
  open fl use {F}

  -- What a call returns: a sample that is completed, or has a sandbox error and reward zero.
  abbrev pub Scored : Result Raised (Sample F P) → Type 0
  Scored (ok s') = (s'.status ≡ completed) ⊎ ((s'.status ≡ sandbox_error) × (s'.reward ≡ fl.zero))
  Scored (err x) = Unit

  -- What a call leaves: its result, an abort exactly where it was cancelled, and the counters
  -- against those of before.
  abbrev pub Ends : Sample F P → Live → Result Raised (Sample F P) × Bool × Live → Type 0
  Ends s l (out, aborted, l') =
      Scored out
      × ((aborted ≡ true) ↔ (out ≡ err cancelled))
      × (l'.done ≡ l.done + 1)
      × (l'.gen_waiting ≡ l.gen_waiting)
      × (l'.scoring ≡ l.scoring)
      × (l'.group_progress ≡ bump s.group_id l.group_progress)
