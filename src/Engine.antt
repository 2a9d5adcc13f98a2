-- ===== src/Engine.antt =====
-- rl_sim/engine.py: the state that the engines share, with the pause gate, and the offline engine.
-- Python's generator is a parameter over a type of its states, and the texts' functions are others.
pub mod Api
pub mod Local
mod Tests
use llm_rl_cpu_poc.Common.{
  ℕ, zero, suc, ◌+◌, ◌-◌, String, Bool, true, false, not, Option, none, some, List, [], ◌∷◌, keep,
  length, ◌==◌, text_key, if◌then◌else◌,
}
use llm_rl_cpu_poc.Common.Dict.{Dict, lookup, insert}
use llm_rl_cpu_poc.Common.Float.{Float}
use llm_rl_cpu_poc.Types.{Sample, str, pending, gen_error}
use llm_rl_cpu_poc.DataSource.{Task}
use Prim.Native.String.{◌++◌ as str_append}

-- `paused` is the event `_pause` not set.
pub record Engine : Type 0 where
  pub weight_version : ℕ
  pub paused : Bool
  pub inflight : ℕ

abbrev pub new_engine : Engine
new_engine = record { weight_version = 0; paused = false; inflight = 0 }

unfoldable pub pause_generation : Engine → Engine
pause_generation e = record e { paused = true }

unfoldable pub continue_generation : Engine → Engine
continue_generation e = record e { paused = false }

unfoldable pub set_version : ℕ → Engine → Engine
set_version version e = record e { weight_version = version }

-- `_pause.wait()` lets a generation pass.
unfoldable pub is_open : Engine → Bool
is_open e = not e.paused

-- The increment behind it, under a lock of its own.
unfoldable pub enter : Engine → Engine
enter e = record e { inflight = e.inflight + 1 }

-- The `finally` block of a generation.
unfoldable pub leave : Engine → Engine
leave e = record e { inflight = e.inflight - 1 }

-- Python's texts and random numbers: `occurs p code` is `p in code`, `replace_first` the method with
-- count 1, `words` the length of `split()`; `stub code` is the function that returns nothing.
pub record Python (fl : Float) (Rng : Type 0) : Type 0 where
  pub occurs : String → String → Bool
  pub replace_first : String → String → String → String
  pub stub : String → String
  pub words : String → ℕ
  pub fenced : String → String
  pub random : Rng → fl.F × Rng
  pub seeded : fl.F → Rng
  pub randrange : Rng → ℕ → ℕ × Rng
  pub uniform : Rng → fl.F → fl.F → fl.F × Rng
  pub gauss : Rng → fl.F → fl.F → fl.F × Rng

abbrev pub mutations : List (String × String)
mutations =
    ("==", "!=")
    ∷ ("<", "<=")
    ∷ (" + ", " - ")
    ∷ ("[::-1]", "[::1]")
    ∷ ("range(1, n + 1)", "range(1, n)")
    ∷ ("s.lower()", "s")
    ∷ []

-- `latency_s`: nothing, a number, or the ends of a range.
pub data Latency (F : Type 0) : Type 0 where
  at_once : Latency F
  fixed : F → Latency F
  between : F → F → Latency F

-- `cands[i]`; the generator stays within the list.
unfoldable pub nth : {A : Type 0} → ℕ → A → List A → A
nth i d [] = d
nth zero d (x ∷ xs) = x
nth (suc i) d (x ∷ xs) = nth i x xs

module _ (fl : Float) {Rng : Type 0} (py : Python fl Rng) where
  open fl use {F}

  -- The second generator is only used inside; the first has moved by one number.
  unfoldable pub mutate : String → Rng → String × Rng
  unfolding nth
  mutate code rng =
      let (seed, rng') = py.random rng in
      elim (keep (λ (m : String × String). py.occurs m.0 code) mutations) [
        | [] ↦ (py.stub code, rng')
        | c ∷ cs ↦
            let (i, _) = py.randrange (py.seeded seed) (length (c ∷ cs)) in
            let (p, r) = nth i c (c ∷ cs) in (py.replace_first code p r, rng')
      ]

  -- `min(0.95, base_correct + slope * version)`, where `most` is 0.95.
  unfoldable pub correct_prob : F → F → F → ℕ → F
  correct_prob most base_correct slope version =
      let p : F = fl.add base_correct (fl.mul slope (fl.of_nat version)) in
      if fl.lt p most then p else most

  unfoldable pub draw_latency : Latency F → Rng → Rng
  draw_latency at_once rng = rng
  draw_latency (fixed s) rng = rng
  draw_latency (between lo hi) rng = (py.uniform rng lo hi).1

  -- The sum of `n` draws, from `total` on.
  unfoldable pub sum_gauss : F → F → ℕ → F → Rng → F × Rng
  sum_gauss mean dev zero total rng = (total, rng)
  sum_gauss mean dev (suc n) total rng =
      let (x, rng') = py.gauss rng mean dev in sum_gauss mean dev n (fl.add total x) rng'

-- The settings of the offline engine, with the constants of the code that are no integers.
pub record MockSettings (F : Type 0) : Type 0 where
  pub most : F
  pub base_correct : F
  pub slope : F
  pub latency : Latency F
  pub mean : F
  pub dev : F

module _ (fl : Float) {P Rng : Type 0} (py : Python fl Rng) (cfg : MockSettings fl.F) where
  -- `task or self._tasks[sample.task_id]`; none is a KeyError.
  unfoldable pub find_task :
      Option (Task fl.F P) → Dict String (Task fl.F P) → String → Option (Task fl.F P)
  unfolding lookup
  find_task (some t) tasks task_id = some t
  find_task none tasks task_id = lookup task_id tasks

  -- The sample that carries this code.
  unfoldable pub fill : String → ℕ → Sample fl.F P → Rng → Sample fl.F P × Rng
  unfolding sum_gauss
  fill code version s rng =
      let response : String = py.fenced code in
      let (total, rng') = sum_gauss fl py cfg.mean cfg.dev (py.words response) fl.zero rng in
      (
        record s {
          response = response;
          code = code;
          num_tokens = py.words response;
          rollout_logprob = total;
          weight_version = version;
          turns = 1;
          status = pending;
        },
        rng',
      )

  -- The body of `generate` between the gate and the `finally` block. The weights may change inside
  -- it: `drawn` is the version where the probability is read, `stamped` the one at the end.
  unfoldable pub generate_mock :
      Option (Task fl.F P)
      → Dict String (Task fl.F P)
      → ℕ
      → ℕ
      → Sample fl.F P
      → Rng
      → Option (Sample fl.F P × Rng)
  unfolding find_task fill mutate correct_prob draw_latency insert
  generate_mock task tasks drawn stamped s rng = elim (find_task task tasks s.task_id) [
    | none ↦ none
    | some t ↦
        let rng₁ : Rng = draw_latency fl py cfg.latency rng in
        if t.solution == ""
        then some (
          record s {
            status = gen_error;
            metadata = insert "error" (str "no solution template for mock engine") s.metadata;
          },
          rng₁,
        )
        else let (u, rng₂) = py.random rng₁ in
          let (wrong, rng₃) = mutate fl py t.solution rng₂ in
          if fl.lt u (correct_prob fl py cfg.most cfg.base_correct cfg.slope drawn)
          then some (fill t.solution stamped s rng₂)
          else some (fill wrong stamped s rng₃)
  ]
