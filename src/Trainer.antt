-- ===== src/Trainer.antt =====
-- rl_sim/trainer.py: the arithmetic of a training step. Python's generator is the parameter `gauss`
-- over a type of generator states, and the square root is one too.
pub mod Accounts
mod Tests
use llm_rl_cpu_poc.Common.{
  ℕ, zero, suc, ◌+◌, ◌-◌, max, Bool, true, false, not, ◌&&◌, Option, none, some, List, [], ◌∷◌,
  length, if◌then◌else◌, ◌==◌, number_key,
}
use llm_rl_cpu_poc.Common.Float.{Float}
use llm_rl_cpu_poc.Types.{Sample}

pub record Settings (fl : Float) (P Rng : Type 0) : Type 0 where
  pub eps_low : fl.F
  pub eps_high : fl.F
  pub use_tis : Bool
  pub tis_beta : fl.F
  pub sim_tokens_per_s : fl.F
  pub sim_max_s : fl.F
  pub idle_s : fl.F
  pub mismatch_sigma : fl.F
  pub rescore_fn : Option (Sample fl.F P → fl.F)
  pub gauss : Rng → fl.F → fl.F → fl.F × Rng
  pub sqrt : fl.F → fl.F

-- What a training step has added up so far.
pub record Tally (F P Rng : Type 0) : Type 0 where
  pub n_clipped : ℕ
  pub n_masked : ℕ
  pub losses : List F
  pub staleness_list : List ℕ
  pub total_tokens : ℕ
  pub rng : Rng
  pub rescored : List (Sample F P)

pub record Metrics (F : Type 0) : Type 0 where
  pub rollout_id : ℕ
  pub weight_version : ℕ
  pub num_samples : ℕ
  pub loss : F
  pub frac_clipped : F
  pub tis_masked_frac : F
  pub staleness_max : ℕ
  pub total_tokens : ℕ
  pub sim_train_s : F

-- `max(xs) if xs else 0`.
unfoldable pub max_of : List ℕ → ℕ
max_of [] = 0
max_of (x ∷ xs) = max x (max_of xs)

module _ (fl : Float) where
  open fl use {F}

  -- Python's `min` and `max` on two floats give the first one unless the other is beyond it.
  abbrev pub min_float : F → F → F
  min_float x y = if fl.lt y x then y else x

  abbrev pub max_float : F → F → F
  max_float x y = if fl.lt x y then y else x

  unfoldable pub sum_floats : F → List F → F
  sum_floats acc [] = acc
  sum_floats acc (x ∷ xs) = sum_floats (fl.add acc x) xs

module _ (fl : Float) {P Rng : Type 0} (v : Settings fl P Rng) where
  open fl use {F}

  unfoldable pub rescore : Sample F P → ℕ → Rng → F × Rng
  rescore s staleness rng = elim v.rescore_fn [
    | some f ↦ (f s, rng)
    | none ↦
        (let sigma = fl.mul v.mismatch_sigma (fl.add fl.one (fl.of_nat staleness)) in
          let (noise, rng') =
            v.gauss rng fl.zero (fl.mul sigma (v.sqrt (fl.of_nat (max s.num_tokens 1)))) in
          (fl.add s.rollout_logprob noise, rng'))
  ]

  -- `not (1.0 / beta <= ratio <= beta)`, where masking is on.
  unfoldable pub is_masked : F → Bool
  is_masked ratio =
      v.use_tis && not (fl.le (fl.div fl.one v.tis_beta) ratio && fl.le ratio v.tis_beta)

  unfoldable pub clip : F → F
  clip ratio =
      min_float fl (max_float fl ratio (fl.sub fl.one v.eps_low)) (fl.add fl.one v.eps_high)

  -- The body of the loop over the samples.
  unfoldable pub train_one : ℕ → Sample F P → Tally F P Rng → Tally F P Rng
  unfolding rescore is_masked clip
  train_one version s t =
      let staleness = version - s.weight_version in
      let (logprob, rng) = rescore s staleness t.rng in
      let ratio = fl.exp (fl.sub logprob s.rollout_logprob) in
      let clipped = clip ratio in
      let seen : Tally F P Rng = record t {
        staleness_list = staleness ∷ t.staleness_list;
        rng = rng;
        rescored = record s { train_logprob = some logprob } ∷ t.rescored;
      } in
      if is_masked ratio then record seen { n_masked = t.n_masked + 1 } else record seen {
        n_clipped = if fl.eq clipped ratio then t.n_clipped else t.n_clipped + 1;
        losses =
            fl.neg (min_float fl (fl.mul ratio s.advantage) (fl.mul clipped s.advantage))
            ∷ t.losses;
        total_tokens = t.total_tokens + s.num_tokens;
      }

  -- The lists are kept with the last sample first.
  unfoldable pub train_all : ℕ → List (Sample F P) → Tally F P Rng → Tally F P Rng
  unfolding train_one
  train_all version [] t = t
  train_all version (s ∷ ss) t = train_all version ss (train_one version s t)

  unfoldable pub start_tally : Rng → Tally F P Rng
  start_tally rng = record {
    n_clipped = 0;
    n_masked = 0;
    losses = [];
    staleness_list = [];
    total_tokens = 0;
    rng = rng;
    rescored = [];
  }

  abbrev pub ratio_of : ℕ → ℕ → F
  ratio_of n size = if size == 0 then fl.zero else fl.div (fl.of_nat n) (fl.of_nat size)

  abbrev pub reverse_onto : List F → List F → List F
  reverse_onto [] ys = ys
  reverse_onto (x ∷ xs) ys = reverse_onto xs (x ∷ ys)

  abbrev pub mean_loss : List F → F
  mean_loss [] = fl.zero
  mean_loss (x ∷ xs) =
      fl.div (sum_floats fl fl.zero (reverse_onto (x ∷ xs) [])) (fl.of_nat (length (x ∷ xs)))

  -- The metrics, the next weight version, and the tally with the rescored samples.
  unfoldable pub async_train : ℕ → List (Sample F P) → ℕ → Rng → Metrics F × ℕ × Tally F P Rng
  unfolding train_all start_tally max_of sum_floats
  async_train rollout_id samples version rng =
      let t = train_all version samples (start_tally rng) in
      (
        record {
          rollout_id = rollout_id;
          weight_version = version + 1;
          num_samples = length samples;
          loss = mean_loss t.losses;
          frac_clipped = ratio_of t.n_clipped (length samples);
          tis_masked_frac = ratio_of t.n_masked (length samples);
          staleness_max = max_of t.staleness_list;
          total_tokens = t.total_tokens;
          sim_train_s =
              if t.total_tokens == 0
              then v.idle_s
              else min_float fl v.sim_max_s (fl.div (fl.of_nat t.total_tokens) v.sim_tokens_per_s);
        },
        version + 1,
        t,
      )
