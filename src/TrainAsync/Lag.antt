-- ===== src/TrainAsync/Lag.antt =====
-- train_async.py: how far the engine lags behind the trainer, and that no sample is lost.
use llm_rl_cpu_poc.Common.{
  ℕ, ◌+◌, ◌-◌, ◌*◌, ◌/◌, ◌%◌, ◌≤◌, ◌<◌, ◌≡◌, ◌⊎◌, refl, ap, subst, ◌∙◌, leb, Bool, Option, none,
  some, List, [], ◌∷◌, ◌++◌, length, keep, arith, Bool-cases, inl, inr, if◌then◌else◌, ◌==◌,
  number_key,
}
use llm_rl_cpu_poc.Common.Float.{Float}
use llm_rl_cpu_poc.Types.{Sample}
use llm_rl_cpu_poc.Trainer.{Settings, Metrics, async_train}
use llm_rl_cpu_poc.TrainAsync.{Progress, filter_stale, train_rollout, train_rollouts}
use native.Mathlib.Nat.{mod-lt, mod-eq_of_lt, mod_self, div-add-mod', mul-add-mod_self_right}

mod_suc : (n d : ℕ) → 1 ≤ d → ((n + 1) % d ≡ 0) ⊎ ((n + 1) % d ≡ n % d + 1)
mod_suc n d h =
    let r = n % d in
    let q = n / d in
    let below = mod-lt n {m = d} h in
    let whole : n + 1 ≡ q * d + (r + 1) = omega (arith, div-add-mod' n d) in
    let same : (n + 1) % d ≡ (r + 1) % d =
      ap (λ k. k % d) whole ∙ mul-add-mod_self_right q d (r + 1) in
    elim (Bool-cases (leb d (r + 1))) [
      | inl e ↦
          let full : r + 1 ≡ d = ground (arith, e, below) in
          inl (same ∙ ap (λ k. k % d) full ∙ mod_self d)
      | inr e ↦ inr (same ∙ mod-eq_of_lt (ground (arith, e)))
    ]

keep_shorter : {A : Type 0} (p : A → Bool) (xs : List A) → length (keep p xs) ≤ length xs
keep_shorter p [] = omega arith
keep_shorter p (x ∷ xs) = ground (arith, keep_shorter p xs)

-- The samples of all batches, and those that the rollouts trained on.
abbrev pub all_samples : {F P : Type 0} → List (List (Sample F P)) → ℕ
all_samples [] = 0
all_samples (b ∷ bs) = length b + all_samples bs

abbrev pub trained : {F : Type 0} → List (Metrics F) → ℕ
trained [] = 0
trained (m ∷ ms) = m.num_samples + trained ms

trained-append :
    {F : Type 0} (ms : List (Metrics F)) (m : Metrics F)
    → trained (ms ++ (m ∷ [])) ≡ trained ms + m.num_samples
trained-append [] m = omega arith
trained-append (x ∷ ms) m = omega (arith, trained-append ms m)

-- A driver that has just started.
abbrev pub at_start : {F Rng : Type 0} → Rng → Progress F Rng
at_start rng = record {
  weight_version = 0;
  engine_version = 0;
  dropped_stale_total = 0;
  history = [];
  rng = rng;
}

plus_zero : (n : ℕ) → 0 + n ≡ n
plus_zero n = omega arith

-- Before the rollout `rid` the trainer is at version `rid` and the engine behind it by the number of
-- rollouts since the last multiple of the interval.
abbrev pub InStep : {F Rng : Type 0} → ℕ → ℕ → Progress F Rng → Type 0
InStep interval rid p = (p.weight_version ≡ rid) × (p.engine_version + rid % interval ≡ rid)

module _ (fl : Float) {P Rng : Type 0} (v : Settings fl P Rng) (max_staleness : Option ℕ)
    (interval : ℕ) (positive : 1 ≤ interval) where
  open fl use {F}

  filter_stale_shorter :
      (version : ℕ) (samples : List (Sample F P))
      → length (filter_stale fl v max_staleness version samples) ≤ length samples
  unfolding filter_stale
  filter_stale_shorter version samples = go max_staleness
    where
      go :
          (m : Option ℕ)
          → length (elim m [
            | none ↦ samples
            | some m ↦ keep (λ (s : Sample F P). leb (version - s.weight_version) m) samples
          ])
            ≤ length samples
      go none = omega arith
      go (some m) = keep_shorter _ samples

  train_rollout-InStep :
      (rid : ℕ) (samples : List (Sample F P)) (p : Progress F Rng)
      → InStep interval rid p
      → InStep interval (rid + 1) (train_rollout fl v max_staleness interval rid samples p)
        × ((train_rollout fl v max_staleness interval rid samples p).dropped_stale_total
              + trained (train_rollout fl v max_staleness interval rid samples p).history
            ≡ p.dropped_stale_total + trained p.history + length samples)
  unfolding train_rollout async_train
  train_rollout-InStep rid samples p h =
      let shorter = filter_stale_shorter p.weight_version samples in
      let more =
        trained-append p.history
          (async_train fl v rid (filter_stale fl v max_staleness p.weight_version samples)
            p.weight_version p.rng).0 in
      ((omega (arith, h.0), engine), omega (arith, shorter, more))
    where
      engine :
          (if (rid + 1) % interval == 0 then p.weight_version + 1 else p.engine_version)
            + (rid + 1) % interval
          ≡ rid + 1
      engine = ground (arith, h, mod_suc rid interval positive)

  train_rollouts-InStep :
      (rid : ℕ) (batches : List (List (Sample F P))) (p : Progress F Rng)
      → InStep interval rid p
      → let p' = train_rollouts fl v max_staleness interval rid batches p in
        InStep interval (rid + length batches) p'
        × (p'.dropped_stale_total + trained p'.history
            ≡ p.dropped_stale_total + trained p.history + all_samples batches)
  unfolding train_rollouts
  train_rollouts-InStep rid [] p h = (subst (λ k. InStep interval k p) (omega arith) h, omega arith)
  train_rollouts-InStep rid (b ∷ bs) p h =
      let (stays, counts) = train_rollout-InStep rid b p h in
      let q = train_rollout fl v max_staleness interval rid b p in
      let (ends, more) = train_rollouts-InStep (rid + 1) bs q stays in
      (
        subst (λ k. InStep interval k (train_rollouts fl v max_staleness interval (rid + 1) bs q))
            (omega arith) ends,
        omega (arith, counts, more),
      )

  -- For an interval of one or more, after any number of rollouts from version zero, the trainer's version is that number, the engine
  -- is behind it by less than the interval, by the rollouts since the last multiple of it, and every
  -- sample was either trained on or counted as dropped.
  pub train_rollouts_lem :
      (batches : List (List (Sample F P))) (rng : Rng)
      → let p = train_rollouts fl v max_staleness interval 0 batches (at_start rng) in
        (p.weight_version ≡ length batches)
        × (p.engine_version + length batches % interval ≡ length batches)
        × (p.weight_version < p.engine_version + interval)
        × (p.dropped_stale_total + trained p.history ≡ all_samples batches)
  train_rollouts_lem batches rng =
      let n = length batches in
      let p = train_rollouts fl v max_staleness interval 0 batches (at_start rng) in
      let none_yet : 0 % interval ≡ 0 = mod-eq_of_lt positive in
      let (ends, counts) =
        train_rollouts-InStep 0 batches (at_start rng) (refl, omega (arith, none_yet)) in
      let (version, lag) = subst (λ k. InStep interval k p) (plus_zero n) ends in
      (
        version,
        lag,
        omega (arith, version, lag, mod-lt n {m = interval} positive),
        omega (arith, counts),
      )
