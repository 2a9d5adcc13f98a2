-- ===== src/AgentRunner/Texts.antt =====
-- agent_runner.py: how long a truncated observation is.
use llm_rl_cpu_poc.Common.{
  ℕ, ◌+◌, ◌-◌, ◌/◌, ◌≤◌, ◌<◌, ◌≡◌, ◌⊎◌, refl, false, leb, List, ◌++◌, length, take, length-append,
  length-take, length-drop, min, arith, Bool-cases, inl, inr, number_key,
}
use llm_rl_cpu_poc.Common.Int.{pos}
use llm_rl_cpu_poc.AgentRunner.{World, last_chars, truncate}

-- The text between the two halves.
abbrev pub notice : World → ℕ → List ℕ
notice w n = w.points "\n...[truncated " ++ (w.digits (pos n) ++ w.points " chars]...\n")

length-last_chars :
    (n : ℕ) (text : List ℕ) → 1 ≤ n → n ≤ length text → length (last_chars n text) ≡ n
unfolding last_chars
length-last_chars n text h k = ground (arith, length-drop (length text - n) text)

below_two : (limit : ℕ) → leb 2 limit ≡ false → limit < 2
below_two limit h = ground arith

module _ (w : World) where
  truncate_long :
      (text : List ℕ) (limit : ℕ)
      → limit < length text
      → length (truncate w text limit)
        ≡ min (limit / 2) (length text)
          + length (notice w (length text - limit))
          + length (last_chars (limit / 2) text)
  unfolding truncate
  truncate_long text limit h =
      let a = w.points "\n...[truncated " in
      let b = w.digits (pos (length text - limit)) in
      let c = w.points " chars]...\n" in
      let z = last_chars (limit / 2) text in
      ground (
        arith,
        h,
        length-append (take (limit / 2) text) (a ++ (b ++ (c ++ z))),
        length-append a (b ++ (c ++ z)),
        length-append b (c ++ z),
        length-append c z,
        length-append a (b ++ c),
        length-append b c,
        length-take (limit / 2) text,
      )

  -- A text within the limit is kept as it is. A longer one is at most `limit` characters and the
  -- notice, if the limit is 2 or more; with a limit of 0 or 1 it keeps all of the text and gains the
  -- notice.
  pub truncate_lem :
      (text : List ℕ) (limit : ℕ)
      → let out = truncate w text limit in
        let extra = length (notice w (length text - limit)) in
        ((length text ≤ limit) × (out ≡ text))
        ⊎ ((limit < length text) × (2 ≤ limit) × (length out ≤ limit + extra))
        ⊎ ((limit < length text) × (limit < 2) × (length out ≡ length text + extra))
  unfolding truncate
  truncate_lem text limit = elim (Bool-cases (leb (length text) limit)) [
    | inl e ↦ inl (ground arith, rw (e, truncate) refl)
    | inr e ↦ inr (elim (Bool-cases (leb 2 limit)) [
      | inl q ↦ inl (
        ground arith,
        ground arith,
        omega (
          arith,
          truncate_long text limit (ground arith),
          length-last_chars (limit / 2) text (ground arith) (ground arith),
        ),
      )
      | inr q ↦ inr (
        ground arith,
        ground arith,
        let half : limit / 2 ≡ 0 = omega (arith, below_two limit q) in
            let whole : length (last_chars (limit / 2) text) ≡ length text =
              rw (half, last_chars) refl in
            omega (arith, truncate_long text limit (ground arith), whole, half),
      )
    ])
  ]
