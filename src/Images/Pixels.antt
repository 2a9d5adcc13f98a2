-- ===== src/Images/Pixels.antt =====
-- mm_images.py: the pixels of what is drawn.
use llm_rl_cpu_poc.Common.{
  ℕ, zero, suc, ◌+◌, ◌-◌, ◌*◌, ◌/◌, ◌<◌, ◌≡◌, refl, sym, ◌∙◌, ap, min, max, leb, ltb, Bool, true,
  false, ◌&&◌, ◌||◌, Option, none, some, List, [], ◌∷◌, length, replicate, arith, if◌then◌else◌,
  Bool-cases, inl, inr, All, ◌↔◌, ◌≤◌, ◌⊎◌, All-map,
}
use native.Mathlib.Nat.{div-lt_iff_lt-mul, mul-div_cancel, mul-lt-mul_of_pos_left}
use llm_rl_cpu_poc.Monitor.{get_elem?}
use llm_rl_cpu_poc.Images.{
  Color, white, black, blue, Canvas, canvas, update_at, update_range, update_between, fill_rect,
  bar_height, draw_bars, max_value, axes, scaled_chart, render_bar_chart,
}

-- `i <= j < n`.
abbrev pub within : ℕ → ℕ → ℕ → Bool
within i n j = leb i j && ltb j n

module _ {A : Type 0} where
  -- An element that is changed if the test holds; none stays none.
  abbrev pub changed : Bool → (A → A) → Option A → Option A
  changed b f none = none
  changed b f (some x) = some (if b then f x else x)

  changed-false : (b : Bool) (f : A → A) (o : Option A) → b ≡ false → changed b f o ≡ o
  changed-false b f none e = refl
  changed-false b f (some x) e = rw e refl

  get_elem?-update_at :
      (i j : ℕ) (f : A → A) (xs : List A)
      → get_elem? (update_at i f xs) j ≡ changed (within i (i + 1) j) f (get_elem? xs j)
  unfolding update_at get_elem?
  get_elem?-update_at i j f [] = refl
  get_elem?-update_at zero zero f (x ∷ xs) = refl
  get_elem?-update_at zero (suc j) f (x ∷ xs) =
      sym (changed-false (within 0 1 (suc j)) f (get_elem? xs j) (ground arith))
  get_elem?-update_at (suc i) zero f (x ∷ xs) = ground arith
  get_elem?-update_at (suc i) (suc j) f (x ∷ xs) =
      let same : within i (i + 1) j ≡ within (suc i) (suc i + 1) (suc j) = ground arith in
      get_elem?-update_at i j f xs ∙ ap (λ b. changed b f (get_elem? xs j)) same

  changed-changed :
      (k i j : ℕ) (f : ℕ → A → A) (o : Option A)
      → changed (within (i + 1) (i + 1 + k) j) (f j) (changed (within i (i + 1) j) (f i) o)
        ≡ changed (within i (i + suc k) j) (f j) o
  changed-changed k i j f none = refl
  changed-changed k i j f (some x) = ground arith

  -- What a loop over indices makes of each element.
  get_elem?-update_range :
      (k i j : ℕ) (f : ℕ → A → A) (xs : List A)
      → get_elem? (update_range k i f xs) j ≡ changed (within i (i + k) j) (f j) (get_elem? xs j)
  unfolding update_range
  get_elem?-update_range zero i j f xs =
      sym (changed-false (within i (i + 0) j) (f j) (get_elem? xs j) (ground arith))
  get_elem?-update_range (suc k) i j f xs =
      get_elem?-update_range k (i + 1) j f (update_at i (f i) xs)
      ∙ ap (λ o. changed (within (i + 1) (i + 1 + k) j) (f j) o) (get_elem?-update_at i j (f i) xs)
      ∙ changed-changed k i j f (get_elem? xs j)

  get_elem?-Bounded : (xs : List A) (j : ℕ) (x : A) → get_elem? xs j ≡ some x → j < length xs
  unfolding get_elem?
  get_elem?-Bounded [] j x e = absurd (ground (arith, e))
  get_elem?-Bounded (y ∷ xs) zero x e = omega arith
  get_elem?-Bounded (y ∷ xs) (suc j) x e = omega (arith, get_elem?-Bounded xs j x e)

  get_elem?-update_between :
      (low high j : ℕ) (f : ℕ → A → A) (xs : List A)
      → get_elem? (update_between low high f xs) j
        ≡ changed (within low high j) (f j) (get_elem? xs j)
  unfolding update_between
  get_elem?-update_between low high j f xs =
      get_elem?-update_range (min (length xs) high - low) low j f xs ∙ cut (get_elem? xs j) refl
    where
      cut :
          (o : Option A)
          → get_elem? xs j ≡ o
          → changed (within low (low + (min (length xs) high - low)) j) (f j) o
            ≡ changed (within low high j) (f j) o
      cut none e = refl
      cut (some x) e =
          let same : within low (low + (min (length xs) high - low)) j ≡ within low high j =
            ground (arith, get_elem?-Bounded xs j x e) in
          ap (λ b. changed b (f j) (some x)) same

-- The pixel in a column and a row; none is an IndexError.
unfoldable pub pixel : Canvas → ℕ → ℕ → Option Color
unfolding get_elem?
pixel px x y = elim (get_elem? px y) [ none ↦ none | some row ↦ get_elem? row x ]

fill_rect-pixel :
    (px : Canvas) (x0 y0 x1 y1 : ℕ) (color : Color) (x y : ℕ)
    → pixel (fill_rect px x0 y0 x1 y1 color) x y
      ≡ changed (within y0 y1 y && within x0 x1 x) (λ old. color) (pixel px x y)
unfolding pixel fill_rect
fill_rect-pixel px x0 y0 x1 y1 color x y =
    ap (λ (o : Option (List Color)). elim o [ none ↦ none | some row ↦ get_elem? row x ])
      (get_elem?-update_between y0 y1 y fill px)
    ∙ row_lem (get_elem? px y)
  where
    fill : ℕ → List Color → List Color
    fill y row = update_between x0 x1 (λ x old. color) row

    row_lem :
        (o : Option (List Color))
        → (elim (changed (within y0 y1 y) (fill y) o) [ none ↦ none | some row ↦ get_elem? row x ])
          ≡ changed
              (within y0 y1 y && within x0 x1 x)
              (λ old. color)
              (elim o [ none ↦ none | some row ↦ get_elem? row x ])
    row_lem none = refl
    row_lem (some row) = elim (Bool-cases (within y0 y1 y)) [
      | inl e ↦ rw e (get_elem?-update_between x0 x1 x (λ x old. color) row)
      | inr e ↦ rw e (sym (changed-false false (λ old. color) (get_elem? row x) refl))
    ]

get_elem?-replicate : {A : Type 0} (n j : ℕ) (a : A) → j < n → get_elem? (replicate n a) j ≡ some a
unfolding get_elem?
get_elem?-replicate zero j a h = absurd (omega (arith, h))
get_elem?-replicate (suc n) zero a h = refl
get_elem?-replicate (suc n) (suc j) a h = get_elem?-replicate n j a (omega (arith, h))

canvas-pixel : (w h x y : ℕ) → x < w → y < h → pixel (canvas w h) x y ≡ some white
unfolding pixel canvas
canvas-pixel w h x y in_x in_y =
    rw (get_elem?-replicate h y (replicate w white) in_y, pixel)
      (get_elem?-replicate w x white in_x)

-- A pixel lies in the bar of one of the values, the first of which is the `i`-th: a bar stands on the
-- axis, as high as its value says, between three columns of margin in its slot.
abbrev pub is_in_bar : (ℕ → ℕ → ℕ) → ℕ → ℕ → ℕ → ℕ → List ℕ → ℕ → ℕ → Bool
is_in_bar quotient h slot vmax i [] x y = false
is_in_bar quotient h slot vmax i (v ∷ vs) x y =
    is_in_bar quotient h slot vmax (i + 1) vs x y
    || (within (h - 31 - bar_height quotient h vmax v) (h - 31) y
        && within (45 + i * slot + 3) (45 + i * slot + slot - 3) x)

abbrev pub is_on_axis : ℕ → ℕ → ℕ → ℕ → Bool
is_on_axis w h x y =
    (within (h - 31) (h - 29) y && within 40 (w - 10) x) || (within 10 (h - 30) y && within 39 41 x)

changed-or :
    (a b : Bool) (color : Color) (o : Option Color)
    → changed a (λ old. color) (changed b (λ old. color) o) ≡ changed (a || b) (λ old. color) o
changed-or a b color none = refl
changed-or true b color (some x) = refl
changed-or false b color (some x) = refl

draw_bars-pixel :
    (quotient : ℕ → ℕ → ℕ) (h slot vmax i : ℕ) (vs : List ℕ) (px : Canvas) (x y : ℕ)
    → pixel (draw_bars quotient h slot vmax i vs px) x y
      ≡ changed (is_in_bar quotient h slot vmax i vs x y) (λ old. blue) (pixel px x y)
unfolding draw_bars
draw_bars-pixel quotient h slot vmax i [] px x y =
    sym (changed-false false (λ old. blue) (pixel px x y) refl)
draw_bars-pixel quotient h slot vmax i (v ∷ vs) px x y =
    let x0 = 45 + i * slot in
    let top = h - 31 - bar_height quotient h vmax v in
    let rest = is_in_bar quotient h slot vmax (i + 1) vs x y in
    draw_bars-pixel quotient h slot vmax (i + 1) vs
      (fill_rect px (x0 + 3) top (x0 + slot - 3) (h - 31) blue) x y
    ∙ ap (λ o. changed rest (λ old. blue) o)
        (fill_rect-pixel px (x0 + 3) top (x0 + slot - 3) (h - 31) blue x y)
    ∙ changed-or rest (within top (h - 31) y && within (x0 + 3) (x0 + slot - 3) x) blue
        (pixel px x y)

axes-pixel :
    (w h x y : ℕ)
    → x < w
    → y < h
    → pixel (axes w h) x y ≡ some (if is_on_axis w h x y then black else white)
axes-pixel w h x y in_x in_y =
    let first = fill_rect (canvas w h) 39 10 41 (h - 30) black in
    let across = within (h - 31) (h - 29) y && within 40 (w - 10) x in
    fill_rect-pixel first 40 (h - 31) (w - 10) (h - 29) black x y
    ∙ ap (λ o. changed across (λ old. black) o)
        (fill_rect-pixel (canvas w h) 39 10 41 (h - 30) black x y
          ∙ ap (λ o. changed (within 10 (h - 30) y && within 39 41 x) (λ old. black) o)
              (canvas-pixel w h x y in_x in_y))
    ∙ changed-or across (within 10 (h - 30) y && within 39 41 x) black (some white)

max_value-Bound : (v : ℕ) (vs : List ℕ) → (v ≤ max_value v vs) × All (λ u. u ≤ max_value v vs) vs
unfolding max_value
max_value-Bound v [] = (omega arith, tt)
max_value-Bound v (u ∷ vs) =
    let (h, hs) = max_value-Bound (max v u) vs in (omega (arith, h), (omega (arith, h), hs))

below-or : (u m : ℕ) → u ≤ m → (u < m) ⊎ (u ≡ m)
below-or u m h = elim (Bool-cases (ltb u m)) [
  | inl e ↦ inl (ground (arith, e))
  | inr e ↦ inr (ground (arith, e, h))
]

-- The largest number up to which floats hold every natural number.
abbrev pub exact_limit : ℕ
exact_limit = 9007199254740992

-- The quotient of two natural numbers below that is rounded to a float of the same whole part.
abbrev pub IsExactBelow : (ℕ → ℕ → ℕ) → Type 0
IsExactBelow quotient = (a b : ℕ) → a < exact_limit → 0 < b → quotient a b ≡ a / b

-- The bar of a largest value is the only kind of full height.
bar_height-Tallest :
    (quotient : ℕ → ℕ → ℕ) (exact : IsExactBelow quotient) (h vmax u : ℕ)
    → 60 < h
    → 0 < vmax
    → (h - 60) * vmax < exact_limit
    → u ≤ vmax
    → (bar_height quotient h vmax u ≤ h - 60)
      × ((bar_height quotient h vmax u ≡ h - 60) ↔ (u ≡ vmax))
unfolding bar_height
bar_height-Tallest quotient exact h vmax u tall some_height small bound =
    let room : 0 < h - 60 = omega (arith, tall) in
    elim (below-or u vmax bound) [
      | inr e ↦
          let full =
            exact ((h - 60) * vmax) vmax small some_height ∙ mul-div_cancel (h - 60) some_height in
          rw e (omega (arith, full), ((λ _. refl), (λ _. full)))
      | inl less ↦
          let fewer = mul-lt-mul_of_pos_left less room in
          let same = exact ((h - 60) * u) vmax (omega (arith, fewer, small)) some_height in
          let low = (div-lt_iff_lt-mul {x = (h - 60) * u} {y = h - 60} some_height).1 fewer in
          (
            omega (arith, low, same),
            ((λ e. absurd (omega (arith, low, same, e))), (λ e. absurd (omega (arith, less, e)))),
          )
    ]

scaled_chart_lem :
    (quotient : ℕ → ℕ → ℕ) (values : List ℕ) (w h vmax : ℕ)
    → 0 < vmax
    → scaled_chart quotient values w h vmax
      ≡ some (draw_bars quotient h ((w - 60) / length values) vmax 0 values (axes w h))
unfolding scaled_chart
scaled_chart_lem quotient values w h zero some_height = absurd (omega (arith, some_height))
scaled_chart_lem quotient values w h (suc m) some_height = refl

-- Where there are values, the largest is above zero, the canvas higher than 60, and the largest times
-- its height less 60 below 2 ^ 53, up to where `int` of a float quotient is exact, the chart is drawn: a pixel is blue if it lies in a bar, else black on an axis, else white. No bar is higher than
-- the canvas less 60, and exactly those of the largest values are that high.
pub render_bar_chart_lem :
    (quotient : ℕ → ℕ → ℕ) (exact : IsExactBelow quotient) (v : ℕ) (vs : List ℕ) (w h : ℕ)
    → 60 < h
    → 0 < max_value v vs
    → (h - 60) * max_value v vs < exact_limit
    → let slot = (w - 60) / length (v ∷ vs) in
      let vmax = max_value v vs in
      (px : Canvas) × (render_bar_chart quotient (v ∷ vs) w h ≡ some px)
      × ((x y : ℕ)
          → x < w
          → y < h
          → pixel px x y
            ≡ some (
                if is_in_bar quotient h slot vmax 0 (v ∷ vs) x y
                then blue
                else if is_on_axis w h x y
                then black
                else white))
      × All
          (λ u.
            (bar_height quotient h vmax u ≤ h - 60)
            × ((bar_height quotient h vmax u ≡ h - 60) ↔ (u ≡ vmax)))
          (v ∷ vs)
unfolding render_bar_chart
render_bar_chart_lem quotient exact v vs w h tall some_height small =
    let slot = (w - 60) / length (v ∷ vs) in
    let vmax = max_value v vs in
    let (bound, bounds) = max_value-Bound v vs in
    (
      draw_bars quotient h slot vmax 0 (v ∷ vs) (axes w h),
      scaled_chart_lem quotient (v ∷ vs) w h vmax some_height,
      (λ x y in_x in_y.
          draw_bars-pixel quotient h slot vmax 0 (v ∷ vs) (axes w h) x y
          ∙ ap (λ o. changed (is_in_bar quotient h slot vmax 0 (v ∷ vs) x y) (λ old. blue) o)
              (axes-pixel w h x y in_x in_y)),
      (
        bar_height-Tallest quotient exact h vmax v tall some_height small bound,
        All-map (λ u. u ≤ vmax) _ vs
            (λ u. bar_height-Tallest quotient exact h vmax u tall some_height small) bounds,
      ),
    )
