-- ===== src/Images.antt =====
-- rl_sim/mm_images.py: the canvas and what is drawn on it. Coordinates are natural numbers: the code
-- puts a lower bound of zero on each, as the cut-off subtraction does. Writing the PNG is left out.
pub mod Pixels
mod Tests
use llm_rl_cpu_poc.Common.{
  ℕ, zero, suc, ◌+◌, ◌-◌, ◌*◌, ◌/◌, min, max, leb, Option, none, some, List, [], ◌∷◌, length,
  replicate, if◌then◌else◌,
}

pub data Color : Type 0 where
  white black blue red green : Color

abbrev pub Canvas : Type 0
Canvas = List (List Color)

unfoldable pub canvas : ℕ → ℕ → Canvas
canvas w h = replicate h (replicate w white)

-- `xs[i] = f(xs[i])`.
unfoldable pub update_at {ℓ} : {A : Type ℓ} → ℕ → (A → A) → List A → List A
update_at i f [] = []
update_at zero f (x ∷ xs) = f x ∷ xs
update_at (suc i) f (x ∷ xs) = x ∷ update_at i f xs

-- `for i in range(i, i + k)`, over the elements of one list.
unfoldable pub update_range {ℓ} : {A : Type ℓ} → ℕ → ℕ → (ℕ → A → A) → List A → List A
unfolding update_at
update_range zero i f xs = xs
update_range (suc k) i f xs = update_range k (i + 1) f (update_at i (f i) xs)

-- `for i in range(low, min(len(xs), high))`.
unfoldable pub update_between {ℓ} : {A : Type ℓ} → ℕ → ℕ → (ℕ → A → A) → List A → List A
unfolding update_range
update_between low high f xs = update_range (min (length xs) high - low) low f xs

unfoldable pub fill_rect : Canvas → ℕ → ℕ → ℕ → ℕ → Color → Canvas
unfolding update_between
fill_rect px x0 y0 x1 y1 color =
    update_between y0 y1 (λ y row. update_between x0 x1 (λ x old. color) row) px

-- The distance of two coordinates, of which only the square is used.
abbrev pub apart : ℕ → ℕ → ℕ
apart a b = (a - b) + (b - a)

unfoldable pub fill_circle : Canvas → ℕ → ℕ → ℕ → Color → Canvas
unfolding update_between
fill_circle px cx cy r color =
    update_between (cy - r) (cy + r + 1)
      (λ y row.
        update_between (cx - r) (cx + r + 1)
          (λ x old.
            if leb (apart x cx * apart x cx + apart y cy * apart y cy) (r * r) then color else old)
          row)
      px

-- `max(values)` of a list that is not empty.
unfoldable pub max_value : ℕ → List ℕ → ℕ
max_value best [] = best
max_value best (v ∷ vs) = max_value (max best v) vs

-- A bar's height is `int` of a quotient of floats: `quotient a b` is `int(a / b)`.
unfoldable pub bar_height : (ℕ → ℕ → ℕ) → ℕ → ℕ → ℕ → ℕ
bar_height quotient h vmax v = quotient ((h - 60) * v) vmax

unfoldable pub draw_bars : (ℕ → ℕ → ℕ) → ℕ → ℕ → ℕ → ℕ → List ℕ → Canvas → Canvas
unfolding fill_rect bar_height
draw_bars quotient h slot vmax i [] px = px
draw_bars quotient h slot vmax i (v ∷ vs) px =
    let x0 = 45 + i * slot in
    draw_bars quotient h slot vmax (i + 1) vs
      (fill_rect px (x0 + 3) (h - 31 - bar_height quotient h vmax v) (x0 + slot - 3) (h - 31) blue)

abbrev pub axes : ℕ → ℕ → Canvas
axes w h =
    fill_rect (fill_rect (canvas w h) 39 10 41 (h - 30) black) 40 (h - 31) (w - 10) (h - 29) black

-- The bars over the axes, for the largest value; none is a ZeroDivisionError.
unfoldable pub scaled_chart : (ℕ → ℕ → ℕ) → List ℕ → ℕ → ℕ → ℕ → Option Canvas
unfolding canvas draw_bars
scaled_chart quotient values w h zero = none
scaled_chart quotient values w h (suc m) =
    some (draw_bars quotient h ((w - 60) / length values) (suc m) 0 values (axes w h))

-- None is a ZeroDivisionError: there are no values, or the largest is zero.
unfoldable pub render_bar_chart : (ℕ → ℕ → ℕ) → List ℕ → ℕ → ℕ → Option Canvas
unfolding max_value scaled_chart
render_bar_chart quotient [] w h = none
render_bar_chart quotient (v ∷ vs) w h = scaled_chart quotient (v ∷ vs) w h (max_value v vs)

-- What the random generator gives for one shape: its corner or centre, and its size.
pub record Box : Type 0 where
  pub rw : ℕ
  pub rh : ℕ
  pub x : ℕ
  pub y : ℕ

pub record Disc : Type 0 where
  pub r : ℕ
  pub cx : ℕ
  pub cy : ℕ

unfoldable pub draw_boxes : List Box → Canvas → Canvas
unfolding fill_rect
draw_boxes [] px = px
draw_boxes (b ∷ bs) px = draw_boxes bs (fill_rect px b.x b.y (b.x + b.rw) (b.y + b.rh) green)

unfoldable pub draw_discs : List Disc → Canvas → Canvas
unfolding fill_circle
draw_discs [] px = px
draw_discs (d ∷ ds) px = draw_discs ds (fill_circle px d.cx d.cy d.r red)

unfoldable pub render_shapes : List Disc → List Box → ℕ → ℕ → Canvas
unfolding canvas draw_boxes draw_discs
render_shapes circles rects w h = draw_discs circles (draw_boxes rects (canvas w h))
