-- ===== src/Images/Tests.antt =====
-- mm_images.py: a chart of three values and a few shapes, on small canvases.
use llm_rl_cpu_poc.Common.{
  ℕ, ◌/◌, ◌<◌, ◌≡◌, ◌≤◌, ◌↔◌, refl, some, none, [], ◌∷◌, All, arith, if◌then◌else◌,
}
use llm_rl_cpu_poc.Images.{
  Canvas, white, black, blue, red, green, bar_height, max_value, render_bar_chart, render_shapes,
}
use llm_rl_cpu_poc.Images.Pixels.{pixel, is_in_bar, is_on_axis, render_bar_chart_lem}

abbrev exact_quotient : ℕ → ℕ → ℕ
exact_quotient a b = a / b

-- A disc over a box.
shapes_lem :
    render_shapes
      (record { r = 1; cx = 1; cy = 1 } ∷ [])
      (record { rw = 2; rh = 1; x = 2; y = 1 } ∷ [])
      4
      3
    ≡ (white ∷ red ∷ white ∷ white ∷ [])
      ∷ (red ∷ red ∷ red ∷ green ∷ [])
      ∷ (white ∷ red ∷ white ∷ white ∷ [])
      ∷ []
unfolding render_shapes
shapes_lem = refl

no_values : render_bar_chart exact_quotient [] 400 300 ≡ none
unfolding render_bar_chart
no_values = refl

render_bar_chart_lem_example :
    (px : Canvas) × (render_bar_chart exact_quotient (3 ∷ 7 ∷ 5 ∷ []) 100 80 ≡ some px)
    × ((x y : ℕ)
        → x < 100
        → y < 80
        → pixel px x y
          ≡ some (
              if is_in_bar exact_quotient 80 13 7 0 (3 ∷ 7 ∷ 5 ∷ []) x y
              then blue
              else if is_on_axis 100 80 x y
              then black
              else white))
    × All
        (λ u.
          (bar_height exact_quotient 80 7 u ≤ 20)
          × ((bar_height exact_quotient 80 7 u ≡ 20) ↔ (u ≡ 7)))
        (3 ∷ 7 ∷ 5 ∷ [])
unfolding max_value
render_bar_chart_lem_example =
    render_bar_chart_lem exact_quotient (λ a b small some_b. refl) 3 (7 ∷ 5 ∷ []) 100 80
      (omega arith) (omega arith) (omega arith)
