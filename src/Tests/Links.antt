-- ===== src/Tests/Links.antt =====
-- The theorem on the counts of a link, at a concrete input.
use frenetic.Base.{
  ℕ, ◌+◌, ◌-◌, ◌/◌, ◌≤◌, ◌≡◌, List, [], ◌∷◌, map, none, Result, ok, err, zero_division_error,
  length, ◌==◌, if◌then◌else◌,
}
use frenetic.Base.Int.{ℤ, pos, negsuc}
use frenetic.Discovery.Weights.Defs.{Floats, num_intervals}
use frenetic.Discovery.Weights.Window.{drop, Answer, counted, run, run-window}

-- Whole numbers for floats.
abbrev pub whole : Floats ℕ
whole = record {
  nought = 0;
  plus = λ a b. a + b;
  minus = λ a b. a - b;
  int_over = over;
  over_size = λ a n. a / n;
}
  where
    over : ℤ → ℕ → Result ℕ
    over (pos n) d = if d == 0 then err zero_division_error else ok (n / d)
    over (negsuc n) d = ok 0

abbrev answers : List (Answer whole)
answers =
    (1, 2, 0) ∷ (3, 2, 5) ∷ (3, 4, 10) ∷ (5, 4, 15) ∷ (7, 4, 20) ∷ (7, 9, 25) ∷ (8, 9, 30) ∷ []

run-window_example :
    (run whole answers none
      ≡ drop (length answers - (num_intervals + 1)) (map (counted whole) answers))
    × (length (run whole answers none) ≤ num_intervals + 1)
run-window_example = run-window whole answers
