-- ===== src/Discovery/Weights/Defs.antt =====
-- lang/python/frenetic/examples/discovery/topology.py: the counts of a link, and the weight that is made
-- of them. The floats of the language are an interface: their operations are arguments.
use mathlib.Core.List.{reverse}
use frenetic.Base.{
  ℕ, ◌+◌, List, [], ◌∷◌, ◌++◌, Option, none, some, Result, ok, err, ◌>>=◌, guard, index_error,
  length, ltb, if◌then◌else◌,
}
use frenetic.Base.Int.{ℤ, sub_ℕ}

-- A division may raise a ZeroDivisionError.
pub record Floats (F : Type 0) : Type 0 where
  pub nought : F
  pub plus : F → F → F
  pub minus : F → F → F
  pub int_over : ℤ → F → Result F
  pub over_size : F → ℕ → F

pub record Count (F : Type 0) : Type 0 where
  pub timestamp : F
  pub count : ℕ

abbrev pub num_intervals : ℕ
num_intervals = 5

module _ {F : Type 0} (fl : Floats F) where
  -- The change from one count to the next that is popped, by the time between them.
  unfoldable pub rate : Count F → Count F → Result F
  rate start_point end_point =
      fl.int_over (sub_ℕ end_point.count start_point.count)
        (fl.minus end_point.timestamp start_point.timestamp)

  -- The loop, over the counts from the last to the first.
  unfoldable pub sum_rates : F → Count F → List (Count F) → Result F
  unfolding rate
  sum_rates average start_point [] = ok average
  sum_rates average start_point (end_point ∷ counts) =
      rate start_point end_point >>= λ r. sum_rates (fl.plus average r) end_point counts

  abbrev from_last : ℕ → List (Count F) → Result F
  from_last size [] = err index_error
  from_last size (start_point ∷ counts) =
      sum_rates fl.nought start_point counts >>= λ average. ok (fl.over_size average size)

  unfoldable pub moving_average : List (Count F) → Result F
  unfolding sum_rates
  moving_average counts =
      guard (ltb 1 (length counts)) >>= λ u. from_last (length counts) (reverse counts)

  -- `while len(counts) > num_intervals + 1: counts.pop(0)`
  unfoldable pub remove_older : List (Count F) → List (Count F)
  remove_older [] = []
  remove_older (c ∷ counts) =
      if ltb (num_intervals + 1) (length (c ∷ counts)) then remove_older counts else c ∷ counts

  abbrev pub counts_of : Option (List (Count F)) → List (Count F)
  counts_of none = []
  counts_of (some counts) = counts

  abbrev pub weight_of : List (Count F) → Result F
  weight_of counts = if ltb 1 (length counts) then moving_average counts else ok fl.nought

  -- update_callback on the counts of an edge that is still there when the answer comes. The
  -- list is changed before the average is made, so it stays changed if that raises an exception.
  unfoldable pub update_callback :
      (rx_bytes tx_bytes : ℕ) → (now : F) → Option (List (Count F)) → List (Count F) × Result F
  unfolding remove_older moving_average
  update_callback rx_bytes tx_bytes now counts =
      let latest : Count F = record { timestamp = now; count = rx_bytes + tx_bytes } in
      let counts' = remove_older (counts_of counts ++ latest ∷ []) in (counts', weight_of counts')
