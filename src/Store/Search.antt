-- ===== src/Store/Search.antt =====
-- The parallel scan of a partition and its range table (cpp/common/csv_store.cpp: `range_search`,
-- `minmax_col`, `compute_column_ranges`, `predicate_can_match`). How OpenMP shares the rows out is an
-- argument: the lengths of the threads' consecutive slices for the static schedule, and for a
-- reduction the threads' rows in the order in which their results are combined.
use mini.Base.{
  ℕ, zero, suc, ◌+◌, Bool, true, false, ◌==◌, if◌then◌else◌, Text, Dict, find, put, is_empty, List,
  [], ◌∷◌, ◌++◌, length, keep, Option, none, some, Floats, not,
}
use mini.Store.{
  PartitionStore, Query, RangePredicate, Column, columns, resolve_col, is_valid, read_val, hit,
}

pub record ResolvedPred (F : Type 0) : Type 0 where
  pub col : Column F
  pub low : F
  pub high : F
  pub inclusive : Bool

module _ {F : Type 0} ⦃fl : Floats F⦄ where
  -- `none` for an unknown column.
  unfoldable pub resolve_preds :
      PartitionStore F → List (RangePredicate F) → Option (List (ResolvedPred F))
  resolve_preds s [] = some []
  resolve_preds s (p ∷ ps) = elim (resolve_col s p.column) [
    | none ↦ none
    | some col ↦ elim (resolve_preds s ps) [
      | none ↦ none
      | some rs ↦
          some (record { col = col; low = p.low; high = p.high; inclusive = p.inclusive } ∷ rs)
    ]
  ]

  unfoldable pub row_match : List (ResolvedPred F) → ℕ → Bool
  row_match [] i = true
  row_match (r ∷ rs) i =
      let rest = row_match rs i in
      if hit r.inclusive r.low r.high (read_val r.col i) then rest else false

  -- One thread: `count` rows from `i` on, the matches in order.
  unfoldable pub scan_slice : PartitionStore F → List (ResolvedPred F) → ℕ → ℕ → List ℕ
  scan_slice s rs i zero = []
  scan_slice s rs i (suc count) =
      let rest = scan_slice s rs (suc i) count in
      if is_valid s i then (if row_match rs i then i ∷ rest else rest) else rest

  -- The threads' buffers, one after the other.
  unfoldable pub scan_slices : PartitionStore F → List (ResolvedPred F) → ℕ → List ℕ → List ℕ
  scan_slices s rs i [] = []
  scan_slices s rs i (count ∷ slices) =
      scan_slice s rs i count ++ scan_slices s rs (i + count) slices

  unfoldable pub range_search : List ℕ → PartitionStore F → Query F → List ℕ
  range_search slices s q =
      if length s.valid == 0
      then []
      else elim (resolve_preds s q.predicates) [ none ↦ [] | some rs ↦ scan_slices s rs 0 slices ]

  -- One row of `minmax_col`.
  unfoldable pub widen : PartitionStore F → Column F → F × F → ℕ → F × F
  widen s col (lo, hi) i =
      if is_valid s i
      then (
        (if fl.lt (read_val col i) lo then read_val col i else lo),
        (if fl.lt hi (read_val col i) then read_val col i else hi),
      )
      else (lo, hi)

  unfoldable pub minmax_rows : PartitionStore F → Column F → F × F → List ℕ → F × F
  minmax_rows s col r [] = r
  minmax_rows s col r (i ∷ rows) = minmax_rows s col (widen s col r i) rows

  -- `reduction(min:lo) reduction(max:hi)` of one thread's result into the total.
  unfoldable pub combine : F × F → F × F → F × F
  combine (lo, hi) (lo', hi') =
      ((if fl.lt lo' lo then lo' else lo), (if fl.lt hi hi' then hi' else hi))

  unfoldable pub minmax_threads : PartitionStore F → Column F → F × F → List (List ℕ) → F × F
  minmax_threads s col total [] = total
  minmax_threads s col total (rows ∷ threads) =
      minmax_threads s col (combine total (minmax_rows s col (fl.inf, fl.neg_inf) rows)) threads

  unfoldable pub minmax_col : List (List ℕ) → PartitionStore F → Column F → F × F
  minmax_col threads s col = minmax_threads s col (fl.inf, fl.neg_inf) threads

  unfoldable pub ranges_from :
      List (List ℕ) → PartitionStore F → Dict (Column F) → Dict (F × F) → Dict (F × F)
  ranges_from threads s [] m = m
  ranges_from threads s ((k, col) ∷ cols) m =
      ranges_from threads s cols (put k (minmax_col threads s col) m)

  -- `it->second.first > it->second.second` erases the entry.
  unfoldable pub is_proper : Text × (F × F) → Bool
  is_proper (k, (lo, hi)) = not (fl.lt hi lo)

  unfoldable pub compute_column_ranges : List (List ℕ) → PartitionStore F → PartitionStore F
  compute_column_ranges threads s = if is_empty s.valid then s else record s {
    column_ranges = keep is_proper (ranges_from threads s (columns s) s.column_ranges);
  }

  -- The loop of `predicate_can_match`.
  unfoldable pub windows_meet : Dict (F × F) → List (RangePredicate F) → Bool
  windows_meet m [] = true
  windows_meet m (p ∷ ps) =
      let rest = windows_meet m ps in
      elim (find p.column m) [
        | none ↦ rest
        | some r ↦ if fl.lt p.high r.0 then false else if fl.lt r.1 p.low then false else rest
      ]

  unfoldable pub predicate_can_match : PartitionStore F → Query F → Bool
  predicate_can_match s q =
      if is_empty s.column_ranges then true else windows_meet s.column_ranges q.predicates
