-- ===== src/Store/Load/Satisfying.antt =====
-- The rows of a loaded file that a query is for (cpp/common/csv_store.cpp), without the columns and the
-- indices that the code finds them by.
use mini.Base.{
  ℕ, ◌*◌, ◌^◌, ◌<◌, ◌++◌, All, zero, suc, ◌≡◌, refl, sym, ap, ap₂, ◌∙◌, arith, Bool, true, false,
  not, ◌&&◌, ◌==◌, ltb, if◌then◌else◌, if_cases, Bool-cases, Text, codes, text_eq, Dict, find, List,
  [], ◌∷◌, map, length, get_or, keep, none, some, Option-cases, inl, inr, Floats, is_empty,
}
use mathlib.Core.Option
use mathlib.Core.Path.{fun_ext}
use mini.Store.{
  PartitionStore, Query, RangePredicate, TaxiRow, columns, resolve_col, read_val, fill, hit,
  is_valid, matches, matches_all, row_columns, satisfies_all, satisfies,
}
use mini.Store.Scan.{count_up}
use mini.Store.Ranges.{compute-valid}
use mini.Store.Load.{FromChars, lines_from, find_newline}
use mini.Store.Load.Lines.{ends_line}
use mini.Store.Search.{compute_column_ranges}
use mini.Store.Load.Rows.{Cells, zero_cells, store_of, load_rows, load_partition_csv}
use mini.Store.Load.Threads.{length-map, parsed}
use mini.Store.Load.Sequential.{
  by_index, fill-store_of, is_valid-store_of, load_rows-valid, find_newline_lem, drop_header,
}

abbrev values : {A B : Type 0} → (A → B) → Dict A → Dict B
values f [] = []
values f ((k, a) ∷ m) = (k, f a) ∷ values f m

find-values :
    {A B : Type 0} (f : A → B) (k : Text) (m : Dict A)
    → find k (values f m) ≡ Option.map f (find k m)
unfolding find
find-values f k [] = refl
find-values f k ((j, a) ∷ m) = elim (Bool-cases (text_eq j k)) [
  | inl e ↦ rw e refl
  | inr e ↦ rw e (find-values f k m)
]

in_bounds :
    (xs : List ℕ) (i : ℕ)
    → (ltb i (length xs) && not (get_or xs i 0 == 0)) ≡ not (get_or xs i 0 == 0)
in_bounds [] i = ground arith
in_bounds (x ∷ xs) zero = ground arith
in_bounds (x ∷ xs) (suc i) = ground (arith, in_bounds xs i)

and_if : (a b : Bool) → (if a then b else false) ≡ (a && b)
and_if true b = refl
and_if false b = refl

module _ {F : Type 0} ⦃fl : Floats F⦄ where
  row_columns-store_of :
      (cells : List (Cells F)) (i : ℕ)
      → values (λ c. read_val c i) (columns (store_of cells))
        ≡ row_columns (get_or cells i zero_cells).row
  unfolding columns store_of read_val zero_cells
  row_columns-store_of [] i = refl
  row_columns-store_of (c ∷ cells) zero = refl
  row_columns-store_of (c ∷ cells) (suc i) = row_columns-store_of cells i

  matches_all-store_of :
      (cells : List (Cells F)) (i : ℕ) (ps : List (RangePredicate F))
      → matches_all (store_of cells) i ps ≡ satisfies_all (get_or cells i zero_cells).row ps
  unfolding matches_all resolve_col find text_eq codes
  matches_all-store_of cells i [] = refl
  matches_all-store_of cells i (p ∷ ps) =
      let same : find p.column (row_columns (get_or cells i zero_cells).row)
          ≡ Option.map (λ c. read_val c i) (resolve_col (store_of cells) p.column) =
        ap (find p.column) (sym (row_columns-store_of cells i))
        ∙ find-values _ p.column (columns (store_of cells)) in
      elim (Option-cases (resolve_col (store_of cells) p.column)) [
        | inl missing ↦
            rw (matches_all, missing, same ∙ ap (Option.map (λ c. read_val c i)) missing) refl
        | inr (col, here) ↦
            rw (matches_all, here, same ∙ ap (Option.map (λ c. read_val c i)) here)
              (ap (λ b. if hit p.inclusive p.low p.high (read_val col i) then b else false)
                (matches_all-store_of cells i ps))
      ]

  -- In bounds, by position: the row of a valid line that satisfies the query.
  abbrev picks : Query F → Cells F → Bool
  picks q c = c.valid && satisfies q c.row

  matches-store_of :
      (cells : List (Cells F)) (i : ℕ) (q : Query F)
      → matches (store_of cells) i q ≡ picks q (get_or cells i zero_cells)
  unfolding matches is_valid
  matches-store_of cells i q =
      ap (λ b. if b then matches_all (store_of cells) i q.predicates else false)
        (in_bounds (store_of cells).valid i ∙ is_valid-store_of cells i)
      ∙ ap (λ b. if (get_or cells i zero_cells).valid then b else false)
          (matches_all-store_of cells i q.predicates)
      ∙ and_if (get_or cells i zero_cells).valid _

  ranges-matches_all :
      (s : PartitionStore F) (m : Dict (F × F)) (i : ℕ) (ps : List (RangePredicate F))
      → matches_all (record s { column_ranges = m }) i ps ≡ matches_all s i ps
  unfolding matches_all resolve_col columns
  ranges-matches_all s m i [] = refl
  ranges-matches_all s m i (p ∷ ps) =
      ap
        (λ rest. elim (resolve_col s p.column) [
          | none ↦ false
          | some col ↦ if hit p.inclusive p.low p.high (read_val col i) then rest else false
        ])
        (ranges-matches_all s m i ps)

  -- The range table changes neither the rows nor what they match.
  ranges-fill :
      (threads : List (List ℕ)) (s : PartitionStore F) (i : ℕ)
      → fill (compute_column_ranges threads s) i ≡ fill s i
  unfolding compute_column_ranges fill
  ranges-fill threads s i =
      if_cases (λ (t : PartitionStore F). fill t i ≡ fill s i) (is_empty s.valid) (λ _. refl)
        (λ _. refl)

  ranges-matches :
      (threads : List (List ℕ)) (s : PartitionStore F) (i : ℕ) (q : Query F)
      → matches (compute_column_ranges threads s) i q ≡ matches s i q
  unfolding compute_column_ranges matches is_valid
  ranges-matches threads s i q =
      if_cases (λ (t : PartitionStore F). matches t i q ≡ matches s i q) (is_empty s.valid)
        (λ _. refl)
        (λ _.
          ap (λ b. if ltb i (length s.valid) && is_valid s i then b else false)
            (ranges-matches_all s _ i q.predicates))

  kept-picks :
      (q : Query F) (cells : List (Cells F))
      → map (λ (c : Cells F). c.row) (keep (picks q) cells)
        ≡ keep (satisfies q) (map (λ (c : Cells F). c.row) (keep (λ (c : Cells F). c.valid) cells))
  kept-picks q [] = refl
  kept-picks q (c ∷ cells) = elim (Bool-cases c.valid) [
    | inr bad ↦ rw bad (kept-picks q cells)
    | inl good ↦ elim (Bool-cases (satisfies q c.row)) [
      | inl in_window ↦ rw (good, in_window) (ap (◌∷◌ c.row) (kept-picks q cells))
      | inr outside ↦ rw (good, outside) (kept-picks q cells)
    ]
  ]

  -- What the scan by columns finds in a store, row by row.
  pub scan-store_of :
      (threads : List (List ℕ)) (cells : List (Cells F)) (q : Query F)
      → map (fill (compute_column_ranges threads (store_of cells))) (
          keep
            (λ i. matches (compute_column_ranges threads (store_of cells)) i q)
            (count_up 0 (length (compute_column_ranges threads (store_of cells)).valid)))
        ≡ keep (satisfies q) (map (λ (c : Cells F). c.row) (keep (λ (c : Cells F). c.valid) cells))
  unfolding store_of
  scan-store_of threads cells q =
      ap₂
        (λ f m.
          map f
            (keep m (count_up 0 (length (compute_column_ranges threads (store_of cells)).valid))))
        (fun_ext (λ i. ranges-fill threads (store_of cells) i ∙ fill-store_of cells i))
        (fun_ext (λ i. ranges-matches threads (store_of cells) i q ∙ matches-store_of cells i q))
      ∙ ap
          (λ n.
            map (λ i. (get_or cells i zero_cells).row)
              (keep (λ i. picks q (get_or cells i zero_cells)) (count_up 0 n)))
          (ap length (compute-valid threads (store_of cells))
            ∙ length-map (λ (c : Cells F). (if c.valid then 1 else 0)) cells)
      ∙ by_index (λ (c : Cells F). c.row) (picks q) zero_cells [] cells
      ∙ kept-picks q cells

  -- The rows of the lines of a file that are valid and satisfy a query, in the file's order.
  abbrev pub rows_for : FromChars F → Text → Query F → List (TaxiRow F)
  rows_for from_chars body q = keep (satisfies q) (
      map (λ (c : Cells F). c.row)
        (keep (λ (c : Cells F). c.valid) (parsed from_chars (lines_from [] body))))

  -- What a query finds in a store that was loaded from a file.
  pub scan-load_rows :
      (from_chars : FromChars F) (nt : ℕ) (body : Text) (threads : List (List ℕ)) (q : Query F)
      → 0 < nt
      → length body * nt < 2 ^ 64
      → ends_line body ≡ true
      → map (fill (compute_column_ranges threads (store_of (load_rows from_chars nt body)))) (
          keep
            (λ i.
              matches (compute_column_ranges threads (store_of (load_rows from_chars nt body))) i q)
            (count_up 0 (
              length
                (compute_column_ranges threads (store_of (load_rows from_chars nt body))).valid)))
        ≡ rows_for from_chars body q
  scan-load_rows from_chars nt body threads q p w e =
      scan-store_of threads (load_rows from_chars nt body) q
      ∙ ap (λ cells. keep (satisfies q) (map (λ (c : Cells F). c.row) cells))
          (load_rows-valid from_chars nt body p w e)

  pub load-store_of :
      (from_chars : FromChars F) (nt : ℕ) (header body : Text)
      → All (λ c. (c == 10) ≡ false) header
      → load_partition_csv from_chars nt (header ++ 10 ∷ body)
        ≡ some (store_of (load_rows from_chars nt body))
  unfolding load_partition_csv find_newline
  load-store_of from_chars nt [] body h =
      ap (λ r. some (store_of (load_rows from_chars nt r))) (drop_header [] body)
  load-store_of from_chars nt (c ∷ header) body h =
      rw (load_partition_csv, find_newline_lem (c ∷ header) body h)
        (ap (λ r. some (store_of (load_rows from_chars nt r))) (drop_header (c ∷ header) body))
