-- ===== src/Store/Ranges.antt =====
-- The range table never hides a row: a query that `predicate_can_match` turns down matches no row.
use mini.Base.{
  ℕ, ◌<◌, ◌≡◌, refl, sym, ◌∙◌, ap, arith, Bool, true, false, if◌then◌else◌, Text, Dict, find, put,
  is_empty, List, [], ◌∷◌, length, keep, In, All, some, Floats, Bool-cases, Option-cases, ◌⊎◌, inl,
  inr, if_cases, All-put, All-find, All-keep, text_eq, codes,
}
use mini.Store.{
  PartitionStore, Query, RangePredicate, Column, columns, resolve_col, is_valid, read_val, hit,
  matches, matches_all,
}
use mini.Store.Search.{
  widen, minmax_rows, combine, minmax_threads, minmax_col, ranges_from, is_proper,
  compute_column_ranges, windows_meet, predicate_can_match, range_search,
}
use mini.Store.Scan.{sum, keep-cong, keep_none, range_search-matches}
pub use mini.Store.Ranges.Minmax.{Covers, Holds, minmax_col-Holds}
use mini.Store.Ranges.Minmax.{InSome}
pub mod Minmax

module _ {F : Type 0} ⦃fl : Floats F⦄ where
  -- The entry's range holds the value of row `i` in the column that it is named for.
  abbrev RangeHolds : PartitionStore F → ℕ → Text × (F × F) → Type 0
  RangeHolds s i (k, r) = (col : Column F) → resolve_col s k ≡ some col → Holds r (read_val col i)

  abbrev IsNamed : PartitionStore F → Text × Column F → Type 0
  IsNamed s (k, col) = resolve_col s k ≡ some col

  columns-IsNamed :
      (s : PartitionStore F) (m : Dict (F × F))
      → All (IsNamed (record s { column_ranges = m })) (columns s)
  unfolding resolve_col columns find text_eq codes
  columns-IsNamed s m = (
    refl,
    (
      refl,
      (
        refl,
        (
          refl,
          (
            refl,
            (
              refl,
              (
                refl,
                (refl, (refl, (refl, (refl, (refl, (refl, (refl, (refl, (refl, (refl, tt)))))))))),
              ),
            ),
          ),
        ),
      ),
    ),
  )

  ranges_from-RangeHolds :
      (threads : List (List ℕ)) (s t : PartitionStore F) (i : ℕ)
      → is_valid s i ≡ true
      → InSome i threads
      → (cols : Dict (Column F)) (m : Dict (F × F)) → All (IsNamed t) cols
      → All (RangeHolds t i) m
      → All (RangeHolds t i) (ranges_from threads s cols m)
  unfolding ranges_from
  ranges_from-RangeHolds threads s t i valid mem [] m n h = h
  ranges_from-RangeHolds threads s t i valid mem ((k, col) ∷ cols) m n h =
      ranges_from-RangeHolds threads s t i valid mem cols (put k (minmax_col threads s col) m) n.1 (
        All-put (RangeHolds t i) k (minmax_col threads s col) m
          (λ c e.
            let same : col ≡ c = cc (sym n.0 ∙ e) in
            rw (sym same) (minmax_col-Holds s col threads i valid mem))
          h)

  pub hit-meets :
      (inclusive : Bool) (low high v : F) (r : F × F)
      → Holds r v
      → hit inclusive low high v ≡ true
      → (fl.lt high r.0 ≡ false) × (fl.lt r.1 low ≡ false)
  unfolding hit
  hit-meets true low high v r h e =
      ground (arith, fl.le_lt_trans v high r.0, fl.lt_le_trans r.1 low v)
  hit-meets false low high v r h e = ground (arith, fl.lt_trans v high r.0, fl.lt_trans r.1 low v)

  windows_meet_of_match :
      (s : PartitionStore F) (i : ℕ) (m : Dict (F × F)) (ps : List (RangePredicate F))
      → All (RangeHolds s i) m
      → matches_all s i ps ≡ true
      → windows_meet m ps ≡ true
  unfolding windows_meet matches_all
  windows_meet_of_match s i m [] h e = refl
  windows_meet_of_match s i m (p ∷ ps) h e = elim (Option-cases (resolve_col s p.column)) [
    | inl unknown ↦ cc (rw (unknown, matches_all) at e)
    | inr (col, named) ↦
        let (one, others) : (hit p.inclusive p.low p.high (read_val col i) ≡ true)
            × (matches_all s i ps ≡ true) =
          ground arith in
        let rest = windows_meet_of_match s i m ps h others in
        elim (Option-cases (find p.column m)) [
          | inl free ↦ rw (free, windows_meet) rest
          | inr (r, found) ↦
              let (above, below) =
                hit-meets p.inclusive p.low p.high (read_val col i) r
                  (All-find (RangeHolds s i) p.column r m found h col named) one in
              rw (found, windows_meet) (rw (above, below) rest)
        ]
  ]

  pub match_parts :
      (s : PartitionStore F) (i : ℕ) (q : Query F)
      → matches s i q ≡ true
      → (i < length s.valid) × (is_valid s i ≡ true) × (matches_all s i q.predicates ≡ true)
  unfolding matches
  match_parts s i q e = ground arith

  table_meets :
      (threads : List (List ℕ)) (s : PartitionStore F) (q : Query F) (i : ℕ)
      → s.column_ranges ≡ []
      → Covers threads (length s.valid)
      → matches (compute_column_ranges threads s) i q ≡ true
      → windows_meet (compute_column_ranges threads s).column_ranges q.predicates ≡ true
  unfolding compute_column_ranges is_valid
  table_meets threads s q i new cover =
      if_cases
        (λ (t : PartitionStore F).
          matches t i q ≡ true → windows_meet t.column_ranges q.predicates ≡ true)
        (is_empty s.valid)
        (λ none_there e.
          rw new (windows_meet_of_match s i [] q.predicates tt (match_parts s i q e).2))
        λ some_there e.
          let m = keep is_proper (ranges_from threads s (columns s) s.column_ranges) in
          let t = record s { column_ranges = m } in
          let (inside, valid, hits) = match_parts t i q e in
          let old : All (RangeHolds t i) s.column_ranges = rw new tt in
          windows_meet_of_match t i m q.predicates
            (All-keep (RangeHolds t i) is_proper _ (
              ranges_from-RangeHolds threads s t i valid (cover i inside) (columns s)
                s.column_ranges (columns-IsNamed s m) old))
            hits

  -- With the range table that startup builds, whatever rows each thread takes and in whatever order
  -- the results are combined, a query that the pre-filter turns down matches no row of the partition.
  pub predicate_can_match_sound :
      (threads : List (List ℕ)) (s : PartitionStore F) (q : Query F) (i : ℕ)
      → s.column_ranges ≡ []
      → Covers threads (length s.valid)
      → predicate_can_match (compute_column_ranges threads s) q ≡ false
      → matches (compute_column_ranges threads s) i q ≡ false
  unfolding predicate_can_match
  predicate_can_match_sound threads s q i new cover e =
      elim (Bool-cases (matches (compute_column_ranges threads s) i q)) [
        | inl hits ↦ ground (arith, table_meets threads s q i new cover hits)
        | inr misses ↦ misses
      ]

  pub compute-valid :
      (threads : List (List ℕ)) (s : PartitionStore F)
      → (compute_column_ranges threads s).valid ≡ s.valid
  unfolding compute_column_ranges
  compute-valid threads s = ground arith

  -- A query that the pre-filter rejects, by a range table computed from the valid rows, matches no row:
  -- the scan that it saves would have found nothing.
  pub skipped_scan-empty :
      (slices : List ℕ) (threads : List (List ℕ)) (s : PartitionStore F) (q : Query F)
      → s.column_ranges ≡ []
      → Covers threads (length s.valid)
      → sum slices ≡ length s.valid
      → predicate_can_match (compute_column_ranges threads s) q ≡ false
      → range_search slices (compute_column_ranges threads s) q ≡ []
  skipped_scan-empty slices threads s q new cover total e =
      let same = compute-valid threads s in
      range_search-matches slices _ q (total ∙ ap length (sym same))
      ∙ keep-cong _ (λ _. false) 0 _ (λ j h. predicate_can_match_sound threads s q j new cover e)
      ∙ keep_none 0 (length (compute_column_ranges threads s).valid)
