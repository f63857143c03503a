-- ===== src/Examples/Partition.antt =====
-- A partition of three trips, one of them unreadable, with its scan and its range table
-- (cpp/common/csv_store.cpp).
use mini.Base.{
  ℕ, zero, suc, ◌≡◌, refl, arith, inl, inr, true, false, pos, Text, codes, List, [], ◌∷◌, keep,
  Whole, whole, whole_floats, text_eq, find, put,
}
use mini.Store.{PartitionStore, Query, matches, ints, is_valid, read_val, resolve_col, columns, hit}
use mini.Store.Search.{
  range_search, compute_column_ranges, predicate_can_match, minmax_col, resolve_preds, scan_slices,
  scan_slice, row_match, ranges_from, minmax_threads, minmax_rows, combine, widen, is_proper,
  windows_meet,
}
use mini.Store.Scan.{count_up, range_search-matches}
use mini.Store.Ranges.{
  Covers, Holds, minmax_col-Holds, predicate_can_match_sound, skipped_scan-empty,
}

abbrev pub trips : PartitionStore Whole
trips = record {
  vendor_id = pos 1 ∷ pos 2 ∷ pos 0 ∷ [];
  pickup_datetime = pos 1_700_000_000 ∷ pos 1_700_000_060 ∷ pos 0 ∷ [];
  dropoff_datetime = pos 1_700_000_600 ∷ pos 1_700_000_900 ∷ pos 0 ∷ [];
  passenger_count = pos 1 ∷ pos 3 ∷ pos 0 ∷ [];
  trip_distance = whole (pos 2) ∷ whole (pos 9) ∷ whole (pos 0) ∷ [];
  ratecode_id = pos 1 ∷ pos 1 ∷ pos 0 ∷ [];
  pu_location_id = pos 132 ∷ pos 48 ∷ pos 0 ∷ [];
  do_location_id = pos 230 ∷ pos 48 ∷ pos 0 ∷ [];
  store_and_fwd_flag = 0 ∷ 1 ∷ 0 ∷ [];
  payment_type = pos 1 ∷ pos 2 ∷ pos 0 ∷ [];
  fare_amount = whole (pos 12) ∷ whole (pos 40) ∷ whole (pos 0) ∷ [];
  extra = whole (pos 0) ∷ whole (pos 1) ∷ whole (pos 0) ∷ [];
  mta_tax = whole (pos 0) ∷ whole (pos 0) ∷ whole (pos 0) ∷ [];
  tip_amount = whole (pos 2) ∷ whole (pos 0) ∷ whole (pos 0) ∷ [];
  tolls_amount = whole (pos 0) ∷ whole (pos 6) ∷ whole (pos 0) ∷ [];
  improvement_surcharge = whole (pos 1) ∷ whole (pos 1) ∷ whole (pos 0) ∷ [];
  total_amount = whole (pos 15) ∷ whole (pos 48) ∷ whole (pos 0) ∷ [];
  valid = 1 ∷ 1 ∷ 0 ∷ [];
  column_ranges = [];
}

abbrev pub between : Text → ℕ → ℕ → Query Whole
between column low high = record {
  request_id = codes "r1";
  predicates =
      record { column = column; low = whole (pos low); high = whole (pos high); inclusive = true }
      ∷ [];
}

abbrev pub short_trips : Query Whole
short_trips = between (codes "trip_distance") 1 5

abbrev pub threads : List (List ℕ)
threads = (2 ∷ []) ∷ (0 ∷ 1 ∷ []) ∷ []

abbrev pub slices : List ℕ
slices = 2 ∷ 1 ∷ []

pub threads-Covers : Covers threads 3
threads-Covers zero h = inr (inl (inl refl))
threads-Covers (suc zero) h = inr (inl (inr (inl refl)))
threads-Covers (suc (suc zero)) h = inl (inl refl)
threads-Covers (suc (suc (suc i))) h = absurd (omega arith)

scan_runs : range_search slices trips short_trips ≡ 0 ∷ []
unfolding range_search resolve_preds resolve_col columns find text_eq codes scan_slices scan_slice
    row_match is_valid hit read_val
scan_runs = refl

range_search-matches_example :
    range_search slices trips short_trips ≡ keep (λ i. matches trips i short_trips) (count_up 0 3)
range_search-matches_example = range_search-matches slices trips short_trips refl

minmax_col-Holds_test :
    Holds
      (minmax_col threads trips (ints trips.pu_location_id))
      (read_val (ints trips.pu_location_id) 1)
unfolding is_valid
minmax_col-Holds_test =
    minmax_col-Holds trips (ints trips.pu_location_id) threads 1 refl
      (threads-Covers 1 (omega arith))

-- Every distance is 2 or 9.
abbrev far_trips : Query Whole
far_trips = between (codes "trip_distance") 20 30

far_trips-skipped : predicate_can_match (compute_column_ranges threads trips) far_trips ≡ false
unfolding predicate_can_match compute_column_ranges columns ranges_from minmax_col minmax_threads
    minmax_rows combine widen is_proper windows_meet is_valid read_val put find text_eq codes
far_trips-skipped = refl

predicate_can_match_sound_test : matches (compute_column_ranges threads trips) 1 far_trips ≡ false
predicate_can_match_sound_test =
    predicate_can_match_sound threads trips far_trips 1 refl threads-Covers far_trips-skipped

skipped_scan-empty_example :
    range_search slices (compute_column_ranges threads trips) far_trips ≡ []
skipped_scan-empty_example =
    skipped_scan-empty slices threads trips far_trips refl threads-Covers refl far_trips-skipped
