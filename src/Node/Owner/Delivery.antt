-- ===== src/Node/Owner/Delivery.antt =====
-- However the producer and the pulls of a request interleave, its rows go out in order and once, the
-- buffer stays within its bound, and the end is announced only behind the last row.
use mathlib.Core.List.{map-append, Sublist}
use mini.Base.{
  drop, take-append-drop, ℕ, ◌≤◌, ◌≡◌, refl, sym, ap, ◌∙◌, Bool, true, false, if_cases, ℤ, Text,
  is_empty, List, [], ◌++◌, map, length, take, Floats, keep,
}
use mini.Store.{PartitionStore, Query, TaxiRow, empty, fill, matches}
use mini.Store.Search.{predicate_can_match, compute_column_ranges}
use mini.Store.Scan.{sum, count_up, range_search-matches}
use mini.Store.Ranges.{Covers, compute-valid, skipped_scan-empty}
use mini.Node.Owner.{Owner, Event, new_request, run, start, max_buffered}
use mini.Node.Owner.Feed.{Moves, still, fresh, taken-Sublist}
use mini.Node.Owner.Refines.{feed_of, run-Moves}
use mini.Node.Owner.Steps.{Inv, Inv-complete, is_empty-nil, run-Inv, start-Inv, ends}

module _ {F : Type 0} ⦃fl : Floats F⦄ (threads : List (List ℕ)) (slices : List ℕ)
    (raw : PartitionStore F) (rid : Text) (q : Query F) (weight : ℤ) where
  -- A partition as startup leaves it, with its range table.
  abbrev pub loaded : PartitionStore F
  loaded = compute_column_ranges threads raw

  -- The matching rows, by the row-by-row test.
  abbrev pub wanted : List ℕ
  wanted = keep (λ i. matches loaded i q) (count_up 0 (length loaded.valid))

  abbrev pub registered : Owner F
  registered = start (new_request slices loaded rid q weight)

  new_request-wanted :
      raw.column_ranges ≡ []
      → Covers threads (length raw.valid)
      → sum slices ≡ length raw.valid
      → (new_request slices loaded rid q weight).matched_indices ≡ wanted
  unfolding new_request empty
  new_request-wanted new cover total =
      let same = compute-valid threads raw in
      let scan = range_search-matches slices loaded q (total ∙ ap length (sym same)) in
      if_cases (λ (r : List ℕ). r ≡ wanted) (is_empty loaded.valid)
        (λ no_rows. rw (is_empty-nil loaded.valid no_rows))
        λ _.
          if_cases (λ (r : List ℕ). r ≡ wanted) (predicate_can_match loaded q) (λ _. scan)
            λ skipped. sym (skipped_scan-empty slices threads raw q new cover total skipped) ∙ scan

  matched-new : (new_request slices loaded rid q weight).matched ≡ []
  unfolding new_request
  matched-new = refl

  cursor-new : (new_request slices loaded rid q weight).matched_cursor ≡ 0
  unfolding new_request
  cursor-new = refl

  new_request-done :
      (new_request slices loaded rid q weight).done_producing ≡ true
      → is_empty (new_request slices loaded rid q weight).matched_indices ≡ true
  unfolding new_request
  new_request-done =
      if_cases
        (λ (b : Bool).
          b ≡ true → is_empty (new_request slices loaded rid q weight).matched_indices ≡ true)
        (empty loaded) (λ _ e. cc) (λ _ e. e)

  pub registered-Inv :
      raw.column_ranges ≡ []
      → Covers threads (length raw.valid)
      → sum slices ≡ length raw.valid
      → Inv loaded wanted registered
  registered-Inv new cover total =
      let same = new_request-wanted new cover total in
      start-Inv loaded wanted _ same matched-new cursor-new
        (λ e. sym same ∙ is_empty-nil _ (new_request-done e))

  pub empty-wanted : empty loaded ≡ true → wanted ≡ []
  unfolding empty
  empty-wanted e = rw (is_empty-nil loaded.valid e)

  registered-run-Inv :
      (es : List Event)
      → raw.column_ranges ≡ []
      → Covers threads (length raw.valid)
      → sum slices ≡ length raw.valid
      → Inv loaded wanted (run loaded registered es)
  registered-run-Inv es new cover total =
      run-Inv loaded wanted es registered empty-wanted (registered-Inv new cover total)

  -- The buffer of a request never holds more than `max_buffered` rows, in any interleaving of the
  -- producer, pulls and cancellation.
  pub buffer-le :
      (es : List Event)
      → raw.column_ranges ≡ []
      → Covers threads (length raw.valid)
      → sum slices ≡ length raw.valid
      → length (run loaded registered es).req.matched ≤ max_buffered
  buffer-le es new cover total = (registered-run-Inv es new cover total).bounded

  -- In every interleaving, as long as the request is not cancelled, the rows that pulls took followed
  -- by those that wait are the first matching rows of the partition, in its order and each once.
  pub delivery_in_order :
      (es : List Event)
      → raw.column_ranges ≡ []
      → Covers threads (length raw.valid)
      → sum slices ≡ length raw.valid
      → (run loaded registered es).req.cancelled ≡ false
      → (n : ℕ) × ((run loaded registered es).taken ++ (run loaded registered es).req.matched
          ≡ map (fill loaded) (take n wanted))
  delivery_in_order es new cover total c = (_, (registered-run-Inv es new cover total).kept c)

  -- Once a pull has answered with `is_last`, in any interleaving without a cancellation, pulls have
  -- taken exactly the rows of the partition that match the query, all of them, in order and once.
  pub is_last_complete :
      (es : List Event)
      → raw.column_ranges ≡ []
      → Covers threads (length raw.valid)
      → sum slices ≡ length raw.valid
      → (run loaded registered es).req.cancelled ≡ false
      → ends (run loaded registered es).sent ≡ true
      → (run loaded registered es).taken ≡ map (fill loaded) wanted
  is_last_complete es new cover total c e =
      Inv-complete loaded wanted _ (registered-run-Inv es new cover total) c e

  registered-feed :
      raw.column_ranges ≡ []
      → Covers threads (length raw.valid)
      → sum slices ≡ length raw.valid
      → fresh (map (fill loaded) wanted) ≡ feed_of loaded registered
  unfolding new_request start
  registered-feed new cover total =
      ap (λ l. fresh (map (fill loaded) l)) (sym (new_request-wanted new cover total))

  -- The owner's side of a request implements the feed of the partition's matching rows: whatever the
  -- interleaving of producer, pulls and cancellations, the feed that it stands for is reached by grabs
  -- from the front, by withdrawals, which leave at most the one row that the producer has on its way, and
  -- by announcements of the end when nothing is left.
  pub run_refines_feed :
      (es : List Event)
      → raw.column_ranges ≡ []
      → Covers threads (length raw.valid)
      → sum slices ≡ length raw.valid
      → Moves (fresh (map (fill loaded) wanted)) (feed_of loaded (run loaded registered es))
  run_refines_feed es new cover total =
      run-Moves loaded wanted es registered (fresh (map (fill loaded) wanted)) empty-wanted
        (registered-Inv new cover total) (rw (← registered-feed new cover total) still)

  -- In every interleaving, cancellations included, the rows that pulls took are matching rows of the
  -- partition, in its order and each once; some may be missing.
  pub taken_in_order :
      (es : List Event)
      → raw.column_ranges ≡ []
      → Covers threads (length raw.valid)
      → sum slices ≡ length raw.valid
      → Sublist (run loaded registered es).taken (map (fill loaded) wanted)
  taken_in_order es new cover total = taken-Sublist (run_refines_feed es new cover total)

  -- In every interleaving in which the request is not cancelled, the rows taken and those that wait come
  -- first among the matching rows.
  pub taken_first :
      (es : List Event)
      → raw.column_ranges ≡ []
      → Covers threads (length raw.valid)
      → sum slices ≡ length raw.valid
      → (run loaded registered es).req.cancelled ≡ false
      → (rest : List (TaxiRow F)) × (((run loaded registered es).taken
              ++ (run loaded registered es).req.matched)
            ++ rest
          ≡ map (fill loaded) wanted)
  taken_first es new cover total c =
      let (n, same) = delivery_in_order es new cover total c in
      (
        map (fill loaded) (drop n wanted),
        ap (λ l. l ++ map (fill loaded) (drop n wanted)) same
            ∙ sym (map-append (fill loaded) (take n wanted) (drop n wanted))
            ∙ ap (map (fill loaded)) (take-append-drop n wanted),
      )
