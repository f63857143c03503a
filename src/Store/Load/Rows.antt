-- ===== src/Store/Load/Rows.antt =====
-- The rows of a loaded partition (cpp/common/csv_store.cpp: the two passes of `load_partition_csv`). The
-- columns are written together, row by row: a list of cells stands for them until the store is made. The
-- threads write to disjoint rows, so they run one after the other here.
use mini.Base.{
  ℕ, suc, ◌+◌, Bool, false, ◌&&◌, ltb, if◌then◌else◌, ℤ, pos, Text, is_empty, List, [], ◌∷◌, map,
  get_or, set, drop, replicate, Option, none, some, Floats,
}
use mini.Store.{PartitionStore, TaxiRow}
use mini.Store.Load.{
  FromChars, fields, parse_number, is_yes, strip_return, lines_from, count_newlines, find_newline,
  chunks,
}

-- One row of the columns, with its entry in `valid`.
pub record Cells (F : Type 0) : Type 0 where
  pub row : TaxiRow F
  pub valid : Bool

-- `offsets[nt]`.
unfoldable pub total_rows : List Text → ℕ
unfolding count_newlines
total_rows [] = 0
total_rows (chunk ∷ parts) = count_newlines chunk + total_rows parts

module _ {F : Type 0} ⦃fl : Floats F⦄ where
  -- What `resize` puts into a row.
  unfoldable pub zero_cells : Cells F
  zero_cells = record {
    row = record {
      vendor_id = pos 0;
      pickup_datetime = pos 0;
      dropoff_datetime = pos 0;
      passenger_count = pos 0;
      trip_distance = fl.of_int (pos 0);
      ratecode_id = pos 0;
      pu_location_id = pos 0;
      do_location_id = pos 0;
      store_and_fwd_flag = false;
      payment_type = pos 0;
      fare_amount = fl.of_int (pos 0);
      extra = fl.of_int (pos 0);
      mta_tax = fl.of_int (pos 0);
      tip_amount = fl.of_int (pos 0);
      tolls_amount = fl.of_int (pos 0);
      improvement_surcharge = fl.of_int (pos 0);
      total_amount = fl.of_int (pos 0);
    };
    valid = false;
  }

  unfoldable pub parse_i32 : FromChars F → ℤ → Text → ℤ × Bool
  unfolding parse_number
  parse_i32 from_chars old t = parse_number from_chars.read_i32 (pos 0) old t

  unfoldable pub parse_i64 : FromChars F → ℤ → Text → ℤ × Bool
  unfolding parse_number
  parse_i64 from_chars old t = parse_number from_chars.read_i64 (pos 0) old t

  unfoldable pub parse_f64 : FromChars F → F → Text → F × Bool
  unfolding parse_number
  parse_f64 from_chars old t = parse_number from_chars.read_f64 (fl.of_int (pos 0)) old t

  -- The body of the loop on one line that is not empty, over what the row held.
  unfoldable pub parse_line : FromChars F → Cells F → Text → Cells F
  unfolding strip_return fields parse_i32 parse_i64 parse_f64 is_yes
  parse_line from_chars old line =
      let f = fields 17 (strip_return line) in
      let (vendor_id, ok0) = parse_i32 from_chars old.row.vendor_id (get_or f 0 []) in
      let (pickup_datetime, ok1) = parse_i64 from_chars old.row.pickup_datetime (get_or f 1 []) in
      let (dropoff_datetime, ok2) = parse_i64 from_chars old.row.dropoff_datetime (get_or f 2 []) in
      let (passenger_count, ok3) = parse_i32 from_chars old.row.passenger_count (get_or f 3 []) in
      let (trip_distance, ok4) = parse_f64 from_chars old.row.trip_distance (get_or f 4 []) in
      let (ratecode_id, ok5) = parse_i32 from_chars old.row.ratecode_id (get_or f 5 []) in
      let (pu_location_id, ok7) = parse_i32 from_chars old.row.pu_location_id (get_or f 7 []) in
      let (do_location_id, ok8) = parse_i32 from_chars old.row.do_location_id (get_or f 8 []) in
      let (payment_type, ok9) = parse_i32 from_chars old.row.payment_type (get_or f 9 []) in
      let (fare_amount, ok10) = parse_f64 from_chars old.row.fare_amount (get_or f 10 []) in
      let (extra, ok11) = parse_f64 from_chars old.row.extra (get_or f 11 []) in
      let (mta_tax, ok12) = parse_f64 from_chars old.row.mta_tax (get_or f 12 []) in
      let (tip_amount, ok13) = parse_f64 from_chars old.row.tip_amount (get_or f 13 []) in
      let (tolls_amount, ok14) = parse_f64 from_chars old.row.tolls_amount (get_or f 14 []) in
      let (improvement_surcharge, ok15) =
        parse_f64 from_chars old.row.improvement_surcharge (get_or f 15 []) in
      let (total_amount, ok16) = parse_f64 from_chars old.row.total_amount (get_or f 16 []) in
      record {
        row = record {
          vendor_id = vendor_id;
          pickup_datetime = pickup_datetime;
          dropoff_datetime = dropoff_datetime;
          passenger_count = passenger_count;
          trip_distance = trip_distance;
          ratecode_id = ratecode_id;
          pu_location_id = pu_location_id;
          do_location_id = do_location_id;
          store_and_fwd_flag = is_yes (get_or f 6 []);
          payment_type = payment_type;
          fare_amount = fare_amount;
          extra = extra;
          mta_tax = mta_tax;
          tip_amount = tip_amount;
          tolls_amount = tolls_amount;
          improvement_surcharge = improvement_surcharge;
          total_amount = total_amount;
        };
        valid =
            ok0 && ok1 && ok2 && ok3 && ok4 && ok5 && ok7 && ok8 && ok9 && ok10 && ok11 && ok12
            && ok13 && ok14 && ok15 && ok16;
      }

  -- The columns of the rows.
  unfoldable pub store_of : List (Cells F) → PartitionStore F
  store_of cells = record {
    vendor_id = map (λ (c : Cells F). c.row.vendor_id) cells;
    pickup_datetime = map (λ (c : Cells F). c.row.pickup_datetime) cells;
    dropoff_datetime = map (λ (c : Cells F). c.row.dropoff_datetime) cells;
    passenger_count = map (λ (c : Cells F). c.row.passenger_count) cells;
    trip_distance = map (λ (c : Cells F). c.row.trip_distance) cells;
    ratecode_id = map (λ (c : Cells F). c.row.ratecode_id) cells;
    pu_location_id = map (λ (c : Cells F). c.row.pu_location_id) cells;
    do_location_id = map (λ (c : Cells F). c.row.do_location_id) cells;
    store_and_fwd_flag = map (λ (c : Cells F). (if c.row.store_and_fwd_flag then 1 else 0)) cells;
    payment_type = map (λ (c : Cells F). c.row.payment_type) cells;
    fare_amount = map (λ (c : Cells F). c.row.fare_amount) cells;
    extra = map (λ (c : Cells F). c.row.extra) cells;
    mta_tax = map (λ (c : Cells F). c.row.mta_tax) cells;
    tip_amount = map (λ (c : Cells F). c.row.tip_amount) cells;
    tolls_amount = map (λ (c : Cells F). c.row.tolls_amount) cells;
    improvement_surcharge = map (λ (c : Cells F). c.row.improvement_surcharge) cells;
    total_amount = map (λ (c : Cells F). c.row.total_amount) cells;
    valid = map (λ (c : Cells F). (if c.valid then 1 else 0)) cells;
    column_ranges = [];
  }

  -- Pass 2 of one thread: the loop over its lines, from row `index` up to `cap`.
  unfoldable pub fill_lines : FromChars F → List Text → ℕ → ℕ → List (Cells F) → List (Cells F)
  unfolding parse_line zero_cells
  fill_lines from_chars [] index cap rows = rows
  fill_lines from_chars (line ∷ lines) index cap rows =
      let skipped = fill_lines from_chars lines index cap rows in
      let written =
        fill_lines from_chars lines (suc index) cap
          (set rows index (parse_line from_chars (get_or rows index zero_cells) line)) in
      if ltb index cap then (if is_empty line then skipped else written) else rows

  -- The threads with their chunks; each has as many rows as its chunk has newlines, behind those of the
  -- threads before it.
  unfoldable pub fill_chunks : FromChars F → List Text → ℕ → List (Cells F) → List (Cells F)
  unfolding fill_lines lines_from count_newlines
  fill_chunks from_chars [] offset rows = rows
  fill_chunks from_chars (chunk ∷ parts) offset rows =
      fill_chunks from_chars parts (offset + count_newlines chunk)
        (fill_lines from_chars (lines_from [] chunk) offset (offset + count_newlines chunk) rows)

  -- The rows that `nt` threads make of the bytes behind the header.
  unfoldable pub load_rows : FromChars F → ℕ → Text → List (Cells F)
  unfolding chunks total_rows fill_chunks zero_cells
  load_rows from_chars nt body =
      let parts = chunks body nt 0 nt in
      fill_chunks from_chars parts 0 (replicate (total_rows parts) zero_cells)

  unfoldable pub load_partition_csv : FromChars F → ℕ → Text → Option (PartitionStore F)
  unfolding find_newline load_rows store_of
  load_partition_csv from_chars nt [] = some (store_of [])
  load_partition_csv from_chars nt (c ∷ file) = elim (find_newline (c ∷ file)) [
    | none ↦ none
    | some k ↦ some (store_of (load_rows from_chars nt (drop (k + 1) (c ∷ file))))
  ]
