-- ===== src/Store.antt =====
-- `PartitionStore` (cpp/common/csv_store.hpp, csv_store.cpp): the columns of one node's partition and
-- the range queries on them. A `double` is a type with the laws of `Floats`; a read of a column out of
-- bounds, which `IsSized` excludes, gives zero.
pub mod Search
pub mod Scan
pub mod Ranges
pub mod Load
use mini.Base.{
  ℕ, zero, suc, ◌+◌, ◌≤◌, Bool, true, false, not, ◌&&◌, ◌==◌, ltb, if◌then◌else◌, ℤ, pos, Text,
  Dict, codes, find, put, is_empty, List, [], ◌∷◌, ◌++◌, map, length, get_or, take, drop, Option,
  none, some, Floats, ◌≡◌, keep,
}

-- The messages of proto/mini2.proto that a query is made of.
pub record RangePredicate (F : Type 0) : Type 0 where
  pub column : Text
  pub low : F
  pub high : F
  pub inclusive : Bool

pub record Query (F : Type 0) : Type 0 where
  pub request_id : Text
  pub predicates : List (RangePredicate F)

pub record TaxiRow (F : Type 0) : Type 0 where
  pub vendor_id : ℤ
  pub pickup_datetime : ℤ
  pub dropoff_datetime : ℤ
  pub passenger_count : ℤ
  pub trip_distance : F
  pub ratecode_id : ℤ
  pub pu_location_id : ℤ
  pub do_location_id : ℤ
  pub store_and_fwd_flag : Bool
  pub payment_type : ℤ
  pub fare_amount : F
  pub extra : F
  pub mta_tax : F
  pub tip_amount : F
  pub tolls_amount : F
  pub improvement_surcharge : F
  pub total_amount : F

-- `uint8_t` is a number, the other integer types are integers.
pub record PartitionStore (F : Type 0) : Type 0 where
  pub vendor_id : List ℤ
  pub pickup_datetime : List ℤ
  pub dropoff_datetime : List ℤ
  pub passenger_count : List ℤ
  pub trip_distance : List F
  pub ratecode_id : List ℤ
  pub pu_location_id : List ℤ
  pub do_location_id : List ℤ
  pub store_and_fwd_flag : List ℕ
  pub payment_type : List ℤ
  pub fare_amount : List F
  pub extra : List F
  pub mta_tax : List F
  pub tip_amount : List F
  pub tolls_amount : List F
  pub improvement_surcharge : List F
  pub total_amount : List F
  pub valid : List ℕ
  pub column_ranges : Dict (F × F)

-- `ColRef`: a column with its `ColKind`.
pub data Column (F : Type 0) : Type 0 where
  ints : List ℤ → Column F
  floats : List F → Column F
  bytes : List ℕ → Column F

module _ {F : Type 0} where
  unfoldable pub size : PartitionStore F → ℕ
  size s = length s.valid

  unfoldable pub empty : PartitionStore F → Bool
  empty s = is_empty s.valid

  -- The columns by name: the chain of tests of `resolve_col`, in its order.
  unfoldable pub columns : PartitionStore F → Dict (Column F)
  columns s =
      (codes "vendor_id", ints s.vendor_id)
      ∷ (codes "pickup_datetime", ints s.pickup_datetime)
      ∷ (codes "dropoff_datetime", ints s.dropoff_datetime)
      ∷ (codes "passenger_count", ints s.passenger_count)
      ∷ (codes "trip_distance", floats s.trip_distance)
      ∷ (codes "ratecode_id", ints s.ratecode_id)
      ∷ (codes "pu_location_id", ints s.pu_location_id)
      ∷ (codes "do_location_id", ints s.do_location_id)
      ∷ (codes "store_and_fwd_flag", bytes s.store_and_fwd_flag)
      ∷ (codes "payment_type", ints s.payment_type)
      ∷ (codes "fare_amount", floats s.fare_amount)
      ∷ (codes "extra", floats s.extra)
      ∷ (codes "mta_tax", floats s.mta_tax)
      ∷ (codes "tip_amount", floats s.tip_amount)
      ∷ (codes "tolls_amount", floats s.tolls_amount)
      ∷ (codes "improvement_surcharge", floats s.improvement_surcharge)
      ∷ (codes "total_amount", floats s.total_amount)
      ∷ []

  unfoldable pub resolve_col : PartitionStore F → Text → Option (Column F)
  unfolding columns
  resolve_col s col = find col (columns s)

  unfoldable pub is_valid : PartitionStore F → ℕ → Bool
  is_valid s i = not (get_or s.valid i 0 == 0)

module _ {F : Type 0} ⦃fl : Floats F⦄ where
  unfoldable pub read_val : Column F → ℕ → F
  read_val (ints xs) i = fl.of_int (get_or xs i (pos 0))
  read_val (floats xs) i = get_or xs i (fl.of_int (pos 0))
  read_val (bytes xs) i = fl.of_int (pos (get_or xs i 0))

  unfoldable pub fill : PartitionStore F → ℕ → TaxiRow F
  fill s i = record {
    vendor_id = get_or s.vendor_id i (pos 0);
    pickup_datetime = get_or s.pickup_datetime i (pos 0);
    dropoff_datetime = get_or s.dropoff_datetime i (pos 0);
    passenger_count = get_or s.passenger_count i (pos 0);
    trip_distance = get_or s.trip_distance i (fl.of_int (pos 0));
    ratecode_id = get_or s.ratecode_id i (pos 0);
    pu_location_id = get_or s.pu_location_id i (pos 0);
    do_location_id = get_or s.do_location_id i (pos 0);
    store_and_fwd_flag = not (get_or s.store_and_fwd_flag i 0 == 0);
    payment_type = get_or s.payment_type i (pos 0);
    fare_amount = get_or s.fare_amount i (fl.of_int (pos 0));
    extra = get_or s.extra i (fl.of_int (pos 0));
    mta_tax = get_or s.mta_tax i (fl.of_int (pos 0));
    tip_amount = get_or s.tip_amount i (fl.of_int (pos 0));
    tolls_amount = get_or s.tolls_amount i (fl.of_int (pos 0));
    improvement_surcharge = get_or s.improvement_surcharge i (fl.of_int (pos 0));
    total_amount = get_or s.total_amount i (fl.of_int (pos 0));
  }

  -- `v >= low && v <= high`, or the strict tests.
  unfoldable pub hit : Bool → F → F → F → Bool
  hit true low high v = fl.le low v && fl.le v high
  hit false low high v = fl.lt low v && fl.lt v high

  -- The loop of `matches` over the predicates.
  unfoldable pub matches_all : PartitionStore F → ℕ → List (RangePredicate F) → Bool
  matches_all s i [] = true
  matches_all s i (p ∷ ps) = elim (resolve_col s p.column) [
    | none ↦ false
    | some col ↦
        let rest = matches_all s i ps in
        if hit p.inclusive p.low p.high (read_val col i) then rest else false
  ]

  unfoldable pub matches : PartitionStore F → ℕ → Query F → Bool
  matches s i q =
      if ltb i (length s.valid) && is_valid s i then matches_all s i q.predicates else false

  -- The columns of a row by name, as numbers: what a query is on.
  abbrev pub row_columns : TaxiRow F → Dict F
  row_columns r =
      (codes "vendor_id", fl.of_int r.vendor_id)
      ∷ (codes "pickup_datetime", fl.of_int r.pickup_datetime)
      ∷ (codes "dropoff_datetime", fl.of_int r.dropoff_datetime)
      ∷ (codes "passenger_count", fl.of_int r.passenger_count)
      ∷ (codes "trip_distance", r.trip_distance)
      ∷ (codes "ratecode_id", fl.of_int r.ratecode_id)
      ∷ (codes "pu_location_id", fl.of_int r.pu_location_id)
      ∷ (codes "do_location_id", fl.of_int r.do_location_id)
      ∷ (codes "store_and_fwd_flag", fl.of_int (pos (if r.store_and_fwd_flag then 1 else 0)))
      ∷ (codes "payment_type", fl.of_int r.payment_type)
      ∷ (codes "fare_amount", r.fare_amount)
      ∷ (codes "extra", r.extra)
      ∷ (codes "mta_tax", r.mta_tax)
      ∷ (codes "tip_amount", r.tip_amount)
      ∷ (codes "tolls_amount", r.tolls_amount)
      ∷ (codes "improvement_surcharge", r.improvement_surcharge)
      ∷ (codes "total_amount", r.total_amount)
      ∷ []

  abbrev pub satisfies_all : TaxiRow F → List (RangePredicate F) → Bool
  satisfies_all r [] = true
  satisfies_all r (p ∷ ps) =
      let rest = satisfies_all r ps in
      elim (find p.column (row_columns r)) [
        | none ↦ false
        | some v ↦ if hit p.inclusive p.low p.high v then rest else false
      ]

  -- A row satisfies a query: each predicate is on a column of it whose value is in the window.
  abbrev pub satisfies : Query F → TaxiRow F → Bool
  satisfies q r = satisfies_all r q.predicates
