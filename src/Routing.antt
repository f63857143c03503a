-- ===== src/Routing.antt =====
-- Smart routing (cpp/common/routing.hpp, routing.cpp): which owners' shards can hold rows that match
-- a query. The counts of the hash ring are natural numbers: a manifest with a negative count is not
-- modelled. `gmtime_r` of the C library is the argument `tm_mon`, the month of an epoch from 0 on.
pub mod Hash
pub mod Sound
pub mod Months
pub mod Json
pub mod Manifest
use mini.Base.{
  ℕ, zero, suc, ◌+◌, ◌-◌, ◌*◌, ◌/◌, ◌%◌, ◌^◌, Bool, true, false, not, ◌&&◌, ◌||◌, ◌==◌, leb,
  if◌then◌else◌, ℤ, pos, ltb_ℤ, leb_ℤ, min_ℤ, max_ℤ, Text, Dict, codes, find, text_eq, is_empty,
  List, [], ◌∷◌, length, keep, Option, none, some, Floats,
}
use mini.Store.{Query, RangePredicate}
use Hash.{has_text, hash_owners}

pub record OwnerMetadata (F : Type 0) : Type 0 where
  pub scheme : Text
  pub dist_range : Dict (F × F)
  pub zones : Dict (List ℤ)
  pub months : Dict (List ℤ)
  pub hash_bucket_multiplier : ℤ
  pub vnodes_per_owner : ℕ
  pub total_vnodes : ℕ
  pub hash_column : Text
  pub owners_order : List Text

-- `find_pred`: the first predicate on a column.
unfoldable pub find_pred : {F : Type 0} → Text → List (RangePredicate F) → Option (RangePredicate F)
find_pred column [] = none
find_pred column (p ∷ ps) = if text_eq p.column column then some p else find_pred column ps

-- Whether a listed number lies in the range.
unfoldable pub any_within : ℤ → ℤ → List ℤ → Bool
any_within low high [] = false
any_within low high (z ∷ zs) =
    let rest = any_within low high zs in if leb_ℤ low z && leb_ℤ z high then true else rest

-- An owner with no entry stays eligible.
unfoldable pub listed_within : Dict (List ℤ) → ℤ → ℤ → Text → Bool
listed_within m low high owner = elim (find owner m) [
  | none ↦ true
  | some zs ↦ any_within low high zs
]

unfoldable pub month_of_epoch : (ℤ → ℕ) → ℤ → ℤ
month_of_epoch tm_mon t = pos (tm_mon t + 1)

module _ {F : Type 0} ⦃fl : Floats F⦄ where
  unfoldable pub empty : OwnerMetadata F → Bool
  empty meta =
      is_empty meta.scheme
      || (is_empty meta.dist_range
          && is_empty meta.zones
          && is_empty meta.months
          && meta.vnodes_per_owner == 0)

  unfoldable pub distance_meets : OwnerMetadata F → F → F → Text → Bool
  distance_meets meta low high owner = elim (find owner meta.dist_range) [
    | none ↦ true
    | some r ↦ not (fl.lt r.1 low || fl.lt high r.0)
  ]

  unfoldable pub by_distance : List Text → OwnerMetadata F → RangePredicate F → List Text
  unfolding distance_meets
  by_distance owners meta p = keep (distance_meets meta p.low p.high) owners

  unfoldable pub by_zone : List Text → OwnerMetadata F → RangePredicate F → List Text
  unfolding listed_within
  by_zone owners meta p = keep (listed_within meta.zones (fl.trunc p.low) (fl.trunc p.high)) owners

  -- The months of the two ends, swapped into ascending order.
  unfoldable pub by_month : (ℤ → ℕ) → List Text → OwnerMetadata F → RangePredicate F → List Text
  unfolding listed_within month_of_epoch
  by_month tm_mon owners meta p =
      let m_lo = month_of_epoch tm_mon (fl.trunc p.low) in
      let m_hi = month_of_epoch tm_mon (fl.trunc p.high) in
      keep (listed_within meta.months (min_ℤ m_lo m_hi) (max_ℤ m_lo m_hi)) owners

  -- The owners of the buckets in the predicate's range, or all of them if those are too many or none.
  unfoldable pub by_hash : List Text → OwnerMetadata F → RangePredicate F → List Text
  by_hash owners meta p =
      let hit =
        hash_owners meta.vnodes_per_owner meta.total_vnodes meta.owners_order
          (fl.trunc (fl.mul p.low (fl.of_int meta.hash_bucket_multiplier)))
          (fl.trunc (fl.mul p.high (fl.of_int meta.hash_bucket_multiplier))) in
      elim hit [
        | none ↦ owners
        | some names ↦
            let out = keep (λ o. has_text o names) owners in if is_empty out then owners else out
      ]

  -- A scheme's filter, where a predicate is on its column.
  unfoldable pub with_pred :
      List Text → Option (RangePredicate F) → (RangePredicate F → List Text) → List Text
  with_pred owners none f = owners
  with_pred owners (some p) f = f p

  unfoldable pub eligible_owners : (ℤ → ℕ) → List Text → Query F → OwnerMetadata F → List Text
  unfolding empty with_pred by_distance by_zone by_month by_hash find_pred
  eligible_owners tm_mon owners q meta =
      if empty meta || is_empty q.predicates
      then owners
      else if text_eq meta.scheme (codes "trip_distance")
      then with_pred owners (find_pred (codes "trip_distance") q.predicates)
          (by_distance owners meta)
      else if text_eq meta.scheme (codes "pu_location_id")
      then with_pred owners (find_pred (codes "pu_location_id") q.predicates) (by_zone owners meta)
      else if text_eq meta.scheme (codes "consistent_hash")
      then (if meta.vnodes_per_owner == 0 || meta.total_vnodes == 0 || is_empty meta.owners_order
          then owners
          else with_pred owners (find_pred meta.hash_column q.predicates) (by_hash owners meta))
      else if text_eq meta.scheme (codes "pickup_datetime")
      then with_pred owners (find_pred (codes "pickup_datetime") q.predicates)
          (by_month tm_mon owners meta)
      else owners
