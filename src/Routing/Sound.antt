-- ===== src/Routing/Sound.antt =====
-- Smart routing drops no owner whose shard, as the manifest describes it, holds a matching row.
use mini.Base.{
  ℕ, ◌≡◌, refl, sym, arith, Bool, true, false, ◌||◌, ◌==◌, if◌then◌else◌, ℤ, pos, leb_ℤ, ◌≤ℤ◌, Text,
  Dict, find, is_empty, List, [], ◌∷◌, get_or, keep, In, In-keep, In-of_keep, Option, none, some,
  Floats, Bool-cases, Option-cases, inl, inr, if_cases, text_eq, text_eq_iff, codes,
}
use mini.Store.{
  PartitionStore, Query, RangePredicate, Column, resolve_col, columns, read_val, hit, matches,
  matches_all,
}
use mini.Store.Ranges.{Holds, hit-meets, match_parts}
use mini.Routing.Hash.{has_text, hash_owners}
use mini.Routing.{
  OwnerMetadata, find_pred, any_within, listed_within, empty, distance_meets, by_distance, by_zone,
  by_month, by_hash, with_pred, eligible_owners,
}

any_within-In :
    (z low high : ℤ) (zs : List ℤ) → low ≤ℤ z → z ≤ℤ high → In z zs → any_within low high zs ≡ true
unfolding any_within
any_within-In z low high [] p q m = absurd m
any_within-In z low high (x ∷ zs) p q (inl here) =
    let inside : (leb_ℤ z z ≡ true) × (leb_ℤ low z ≡ true) × (leb_ℤ z high ≡ true) = ground arith in
    rw here (ground (arith, inside))
any_within-In z low high (x ∷ zs) p q (inr m) = ground (arith, any_within-In z low high zs p q m)

pub listed_within_of_hit :
    (m : Dict (List ℤ)) (o : Text) (low high z : ℤ)
    → ((zs : List ℤ) → find o m ≡ some zs → In z zs)
    → (low ≤ℤ z) × (z ≤ℤ high)
    → listed_within m low high o ≡ true
unfolding listed_within
listed_within_of_hit m o low high z listed h = elim (Option-cases (find o m)) [
  | inl free ↦ rw (free, listed_within)
  | inr (zs, found) ↦
      rw (found, listed_within) (any_within-In z low high zs h.0 h.1 (listed zs found))
]

module _ {F : Type 0} ⦃fl : Floats F⦄ where
  -- A row that matches satisfies the predicate that is found for a column.
  pub find_pred-hit :
      (s : PartitionStore F) (i : ℕ) (column : Text) (ps : List (RangePredicate F))
      (p : RangePredicate F) (col : Column F)
      → find_pred column ps ≡ some p
      → resolve_col s column ≡ some col
      → matches_all s i ps ≡ true
      → hit p.inclusive p.low p.high (read_val col i) ≡ true
  unfolding find_pred matches_all
  find_pred-hit s i column [] p col e r h = cc
  find_pred-hit s i column (x ∷ ps) p col e r h = elim (Bool-cases (text_eq x.column column)) [
    | inl same ↦
        let name : x.column ≡ column = (text_eq_iff x.column column).0 same in
        let named : resolve_col s x.column ≡ some col = rw name r in
        let found : x ≡ p = ground arith in
        let holds : hit x.inclusive x.low x.high (read_val col i) ≡ true = ground arith in
        rw (sym found) holds
    | inr other ↦ find_pred-hit s i column ps p col (ground arith) r (ground arith)
  ]

  -- The scheme's filter decides, unless there is no metadata or no predicate on its column.
  pub with_pred-In :
      (o : Text) (owners : List Text) (found : Option (RangePredicate F))
      (f : RangePredicate F → List Text)
      → In o owners
      → ((p : RangePredicate F) → found ≡ some p → In o (f p))
      → In o (with_pred owners found f)
  unfolding with_pred
  with_pred-In o owners none f m h = m
  with_pred-In o owners (some p) f m h = h p refl

  distance_meets_of_hit :
      (meta : OwnerMetadata F) (p : RangePredicate F) (o : Text) (v : F)
      → ((r : F × F) → find o meta.dist_range ≡ some r → Holds r v)
      → hit p.inclusive p.low p.high v ≡ true
      → distance_meets meta p.low p.high o ≡ true
  unfolding distance_meets
  distance_meets_of_hit meta p o v true_range h = elim (Option-cases (find o meta.dist_range)) [
    | inl free ↦ rw (free, distance_meets)
    | inr (r, found) ↦
        let (above, below) = hit-meets p.inclusive p.low p.high v r (true_range r found) h in
        rw (found, distance_meets) (rw (above, below))
  ]

  -- Under the scheme "trip_distance", an owner with a row that matches the query is eligible, if the
  -- manifest's range for the owner, where it has one, holds the row's trip distance.
  pub by_distance_sound :
      (tm_mon : ℤ → ℕ) (owners : List Text) (q : Query F) (meta : OwnerMetadata F) (o : Text)
      (s : PartitionStore F) (i : ℕ)
      → meta.scheme ≡ codes "trip_distance"
      → In o owners
      → ((r : F × F)
          → find o meta.dist_range ≡ some r
          → Holds r (get_or s.trip_distance i (fl.of_int (pos 0))))
      → matches s i q ≡ true
      → In o (eligible_owners tm_mon owners q meta)
  unfolding eligible_owners text_eq codes by_distance resolve_col columns read_val find
  by_distance_sound tm_mon owners q meta o s i e m true_range h =
      let hits = (match_parts s i q h).2 in
      if_cases (In o) (empty meta || is_empty q.predicates) (λ _. m)
        λ _. rw e (
          with_pred-In o owners (find_pred (codes "trip_distance") q.predicates) _ m λ p found.
            In-keep _ o owners
              (distance_meets_of_hit meta p o _ true_range
                (find_pred-hit s i (codes "trip_distance") q.predicates p _ found refl hits))
              m)

  -- Truncated to `int`, the window of a predicate still holds the whole numbers that satisfy it.
  pub hit-trunc :
      (inclusive : Bool) (low high : F) (z : ℤ)
      → fl.fits low ≡ true
      → fl.fits high ≡ true
      → fl.fits (fl.of_int z) ≡ true
      → hit inclusive low high (fl.of_int z) ≡ true
      → (fl.trunc low ≤ℤ z) × (z ≤ℤ fl.trunc high)
  unfolding hit
  hit-trunc inclusive low high z p q r h =
      let (above, below) : (fl.le low (fl.of_int z) ≡ true) × (fl.le (fl.of_int z) high ≡ true) =
        ends inclusive h in
      let whole = fl.trunc-of_int z r in
      (
        rw whole at (fl.trunc_le low (fl.of_int z) p r above),
        rw whole at (fl.trunc_le (fl.of_int z) high r q below),
      )
    where
      ends :
          (b : Bool)
          → hit b low high (fl.of_int z) ≡ true
          → (fl.le low (fl.of_int z) ≡ true) × (fl.le (fl.of_int z) high ≡ true)
      ends true h = ground arith
      ends false h = ground (arith, fl.lt→le low (fl.of_int z), fl.lt→le (fl.of_int z) high)

  -- Under the scheme "pu_location_id", an owner with a row that matches the query is eligible, if the
  -- manifest lists the row's zone among the owner's, where it has a list for the owner, and the ends of
  -- the predicate and the zone are in the range of `int`.
  pub by_zone_sound :
      (tm_mon : ℤ → ℕ) (owners : List Text) (q : Query F) (meta : OwnerMetadata F) (o : Text)
      (s : PartitionStore F) (i : ℕ)
      → meta.scheme ≡ codes "pu_location_id"
      → In o owners
      → ((zs : List ℤ) → find o meta.zones ≡ some zs → In (get_or s.pu_location_id i (pos 0)) zs)
      → ((p : RangePredicate F)
          → find_pred (codes "pu_location_id") q.predicates ≡ some p
          → (fl.fits p.low ≡ true) × (fl.fits p.high ≡ true))
      → fl.fits (fl.of_int (get_or s.pu_location_id i (pos 0))) ≡ true
      → matches s i q ≡ true
      → In o (eligible_owners tm_mon owners q meta)
  unfolding eligible_owners text_eq codes by_zone resolve_col columns read_val find
  by_zone_sound tm_mon owners q meta o s i e m listed window fits h =
      let hits = (match_parts s i q h).2 in
      if_cases (In o) (empty meta || is_empty q.predicates) (λ _. m)
        λ _. rw e (
          with_pred-In o owners (find_pred (codes "pu_location_id") q.predicates) _ m λ p found.
            let one = find_pred-hit s i (codes "pu_location_id") q.predicates p _ found refl hits in
            let (low, high) = window p found in
            In-keep _ o owners
              (listed_within_of_hit meta.zones o _ _ _ listed
                (hit-trunc p.inclusive p.low p.high _ low high fits one))
              m)

  with_pred-sub :
      (o : Text) (owners : List Text) (found : Option (RangePredicate F))
      (f : RangePredicate F → List Text)
      → ((p : RangePredicate F) → In o (f p) → In o owners)
      → In o (with_pred owners found f)
      → In o owners
  unfolding with_pred
  with_pred-sub o owners none f h m = m
  with_pred-sub o owners (some p) f h m = h p m

  by_hash-sub :
      (o : Text) (owners : List Text) (meta : OwnerMetadata F) (p : RangePredicate F)
      → In o (by_hash owners meta p)
      → In o owners
  unfolding by_hash
  by_hash-sub o owners meta p =
      chosen (hash_owners meta.vnodes_per_owner meta.total_vnodes meta.owners_order _ _)
    where
      chosen :
          (hits : Option (List Text))
          → In o (elim hits [
            | none ↦ owners
            | some names ↦
                if is_empty (keep (λ x. has_text x names) owners)
                then owners
                else keep (λ x. has_text x names) owners
          ])
          → In o owners
      chosen none m = m
      chosen (some names) m =
          if_cases (λ (ys : List Text). In o ys → In o owners)
            (is_empty (keep (λ x. has_text x names) owners)) (λ _ all. all)
            (λ _. In-of_keep _ o owners) m

  -- Routing never names a node that is no data owner, under any scheme and manifest.
  pub eligible_owners-sub :
      (tm_mon : ℤ → ℕ) (owners : List Text) (q : Query F) (meta : OwnerMetadata F) (o : Text)
      → In o (eligible_owners tm_mon owners q meta)
      → In o owners
  unfolding eligible_owners by_distance by_zone by_month
  eligible_owners-sub tm_mon owners q meta o =
      let sub = λ (x : List Text). In o x → In o owners in
      if_cases sub (empty meta || is_empty q.predicates) (λ _ m. m)
        λ _.
          if_cases sub (text_eq meta.scheme (codes "trip_distance"))
            (λ _. with_pred-sub o owners _ _ λ p. In-of_keep _ o owners)
            λ _.
              if_cases sub (text_eq meta.scheme (codes "pu_location_id"))
                (λ _. with_pred-sub o owners _ _ λ p. In-of_keep _ o owners)
                λ _.
                  if_cases sub (text_eq meta.scheme (codes "consistent_hash"))
                    (λ _.
                      if_cases sub
                        (meta.vnodes_per_owner == 0
                          || meta.total_vnodes == 0
                          || is_empty meta.owners_order)
                        (λ _ m. m) λ _. with_pred-sub o owners _ _ (by_hash-sub o owners meta))
                    λ _.
                      if_cases sub (text_eq meta.scheme (codes "pickup_datetime"))
                        (λ _. with_pred-sub o owners _ _ λ p. In-of_keep _ o owners) λ _ m. m
