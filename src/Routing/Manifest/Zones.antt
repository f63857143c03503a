-- ===== src/Routing/Manifest/Zones.antt =====
-- From the manifest's text to the owners of a query on zones (cpp/common/routing.cpp).
use mini.Base.{
  ℕ, ◌≡◌, sym, ap, ◌∙◌, arith, true, if_cases, ℤ, pos, negsuc, leb_ℤ, Text, codes, find, text_eq,
  List, [], ◌∷◌, get_or, In, ◌⊎◌, Option, some, Floats, inl, inr, Bool-cases,
}
use mathlib.Core.Option.{some-injective}
use mini.Store.{PartitionStore, Query, RangePredicate, matches}
use mini.Routing.{OwnerMetadata, find_pred, eligible_owners}
use mini.Routing.Sound.{by_zone_sound}
use mini.Routing.Json.{
  Value, null, string, number, boolean, object, array, Fields, no_fields, field, parse_root,
}
use mini.Routing.Manifest.{
  find_field, insert_sorted, sort, text_or, ints, int_lists, int_lists_of, with_counts,
  read_metadata, load_owner_metadata,
}

In-insert_sorted : (a z : ℤ) (zs : List ℤ) → (z ≡ a) ⊎ In a zs → In a (insert_sorted z zs)
In-insert_sorted a z [] m = m
In-insert_sorted a z (y ∷ ys) m =
    if_cases (In a) (leb_ℤ z y) (λ _. m)
      λ _. elim m [
        | inl here ↦ inr (In-insert_sorted a z ys (inl here))
        | inr (inl next) ↦ inl next
        | inr (inr later) ↦ inr (In-insert_sorted a z ys (inr later))
      ]

In-sort : (a : ℤ) (zs : List ℤ) → In a zs → In a (sort zs)
In-sort a [] m = m
In-sort a (z ∷ zs) (inl here) = In-insert_sorted a z (sort zs) (inl here)
In-sort a (z ∷ zs) (inr m) = In-insert_sorted a z (sort zs) (inr (In-sort a zs m))

module _ {F : Type 0} ⦃fl : Floats F⦄ where
  -- The arrays that an object holds under the owner's name list the number.
  unfoldable pub Lists : Text → ℤ → Fields F → Type 0
  unfolding ints
  Lists o z no_fields = Unit
  Lists o z (field j (array xs) fs) = (text_eq j o ≡ true → In z (ints xs)) × Lists o z fs
  Lists o z (field j v fs) = Lists o z fs

  abbrev pub ZonesList : Text → ℤ → Option (Value F) → Type 0
  ZonesList o z (some (object fs)) = Lists o z fs
  ZonesList o z v = Unit

  In-int_lists :
      (o : Text) (z : ℤ) (fs : Fields F) (zs : List ℤ)
      → Lists o z fs
      → find o (int_lists fs) ≡ some zs
      → In z zs
  unfolding int_lists Lists find
  In-int_lists o z no_fields zs l e = cc
  In-int_lists o z (field j (array xs) fs) zs l e = elim (Bool-cases (text_eq j o)) [
    | inl same ↦
        let found : sort (ints xs) ≡ zs = ground arith in
        rw (sym found) (In-sort z (ints xs) (l.0 same))
    | inr other ↦ In-int_lists o z fs zs l.1 (ground arith)
  ]
  In-int_lists o z (field j null fs) zs l e = In-int_lists o z fs zs l e
  In-int_lists o z (field j (string t) fs) zs l e = In-int_lists o z fs zs l e
  In-int_lists o z (field j (number x) fs) zs l e = In-int_lists o z fs zs l e
  In-int_lists o z (field j (boolean b) fs) zs l e = In-int_lists o z fs zs l e
  In-int_lists o z (field j (object gs) fs) zs l e = In-int_lists o z fs zs l e

  In-int_lists_of :
      (o : Text) (z : ℤ) (v : Option (Value F)) (zs : List ℤ)
      → ZonesList o z v
      → find o (int_lists_of v) ≡ some zs
      → In z zs
  unfolding find
  In-int_lists_of o z (some (object fs)) zs l e = In-int_lists o z fs zs l e
  In-int_lists_of o z v zs l e = cc

  with_counts-parts :
      (per_owner total : ℤ) (fs : Fields F) (meta : OwnerMetadata F)
      → with_counts per_owner total fs ≡ some meta
      → (meta.scheme ≡ text_or [] (find_field (codes "scheme") fs))
        × (meta.zones ≡ int_lists_of (find_field (codes "owner_zones") fs))
  unfolding with_counts
  with_counts-parts (pos a) (pos b) fs meta e =
      let same = some-injective _ _ e in
      (
        sym (ap (λ (m : OwnerMetadata F). m.scheme) same),
        sym (ap (λ (m : OwnerMetadata F). m.zones) same),
      )
  with_counts-parts (pos a) (negsuc b) fs meta e = cc
  with_counts-parts (negsuc a) b fs meta e = cc

  -- From a manifest's text: under its scheme "pu_location_id", an owner with a row that matches the
  -- query is eligible, if the text is that of an object whose "owner_zones" lists the row's zone for the
  -- owner, where it has a list for the owner, and the ends of the predicate and the zone are in the range
  -- of `int`.
  pub load-by_zone_sound :
      (stod : Text → Option F) (manifest : Text) (fs : Fields F) (meta : OwnerMetadata F)
      (tm_mon : ℤ → ℕ) (owners : List Text) (q : Query F) (o : Text) (s : PartitionStore F) (i : ℕ)
      → parse_root stod manifest ≡ some (object fs)
      → load_owner_metadata stod (some manifest) ≡ some meta
      → find_field (codes "scheme") fs ≡ some (string (codes "pu_location_id"))
      → ZonesList o (get_or s.pu_location_id i (pos 0)) (find_field (codes "owner_zones") fs)
      → In o owners
      → ((p : RangePredicate F)
          → find_pred (codes "pu_location_id") q.predicates ≡ some p
          → (fl.fits p.low ≡ true) × (fl.fits p.high ≡ true))
      → fl.fits (fl.of_int (get_or s.pu_location_id i (pos 0))) ≡ true
      → matches s i q ≡ true
      → In o (eligible_owners tm_mon owners q meta)
  unfolding load_owner_metadata read_metadata
  load-by_zone_sound stod manifest fs meta tm_mon owners q o s i parsed loaded scheme listed m
        window fits h =
      let parts = with_counts-parts _ _ fs meta (rw (load_owner_metadata, parsed) at loaded) in
      by_zone_sound tm_mon owners q meta o s i (parts.0 ∙ ap (text_or []) scheme) m
        (λ zs found. In-int_lists_of o _ _ zs listed (ap (find o) (sym parts.1) ∙ found)) window
        fits h
