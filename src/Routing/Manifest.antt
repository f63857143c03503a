-- ===== src/Routing/Manifest.antt =====
-- The manifest of cpp/common/routing.cpp: `load_owner_metadata`. The file is a text, or `none` where it
-- does not open. The hash ring is modelled for counts that are not negative: for a manifest with a
-- negative one there is no result. `std::sort` of integers is an insertion sort.
pub mod Zones
use mini.Base.{
  ℕ, Bool, if◌then◌else◌, ℤ, pos, negsuc, leb_ℤ, Text, Dict, codes, text_eq, List, [], ◌∷◌, Option,
  none, some, Floats,
}
use mini.Routing.{OwnerMetadata}
use mini.Routing.Json.{
  Value, string, number, object, array, Items, no_items, item, Fields, no_fields, field, parse_root,
}

-- `obj.count(key)` and `obj[key]`.
unfoldable pub find_field : {F : Type 0} → Text → Fields F → Option (Value F)
find_field k no_fields = none
find_field k (field j v fs) = if text_eq j k then some v else find_field k fs

abbrev pub insert_sorted : ℤ → List ℤ → List ℤ
insert_sorted z [] = z ∷ []
insert_sorted z (y ∷ ys) = if leb_ℤ z y then z ∷ y ∷ ys else y ∷ insert_sorted z ys

abbrev pub sort : List ℤ → List ℤ
sort [] = []
sort (z ∷ zs) = insert_sorted z (sort zs)

abbrev pub text_or : {F : Type 0} → Text → Option (Value F) → Text
text_or d (some (string t)) = t
text_or d o = d

abbrev pub names : {F : Type 0} → Items F → List Text
names no_items = []
names (item (string t) xs) = t ∷ names xs
names (item v xs) = names xs

abbrev pub names_of : {F : Type 0} → Option (Value F) → List Text
names_of (some (array xs)) = names xs
names_of o = []

module _ {F : Type 0} ⦃fl : Floats F⦄ where
  abbrev pub int_or : ℤ → Option (Value F) → ℤ
  int_or d (some (number x)) = fl.trunc x
  int_or d o = d

  -- An array of exactly two numbers.
  abbrev pub pair_of : Value F → Option (F × F)
  pair_of (array (item (number a) (item (number b) no_items))) = some (a, b)
  pair_of v = none

  unfoldable pub ranges : Fields F → Dict (F × F)
  ranges no_fields = []
  ranges (field owner v fs) = elim (pair_of v) [
    | none ↦ ranges fs
    | some r ↦ (owner, r) ∷ ranges fs
  ]

  abbrev pub ranges_of : Option (Value F) → Dict (F × F)
  ranges_of (some (object fs)) = ranges fs
  ranges_of o = []

  -- The numbers of an array. Its other items are passed over.
  unfoldable pub ints : Items F → List ℤ
  ints no_items = []
  ints (item (number x) xs) = fl.trunc x ∷ ints xs
  ints (item v xs) = ints xs

  unfoldable pub int_lists : Fields F → Dict (List ℤ)
  unfolding ints
  int_lists no_fields = []
  int_lists (field owner (array xs) fs) = (owner, sort (ints xs)) ∷ int_lists fs
  int_lists (field owner v fs) = int_lists fs

  abbrev pub int_lists_of : Option (Value F) → Dict (List ℤ)
  int_lists_of (some (object fs)) = int_lists fs
  int_lists_of o = []

  -- What stands without a manifest.
  abbrev pub no_metadata : OwnerMetadata F
  no_metadata = record {
    scheme = [];
    dist_range = [];
    zones = [];
    months = [];
    hash_bucket_multiplier = pos 100;
    vnodes_per_owner = 0;
    total_vnodes = 0;
    hash_column = [];
    owners_order = [];
  }

  unfoldable pub with_counts : ℤ → ℤ → Fields F → Option (OwnerMetadata F)
  unfolding find_field ranges int_lists
  with_counts (pos per_owner) (pos total) fs = some (record {
    scheme = text_or [] (find_field (codes "scheme") fs);
    dist_range = ranges_of (find_field (codes "owner_dist_range") fs);
    zones = int_lists_of (find_field (codes "owner_zones") fs);
    months = int_lists_of (find_field (codes "owner_months") fs);
    hash_bucket_multiplier = int_or (pos 100) (find_field (codes "hash_bucket_multiplier") fs);
    vnodes_per_owner = per_owner;
    total_vnodes = total;
    hash_column = text_or [] (find_field (codes "hash_column") fs);
    owners_order = names_of (find_field (codes "owners") fs);
  })
  with_counts per_owner total fs = none

  unfoldable pub read_metadata : Value F → Option (OwnerMetadata F)
  unfolding with_counts
  read_metadata (object fs) =
      with_counts (int_or (pos 0) (find_field (codes "vnodes_per_owner") fs))
        (int_or (pos 0) (find_field (codes "total_vnodes") fs)) fs
  read_metadata v = some no_metadata

  unfoldable pub load_owner_metadata : (Text → Option F) → Option Text → Option (OwnerMetadata F)
  unfolding read_metadata parse_root
  load_owner_metadata stod none = some no_metadata
  load_owner_metadata stod (some manifest) = elim (parse_root stod manifest) [
    | none ↦ none
    | some root ↦ read_metadata root
  ]
