-- ===== src/Examples/Months.antt =====
-- Routing by months, within a year (cpp/common/routing.cpp).
use mini.Base.{
  ◌≤◌, ◌≡◌, refl, arith, inl, inr, true, ℕ, ℤ, pos, pos_part, ltb, codes, List, [], ◌∷◌, In, some,
  Whole, whole, whole_floats, text_eq, find, if◌then◌else◌, ◌≤ℤ◌,
}
use mathlib.Core.Option.{some-injective}
use mini.Store.{
  Query, RangePredicate, matches, matches_all, resolve_col, columns, hit, is_valid, read_val,
}
use mini.Routing.{OwnerMetadata, eligible_owners, find_pred, month_of_epoch}
use mini.Routing.Months.{by_month_sound}
use mini.Examples.Partition.{trips, between}

-- The last three months of 2023.
abbrev tm_mon : ℤ → ℕ
tm_mon t =
    let s = pos_part t in if ltb s 1_698_796_800 then 9 else if ltb s 1_701_388_800 then 10 else 11

abbrev by_months : OwnerMetadata Whole
by_months = record {
  scheme = codes "pickup_datetime";
  dist_range = [];
  zones = [];
  months = (codes "B", pos 10 ∷ pos 11 ∷ []) ∷ [];
  hash_bucket_multiplier = pos 100;
  vnodes_per_owner = 0;
  total_vnodes = 0;
  hash_column = [];
  owners_order = [];
}

-- Until December 8.
abbrev autumn : Query Whole
autumn = between (codes "pickup_datetime") 1_698_000_000 1_702_000_000

B_months :
    (months : List ℤ)
    → find (codes "B") by_months.months ≡ some months
    → In (month_of_epoch tm_mon (pos 1_700_000_000)) months
unfolding find text_eq codes month_of_epoch
B_months months e =
    let same : pos 10 ∷ pos 11 ∷ [] ≡ months = some-injective _ _ e in rw (← same) (inr (inl refl))

autumn_fits :
    (p : RangePredicate Whole)
    → find_pred (codes "pickup_datetime") autumn.predicates ≡ some p
    → (whole_floats.fits p.low ≡ true) × (whole_floats.fits p.high ≡ true)
unfolding find_pred text_eq codes
autumn_fits p e =
    let same : record {
      column = codes "pickup_datetime";
      low = whole (pos 1_698_000_000);
      high = whole (pos 1_702_000_000);
      inclusive = true;
    }
        ≡ p =
      some-injective _ _ e in
    rw (← same) (refl, refl)

tm_mon-le : (a b : ℤ) → a ≤ℤ b → tm_mon a ≤ tm_mon b
tm_mon-le a b h = ground arith

autumn-matches : matches trips 0 autumn ≡ true
unfolding matches matches_all resolve_col columns find text_eq codes is_valid hit read_val
autumn-matches = refl

by_month_sound_example :
    In (codes "B") (eligible_owners tm_mon (codes "A" ∷ codes "B" ∷ []) autumn by_months)
by_month_sound_example =
    by_month_sound tm_mon (codes "A" ∷ codes "B" ∷ []) autumn by_months (codes "B") trips 0 refl
      (inr (inl refl)) B_months autumn_fits (λ p a b found low h high. tm_mon-le a b h) refl
      autumn-matches
