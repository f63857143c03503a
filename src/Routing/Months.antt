-- ===== src/Routing/Months.antt =====
-- The scheme "pickup_datetime" compares months only: sound within a year, and wrong across its end.
use mini.Base.{
  ℕ, ◌<◌, ◌≤◌, ◌≤ℤ◌, ◌||◌, pos, get_or, In-keep, if_cases, ◌≡◌, refl, arith, true, false, ℤ, ltb_ℤ,
  min_ℤ, max_ℤ, Text, Dict, find, is_empty, List, [], ◌∷◌, In, All, some, Floats, ◌⊎◌, text_eq,
  codes, not-In-keep,
}
use mini.Store.{PartitionStore, Query, RangePredicate, resolve_col, columns, read_val, matches}
use mini.Store.Ranges.{match_parts}
use mini.Routing.Sound.{listed_within_of_hit, find_pred-hit, with_pred-In, hit-trunc}
use mini.Routing.{
  OwnerMetadata, find_pred, any_within, listed_within, empty, by_month, with_pred, eligible_owners,
  month_of_epoch,
}

-- `z` lies outside the range.
abbrev pub Outside : ℤ → ℤ → ℤ → Type 0
Outside low high z = (ltb_ℤ z low ≡ true) ⊎ (ltb_ℤ high z ≡ true)

any_within-Outside :
    (low high : ℤ) (zs : List ℤ) → All (Outside low high) zs → any_within low high zs ≡ false
unfolding any_within
any_within-Outside low high [] h = refl
any_within-Outside low high (z ∷ zs) h = ground (arith, any_within-Outside low high zs h.1)

find-not-empty :
    {V : Type 0} (k : Text) (v : V) (m : Dict V) → find k m ≡ some v → is_empty m ≡ false
unfolding find
find-not-empty k v [] e = cc
find-not-empty k v (x ∷ m) e = refl

find_pred-not-empty :
    {F : Type 0} (c : Text) (p : RangePredicate F) (ps : List (RangePredicate F))
    → find_pred c ps ≡ some p
    → is_empty ps ≡ false
unfolding find_pred
find_pred-not-empty c p [] e = cc
find_pred-not-empty c p (x ∷ ps) e = refl

listed_within-Outside :
    (m : Dict (List ℤ)) (o : Text) (zs : List ℤ) (low high : ℤ)
    → find o m ≡ some zs
    → All (Outside low high) zs
    → listed_within m low high o ≡ false
unfolding listed_within
listed_within-Outside m o zs low high found outside =
    rw (found, listed_within) (any_within-Outside low high zs outside)

module _ {F : Type 0} ⦃fl : Floats F⦄ where
  -- The filter of the months is the one that decides.
  months_decide :
      (tm_mon : ℤ → ℕ) (owners : List Text) (q : Query F) (meta : OwnerMetadata F)
      (p : RangePredicate F) (o : Text) (months : List ℤ)
      → meta.scheme ≡ codes "pickup_datetime"
      → find_pred (codes "pickup_datetime") q.predicates ≡ some p
      → find o meta.months ≡ some months
      → eligible_owners tm_mon owners q meta ≡ by_month tm_mon owners meta p
  unfolding eligible_owners empty text_eq codes with_pred
  months_decide tm_mon owners q meta p o months e found listed =
      let named : is_empty meta.scheme ≡ false = rw e refl in
      rw
        (
          named,
          find-not-empty o months meta.months listed,
          find_pred-not-empty (codes "pickup_datetime") p q.predicates found,
        )
        (rw (e, found) (ground arith))

-- A query on the pickup time whose end falls in an earlier month of the year, `m_hi`, than its start,
-- `m_lo`, drops every owner whose listed months all come before `m_hi` or after `m_lo`.
pub year_end_drops_owner :
    {F : Type 0} ⦃fl : Floats F⦄ (tm_mon : ℤ → ℕ) (owners : List Text) (q : Query F)
    (meta : OwnerMetadata F) (p : RangePredicate F) (o : Text) (months : List ℤ)
    → meta.scheme ≡ codes "pickup_datetime"
    → find_pred (codes "pickup_datetime") q.predicates ≡ some p
    → find o meta.months ≡ some months
    → tm_mon (fl.trunc p.high) < tm_mon (fl.trunc p.low)
    → All
        (Outside (month_of_epoch tm_mon (fl.trunc p.high)) (month_of_epoch tm_mon (fl.trunc p.low)))
        months
    → ¬ In o (eligible_owners tm_mon owners q meta)
unfolding by_month month_of_epoch
year_end_drops_owner ⦃fl⦄ tm_mon owners q meta p o months e found listed wraps outside =
    let m_lo = month_of_epoch tm_mon (fl.trunc p.low) in
    let m_hi = month_of_epoch tm_mon (fl.trunc p.high) in
    let lowest : min_ℤ m_lo m_hi ≡ m_hi = ground arith in
    let highest : max_ℤ m_lo m_hi ≡ m_lo = ground arith in
    rw (months_decide tm_mon owners q meta p o months e found listed) (
      not-In-keep _ o owners
        (listed_within-Outside meta.months o months _ _ listed (rw (lowest, highest) outside)))

months_of_window :
    (tm_mon : ℤ → ℕ) (a z b : ℤ)
    → tm_mon a ≤ tm_mon z
    → tm_mon z ≤ tm_mon b
    → (min_ℤ (month_of_epoch tm_mon a) (month_of_epoch tm_mon b) ≤ℤ month_of_epoch tm_mon z)
      × (month_of_epoch tm_mon z ≤ℤ max_ℤ (month_of_epoch tm_mon a) (month_of_epoch tm_mon b))
unfolding month_of_epoch
months_of_window tm_mon a z b p q = (ground arith, ground arith)

module _ {F : Type 0} ⦃fl : Floats F⦄ where
  -- Under the scheme "pickup_datetime", an owner with a row that matches the query is eligible, if the
  -- manifest lists the month of the row's pickup among the owner's, where it has a list for the owner,
  -- the ends of the predicate and the pickup time are in the range of `int`, and the
  -- predicate's window lies within a year, so that a later time of it has no earlier month.
  pub by_month_sound :
      (tm_mon : ℤ → ℕ) (owners : List Text) (q : Query F) (meta : OwnerMetadata F) (o : Text)
      (s : PartitionStore F) (i : ℕ)
      → meta.scheme ≡ codes "pickup_datetime"
      → In o owners
      → ((months : List ℤ)
          → find o meta.months ≡ some months
          → In (month_of_epoch tm_mon (get_or s.pickup_datetime i (pos 0))) months)
      → ((p : RangePredicate F)
          → find_pred (codes "pickup_datetime") q.predicates ≡ some p
          → (fl.fits p.low ≡ true) × (fl.fits p.high ≡ true))
      → ((p : RangePredicate F) (a b : ℤ)
          → find_pred (codes "pickup_datetime") q.predicates ≡ some p
          → fl.trunc p.low ≤ℤ a
          → a ≤ℤ b
          → b ≤ℤ fl.trunc p.high
          → tm_mon a ≤ tm_mon b)
      → fl.fits (fl.of_int (get_or s.pickup_datetime i (pos 0))) ≡ true
      → matches s i q ≡ true
      → In o (eligible_owners tm_mon owners q meta)
  unfolding eligible_owners text_eq codes by_month resolve_col columns read_val find month_of_epoch
  by_month_sound tm_mon owners q meta o s i e m listed window in_year fits h =
      let hits = (match_parts s i q h).2 in
      if_cases (In o) (empty meta || is_empty q.predicates) (λ _. m)
        λ _. rw e (
          with_pred-In o owners (find_pred (codes "pickup_datetime") q.predicates) _ m λ p found.
            let one =
              find_pred-hit s i (codes "pickup_datetime") q.predicates p _ found refl hits in
            let (low, high) = window p found in
            let (after, before) = hit-trunc p.inclusive p.low p.high _ low high fits one in
            In-keep _ o owners
              (listed_within_of_hit meta.months o _ _ _ listed (
                months_of_window tm_mon _ _ _ (in_year p _ _ found (omega arith) after before)
                  (in_year p _ _ found after before (omega arith))))
              m)
