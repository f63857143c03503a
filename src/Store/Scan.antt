-- ===== src/Store/Scan.antt =====
-- The parallel scan finds the rows that `matches` accepts, in order, however the rows are shared out.
use mini.Base.{
  ℕ, zero, suc, ◌+◌, ◌<◌, ◌≡◌, refl, sym, ◌∙◌, ap, arith, Bool, false, ◌==◌, ◌&&◌, List, [], ◌∷◌,
  ◌++◌, length, keep, Option, none, some, Floats, Option-cases, inl, inr, if_cases,
}
use native.Mathlib.Nat.{add-zero, zero-add}
use mini.Store.{PartitionStore, Query, RangePredicate, resolve_col, is_valid, matches, matches_all}
use mini.Store.Search.{
  ResolvedPred, resolve_preds, row_match, scan_slice, scan_slices, range_search,
}

-- `count` numbers from `i` on.
abbrev pub count_up : ℕ → ℕ → List ℕ
count_up i zero = []
count_up i (suc count) = i ∷ count_up (suc i) count

abbrev pub sum : List ℕ → ℕ
sum [] = 0
sum (x ∷ xs) = x + sum xs

pub keep-append :
    {A : Type 0} (p : A → Bool) (xs ys : List A) → keep p (xs ++ ys) ≡ keep p xs ++ keep p ys
keep-append p [] ys = refl
keep-append p (x ∷ xs) ys = ground (arith, keep-append p xs ys)

count_up-append : (i m n : ℕ) → count_up i (m + n) ≡ count_up i m ++ count_up (i + m) n
count_up-append i zero n = rw (zero-add n, add-zero i)
count_up-append i (suc m) n =
    let shift : i + suc m ≡ suc i + m = omega arith in
    let split : suc m + n ≡ suc (m + n) = omega arith in
    rw (split, shift) (ap (◌∷◌ i) (count_up-append (suc i) m n))

pub keep-cong :
    (p q : ℕ → Bool) (i n : ℕ)
    → ((j : ℕ) → j < i + n → p j ≡ q j)
    → keep p (count_up i n) ≡ keep q (count_up i n)
keep-cong p q i zero h = refl
keep-cong p q i (suc n) h = ground (arith, h i, keep-cong p q (suc i) n (λ j g. h j (omega arith)))

pub keep_none : (i n : ℕ) → keep (λ _. false) (count_up i n) ≡ []
keep_none i zero = refl
keep_none i (suc n) = keep_none (suc i) n

module _ {F : Type 0} ⦃fl : Floats F⦄ where
  -- What a resolution of the predicates says of one row.
  abbrev Agrees :
      PartitionStore F → ℕ → List (RangePredicate F) → Option (List (ResolvedPred F)) → Type 0
  Agrees s i ps none = matches_all s i ps ≡ false
  Agrees s i ps (some rs) = row_match rs i ≡ matches_all s i ps

  resolve_preds-Agrees :
      (s : PartitionStore F) (i : ℕ) (ps : List (RangePredicate F))
      → Agrees s i ps (resolve_preds s ps)
  unfolding resolve_preds row_match matches_all
  resolve_preds-Agrees s i [] = refl
  resolve_preds-Agrees s i (p ∷ ps) = elim (Option-cases (resolve_col s p.column)) [
    | inl unknown ↦ rw (unknown, resolve_preds) (rw (unknown, matches_all))
    | inr (col, found) ↦ elim (Option-cases (resolve_preds s ps)) [
      | inl bad ↦
          let ih : matches_all s i ps ≡ false = rw bad at (resolve_preds-Agrees s i ps) in
          rw (found, resolve_preds) (rw bad (rw (found, matches_all) (ground (arith, ih))))
      | inr (rs, good) ↦
          let ih : row_match rs i ≡ matches_all s i ps = rw good at (resolve_preds-Agrees s i ps) in
          rw (found, resolve_preds) (rw good (rw (found, matches_all) (ground (arith, ih))))
    ]
  ]

  scan_slice-keep :
      (s : PartitionStore F) (rs : List (ResolvedPred F)) (i n : ℕ)
      → scan_slice s rs i n ≡ keep (λ j. is_valid s j && row_match rs j) (count_up i n)
  unfolding scan_slice
  scan_slice-keep s rs i zero = refl
  scan_slice-keep s rs i (suc n) = ground (arith, scan_slice-keep s rs (suc i) n)

  scan_slices-keep :
      (s : PartitionStore F) (rs : List (ResolvedPred F)) (i : ℕ) (slices : List ℕ)
      → scan_slices s rs i slices
        ≡ keep (λ j. is_valid s j && row_match rs j) (count_up i (sum slices))
  unfolding scan_slices
  scan_slices-keep s rs i [] = refl
  scan_slices-keep s rs i (n ∷ slices) =
      rw
        (
          scan_slice-keep s rs i n,
          scan_slices-keep s rs (i + n) slices,
          count_up-append i n (sum slices),
        )
        (sym (keep-append _ (count_up i n) _))

  matches-Agrees :
      (s : PartitionStore F) (q : Query F) (rs : List (ResolvedPred F)) (j : ℕ)
      → j < length s.valid
      → Agrees s j q.predicates (some rs)
      → (is_valid s j && row_match rs j) ≡ matches s j q
  unfolding matches
  matches-Agrees s q rs j inside a = ground (arith, a)

  matches-unknown :
      (s : PartitionStore F) (q : Query F) (j : ℕ)
      → Agrees s j q.predicates none
      → false ≡ matches s j q
  unfolding matches
  matches-unknown s q j a = ground (arith, a)

  search_slices :
      (slices : List ℕ) (s : PartitionStore F) (q : Query F) (o : Option (List (ResolvedPred F)))
      → sum slices ≡ length s.valid
      → ((j : ℕ) → Agrees s j q.predicates o)
      → elim o [ none ↦ [] | some rs ↦ scan_slices s rs 0 slices ]
        ≡ keep (λ i. matches s i q) (count_up 0 (length s.valid))
  search_slices slices s q none cover a =
      sym (keep_none 0 (length s.valid))
      ∙ keep-cong _ _ 0 (length s.valid) λ j h. matches-unknown s q j (a j)
  search_slices slices s q (some rs) cover a =
      scan_slices-keep s rs 0 slices
      ∙ rw cover
          (keep-cong _ _ 0 (length s.valid) λ j h. matches-Agrees s q rs j (omega arith) (a j))

  -- Over slices that cover the rows, the parallel scan returns exactly the indices of the rows that
  -- the row-by-row test `matches` accepts, each once and in ascending order, an unknown column and an
  -- empty partition included.
  pub range_search-matches :
      (slices : List ℕ) (s : PartitionStore F) (q : Query F)
      → sum slices ≡ length s.valid
      → range_search slices s q ≡ keep (λ i. matches s i q) (count_up 0 (length s.valid))
  unfolding range_search
  range_search-matches slices s q cover =
      if_cases (λ (r : List ℕ). r ≡ keep (λ i. matches s i q) (count_up 0 (length s.valid)))
        (length s.valid == 0) (λ none_there. let e : length s.valid ≡ 0 = ground arith in rw e)
        λ _.
          search_slices slices s q (resolve_preds s q.predicates) cover
            λ j. resolve_preds-Agrees s j q.predicates
