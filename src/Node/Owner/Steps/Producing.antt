-- ===== src/Node/Owner/Steps/Producing.antt =====
-- The invariant of an owner's request, and the steps of its producer (cpp/server/node.cpp).
use mini.Base.{
  ◌⊎◌, ℕ, zero, suc, ◌≤◌, ◌<◌, ◌≡◌, refl, sym, ap, ◌∙◌, arith, Bool, true, false, not, ◌&&◌, ◌||◌,
  leb, ltb, if_cases, Option-cases, inl, inr, is_empty, List, [], ◌∷◌, ◌++◌, map, length, get_elem?,
  take, drop, none, some, Floats, length-append,
}
use mathlib.Core.List.{append_assoc, map-append}
use mini.Store.{PartitionStore, TaxiRow, empty, fill}
use mini.Node.Owner.{
  test_row, holds, Producer, idle, pass, saw, Chunk, Owner, begin_pass, end_pass, push_row, produce,
  conclude, max_buffered,
}

-- The index of the next row to produce.
abbrev pub at_index : ℕ → Producer → ℕ
at_index cursor idle = cursor
at_index cursor (pass i limit) = i
at_index cursor (holds i limit) = i

abbrev pub IsWithin : ℕ → ℕ → Producer → Type 0
IsWithin buffered n idle = Unit
IsWithin buffered n (pass i limit) = (limit ≤ n) × ((limit ≤ i) ⊎ (buffered < max_buffered))
IsWithin buffered n (holds i limit) = (limit ≤ n) × (buffered < max_buffered)

abbrev pub ends : {F : Type 0} → List (Chunk F) → Bool
ends [] = false
ends (c ∷ cs) = c.is_last || ends cs

take-suc :
    {A : Type 0} (xs : List A) (i : ℕ) (x : A)
    → get_elem? xs i ≡ some x
    → take (suc i) xs ≡ take i xs ++ x ∷ []
take-suc [] i x h = cc
take-suc (y ∷ xs) zero x h = ground arith
take-suc (y ∷ xs) (suc i) x h = ap (◌∷◌ y) (take-suc xs i x h)

get_elem?-lt : {A : Type 0} (xs : List A) (i : ℕ) (x : A) → get_elem? xs i ≡ some x → i < length xs
get_elem?-lt [] i x h = cc
get_elem?-lt (y ∷ xs) zero x h = omega arith
get_elem?-lt (y ∷ xs) (suc i) x h = omega (arith, get_elem?-lt xs i x h)

get_elem?-none : {A : Type 0} (xs : List A) (i : ℕ) → get_elem? xs i ≡ none → length xs ≤ i
get_elem?-none [] i h = omega arith
get_elem?-none (y ∷ xs) zero h = cc
get_elem?-none (y ∷ xs) (suc i) h = omega (arith, get_elem?-none xs i h)

pub take-length : {A : Type 0} (xs : List A) → take (length xs) xs ≡ xs
take-length [] = refl
take-length (x ∷ xs) = ap (◌∷◌ x) (take-length xs)

pub is_empty-nil : {A : Type 0} (xs : List A) → is_empty xs ≡ true → xs ≡ []
is_empty-nil [] h = refl
is_empty-nil (x ∷ xs) h = cc

pub drop-empty :
    {A : Type 0} (n : ℕ) (xs : List A) → is_empty xs ≡ true → is_empty (drop n xs) ≡ true
drop-empty zero xs h = h
drop-empty (suc n) [] h = refl
drop-empty (suc n) (x ∷ xs) h = cc

module _ {F : Type 0} ⦃fl : Floats F⦄ (part : PartitionStore F) (idxs : List ℕ) where
  pub record Inv (s : Owner F) : Type 0 where
    pub found : s.req.matched_indices ≡ idxs
    -- Without a cancellation, what was taken and what waits are the rows produced so far, in order.
    pub kept :
        s.req.cancelled ≡ false
        → s.taken ++ s.req.matched
          ≡ map (fill part) (take (at_index s.req.matched_cursor s.producer) idxs)
    pub at_le : at_index s.req.matched_cursor s.producer ≤ length idxs
    pub within : IsWithin (length s.req.matched) (length idxs) s.producer
    pub bounded : length s.req.matched ≤ max_buffered
    pub at_end :
        s.req.done_producing ≡ true → (s.producer ≡ idle) × (s.req.matched_cursor ≡ length idxs)
    pub seen :
        (j : ℕ) (out : List (TaxiRow F)) → s.pullers j ≡ saw out true → s.req.done_producing ≡ true
    pub over : ends s.sent ≡ true → (s.req.done_producing ≡ true) × (is_empty s.req.matched ≡ true)

  pub IsWithin-le :
      (m n : ℕ) (p : Producer) → n ≤ m → IsWithin m (length idxs) p → IsWithin n (length idxs) p
  IsWithin-le m n idle h w = tt
  IsWithin-le m n (pass i limit) h w = ground arith
  IsWithin-le m n (holds i limit) h w = (w.0, omega arith)

  pub begin-Inv :
      (s : Owner F)
      → (empty part ≡ true → idxs ≡ [])
      → s.producer ≡ idle
      → Inv s
      → Inv (begin_pass part s)
  unfolding begin_pass
  begin-Inv s none_there e v =
      if_cases Inv (s.req.cancelled || s.req.done_producing) (λ _. v)
        λ open_request.
          if_cases Inv (empty part)
            (λ no_rows. record {
              found = v.found;
              kept = v.kept;
              at_le = v.at_le;
              within = v.within;
              bounded = v.bounded;
              at_end = λ d. (e, omega (arith, cursor_le, ap length (none_there no_rows)));
              seen = λ j out h. refl;
              over = λ h. (refl, (v.over h).1);
            })
            λ _.
              if_cases Inv (leb max_buffered (length s.req.matched)) (λ _. v)
                λ room. record {
                  found = v.found;
                  kept = λ c. rw e at (v.kept c);
                  at_le = cursor_le;
                  within = (omega (arith, ap length v.found), inr (ground arith));
                  bounded = v.bounded;
                  at_end = λ d. absurd (ground arith);
                  seen = v.seen;
                  over = v.over;
                }
    where
      cursor_le : s.req.matched_cursor ≤ length idxs
      cursor_le = rw e at v.at_le

  end-Inv : (s : Owner F) (i limit : ℕ) → s.producer ≡ pass i limit → Inv s → Inv (end_pass s i)
  unfolding end_pass
  end-Inv s i limit e v = record {
    found = v.found;
    kept = λ c. rw e at (v.kept c);
    at_le = i_le;
    within = tt;
    bounded = v.bounded;
    at_end = λ d. (refl, ground (arith, i_le, running, ap length v.found));
    seen = λ j out h. ground (arith, v.seen j out h);
    over = λ h. ground (arith, v.over h);
  }
    where
      i_le : i ≤ length idxs
      i_le = rw e at v.at_le

      running : s.req.done_producing ≡ true → ⊥
      running d = cc (sym e ∙ (v.at_end d).0)

  pub test-Inv : (s : Owner F) (p : Producer) → s.producer ≡ p → Inv s → Inv (test_row s p)
  unfolding test_row
  test-Inv s (pass i limit) e v =
      let (limit_le, room) : IsWithin (length s.req.matched) (length idxs) (pass i limit) =
        rw e at v.within in
      if_cases Inv (ltb i limit && not s.req.cancelled)
        (λ on. record {
          found = v.found;
          kept = λ c. rw e at (v.kept c);
          at_le = rw e at v.at_le;
          within = (limit_le, ground (arith, room));
          bounded = v.bounded;
          at_end = λ d. absurd (cc (sym e ∙ (v.at_end d).0));
          seen = v.seen;
          over = v.over;
        })
        λ _. v
  test-Inv s p e v = v

  push-Inv :
      (s : Owner F) (i limit index : ℕ)
      → s.producer ≡ holds i limit
      → get_elem? s.req.matched_indices i ≡ some index
      → Inv s
      → Inv (push_row part s i limit index)
  unfolding push_row
  push-Inv s i limit index e here v = record {
    found = v.found;
    kept = λ c. pushed c;
    at_le = next_le;
    within = ground (arith, limit_le, next_le);
    bounded = filled;
    at_end = λ d. absurd (running d);
    seen = v.seen;
    over = λ h. absurd (running (v.over h).0);
  }
    where
      within : IsWithin (length s.req.matched) (length idxs) (holds i limit)
      within = rw e at v.within

      limit_le : limit ≤ length idxs
      limit_le = within.0

      filled : length (s.req.matched ++ fill part index ∷ []) ≤ max_buffered
      filled = omega (arith, length-append s.req.matched (fill part index ∷ []), within.1)

      index_there : get_elem? idxs i ≡ some index
      index_there = rw v.found at here

      next_le : suc i ≤ length idxs
      next_le = get_elem?-lt idxs i index index_there

      running : s.req.done_producing ≡ true → ⊥
      running d = cc (sym e ∙ (v.at_end d).0)

      before : s.req.cancelled ≡ false → s.taken ++ s.req.matched ≡ map (fill part) (take i idxs)
      before c = rw e at (v.kept c)

      pushed :
          s.req.cancelled ≡ false
          → s.taken ++ (s.req.matched ++ fill part index ∷ []) ≡ map (fill part) (take (suc i) idxs)
      pushed c =
          sym (append_assoc s.taken s.req.matched (fill part index ∷ []))
          ∙ ap (λ rows. rows ++ fill part index ∷ []) (before c)
          ∙ sym (map-append (fill part) (take i idxs) (index ∷ []))
          ∙ ap (map (fill part)) (sym (take-suc idxs i index index_there))

  pub produce-Inv : (s : Owner F) (p : Producer) → s.producer ≡ p → Inv s → Inv (produce part s p)
  unfolding produce
  produce-Inv s (holds i limit) e v = elim (Option-cases (get_elem? s.req.matched_indices i)) [
    | inl outside ↦ rw (outside, produce) v
    | inr (index, here) ↦ rw (here, produce) (push-Inv s i limit index e here v)
  ]
  produce-Inv s p e v = v

  pub conclude-Inv : (s : Owner F) (p : Producer) → s.producer ≡ p → Inv s → Inv (conclude s p)
  unfolding conclude
  conclude-Inv s (pass i limit) e v =
      if_cases Inv (ltb i limit && not s.req.cancelled) (λ _. v) λ _. end-Inv s i limit e v
  conclude-Inv s p e v = v
