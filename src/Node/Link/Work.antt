-- ===== src/Node/Link/Work.antt =====
-- What the steps of an owner's producer leave as it is for the pulls (cpp/server/node.cpp).
use mini.Base.{
  ℕ, ◌≡◌, refl, Bool, true, ◌||◌, if_cases, Option-cases, get_elem?, leb, ltb, not, ◌&&◌, length,
  inl, inr, List, Floats,
}
use mini.Store.{PartitionStore, TaxiRow, empty}
use mini.Node.Owner.{
  test, test_row, holds, Owner, Event, begin, push, finish, Producer, idle, pass, begin_pass,
  end_pass, push_row, produce, conclude, step, max_buffered, Puller, Chunk,
}
use mini.Node.Link.{is_work}

module _ {F : Type 0} ⦃fl : Floats F⦄ where
  -- What the producer leaves as it is.
  abbrev pub shared : Owner F → (ℕ → Puller F) × List (TaxiRow F) × List (Chunk F) × Bool
  shared s = (s.pullers, s.taken, s.sent, s.req.cancelled)

  test-shared : (s : Owner F) (p : Producer) → shared (test_row s p) ≡ shared s
  unfolding test_row
  test-shared s (pass i limit) =
      if_cases (λ (t : Owner F). shared t ≡ shared s) (ltb i limit && not s.req.cancelled)
        (λ _. refl) (λ _. refl)
  test-shared s p = refl

  produce-shared :
      (part : PartitionStore F) (s : Owner F) (p : Producer) → shared (produce part s p) ≡ shared s
  unfolding produce push_row
  produce-shared part s (holds i limit) = elim (Option-cases (get_elem? s.req.matched_indices i)) [
    | inl outside ↦ rw (outside, produce) refl
    | inr (index, here) ↦ rw (here, produce) refl
  ]
  produce-shared part s p = refl

  conclude-shared : (s : Owner F) (p : Producer) → shared (conclude s p) ≡ shared s
  unfolding conclude end_pass
  conclude-shared s (pass i limit) =
      if_cases (λ (t : Owner F). shared t ≡ shared s) _ (λ _. refl) (λ _. refl)
  conclude-shared s p = refl

  begin-shared : (part : PartitionStore F) (s : Owner F) → shared (begin_pass part s) ≡ shared s
  unfolding begin_pass
  begin-shared part s =
      let to : Owner F → Type 0 = λ t. shared t ≡ shared s in
      if_cases to (s.req.cancelled || s.req.done_producing) (λ _. refl)
        λ _.
          if_cases to (empty part) (λ _. refl)
            (λ _. if_cases to (leb max_buffered (length s.req.matched)) (λ _. refl) (λ _. refl))

  pub work-shared :
      (part : PartitionStore F) (s : Owner F) (e : Event)
      → is_work e ≡ true
      → shared (step part s e) ≡ shared s
  unfolding step
  work-shared part s begin h =
      elim s.producer
        as (λ p.
          shared (elim p [ idle ↦ begin_pass part s | pass i limit ↦ s | holds i limit ↦ s ])
          ≡ shared s) [ idle ↦ begin-shared part s | pass i limit ↦ refl | holds i limit ↦ refl ]
  work-shared part s test h = test-shared s s.producer
  work-shared part s push h = produce-shared part s s.producer
  work-shared part s finish h = conclude-shared s s.producer
  work-shared part s e h = cc
