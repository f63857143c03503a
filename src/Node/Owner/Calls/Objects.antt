-- ===== src/Node/Owner/Calls/Objects.antt =====
-- The requests of an owner through its calls (cpp/server/node.cpp): each has come to where it is by steps of
-- its own, and each thread works on the request whose id it was called with.
use mini.Base.{
  ℕ, suc, ◌≤◌, ◌≡◌, refl, sym, ap, ◌∙◌, arith, not, ◌&&◌, ◌||◌, ◌==◌, leb, ltb, if_cases, inl, inr,
  pos, Text, List, [], ◌∷◌, ◌++◌, length, get_elem?, Option, none, some, Option-cases, Floats,
}
use mathlib.Core.Option.{some-injective}
use mini.Store.{PartitionStore, Query, empty}
use mini.Node.Owner.{
  test, test_row, holds, Owner, Event, begin, push, finish, cancel, take_rows, read_done, send,
  Producer, idle, pass, ready, took, saw, new_request, start, step, run, update, begin_pass,
  end_pass, push_row, produce, conclude, take_chunk, load_done, send_chunk, cancel_request,
  max_buffered,
}

module _ {F : Type 0} where
  abbrev pub identity : Owner F → Text × Query F
  identity s = (s.req.request_id, s.req.query)

  -- The object `a` is a request with the id `rid`.
  abbrev pub Named : (ℕ → Option (Owner F)) → Text → ℕ → Type 0
  Named objects rid a = (s : Owner F) × (objects a ≡ some s) × (s.req.request_id ≡ rid)

  -- Every name still names a request.
  abbrev pub Keeps : (before after : ℕ → Option (Owner F)) → Type 0
  Keeps before after = (rid : Text) (a : ℕ) → Named before rid a → Named after rid a

module _ {F : Type 0} ⦃fl : Floats F⦄ (part : PartitionStore F) where
  test-identity : (s : Owner F) (p : Producer) → identity (test_row s p) ≡ identity s
  unfolding test_row
  test-identity s (pass i limit) =
      if_cases (λ (t : Owner F). identity t ≡ identity s) (ltb i limit && not s.req.cancelled)
        (λ _. refl) (λ _. refl)
  test-identity s p = refl

  produce-identity : (s : Owner F) (p : Producer) → identity (produce part s p) ≡ identity s
  unfolding produce push_row
  produce-identity s (holds i limit) = elim (Option-cases (get_elem? s.req.matched_indices i)) [
    | inl outside ↦ rw (outside, produce) refl
    | inr (index, here) ↦ rw (here, produce) refl
  ]
  produce-identity s p = refl

  begin_pass-identity : (s : Owner F) → identity (begin_pass part s) ≡ identity s
  unfolding begin_pass
  begin_pass-identity s =
      let to : Owner F → Type 0 = λ t. identity t ≡ identity s in
      if_cases to (s.req.cancelled || s.req.done_producing) (λ _. refl)
        λ _.
          if_cases to (empty part) (λ _. refl)
            (λ _. if_cases to (leb max_buffered (length s.req.matched)) (λ _. refl) (λ _. refl))

  pub step-identity : (s : Owner F) (e : Event) → identity (step part s e) ≡ identity s
  unfolding step conclude end_pass take_chunk load_done send_chunk cancel_request
  step-identity s begin =
      elim s.producer
        as (λ p.
          identity (elim p [ idle ↦ begin_pass part s | pass i limit ↦ s | holds i limit ↦ s ])
          ≡ identity s) [
            | idle ↦ begin_pass-identity s
            | pass i limit ↦ refl
            | holds i limit ↦ refl
          ]
  step-identity s test = test-identity s s.producer
  step-identity s push = produce-identity s s.producer
  step-identity s finish = elim s.producer as (λ p. identity (conclude s p) ≡ identity s) [
    | idle ↦ refl
    | pass i limit ↦
        if_cases (λ (t : Owner F). identity t ≡ identity s) (ltb i limit && not s.req.cancelled)
          (λ _. refl) (λ _. refl)
    | holds i limit ↦ refl
  ]
  step-identity s cancel = refl
  step-identity s (take_rows j n) =
      elim (s.pullers j) as (λ p. identity (take_chunk s j n p) ≡ identity s) [
        | ready ↦ refl
        | took rows ↦ refl
        | saw rows done ↦ refl
      ]
  step-identity s (read_done j) =
      elim (s.pullers j) as (λ p. identity (load_done s j p) ≡ identity s) [
        | ready ↦ refl
        | took rows ↦ refl
        | saw rows done ↦ refl
      ]
  step-identity s (send j) = elim (s.pullers j) as (λ p. identity (send_chunk s j p) ≡ identity s) [
    | ready ↦ refl
    | took rows ↦ refl
    | saw rows done ↦ refl
  ]

  pub run-identity : (s : Owner F) (es : List Event) → identity (run part s es) ≡ identity s
  unfolding run
  run-identity s [] = refl
  run-identity s (e ∷ es) = run-identity (step part s e) es ∙ step-identity s e

  run-snoc :
      (s : Owner F) (es : List Event) (e : Event)
      → run part s (es ++ e ∷ []) ≡ step part (run part s es) e
  unfolding run
  run-snoc s [] e = refl
  run-snoc s (x ∷ es) e = run-snoc (step part s x) es e

module _ {F : Type 0} ⦃fl : Floats F⦄ (slices : List ℕ) (part : PartitionStore F) where
  -- A request that has come from its registration by steps.
  abbrev pub Ran : Owner F → Type 0
  Ran s =
      (rid : Text) × (q : Query F) × (es : List Event) × (s
        ≡ run part (start (new_request slices part rid q (pos 1))) es)

  pub record Heap (objects : ℕ → Option (Owner F)) (count : ℕ) : Type 0 where
    pub ran : (a : ℕ) (s : Owner F) → objects a ≡ some s → Ran s
    pub fresh : (a : ℕ) → count ≤ a → objects a ≡ none

  Ran-step : (s : Owner F) (e : Event) → Ran s → Ran (step part s e)
  Ran-step s e (rid, q, es, same) =
      (rid, q, es ++ e ∷ [], ap (λ t. step part t e) same ∙ sym (run-snoc part _ es e))

  pub Heap-step :
      (objects : ℕ → Option (Owner F)) (count a : ℕ) (s : Owner F) (e : Event)
      → objects a ≡ some s
      → Heap objects count
      → Heap (update objects a (some (step part s e))) count
  Heap-step objects count a s e h v = record {
    ran = λ k t.
        if_cases (λ (o : Option (Owner F)). o ≡ some t → Ran t) (k == a)
          (λ _ same.
            let to : step part s e ≡ t = some-injective _ _ same in
            rw (← to) (Ran-step s e (v.ran a s h)))
          (λ _. v.ran k t);
    fresh = λ k le.
        if_cases (λ (o : Option (Owner F)). o ≡ none) (k == a)
          (λ same.
            let here : k ≡ a = ground arith in cc (sym h ∙ ap objects (sym here) ∙ v.fresh k le))
          (λ _. v.fresh k le);
  }

  pub Heap-add :
      (objects : ℕ → Option (Owner F)) (count : ℕ) (rid : Text) (q : Query F)
      → Heap objects count
      → Heap
          (update objects count (some (start (new_request slices part rid q (pos 1)))))
          (suc count)
  unfolding run
  Heap-add objects count rid q v = record {
    ran = λ k t.
        if_cases (λ (o : Option (Owner F)). o ≡ some t → Ran t) (k == count)
          (λ _ same. (rid, q, [], sym (some-injective _ _ same))) (λ _. v.ran k t);
    fresh = λ k le.
        if_cases (λ (o : Option (Owner F)). o ≡ none) (k == count) (λ same. absurd (ground arith))
          (λ _. v.fresh k (omega arith));
  }

  pub step-Keeps :
      (objects : ℕ → Option (Owner F)) (a : ℕ) (s : Owner F) (e : Event)
      → objects a ≡ some s
      → Keeps objects (update objects a (some (step part s e)))
  step-Keeps objects a s e h rid k (t, found, id) =
      if_cases (λ (o : Option (Owner F)). (u : Owner F) × (o ≡ some u) × (u.req.request_id ≡ rid))
        (k == a)
        (λ same.
          let here : k ≡ a = ground arith in
          let one : t ≡ s = some-injective _ _ (sym found ∙ ap objects here ∙ h) in
          (
            step part s e,
            refl,
            ap (λ (i : Text × Query F). i.0) (step-identity part s e)
                ∙ ap (λ (u : Owner F). u.req.request_id) (sym one)
                ∙ id,
          ))
        (λ _. (t, found, id))

  pub add-Keeps :
      (objects : ℕ → Option (Owner F)) (count : ℕ) (s : Owner F)
      → Heap objects count
      → Keeps objects (update objects count (some s))
  add-Keeps objects count s v rid k (t, found, id) =
      if_cases (λ (o : Option (Owner F)). (u : Owner F) × (o ≡ some u) × (u.req.request_id ≡ rid))
        (k == count) (λ same. cc (sym found ∙ v.fresh k (ground arith))) (λ _. (t, found, id))
