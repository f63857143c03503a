-- ===== src/Node/Owner/Refines.antt =====
-- The owner's side of a request refines the feed of its matching rows (cpp/server/node.cpp).
use mini.Base.{
  ◌≤◌, ℕ, zero, suc, ◌≡◌, refl, sym, ap, ap₂, ◌∙◌, arith, Bool, true, false, not, ◌&&◌, ◌||◌,
  if◌then◌else◌, leb, ltb, if_cases, Bool-cases, Option-cases, inl, inr, ℤ, pos_part, is_empty,
  List, [], ◌∷◌, ◌++◌, map, length, get_elem?, take, drop, some, Floats,
}
use mathlib.Core.List.{append_assoc, append-nil}
use mini.Store.{PartitionStore, TaxiRow, empty, fill}
use mini.Node.Owner.{
  test, test_row, holds, RequestState, Chunk, max_buffered, Producer, idle, pass, Puller, ready,
  took, saw, Owner, Event, begin, push, finish, cancel, take_rows, read_done, send, begin_pass,
  end_pass, push_row, produce, conclude, take_chunk, load_done, send_chunk, cancel_request, step,
  run,
}
use mini.Node.Owner.Steps.{Inv, at_index, ends, is_empty-nil, step-Inv}
use mini.Node.Owner.Feed.{Feed, Move, stay, grab, withdraw, announce, Moves, later}
use mini.Node.Owner.Refines.Parts.{
  fit, take-fit, drop-fit, drop-get_elem?, drop-all, drop-append, take_one, take_once,
}
pub mod Parts

module _ {F : Type 0} ⦃fl : Floats F⦄ (part : PartitionStore F) where
  -- The row that the producer has made and not pushed yet.
  abbrev pub on_its_way : RequestState F → Producer → List (TaxiRow F)
  on_its_way r idle = []
  on_its_way r (pass i limit) = []
  on_its_way r (holds i limit) = map (fill part) (take 1 (drop i r.matched_indices))

  -- The rows that are still to go into the buffer, of which a cancellation leaves the one on its way.
  abbrev pub unproduced : RequestState F → Producer → List (TaxiRow F)
  unproduced r p =
      if r.cancelled
      then on_its_way r p
      else map (fill part) (drop (at_index r.matched_cursor p) r.matched_indices)

  abbrev pub feed : RequestState F → Producer → List (TaxiRow F) → List (Chunk F) → Feed F
  feed r p taken sent = record {
    left = r.matched ++ unproduced r p;
    taken = taken;
    ended = ends sent;
  }

  -- The feed that an owner's request implements.
  abbrev pub feed_of : Owner F → Feed F
  feed_of s = feed s.req s.producer s.taken s.sent

  onto : {f g h : Feed F} → Move f g → g ≡ h → Move f h
  onto m e = rw (← e) m

  at_producer :
      (s : Owner F) (p : Producer) → s.producer ≡ p → feed_of s ≡ feed s.req p s.taken s.sent
  at_producer s p e = ap (λ x. feed s.req x s.taken s.sent) e

  begin-Move : (s : Owner F) → s.producer ≡ idle → Move (feed_of s) (feed_of (begin_pass part s))
  unfolding begin_pass
  begin-Move s e =
      let to : Owner F → Type 0 = λ t. Move (feed_of s) (feed_of t) in
      if_cases to (s.req.cancelled || s.req.done_producing) (λ _. stay)
        λ _.
          if_cases to (empty part) (λ _. stay)
            λ _.
              if_cases to (leb max_buffered (length s.req.matched)) (λ _. stay)
                λ _. onto stay (at_producer s idle e)

  end-Move :
      (s : Owner F) (i limit : ℕ)
      → s.producer ≡ pass i limit
      → Move (feed_of s) (feed_of (end_pass s i))
  unfolding end_pass
  end-Move s i limit e = onto stay (at_producer s (pass i limit) e)

  test-Move :
      (s : Owner F) (p : Producer) → s.producer ≡ p → Move (feed_of s) (feed_of (test_row s p))
  unfolding test_row
  test-Move s (pass i limit) e =
      if_cases (λ t. Move (feed_of s) (feed_of t)) (ltb i limit && not s.req.cancelled)
        (λ on.
          let open_request : s.req.cancelled ≡ false = ground arith in
          let same : feed s.req (pass i limit) s.taken s.sent
              ≡ feed s.req (holds i limit) s.taken s.sent =
            rw open_request refl in
          onto stay (at_producer s (pass i limit) e ∙ same))
        λ _. stay
  test-Move s p e = stay

  -- The row on its way gets into the buffer, cancelled or not.
  pushed :
      (r : RequestState F) (i limit next index : ℕ) (taken : List (TaxiRow F))
      (sent : List (Chunk F))
      → get_elem? r.matched_indices i ≡ some index
      → feed r (holds i limit) taken sent
        ≡ feed
            (record r { matched = r.matched ++ fill part index ∷ [] })
            (pass (suc i) next)
            taken
            sent
  pushed r i limit next index taken sent here =
      let row : List (TaxiRow F) = fill part index ∷ [] in
      let there = drop-get_elem? r.matched_indices i index here in
      ap (λ l. record { left = l; taken = taken; ended = ends sent })
        (elim (Bool-cases r.cancelled) [
          | inl c ↦ rw (c, there) (sym (append-nil (r.matched ++ row)))
          | inr c ↦
              rw (c, there)
                (sym
                  (append_assoc r.matched row (map (fill part) (drop (suc i) r.matched_indices))))
        ])

  produce-Move :
      (s : Owner F) (p : Producer) → s.producer ≡ p → Move (feed_of s) (feed_of (produce part s p))
  unfolding produce push_row
  produce-Move s (holds i limit) e = elim (Option-cases (get_elem? s.req.matched_indices i)) [
    | inl outside ↦ rw (outside, produce) stay
    | inr (index, here) ↦
        rw (here, produce)
          (onto stay (
            at_producer s (holds i limit) e
            ∙ pushed s.req i limit
                (if leb max_buffered (length (s.req.matched ++ fill part index ∷ []))
                  then suc i
                  else limit)
                index s.taken s.sent here))
  ]
  produce-Move s p e = stay

  conclude-Move :
      (s : Owner F) (p : Producer) → s.producer ≡ p → Move (feed_of s) (feed_of (conclude s p))
  unfolding conclude
  conclude-Move s (pass i limit) e =
      if_cases (λ t. Move (feed_of s) (feed_of t)) (ltb i limit && not s.req.cancelled) (λ _. stay)
        λ _. end-Move s i limit e
  conclude-Move s p e = stay

  -- What a cancellation leaves.
  left_over :
      (r : RequestState F) (p : Producer)
      → (k : ℕ) × (k ≤ 1)
        × (take k (drop (length r.matched) (r.matched ++ unproduced r p)) ≡ on_its_way r p)
  left_over r idle = (0, omega arith, refl)
  left_over r (pass i limit) = (0, omega arith, refl)
  left_over r (holds i limit) = (
    1,
    omega arith,
    rw (drop-append r.matched (unproduced r (holds i limit))) (elim (Bool-cases r.cancelled) [
      | inl c ↦ rw c (take_once (fill part) (drop i r.matched_indices))
      | inr c ↦ rw c (take_one (fill part) (drop i r.matched_indices))
    ]),
  )

  cancel-Move : (s : Owner F) → Move (feed_of s) (feed_of (cancel_request s))
  unfolding cancel_request
  cancel-Move s =
      let (k, small, same) = left_over s.req s.producer in
      onto (withdraw (length s.req.matched) k small)
        (ap (λ l. record { left = l; taken = s.taken; ended = ends s.sent }) same)

  take-Move :
      (s : Owner F) (j : ℕ) (n : ℤ) (p : Puller F) → Move (feed_of s) (feed_of (take_chunk s j n p))
  unfolding take_chunk
  take-Move s j n ready =
      let rest = unproduced s.req s.producer in
      onto (grab (fit (pos_part n) s.req.matched)) (
        ap₂ (λ l t. record { left = l; taken = s.taken ++ t; ended = ends s.sent })
          (drop-fit (pos_part n) s.req.matched rest) (take-fit (pos_part n) s.req.matched rest))
  take-Move s j n (took out) = stay
  take-Move s j n (saw out done) = stay

  load-Move : (s : Owner F) (j : ℕ) (p : Puller F) → Move (feed_of s) (feed_of (load_done s j p))
  unfolding load_done
  load-Move s j ready = stay
  load-Move s j (took out) = stay
  load-Move s j (saw out done) = stay

  module _ (idxs : List ℕ) where
    -- Nothing is left once production is over and the buffer is empty.
    over_left :
        (s : Owner F)
        → Inv part idxs s
        → s.req.done_producing ≡ true
        → is_empty s.req.matched ≡ true
        → (feed_of s).left ≡ []
    over_left s v d e =
        let (rest, last) = v.at_end d in
        rw (is_empty-nil s.req.matched e, rest, last, v.found, drop-all idxs)
          (if_cases (λ (l : List (TaxiRow F)). l ≡ []) s.req.cancelled (λ _. refl) (λ _. refl))

    send-Move :
        (s : Owner F) (j : ℕ) (p : Puller F)
        → s.pullers j ≡ p
        → Inv part idxs s
        → Move (feed_of s) (feed_of (send_chunk s j p))
    unfolding send_chunk
    send-Move s j ready e v = stay
    send-Move s j (took out) e v = stay
    send-Move s j (saw out done) e v =
        let rest = s.req.matched ++ unproduced s.req s.producer in
        let sent : Bool → Feed F =
          λ b. record { left = rest; taken = s.taken; ended = b || ends s.sent } in
        elim (Bool-cases (done && is_empty s.req.matched && is_empty out)) [
          | inl last ↦
              let seen : done ≡ true = ground arith in
              let empty_buffer : is_empty s.req.matched ≡ true = ground arith in
              let over = v.seen j out (e ∙ ap (saw out) seen) in
              onto (announce (over_left s v over empty_buffer)) (ap sent (sym last))
          | inr more ↦ onto stay (ap sent (sym more))
        ]

    step-Move :
        (s : Owner F) (ev : Event) → Inv part idxs s → Move (feed_of s) (feed_of (step part s ev))
    unfolding step cancel_request
    step-Move s begin v = at_rest s.producer refl
      where
        at_rest :
            (p : Producer)
            → s.producer ≡ p
            → Move (feed_of s) (
                feed_of
                  (elim p [ idle ↦ begin_pass part s | pass i limit ↦ s | holds i limit ↦ s ]))
        at_rest idle e = begin-Move s e
        at_rest (pass i limit) e = stay
        at_rest (holds i limit) e = stay
    step-Move s test v = test-Move s s.producer refl
    step-Move s push v = produce-Move s s.producer refl
    step-Move s finish v = conclude-Move s s.producer refl
    step-Move s cancel v = cancel-Move s
    step-Move s (take_rows j n) v = take-Move s j n (s.pullers j)
    step-Move s (read_done j) v = load-Move s j (s.pullers j)
    step-Move s (send j) v = send-Move s j (s.pullers j) refl v

    pub run-Moves :
        (es : List Event) (s : Owner F) (f : Feed F)
        → (empty part ≡ true → idxs ≡ [])
        → Inv part idxs s
        → Moves f (feed_of s)
        → Moves f (feed_of (run part s es))
    unfolding run
    run-Moves [] s f n v ms = ms
    run-Moves (e ∷ es) s f n v ms =
        run-Moves es (step part s e) f n (step-Inv part idxs s e n v) (later ms (step-Move s e v))
