-- ===== src/Node/Owner/Steps.antt =====
-- The invariant that every step of an owner's request keeps.
use mini.Base.{
  ℕ, zero, suc, ◌≤◌, ◌<◌, ◌≡◌, refl, sym, ap, ◌∙◌, arith, Bool, true, false, not, ◌&&◌, ◌||◌, leb,
  ltb, if_cases, Option-cases, inl, inr, ℤ, pos_part, is_empty, List, [], ◌∷◌, ◌++◌, map, length,
  get_elem?, take, drop, take-append-drop, none, some, Floats, length-append, length-drop,
}
use mathlib.Core.List.{append_assoc, append-nil, map-append}
use mini.Store.{PartitionStore, TaxiRow, empty, fill}
use mini.Node.Owner.{
  test, test_row, holds, RequestState, Producer, idle, pass, Puller, ready, took, saw, Chunk, Owner,
  Event, begin, push, finish, cancel, take_rows, read_done, send, begin_pass, end_pass, push_row,
  produce, conclude, take_chunk, load_done, send_chunk, cancel_request, step, run, start,
  max_buffered,
}
pub use mini.Node.Owner.Steps.Producing.{at_index, ends, is_empty-nil, Inv}
use mini.Node.Owner.Steps.Producing.{
  take-length, drop-empty, IsWithin-le, begin-Inv, test-Inv, produce-Inv, conclude-Inv,
}
pub mod Producing

module _ {F : Type 0} ⦃fl : Floats F⦄ (part : PartitionStore F) (idxs : List ℕ) where
  take-Inv :
      (s : Owner F) (j : ℕ) (n : ℤ) (p : Puller F)
      → s.pullers j ≡ p
      → Inv part idxs s
      → Inv part idxs (take_chunk s j n p)
  unfolding take_chunk
  take-Inv s j n ready e v = record {
    found = v.found;
    kept = λ c.
        append_assoc s.taken (take (pos_part n) s.req.matched) (drop (pos_part n) s.req.matched)
        ∙ rw (take-append-drop (pos_part n) s.req.matched) (v.kept c);
    at_le = v.at_le;
    within =
        IsWithin-le part idxs (length s.req.matched) _ s.producer
          (omega (arith, length-drop (pos_part n) s.req.matched)) v.within;
    bounded = omega (arith, v.bounded, length-drop (pos_part n) s.req.matched);
    at_end = v.at_end;
    seen = λ k out h. ground (arith, v.seen k out);
    over = λ h. ((v.over h).0, drop-empty (pos_part n) s.req.matched (v.over h).1);
  }
  take-Inv s j n p e v = v

  load-Inv :
      (s : Owner F) (j : ℕ) (p : Puller F)
      → s.pullers j ≡ p
      → Inv part idxs s
      → Inv part idxs (load_done s j p)
  unfolding load_done
  load-Inv s j (took rows) e v = record {
    found = v.found;
    kept = v.kept;
    at_le = v.at_le;
    within = v.within;
    bounded = v.bounded;
    at_end = v.at_end;
    seen = λ k out h. ground (arith, v.seen k out);
    over = v.over;
  }
  load-Inv s j p e v = v

  send-Inv :
      (s : Owner F) (j : ℕ) (p : Puller F)
      → s.pullers j ≡ p
      → Inv part idxs s
      → Inv part idxs (send_chunk s j p)
  unfolding send_chunk
  send-Inv s j (saw rows done) e v = record {
    found = v.found;
    kept = v.kept;
    at_le = v.at_le;
    within = v.within;
    bounded = v.bounded;
    at_end = v.at_end;
    seen = λ k out h. ground (arith, v.seen k out);
    over = λ h. ground (arith, v.over, v.seen j rows);
  }
  send-Inv s j p e v = v

  cancel-Inv : (s : Owner F) → Inv part idxs s → Inv part idxs (cancel_request s)
  unfolding cancel_request
  cancel-Inv s v = record {
    found = v.found;
    kept = λ c. cc;
    at_le = v.at_le;
    within = IsWithin-le part idxs (length s.req.matched) 0 s.producer (omega arith) v.within;
    bounded = omega arith;
    at_end = v.at_end;
    seen = v.seen;
    over = λ h. ((v.over h).0, refl);
  }

  pub step-Inv :
      (s : Owner F) (ev : Event)
      → (empty part ≡ true → idxs ≡ [])
      → Inv part idxs s
      → Inv part idxs (step part s ev)
  unfolding step
  step-Inv s begin none_there v = at_rest s.producer refl
    where
      at_rest :
          (p : Producer)
          → s.producer ≡ p
          → Inv part idxs
              (elim p [ idle ↦ begin_pass part s | pass i limit ↦ s | holds i limit ↦ s ])
      at_rest idle e = begin-Inv part idxs s none_there e v
      at_rest (pass i limit) e = v
      at_rest (holds i limit) e = v
  step-Inv s test none_there v = test-Inv part idxs s s.producer refl v
  step-Inv s push none_there v = produce-Inv part idxs s s.producer refl v
  step-Inv s finish none_there v = conclude-Inv part idxs s s.producer refl v
  step-Inv s cancel none_there v = cancel-Inv s v
  step-Inv s (take_rows j n) none_there v = take-Inv s j n (s.pullers j) refl v
  step-Inv s (read_done j) none_there v = load-Inv s j (s.pullers j) refl v
  step-Inv s (send j) none_there v = send-Inv s j (s.pullers j) refl v

  pub run-Inv :
      (es : List Event) (s : Owner F)
      → (empty part ≡ true → idxs ≡ [])
      → Inv part idxs s
      → Inv part idxs (run part s es)
  unfolding run
  run-Inv [] s n v = v
  run-Inv (e ∷ es) s n v = run-Inv es (step part s e) n (step-Inv s e n v)

  pub start-Inv :
      (r : RequestState F)
      → r.matched_indices ≡ idxs
      → r.matched ≡ []
      → r.matched_cursor ≡ 0
      → (r.done_producing ≡ true → idxs ≡ [])
      → Inv part idxs (start r)
  unfolding start
  start-Inv r f m z d = record {
    found = f;
    kept = λ c. rw (m, z);
    at_le = omega arith;
    within = tt;
    bounded = omega (arith, ap length m);
    at_end = λ e. (refl, omega (arith, ap length (d e)));
    seen = λ j out e. cc;
    over = λ e. cc;
  }

  pub Inv-complete :
      (s : Owner F)
      → Inv part idxs s
      → s.req.cancelled ≡ false
      → ends s.sent ≡ true
      → s.taken ≡ map (fill part) idxs
  Inv-complete s v c e =
      let (done, none_left) = v.over e in
      let (rest, last) = v.at_end done in
      let at_last : at_index s.req.matched_cursor s.producer ≡ length idxs = rw rest last in
      sym (append-nil s.taken)
      ∙ ap (◌++◌ s.taken) (sym (is_empty-nil s.req.matched none_left))
      ∙ v.kept c
      ∙ ap (λ n. map (fill part) (take n idxs)) at_last
      ∙ ap (map (fill part)) (take-length idxs)
