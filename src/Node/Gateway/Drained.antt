-- ===== src/Node/Gateway/Drained.antt =====
-- `FetchChunk` (cpp/server/node.cpp) keeps the rows of each remote owner, and marks an owner as done only
-- behind its last row.
use mini.Base.{
  ◌≡◌, sym, ap, ◌∙◌, arith, Bool, true, false, if_cases, ◌⊎◌, inl, inr, ℤ, pos, pos_part, ◌+ℤ◌,
  Text, Dict, text_eq, text_eq_iff, at_or, at_or-put, is_empty, List, [], ◌∷◌, ◌++◌, In, Sum-map,
}
use mini.Node.Gateway.{
  can_answer, Gateway, Drain, promote, promote_done, all_done, fetch_chunk, drain,
}
use mini.Node.Gateway.Conserve.{from_owner, from_owner-append, waiting, drain-Moves}
use mini.Node.Gateway.Prefetch.{Session, fetched}
use mini.Node.Gateway.Fits.{Fits-fetch, is_empty_nil}
use mini.Node.Gateway.Keeps.{Keeps}

In-all_done :
    (m : Dict Bool) (os : List Text) (o : Text)
    → all_done m os ≡ true
    → In o os
    → at_or o false m ≡ true
unfolding all_done
In-all_done m [] o t i = absurd i
In-all_done m (x ∷ os) o t (inl e) = ap (λ y. at_or y false m) (sym e) ∙ ground arith
In-all_done m (x ∷ os) o t (inr i) = In-all_done m os o (ground arith) i

module _ {F : Type 0} where
  promote_lem :
      (g : Gateway F) (o : Text) (os : List Text) (m : Dict Bool)
      → at_or o false (promote g os m) ≡ true
      → (at_or o false m ≡ true)
        ⊎ ((at_or o false g.prefetch_done_map ≡ true)
            × (is_empty (at_or o [] g.prefetch_buf) ≡ true))
  unfolding promote
  promote_lem g o [] m h = inl h
  promote_lem g o (x ∷ os) m h = elim (promote_lem g o os _ h) [
    | inr now ↦ inr now
    | inl before ↦ ground (arith, at_or-put x o false true m, text_eq_iff x o)
  ]

  waiting_remote :
      (g : Gateway F) (o : Text)
      → text_eq o g.name ≡ false
      → waiting g o ≡ at_or o [] g.prefetch_buf
  waiting_remote g o e = rw e

  promote_done_lem :
      (g : Gateway F) (o : Text)
      → text_eq o g.name ≡ false
      → at_or o false (promote_done g).client_producers_done ≡ true
      → (at_or o false g.client_producers_done ≡ true)
        ⊎ ((at_or o false g.prefetch_done_map ≡ true) × (at_or o [] g.prefetch_buf ≡ []))
  unfolding promote_done
  promote_done_lem g o elsewhere t = elim (promote_lem g o g.owners _ t) [
    | inl before ↦ inl (
        ground (
          arith,
          at_or-put g.name o false true g.client_producers_done,
          text_eq_iff g.name o,
          text_eq_iff o g.name,
        ))
    | inr now ↦ inr (now.0, is_empty_nil _ now.1)
  ]

  -- The session after a `FetchChunk`.
  abbrev pub chunked : Session F → ℤ → Session F
  chunked s max_rows = record s {
    gate = (fetch_chunk s.gate max_rows).0;
    delivered = s.delivered ++ (fetch_chunk s.gate max_rows).1;
  }

  pub chunked-Keeps :
      (s : Session F) (o : Text) (max_rows : ℤ)
      → text_eq o s.gate.name ≡ false
      → Keeps o s
      → Keeps o (chunked s max_rows)
  unfolding fetch_chunk promote_done
  chunked-Keeps s o max_rows elsewhere h =
      let start : Gateway F = record (s.gate) {
        client_last_seq = s.gate.client_last_seq +ℤ pos 1;
      } in
      let d0 : Drain F = record { gate = start; out = []; room = pos_part max_rows } in
      let d = drain (pos_part max_rows) d0 in
      let moved = drain-Moves (pos_part max_rows) d0 in
      let away : text_eq o d.gate.name ≡ false = rw moved.same_name elsewhere in
      rw (from_owner-append o s.delivered d.out, moved.same_ends)
        (Fits-fetch (from_owner o d.out) h
          (ap (λ l. from_owner o d.out ++ l) (sym (waiting_remote d.gate o away))
            ∙ moved.kept o
            ∙ waiting_remote start o elsewhere)
          λ t.
            Sum-map (λ before. ap (at_or o false) (sym moved.same_done) ∙ before)
              (λ now. (ap (at_or o false) (sym moved.same_ends) ∙ now.0, now.1))
              (promote_done_lem d.gate o away t))

  pub fetched-Keeps :
      (s : Session F) (o : Text) (max_rows : ℤ)
      → text_eq o s.gate.name ≡ false
      → Keeps o s
      → Keeps o (fetched s max_rows)
  unfolding fetched
  fetched-Keeps s o max_rows elsewhere h =
      if_cases (Keeps o) (can_answer s.gate) (λ _. chunked-Keeps s o max_rows elsewhere h) (λ _. h)

  pub is_last-done :
      (g : Gateway F) (max_rows : ℤ) (o : Text)
      → (fetch_chunk g max_rows).2 ≡ true
      → In o (fetch_chunk g max_rows).0.owners
      → at_or o false (fetch_chunk g max_rows).0.client_producers_done ≡ true
  unfolding fetch_chunk
  is_last-done g max_rows o t i = In-all_done _ _ o t i
