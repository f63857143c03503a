-- ===== src/Node/Gateway/Full.antt =====
-- `FetchChunk` (cpp/server/node.cpp) fills its chunk as far as rows wait.
use mini.Base.{
  ℕ, zero, suc, ◌≤◌, ◌<◌, ◌≡◌, refl, ap, ◌∙◌, sym, arith, true, false, ◌||◌, ◌==◌, if_cases, ◌⊎◌,
  inl, inr, ℤ, pos, pos_part, ◌+ℤ◌, Text, text_eq, at_or, List, [], ◌∷◌, length, All,
}
use mini.Store.{TaxiRow}
use mini.Node.Gateway.{
  Gateway, Drain, pop_self, pop_remote, drain_self, drain_owner, drain_owners, drain_round, drain,
  fetch_chunk, promote_done,
}
use mini.Node.Gateway.Conserve.{waiting, drain-Moves}

module _ {F : Type 0} where
  drain_owner-room :
      (d : Drain F) (o : Text) (rows : List (TaxiRow F)) → (drain_owner d o rows).room ≤ d.room
  unfolding drain_owner pop_remote
  drain_owner-room d o [] = omega arith
  drain_owner-room d o (row ∷ rest) = omega arith

  drain_owners-room : (os : List Text) (d : Drain F) → (drain_owners d os).room ≤ d.room
  unfolding drain_owners
  drain_owners-room [] d = omega arith
  drain_owners-room (x ∷ os) d =
      if_cases (λ (t : Drain F). (drain_owners t os).room ≤ d.room)
        (d.room == 0 || text_eq x d.gate.name) (λ _. drain_owners-room os d)
        λ _. omega (
          arith,
          drain_owners-room os (drain_owner d x (at_or x [] d.gate.prefetch_buf)),
          drain_owner-room d x (at_or x [] d.gate.prefetch_buf),
        )

  drain_self-room : (d : Drain F) (rows : List (TaxiRow F)) → (drain_self d rows).room ≤ d.room
  unfolding drain_self pop_self
  drain_self-room d [] = omega arith
  drain_self-room d (row ∷ rest) = omega arith

  drain_round-room : (d : Drain F) → (drain_round d).room ≤ d.room
  unfolding drain_round
  drain_round-room d = omega (
    arith,
    drain_owners-room d.gate.owners (drain_self d d.gate.matched),
    drain_self-room d d.gate.matched,
  )

  -- Nothing of these owners waits.
  abbrev NoneWaits : Gateway F → List Text → Type 0
  NoneWaits g os = All (λ o. waiting g o ≡ []) os

  drain_self-idle :
      (d : Drain F) (rows : List (TaxiRow F)) (os : List Text)
      → 0 < d.room
      → (drain_owners (drain_self d rows) os).room ≡ d.room
      → (rows ≡ []) × (drain_self d rows ≡ d)
  unfolding drain_self pop_self
  drain_self-idle d [] os r e = (refl, refl)
  drain_self-idle d (row ∷ rest) os r e =
      absurd (omega (arith, drain_owners-room os (pop_self d row rest)))

  waiting_self :
      (g : Gateway F) (o : Text) → text_eq o g.name ≡ true → g.matched ≡ [] → waiting g o ≡ []
  waiting_self g o self m = rw self m

  waiting_other :
      (g : Gateway F) (o : Text)
      → text_eq o g.name ≡ false
      → at_or o [] g.prefetch_buf ≡ []
      → waiting g o ≡ []
  waiting_other g o other b = rw other b

  -- An owner that gave no row had none, and changed nothing.
  drain_owner-idle :
      (d : Drain F) (o : Text) (rows : List (TaxiRow F)) (os : List Text)
      → 0 < d.room
      → (drain_owners (drain_owner d o rows) os).room ≡ d.room
      → (rows ≡ []) × (drain_owner d o rows ≡ d)
  unfolding drain_owner pop_remote
  drain_owner-idle d o [] os r e = (refl, refl)
  drain_owner-idle d o (row ∷ rest) os r e =
      absurd (omega (arith, drain_owners-room os (pop_remote d o row rest)))

  drain_owners-idle :
      (os : List Text) (d : Drain F)
      → 0 < d.room
      → d.gate.matched ≡ []
      → (drain_owners d os).room ≡ d.room
      → NoneWaits d.gate os × (drain_owners d os ≡ d)
  unfolding drain_owners
  drain_owners-idle [] d r m e = (tt, refl)
  drain_owners-idle (x ∷ os) d r m e =
      if_cases
        (λ (t : Drain F).
          (drain_owners t os).room ≡ d.room → NoneWaits d.gate (x ∷ os) × (drain_owners t os ≡ d))
        (d.room == 0 || text_eq x d.gate.name)
        (λ skip e.
          let (rest, same) = drain_owners-idle os d r m e in
          ((waiting_self d.gate x (ground arith) m, rest), same))
        (λ go e.
          let (none_left, same) = drain_owner-idle d x (at_or x [] d.gate.prefetch_buf) os r e in
          let (rest, same') =
            drain_owners-idle os d r m (ap (λ t. (drain_owners t os).room) (sym same) ∙ e) in
          (
            (waiting_other d.gate x (ground arith) none_left, rest),
            ap (λ t. drain_owners t os) same ∙ same',
          ))
        e

  drain_round-idle :
      (d : Drain F)
      → 0 < d.room
      → (drain_round d).room ≡ d.room
      → NoneWaits d.gate d.gate.owners × (drain_round d ≡ d)
  unfolding drain_round
  drain_round-idle d r e =
      let os = d.gate.owners in
      let (none_left, same) = drain_self-idle d d.gate.matched os r e in
      let (rest, same') =
        drain_owners-idle os d r none_left (ap (λ t. (drain_owners t os).room) (sym same) ∙ e) in
      (rest, ap (λ t. drain_owners t os) same ∙ same')

  abbrev IsFull : Drain F → Type 0
  IsFull d = (d.room ≡ 0) ⊎ NoneWaits d.gate d.gate.owners

  drain-IsFull : (rounds : ℕ) (d : Drain F) → d.room ≤ rounds → IsFull (drain rounds d)
  unfolding drain
  drain-IsFull zero d h = inl (omega arith)
  drain-IsFull (suc rounds) d h =
      if_cases IsFull (d.room == 0) (λ e. inl (ground arith))
        λ room.
          if_cases IsFull ((drain_round d).room == d.room)
            (λ same.
              let idle = drain_round-idle d (ground arith) (ground arith) in
              rw (idle.1) (inr idle.0))
            λ less. drain-IsFull rounds (drain_round d) (ground (arith, drain_round-room d))

  -- After a `FetchChunk` its chunk holds `max_rows` rows, or nothing of any data owner waits at the
  -- gateway: rows are never held back while the chunk has room.
  pub fetch_chunk-fills :
      (g : Gateway F) (max_rows : ℤ)
      → (length (fetch_chunk g max_rows).1 ≡ pos_part max_rows)
        ⊎ All (λ o. waiting (fetch_chunk g max_rows).0 o ≡ []) g.owners
  unfolding fetch_chunk promote_done
  fetch_chunk-fills g max_rows =
      let start : Gateway F = record g { client_last_seq = g.client_last_seq +ℤ pos 1 } in
      let d0 : Drain F = record { gate = start; out = []; room = pos_part max_rows } in
      let moved = drain-Moves (pos_part max_rows) d0 in
      elim (drain-IsFull (pos_part max_rows) d0 (omega arith)) [
        | inl full ↦ inl (omega (arith, moved.counted, full))
        | inr empty ↦ inr (rw moved.same_owners at empty)
      ]
