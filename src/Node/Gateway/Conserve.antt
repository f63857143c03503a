-- ===== src/Node/Gateway/Conserve.antt =====
-- `FetchChunk` moves rows from the buffers into the chunk: none is lost, doubled or overtaken.
use mini.Base.{
  ℕ, zero, suc, ◌+◌, ◌≤◌, ◌<◌, ◌≡◌, refl, ap, ◌∙◌, arith, true, false, ◌||◌, ◌==◌, if◌then◌else◌,
  if_cases, Bool-cases, inl, inr, ℤ, pos, pos_part, ◌+ℤ◌, Text, text_eq, text_eq_iff, text_eq_refl,
  at_or, put, at_or-put, List, [], ◌∷◌, ◌++◌, length, length-append,
}
use mathlib.Core.List.{append_assoc, append-nil}
use mini.Store.{TaxiRow}
use mini.Node.Gateway.{
  Gateway, Drain, pop_self, pop_remote, drain_self, drain_owner, drain_owners, drain_round, drain,
  fetch_chunk,
}

-- The rows of owner `o` in a chunk, in order.
abbrev pub from_owner : {F : Type 0} → Text → List (Text × TaxiRow F) → List (TaxiRow F)
from_owner o [] = []
from_owner o ((x, row) ∷ out) =
    let rest = from_owner o out in if text_eq o x then row ∷ rest else rest

-- The rows of owner `o` that wait at the gateway.
abbrev pub waiting : {F : Type 0} → Gateway F → Text → List (TaxiRow F)
waiting g o = if text_eq o g.name then g.matched else at_or o [] g.prefetch_buf

module _ {F : Type 0} where
  pub from_owner-append :
      (o : Text) (xs ys : List (Text × TaxiRow F))
      → from_owner o (xs ++ ys) ≡ from_owner o xs ++ from_owner o ys
  from_owner-append o [] ys = refl
  from_owner-append o ((x, row) ∷ xs) ys = ground (arith, from_owner-append o xs ys)

  -- `b` has moved rows of `a` from the buffers into the chunk.
  pub record Moves (a b : Drain F) : Type 0 where
    pub same_name : b.gate.name ≡ a.gate.name
    pub same_owners : b.gate.owners ≡ a.gate.owners
    pub same_ends : b.gate.prefetch_done_map ≡ a.gate.prefetch_done_map
    pub same_done : b.gate.client_producers_done ≡ a.gate.client_producers_done
    pub counted : length b.out + b.room ≡ length a.out + a.room
    pub kept :
        (o : Text) → from_owner o b.out ++ waiting b.gate o ≡ from_owner o a.out ++ waiting a.gate o

  Moves-refl : (d : Drain F) → Moves d d
  Moves-refl d = record {
    same_name = refl;
    same_owners = refl;
    same_ends = refl;
    same_done = refl;
    counted = refl;
    kept = λ o. refl;
  }

  Moves-trans : {a b c : Drain F} → Moves a b → Moves b c → Moves a c
  Moves-trans x y = record {
    same_name = y.same_name ∙ x.same_name;
    same_owners = y.same_owners ∙ x.same_owners;
    same_ends = y.same_ends ∙ x.same_ends;
    same_done = y.same_done ∙ x.same_done;
    counted = y.counted ∙ x.counted;
    kept = λ o. y.kept o ∙ x.kept o;
  }

  -- One row goes out of a buffer that it heads.
  move_row :
      (o x : Text) (out : List (Text × TaxiRow F)) (row : TaxiRow F)
      (rest before after : List (TaxiRow F))
      → (text_eq o x ≡ true → (before ≡ row ∷ rest) × (after ≡ rest))
      → (text_eq o x ≡ false → after ≡ before)
      → from_owner o (out ++ (x, row) ∷ []) ++ after ≡ from_owner o out ++ before
  move_row o x out row rest before after h k = elim (Bool-cases (text_eq o x)) [
    | inl same ↦
        rw (from_owner-append o out ((x, row) ∷ []), same, (h same).0, (h same).1)
          (append_assoc (from_owner o out) (row ∷ []) rest)
    | inr other ↦
        rw (from_owner-append o out ((x, row) ∷ []), other, k other, append-nil (from_owner o out))
  ]

  pop_self-Moves :
      (d : Drain F) (row : TaxiRow F) (rest : List (TaxiRow F))
      → 0 < d.room
      → d.gate.matched ≡ row ∷ rest
      → Moves d (pop_self d row rest)
  unfolding pop_self
  pop_self-Moves d row rest r e = record {
    same_name = refl;
    same_owners = refl;
    same_ends = refl;
    same_done = refl;
    counted = omega (arith, length-append d.out ((d.gate.name, row) ∷ []));
    kept = λ o.
        move_row o d.gate.name d.out row rest _ _ (λ same. rw (same, e) (refl, refl))
          (λ other. rw other);
  }

  pop_remote-Moves :
      (d : Drain F) (x : Text) (row : TaxiRow F) (rest : List (TaxiRow F))
      → 0 < d.room
      → text_eq x d.gate.name ≡ false
      → at_or x [] d.gate.prefetch_buf ≡ row ∷ rest
      → Moves d (pop_remote d x row rest)
  unfolding pop_remote
  pop_remote-Moves d x row rest r elsewhere e = record {
    same_name = refl;
    same_owners = refl;
    same_ends = refl;
    same_done = refl;
    counted = omega (arith, length-append d.out ((x, row) ∷ []));
    kept = λ o.
        move_row o x d.out row rest _ _
          (λ same.
            let p : o ≡ x = (text_eq_iff o x).0 same in
            rw p (
              rw (elsewhere, at_or-put x x [] rest d.gate.prefetch_buf, text_eq_refl x, e)
                (refl, refl)))
          (λ other.
            ap (λ rows. if text_eq o d.gate.name then d.gate.matched else rows)
              (untouched o other));
  }
    where
      untouched :
          (o : Text)
          → text_eq o x ≡ false
          → at_or o [] (put x rest d.gate.prefetch_buf) ≡ at_or o [] d.gate.prefetch_buf
      untouched o other =
          ground
            (arith, at_or-put x o [] rest d.gate.prefetch_buf, text_eq_iff x o, text_eq_iff o x)

  drain_self-Moves :
      (d : Drain F) (rows : List (TaxiRow F))
      → 0 < d.room
      → d.gate.matched ≡ rows
      → Moves d (drain_self d rows)
  unfolding drain_self
  drain_self-Moves d [] r e = Moves-refl d
  drain_self-Moves d (row ∷ rest) r e = pop_self-Moves d row rest r e

  drain_owner-Moves :
      (d : Drain F) (x : Text) (rows : List (TaxiRow F))
      → 0 < d.room
      → text_eq x d.gate.name ≡ false
      → at_or x [] d.gate.prefetch_buf ≡ rows
      → Moves d (drain_owner d x rows)
  unfolding drain_owner
  drain_owner-Moves d x [] r n e = Moves-refl d
  drain_owner-Moves d x (row ∷ rest) r n e = pop_remote-Moves d x row rest r n e

  drain_owners-Moves : (os : List Text) (d : Drain F) → Moves d (drain_owners d os)
  unfolding drain_owners
  drain_owners-Moves [] d = Moves-refl d
  drain_owners-Moves (x ∷ os) d =
      if_cases (λ (next : Drain F). Moves d next → Moves d (drain_owners next os))
        (d.room == 0 || text_eq x d.gate.name) (λ _ m. Moves-trans m (drain_owners-Moves os d))
        (λ _ m. Moves-trans m (drain_owners-Moves os _))
        (if_cases (Moves d) (d.room == 0 || text_eq x d.gate.name) (λ _. Moves-refl d)
          λ go. drain_owner-Moves d x _ (ground arith) (ground arith) refl)

  drain_round-Moves : (d : Drain F) → 0 < d.room → Moves d (drain_round d)
  unfolding drain_round
  drain_round-Moves d r =
      Moves-trans (drain_self-Moves d d.gate.matched r refl) (drain_owners-Moves d.gate.owners _)

  pub drain-Moves : (rounds : ℕ) (d : Drain F) → Moves d (drain rounds d)
  unfolding drain
  drain-Moves zero d = Moves-refl d
  drain-Moves (suc rounds) d =
      if_cases (Moves d) (d.room == 0) (λ _. Moves-refl d)
        λ room.
          let round = drain_round-Moves d (ground arith) in
          if_cases (Moves d) ((drain_round d).room == d.room) (λ _. round)
            λ _. Moves-trans round (drain-Moves rounds (drain_round d))

  -- A chunk holds `max_rows` rows at most, and for each owner its rows, in order, are those at the front
  -- of the owner's buffer: they and what the buffer keeps are what waited before.
  pub fetch_chunk-conserves :
      (g : Gateway F) (max_rows : ℤ) (o : Text)
      → (length (fetch_chunk g max_rows).1 ≤ pos_part max_rows)
        × (from_owner o (fetch_chunk g max_rows).1 ++ waiting (fetch_chunk g max_rows).0 o
            ≡ waiting g o)
  unfolding fetch_chunk
  fetch_chunk-conserves g max_rows o =
      let start = record g { client_last_seq = g.client_last_seq +ℤ pos 1 } in
      let moved =
        drain-Moves (pos_part max_rows)
          (record { gate = start; out = []; room = pos_part max_rows }) in
      (omega (arith, moved.counted), moved.kept o)
