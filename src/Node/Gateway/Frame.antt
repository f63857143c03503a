-- ===== src/Node/Gateway/Frame.antt =====
-- What the drain of `FetchChunk` (cpp/server/node.cpp) leaves as it is.
use mini.Base.{
  ℕ, zero, suc, ◌≡◌, refl, ◌∙◌, Bool, ◌||◌, ◌==◌, if◌then◌else◌, if_cases, ℤ, pos_part, Text,
  text_eq, at_or, List, [], ◌∷◌,
}
use mini.Store.{TaxiRow}
use mini.Node.Gateway.{
  Gateway, Drain, pop_self, pop_remote, drain_self, drain_owner, drain_owners, drain_round, drain,
  promote_done, fetch_chunk,
}

module _ {F : Type 0} where
  -- Whether the request is stopped or cancelled, and whether the gateway's own rows have ended.
  abbrev pub frame : Gateway F → Bool × Bool × Bool
  frame g = (g.prefetch_stop, g.cancelled, g.done_producing)

  drain_owner-frame :
      (d : Drain F) (o : Text) (rows : List (TaxiRow F))
      → frame (drain_owner d o rows).gate ≡ frame d.gate
  unfolding drain_owner pop_remote
  drain_owner-frame d o [] = refl
  drain_owner-frame d o (row ∷ rows) = refl

  drain_owners-frame :
      (d : Drain F) (os : List Text) → frame (drain_owners d os).gate ≡ frame d.gate
  unfolding drain_owners
  drain_owners-frame d [] = refl
  drain_owners-frame d (o ∷ os) =
      drain_owners-frame
        (if d.room == 0 || text_eq o d.gate.name
          then d
          else drain_owner d o (at_or o [] d.gate.prefetch_buf))
        os
      ∙ if_cases (λ (e : Drain F). frame e.gate ≡ frame d.gate)
          (d.room == 0 || text_eq o d.gate.name) (λ _. refl) (λ _. drain_owner-frame d o _)

  drain_self-frame :
      (d : Drain F) (rows : List (TaxiRow F)) → frame (drain_self d rows).gate ≡ frame d.gate
  unfolding drain_self pop_self
  drain_self-frame d [] = refl
  drain_self-frame d (row ∷ rows) = refl

  pub drain-frame : (n : ℕ) (d : Drain F) → frame (drain n d).gate ≡ frame d.gate
  unfolding drain drain_round
  drain-frame zero d = refl
  drain-frame (suc n) d =
      let to : Drain F → Type 0 = λ e. frame e.gate ≡ frame d.gate in
      let once : frame (drain_round d).gate ≡ frame d.gate =
        drain_owners-frame _ d.gate.owners ∙ drain_self-frame d d.gate.matched in
      if_cases to (d.room == 0) (λ _. refl)
        λ _.
          if_cases to ((drain_round d).room == d.room) (λ _. once)
            (λ _. drain-frame n (drain_round d) ∙ once)

  pub fetch_chunk-frame :
      (g : Gateway F) (max_rows : ℤ) → frame (fetch_chunk g max_rows).0 ≡ frame g
  unfolding fetch_chunk promote_done
  fetch_chunk-frame g max_rows = drain-frame (pos_part max_rows) _
