-- ===== src/Node/Gateway/Own/Delivers.antt =====
-- The gateway's own rows (cpp/server/node.cpp): the client gets all of them before `is_last`.
use mini.Base.{
  ◌≡◌, refl, sym, ap, ◌∙◌, arith, Bool, true, false, not, ◌&&◌, Bool-cases, inl, inr, ℤ, Text, Dict,
  text_eq, text_eq_iff, at_or, at_or-put, put, List, [], ◌∷◌, ◌++◌, In,
}
use mathlib.Core.List.{append_assoc, append-nil}
use mini.Store.{TaxiRow}
use mini.Routing.Hash.{has_text}
use mini.Node.Gateway.{Gateway, fetch_chunk, submit, forward_failed, mark_owners}
use mini.Node.Gateway.Conserve.{from_owner}
use mini.Node.Gateway.Drained.{is_last-done, chunked}
use mini.Node.Gateway.Complete.{fetch_chunk-identity, act_all-identity, submitted-identity}
use mini.Node.Gateway.Prefetch.{
  Session, Action, issue, miss, fail, answer, local_row, local_end, fetch, act, act_all, issue_pull,
  missed, failed_pull, answered, fetched, submitted, forwards_failed, begin_prefetch,
}
use mini.Node.Gateway.Own.{
  Own, chunked-Own, issue_pull-Own, missed-Own, failed_pull-Own, answered-Own, fetched-Own,
}

-- The rows that the gateway's producer finds.
abbrev pub own_rows : {F : Type 0} → List (Action F) → List (TaxiRow F)
own_rows [] = []
own_rows (local_row row ∷ l) = row ∷ own_rows l
own_rows (a ∷ l) = own_rows l

-- The producer finds no row behind its end.
abbrev pub is_orderly : {F : Type 0} → Bool → List (Action F) → Bool
is_orderly done [] = true
is_orderly done (local_row row ∷ l) = not done && is_orderly done l
is_orderly done (local_end ∷ l) = is_orderly true l
is_orderly done (a ∷ l) = is_orderly done l

mark_owners-own :
    (elig : List Text) (name : Text) (os : List Text) (m : Dict Bool)
    → has_text name elig ≡ true
    → at_or name false (mark_owners elig os m) ≡ true
    → at_or name false m ≡ true
unfolding mark_owners
mark_owners-own elig name [] m h t = t
mark_owners-own elig name (o ∷ os) m h t =
    let before =
      sym (at_or-put o name false (not (has_text o elig)) m)
      ∙ mark_owners-own elig name os (put o (not (has_text o elig)) m) h t in
    elim (Bool-cases (text_eq o name)) [
      | inr other ↦ rw other at before
      | inl same ↦
          let eligible : has_text o elig ≡ true =
            ap (λ x. has_text x elig) ((text_eq_iff o name).0 same) ∙ h in
          cc (rw (same, eligible) at before)
    ]

module _ {F : Type 0} where
  act_all-Own :
      (l : List (Action F)) (s : Session F) (name : Text) (made : List (TaxiRow F))
      → is_orderly s.gate.done_producing l ≡ true
      → Own s name made
      → Own (act_all s l) name (made ++ own_rows l)
  unfolding act_all act
  act_all-Own [] s name made h v = rw (append-nil made) v
  act_all-Own (issue x ∷ l) s name made h v =
      let (w, same) = issue_pull-Own s name x _ made refl v in
      act_all-Own l (issue_pull s x (s.prefetchers x)) name made (ap (λ b. is_orderly b l) same ∙ h)
        w
  act_all-Own (miss x ∷ l) s name made h v =
      let (w, same) = missed-Own s name x _ made refl v in
      act_all-Own l (missed s x (s.prefetchers x)) name made (ap (λ b. is_orderly b l) same ∙ h) w
  act_all-Own (fail x ∷ l) s name made h v =
      let (w, same) = failed_pull-Own s name x _ made refl v in
      act_all-Own l (failed_pull s x (s.prefetchers x)) name made
        (ap (λ b. is_orderly b l) same ∙ h) w
  act_all-Own (answer x rows is_last ∷ l) s name made h v =
      let (w, same) = answered-Own s name x rows is_last _ made refl v in
      act_all-Own l (answered s x rows is_last (s.prefetchers x)) name made
        (ap (λ b. is_orderly b l) same ∙ h) w
  act_all-Own (fetch max_rows ∷ l) s name made h v =
      let (w, same) = fetched-Own s name max_rows made v in
      act_all-Own l (fetched s max_rows) name made (ap (λ b. is_orderly b l) same ∙ h) w
  act_all-Own (local_end ∷ l) s name made h v =
      act_all-Own l (record s { gate = record (s.gate) { done_producing = true } }) name made h
        (record {
          named = v.named;
          kept = v.kept;
          no_pulls = v.no_pulls;
          if_done = λ d. (refl, (v.if_done d).1);
        })
  act_all-Own (local_row row ∷ l) s name made h v =
      let running : s.gate.done_producing ≡ false = ground arith in
      rw (← append_assoc made (row ∷ []) (own_rows l)) (
        act_all-Own l (record s { gate = record (s.gate) { matched = s.gate.matched ++ row ∷ [] } })
          name (made ++ row ∷ []) (ground arith)
          (record {
            named = v.named;
            kept =
                sym (append_assoc (from_owner name s.delivered) s.gate.matched (row ∷ []))
                ∙ ap (λ l. l ++ row ∷ []) v.kept;
            no_pulls = v.no_pulls;
            if_done = λ d. cc (sym running ∙ (v.if_done d).0);
          }))

  forwards_failed-own :
      (g : Gateway F) (name : Text) (failed : List Text)
      → has_text name failed ≡ false
      → ((forwards_failed g failed).name ≡ g.name)
        × ((forwards_failed g failed).matched ≡ g.matched)
        × ((forwards_failed g failed).done_producing ≡ g.done_producing)
        × (at_or name false (forwards_failed g failed).client_producers_done
            ≡ at_or name false g.client_producers_done)
  unfolding forwards_failed forward_failed has_text
  forwards_failed-own g name [] h = (refl, refl, refl, refl)
  forwards_failed-own g name (o ∷ os) h =
      let other : text_eq o name ≡ false = ground arith in
      let (a, b, c, d) = forwards_failed-own (forward_failed g o) name os (ground arith) in
      (a, b, c, d ∙ at_or-put o name false true g.client_producers_done ∙ rw other refl)

  submitted-Own :
      (g : Gateway F) (elig failed : List Text)
      → g.matched ≡ []
      → g.client_producers_done ≡ []
      → has_text g.name elig ≡ true
      → has_text g.name failed ≡ false
      → Own (submitted g elig failed) g.name []
        × ((submitted g elig failed).gate.done_producing ≡ g.done_producing)
  unfolding submitted submit begin_prefetch at_or
  submitted-Own g elig failed none_yet none_done h n =
      let (named, rows, same, done) = forwards_failed-own (submit g elig) g.name failed n in
      let me : text_eq g.name (forwards_failed (submit g elig) failed).name ≡ true =
        (text_eq_iff g.name (forwards_failed (submit g elig) failed).name).1 (sym named) in
      (
        record {
          named = named;
          kept = rows ∙ none_yet;
          no_pulls = rw me refl;
          if_done = λ t.
              let never : false ≡ true =
                sym (ap (at_or g.name false) none_done)
                ∙ mark_owners-own elig g.name g.owners g.client_producers_done h (sym done ∙ t) in
              cc never;
        },
        same,
      )

  -- A query that a gateway that is itself an eligible owner has submitted, after any interleaving of its
  -- producer, which finds no row behind its end, its prefetchers' pulls and earlier `FetchChunk` calls, without a
  -- cancellation: if `FetchChunk` answers `is_last`, then with this chunk the client has got
  -- every row that the gateway's own producer found, in order and once, and the producer has ended.
  pub own_rows_delivered :
      (g : Gateway F) (elig failed : List Text) (l : List (Action F)) (max_rows : ℤ)
      → g.matched ≡ []
      → g.client_producers_done ≡ []
      → In g.name g.owners
      → has_text g.name elig ≡ true
      → has_text g.name failed ≡ false
      → is_orderly g.done_producing l ≡ true
      → (fetch_chunk (act_all (submitted g elig failed) l).gate max_rows).2 ≡ true
      → (from_owner g.name (
            (act_all (submitted g elig failed) l).delivered
            ++ (fetch_chunk (act_all (submitted g elig failed) l).gate max_rows).1)
          ≡ own_rows l)
        × ((fetch_chunk (act_all (submitted g elig failed) l).gate max_rows).0.done_producing
            ≡ true)
  unfolding at_or
  own_rows_delivered g elig failed l max_rows none_yet none_done i h n orderly t =
      let s = act_all (submitted g elig failed) l in
      let (v, same) = submitted-Own g elig failed none_yet none_done h n in
      let all =
        act_all-Own l (submitted g elig failed) g.name [] (ap (λ b. is_orderly b l) same ∙ orderly)
          v in
      let (w, _) = chunked-Own s g.name max_rows (own_rows l) all in
      let owners : (fetch_chunk s.gate max_rows).0.owners ≡ g.owners =
        ap (λ (x : Text × List Text). x.1)
          (fetch_chunk-identity s.gate max_rows
            ∙ act_all-identity (submitted g elig failed) l
            ∙ submitted-identity g elig failed) in
      let (ended_rows, none_left) =
        w.if_done (is_last-done s.gate max_rows g.name t (rw owners i)) in
      (
        sym (append-nil _)
            ∙ ap (λ rows. from_owner g.name (chunked s max_rows).delivered ++ rows) (sym none_left)
            ∙ w.kept,
        ended_rows,
      )
