-- ===== src/Node/Gateway/Complete.antt =====
-- `FetchChunk` answers `is_last` only when every row that a pull brought has gone to the client.
use mini.Base.{
  ◌≡◌, refl, ap, ap₂, ◌∙◌, arith, true, false, ◌||◌, if_cases, ℤ, pos, pos_part, ◌+ℤ◌, Text,
  text_eq, at_or, is_empty, List, [], ◌∷◌, ◌++◌, In,
}
use mini.Node.Gateway.{
  can_answer, may_pull, Gateway, Drain, promote_done, fetch_chunk, submit, forward_failed,
}
use mini.Node.Gateway.Conserve.{from_owner, drain-Moves}
use mini.Node.Gateway.Prefetch.{
  Prefetcher, waits, flies, ended, Session, Action, issue, miss, fail, answer, local_row, local_end,
  fetch, forwards_failed, begin_prefetch, submitted, issue_pull, missed, failed_pull, answered,
  fetched, act, act_all,
}
use mini.Node.Gateway.Fits.{Fits-complete}
use mini.Node.Gateway.Keeps.{
  Keeps, issue_pull-Keeps, missed-Keeps, failed_pull-Keeps, answered-Keeps,
}
use mini.Node.Gateway.Drained.{chunked, chunked-Keeps, fetched-Keeps, is_last-done}

module _ {F : Type 0} where
  -- The gateway's name and the data owners.
  abbrev pub identity : Gateway F → Text × List Text
  identity g = (g.name, g.owners)

  pub fetch_chunk-identity :
      (g : Gateway F) (max_rows : ℤ) → identity (fetch_chunk g max_rows).0 ≡ identity g
  unfolding fetch_chunk promote_done
  fetch_chunk-identity g max_rows =
      let start : Gateway F = record g { client_last_seq = g.client_last_seq +ℤ pos 1 } in
      let d0 : Drain F = record { gate = start; out = []; room = pos_part max_rows } in
      let moved = drain-Moves (pos_part max_rows) d0 in
      ap₂ (λ n os. (n, os)) moved.same_name moved.same_owners

  issue_pull-identity :
      (s : Session F) (o : Text) (p : Prefetcher)
      → identity (issue_pull s o p).gate ≡ identity s.gate
  unfolding issue_pull
  issue_pull-identity s o waits =
      if_cases (λ (t : Session F). identity t.gate ≡ identity s.gate) (may_pull s.gate o)
        (λ _. refl)
        λ _.
          if_cases (λ (t : Session F). identity t.gate ≡ identity s.gate)
            (s.gate.prefetch_stop || s.gate.cancelled || is_empty (at_or o [] s.gate.prefetch_buf))
            (λ _. refl) (λ _. refl)
  issue_pull-identity s o flies = refl
  issue_pull-identity s o ended = refl

  act-identity : (s : Session F) (a : Action F) → identity (act s a).gate ≡ identity s.gate
  unfolding act missed failed_pull answered fetched
  act-identity s (issue o) = issue_pull-identity s o (s.prefetchers o)
  act-identity s (miss o) =
      elim (s.prefetchers o) as (λ p. identity (missed s o p).gate ≡ identity s.gate) [
        | waits ↦ refl
        | flies ↦ refl
        | ended ↦ refl
      ]
  act-identity s (fail o) =
      elim (s.prefetchers o) as (λ p. identity (failed_pull s o p).gate ≡ identity s.gate) [
        | waits ↦ refl
        | flies ↦ refl
        | ended ↦ refl
      ]
  act-identity s (answer o rows is_last) =
      elim (s.prefetchers o)
        as (λ p. identity (answered s o rows is_last p).gate ≡ identity s.gate) [
          | waits ↦ refl
          | flies ↦ refl
          | ended ↦ refl
        ]
  act-identity s (local_row row) = refl
  act-identity s local_end = refl
  act-identity s (fetch max_rows) =
      if_cases (λ (t : Session F). identity t.gate ≡ identity s.gate) (can_answer s.gate)
        (λ _. fetch_chunk-identity s.gate max_rows) (λ _. refl)

  act-Keeps :
      (s : Session F) (o : Text) (a : Action F)
      → text_eq o s.gate.name ≡ false
      → Keeps o s
      → Keeps o (act s a)
  unfolding act
  act-Keeps s o (issue x) n h = issue_pull-Keeps s o x _ refl h
  act-Keeps s o (miss x) n h = missed-Keeps s o x _ refl h
  act-Keeps s o (fail x) n h = failed_pull-Keeps s o x _ refl h
  act-Keeps s o (answer x rows is_last) n h = answered-Keeps s o x rows is_last _ refl h
  act-Keeps s o (local_row row) n h = h
  act-Keeps s o local_end n h = h
  act-Keeps s o (fetch max_rows) n h = fetched-Keeps s o max_rows n h

  pub act_all-identity :
      (s : Session F) (l : List (Action F)) → identity (act_all s l).gate ≡ identity s.gate
  unfolding act_all
  act_all-identity s [] = refl
  act_all-identity s (a ∷ l) = act_all-identity (act s a) l ∙ act-identity s a

  act_all-Keeps :
      (s : Session F) (o : Text) (l : List (Action F))
      → text_eq o s.gate.name ≡ false
      → Keeps o s
      → Keeps o (act_all s l)
  unfolding act_all
  act_all-Keeps s o [] n h = h
  act_all-Keeps s o (a ∷ l) n h =
      act_all-Keeps (act s a) o l
        (ap (λ (i : Text × List Text). text_eq o i.0) (act-identity s a) ∙ n) (act-Keeps s o a n h)

  forwards_failed-same :
      (g : Gateway F) (failed : List Text)
      → (identity (forwards_failed g failed) ≡ identity g)
        × ((forwards_failed g failed).prefetch_buf ≡ g.prefetch_buf)
        × ((forwards_failed g failed).prefetch_done_map ≡ g.prefetch_done_map)
  unfolding forwards_failed forward_failed
  forwards_failed-same g [] = (refl, refl, refl)
  forwards_failed-same g (o ∷ os) = forwards_failed-same (forward_failed g o) os

  submitted-Keeps :
      (g : Gateway F) (elig failed : List Text) (o : Text)
      → g.prefetch_buf ≡ []
      → g.prefetch_done_map ≡ []
      → Keeps o (submitted g elig failed)
  unfolding submitted submit begin_prefetch at_or
  submitted-Keeps g elig failed o b e =
      let same = forwards_failed-same (submit g elig) failed in
      rw (same.1, same.2, b, e)
        (record {
          kept = refl;
          in_flight = λ t. refl;
          if_over = λ t. cc;
          if_done = λ t. (ground arith, refl);
        })

  pub submitted-identity :
      (g : Gateway F) (elig failed : List Text)
      → identity (submitted g elig failed).gate ≡ identity g
  unfolding submitted submit
  submitted-identity g elig failed = (forwards_failed-same (submit g elig) failed).0

  -- A query that a gateway with nothing buffered has submitted, after any interleaving of its
  -- prefetchers' pulls, which may miss deadlines and fail, its producer and earlier `FetchChunk` calls,
  -- without a cancellation: if `FetchChunk` answers `is_last`, then with this chunk the client has got
  -- every row that a pull from a remote data owner brought, in the order in which they came and each
  -- once, and the owner's prefetcher has ended, so no more will come.
  pub is_last_delivers_all :
      (g : Gateway F) (elig failed : List Text) (l : List (Action F)) (max_rows : ℤ) (o : Text)
      → g.prefetch_buf ≡ []
      → g.prefetch_done_map ≡ []
      → In o g.owners
      → text_eq o g.name ≡ false
      → (fetch_chunk (act_all (submitted g elig failed) l).gate max_rows).2 ≡ true
      → (from_owner o (
            (act_all (submitted g elig failed) l).delivered
            ++ (fetch_chunk (act_all (submitted g elig failed) l).gate max_rows).1)
          ≡ from_owner o (act_all (submitted g elig failed) l).received)
        × ((act_all (submitted g elig failed) l).prefetchers o ≡ ended)
  is_last_delivers_all g elig failed l max_rows o b e i n t =
      let s = act_all (submitted g elig failed) l in
      let same : identity s.gate ≡ identity g =
        act_all-identity (submitted g elig failed) l ∙ submitted-identity g elig failed in
      let remote : text_eq o s.gate.name ≡ false =
        ap (λ (j : Text × List Text). text_eq o j.0) same ∙ n in
      let h : Keeps o (chunked s max_rows) = chunked-Keeps s o max_rows remote (
        act_all-Keeps (submitted g elig failed) o l
          (ap (λ (j : Text × List Text). text_eq o j.0) (submitted-identity g elig failed) ∙ n)
          (submitted-Keeps g elig failed o b e)) in
      let named : (chunked s max_rows).gate.owners ≡ g.owners =
        ap (λ (j : Text × List Text). j.1) (fetch_chunk-identity s.gate max_rows ∙ same) in
      Fits-complete h (is_last-done s.gate max_rows o t (rw named i))
