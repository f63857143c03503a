-- ===== src/Node/Gateway/Prefetch.antt =====
-- A query at the gateway from its submission on (cpp/server/node.cpp): the prefetcher threads of
-- `SubmitQuery`, one per eligible remote owner, the local producer and the client's `FetchChunk`
-- calls. Each holds the request's lock for one of the steps below; they interleave in any order.
use mini.Base.{
  Bool, true, false, not, ◌||◌, if◌then◌else◌, ℤ, Text, text_eq, at_or, is_empty, List, [], ◌∷◌,
  ◌++◌, map,
}
use mini.Store.{TaxiRow}
use mini.Routing.Hash.{has_text}
use mini.Node.Gateway.{
  Gateway, submit, forward_failed, can_answer, fetch_chunk, may_pull, prefetched, prefetch_failed,
}

-- Where the prefetcher of an owner is: at its wait, in its pull, or returned (or never started).
pub data Prefetcher : Type 0 where
  waits flies ended : Prefetcher

-- The request with its prefetchers. `received` is the history of the rows that pulls brought, with
-- their owners, and `delivered` that of the rows that the client got.
pub record Session (F : Type 0) : Type 0 where
  pub gate : Gateway F
  pub prefetchers : Text → Prefetcher
  pub received : List (Text × TaxiRow F)
  pub delivered : List (Text × TaxiRow F)

pub data Action (F : Type 0) : Type 0 where
  issue miss fail : Text → Action F
  answer : Text → List (TaxiRow F) → Bool → Action F
  local_row : TaxiRow F → Action F
  local_end : Action F
  fetch : ℤ → Action F

module _ {F : Type 0} where
  unfoldable pub forwards_failed : Gateway F → List Text → Gateway F
  unfolding forward_failed
  forwards_failed g [] = g
  forwards_failed g (o ∷ os) = forwards_failed (forward_failed g o) os

  -- The threads that `SubmitQuery` starts.
  unfoldable pub begin_prefetch : Gateway F → List Text → Text → Prefetcher
  begin_prefetch g elig o =
      if text_eq o g.name || not (has_text o elig) || at_or o false g.client_producers_done
      then ended
      else waits

  -- `SubmitQuery` with its eligible owners, of which those in `failed` could not be reached.
  unfoldable pub submitted : Gateway F → List Text → List Text → Session F
  unfolding submit forwards_failed begin_prefetch
  submitted g elig failed =
      let g' = forwards_failed (submit g elig) failed in
      record { gate = g'; prefetchers = begin_prefetch g' elig; received = []; delivered = [] }

  abbrev pub move : Session F → Text → Prefetcher → Session F
  move s o p = record s { prefetchers = λ x. if text_eq x o then p else s.prefetchers x }

  -- The wait of a prefetcher: on to a pull, to its end, or no change.
  unfoldable pub issue_pull : Session F → Text → Prefetcher → Session F
  unfolding may_pull
  issue_pull s o waits =
      if may_pull s.gate o
      then move s o flies
      else if s.gate.prefetch_stop || s.gate.cancelled || is_empty (at_or o [] s.gate.prefetch_buf)
      then move s o ended
      else s
  issue_pull s o p = s

  -- A pull that missed its deadline is issued again.
  unfoldable pub missed : Session F → Text → Prefetcher → Session F
  missed s o flies = move s o waits
  missed s o p = s

  unfoldable pub failed_pull : Session F → Text → Prefetcher → Session F
  unfolding prefetch_failed
  failed_pull s o flies = move (record s { gate = prefetch_failed s.gate o }) o ended
  failed_pull s o p = s

  unfoldable pub answered : Session F → Text → List (TaxiRow F) → Bool → Prefetcher → Session F
  unfolding prefetched
  answered s o rows is_last flies =
      move
        (record s {
          gate = prefetched s.gate o rows is_last;
          received = s.received ++ map (λ row. (o, row)) rows;
        })
        o (if is_last then ended else waits)
  answered s o rows is_last p = s

  -- A `FetchChunk` whose wait is over.
  unfoldable pub fetched : Session F → ℤ → Session F
  unfolding fetch_chunk can_answer
  fetched s max_rows =
      if can_answer s.gate
      then record s {
        gate = (fetch_chunk s.gate max_rows).0;
        delivered = s.delivered ++ (fetch_chunk s.gate max_rows).1;
      }
      else s

  unfoldable pub act : Session F → Action F → Session F
  unfolding issue_pull missed failed_pull answered fetched
  act s (issue o) = issue_pull s o (s.prefetchers o)
  act s (miss o) = missed s o (s.prefetchers o)
  act s (fail o) = failed_pull s o (s.prefetchers o)
  act s (answer o rows is_last) = answered s o rows is_last (s.prefetchers o)
  act s (local_row row) = record s {
    gate = record (s.gate) { matched = s.gate.matched ++ row ∷ [] };
  }
  act s local_end = record s { gate = record (s.gate) { done_producing = true } }
  act s (fetch max_rows) = fetched s max_rows

  unfoldable pub act_all : Session F → List (Action F) → Session F
  act_all s [] = s
  act_all s (a ∷ rest) = act_all (act s a) rest
