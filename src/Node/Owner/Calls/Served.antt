-- ===== src/Node/Owner/Calls/Served.antt =====
-- What an owner's calls do for every request (cpp/server/node.cpp), whatever the other requests do.
use mini.Base.{
  Bool-cases, ◌⊎◌, inl, inr, ℕ, ◌≤◌, ◌≡◌, sym, ap, ◌∙◌, true, false, Text, List, [], ◌++◌, map,
  length, some, Floats, pos,
}
use mini.Store.{PartitionStore, Query, TaxiRow, fill}
use mini.Store.Search.{compute_column_ranges}
use mini.Store.Scan.{sum}
use mini.Store.Ranges.{Covers}
use mini.Scheduler.FairScheduler.{FairScheduler}
use mini.Scheduler.ChunkSizer.{ChunkSizer}
use mini.Node.Owner.{Owner, Event, new_request, start, run, max_buffered}
use mathlib.Core.List.{Sublist}
use mini.Node.Owner.Steps.{ends}
use mini.Node.Owner.Delivery.{
  wanted, registered, buffer-le, taken_in_order, taken_first, is_last_complete,
}
use mini.Node.Owner.Calls.{Daemon, Deed, new_daemon, perform_all}
use mini.Node.Owner.Calls.Objects.{identity, run-identity}
use mini.Node.Owner.Calls.Bound.{new_daemon-Sound, perform_all-Sound}
use mini.Node.Owner.Calls.Pulls.{IsBound}

-- At an owner that starts without requests, over any history of calls and turns of the producer,
-- interleaved in any order: a `PullChunk` or `CancelQuery` under way works on a request with the id that
-- it asked for, also when the request has been dropped, or dropped and registered anew, in the meantime.
pub calls_serve_own :
    {F : Type 0} ⦃fl : Floats F⦄ (slices : List ℕ) (part : PartitionStore F) (sched : FairScheduler)
    (sizer : ChunkSizer) (es : List (Deed F)) (j : ℕ)
    → IsBound
        (perform_all slices part (new_daemon slices part sched sizer) es).objects
        ((perform_all slices part (new_daemon slices part sched sizer) es).threads j)
calls_serve_own slices part sched sizer es =
    (perform_all-Sound slices part (new_daemon slices part sched sizer) es
      (new_daemon-Sound slices part sched sizer)).bound

module _ {F : Type 0} ⦃fl : Floats F⦄ (threads : List (List ℕ)) (slices : List ℕ)
    (raw : PartitionStore F) where
  abbrev pub after : FairScheduler → ChunkSizer → List (Deed F) → Daemon F
  after sched sizer es =
      let part = compute_column_ranges threads raw in
      perform_all slices part (new_daemon slices part sched sizer) es

  -- The rows that a request is for.
  abbrev pub asked : Owner F → List (TaxiRow F)
  asked s =
      map (fill (compute_column_ranges threads raw))
        (wanted threads slices raw s.req.request_id s.req.query (pos 1))

  served-run :
      (sched : FairScheduler) (sizer : ChunkSizer) (es : List (Deed F)) (a : ℕ) (s : Owner F)
      → (after sched sizer es).objects a ≡ some s
      → (steps : List Event) × (s
          ≡ run
              (compute_column_ranges threads raw)
              (registered threads slices raw s.req.request_id s.req.query (pos 1))
              steps)
  unfolding start new_request
  served-run sched sizer es a s found =
      let part = compute_column_ranges threads raw in
      let v =
        perform_all-Sound slices part (new_daemon slices part sched sizer) es
          (new_daemon-Sound slices part sched sizer) in
      let (rid, q, steps, same) = v.heap.ran a s found in
      let ids : identity s ≡ (rid, q) = ap identity same ∙ run-identity part _ steps in
      (
        steps,
        same
            ∙ ap
                (λ (i : Text × Query F).
                  run part (start (new_request slices part i.0 i.1 (pos 1))) steps)
                (sym ids),
      )

  -- At an owner that has loaded its partition, over any history of calls and turns of the producer, interleaved in
  -- any order and over any number of requests, cancelled and dropped ones included: each request buffers at
  -- most `max_buffered` rows; pulls have taken rows that match its query, in the partition's order and each
  -- once; and if it is not cancelled, the rows taken and then those that wait are the first of the
  -- matching rows, none left out.
  pub requests_in_order :
      (sched : FairScheduler) (sizer : ChunkSizer) (es : List (Deed F)) (a : ℕ) (s : Owner F)
      → raw.column_ranges ≡ []
      → Covers threads (length raw.valid)
      → sum slices ≡ length raw.valid
      → (after sched sizer es).objects a ≡ some s
      → (length s.req.matched ≤ max_buffered)
        × Sublist s.taken (asked s)
        × ((s.req.cancelled ≡ true)
            ⊎ ((rest : List (TaxiRow F)) × ((s.taken ++ s.req.matched) ++ rest ≡ asked s)))
  requests_in_order sched sizer es a s new cover total found =
      let (steps, same) = served-run sched sizer es a s found in
      let rid = s.req.request_id in
      let q = s.req.query in
      (
        rw (← same) at (buffer-le threads slices raw rid q (pos 1) steps new cover total),
        rw (← same) at (taken_in_order threads slices raw rid q (pos 1) steps new cover total),
        elim (Bool-cases s.req.cancelled) [
          | inl c ↦ inl c
          | inr c ↦
              let (rest, first) =
                taken_first threads slices raw rid q (pos 1) steps new cover total
                  (ap (λ (t : Owner F). t.req.cancelled) (sym same) ∙ c) in
              inr (rest, ap (λ (t : Owner F). (t.taken ++ t.req.matched) ++ rest) same ∙ first)
        ],
      )

  -- At an owner that has loaded its partition, over any history of calls and turns of the producer, interleaved in
  -- any order: once a pull for a request that is not cancelled has answered with `is_last`, pulls have
  -- taken exactly the rows of the partition that match the request's query, in order and once.
  pub requests_complete :
      (sched : FairScheduler) (sizer : ChunkSizer) (es : List (Deed F)) (a : ℕ) (s : Owner F)
      → raw.column_ranges ≡ []
      → Covers threads (length raw.valid)
      → sum slices ≡ length raw.valid
      → (after sched sizer es).objects a ≡ some s
      → s.req.cancelled ≡ false
      → ends s.sent ≡ true
      → s.taken ≡ asked s
  requests_complete sched sizer es a s new cover total found c e =
      let (steps, same) = served-run sched sizer es a s found in
      ap (λ (t : Owner F). t.taken) same
      ∙ is_last_complete threads slices raw s.req.request_id s.req.query (pos 1) steps new cover
          total (ap (λ (t : Owner F). t.req.cancelled) (sym same) ∙ c)
          (ap (λ (t : Owner F). ends t.sent) (sym same) ∙ e)
