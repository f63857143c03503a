-- ===== src/Examples/Owners.antt =====
-- An owner that serves a request to its end, and the same query once more (cpp/server/node.cpp).
use mini.Base.{
  ◌⊎◌, ◌≤◌, ◌≡◌, refl, Bool, true, false, pos, codes, List, [], ◌∷◌, ◌++◌, length, Option, none,
  some, Whole, whole_floats, text_eq, find, put, erase, at_or, ◌+ℤ◌,
}
use mini.Store.{TaxiRow, empty, fill, resolve_col, columns, is_valid, hit, read_val}
use mini.Store.Search.{
  compute_column_ranges, range_search, predicate_can_match, resolve_preds, scan_slices, scan_slice,
  row_match, ranges_from, minmax_col, minmax_threads, minmax_rows, combine, widen, is_proper,
  windows_meet,
}
use mini.Scheduler.FairScheduler
use mini.Scheduler.ChunkSizer.{decide, forget, make, choose as choose_size}
use mini.Node.Owner.{Owner, max_buffered, step, start, new_request}
use mathlib.Core.List.{Sublist}
use mini.Node.Owner.Steps.{ends}
use mini.Node.Owner.Calls.{
  Deed, forward, pull, size, collect, read, answer, drop, choose, look, start_pass, look_flag,
  fill as fill_one, finish_pass, perform_all, new_daemon,
}
use mini.Node.Owner.Calls.Pulls.{IsBound}
use mini.Node.Owner.Calls.Served.{
  after, asked, calls_serve_own, requests_in_order, requests_complete,
}
use mini.Node.Owner.Registry.Scheduled.{found}
use mini.Examples.Partition.{trips, short_trips, threads, slices, threads-Covers}
use mini.Examples.Serving.{part, request, sizer}

-- A pull by thread 0.
abbrev one_pull : List (Deed Whole)
one_pull = pull 0 (codes "r1") ∷ size 0 (pos 16) 0 ∷ collect 0 ∷ read 0 ∷ answer 0 ∷ []

-- Thread 1 still pulls when the request is dropped and comes again.
abbrev deeds : List (Deed Whole)
deeds =
    forward (codes "r1") short_trips
      ∷ choose
      ∷ look
      ∷ start_pass
      ∷ look_flag
      ∷ fill_one
      ∷ finish_pass
      ∷ one_pull
    ++ one_pull
    ++ pull 1 (codes "r1") ∷ drop 0 ∷ forward (codes "r1") short_trips ∷ []

abbrev sched : FairScheduler.FairScheduler
sched = FairScheduler.make (codes "round_robin")

abbrev or_else : {A : Type 0} → Option A → A → A
or_else none d = d
or_else (some s) d = s

or_else-found : {A : Type 0} (o : Option A) (d : A) → found o ≡ true → o ≡ some (or_else o d)
or_else-found none d h = cc
or_else-found (some s) d h = refl

-- The first request with that id.
abbrev served : Owner Whole
served = or_else ((after threads slices trips sched sizer deeds).objects 0) request

-- Everything that an owner computes.
owning : Bool
unfolding perform_all decide forget erase FairScheduler.make FairScheduler.add FairScheduler.remove
    FairScheduler.next step start new_request fill empty compute_column_ranges columns ranges_from
    minmax_col minmax_threads minmax_rows combine widen is_proper windows_meet predicate_can_match
    range_search resolve_preds resolve_col scan_slices scan_slice row_match is_valid hit read_val
    put find text_eq codes ◌+ℤ◌ at_or FairScheduler.add_to choose_size make
owning = true

there : found ((after threads slices trips sched sizer deeds).objects 0) ≡ true
unfolding owning
there = refl

served_first : (after threads slices trips sched sizer deeds).objects 0 ≡ some served
served_first = or_else-found _ request there

served_cancelled : served.req.cancelled ≡ false
unfolding owning
served_cancelled = refl

served_ends : ends served.sent ≡ true
unfolding owning
served_ends = refl

requests_complete_example : served.taken ≡ asked threads slices trips served
requests_complete_example =
    requests_complete threads slices trips sched sizer deeds 0 served refl threads-Covers refl
      served_first served_cancelled served_ends

requests_in_order_example :
    (length served.req.matched ≤ max_buffered)
    × Sublist served.taken (asked threads slices trips served)
    × ((served.req.cancelled ≡ true)
        ⊎ ((rest : List (TaxiRow Whole)) × ((served.taken ++ served.req.matched) ++ rest
              ≡ asked threads slices trips served)))
requests_in_order_example =
    requests_in_order threads slices trips sched sizer deeds 0 served refl threads-Covers refl
      served_first

calls_serve_own_example :
    IsBound
      (perform_all slices part (new_daemon slices part sched sizer) deeds).objects
      ((perform_all slices part (new_daemon slices part sched sizer) deeds).threads 1)
calls_serve_own_example = calls_serve_own slices part sched sizer deeds 1
