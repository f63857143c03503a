-- ===== src/Examples/Serving.antt =====
-- A request served by its owner, and a chunk drained at the gateway (cpp/server/node.cpp).
use mini.Base.{
  All, ◌⊎◌, arith, ℕ, ◌≤◌, ◌≡◌, refl, inl, inr, Bool, true, false, pos, codes, List, [], ◌∷◌, ◌++◌,
  map, take, length, Whole, whole_floats, text_eq, Text, some, find, put, at_or, ◌+ℤ◌,
}
use mini.Store.{PartitionStore, empty, fill, resolve_col, columns, is_valid, hit, read_val}
use mini.Store.Search.{
  compute_column_ranges, range_search, predicate_can_match, resolve_preds, scan_slices, scan_slice,
  row_match, ranges_from, minmax_col, minmax_threads, minmax_rows, combine, widen, is_proper,
  windows_meet,
}
use mini.Node.Owner.{
  Owner, Event, begin, test, push, finish, take_rows, read_done, send, run, step, start,
  new_request, max_buffered,
}
use mini.Node.Owner.Steps.{ends}
use mini.Node.Owner.Delivery.{
  loaded, wanted, registered, is_last_complete, delivery_in_order, buffer-le,
}
use mini.Node.Gateway.{Gateway, fetch_chunk}
use mini.Routing.Hash.{has_text}
use mini.Node.Gateway.Conserve.{fetch_chunk-conserves, from_owner, waiting}
use mini.Node.Gateway.Full.{fetch_chunk-fills}
use mini.Node.Gateway.Prefetch.{
  Session, Action, ended, issue, miss, answer, local_row, local_end, fetch, submitted, act, act_all,
}
use mini.Node.Gateway.Complete.{is_last_delivers_all}
use mini.Node.Gateway.Join.{stop_prefetchers, stop_joins}
use mini.Node.Gateway.Own.Delivers.{own_rows_delivered}
use mini.Scheduler.ChunkSizer.{ChunkSizer, make}
use mini.Scheduler.FairScheduler
use mini.Scheduler.FairScheduler.Safety.{rids}
use mini.Node.Owner.Registry.{Registry, get_request}
use mini.Node.Owner.Registry.Scheduled.{
  Job, register, drop, turn, perform_all, found, registered_iff_scheduled,
}
use mini.Telemetry.{comma, escape, add_string}
use mini.Telemetry.Reader.{read_member, read_member-add_string}
use mini.Examples.Partition.{trips, short_trips, threads, slices, threads-Covers}

-- The producer and one pull after the other.
abbrev pub events : List Event
events =
    begin
    ∷ test
    ∷ push
    ∷ take_rows 0 (pos 16)
    ∷ finish
    ∷ read_done 0
    ∷ send 0
    ∷ take_rows 0 (pos 16)
    ∷ read_done 0
    ∷ send 0
    ∷ []

abbrev pub part : PartitionStore Whole
part = loaded threads slices trips (codes "r1") short_trips (pos 1)

abbrev pub request : Owner Whole
request = registered threads slices trips (codes "r1") short_trips (pos 1)

abbrev pub rows_wanted : List ℕ
rows_wanted = wanted threads slices trips (codes "r1") short_trips (pos 1)

-- Everything that a run computes.
running : Bool
unfolding run step start new_request fill empty compute_column_ranges columns ranges_from minmax_col
    minmax_threads minmax_rows combine widen is_proper windows_meet predicate_can_match range_search
    resolve_preds resolve_col scan_slices scan_slice row_match is_valid hit read_val put find
    text_eq codes ◌+ℤ◌
running = true

not_cancelled : (run part request events).req.cancelled ≡ false
unfolding running
not_cancelled = refl

last_sent : ends (run part request events).sent ≡ true
unfolding running
last_sent = refl

is_last_complete_example : (run part request events).taken ≡ map (fill part) rows_wanted
is_last_complete_example =
    is_last_complete threads slices trips (codes "r1") short_trips (pos 1) events refl
      threads-Covers refl not_cancelled last_sent

delivery_in_order_test :
    (n : ℕ) × ((run part request events).taken ++ (run part request events).req.matched
      ≡ map (fill part) (take n rows_wanted))
delivery_in_order_test =
    delivery_in_order threads slices trips (codes "r1") short_trips (pos 1) events refl
      threads-Covers refl not_cancelled

buffer-le_test : length (run part request events).req.matched ≤ max_buffered
buffer-le_test =
    buffer-le threads slices trips (codes "r1") short_trips (pos 1) events refl threads-Covers refl

abbrev pub gate : Gateway Whole
gate = record {
  name = codes "A";
  owners = codes "A" ∷ codes "B" ∷ [];
  matched = fill trips 0 ∷ [];
  done_producing = true;
  cancelled = false;
  prefetch_stop = false;
  client_last_seq = pos 0;
  total_matched = 0;
  client_producers_done = [];
  client_per_owner_rows = [];
  owners_responded = [];
  eligible_owners = 2;
  prefetch_buf = (codes "B", fill trips 1 ∷ fill trips 0 ∷ []) ∷ [];
  prefetch_done_map = [];
}

fetch_chunk-conserves_example :
    (length (fetch_chunk gate (pos 2)).1 ≤ 2)
    × (from_owner (codes "B") (fetch_chunk gate (pos 2)).1
          ++ waiting (fetch_chunk gate (pos 2)).0 (codes "B")
        ≡ fill trips 1 ∷ fill trips 0 ∷ [])
unfolding at_or text_eq codes
fetch_chunk-conserves_example = fetch_chunk-conserves gate (pos 2) (codes "B")

abbrev pub new_gate : Gateway Whole
new_gate = record gate { matched = []; prefetch_buf = [] }

-- A pull that misses its deadline and one that brings the only row, after a row of the gateway's own.
abbrev actions : List (Action Whole)
actions =
    local_row (fill trips 0)
    ∷ issue (codes "B")
    ∷ local_end
    ∷ fetch (pos 4)
    ∷ miss (codes "B")
    ∷ issue (codes "B")
    ∷ answer (codes "B") (fill trips 1 ∷ []) true
    ∷ []

abbrev session : Session Whole
session = act_all (submitted new_gate (codes "A" ∷ codes "B" ∷ []) []) actions

is_last_delivers_all_example :
    (from_owner (codes "B") (session.delivered ++ (fetch_chunk session.gate (pos 4)).1)
      ≡ from_owner (codes "B") session.received)
    × (session.prefetchers (codes "B") ≡ ended)
unfolding submitted act_all fetch_chunk at_or put text_eq codes act has_text
is_last_delivers_all_example =
    is_last_delivers_all new_gate (codes "A" ∷ codes "B" ∷ []) [] actions (pos 4) (codes "B") refl
      refl (inr (inl refl)) refl refl

-- The producer has yet to end.
abbrev searching : Gateway Whole
searching = record new_gate { done_producing = false }

abbrev searched : Session Whole
searched = act_all (submitted searching (codes "A" ∷ codes "B" ∷ []) []) actions

all_sent : (fetch_chunk searched.gate (pos 4)).2 ≡ true
unfolding submitted act_all fetch_chunk at_or put text_eq codes act has_text
all_sent = refl

own_rows_delivered_example :
    (from_owner (codes "A") (searched.delivered ++ (fetch_chunk searched.gate (pos 4)).1)
      ≡ fill trips 0 ∷ [])
    × ((fetch_chunk searched.gate (pos 4)).0.done_producing ≡ true)
unfolding has_text text_eq codes
own_rows_delivered_example =
    own_rows_delivered searching (codes "A" ∷ codes "B" ∷ []) [] actions (pos 4) refl refl
      (inl refl) refl refl refl all_sent

-- A pull is under way when the flag is set.
abbrev pulling : Session Whole
pulling = act_all (submitted new_gate (codes "A" ∷ codes "B" ∷ []) []) (issue (codes "B") ∷ [])

abbrev last_actions : List (Action Whole)
last_actions = fetch (pos 4) ∷ answer (codes "B") (fill trips 1 ∷ []) false ∷ issue (codes "B") ∷ []

stop_joins_example :
    (act_all (stop_prefetchers pulling) last_actions).prefetchers (codes "B") ≡ ended
unfolding text_eq codes
stop_joins_example = stop_joins pulling (codes "B") last_actions refl

abbrev jobs : List (Job Whole)
jobs =
    register (codes "r1") short_trips (pos 1)
    ∷ register (codes "r2") short_trips (pos 2)
    ∷ turn
    ∷ register (codes "r1") short_trips (pos 3)
    ∷ drop (codes "r1")
    ∷ turn
    ∷ []

abbrev pub sizer : ChunkSizer
sizer = make (pos 64) (pos 16) (pos 4096) (pos 25)

registered_iff_scheduled_example :
    (t : Registry Whole) × (perform_all slices trips
        (record {
          requests = [];
          sched = FairScheduler.make (codes "weighted_round_robin");
          sizer = sizer;
        })
        jobs
      ≡ some t)
    × ((rid : Text) → found (get_request t rid) ≡ has_text rid (rids t.sched.q))
registered_iff_scheduled_example =
    registered_iff_scheduled slices trips (codes "weighted_round_robin") sizer jobs

read_member-add_string_example :
    read_member (add_string [] (codes "k") (34 ∷ 10 ∷ 92 ∷ []) ++ comma ∷ [])
    ≡ some (codes "k", 34 ∷ 10 ∷ 92 ∷ [], comma ∷ [])
unfolding codes escape
read_member-add_string_example =
    read_member-add_string (codes "k") (34 ∷ 10 ∷ 92 ∷ []) (comma ∷ []) (inr (omega arith), tt) refl
      (inr (omega arith), (inl refl, (inr (omega arith), tt)))

fetch_chunk-fills_example :
    (length (fetch_chunk gate (pos 2)).1 ≡ 2)
    ⊎ All (λ o. waiting (fetch_chunk gate (pos 2)).0 o ≡ []) gate.owners
fetch_chunk-fills_example = fetch_chunk-fills gate (pos 2)
