-- ===== src/Examples/Calls.antt =====
-- Whole calls at a gateway, and the feed behind an owner's request (cpp/server/node.cpp).
use mini.Base.{
  ◌↔◌, ℕ, zero, suc, ◌≡◌, refl, Bool, true, false, not, ◌&&◌, ◌||◌, pos, Text, codes, find, put,
  at_or, has, text_eq, if◌then◌else◌, ltb, List, [], ◌∷◌, ◌++◌, map, keep, some, Option, none,
  Whole, whole_floats,
}
use mini.Store.{fill}
use mini.Overlay.{Overlay, next_hop, has_node}
use mini.Routing.{OwnerMetadata, eligible_owners}
use mini.Routing.Hash.{has_text}
use mini.Routing.Manifest.{no_metadata}
use mini.Scheduler.ChunkSizer.{decide}
use mini.Scheduler.FairScheduler
use mini.Node.Relay.{accept}
use mini.Node.Gateway.{Gateway, fetch_chunk, can_answer, submit}
use mini.Node.Owner.{Event, begin, test, push, cancel, take_rows, run}
use mini.Node.Owner.Feed.{Moves, fresh}
use mini.Node.Owner.Refines.{feed_of}
use mini.Node.Owner.Delivery.{run_refines_feed}
use mini.Node.Handlers.{
  Server, Attempt, served, transient, refused, ok, not_found, Chunk, Call, fetch, cancellation,
  serve_all, serve_chunk, submit_query, register, fan_out, deliver, is_delivered, drop_request,
}
use mini.Node.Handlers.Tables.{request}
use mini.Node.Handlers.Ended.{last_chunk_ends}
use mini.Node.Handlers.Reached.{IsReached}
use mini.Node.Handlers.Submits.{chosen, submit_query-accounts}
use mini.Examples.Partition.{trips, short_trips, threads, slices, threads-Covers}
use mini.Examples.Routes.{chain, node, tm_mon}
use mini.Examples.Serving.{gate, sizer, part, rows_wanted}

-- A pull, a cancellation between the look at the flag and the push, and a pull behind them.
abbrev events : List Event
events =
    begin ∷ test ∷ push ∷ take_rows 0 (pos 16) ∷ test ∷ cancel ∷ push ∷ take_rows 1 (pos 16) ∷ []

run_refines_feed_example :
    Moves
      (fresh (map (fill part) rows_wanted))
      (feed_of part (run part (mini.Examples.Serving.request) events))
run_refines_feed_example =
    run_refines_feed threads slices trips (codes "r1") short_trips (pos 1) events refl
      threads-Covers refl

abbrev star : Overlay
star = record chain {
  routing = (codes "A", (codes "B", codes "B") ∷ (codes "C", codes "B") ∷ []) ∷ [];
  data_owners = codes "A" ∷ codes "B" ∷ codes "C" ∷ [];
}

abbrev server : Server Whole
server = record {
  name = codes "A";
  overlay = star;
  me = record ((node (codes "A")).1) { role = codes "gateway" };
  meta = no_metadata;
  part = trips;
  requests = [];
  sched = FairScheduler.make (codes "weighted_round_robin");
  sizer = sizer;
}

-- B answers at the third attempt, and C refuses.
abbrev outcome : Text → ℕ → Attempt
outcome name i =
    if text_eq name (codes "B") then (if ltb i 2 then transient else served) else refused

-- Only B gets a prefetcher, and C counts as done.
submitted_parts :
    (has_text (codes "C") server.overlay.data_owners ≡ true)
    × ((submit_query slices tm_mon outcome server short_trips).1 ≡ ok (accept (codes "r1")))
unfolding has_text text_eq codes submit_query register find submit fan_out eligible_owners next_hop
    has_node has mini.Routing.empty
submitted_parts = (refl, refl)

submit_query-accounts_example :
    (reached : Text → Bool) × ((x : Text) → (reached x ≡ true) ↔ IsReached (outcome x))
    × (st : Gateway Whole) × (request
          (codes "r1")
          (submit_query slices tm_mon outcome server short_trips).0
        ≡ some st)
    × (at_or (codes "C") false st.client_producers_done
        ≡ not (
            has_text (codes "C") (chosen slices tm_mon outcome server short_trips)
            && (text_eq (codes "C") (codes "A") || reached (codes "C"))))
    × ((submit_query slices tm_mon outcome server short_trips).2
        ≡ keep
            (λ x. not (text_eq x (codes "A")) && reached x)
            (chosen slices tm_mon outcome server short_trips))
unfolding text_eq codes find
submit_query-accounts_example =
    submit_query-accounts slices tm_mon outcome server short_trips (codes "C") refl refl refl
      submitted_parts.1 submitted_parts.0

started_B :
    keep
      (λ x. not (text_eq x (codes "A")) && is_delivered (outcome x))
      (chosen slices tm_mon outcome server short_trips)
    ≡ codes "B" ∷ []
unfolding text_eq codes eligible_owners mini.Routing.empty deliver
started_B = refl

-- A request whose last row waits at the gateway.
abbrev last_gate : Gateway Whole
last_gate = record gate { prefetch_buf = []; client_producers_done = (codes "B", true) ∷ [] }

abbrev serving : Server Whole
serving = record server { requests = (codes "r1", last_gate) ∷ [] }

abbrev behind : Server Whole
behind =
    drop_request
      (record serving {
        sizer = (decide sizer (codes "r1") (pos 16) 0).0;
        requests = (codes "r1", (fetch_chunk last_gate (pos 16)).0) ∷ [];
      })
      (codes "r1")

abbrev last_chunk : Chunk Whole
last_chunk = record {
  request_id = codes "r1";
  seq = pos 1;
  rows = fill trips 0 ∷ [];
  is_last = true;
  backlog = 1;
  producer = codes "A";
  owners_hit = 0;
  owners_eligible = 2;
}

last_served : serve_chunk serving (codes "r1") (pos 16) 0 ≡ some (behind, ok last_chunk)
unfolding serve_chunk find put text_eq codes decide fetch_chunk can_answer at_or
    mini.Scheduler.ChunkSizer.choose mini.Scheduler.ChunkSizer.make mini.Base.◌+ℤ◌
last_served = refl

abbrev calls : List (Call Whole)
calls = cancellation (codes "r1") ∷ fetch (codes "r2") (pos 16) 0 ∷ []

last_chunk_ends_example :
    serve_chunk (serve_all slices tm_mon behind calls) (codes "r1") (pos 16) 7
    ≡ some (
      serve_all slices tm_mon behind calls,
      not_found (codes "unknown request_id " ++ codes "r1"),
    )
unfolding text_eq codes
last_chunk_ends_example =
    last_chunk_ends slices tm_mon serving behind (codes "r1") (pos 16) (pos 16) 0 7 last_chunk calls
      refl last_served refl (refl, (refl, tt))
