-- ===== src/Node/Handlers.antt =====
-- The calls that clients make at a node (cpp/server/node.cpp): `SubmitQuery`, `FetchChunk` and
-- `CancelQuery` as a whole, with their guards, the table of requests, the scheduler and the chunk sizes.
-- A call is one step, taken where its wait is over; `Node.Gateway` has the steps within a request. What
-- becomes of the forwards is an argument. Log lines, telemetry and time stamps are left out.
pub mod Tables
pub mod Ended
pub mod Marks
pub mod Reached
pub mod Submits
use mini.Base.{
  ℕ, zero, suc, ◌+◌, Bool, true, false, not, ◌&&◌, ◌||◌, if◌then◌else◌, ℤ, pos, negsuc, ltb_ℤ, Text,
  Dict, codes, find, put, erase, at_or, text_eq, is_empty, List, [], ◌∷◌, ◌++◌, map, length, keep,
  Option, none, some, Floats,
}
use mini.Store.{PartitionStore, Query, TaxiRow}
use mini.Scheduler.FairScheduler.{FairScheduler, add, remove}
use mini.Scheduler.ChunkSizer.{ChunkSizer, decide, forget}
use mini.Overlay.{Overlay, NodeSpec, next_hop, has_node}
use mini.Routing.{OwnerMetadata, eligible_owners}
use mini.Node.Relay.{QueryAck, accept, reject}
use mini.Node.Owner.{new_request}
use mini.Node.Gateway.{Gateway, submit, forward_failed, can_answer, fetch_chunk, cancel}

-- The members of `Mini2ServiceImpl`; a request's state is the part of it that a gateway uses.
pub record Server (F : Type 0) : Type 0 where
  pub name : Text
  pub overlay : Overlay
  pub me : NodeSpec
  pub meta : OwnerMetadata F
  pub part : PartitionStore F
  pub requests : Dict (Gateway F)
  pub sched : FairScheduler
  pub sizer : ChunkSizer

-- A status with its answer; `thrown` where the handler leaves by an exception.
pub data Answer (A : Type 0) : Type 0 where
  ok : A → Answer A
  failed_precondition not_found : Text → Answer A
  thrown : Answer A

-- What a call of `ForwardQuery` comes back with: OK, UNAVAILABLE or DEADLINE_EXCEEDED, another error.
pub data Attempt : Type 0 where
  served transient refused : Attempt

pub record Chunk (F : Type 0) : Type 0 where
  pub request_id : Text
  pub seq : ℤ
  pub rows : List (TaxiRow F)
  pub is_last : Bool
  pub backlog : ℕ
  pub producer : Text
  pub owners_hit : ℕ
  pub owners_eligible : ℕ

pub record CancelResponse : Type 0 where
  pub acknowledged : Bool
  pub rows_dropped : ℕ

-- Whether a peer is on another virtual host; an unknown one is not.
unfoldable pub is_inter_host : {F : Type 0} → Server F → Text → Bool
unfolding find
is_inter_host srv peer = elim (find peer srv.overlay.nodes) [
  | none ↦ false
  | some spec ↦ not (text_eq spec.virtual_host srv.me.virtual_host)
]

-- The most rows to ask a peer for.
unfoldable pub peer_max_rows : {F : Type 0} → Server F → Text → ℤ
unfolding is_inter_host
peer_max_rows srv peer =
    let v =
      if is_inter_host srv peer
      then srv.overlay.network.inter_host_max_rows
      else srv.overlay.network.intra_host_max_rows in
    if ltb_ℤ (pos 0) v then v else srv.overlay.chunking.max_rows

-- The attempts at one forward, from attempt `i` on while `n` are left.
unfoldable pub deliver : ℕ → ℕ → (ℕ → Attempt) → Bool
deliver zero i outcome = false
deliver (suc n) i outcome =
    let rest = deliver n (suc i) outcome in
    elim (outcome i) [ served ↦ true | transient ↦ rest | refused ↦ false ]

abbrev pub is_delivered : (ℕ → Attempt) → Bool
is_delivered outcome = deliver 20 0 outcome

module _ {F : Type 0} where
  -- The loop over the eligible owners that forwards the query, and whether it throws: without a
  -- route, and at a hop that is no node.
  unfoldable pub fan_out :
      Server F → (Text → ℕ → Attempt) → List Text → Gateway F → Gateway F × Bool
  unfolding forward_failed deliver next_hop has_node
  fan_out srv outcome [] g = (g, false)
  fan_out srv outcome (o ∷ os) g =
      let skipped = fan_out srv outcome os g in
      let sent =
        fan_out srv outcome os (if is_delivered (outcome o) then g else forward_failed g o) in
      if text_eq o srv.name then skipped else elim (next_hop srv.overlay srv.name o) [
        | none ↦ (g, true)
        | some hop ↦ if has_node srv.overlay hop then sent else (g, true)
      ]

  -- The owners that get a prefetcher thread.
  abbrev pub prefetched_owners : Text → Gateway F → List Text → List Text
  prefetched_owners name g elig =
      keep (λ o. not (text_eq o name) && not (at_or o false g.client_producers_done)) elig

  unfoldable pub drop_request : Server F → Text → Server F
  unfolding erase remove forget
  drop_request srv rid = record srv {
    requests = erase rid srv.requests;
    sched = remove srv.sched rid;
    sizer = forget srv.sizer rid;
  }

  -- `FetchChunk`, where its wait is over; `none` while it waits.
  unfoldable pub serve_chunk : Server F → Text → ℤ → ℕ → Option (Server F × Answer (Chunk F))
  unfolding find put decide can_answer fetch_chunk drop_request
  serve_chunk srv rid max_rows now =
      if not (text_eq srv.me.role (codes "gateway"))
      then some (srv, failed_precondition (codes "FetchChunk only at gateway"))
      else elim (find rid srv.requests) [
        | none ↦ some (srv, not_found (codes "unknown request_id " ++ rid))
        | some st ↦
            let sized = decide srv.sizer rid max_rows now in
            let answer = fetch_chunk st sized.1 in
            let after = record srv { sizer = sized.0; requests = put rid answer.0 srv.requests } in
            let out = answer.1 in
            let is_last = answer.2 in
            if can_answer st
            then some (
              if is_last then drop_request after rid else after,
              ok (record {
                request_id = rid;
                seq = answer.0.client_last_seq;
                rows = map (λ (r : Text × TaxiRow F). r.1) out;
                is_last = is_last;
                backlog = length out;
                producer = srv.name;
                owners_hit = if is_last then length answer.0.owners_responded else 0;
                owners_eligible = if is_last then answer.0.eligible_owners else 0;
              }),
            )
            else none
      ]

  -- Whether the gateway's loop that passes a cancellation on to the owners throws.
  unfoldable pub cancel_throws : Server F → List Text → Bool
  unfolding next_hop has_node
  cancel_throws srv [] = false
  cancel_throws srv (o ∷ os) =
      let rest = cancel_throws srv os in
      if text_eq o srv.name then rest else elim (next_hop srv.overlay srv.name o) [
        | none ↦ true
        | some hop ↦ if has_node srv.overlay hop then rest else true
      ]

  unfoldable pub cancel_query : Server F → Text → Server F × Answer CancelResponse
  unfolding find put cancel cancel_throws drop_request
  cancel_query srv rid = elim (find rid srv.requests) [
    | none ↦ (srv, ok (record { acknowledged = false; rows_dropped = 0 }))
    | some st ↦
        let after = record srv { requests = put rid (cancel st).0 srv.requests } in
        if text_eq srv.me.role (codes "gateway") && cancel_throws srv srv.overlay.data_owners
        then (after, thrown)
        else (
          drop_request after rid,
          ok (record { acknowledged = true; rows_dropped = (cancel st).1 }),
        )
  ]

module _ {F : Type 0} ⦃fl : Floats F⦄ where
  -- The new request of `register_request`, as the gateway sees it.
  unfoldable pub new_gate : List ℕ → Server F → Query F → Gateway F
  unfolding new_request
  new_gate slices srv q = record {
    name = srv.name;
    owners = srv.overlay.data_owners;
    matched = [];
    done_producing = (new_request slices srv.part q.request_id q (pos 1)).done_producing;
    cancelled = false;
    prefetch_stop = false;
    client_last_seq = negsuc 0;
    total_matched = 0;
    client_producers_done = [];
    client_per_owner_rows = [];
    owners_responded = [];
    eligible_owners = 0;
    prefetch_buf = [];
    prefetch_done_map = [];
  }

  unfoldable pub register : List ℕ → Server F → Query F → Server F × Gateway F
  unfolding find put add new_gate
  register slices srv q = elim (find q.request_id srv.requests) [
    | some st ↦ (srv, st)
    | none ↦
        let st = new_gate slices srv q in
        (
          record srv {
            requests = put q.request_id st srv.requests;
            sched = add srv.sched q.request_id (pos 1);
          },
          st,
        )
  ]

  -- `SubmitQuery`, with the owners that it starts prefetchers for.
  unfoldable pub submit_query :
      List ℕ
      → (ℤ → ℕ)
      → (Text → ℕ → Attempt)
      → Server F
      → Query F
      → Server F × Answer QueryAck × List Text
  unfolding put register submit fan_out eligible_owners
  submit_query slices tm_mon outcome srv q =
      let rid = q.request_id in
      let registered = register slices srv q in
      let elig = eligible_owners tm_mon srv.overlay.data_owners q srv.meta in
      let sent = fan_out srv outcome elig (submit registered.1 elig) in
      let after = record (registered.0) { requests = put rid sent.0 registered.0.requests } in
      if not (text_eq srv.me.role (codes "gateway"))
      then (srv, failed_precondition (codes "SubmitQuery only at gateway role"), [])
      else if is_empty rid
      then (srv, ok (reject [] (codes "missing request_id")), [])
      else if sent.1
      then (after, thrown, [])
      else (after, ok (accept rid), prefetched_owners srv.name sent.0 elig)

-- A call that some client makes; of a submission, what becomes of its forwards.
pub data Call (F : Type 0) : Type 0 where
  submission : (Text → ℕ → Attempt) → Query F → Call F
  fetch : Text → ℤ → ℕ → Call F
  cancellation : Text → Call F

module _ {F : Type 0} ⦃fl : Floats F⦄ (slices : List ℕ) (tm_mon : ℤ → ℕ) where
  -- The node behind a call; a `FetchChunk` that waits has not happened yet.
  unfoldable pub serve : Server F → Call F → Server F
  unfolding submit_query serve_chunk cancel_query
  serve srv (submission outcome q) = (submit_query slices tm_mon outcome srv q).0
  serve srv (fetch rid max_rows now) = elim (serve_chunk srv rid max_rows now) [
    | none ↦ srv
    | some (after, answer) ↦ after
  ]
  serve srv (cancellation rid) = (cancel_query srv rid).0

  unfoldable pub serve_all : Server F → List (Call F) → Server F
  unfolding serve
  serve_all srv [] = srv
  serve_all srv (c ∷ cs) = serve_all (serve srv c) cs
