-- ===== src/Node/Owner.antt =====
-- A data owner's side of a request (cpp/server/node.cpp): `register_request`, one pass of
-- `produce_loop`, and the local part of `PullChunk`. The producer and any number of pulls share the
-- request; each holds its lock for a row or for the rows that it takes, and the producer looks at
-- `cancelled` without it, so they interleave in the steps below, in any order. Log lines, telemetry, sleeps and time stamps are left out.
pub mod Registry
pub mod Calls
pub mod Steps
pub mod Delivery
pub mod Feed
pub mod Refines
use mini.Base.{
  ℕ, zero, suc, ◌+◌, ◌*◌, Bool, true, false, not, ◌&&◌, ◌||◌, ◌==◌, leb, ltb, min, if◌then◌else◌, ℤ,
  pos, negsuc, pos_part, max_ℤ, ◌+ℤ◌, Text, codes, is_empty, List, [], ◌∷◌, ◌++◌, length, get_elem?,
  take, drop, Option, none, some, Floats,
}
use mini.Store.{PartitionStore, Query, TaxiRow, empty, fill}
use mini.Store.Search.{range_search, predicate_can_match}

-- The fields of `RequestState` that an owner uses.
pub record RequestState (F : Type 0) : Type 0 where
  pub request_id : Text
  pub query : Query F
  pub matched : List (TaxiRow F)
  pub matched_indices : List ℕ
  pub matched_cursor : ℕ
  pub last_delivered_seq : ℤ
  pub cancelled : Bool
  pub done_producing : Bool
  pub weight : ℤ

-- `kMaxBuffered`.
abbrev pub max_buffered : ℕ
max_buffered = 8192

-- Where the producer is: between two passes, at index `i` of a pass up to `limit`, or there with a row
-- that it has made for the buffer, behind its look at `cancelled`.
pub data Producer : Type 0 where
  idle : Producer
  pass holds : (i limit : ℕ) → Producer

-- Where a `PullChunk` is: before its first lock, with its rows, or with `done_prod` read as well.
pub data Puller (F : Type 0) : Type 0 where
  ready : Puller F
  took : List (TaxiRow F) → Puller F
  saw : List (TaxiRow F) → Bool → Puller F

pub record Chunk (F : Type 0) : Type 0 where
  pub rows : List (TaxiRow F)
  pub is_last : Bool

-- The shared request with its threads. `taken` is the history of the rows that pulls took, in order,
-- and `sent` the chunks that they answered with, the newest first.
pub record Owner (F : Type 0) : Type 0 where
  pub req : RequestState F
  pub producer : Producer
  pub pullers : ℕ → Puller F
  pub taken : List (TaxiRow F)
  pub sent : List (Chunk F)

pub data Event : Type 0 where
  begin test push finish cancel : Event
  take_rows : (j : ℕ) (max_rows : ℤ) → Event
  read_done : (j : ℕ) → Event
  send : (j : ℕ) → Event

abbrev pub update {ℓ} : {A : Type ℓ} → (ℕ → A) → ℕ → A → ℕ → A
update f j a k = if k == j then a else f k

-- `is_last` of the newest chunk.
abbrev pub last_sent : {F : Type 0} → List (Chunk F) → Bool
last_sent [] = false
last_sent (c ∷ cs) = c.is_last

module _ {F : Type 0} ⦃fl : Floats F⦄ where
  -- The new request of `register_request`; `slices` are the threads' shares of the scan.
  unfoldable pub new_request : List ℕ → PartitionStore F → Text → Query F → ℤ → RequestState F
  new_request slices part rid q weight =
      let found =
        if empty part
        then []
        else if predicate_can_match part q
        then range_search slices part q
        else [] in
      record {
        request_id = rid;
        query = q;
        matched = [];
        matched_indices = found;
        matched_cursor = 0;
        last_delivered_seq = negsuc 0;
        cancelled = false;
        done_producing = if empty part then false else is_empty found;
        weight = weight;
      }

  -- From the choice of the request to the loop over its rows. A cancellation behind the first test would
  -- be seen by the loop before any row, so the tests are one step.
  unfoldable pub begin_pass : PartitionStore F → Owner F → Owner F
  begin_pass part s =
      if s.req.cancelled || s.req.done_producing
      then s
      else if empty part
      then record s { req = record (s.req) { done_producing = true } }
      else if leb max_buffered (length s.req.matched)
      then s
      else record s {
        producer = pass s.req.matched_cursor (
            min (length s.req.matched_indices)
              (s.req.matched_cursor + 256 * pos_part (max_ℤ (pos 1) s.req.weight)));
      }

  -- `matched_cursor = i`, and the end of production behind the last index.
  unfoldable pub end_pass : Owner F → ℕ → Owner F
  end_pass s i = record s {
    producer = idle;
    req = record (s.req) {
      matched_cursor = i;
      done_producing = if leb (length s.req.matched_indices) i then true else s.req.done_producing;
    };
  }

  -- `if (st->cancelled.load()) break;`, without the lock; the row is filled behind it.
  unfoldable pub test_row : Owner F → Producer → Owner F
  test_row s (pass i limit) =
      if ltb i limit && not s.req.cancelled then record s { producer = holds i limit } else s
  test_row s p = s

  -- One row into the buffer, under the lock; a full buffer ends the loop behind it.
  unfoldable pub push_row : PartitionStore F → Owner F → ℕ → ℕ → ℕ → Owner F
  push_row part s i limit index =
      let buffer = s.req.matched ++ fill part index ∷ [] in
      record s {
        producer = pass (suc i) (if leb max_buffered (length buffer) then suc i else limit);
        req = record (s.req) { matched = buffer };
      }

  -- The row that was made goes into the buffer, whatever has become of the request meanwhile.
  unfoldable pub produce : PartitionStore F → Owner F → Producer → Owner F
  unfolding push_row
  produce part s (holds i limit) = elim (get_elem? s.req.matched_indices i) [
    | none ↦ s
    | some index ↦ push_row part s i limit index
  ]
  produce part s p = s

  -- The loop's end: at its limit, or cancelled.
  unfoldable pub conclude : Owner F → Producer → Owner F
  unfolding end_pass
  conclude s (pass i limit) = if ltb i limit && not s.req.cancelled then s else end_pass s i
  conclude s p = s

  -- At most `max_rows` rows from the front of the buffer, under the lock.
  unfoldable pub take_chunk : Owner F → ℕ → ℤ → Puller F → Owner F
  take_chunk s j max_rows ready = record s {
    req = record (s.req) {
      matched = drop (pos_part max_rows) s.req.matched;
      last_delivered_seq = s.req.last_delivered_seq +ℤ pos 1;
    };
    pullers = update s.pullers j (took (take (pos_part max_rows) s.req.matched));
    taken = s.taken ++ take (pos_part max_rows) s.req.matched;
  }
  take_chunk s j max_rows p = s

  -- `bool done_prod = st->done_producing.load();`
  unfoldable pub load_done : Owner F → ℕ → Puller F → Owner F
  load_done s j (took out) = record s {
    pullers = update s.pullers j (saw out s.req.done_producing);
  }
  load_done s j p = s

  -- `is_last` under the second lock, and the answer.
  unfoldable pub send_chunk : Owner F → ℕ → Puller F → Owner F
  send_chunk s j (saw out done) = record s {
    pullers = update s.pullers j ready;
    sent = record { rows = out; is_last = done && is_empty s.req.matched && is_empty out } ∷ s.sent;
  }
  send_chunk s j p = s

  -- `CancelQuery` at the owner: the flag, and the buffer under the lock. A step between the two comes to the
  -- same as one before both, since the producer that has seen the flag only ends its pass.
  unfoldable pub cancel_request : Owner F → Owner F
  cancel_request s = record s { req = record (s.req) { cancelled = true; matched = [] } }

  -- One step of some thread; a step that a thread is not ready for changes nothing.
  unfoldable pub step : PartitionStore F → Owner F → Event → Owner F
  unfolding begin_pass test_row produce conclude take_chunk load_done send_chunk cancel_request
  step part s begin = elim s.producer [
    | idle ↦ begin_pass part s
    | pass i limit ↦ s
    | holds i limit ↦ s
  ]
  step part s test = test_row s s.producer
  step part s push = produce part s s.producer
  step part s finish = conclude s s.producer
  step part s cancel = cancel_request s
  step part s (take_rows j max_rows) = take_chunk s j max_rows (s.pullers j)
  step part s (read_done j) = load_done s j (s.pullers j)
  step part s (send j) = send_chunk s j (s.pullers j)

  unfoldable pub run : PartitionStore F → Owner F → List Event → Owner F
  run part s [] = s
  run part s (e ∷ es) = run part (step part s e) es

  unfoldable pub start : RequestState F → Owner F
  start r = record { req = r; producer = idle; pullers = λ j. ready; taken = []; sent = [] }
