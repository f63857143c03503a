-- ===== src/Node/Owner/Calls.antt =====
-- A data owner as a whole (cpp/server/node.cpp): the calls `ForwardQuery`, `PullChunk` and `CancelQuery` that
-- it serves and `produce_loop`, over all of its requests. The table names the requests' objects; a thread
-- keeps the `shared_ptr` of its request, so it goes on with an object that the table has dropped, and a query
-- with the same id that comes later gets an object of its own. Threads interleave between the steps
-- below, each of which is done under a lock or reads an atomic flag. Relayed calls are `Node.Relay`.
pub mod Objects
pub mod Pulls
pub mod Bound
pub mod Served
use mini.Base.{
  ℕ, suc, ◌==◌, Bool, true, false, if◌then◌else◌, ℤ, pos, Text, Dict, find, put, erase, List, [],
  ◌∷◌, Option, none, some, Floats,
}
use mini.Store.{PartitionStore, Query, empty}
use mini.Scheduler.FairScheduler.{FairScheduler, add, remove, next}
use mini.Scheduler.ChunkSizer.{ChunkSizer, decide, forget}
use mini.Node.Owner.{
  Owner, Event, begin, test, push, finish, cancel, take_rows, read_done, send, Producer, idle, pass,
  holds, Puller, ready, took, saw, Chunk, new_request, start, step, update, last_sent,
}

-- Where a thread that serves calls is: free; in a `PullChunk` that has found its object, that knows how
-- many rows to take, or that has the rows; in a `CancelQuery` that has found its object; or before its
-- `drop_request`.
pub data Thread : Type 0 where
  free : Thread
  sizes : (a : ℕ) (rid : Text) → Thread
  takes : (a : ℕ) (rid : Text) (max_rows : ℤ) → Thread
  pulls : (a : ℕ) (rid : Text) → Thread
  stops : (a : ℕ) (rid : Text) → Thread
  drops : (rid : Text) → Thread

-- Where `produce_loop` is: before `next`, before `get_request`, before its pass, or in the pass.
pub data Turn : Type 0 where
  rests : Turn
  chose : (rid : Text) → Turn
  finds works : (a : ℕ) → Turn

-- `objects` has the requests that were made, the first `count` numbers, whether the table still names
-- them or not.
pub record Daemon (F : Type 0) : Type 0 where
  pub objects : ℕ → Option (Owner F)
  pub count : ℕ
  pub requests : Dict ℕ
  pub sched : FairScheduler
  pub sizer : ChunkSizer
  pub producing : Turn
  pub threads : ℕ → Thread

pub data Deed (F : Type 0) : Type 0 where
  forward : Text → Query F → Deed F
  pull : (j : ℕ) → Text → Deed F
  size : (j : ℕ) (max_rows : ℤ) (now : ℕ) → Deed F
  collect read answer : (j : ℕ) → Deed F
  stop : (j : ℕ) → Text → Deed F
  clear drop : (j : ℕ) → Deed F
  choose look start_pass look_flag fill finish_pass : Deed F

abbrev pub turn_of : ℕ → Producer → Turn
turn_of a idle = rests
turn_of a (pass i limit) = works a
turn_of a (holds i limit) = works a

module _ {F : Type 0} ⦃fl : Floats F⦄ (slices : List ℕ) (part : PartitionStore F) where
  abbrev pub new_daemon : FairScheduler → ChunkSizer → Daemon F
  new_daemon sched sizer = record {
    objects = λ a. none;
    count = 0;
    requests = [];
    sched = sched;
    sizer = sizer;
    producing = rests;
    threads = λ j. free;
  }

  -- `register_request`, of weight 1.
  unfoldable pub register : Daemon F → Text → Query F → Daemon F
  unfolding find put add new_request start
  register d rid q = elim (find rid d.requests) [
    | some a ↦ d
    | none ↦ record d {
      objects = update d.objects d.count (some (start (new_request slices part rid q (pos 1))));
      count = suc d.count;
      requests = put rid d.count d.requests;
      sched = add d.sched rid (pos 1);
    }
  ]

  -- A step on the request of object `a`.
  unfoldable pub on_object : Daemon F → ℕ → Event → Option (Owner F) → Daemon F
  unfolding step
  on_object d a e none = d
  on_object d a e (some s) = record d { objects = update d.objects a (some (step part s e)) }

  -- `PullChunk` up to its object; `none` and an empty partition are answered with NOT_FOUND.
  unfoldable pub begin_pull : Daemon F → ℕ → Text → Thread → Daemon F
  unfolding find
  begin_pull d j rid free = elim (find rid d.requests) [
    | none ↦ d
    | some a ↦ if empty part then d else record d { threads = update d.threads j (sizes a rid) }
  ]
  begin_pull d j rid t = d

  unfoldable pub size_pull : Daemon F → ℕ → ℤ → ℕ → Thread → Daemon F
  unfolding decide
  size_pull d j max_rows now (sizes a rid) =
      let sized = decide d.sizer rid max_rows now in
      record d { sizer = sized.0; threads = update d.threads j (takes a rid sized.1) }
  size_pull d j max_rows now t = d

  unfoldable pub collect_pull : Daemon F → ℕ → Thread → Daemon F
  unfolding on_object
  collect_pull d j (takes a rid max_rows) =
      on_object (record d { threads = update d.threads j (pulls a rid) }) a (take_rows j max_rows)
        (d.objects a)
  collect_pull d j t = d

  unfoldable pub read_pull : Daemon F → ℕ → Thread → Daemon F
  unfolding on_object
  read_pull d j (pulls a rid) = on_object d a (read_done j) (d.objects a)
  read_pull d j t = d

  -- The answer to the pull; behind the last chunk the request is dropped.
  unfoldable pub answered : Daemon F → ℕ → ℕ → Text → Option (Owner F) → Daemon F
  unfolding step
  answered d j a rid none = d
  answered d j a rid (some s) = elim (s.pullers j) [
    | ready ↦ d
    | took rows ↦ d
    | saw rows done ↦
        let s' = step part s (send j) in
        record d {
          objects = update d.objects a (some s');
          threads = update d.threads j (if last_sent s'.sent then drops rid else free);
        }
  ]

  unfoldable pub answer_pull : Daemon F → ℕ → Thread → Daemon F
  unfolding answered
  answer_pull d j (pulls a rid) = answered d j a rid (d.objects a)
  answer_pull d j t = d

  unfoldable pub drop_request : Daemon F → ℕ → Thread → Daemon F
  unfolding erase remove forget
  drop_request d j (drops rid) = record d {
    requests = erase rid d.requests;
    sched = remove d.sched rid;
    sizer = forget d.sizer rid;
    threads = update d.threads j free;
  }
  drop_request d j t = d

  unfoldable pub begin_stop : Daemon F → ℕ → Text → Thread → Daemon F
  unfolding find
  begin_stop d j rid free = elim (find rid d.requests) [
    | none ↦ d
    | some a ↦ record d { threads = update d.threads j (stops a rid) }
  ]
  begin_stop d j rid t = d

  -- `CancelQuery` up to its `drop_request`.
  unfoldable pub clear_request : Daemon F → ℕ → Thread → Daemon F
  unfolding on_object
  clear_request d j (stops a rid) =
      on_object (record d { threads = update d.threads j (drops rid) }) a cancel (d.objects a)
  clear_request d j t = d

  -- `sched_.next()`.
  unfoldable pub choose_request : Daemon F → Turn → Daemon F
  unfolding next
  choose_request d rests = elim (next d.sched) [
    | none ↦ d
    | some (sched, rid) ↦ record d { sched = sched; producing = chose rid }
  ]
  choose_request d t = d

  unfoldable pub look_up : Daemon F → Turn → Daemon F
  unfolding find
  look_up d (chose rid) = record d {
    producing = elim (find rid d.requests) [ none ↦ rests | some a ↦ finds a ];
  }
  look_up d t = d

  -- A step of the pass, which may end the pass.
  unfoldable pub on_pass : Daemon F → ℕ → Event → Option (Owner F) → Daemon F
  unfolding step
  on_pass d a e none = d
  on_pass d a e (some s) =
      let s' = step part s e in
      record d { objects = update d.objects a (some s'); producing = turn_of a s'.producer }

  unfoldable pub begin_turn : Daemon F → Turn → Daemon F
  unfolding on_pass
  begin_turn d (finds a) = on_pass d a begin (d.objects a)
  begin_turn d t = d

  unfoldable pub go_on : Daemon F → Event → Turn → Daemon F
  unfolding on_pass
  go_on d e (works a) = on_pass d a e (d.objects a)
  go_on d e t = d

  unfoldable pub perform : Daemon F → Deed F → Daemon F
  unfolding register begin_pull size_pull collect_pull read_pull answer_pull drop_request begin_stop
      clear_request choose_request look_up begin_turn go_on
  perform d (forward rid q) = register d rid q
  perform d (pull j rid) = begin_pull d j rid (d.threads j)
  perform d (size j max_rows now) = size_pull d j max_rows now (d.threads j)
  perform d (collect j) = collect_pull d j (d.threads j)
  perform d (read j) = read_pull d j (d.threads j)
  perform d (answer j) = answer_pull d j (d.threads j)
  perform d (stop j rid) = begin_stop d j rid (d.threads j)
  perform d (clear j) = clear_request d j (d.threads j)
  perform d (drop j) = drop_request d j (d.threads j)
  perform d choose = choose_request d d.producing
  perform d look = look_up d d.producing
  perform d start_pass = begin_turn d d.producing
  perform d look_flag = go_on d test d.producing
  perform d fill = go_on d push d.producing
  perform d finish_pass = go_on d finish d.producing

  unfoldable pub perform_all : Daemon F → List (Deed F) → Daemon F
  unfolding perform
  perform_all d [] = d
  perform_all d (e ∷ es) = perform_all (perform d e) es
