-- ===== src/Node/Link.antt =====
-- A request between the gateway and one remote data owner (cpp/server/node.cpp): the pulls of the owner's
-- prefetcher in `prefetcher_loop` and the `PullChunk` that serves them. The gateway's other threads and the
-- owner's producer go on in between, in any order. The owner has the request, as nothing drops it before the
-- last chunk. Each pull is answered: one that misses its deadline or loses its link is left to
-- `Node.Gateway.Prefetch`.
pub mod Steady
pub mod Work
pub mod Joined
pub mod Delivers
use mini.Base.{ℕ, Bool, true, false, if◌then◌else◌, ℤ, Text, text_eq, List, [], ◌∷◌, Floats}
use mini.Store.{PartitionStore, empty, TaxiRow}
use mini.Node.Owner.{
  Owner, Event, begin, test, push, finish, take_rows, read_done, send, step, Puller, ready, took,
  saw, last_sent,
}
use mini.Node.Gateway.Prefetch.{
  Prefetcher, waits, flies, ended, Session, Action, issue, miss, fail, answer, local_row, local_end,
  fetch, act,
}

-- The request at the gateway and at the owner, whose puller 0 serves the gateway's pulls.
pub record Link (F : Type 0) : Type 0 where
  pub session : Session F
  pub owner : Owner F

pub data Turn (F : Type 0) : Type 0 where
  gateway : Action F → Turn F
  work : Event → Turn F
  arrive : ℤ → Turn F
  load return : Turn F

-- The actions that end a pull from `o`.
abbrev pub ends_pull : {F : Type 0} → Text → Action F → Bool
ends_pull o (miss x) = text_eq x o
ends_pull o (fail x) = text_eq x o
ends_pull o (answer x rows is_last) = text_eq x o
ends_pull o a = false

-- The steps of the owner's producer.
abbrev pub is_work : Event → Bool
is_work begin = true
is_work test = true
is_work push = true
is_work finish = true
is_work e = false

module _ {F : Type 0} ⦃fl : Floats F⦄ (part : PartitionStore F) (o : Text) where
  -- The pull comes to the owner, which takes the rows if it has a partition.
  unfoldable pub arrived : Link F → ℤ → Prefetcher → Link F
  unfolding step
  arrived k max_rows flies =
      if empty part then k else record k { owner = step part k.owner (take_rows 0 max_rows) }
  arrived k max_rows p = k

  -- The owner's answer comes back: a chunk, or that there is no local data.
  unfoldable pub returned : Link F → Puller F → Prefetcher → Link F
  unfolding step act
  returned k (saw rows done) flies =
      let owner = step part k.owner (send 0) in
      record { owner = owner; session = act k.session (answer o rows (last_sent owner.sent)) }
  returned k ready flies = if empty part then record k { session = act k.session (fail o) } else k
  returned k puller p = k

  -- One step; one that a thread is not ready for changes nothing.
  unfoldable pub turn : Link F → Turn F → Link F
  unfolding arrived returned
  turn k (gateway a) = if ends_pull o a then k else record k { session = act k.session a }
  turn k (work e) = if is_work e then record k { owner = step part k.owner e } else k
  turn k (arrive max_rows) = arrived k max_rows (k.session.prefetchers o)
  turn k load = record k { owner = step part k.owner (read_done 0) }
  turn k return = returned k (k.owner.pullers 0) (k.session.prefetchers o)

  unfoldable pub turns : Link F → List (Turn F) → Link F
  unfolding turn
  turns k [] = k
  turns k (t ∷ ts) = turns (turn k t) ts
