-- ===== src/Node/Owner/Registry.antt =====
-- The table of a node's requests (cpp/server/node.cpp): `register_request`, `get_request`,
-- `drop_request`, each a step under the lock `req_mu_`, and the scheduler's turn that `produce_loop` takes.
-- Stopping and joining the prefetchers of a dropped request is left out: it changes neither the table nor
-- the scheduler.
pub mod Scheduled
use mini.Base.{ℕ, ℤ, Text, Dict, find, put, erase, List, Option, none, some, Floats}
use mini.Store.{PartitionStore, Query}
use mini.Scheduler.FairScheduler.{FairScheduler, add, remove, next}
use mini.Scheduler.ChunkSizer.{ChunkSizer, forget}
use mini.Node.Owner.{RequestState, new_request}

-- `requests_`, `sched_` and `sizer_`.
pub record Registry (F : Type 0) : Type 0 where
  pub requests : Dict (RequestState F)
  pub sched : FairScheduler
  pub sizer : ChunkSizer

module _ {F : Type 0} ⦃fl : Floats F⦄ where
  unfoldable pub get_request : Registry F → Text → Option (RequestState F)
  unfolding find
  get_request r rid = find rid r.requests

  unfoldable pub register_request :
      List ℕ → PartitionStore F → Registry F → Text → Query F → ℤ → Registry F × RequestState F
  unfolding get_request new_request add put
  register_request slices part r rid q weight = elim (get_request r rid) [
    | some st ↦ (r, st)
    | none ↦
        let st = new_request slices part rid q weight in
        (record r { requests = put rid st r.requests; sched = add r.sched rid weight }, st)
  ]

  unfoldable pub drop_request : Registry F → Text → Registry F
  unfolding erase remove forget
  drop_request r rid = record {
    requests = erase rid r.requests;
    sched = remove r.sched rid;
    sizer = forget r.sizer rid;
  }

  -- The choice of the request that `produce_loop` works on next.
  unfoldable pub take_turn : Registry F → Option (Registry F × Text)
  unfolding next
  take_turn r = elim (next r.sched) [
    | none ↦ none
    | some (sched, rid) ↦ some (record r { sched = sched }, rid)
  ]
