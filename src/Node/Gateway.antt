-- ===== src/Node/Gateway.antt =====
-- The gateway's side of a request (cpp/server/node.cpp): `FetchChunk`, `prefetcher_loop`, and the set
-- up and the cancellation of a request. Each function is what one thread does while it holds the
-- request's lock. The maps are read with their default on a missing key, where `operator[]` also
-- inserts it; no result depends on that. A row goes out with its owner's name, which the counts per
-- owner are kept by and the client does not see.
pub mod Conserve
pub mod Full
pub mod Prefetch
pub mod Fits
pub mod Keeps
pub mod Drained
pub mod Frame
pub mod Own
pub mod Join
pub mod Complete
use mini.Base.{
  ℕ, zero, suc, ◌+◌, ◌-◌, Bool, true, false, not, ◌&&◌, ◌||◌, ◌==◌, if◌then◌else◌, ℤ, pos, negsuc,
  pos_part, ◌+ℤ◌, ltb_ℤ, Text, Dict, codes, text_eq, at_or, put, is_empty, List, [], ◌∷◌, ◌++◌,
  length, Option, none, some,
}
use mini.Store.{TaxiRow}
use mini.Overlay.{Overlay, NodeSpec}
use mini.Routing.Hash.{has_text, insert_text}

-- The fields of `RequestState` that the gateway uses, with its name and the data owners.
pub record Gateway (F : Type 0) : Type 0 where
  pub name : Text
  pub owners : List Text
  pub matched : List (TaxiRow F)
  pub done_producing : Bool
  pub cancelled : Bool
  pub prefetch_stop : Bool
  pub client_last_seq : ℤ
  pub total_matched : ℕ
  pub client_producers_done : Dict Bool
  pub client_per_owner_rows : Dict ℕ
  pub owners_responded : List Text
  pub eligible_owners : ℕ
  pub prefetch_buf : Dict (List (TaxiRow F))
  pub prefetch_done_map : Dict Bool

-- The drain of one call: the request, the rows out so far and how many more fit.
pub record Drain (F : Type 0) : Type 0 where
  pub gate : Gateway F
  pub out : List (Text × TaxiRow F)
  pub room : ℕ

-- The block of `SubmitQuery` that marks every owner.
unfoldable pub mark_owners : List Text → List Text → Dict Bool → Dict Bool
mark_owners elig [] m = m
mark_owners elig (o ∷ os) m = mark_owners elig os (put o (not (has_text o elig)) m)

unfoldable pub all_done : Dict Bool → List Text → Bool
all_done m [] = true
all_done m (o ∷ os) = let rest = all_done m os in if at_or o false m then rest else false

module _ {F : Type 0} where
  unfoldable pub submit : Gateway F → List Text → Gateway F
  unfolding mark_owners
  submit g elig = record g {
    client_producers_done = mark_owners elig g.owners g.client_producers_done;
    eligible_owners = length elig;
    owners_responded =
        if has_text g.name elig then insert_text g.name g.owners_responded else g.owners_responded;
  }

  -- A forward that failed after its retries.
  unfoldable pub forward_failed : Gateway F → Text → Gateway F
  forward_failed g o = record g { client_producers_done = put o true g.client_producers_done }

  -- `have_data`.
  unfoldable pub any_buffered : Dict (List (TaxiRow F)) → Bool
  any_buffered [] = false
  any_buffered ((o, rows) ∷ m) = let rest = any_buffered m in if is_empty rows then rest else true

  unfoldable pub have_data : Gateway F → Bool
  unfolding any_buffered
  have_data g = if is_empty g.matched then any_buffered g.prefetch_buf else true

  -- The loop of `all_drained` over the owners.
  unfoldable pub remote_drained : Gateway F → List Text → Bool
  remote_drained g [] = true
  remote_drained g (o ∷ os) =
      let rest = remote_drained g os in
      if text_eq o g.name || at_or o false g.client_producers_done
      then rest
      else if at_or o false g.prefetch_done_map && is_empty (at_or o [] g.prefetch_buf)
      then rest
      else false

  unfoldable pub all_drained : Gateway F → Bool
  unfolding remote_drained
  all_drained g =
      if not g.done_producing || not (is_empty g.matched) then false else remote_drained g g.owners

  -- What `FetchChunk` waits for.
  unfoldable pub can_answer : Gateway F → Bool
  unfolding have_data all_drained
  can_answer g = g.cancelled || have_data g || all_drained g

  -- One row of owner `o` goes out.
  abbrev pub count_row : Gateway F → Text → Gateway F
  count_row g o = record g {
    client_per_owner_rows = put o (at_or o 0 g.client_per_owner_rows + 1) g.client_per_owner_rows;
    total_matched = g.total_matched + 1;
  }

  unfoldable pub pop_self : Drain F → TaxiRow F → List (TaxiRow F) → Drain F
  pop_self d row rest = record {
    gate = count_row (record (d.gate) { matched = rest }) d.gate.name;
    out = d.out ++ (d.gate.name, row) ∷ [];
    room = d.room - 1;
  }

  unfoldable pub pop_remote : Drain F → Text → TaxiRow F → List (TaxiRow F) → Drain F
  pop_remote d o row rest = record {
    gate = count_row (record (d.gate) { prefetch_buf = put o rest d.gate.prefetch_buf }) o;
    out = d.out ++ (o, row) ∷ [];
    room = d.room - 1;
  }

  unfoldable pub drain_self : Drain F → List (TaxiRow F) → Drain F
  unfolding pop_self
  drain_self d [] = d
  drain_self d (row ∷ rest) = pop_self d row rest

  unfoldable pub drain_owner : Drain F → Text → List (TaxiRow F) → Drain F
  unfolding pop_remote
  drain_owner d o [] = d
  drain_owner d o (row ∷ rest) = pop_remote d o row rest

  -- One row of each remote owner in turn, until the chunk is full.
  unfoldable pub drain_owners : Drain F → List Text → Drain F
  unfolding drain_owner
  drain_owners d [] = d
  drain_owners d (o ∷ os) =
      drain_owners
        (if d.room == 0 || text_eq o d.gate.name
          then d
          else drain_owner d o (at_or o [] d.gate.prefetch_buf))
        os

  -- A round of the loop: the gateway's own rows first.
  unfoldable pub drain_round : Drain F → Drain F
  unfolding drain_self drain_owners
  drain_round d = drain_owners (drain_self d d.gate.matched) d.gate.owners

  -- `while (produced < max_rows)`, which ends after a round without rows.
  unfoldable pub drain : ℕ → Drain F → Drain F
  unfolding drain_round
  drain zero d = d
  drain (suc rounds) d =
      let next = drain_round d in
      let rest = drain rounds next in
      if d.room == 0 then d else if next.room == d.room then next else rest

  unfoldable pub promote : Gateway F → List Text → Dict Bool → Dict Bool
  promote g [] m = m
  promote g (o ∷ os) m = promote g os (
      if not (text_eq o g.name)
        && at_or o false g.prefetch_done_map
        && is_empty (at_or o [] g.prefetch_buf)
      then put o true m
      else m)

  unfoldable pub promote_done : Gateway F → Gateway F
  unfolding promote
  promote_done g =
      let m =
        if g.done_producing && is_empty g.matched
        then put g.name true g.client_producers_done
        else g.client_producers_done in
      record g { client_producers_done = promote g g.owners m }

  -- The locked part of `FetchChunk`: as many rounds as rows fit are enough. The request that it
  -- leaves, the rows of the chunk and `is_last`.
  unfoldable pub fetch_chunk : Gateway F → ℤ → Gateway F × List (Text × TaxiRow F) × Bool
  unfolding drain promote_done all_done
  fetch_chunk g max_rows =
      let start = record g { client_last_seq = g.client_last_seq +ℤ pos 1 } in
      let d =
        drain (pos_part max_rows) (record { gate = start; out = []; room = pos_part max_rows }) in
      let g' = promote_done d.gate in (g', d.out, all_done g'.client_producers_done g'.owners)

  -- A prefetcher may pull for `o`: its slot is empty, and neither it nor the request has ended.
  unfoldable pub may_pull : Gateway F → Text → Bool
  may_pull g o =
      not (g.prefetch_stop || g.cancelled)
      && is_empty (at_or o [] g.prefetch_buf)
      && not (at_or o false g.prefetch_done_map)

  -- An answer to the prefetcher's pull.
  unfoldable pub prefetched : Gateway F → Text → List (TaxiRow F) → Bool → Gateway F
  prefetched g o rows is_last = record g {
    owners_responded = insert_text o g.owners_responded;
    prefetch_buf = put o (at_or o [] g.prefetch_buf ++ rows) g.prefetch_buf;
    prefetch_done_map = if is_last then put o true g.prefetch_done_map else g.prefetch_done_map;
  }

  -- No route, or an error other than a missed deadline.
  unfoldable pub prefetch_failed : Gateway F → Text → Gateway F
  prefetch_failed g o = record g {
    prefetch_done_map = put o true g.prefetch_done_map;
    client_producers_done = put o true g.client_producers_done;
  }

  -- The buffers that `CancelQuery` clears, and the rows that it counts as dropped.
  unfoldable pub clear_all : Dict (List (TaxiRow F)) → Dict (List (TaxiRow F)) × ℕ
  clear_all [] = ([], 0)
  clear_all ((o, rows) ∷ m) = let (rest, n) = clear_all m in ((o, []) ∷ rest, length rows + n)

  unfoldable pub cancel : Gateway F → Gateway F × ℕ
  unfolding clear_all
  cancel g = (
    record g {
      cancelled = true;
      prefetch_stop = true;
      matched = [];
      prefetch_buf = (clear_all g.prefetch_buf).0;
    },
    length g.matched + (clear_all g.prefetch_buf).1,
  )
