-- ===== src/Node/Relay.antt =====
-- `ForwardQuery` and the relay of `PullChunk` (cpp/server/node.cpp) over the nodes of one overlay,
-- which all read the same routing table. What gRPC makes of a call from one node to another is the
-- argument `link`, and the deadlines are among its outcomes. Only what the code answers with is kept
-- of a message: the rows of a chunk, its sequence number and its times are the parts of `Owner`.
pub mod Routes
use mini.Base.{
  ℕ, zero, suc, ◌+◌, Bool, true, false, if◌then◌else◌, ℤ, pos, negsuc, pos_part, ltb_ℤ, Text, codes,
  text_eq, is_empty, ◌||◌, List, [], ◌∷◌, ◌++◌, Option, none, some,
}
use mini.Overlay.{Overlay, next_hop, has_node}

pub record QueryAck : Type 0 where
  pub request_id : Text
  pub accepted : Bool
  pub reject_reason : Text
  pub estimated_rows : ℤ

-- What becomes of a call on one link: it is answered, it never arrives, or it is served and the answer
-- is lost, each time with the caller's error message.
pub data Fate : Type 0 where
  answered : Fate
  lost : Text → Fate
  unanswered : Text → Fate

-- A call's status: OK with its answer, or an error message.
pub data Reply {ℓ} (A : Type ℓ) : Type ℓ where
  reply : A → Reply A
  failed : Text → Reply A

-- The caller's view of a call that came back with `r`, and the nodes that it registered at.
unfoldable pub through {ℓ} : {A : Type ℓ} → Fate → Reply A × List Text → Reply A × List Text
through answered r = r
through (lost e) r = (failed e, [])
through (unanswered e) r = (failed e, r.1)

-- `catch (...)` around `next_hop` leaves the empty name.
unfoldable pub hop_or_empty : Overlay → Text → Text → Text
hop_or_empty o name target = elim (next_hop o name target) [ none ↦ [] | some nh ↦ nh ]

abbrev pub reject : Text → Text → QueryAck
reject rid reason = record {
  request_id = rid;
  accepted = false;
  reject_reason = reason;
  estimated_rows = pos 0;
}

abbrev pub accept : Text → QueryAck
accept rid = record {
  request_id = rid;
  accepted = true;
  reject_reason = [];
  estimated_rows = negsuc 0;
}

-- An intermediate node's answer to the peer's.
unfoldable pub relay_ack : Text → Reply QueryAck → QueryAck
relay_ack rid (reply ack) = ack
relay_ack rid (failed e) = reject rid (codes "relay failed: " ++ e)

-- `peer_stub` throws on a name that is no node: gRPC answers for the handler, with the error `thrown`.
module _ (o : Overlay) (link : Text → Text → Fate) (thrown : Text) where
  -- `ForwardQuery` at `name`, with the nodes at which it calls `register_request`.
  unfoldable pub forward_query : ℕ → Text → Text → Text → Reply QueryAck × List Text
  forward_query zero rid name target = (reply (reject rid (codes "ttl expired")), [])
  forward_query (suc ttl) rid name target =
      let nh = hop_or_empty o name target in
      let sent = through (link name nh) (forward_query ttl rid nh target) in
      if text_eq target name
      then (reply (accept rid), name ∷ [])
      else if is_empty nh || text_eq nh name
      then (reply (reject rid (codes "no route to " ++ target)), [])
      else if has_node o nh
      then (reply (relay_ack rid sent.0), sent.1)
      else (failed thrown, [])

  -- The `ttl` of the message is signed.
  unfoldable pub forward : ℤ → Text → Text → Text → Reply QueryAck × List Text
  unfolding forward_query
  forward ttl rid name target = forward_query (pos_part ttl) rid name target

  -- `PullChunk` at `name`, up to the node that serves it, which is the answer. It has no hop limit: `hops`
  -- relays can come about before the deadline of the first of them, which then fails with `expired`.
  unfoldable pub pull_from : Text → ℕ → Text → Text → Reply Text
  pull_from expired zero name target = failed expired
  pull_from expired (suc hops) name target =
      let nh = hop_or_empty o name target in
      let rest = pull_from expired hops nh target in
      if is_empty target || text_eq target name
      then reply name
      else if is_empty nh || text_eq nh name
      then failed (codes "no route to owner " ++ target)
      else if has_node o nh
      then elim (link name nh) [ answered ↦ rest | lost e ↦ failed e | unanswered e ↦ failed e ]
      else failed thrown
