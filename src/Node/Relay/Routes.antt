-- ===== src/Node/Relay/Routes.antt =====
-- What the relays promise, along a route of the table and around a loop of it.
use mini.Base.{
  ℕ, zero, suc, ◌<◌, ◌≤◌, ◌≡◌, refl, ◌∙◌, arith, true, false, Text, codes, text_eq, text_eq_iff,
  is_empty, ◌||◌, List, [], ◌∷◌, some, if_cases, ◌⊎◌, inl, inr,
}
use mini.Overlay.{Overlay, next_hop, has_node}
use mini.Node.Relay.{
  QueryAck, Fate, answered, lost, unanswered, Reply, reply, failed, through, hop_or_empty, reject,
  accept, relay_ack, forward_query, pull_from,
}

-- A hop of the table from `name` towards `target`, to another node of the overlay.
pub record Hop (o : Overlay) (name target nh : Text) : Type 0 where
  pub elsewhere : text_eq target name ≡ false
  pub routed : next_hop o name target ≡ some nh
  pub named : is_empty nh ≡ false
  pub onward : text_eq nh name ≡ false
  pub known : has_node o nh ≡ true

-- The table leads from `name` to `target` in so many hops.
pub data Route (o : Overlay) (target : Text) : Text → ℕ → Type 0 where
  arrived : {name : Text} → text_eq target name ≡ true → Route o target name zero
  hop :
      {name nh : Text} {k : ℕ}
      → Hop o name target nh
      → Route o target nh k
      → Route o target name (suc k)

abbrev pub AllAnswered : (Text → Text → Fate) → Type 0
AllAnswered link = (a b : Text) → link a b ≡ answered

module _ (o : Overlay) (link : Text → Text → Fate) (thrown : Text) where
  -- The nodes that a forward registers at, and what an accepting answer says of them.
  pub record IsHonest (target : Text) (r : Reply QueryAck × List Text) : Type 0 where
    pub at_target : (r.1 ≡ []) ⊎ (r.1 ≡ target ∷ [])
    pub told : (ack : QueryAck) → r.0 ≡ reply ack → ack.accepted ≡ true → r.1 ≡ target ∷ []

  relayed-IsHonest :
      (rid target : Text) (fate : Fate) (r : Reply QueryAck × List Text)
      → IsHonest target r
      → IsHonest target (reply (relay_ack rid (through fate r).0), (through fate r).1)
  unfolding relay_ack through
  relayed-IsHonest rid target answered (reply ack, at) h = record {
    at_target = h.at_target;
    told = λ a e t. h.told ack refl (ground arith);
  }
  relayed-IsHonest rid target answered (failed e, at) h = record {
    at_target = h.at_target;
    told = λ a f t. ground arith;
  }
  relayed-IsHonest rid target (lost e) r h = record {
    at_target = inl refl;
    told = λ a f t. ground arith;
  }
  relayed-IsHonest rid target (unanswered e) r h = record {
    at_target = h.at_target;
    told = λ a f t. ground arith;
  }

  -- However the calls on the links end, a forwarded query is registered at its target or nowhere, once
  -- at most, and an answer that accepts it means that it was registered.
  pub forward_query-IsHonest :
      (ttl : ℕ) (rid name target : Text)
      → IsHonest target (forward_query o link thrown ttl rid name target)
  unfolding forward_query
  forward_query-IsHonest zero rid name target = record {
    at_target = inl refl;
    told = λ a e t. ground arith;
  }
  forward_query-IsHonest (suc ttl) rid name target =
      let nh = hop_or_empty o name target in
      let ih = forward_query-IsHonest ttl rid nh target in
      if_cases (IsHonest target) (text_eq target name)
        (λ here.
          let e : target ≡ name = (text_eq_iff target name).0 here in
          record { at_target = inr (rw e refl); told = λ ack f t. rw e refl })
        λ _.
          if_cases (IsHonest target) (is_empty nh || text_eq nh name)
            (λ _. record { at_target = inl refl; told = λ ack f t. ground arith })
            λ _.
              if_cases (IsHonest target) (has_node o nh)
                (λ _.
                  relayed-IsHonest rid target (link name nh)
                    (forward_query o link thrown ttl rid nh target) ih)
                λ _. record { at_target = inl refl; told = λ ack f t. ground arith }

  hop_or_empty-Hop :
      (name target nh : Text) → Hop o name target nh → hop_or_empty o name target ≡ nh
  unfolding hop_or_empty
  hop_or_empty-Hop name target nh h = rw (h.routed, hop_or_empty)

  forward-Hop :
      (ttl : ℕ) (rid name target nh : Text)
      → Hop o name target nh
      → link name nh ≡ answered
      → forward_query o link thrown (suc ttl) rid name target ≡ (
        reply (relay_ack rid (forward_query o link thrown ttl rid nh target).0),
        (forward_query o link thrown ttl rid nh target).1,
      )
  unfolding forward_query through
  forward-Hop ttl rid name target nh h e =
      rw (hop_or_empty-Hop name target nh h, h.elsewhere, h.named, h.onward, h.known, e)

  -- Along a route of the table over links that answer, a query whose `ttl` exceeds the hops is
  -- accepted, and registered at its target and nowhere else.
  pub forward_query-delivers :
      {name : Text} {k : ℕ} (ttl : ℕ) (rid target : Text) (route : Route o target name k)
      → AllAnswered link
      → k < ttl
      → forward_query o link thrown ttl rid name target ≡ (reply (accept rid), target ∷ [])
  unfolding forward_query relay_ack
  forward_query-delivers zero rid target r all short = absurd (omega arith)
  forward_query-delivers {name} (suc ttl) rid target (arrived here) all short =
      let e : target ≡ name = (text_eq_iff target name).0 here in rw here (rw e refl)
  forward_query-delivers {name} (suc ttl) rid target (hop {nh = nh} h r) all short =
      forward-Hop ttl rid name target nh h (all name nh)
      ∙ rw (forward_query-delivers ttl rid target r all (omega arith), relay_ack)

  -- Along a route of the table over links that answer, a query whose `ttl` is no more than the hops is rejected and registered nowhere.
  pub forward_query-expires :
      {name : Text} {k : ℕ} (ttl : ℕ) (rid target : Text) (route : Route o target name k)
      → AllAnswered link
      → ttl ≤ k
      → forward_query o link thrown ttl rid name target
        ≡ (reply (reject rid (codes "ttl expired")), [])
  unfolding forward_query relay_ack codes
  forward_query-expires zero rid target r all long = refl
  forward_query-expires {name} (suc ttl) rid target (arrived here) all long = absurd (omega arith)
  forward_query-expires {name} (suc ttl) rid target (hop {nh = nh} h r) all long =
      forward-Hop ttl rid name target nh h (all name nh)
      ∙ rw (forward_query-expires ttl rid target r all (omega arith), relay_ack)

  pull-Hop :
      (expired : Text) (hops : ℕ) (name target nh : Text)
      → Hop o name target nh
      → is_empty target ≡ false
      → link name nh ≡ answered
      → pull_from o link thrown expired (suc hops) name target
        ≡ pull_from o link thrown expired hops nh target
  unfolding pull_from
  pull-Hop expired hops name target nh h t e =
      rw (hop_or_empty-Hop name target nh h, t, h.elsewhere, h.named, h.onward, h.known, e)
        (rw (hop_or_empty-Hop name target nh h))

  -- Along a route of the table over links that answer, a pull is served at the target, if the deadline of
  -- the first relay leaves time for more calls than the route has hops.
  pub pull_from-delivers :
      (expired : Text) {name : Text} {k : ℕ} (hops : ℕ) (target : Text)
      (route : Route o target name k)
      → is_empty target ≡ false
      → AllAnswered link
      → k < hops
      → pull_from o link thrown expired hops name target ≡ reply target
  unfolding pull_from
  pull_from-delivers expired zero target r t all short = absurd (omega arith)
  pull_from-delivers expired {name} (suc hops) target (arrived here) t all short =
      let e : target ≡ name = (text_eq_iff target name).0 here in rw (t, here) (rw e refl)
  pull_from-delivers expired {name} (suc hops) target (hop {nh = nh} h r) t all short =
      pull-Hop expired hops name target nh h t (all name nh)
      ∙ pull_from-delivers expired hops target r t all (omega arith)

  -- Where the table sends a target back and forth between two nodes whose links answer, a pull for it is never
  -- served: however many relays come about before the first one's deadline, it fails with the
  -- deadline's error. A forwarded query is rejected when its `ttl` runs out, and registers nowhere.
  pub pull_loops :
      (expired a b target rid : Text) (n : ℕ)
      → is_empty target ≡ false
      → AllAnswered link
      → Hop o a target b
      → Hop o b target a
      → (pull_from o link thrown expired n a target ≡ failed expired)
        × (forward_query o link thrown n rid a target
            ≡ (reply (reject rid (codes "ttl expired")), []))
  unfolding pull_from forward_query relay_ack codes
  pull_loops expired a b target rid zero t all there back = (refl, refl)
  pull_loops expired a b target rid (suc n) t all there back =
      let (pulled, rejected) = pull_loops expired b a target rid n t all back there in
      (
        pull-Hop expired n a target b there t (all a b) ∙ pulled,
        forward-Hop n rid a target b there (all a b) ∙ rw (rejected, relay_ack),
      )
