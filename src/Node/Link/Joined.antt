-- ===== src/Node/Link/Joined.antt =====
-- What holds between the gateway and one remote data owner in every interleaving (cpp/server/node.cpp):
-- what was taken at the owner has arrived or is on its way.
use mini.Base.{
  ℕ, ◌≡◌, refl, sym, ap, ◌∙◌, Bool, true, false, ◌||◌, if_cases, ◌⊎◌, inl, inr, ℤ, pos_part, Text,
  text_eq, text_eq_refl, at_or, at_or-put, put, if◌then◌else◌, List, [], ◌++◌, map, take, Floats,
}
use mathlib.Core.List.{append-nil}
use mini.Store.{PartitionStore, TaxiRow, empty}
use mini.Node.Owner.{
  Owner, take_rows, read_done, send, take_chunk, load_done, send_chunk, step, last_sent, Puller,
  ready, took, saw, Chunk,
}
use mini.Node.Owner.Steps.{Inv, step-Inv, ends}
use mini.Node.Gateway.{Gateway, prefetched, prefetch_failed}
use mini.Node.Gateway.Conserve.{from_owner, from_owner-append}
use mini.Node.Gateway.Keeps.{from_owner-map}
use mini.Node.Gateway.Prefetch.{
  Prefetcher, waits, flies, ended, Session, act, answered, failed_pull,
}
use mini.Node.Link.{
  Link, Turn, gateway, work, arrive, load, return, ends_pull, is_work, arrived, returned, turn,
}
use mini.Node.Link.Steady.{Steady, act-Steady, flags}
use mini.Node.Link.Work.{shared, work-shared}

-- The rows that a pull has taken and not yet brought.
abbrev pub held : {F : Type 0} → Puller F → List (TaxiRow F)
held ready = []
held (took rows) = rows
held (saw rows done) = rows

module _ {F : Type 0} ⦃fl : Floats F⦄ (part : PartitionStore F) (idxs : List ℕ) (o : Text) where
  pub record Joined (k : Link F) : Type 0 where
    pub inv : Inv part idxs k.owner
    pub alive : k.owner.req.cancelled ≡ false
    pub open_request : flags k.session.gate ≡ (false, false)
    pub over :
        k.session.prefetchers o ≡ ended → at_or o false k.session.gate.prefetch_done_map ≡ true
    pub closed :
        at_or o false k.session.gate.prefetch_done_map ≡ true
        → (ends k.owner.sent ≡ true) ⊎ (empty part ≡ true)
    -- What pulls took at the owner has arrived at the gateway, but for a pull that is on its way.
    pub brought : k.owner.taken ≡ from_owner o k.session.received ++ held (k.owner.pullers 0)
    pub in_flight : (k.owner.pullers 0 ≡ ready) ⊎ (k.session.prefetchers o ≡ flies)

  gateway-Joined :
      (k : Link F) (t : Session F)
      → Steady o k.session t
      → Joined k
      → Joined (record k { session = t })
  gateway-Joined k t m v = record {
    inv = v.inv;
    alive = v.alive;
    open_request = m.same_flags ∙ v.open_request;
    over = λ e. m.same_end ∙ elim (m.ending v.open_request e) [ inl e' ↦ v.over e' | inr e' ↦ e' ];
    closed = λ e. v.closed (sym m.same_end ∙ e);
    brought = v.brought ∙ ap (λ r. r ++ held (k.owner.pullers 0)) (sym m.same_rows);
    in_flight = elim v.in_flight [ inl e ↦ inl e | inr e ↦ inr (m.flying e) ];
  }

  work-Joined :
      (k : Link F) (s : Owner F)
      → Inv part idxs s
      → shared s ≡ shared k.owner
      → Joined k
      → Joined (record k { owner = s })
  work-Joined k s i same v =
      let pullers : s.pullers ≡ k.owner.pullers =
        ap (λ (x : (ℕ → Puller F) × List (TaxiRow F) × List (Chunk F) × Bool). x.0) same in
      let took : s.taken ≡ k.owner.taken =
        ap (λ (x : (ℕ → Puller F) × List (TaxiRow F) × List (Chunk F) × Bool). x.1) same in
      let sent : s.sent ≡ k.owner.sent =
        ap (λ (x : (ℕ → Puller F) × List (TaxiRow F) × List (Chunk F) × Bool). x.2) same in
      let cancelled : s.req.cancelled ≡ k.owner.req.cancelled =
        ap (λ (x : (ℕ → Puller F) × List (TaxiRow F) × List (Chunk F) × Bool). x.3) same in
      record {
        inv = i;
        alive = cancelled ∙ v.alive;
        open_request = v.open_request;
        over = v.over;
        closed = λ e. elim (v.closed e) [ inl x ↦ inl (ap ends sent ∙ x) | inr x ↦ inr x ];
        brought = rw pullers (took ∙ v.brought);
        in_flight = rw pullers v.in_flight;
      }

  take-Joined :
      (k : Link F) (n : ℤ) (q : Puller F)
      → k.owner.pullers 0 ≡ q
      → k.session.prefetchers o ≡ flies
      → Inv part idxs (take_chunk k.owner 0 n q)
      → Joined k
      → Joined (record k { owner = take_chunk k.owner 0 n q })
  unfolding take_chunk
  take-Joined k n ready e w i v =
      let before : k.owner.taken ≡ from_owner o k.session.received ++ held {F = F} ready =
        rw e at v.brought in
      record {
        inv = i;
        alive = v.alive;
        open_request = v.open_request;
        over = v.over;
        closed = v.closed;
        brought =
            ap (λ rows. rows ++ take (pos_part n) k.owner.req.matched) (before ∙ append-nil _);
        in_flight = inr w;
      }
  take-Joined k n q e w i v = v

  load-Joined :
      (k : Link F) (q : Puller F)
      → k.owner.pullers 0 ≡ q
      → Inv part idxs (load_done k.owner 0 q)
      → Joined k
      → Joined (record k { owner = load_done k.owner 0 q })
  unfolding load_done
  load-Joined k (took rows) e i v = record {
    inv = i;
    alive = v.alive;
    open_request = v.open_request;
    over = v.over;
    closed = v.closed;
    brought = rw e at v.brought;
    in_flight = elim v.in_flight [ inl r ↦ absurd (cc (sym e ∙ r)) | inr w ↦ inr w ];
  }
  load-Joined k q e i v = v

  -- What the chunk that an owner sends leaves as it is.
  record Sent (s t : Owner F) (is_last : Bool) : Type 0 where
    sound : Inv part idxs t
    same_taken : t.taken ≡ s.taken
    same_cancelled : t.req.cancelled ≡ s.req.cancelled
    free : t.pullers 0 ≡ ready
    one_more : ends t.sent ≡ (is_last || ends s.sent)

  over-prefetched :
      (s : Session F) (is_last : Bool)
      → (if text_eq o o then if is_last then ended else waits else s.prefetchers o) ≡ ended
      → at_or o false
          (if is_last then put o true s.gate.prefetch_done_map else s.gate.prefetch_done_map)
        ≡ true
  over-prefetched s true e =
      rw (at_or-put o o false true s.gate.prefetch_done_map, text_eq_refl o) refl
  over-prefetched s false e =
      cc (sym (ap (λ b. if b then waits else s.prefetchers o) (text_eq_refl o)) ∙ e)

  closed-prefetched :
      (g : Gateway F) (rows : List (TaxiRow F)) (is_last before : Bool)
      → (at_or o false g.prefetch_done_map ≡ true → (before ≡ true) ⊎ (empty part ≡ true))
      → at_or o false (prefetched g o rows is_last).prefetch_done_map ≡ true
      → ((is_last || before) ≡ true) ⊎ (empty part ≡ true)
  unfolding prefetched
  closed-prefetched g rows true before h e = inl refl
  closed-prefetched g rows false before h e = h e

  answered-Joined :
      (k : Link F) (t : Owner F) (rows : List (TaxiRow F)) (is_last done : Bool)
      → k.owner.pullers 0 ≡ saw rows done
      → Sent k.owner t is_last
      → Joined k
      → Joined (record { owner = t; session = answered k.session o rows is_last flies })
  unfolding answered prefetched
  answered-Joined k t rows is_last done e m v =
      let before : k.owner.taken ≡ from_owner o k.session.received ++ rows = rw e at v.brought in
      record {
        inv = m.sound;
        alive = m.same_cancelled ∙ v.alive;
        open_request = v.open_request;
        over = over-prefetched k.session is_last;
        closed = λ e.
            elim (closed-prefetched k.session.gate rows is_last (ends k.owner.sent) v.closed e) [
              | inl x ↦ inl (m.one_more ∙ x)
              | inr x ↦ inr x
            ];
        brought =
            rw
              (
                m.free,
                from_owner-append o k.session.received (map (λ row. (o, row)) rows),
                from_owner-map o rows,
              )
              (m.same_taken ∙ before ∙ sym (append-nil _));
        in_flight = inl m.free;
      }

  failed-Joined :
      (k : Link F)
      → k.owner.pullers 0 ≡ ready
      → empty part ≡ true
      → Joined k
      → Joined (record k { session = failed_pull k.session o flies })
  unfolding failed_pull prefetch_failed
  failed-Joined k e none_there v = record {
    inv = v.inv;
    alive = v.alive;
    open_request = v.open_request;
    over = λ _. rw (at_or-put o o false true k.session.gate.prefetch_done_map, text_eq_refl o) refl;
    closed = λ _. inr none_there;
    brought = v.brought;
    in_flight = inl e;
  }

  arrived-Joined :
      (k : Link F) (n : ℤ) (p : Prefetcher) (none_there : empty part ≡ true → idxs ≡ [])
      → k.session.prefetchers o ≡ p
      → Joined k
      → Joined (arrived part o k n p)
  unfolding arrived step
  arrived-Joined k n flies h w v =
      if_cases Joined (empty part) (λ _. v)
        λ _. take-Joined k n _ refl w (step-Inv part idxs k.owner (take_rows 0 n) h v.inv) v
  arrived-Joined k n waits h w v = v
  arrived-Joined k n ended h w v = v

  send-Sent :
      (s : Owner F) (rows : List (TaxiRow F)) (done : Bool)
      → Inv part idxs (send_chunk s 0 (saw rows done))
      → Sent s (send_chunk s 0 (saw rows done)) (last_sent (send_chunk s 0 (saw rows done)).sent)
  unfolding send_chunk
  send-Sent s rows done i = record {
    sound = i;
    same_taken = refl;
    same_cancelled = refl;
    free = refl;
    one_more = refl;
  }

  returned-Joined :
      (k : Link F) (q : Puller F) (p : Prefetcher) (none_there : empty part ≡ true → idxs ≡ [])
      → k.owner.pullers 0 ≡ q
      → k.session.prefetchers o ≡ p
      → Joined k
      → Joined (returned part o k q p)
  unfolding returned step act
  returned-Joined k (saw rows done) flies h q w v =
      let i : Inv part idxs (step part k.owner (send 0)) =
        step-Inv part idxs k.owner (send 0) h v.inv in
      rw (q, w) (answered-Joined k _ rows _ done q (send-Sent k.owner rows done (rw q at i)) v)
  returned-Joined k ready flies h e w v =
      if_cases Joined (empty part) (λ none_there. rw w (failed-Joined k e none_there v)) (λ _. v)
  returned-Joined k q p h e w v = v

  pub turn-Joined :
      (k : Link F) (t : Turn F) (none_there : empty part ≡ true → idxs ≡ [])
      → Joined k
      → Joined (turn part o k t)
  unfolding turn step
  turn-Joined k (gateway a) h v =
      if_cases Joined (ends_pull o a) (λ _. v)
        λ e. gateway-Joined k _ (act-Steady k.session o a e) v
  turn-Joined k (work e) h v =
      if_cases Joined (is_work e)
        (λ w.
          work-Joined k _ (step-Inv part idxs k.owner e h v.inv) (work-shared part k.owner e w) v)
        (λ _. v)
  turn-Joined k (arrive n) h v = arrived-Joined k n _ h refl v
  turn-Joined k load h v = load-Joined k _ refl (step-Inv part idxs k.owner (read_done 0) h v.inv) v
  turn-Joined k return h v = returned-Joined k _ _ h refl refl v
