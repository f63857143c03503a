-- ===== src/Node/Handlers/Submits.antt =====
-- What a `SubmitQuery` leaves behind (cpp/server/node.cpp): who is pulled from, and who counts as done.
use mini.Base.{
  ℕ, ◌↔◌, ◌≡◌, refl, sym, ap, ◌∙◌, Bool, true, false, not, ◌&&◌, ◌||◌, if◌then◌else◌, ℤ, Text,
  codes, put, find-put, at_or, text_eq, text_eq_refl, is_empty, List, [], keep, none, some, Floats,
  Bool-cases, inl, inr,
}
use mini.Store.{Query}
use mini.Routing.{eligible_owners}
use mini.Routing.Sound.{eligible_owners-sub}
use mini.Routing.Hash.{has_text}
use mini.Node.Relay.{QueryAck, accept}
use mini.Node.Gateway.{Gateway, submit}
use mini.Node.Handlers.{
  Server, Answer, ok, thrown, Attempt, is_delivered, fan_out, prefetched_owners, new_gate, register,
  submit_query,
}
use mini.Node.Handlers.Tables.{request}
use mini.Node.Handlers.Marks.{
  has_text-In, keep_ext, marked_iff, unmarked_iff, at_or-mark_owners, at_or-fan_out,
}
use mini.Node.Handlers.Reached.{IsReached, is_delivered_iff}

module _ {F : Type 0} ⦃fl : Floats F⦄ (slices : List ℕ) (tm_mon : ℤ → ℕ)
    (outcome : Text → ℕ → Attempt) (srv : Server F) (q : Query F) where
  abbrev pub chosen : List Text
  chosen = eligible_owners tm_mon srv.overlay.data_owners q srv.meta

  abbrev fresh_request : Gateway F
  fresh_request = submit (new_gate slices srv q) chosen

  at_or-fresh_request :
      (o : Text)
      → at_or o false fresh_request.client_producers_done
        ≡ (if has_text o srv.overlay.data_owners then not (has_text o chosen) else false)
  unfolding submit new_gate at_or
  at_or-fresh_request o = at_or-mark_owners o chosen srv.overlay.data_owners []

  -- The marks that a submission which does not throw leaves.
  at_or-submitted :
      (o : Text)
      → (fan_out srv outcome chosen fresh_request).1 ≡ false
      → has_text o srv.overlay.data_owners ≡ true
      → at_or o false (fan_out srv outcome chosen fresh_request).0.client_producers_done
        ≡ not (has_text o chosen && (text_eq o srv.name || is_delivered (outcome o)))
  at_or-submitted o h owner =
      at_or-fan_out srv outcome chosen fresh_request o h
      ∙ ap
          (λ b.
            b || (has_text o chosen && not (text_eq o srv.name) && not (is_delivered (outcome o))))
          (at_or-fresh_request o)
      ∙ rw owner (marked_iff (has_text o chosen) (text_eq o srv.name) (is_delivered (outcome o)))

  registered_new :
      request q.request_id srv ≡ none → (register slices srv q).1 ≡ new_gate slices srv q
  unfolding register
  registered_new e = rw (register, e) refl

  -- The loop over the owners of a new request.
  abbrev sent : Gateway F × Bool
  sent = fan_out srv outcome chosen fresh_request

  abbrev after : Server F
  after = record ((register slices srv q).0) {
    requests = put q.request_id sent.0 (register slices srv q).0.requests;
  }

  abbrev Result : Type 0
  Result = Server F × Answer QueryAck × List Text

  submit_query-new :
      text_eq srv.me.role (codes "gateway") ≡ true
      → is_empty q.request_id ≡ false
      → request q.request_id srv ≡ none
      → submit_query slices tm_mon outcome srv q ≡ (
          if sent.1
          then (after, thrown, [])
          else (after, ok (accept q.request_id), prefetched_owners srv.name sent.0 chosen))
  unfolding submit_query fan_out
  submit_query-new gateway named new = rw (submit_query, gateway, named, registered_new new) refl

  started_lem :
      sent.1 ≡ false
      → prefetched_owners srv.name sent.0 chosen
        ≡ keep (λ o. not (text_eq o srv.name) && is_delivered (outcome o)) chosen
  started_lem h = keep_ext _ _ chosen λ o m.
      let eligible = has_text-In o chosen m in
      let owner =
        has_text-In o srv.overlay.data_owners
          (eligible_owners-sub tm_mon srv.overlay.data_owners q srv.meta o m) in
      ap (λ b. not (text_eq o srv.name) && not b) (at_or-submitted o h owner)
      ∙ unmarked_iff (has_text o chosen) (text_eq o srv.name) (is_delivered (outcome o)) eligible

  -- At a gateway, a new request that `SubmitQuery` accepts is in the table. Call an owner reached if one of at
  -- most twenty forwards came back with status OK, whatever its answer says, and all before it with a
  -- transient error. Prefetchers are started for exactly the other nodes among the owners that routing
  -- chose which were reached. Of the data owners, exactly those count as done already that
  -- routing did not choose, and the other nodes that were not reached.
  pub submit_query-accounts :
      (o : Text)
      → text_eq srv.me.role (codes "gateway") ≡ true
      → is_empty q.request_id ≡ false
      → request q.request_id srv ≡ none
      → (submit_query slices tm_mon outcome srv q).1 ≡ ok (accept q.request_id)
      → has_text o srv.overlay.data_owners ≡ true
      → (reached : Text → Bool) × ((x : Text) → (reached x ≡ true) ↔ IsReached (outcome x))
        × (st : Gateway F) × (request q.request_id (submit_query slices tm_mon outcome srv q).0
            ≡ some st)
        × (at_or o false st.client_producers_done
            ≡ not (has_text o chosen && (text_eq o srv.name || reached o)))
        × ((submit_query slices tm_mon outcome srv q).2
            ≡ keep (λ x. not (text_eq x srv.name) && reached x) chosen)
  submit_query-accounts o gateway named new accepted owner = elim (Bool-cases sent.1) [
    | inl threw ↦
        let refusal : thrown ≡ ok (accept q.request_id) =
          ap (λ (r : Result). r.1)
            (sym (
              submit_query-new gateway named new
              ∙ ap
                  (λ b. if b then (after, thrown, []) else (
                    after,
                    ok (accept q.request_id),
                    prefetched_owners srv.name sent.0 chosen,
                  ))
                  threw))
          ∙ accepted in
        cc refusal
    | inr ended ↦ (
      λ x. is_delivered (outcome x),
      λ x. is_delivered_iff (outcome x),
      sent.0,
      rw (submit_query-new gateway named new, ended) put_there,
      at_or-submitted o ended owner,
      rw (submit_query-new gateway named new, ended) (started_lem ended),
    )
  ]
    where
      put_there : request q.request_id after ≡ some sent.0
      put_there =
          rw
            (
              find-put q.request_id q.request_id sent.0 (register slices srv q).0.requests,
              text_eq_refl q.request_id,
            )
            refl
