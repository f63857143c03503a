-- ===== src/Node/Handlers/Tables.antt =====
-- The calls of a request leave the other requests of a node alone (cpp/server/node.cpp: `SubmitQuery`,
-- `FetchChunk`, `CancelQuery`).
use mini.Base.{
  ℕ, ◌≡◌, refl, ◌∙◌, false, not, ◌&&◌, if◌then◌else◌, if_cases, ℤ, Text, Dict, codes, find, put,
  erase, find-put, find-erase, text_eq, text_eq_refl, is_empty, List, Option, none, some, Floats,
  Option-cases, inl, inr,
}
use mini.Store.{Query}
use mini.Node.Gateway.{Gateway, can_answer, fetch_chunk, cancel}
use mini.Scheduler.ChunkSizer.{ChunkSizer, decide}
use mini.Node.Relay.{QueryAck}
use mini.Node.Handlers.{
  Server, Answer, Attempt, Chunk, CancelResponse, serve_chunk, cancel_query, submit_query, register,
  drop_request, cancel_throws, Call, submission, fetch, cancellation, serve,
}

-- The request that a call is about.
abbrev pub rid_of : {F : Type 0} → Call F → Text
rid_of (submission outcome q) = q.request_id
rid_of (fetch rid max_rows now) = rid
rid_of (cancellation rid) = rid

module _ {F : Type 0} where
  -- The state of request `j`.
  abbrev pub request : Text → Server F → Option (Gateway F)
  request j srv = find j srv.requests

  put_other :
      (rid j : Text) (st : Gateway F) (m : Dict (Gateway F))
      → text_eq rid j ≡ false
      → find j (put rid st m) ≡ find j m
  put_other rid j st m h = rw (find-put rid j st m, h) refl

  drop-other :
      (srv : Server F) (rid j : Text)
      → text_eq rid j ≡ false
      → request j (drop_request srv rid) ≡ request j srv
  unfolding drop_request
  drop-other srv rid j h = rw (find-erase rid j srv.requests, h) refl

  pub erase_gone : (rid : Text) (m : Dict (Gateway F)) → find rid (erase rid m) ≡ none
  erase_gone rid m = rw (find-erase rid rid m, text_eq_refl rid) refl

  -- Request `j` and the node's role are as before.
  abbrev pub Kept : Text → Server F → Server F → Type 0
  Kept j srv s = (request j s ≡ request j srv) × (s.me ≡ srv.me)

  serve_chunk-other :
      (srv : Server F) (rid j : Text) (max_rows : ℤ) (now : ℕ)
      → text_eq rid j ≡ false
      → Kept j srv
          (elim (serve_chunk srv rid max_rows now) [ none ↦ srv | some (after, answer) ↦ after ])
  unfolding serve_chunk
  serve_chunk-other srv rid j max_rows now h =
      let to : Option (Server F × Answer (Chunk F)) → Type 0 =
        λ r. Kept j srv (elim r [ none ↦ srv | some (after, answer) ↦ after ]) in
      elim (Option-cases (find rid srv.requests)) [
        | inl missing ↦
            rw (serve_chunk, missing)
              (if_cases to (not (text_eq srv.me.role (codes "gateway"))) (λ _. (refl, refl))
                (λ _. (refl, refl)))
        | inr (st, found) ↦
            rw (serve_chunk, found)
              (if_cases to (not (text_eq srv.me.role (codes "gateway"))) (λ _. (refl, refl))
                λ _. if_cases to (can_answer st) (λ _. answered st) (λ _. (refl, refl)))
      ]
    where
      sizes : Gateway F → ChunkSizer × ℤ
      sizes st = decide srv.sizer rid max_rows now

      left : Gateway F → Server F
      left st = record srv {
        sizer = (decide srv.sizer rid max_rows now).0;
        requests = put rid (fetch_chunk st (decide srv.sizer rid max_rows now).1).0 srv.requests;
      }

      kept : (st : Gateway F) → request j (left st) ≡ request j srv
      kept st = put_other rid j _ srv.requests h

      answered :
          (st : Gateway F)
          → Kept j srv (
              if (fetch_chunk st (decide srv.sizer rid max_rows now).1).2
              then drop_request (left st) rid
              else left st)
      answered st =
          if_cases (Kept j srv) (fetch_chunk st (decide srv.sizer rid max_rows now).1).2
            (λ _. (drop-other (left st) rid j h ∙ kept st, refl)) (λ _. (kept st, refl))

  cancel_query-other :
      (srv : Server F) (rid j : Text) → text_eq rid j ≡ false → Kept j srv (cancel_query srv rid).0
  unfolding cancel_query
  cancel_query-other srv rid j h = elim (Option-cases (find rid srv.requests)) [
    | inl missing ↦ rw (cancel_query, missing) (refl, refl)
    | inr (st, found) ↦
        rw (cancel_query, found)
          (if_cases (λ (r : Server F × Answer CancelResponse). Kept j srv r.0)
            (text_eq srv.me.role (codes "gateway") && cancel_throws srv srv.overlay.data_owners)
            (λ _. (put_other rid j _ srv.requests h, refl))
            λ _. (
              drop-other (record srv { requests = put rid (cancel st).0 srv.requests }) rid j h
                  ∙ put_other rid j (cancel st).0 srv.requests h,
              refl,
            ))
  ]

module _ {F : Type 0} ⦃fl : Floats F⦄ (slices : List ℕ) (tm_mon : ℤ → ℕ) where
  register-other :
      (srv : Server F) (q : Query F) (j : Text)
      → text_eq q.request_id j ≡ false
      → Kept j srv (register slices srv q).0
  unfolding register
  register-other srv q j h = elim (Option-cases (find q.request_id srv.requests)) [
    | inl missing ↦ rw (register, missing) (put_other q.request_id j _ srv.requests h, refl)
    | inr (st, found) ↦ rw (register, found) (refl, refl)
  ]

  submit_query-other :
      (outcome : Text → ℕ → Attempt) (srv : Server F) (q : Query F) (j : Text)
      → text_eq q.request_id j ≡ false
      → Kept j srv (submit_query slices tm_mon outcome srv q).0
  unfolding submit_query
  submit_query-other outcome srv q j h =
      let to : Server F × Answer QueryAck × List Text → Type 0 = λ r. Kept j srv r.0 in
      let kept =
        put_other q.request_id j _ (register slices srv q).0.requests h
        ∙ (register-other srv q j h).0 in
      let role = (register-other srv q j h).1 in
      if_cases to (not (text_eq srv.me.role (codes "gateway"))) (λ _. (refl, refl))
        λ _.
          if_cases to (is_empty q.request_id) (λ _. (refl, refl))
            λ _. if_cases to _ (λ _. (kept, role)) (λ _. (kept, role))

  pub serve-other :
      (srv : Server F) (c : Call F) (j : Text)
      → text_eq (rid_of c) j ≡ false
      → Kept j srv (serve slices tm_mon srv c)
  unfolding serve
  serve-other srv (submission outcome q) j h = submit_query-other outcome srv q j h
  serve-other srv (fetch rid max_rows now) j h = serve_chunk-other srv rid j max_rows now h
  serve-other srv (cancellation rid) j h = cancel_query-other srv rid j h
