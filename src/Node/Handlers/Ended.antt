-- ===== src/Node/Handlers/Ended.antt =====
-- A request that is over stays so (cpp/server/node.cpp: `FetchChunk`, `drop_request`).
use mini.Base.{
  ℕ, ◌≡◌, refl, ap, ◌∙◌, Bool, true, false, not, if_cases, ℤ, Text, codes, find, text_eq,
  text_eq_iff, Bool-cases, List, [], ◌∷◌, ◌++◌, All, Option, none, some, Floats, Option-cases, inl,
  inr,
}
use mini.Node.Gateway.{can_answer}
use mini.Overlay.{NodeSpec}
use mini.Node.Handlers.{
  Server, Answer, ok, not_found, Chunk, serve_chunk, cancel_query, drop_request, Call, submission,
  fetch, cancellation, serve, serve_all,
}
use mini.Node.Handlers.Tables.{request, erase_gone, serve-other}

module _ {F : Type 0} where
  fetch_unknown :
      (srv : Server F) (rid : Text) (max_rows : ℤ) (now : ℕ)
      → request rid srv ≡ none
      → elim (serve_chunk srv rid max_rows now) [ none ↦ srv | some (after, answer) ↦ after ] ≡ srv
  unfolding serve_chunk
  fetch_unknown srv rid max_rows now e =
      rw (serve_chunk, e)
        (if_cases
          (λ (r : Option (Server F × Answer (Chunk F))).
            elim r [ none ↦ srv | some (after, answer) ↦ after ] ≡ srv)
          (not (text_eq srv.me.role (codes "gateway"))) (λ _. refl) (λ _. refl))

  cancel_unknown :
      (srv : Server F) (rid : Text) → request rid srv ≡ none → (cancel_query srv rid).0 ≡ srv
  unfolding cancel_query
  cancel_unknown srv rid e = rw (cancel_query, e) refl

  -- Behind the last chunk of a request, its state is gone and the role stays.
  LastDrops : Text → Server F → Option (Server F × Answer (Chunk F)) → Type 0
  LastDrops rid srv none = Unit
  LastDrops rid srv (some (after, ok chunk)) =
      chunk.is_last ≡ true → (request rid after ≡ none) × (after.me ≡ srv.me)
  LastDrops rid srv (some (after, _)) = Unit

  serve_chunk-LastDrops :
      (srv : Server F) (rid : Text) (max_rows : ℤ) (now : ℕ)
      → LastDrops rid srv (serve_chunk srv rid max_rows now)
  unfolding serve_chunk LastDrops drop_request
  serve_chunk-LastDrops srv rid max_rows now = elim (Option-cases (find rid srv.requests)) [
    | inl missing ↦
        rw (serve_chunk, missing)
          (if_cases (LastDrops rid srv) (not (text_eq srv.me.role (codes "gateway"))) (λ _. tt)
            (λ _. tt))
    | inr (st, found) ↦
        rw (serve_chunk, found)
          (if_cases (LastDrops rid srv) (not (text_eq srv.me.role (codes "gateway"))) (λ _. tt)
            λ _.
              if_cases (LastDrops rid srv) (can_answer st)
                (λ _ last. rw last (erase_gone rid _, refl)) (λ _. tt))
  ]

module _ {F : Type 0} ⦃fl : Floats F⦄ (slices : List ℕ) (tm_mon : ℤ → ℕ) where
  -- A call that submits request `j`.
  abbrev pub submits : Text → Call F → Bool
  submits j (submission outcome q) = text_eq q.request_id j
  submits j c = false

  serve-gone :
      (srv : Server F) (c : Call F) (j : Text)
      → submits j c ≡ false
      → request j srv ≡ none
      → (request j (serve slices tm_mon srv c) ≡ none) × ((serve slices tm_mon srv c).me ≡ srv.me)
  unfolding serve
  serve-gone srv (submission outcome q) j h e =
      let kept = serve-other slices tm_mon srv (submission outcome q) j h in (kept.0 ∙ e, kept.1)
  serve-gone srv (fetch rid max_rows now) j h e = elim (Bool-cases (text_eq rid j)) [
    | inl same ↦
        let name : rid ≡ j = (text_eq_iff rid j).0 same in
        let unmoved = fetch_unknown srv rid max_rows now (ap (λ k. request k srv) name ∙ e) in
        rw unmoved (e, refl)
    | inr other ↦
        let kept = serve-other slices tm_mon srv (fetch rid max_rows now) j other in
        (kept.0 ∙ e, kept.1)
  ]
  serve-gone srv (cancellation rid) j h e = elim (Bool-cases (text_eq rid j)) [
    | inl same ↦
        let name : rid ≡ j = (text_eq_iff rid j).0 same in
        let unmoved = cancel_unknown srv rid (ap (λ k. request k srv) name ∙ e) in
        rw unmoved (e, refl)
    | inr other ↦
        let kept = serve-other slices tm_mon srv (cancellation rid) j other in (kept.0 ∙ e, kept.1)
  ]

  serve_all-gone :
      (srv : Server F) (cs : List (Call F)) (j : Text)
      → All (λ c. submits j c ≡ false) cs
      → request j srv ≡ none
      → (request j (serve_all slices tm_mon srv cs) ≡ none)
        × ((serve_all slices tm_mon srv cs).me ≡ srv.me)
  unfolding serve_all
  serve_all-gone srv [] j h e = (e, refl)
  serve_all-gone srv (c ∷ cs) j h e =
      let one = serve-gone srv c j h.0 e in
      let rest = serve_all-gone (serve slices tm_mon srv c) cs j h.1 one.0 in
      (rest.0, rest.1 ∙ one.1)

  -- At a gateway, once `FetchChunk` has answered with `is_last`, every later one for the request answers
  -- NOT_FOUND, whatever calls come in between, as long as none submits the request again.
  pub last_chunk_ends :
      (srv after : Server F) (rid : Text) (max_rows later_rows : ℤ) (now later : ℕ)
      (chunk : Chunk F) (cs : List (Call F))
      → text_eq srv.me.role (codes "gateway") ≡ true
      → serve_chunk srv rid max_rows now ≡ some (after, ok chunk)
      → chunk.is_last ≡ true
      → All (λ c. submits rid c ≡ false) cs
      → serve_chunk (serve_all slices tm_mon after cs) rid later_rows later
        ≡ some (serve_all slices tm_mon after cs, not_found (codes "unknown request_id " ++ rid))
  unfolding serve_chunk LastDrops
  last_chunk_ends srv after rid max_rows later_rows now later chunk cs gateway answered last
        others =
      let (gone, role) = (rw answered at (serve_chunk-LastDrops srv rid max_rows now)) last in
      let (still_gone, still_role) = serve_all-gone after cs rid others gone in
      let acts : text_eq (serve_all slices tm_mon after cs).me.role (codes "gateway") ≡ true =
        ap (λ (me : NodeSpec). text_eq me.role (codes "gateway")) (still_role ∙ role) ∙ gateway in
      rw (serve_chunk, still_gone, acts) refl
