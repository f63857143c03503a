-- ===== src/Node/Gateway/Own.antt =====
-- The gateway's own rows (cpp/server/node.cpp): each step of a session keeps those that are found either with
-- the client or in `matched`.
use mini.Base.{
  ℕ, ◌≡◌, refl, sym, ap, ◌∙◌, arith, Bool, true, false, not, ◌&&◌, ◌||◌, if◌then◌else◌, if_cases,
  Bool-cases, ◌⊎◌, inl, inr, ℤ, pos, pos_part, ◌+ℤ◌, Text, Dict, text_eq, text_eq_iff, text_eq_refl,
  at_or, at_or-put, put, is_empty, List, [], ◌∷◌, ◌++◌, In,
}
use mathlib.Core.List.{append_assoc, append-nil}
use mini.Store.{TaxiRow}
use mini.Routing.Hash.{has_text}
use mini.Node.Gateway.{
  Gateway, Drain, can_answer, may_pull, promote, promote_done, all_done, fetch_chunk, drain, submit,
  forward_failed, mark_owners, prefetched, prefetch_failed,
}
use mini.Node.Gateway.Conserve.{from_owner, from_owner-append, waiting, drain-Moves}
use mini.Node.Gateway.Fits.{is_empty_nil}
use mini.Node.Gateway.Frame.{frame, drain-frame}
use mini.Node.Gateway.Drained.{is_last-done, chunked}
use mini.Node.Gateway.Complete.{fetch_chunk-identity, act_all-identity, submitted-identity}
use mini.Node.Gateway.Prefetch.{
  Prefetcher, waits, flies, ended, Session, Action, issue, miss, fail, answer, local_row, local_end,
  fetch, move, act, act_all, issue_pull, missed, failed_pull, answered, fetched, submitted,
  forwards_failed, begin_prefetch,
}
pub mod Delivers

module _ {F : Type 0} where
  promote-own :
      (g : Gateway F) (o : Text) (os : List Text) (m : Dict Bool)
      → o ≡ g.name
      → at_or o false (promote g os m) ≡ at_or o false m
  unfolding promote
  promote-own g o [] m e = refl
  promote-own g o (x ∷ os) m e =
      promote-own g o os
        (if not (text_eq x g.name)
            && at_or x false g.prefetch_done_map
            && is_empty (at_or x [] g.prefetch_buf)
          then put x true m
          else m)
        e
      ∙ if_cases (λ (n : Dict Bool). at_or o false n ≡ at_or o false m)
          (not (text_eq x g.name)
            && at_or x false g.prefetch_done_map
            && is_empty (at_or x [] g.prefetch_buf))
          (λ h.
            let away : text_eq x o ≡ false = rw e (ground arith) in
            at_or-put x o false true m ∙ rw away refl)
          (λ _. refl)

  waiting_own : (g : Gateway F) (o : Text) → o ≡ g.name → waiting g o ≡ g.matched
  waiting_own g o e =
      let same : text_eq o g.name ≡ true = (text_eq_iff o g.name).1 e in rw same refl

  none_behind : (xs ys : List (TaxiRow F)) → xs ++ ys ≡ [] → ys ≡ []
  none_behind [] ys e = e
  none_behind (x ∷ xs) ys e = cc

  promoted_own :
      (g : Gateway F) (o : Text)
      → o ≡ g.name
      → at_or o false (promote_done g).client_producers_done ≡ true
      → (at_or o false g.client_producers_done ≡ true)
        ⊎ ((g.done_producing ≡ true) × (g.matched ≡ []))
  unfolding promote_done
  promoted_own g o e t =
      if_cases
        (λ (m : Dict Bool).
          at_or o false m ≡ true
          → (at_or o false g.client_producers_done ≡ true)
            ⊎ ((g.done_producing ≡ true) × (g.matched ≡ [])))
        (g.done_producing && is_empty g.matched)
        (λ over _. inr (ground arith, is_empty_nil g.matched (ground arith)))
        (λ _ before. inl before) (sym (promote-own g o g.owners _ e) ∙ t)

  -- `made` is what the producer has found.
  pub record Own (s : Session F) (name : Text) (made : List (TaxiRow F)) : Type 0 where
    named : s.gate.name ≡ name
    kept : from_owner name s.delivered ++ s.gate.matched ≡ made
    no_pulls : s.prefetchers name ≡ ended
    if_done :
        at_or name false s.gate.client_producers_done ≡ true
        → (s.gate.done_producing ≡ true) × (s.gate.matched ≡ [])

  -- A step leaves the producer where it is.
  abbrev pub Stays : Session F → Text → List (TaxiRow F) → Session F → Type 0
  Stays s name made t = Own t name made × (t.gate.done_producing ≡ s.gate.done_producing)

  away :
      (s : Session F) (name x : Text) (p : Prefetcher) (made : List (TaxiRow F))
      → (p ≡ ended → ⊥)
      → s.prefetchers x ≡ p
      → Own s name made
      → text_eq name x ≡ false
  away s name x p made n w v = elim (Bool-cases (text_eq name x)) [
    | inr other ↦ other
    | inl same ↦
        absurd (n (sym w ∙ ap s.prefetchers (sym ((text_eq_iff name x).0 same)) ∙ v.no_pulls))
  ]

  move-Own :
      (s : Session F) (name x : Text) (p : Prefetcher) (made : List (TaxiRow F))
      → text_eq name x ≡ false
      → Own s name made
      → Own (move s x p) name made
  move-Own s name x p made e v = record {
    named = v.named;
    kept = v.kept;
    no_pulls = rw e (v.no_pulls);
    if_done = v.if_done;
  }

  pub issue_pull-Own :
      (s : Session F) (name x : Text) (p : Prefetcher) (made : List (TaxiRow F))
      → s.prefetchers x ≡ p
      → Own s name made
      → Stays s name made (issue_pull s x p)
  unfolding issue_pull
  issue_pull-Own s name x waits made w v =
      let e = away s name x waits made (λ c. cc c) w v in
      if_cases (Stays s name made) (may_pull s.gate x)
        (λ _. (move-Own s name x flies made e v, refl))
        λ _.
          if_cases (Stays s name made)
            (s.gate.prefetch_stop || s.gate.cancelled || is_empty (at_or x [] s.gate.prefetch_buf))
            (λ _. (move-Own s name x ended made e v, refl)) (λ _. (v, refl))
  issue_pull-Own s name x p made w v = (v, refl)

  pub missed-Own :
      (s : Session F) (name x : Text) (p : Prefetcher) (made : List (TaxiRow F))
      → s.prefetchers x ≡ p
      → Own s name made
      → Stays s name made (missed s x p)
  unfolding missed
  missed-Own s name x flies made w v =
      (move-Own s name x waits made (away s name x flies made (λ c. cc c) w v) v, refl)
  missed-Own s name x p made w v = (v, refl)

  pub failed_pull-Own :
      (s : Session F) (name x : Text) (p : Prefetcher) (made : List (TaxiRow F))
      → s.prefetchers x ≡ p
      → Own s name made
      → Stays s name made (failed_pull s x p)
  unfolding failed_pull prefetch_failed
  failed_pull-Own s name x flies made w v =
      let e = away s name x flies made (λ c. cc c) w v in
      let e' : text_eq x name ≡ false = ground (arith, text_eq_iff x name, text_eq_iff name x) in
      (
        record {
          named = v.named;
          kept = v.kept;
          no_pulls = rw e (v.no_pulls);
          if_done = rw (at_or-put x name false true s.gate.client_producers_done, e') (v.if_done);
        },
        refl,
      )
  failed_pull-Own s name x p made w v = (v, refl)

  pub answered-Own :
      (s : Session F) (name x : Text) (rows : List (TaxiRow F)) (is_last : Bool) (p : Prefetcher)
      (made : List (TaxiRow F))
      → s.prefetchers x ≡ p
      → Own s name made
      → Stays s name made (answered s x rows is_last p)
  unfolding answered prefetched
  answered-Own s name x rows is_last flies made w v =
      let e = away s name x flies made (λ c. cc c) w v in
      (
        record {
          named = v.named;
          kept = v.kept;
          no_pulls = rw e (v.no_pulls);
          if_done = v.if_done;
        },
        refl,
      )
  answered-Own s name x rows is_last p made w v = (v, refl)

  pub chunked-Own :
      (s : Session F) (name : Text) (max_rows : ℤ) (made : List (TaxiRow F))
      → Own s name made
      → Stays s name made (chunked s max_rows)
  unfolding fetch_chunk promote_done
  chunked-Own s name max_rows made v =
      let start : Gateway F = record (s.gate) {
        client_last_seq = s.gate.client_last_seq +ℤ pos 1;
      } in
      let d0 : Drain F = record { gate = start; out = []; room = pos_part max_rows } in
      let d = drain (pos_part max_rows) d0 in
      let moved = drain-Moves (pos_part max_rows) d0 in
      let same : d.gate.done_producing ≡ s.gate.done_producing =
        ap (λ (f : Bool × Bool × Bool). f.2) (drain-frame (pos_part max_rows) d0) in
      let name_d : d.gate.name ≡ name = moved.same_name ∙ v.named in
      let rows : from_owner name d.out ++ d.gate.matched ≡ s.gate.matched =
        ap (λ l. from_owner name d.out ++ l) (sym (waiting_own d.gate name (sym name_d)))
        ∙ moved.kept name
        ∙ waiting_own start name (sym v.named) in
      (
        record {
          named = name_d;
          kept = rw (from_owner-append name s.delivered d.out) (
              append_assoc (from_owner name s.delivered) (from_owner name d.out) d.gate.matched
              ∙ ap (λ l. from_owner name s.delivered ++ l) rows
              ∙ v.kept);
          no_pulls = v.no_pulls;
          if_done = λ t. elim (promoted_own d.gate name (sym name_d) t) [
            | inr now ↦ now
            | inl before ↦
                let (ended_rows, none_left) =
                  v.if_done (ap (at_or name false) (sym moved.same_done) ∙ before) in
                (
                  same ∙ ended_rows,
                  none_behind (from_owner name d.out) d.gate.matched (rows ∙ none_left),
                )
          ];
        },
        same,
      )

  pub fetched-Own :
      (s : Session F) (name : Text) (max_rows : ℤ) (made : List (TaxiRow F))
      → Own s name made
      → Stays s name made (fetched s max_rows)
  unfolding fetched
  fetched-Own s name max_rows made v =
      if_cases (Stays s name made) (can_answer s.gate) (λ _. chunked-Own s name max_rows made v)
        (λ _. (v, refl))
