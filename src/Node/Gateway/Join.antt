-- ===== src/Node/Gateway/Join.antt =====
-- The end of the prefetchers (cpp/server/node.cpp): `drop_request` and `CancelQuery` set `prefetch_stop`, and
-- `drop_request` then joins the threads.
use mini.Base.{
  ◌≡◌, refl, sym, ap, ◌∙◌, arith, Bool, true, false, ◌&&◌, ◌||◌, if◌then◌else◌, if_cases,
  Bool-cases, ◌⊎◌, inl, inr, ℤ, Text, text_eq, text_eq_iff, at_or, is_empty, List, [], ◌∷◌,
}
use mini.Store.{TaxiRow}
use mini.Node.Gateway.{can_answer, may_pull, prefetched, prefetch_failed}
use mini.Node.Gateway.Frame.{fetch_chunk-frame}
use mini.Node.Gateway.Prefetch.{
  Prefetcher, waits, flies, ended, Session, Action, issue, miss, fail, answer, local_row, local_end,
  fetch, move, act, act_all, issue_pull, missed, failed_pull, answered, fetched,
}
use mini.Node.Gateway.Join.Fate.{
  fate, returns, looks_at, looks, settles, at_rest, IsStopped, act-Follows,
}
pub mod Fate

-- The flag is set and the waiting threads are woken.
unfoldable pub stop_prefetchers : {F : Type 0} → Session F → Session F
stop_prefetchers s = record s { gate = record (s.gate) { prefetch_stop = true } }

module _ {F : Type 0} where
  fate_ended : (o : Text) (a : Action F) → fate o a ended ≡ ended
  fate_ended o (issue x) =
      if_cases (λ (p : Prefetcher). p ≡ ended) (text_eq o x) (λ _. refl) λ _. refl
  fate_ended o (miss x) =
      if_cases (λ (p : Prefetcher). p ≡ ended) (text_eq o x) (λ _. refl) λ _. refl
  fate_ended o (fail x) =
      if_cases (λ (p : Prefetcher). p ≡ ended) (text_eq o x) (λ _. refl) λ _. refl
  fate_ended o (answer x rows is_last) =
      if_cases (λ (p : Prefetcher). p ≡ ended) (text_eq o x)
        (λ _. if_cases (λ (p : Prefetcher). p ≡ ended) is_last (λ _. refl) λ _. refl) λ _. refl
  fate_ended o (local_row row) = refl
  fate_ended o local_end = refl
  fate_ended o (fetch max_rows) = refl

  stays_ended :
      (l : List (Action F)) (s : Session F) (o : Text)
      → IsStopped s
      → s.prefetchers o ≡ ended
      → (act_all s l).prefetchers o ≡ ended
  unfolding act_all
  stays_ended [] s o h e = e
  stays_ended (a ∷ l) s o h e =
      let (next, stopped) = act-Follows s o a h in
      stays_ended l (act s a) o stopped (next ∙ ap (fate o a) e ∙ fate_ended o a)

  -- A prefetcher at rest asks for no more rows.
  fate-at_rest :
      (o : Text) (a : Action F) (p : Prefetcher)
      → (returns o a ≡ true) ⊎ (at_rest p ≡ true)
      → at_rest (fate o a p) ≡ true
  fate-at_rest o (issue x) waits h =
      if_cases (λ (p : Prefetcher). at_rest p ≡ true) (text_eq o x) (λ _. refl) λ _. refl
  fate-at_rest o (issue x) flies (inl h) = cc
  fate-at_rest o (issue x) flies (inr h) = cc
  fate-at_rest o (issue x) ended h =
      if_cases (λ (p : Prefetcher). at_rest p ≡ true) (text_eq o x) (λ _. refl) λ _. refl
  fate-at_rest o (miss x) p h = elim p [
    | waits ↦ ground arith
    | flies ↦ ground arith
    | ended ↦ ground arith
  ]
  fate-at_rest o (fail x) p h = elim p [
    | waits ↦ ground arith
    | flies ↦ ground arith
    | ended ↦ ground arith
  ]
  fate-at_rest o (answer x rows is_last) p h = elim p [
    | waits ↦ ground arith
    | flies ↦ ground arith
    | ended ↦ ground arith
  ]
  fate-at_rest o (local_row row) p h = ground arith
  fate-at_rest o local_end p h = ground arith
  fate-at_rest o (fetch max_rows) p h = ground arith

  fate-look :
      (o : Text) (a : Action F) (p : Prefetcher)
      → looks_at o a ≡ true
      → at_rest p ≡ true
      → fate o a p ≡ ended
  fate-look o (issue x) waits e h = rw e refl
  fate-look o (issue x) flies e h = cc
  fate-look o (issue x) ended e h = rw e refl
  fate-look o (miss x) p e h = cc
  fate-look o (fail x) p e h = cc
  fate-look o (answer x rows is_last) p e h = cc
  fate-look o (local_row row) p e h = cc
  fate-look o local_end p e h = cc
  fate-look o (fetch max_rows) p e h = cc

  at_rest-ends :
      (l : List (Action F)) (s : Session F) (o : Text)
      → IsStopped s
      → at_rest (s.prefetchers o) ≡ true
      → looks o l ≡ true
      → (act_all s l).prefetchers o ≡ ended
  unfolding act_all
  at_rest-ends [] s o h r e = cc
  at_rest-ends (a ∷ l) s o h r e =
      let (next, stopped) = act-Follows s o a h in
      elim (Bool-cases (looks_at o a)) [
        | inl now ↦ stays_ended l (act s a) o stopped (next ∙ fate-look o a (s.prefetchers o) now r)
        | inr later ↦
            at_rest-ends l (act s a) o stopped
              (ap at_rest next ∙ fate-at_rest o a (s.prefetchers o) (inr r)) (ground arith)
      ]

  settled :
      (l : List (Action F)) (s : Session F) (o : Text)
      → IsStopped s
      → settles o l ≡ true
      → (act_all s l).prefetchers o ≡ ended
  unfolding act_all
  settled [] s o h e = cc
  settled (a ∷ l) s o h e =
      let (next, stopped) = act-Follows s o a h in
      elim (Bool-cases (returns o a && looks o l)) [
        | inl now ↦
            at_rest-ends l (act s a) o stopped
              (ap at_rest next ∙ fate-at_rest o a (s.prefetchers o) (inl (ground arith)))
              (ground arith)
        | inr later ↦ settled l (act s a) o stopped (ground arith)
      ]

  -- Whatever else goes on at the gateway, once `prefetch_stop` is set: when the pull for an owner has returned,
  -- with rows, with an error or at its deadline, and its prefetcher has then got to its wait once more, the
  -- thread has ended, so that `drop_request` can join it.
  pub stop_joins :
      (s : Session F) (o : Text) (l : List (Action F))
      → settles o l ≡ true
      → (act_all (stop_prefetchers s) l).prefetchers o ≡ ended
  unfolding stop_prefetchers
  stop_joins s o l e = settled l (stop_prefetchers s) o refl e
