-- ===== src/Node/Gateway/Keeps.antt =====
-- The pulls of `prefetcher_loop` (cpp/server/node.cpp) keep the rows of each remote owner.
use mini.Base.{
  ◌≡◌, refl, sym, ap, ◌∙◌, arith, Bool, true, false, ◌||◌, if_cases, Bool-cases, ◌⊎◌, inl, inr,
  Text, text_eq, text_eq_iff, text_eq_refl, at_or, at_or-put, is_empty, List, [], ◌∷◌, ◌++◌, map,
}
use mathlib.Core.List.{append-nil}
use mini.Store.{TaxiRow}
use mini.Node.Gateway.{may_pull}
use mini.Node.Gateway.Conserve.{from_owner, from_owner-append}
use mini.Node.Gateway.Prefetch.{
  Prefetcher, waits, flies, ended, Session, move, issue_pull, missed, failed_pull, answered,
}
use mini.Node.Gateway.Fits.{
  Fits, Fits-answer, Fits-issue, Fits-miss, Fits-end, Fits-fail, is_empty_nil,
}

same_or_other : (x o : Text) → (x ≡ o) ⊎ ((text_eq x o ≡ false) × (text_eq o x ≡ false))
same_or_other x o = elim (Bool-cases (text_eq x o)) [
  | inl same ↦ inl ((text_eq_iff x o).0 same)
  | inr other ↦ inr (other, ground (arith, text_eq_iff x o, text_eq_iff o x))
]

module _ {F : Type 0} where
  abbrev pub Keeps : Text → Session F → Type 0
  Keeps o s =
      Fits (s.prefetchers o) (at_or o [] s.gate.prefetch_buf) (from_owner o s.delivered)
        (from_owner o s.received) (at_or o false s.gate.prefetch_done_map)
        (at_or o false s.gate.client_producers_done)

  pub from_owner-map :
      (o : Text) (rows : List (TaxiRow F)) → from_owner o (map (λ row. (o, row)) rows) ≡ rows
  from_owner-map o [] = refl
  from_owner-map o (row ∷ rows) = rw (text_eq_refl o, from_owner-map o rows)

  pub from_owner-map_other :
      (o x : Text) (rows : List (TaxiRow F))
      → text_eq o x ≡ false
      → from_owner o (map (λ row. (x, row)) rows) ≡ []
  from_owner-map_other o x [] e = refl
  from_owner-map_other o x (row ∷ rows) e = rw (e, from_owner-map_other o x rows e)

  answered-Keeps_same :
      (s : Session F) (o : Text) (rows : List (TaxiRow F)) (is_last : Bool)
      → s.prefetchers o ≡ flies
      → Keeps o s
      → Keeps o (answered s o rows is_last flies)
  unfolding answered
  answered-Keeps_same s o rows true e h =
      rw
        (
          text_eq_refl o,
          from_owner-append o s.received (map (λ row. (o, row)) rows),
          from_owner-map o rows,
          at_or-put o o [] (at_or o [] s.gate.prefetch_buf ++ rows) s.gate.prefetch_buf,
          at_or-put o o false true s.gate.prefetch_done_map,
          text_eq_refl o,
        )
        (Fits-answer {over = at_or o false s.gate.prefetch_done_map} rows true (rw (sym e) h))
  answered-Keeps_same s o rows false e h =
      rw
        (
          text_eq_refl o,
          from_owner-append o s.received (map (λ row. (o, row)) rows),
          from_owner-map o rows,
          at_or-put o o [] (at_or o [] s.gate.prefetch_buf ++ rows) s.gate.prefetch_buf,
          text_eq_refl o,
        )
        (Fits-answer rows false (rw (sym e) h))

  answered-Keeps_other :
      (s : Session F) (o x : Text) (rows : List (TaxiRow F)) (is_last : Bool)
      → text_eq x o ≡ false
      → text_eq o x ≡ false
      → Keeps o s
      → Keeps o (answered s x rows is_last flies)
  unfolding answered
  answered-Keeps_other s o x rows true e e' h =
      rw
        (
          e',
          from_owner-append o s.received (map (λ row. (x, row)) rows),
          from_owner-map_other o x rows e',
          append-nil (from_owner o s.received),
          at_or-put x o [] (at_or x [] s.gate.prefetch_buf ++ rows) s.gate.prefetch_buf,
          at_or-put x o false true s.gate.prefetch_done_map,
          e,
        )
        h
  answered-Keeps_other s o x rows false e e' h =
      rw
        (
          e',
          from_owner-append o s.received (map (λ row. (x, row)) rows),
          from_owner-map_other o x rows e',
          append-nil (from_owner o s.received),
          at_or-put x o [] (at_or x [] s.gate.prefetch_buf ++ rows) s.gate.prefetch_buf,
          e,
        )
        h

  move-Keeps :
      (s : Session F) (o x : Text) (p : Prefetcher)
      → Keeps o s
      → ((x ≡ o)
          → Fits p
              (at_or o [] s.gate.prefetch_buf)
              (from_owner o s.delivered)
              (from_owner o s.received)
              (at_or o false s.gate.prefetch_done_map)
              (at_or o false s.gate.client_producers_done))
      → Keeps o (move s x p)
  move-Keeps s o x p h k = elim (same_or_other x o) [
    | inl e ↦ rw ((text_eq_iff o x).1 (sym e)) (k e)
    | inr e ↦ rw (e.1) h
  ]

  pub issue_pull-Keeps :
      (s : Session F) (o x : Text) (p : Prefetcher)
      → s.prefetchers x ≡ p
      → Keeps o s
      → Keeps o (issue_pull s x p)
  unfolding issue_pull may_pull
  issue_pull-Keeps s o x waits w h =
      if_cases (Keeps o) (may_pull s.gate x)
        (λ may. move-Keeps s o x flies h λ e.
          Fits-issue (ap s.prefetchers (sym e) ∙ w)
            (is_empty_nil _
              (ap (λ y. is_empty (at_or y [] s.gate.prefetch_buf)) (sym e) ∙ ground arith))
            h)
        λ _.
          if_cases (Keeps o)
            (s.gate.prefetch_stop || s.gate.cancelled || is_empty (at_or x [] s.gate.prefetch_buf))
            (λ _. move-Keeps s o x ended h (λ e. Fits-end h)) (λ _. h)
  issue_pull-Keeps s o x flies w h = h
  issue_pull-Keeps s o x ended w h = h

  pub missed-Keeps :
      (s : Session F) (o x : Text) (p : Prefetcher)
      → s.prefetchers x ≡ p
      → Keeps o s
      → Keeps o (missed s x p)
  unfolding missed
  missed-Keeps s o x waits w h = h
  missed-Keeps s o x flies w h =
      move-Keeps s o x waits h (λ e. Fits-miss (ap s.prefetchers (sym e) ∙ w) h)
  missed-Keeps s o x ended w h = h

  pub failed_pull-Keeps :
      (s : Session F) (o x : Text) (p : Prefetcher)
      → s.prefetchers x ≡ p
      → Keeps o s
      → Keeps o (failed_pull s x p)
  unfolding failed_pull
  failed_pull-Keeps s o x waits w h = h
  failed_pull-Keeps s o x flies w h = elim (same_or_other x o) [
    | inl e ↦
        rw
          (
            (text_eq_iff o x).1 (sym e),
            at_or-put x o false true s.gate.prefetch_done_map,
            at_or-put x o false true s.gate.client_producers_done,
            (text_eq_iff x o).1 e,
          )
          (Fits-fail (ap s.prefetchers (sym e) ∙ w) h)
    | inr e ↦
        rw
          (
            e.1,
            at_or-put x o false true s.gate.prefetch_done_map,
            at_or-put x o false true s.gate.client_producers_done,
            e.0,
          )
          h
  ]
  failed_pull-Keeps s o x ended w h = h

  pub answered-Keeps :
      (s : Session F) (o x : Text) (rows : List (TaxiRow F)) (is_last : Bool) (p : Prefetcher)
      → s.prefetchers x ≡ p
      → Keeps o s
      → Keeps o (answered s x rows is_last p)
  unfolding answered
  answered-Keeps s o x rows is_last waits w h = h
  answered-Keeps s o x rows is_last flies w h = elim (same_or_other x o) [
    | inl e ↦ rw e (answered-Keeps_same s o rows is_last (ap s.prefetchers (sym e) ∙ w) h)
    | inr e ↦ answered-Keeps_other s o x rows is_last e.0 e.1 h
  ]
  answered-Keeps s o x rows is_last ended w h = h
