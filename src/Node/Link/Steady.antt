-- ===== src/Node/Link/Steady.antt =====
-- What the gateway's steps that end no pull from an owner leave as it is (cpp/server/node.cpp).
use mini.Base.{
  ◌≡◌, refl, sym, ap, ◌∙◌, arith, Bool, true, false, ◌||◌, if_cases, Bool-cases, ◌⊎◌, inl, inr, ℤ,
  pos, pos_part, ◌+ℤ◌, Text, text_eq, text_eq_iff, at_or, at_or-put, Dict, is_empty, List, [], map,
}
use mathlib.Core.List.{append-nil}
use mini.Store.{TaxiRow}
use mini.Node.Gateway.{Gateway, Drain, can_answer, may_pull, promote_done, fetch_chunk, prefetched}
use mini.Node.Gateway.Conserve.{from_owner, from_owner-append, drain-Moves}
use mini.Node.Gateway.Frame.{fetch_chunk-frame}
use mini.Node.Gateway.Keeps.{from_owner-map_other}
use mini.Node.Gateway.Prefetch.{
  Prefetcher, waits, flies, ended, Session, Action, issue, miss, fail, answer, local_row, local_end,
  fetch, move, act, issue_pull, missed, failed_pull, answered, fetched,
}
use mini.Node.Link.{ends_pull}

other_way : (x o : Text) → text_eq x o ≡ false → text_eq o x ≡ false
other_way x o h = ground (arith, text_eq_iff x o, text_eq_iff o x)

module _ {F : Type 0} where
  abbrev pub flags : Gateway F → Bool × Bool
  flags g = (g.prefetch_stop, g.cancelled)

  fetch_chunk-flags : (g : Gateway F) (max_rows : ℤ) → flags (fetch_chunk g max_rows).0 ≡ flags g
  unfolding fetch_chunk promote_done
  fetch_chunk-flags g max_rows =
      ap (λ (f : Bool × Bool × Bool). (f.0, f.1)) (fetch_chunk-frame g max_rows)

  fetch_chunk-ends :
      (g : Gateway F) (max_rows : ℤ)
      → (fetch_chunk g max_rows).0.prefetch_done_map ≡ g.prefetch_done_map
  unfolding fetch_chunk promote_done
  fetch_chunk-ends g max_rows =
      let start : Gateway F = record g { client_last_seq = g.client_last_seq +ℤ pos 1 } in
      let d0 : Drain F = record { gate = start; out = []; room = pos_part max_rows } in
      (drain-Moves (pos_part max_rows) d0).same_ends

  -- Of owner `o`: what pulls brought and whether the last of them did, and where its prefetcher is, but for
  -- the start of a pull and the end behind the last.
  pub record Steady (o : Text) (s t : Session F) : Type 0 where
    pub same_flags : flags t.gate ≡ flags s.gate
    pub same_rows : from_owner o t.received ≡ from_owner o s.received
    pub same_end : at_or o false t.gate.prefetch_done_map ≡ at_or o false s.gate.prefetch_done_map
    pub flying : s.prefetchers o ≡ flies → t.prefetchers o ≡ flies
    pub ending :
        flags s.gate ≡ (false, false)
        → t.prefetchers o ≡ ended
        → (s.prefetchers o ≡ ended) ⊎ (at_or o false s.gate.prefetch_done_map ≡ true)

  -- What keeps the rows, the flags, and the end, and moves only another owner's prefetcher.
  still :
      (s t : Session F) (o : Text)
      → flags t.gate ≡ flags s.gate
      → from_owner o t.received ≡ from_owner o s.received
      → at_or o false t.gate.prefetch_done_map ≡ at_or o false s.gate.prefetch_done_map
      → t.prefetchers o ≡ s.prefetchers o
      → Steady o s t
  still s t o f r e p = record {
    same_flags = f;
    same_rows = r;
    same_end = e;
    flying = λ h. p ∙ h;
    ending = λ g h. inl (sym p ∙ h);
  }

  ended-done :
      (g : Gateway F) (o : Text)
      → flags g ≡ (false, false)
      → may_pull g o ≡ false
      → (g.prefetch_stop || g.cancelled || is_empty (at_or o [] g.prefetch_buf)) ≡ true
      → at_or o false g.prefetch_done_map ≡ true
  unfolding may_pull
  ended-done g o f m e =
      let f0 : g.prefetch_stop ≡ false = ap (λ (x : Bool × Bool). x.0) f in
      let f1 : g.cancelled ≡ false = ap (λ (x : Bool × Bool). x.1) f in ground arith

  -- A prefetcher at its wait moves.
  move-Steady :
      (s : Session F) (o x : Text) (p : Prefetcher)
      → s.prefetchers x ≡ waits
      → (p ≡ ended → flags s.gate ≡ (false, false) → at_or x false s.gate.prefetch_done_map ≡ true)
      → Steady o s (move s x p)
  move-Steady s o x p w h = elim (Bool-cases (text_eq o x)) [
    | inl same ↦
        let here : o ≡ x = (text_eq_iff o x).0 same in
        record {
          same_flags = refl;
          same_rows = refl;
          same_end = refl;
          flying = λ e. absurd (cc (sym w ∙ ap s.prefetchers (sym here) ∙ e));
          ending = λ f e.
              inr (ap (λ y. at_or y false s.gate.prefetch_done_map) here ∙ h (rw same at e) f);
        }
    | inr other ↦ still s (move s x p) o refl refl refl (rw other refl)
  ]

  issue_pull-Steady :
      (s : Session F) (o x : Text) (p : Prefetcher)
      → s.prefetchers x ≡ p
      → Steady o s (issue_pull s x p)
  unfolding issue_pull
  issue_pull-Steady s o x waits w =
      if_cases (Steady o s) (may_pull s.gate x)
        (λ _. move-Steady s o x flies w (λ e. absurd (cc e)))
        λ no.
          if_cases (Steady o s)
            (s.gate.prefetch_stop || s.gate.cancelled || is_empty (at_or x [] s.gate.prefetch_buf))
            (λ over. move-Steady s o x ended w (λ _ f. ended-done s.gate x f no over))
            λ _. still s s o refl refl refl refl
  issue_pull-Steady s o x flies w = still s s o refl refl refl refl
  issue_pull-Steady s o x ended w = still s s o refl refl refl refl

  missed-Steady :
      (s : Session F) (o x : Text) (p : Prefetcher)
      → text_eq x o ≡ false
      → Steady o s (missed s x p)
  unfolding missed
  missed-Steady s o x flies h = still s _ o refl refl refl (rw (other_way x o h) refl)
  missed-Steady s o x waits h = still s s o refl refl refl refl
  missed-Steady s o x ended h = still s s o refl refl refl refl

  failed_pull-Steady :
      (s : Session F) (o x : Text) (p : Prefetcher)
      → text_eq x o ≡ false
      → Steady o s (failed_pull s x p)
  unfolding failed_pull
  failed_pull-Steady s o x flies h =
      still s _ o refl refl (rw (at_or-put x o false true s.gate.prefetch_done_map, h) refl)
        (rw (other_way x o h) refl)
  failed_pull-Steady s o x waits h = still s s o refl refl refl refl
  failed_pull-Steady s o x ended h = still s s o refl refl refl refl

  answered-Steady :
      (s : Session F) (o x : Text) (rows : List (TaxiRow F)) (is_last : Bool) (p : Prefetcher)
      → text_eq x o ≡ false
      → Steady o s (answered s x rows is_last p)
  unfolding answered prefetched
  answered-Steady s o x rows is_last flies h =
      still s _ o refl
        (rw
          (
            from_owner-append o s.received (map (λ row. (x, row)) rows),
            from_owner-map_other o x rows (other_way x o h),
          )
          (append-nil _))
        (if_cases (λ (m : Dict Bool). at_or o false m ≡ at_or o false s.gate.prefetch_done_map)
          is_last (λ _. rw (at_or-put x o false true s.gate.prefetch_done_map, h) refl) (λ _. refl))
        (rw (other_way x o h) refl)
  answered-Steady s o x rows is_last waits h = still s s o refl refl refl refl
  answered-Steady s o x rows is_last ended h = still s s o refl refl refl refl

  fetched-Steady : (s : Session F) (o : Text) (max_rows : ℤ) → Steady o s (fetched s max_rows)
  unfolding fetched
  fetched-Steady s o max_rows =
      if_cases (Steady o s) (can_answer s.gate)
        (λ _.
          still s _ o (fetch_chunk-flags s.gate max_rows) refl
            (ap (at_or o false) (fetch_chunk-ends s.gate max_rows)) refl)
        (λ _. still s s o refl refl refl refl)

  pub act-Steady :
      (s : Session F) (o : Text) (a : Action F) → ends_pull o a ≡ false → Steady o s (act s a)
  unfolding act
  act-Steady s o (issue x) h = issue_pull-Steady s o x _ refl
  act-Steady s o (miss x) h = missed-Steady s o x _ h
  act-Steady s o (fail x) h = failed_pull-Steady s o x _ h
  act-Steady s o (answer x rows is_last) h = answered-Steady s o x rows is_last _ h
  act-Steady s o (local_row row) h = still s _ o refl refl refl refl
  act-Steady s o local_end h = still s _ o refl refl refl refl
  act-Steady s o (fetch max_rows) h = fetched-Steady s o max_rows
