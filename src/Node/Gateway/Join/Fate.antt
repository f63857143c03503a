-- ===== src/Node/Gateway/Join/Fate.antt =====
-- What each action does to a prefetcher once `prefetch_stop` is set (cpp/server/node.cpp).
use mini.Base.{
  ◌≡◌, refl, sym, ap, ◌∙◌, arith, Bool, true, false, ◌&&◌, ◌||◌, if◌then◌else◌, if_cases,
  Bool-cases, inl, inr, ℤ, Text, text_eq, text_eq_iff, at_or, is_empty, List, [], ◌∷◌,
}
use mini.Store.{TaxiRow}
use mini.Node.Gateway.{can_answer, may_pull, prefetched, prefetch_failed}
use mini.Node.Gateway.Frame.{fetch_chunk-frame}
use mini.Node.Gateway.Prefetch.{
  Prefetcher, waits, flies, ended, Session, Action, issue, miss, fail, answer, local_row, local_end,
  fetch, move, act, issue_pull, missed, failed_pull, answered, fetched,
}

-- What a prefetcher does when it looks at the flag, when its pull missed the deadline or brought rows,
-- and when the pull failed or brought the last rows.
abbrev look : Prefetcher → Prefetcher
look waits = ended
look p = p

abbrev back : Prefetcher → Prefetcher
back flies = waits
back p = p

abbrev quit : Prefetcher → Prefetcher
quit flies = ended
quit p = p

-- What an action does to the prefetcher of `o` once the flag is set.
abbrev pub fate : {F : Type 0} → Text → Action F → Prefetcher → Prefetcher
fate o (issue x) p = if text_eq o x then look p else p
fate o (miss x) p = if text_eq o x then back p else p
fate o (fail x) p = if text_eq o x then quit p else p
fate o (answer x rows is_last) p = if text_eq o x then (if is_last then quit p else back p) else p
fate o a p = p

-- The pull for `o` returns.
abbrev pub returns : {F : Type 0} → Text → Action F → Bool
returns o (miss x) = text_eq o x
returns o (fail x) = text_eq o x
returns o (answer x rows is_last) = text_eq o x
returns o a = false

-- The prefetcher of `o` gets to its wait.
abbrev pub looks_at : {F : Type 0} → Text → Action F → Bool
looks_at o (issue x) = text_eq o x
looks_at o a = false

abbrev pub looks : {F : Type 0} → Text → List (Action F) → Bool
looks o [] = false
looks o (a ∷ l) = looks_at o a || looks o l

-- The pull for `o` returns, and the prefetcher then gets to its wait.
abbrev pub settles : {F : Type 0} → Text → List (Action F) → Bool
settles o [] = false
settles o (a ∷ l) = (returns o a && looks o l) || settles o l

abbrev pub at_rest : Prefetcher → Bool
at_rest flies = false
at_rest p = true

module _ {F : Type 0} where
  abbrev pub IsStopped : Session F → Type 0
  IsStopped s = s.gate.prefetch_stop ≡ true

  moved :
      (s : Session F) (o x : Text) (p : Prefetcher) (f : Prefetcher → Prefetcher)
      → s.prefetchers x ≡ p
      → (move s x (f p)).prefetchers o
        ≡ (if text_eq o x then f (s.prefetchers o) else s.prefetchers o)
  moved s o x p f e = elim (Bool-cases (text_eq o x)) [
    | inl same ↦ rw same (ap f (sym e ∙ ap s.prefetchers (sym ((text_eq_iff o x).0 same))))
    | inr other ↦ rw other refl
  ]

  unmoved :
      (s : Session F) (o x : Text) (p : Prefetcher) (f : Prefetcher → Prefetcher)
      → s.prefetchers x ≡ p
      → f p ≡ p
      → s.prefetchers o ≡ (if text_eq o x then f (s.prefetchers o) else s.prefetchers o)
  unmoved s o x p f e same_p = elim (Bool-cases (text_eq o x)) [
    | inl same ↦
        let here : s.prefetchers o ≡ p = ap s.prefetchers ((text_eq_iff o x).0 same) ∙ e in
        rw same (here ∙ sym same_p ∙ ap f (sym here))
    | inr other ↦ rw other refl
  ]

  -- The action keeps the flag and does what `fate` says.
  abbrev Follows : Session F → Text → Prefetcher → Session F → Type 0
  Follows s o p t = (t.prefetchers o ≡ p) × IsStopped t

  issue_pull-Follows :
      (s : Session F) (o x : Text) (p : Prefetcher)
      → s.prefetchers x ≡ p
      → IsStopped s
      → Follows s o (fate {F = F} o (issue x) (s.prefetchers o)) (issue_pull s x p)
  unfolding issue_pull may_pull
  issue_pull-Follows s o x waits e h =
      let Fits : Session F → Type 0 = Follows s o (fate {F = F} o (issue x) (s.prefetchers o)) in
      if_cases Fits (may_pull s.gate x) (λ m. absurd (ground arith))
        λ _.
          if_cases Fits
            (s.gate.prefetch_stop || s.gate.cancelled || is_empty (at_or x [] s.gate.prefetch_buf))
            (λ _. (moved s o x waits look e, h)) (λ no. absurd (ground arith))
  issue_pull-Follows s o x flies e h = (unmoved s o x flies look e refl, h)
  issue_pull-Follows s o x ended e h = (unmoved s o x ended look e refl, h)

  missed-Follows :
      (s : Session F) (o x : Text) (p : Prefetcher)
      → s.prefetchers x ≡ p
      → IsStopped s
      → Follows s o (fate {F = F} o (miss x) (s.prefetchers o)) (missed s x p)
  unfolding missed
  missed-Follows s o x waits e h = (unmoved s o x waits back e refl, h)
  missed-Follows s o x flies e h = (moved s o x flies back e, h)
  missed-Follows s o x ended e h = (unmoved s o x ended back e refl, h)

  failed_pull-Follows :
      (s : Session F) (o x : Text) (p : Prefetcher)
      → s.prefetchers x ≡ p
      → IsStopped s
      → Follows s o (fate {F = F} o (fail x) (s.prefetchers o)) (failed_pull s x p)
  unfolding failed_pull prefetch_failed
  failed_pull-Follows s o x waits e h = (unmoved s o x waits quit e refl, h)
  failed_pull-Follows s o x flies e h = (moved s o x flies quit e, h)
  failed_pull-Follows s o x ended e h = (unmoved s o x ended quit e refl, h)

  answered-Follows :
      (s : Session F) (o x : Text) (rows : List (TaxiRow F)) (is_last : Bool) (p : Prefetcher)
      → s.prefetchers x ≡ p
      → IsStopped s
      → Follows s o (fate o (answer x rows is_last) (s.prefetchers o)) (answered s x rows is_last p)
  unfolding answered prefetched
  answered-Follows s o x rows true waits e h = (unmoved s o x waits quit e refl, h)
  answered-Follows s o x rows true flies e h = (moved s o x flies quit e, h)
  answered-Follows s o x rows true ended e h = (unmoved s o x ended quit e refl, h)
  answered-Follows s o x rows false waits e h = (unmoved s o x waits back e refl, h)
  answered-Follows s o x rows false flies e h = (moved s o x flies back e, h)
  answered-Follows s o x rows false ended e h = (unmoved s o x ended back e refl, h)

  fetched-Follows :
      (s : Session F) (o : Text) (max_rows : ℤ)
      → IsStopped s
      → Follows s o (s.prefetchers o) (fetched s max_rows)
  unfolding fetched
  fetched-Follows s o max_rows h =
      if_cases (Follows s o (s.prefetchers o)) (can_answer s.gate)
        (λ _. (refl, ap (λ (f : Bool × Bool × Bool). f.0) (fetch_chunk-frame s.gate max_rows) ∙ h))
        (λ _. (refl, h))

  pub act-Follows :
      (s : Session F) (o : Text) (a : Action F)
      → IsStopped s
      → Follows s o (fate o a (s.prefetchers o)) (act s a)
  unfolding act
  act-Follows s o (issue x) h = issue_pull-Follows s o x _ refl h
  act-Follows s o (miss x) h = missed-Follows s o x _ refl h
  act-Follows s o (fail x) h = failed_pull-Follows s o x _ refl h
  act-Follows s o (answer x rows is_last) h = answered-Follows s o x rows is_last _ refl h
  act-Follows s o (local_row row) h = (refl, h)
  act-Follows s o local_end h = (refl, h)
  act-Follows s o (fetch max_rows) h = fetched-Follows s o max_rows h
