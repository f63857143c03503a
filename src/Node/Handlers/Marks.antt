-- ===== src/Node/Handlers/Marks.antt =====
-- The marks of `SubmitQuery` on the data owners (cpp/server/node.cpp).
use mini.Base.{
  ℕ, ◌≡◌, refl, sym, ap, ◌∙◌, arith, Bool, true, false, not, ◌&&◌, ◌||◌, if◌then◌else◌, if_cases,
  Text, Dict, put, at_or, at_or-put, text_eq, text_eq_iff, text_eq_refl, List, [], ◌∷◌, In, keep,
  Bool-cases, Option-cases, inl, inr,
}
use mini.Overlay.{next_hop, has_node}
use mini.Routing.Hash.{has_text}
use mini.Node.Gateway.{Gateway, mark_owners, forward_failed}
use mini.Node.Handlers.{Server, Attempt, is_delivered, fan_out}

pub has_text-In : (t : Text) (xs : List Text) → In t xs → has_text t xs ≡ true
unfolding has_text
has_text-In t [] m = absurd m
has_text-In t (x ∷ xs) m = elim m [
  | inl here ↦ ground (arith, text_eq_refl t, here)
  | inr later ↦ ground (arith, has_text-In t xs later)
]

pub keep_ext :
    {A : Type 0} (p q : A → Bool) (xs : List A)
    → ((x : A) → In x xs → p x ≡ q x)
    → keep p xs ≡ keep q xs
keep_ext p q [] h = refl
keep_ext p q (x ∷ xs) h = rw (h x (inl refl), keep_ext p q xs (λ y m. h y (inr m))) refl

-- The marks behind an owner that is skipped, and behind one that a forward goes to.
mark_skipped :
    (a same rest self d : Bool)
    → (same ≡ true → self ≡ true)
    → (a || (rest && not self && not d))
      ≡ (a || ((if same then true else rest) && not self && not d))
mark_skipped a true rest self d h = ground (arith, h refl)
mark_skipped a false rest self d h = refl

mark_sent :
    (a same rest self d : Bool)
    → (same ≡ true → self ≡ false)
    → (a || (same && not d) || (rest && not self && not d))
      ≡ (a || ((if same then true else rest) && not self && not d))
mark_sent a true rest self d h = ground (arith, h refl)
mark_sent true false rest self d h = refl
mark_sent false false rest self d h = refl

pub marked_iff : (c n d : Bool) → (not c || (c && not n && not d)) ≡ not (c && (n || d))
marked_iff false n d = refl
marked_iff true false d = refl
marked_iff true true d = refl

pub unmarked_iff : (c n d : Bool) → c ≡ true → (not n && not (not (c && (n || d)))) ≡ (not n && d)
unmarked_iff true true d h = refl
unmarked_iff true false true h = refl
unmarked_iff true false false h = refl
unmarked_iff false n d h = cc

pub at_or-mark_owners :
    (o : Text) (elig owners : List Text) (m : Dict Bool)
    → at_or o false (mark_owners elig owners m)
      ≡ (if has_text o owners then not (has_text o elig) else at_or o false m)
unfolding mark_owners has_text
at_or-mark_owners o elig [] m = refl
at_or-mark_owners o elig (x ∷ owners) m =
    let rest = at_or-mark_owners o elig owners (put x (not (has_text x elig)) m) in
    let wrote = at_or-put x o false (not (has_text x elig)) m in
    elim (Bool-cases (text_eq x o)) [
      | inl same ↦
          let name : has_text x elig ≡ has_text o elig =
            ap (λ t. has_text t elig) ((text_eq_iff x o).0 same) in
          ground (arith, rest, wrote, same, name)
      | inr other ↦ ground (arith, rest, wrote, other)
    ]

module _ {F : Type 0} where
  -- What an owner's forward makes of the mark of `o`.
  at_or-forward :
      (outcome : Text → ℕ → Attempt) (g : Gateway F) (x o : Text)
      → at_or o false
          (if is_delivered (outcome x) then g else forward_failed g x).client_producers_done
        ≡ (at_or o false g.client_producers_done || (text_eq x o && not (is_delivered (outcome o))))
  unfolding forward_failed
  at_or-forward outcome g x o =
      let wrote = at_or-put x o false true g.client_producers_done in
      if_cases
        (λ (r : Gateway F). at_or o false r.client_producers_done ≡ (
          at_or o false g.client_producers_done || (text_eq x o && not (is_delivered (outcome o)))))
        (is_delivered (outcome x))
        (λ reached. elim (Bool-cases (text_eq x o)) [
          | inl same ↦ ground (arith, reached, name same, same)
          | inr other ↦ ground (arith, other)
        ])
        λ failed. elim (Bool-cases (text_eq x o)) [
          | inl same ↦ ground (arith, failed, name same, same, wrote)
          | inr other ↦ ground (arith, other, wrote)
        ]
    where
      name : text_eq x o ≡ true → is_delivered (outcome x) ≡ is_delivered (outcome o)
      name same = ap (λ t. is_delivered (outcome t)) ((text_eq_iff x o).0 same)

  -- A loop that does not throw marks the owners that it could not reach, and no other.
  pub at_or-fan_out :
      (srv : Server F) (outcome : Text → ℕ → Attempt) (os : List Text) (g : Gateway F) (o : Text)
      → (fan_out srv outcome os g).1 ≡ false
      → at_or o false (fan_out srv outcome os g).0.client_producers_done ≡ (
          at_or o false g.client_producers_done
          || (has_text o os && not (text_eq o srv.name) && not (is_delivered (outcome o))))
  unfolding fan_out has_text
  at_or-fan_out srv outcome [] g o h = ground arith
  at_or-fan_out srv outcome (x ∷ os) g o h =
      let to : Gateway F × Bool → Type 0 = λ r.
        r.1 ≡ false
        → at_or o false r.0.client_producers_done ≡ (
            at_or o false g.client_producers_done
            || (has_text o (x ∷ os)
                && not (text_eq o srv.name)
                && not (is_delivered (outcome o)))) in
      let self_same : text_eq x o ≡ true → text_eq x srv.name ≡ text_eq o srv.name =
        λ same. ap (λ t. text_eq t srv.name) ((text_eq_iff x o).0 same) in
      if_cases to (text_eq x srv.name)
        (λ self h.
          at_or-fan_out srv outcome os g o h
          ∙ mark_skipped (at_or o false g.client_producers_done) (text_eq x o) (has_text o os)
              (text_eq o srv.name) (is_delivered (outcome o)) (λ same. sym (self_same same) ∙ self))
        (λ away. elim (Option-cases (next_hop srv.overlay srv.name x)) [
          | inl missing ↦ rw missing (λ h. cc)
          | inr (hop, found) ↦ rw found (
              if_cases to (has_node srv.overlay hop)
                (λ _ h.
                  at_or-fan_out srv outcome os _ o h
                  ∙ ap
                      (λ b.
                        b
                        || (has_text o os
                            && not (text_eq o srv.name)
                            && not (is_delivered (outcome o))))
                      (at_or-forward outcome g x o)
                  ∙ mark_sent (at_or o false g.client_producers_done) (text_eq x o) (has_text o os)
                      (text_eq o srv.name) (is_delivered (outcome o))
                      (λ same. sym (self_same same) ∙ away))
                (λ _ h. cc))
        ])
        h
