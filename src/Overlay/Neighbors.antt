-- ===== src/Overlay/Neighbors.antt =====
-- `neighbors` reads the edges in both directions.
use mini.Base.{
  ◌≡◌, sym, ◌∙◌, ap, Text, List, [], ◌∷◌, In, if_cases, ◌⊎◌, inl, inr, ◌↔◌, text_eq, text_eq_iff,
  Sum-map,
}
use mini.Overlay.{Overlay, neighbors, neighbors_of}

neighbors_of-In :
    (n m : Text) (edges : List (Text × Text))
    → In m (neighbors_of n edges)
    → In (n, m) edges ⊎ In (m, n) edges
unfolding neighbors_of
neighbors_of-In n m [] h = absurd h
neighbors_of-In n m ((a, b) ∷ edges) h =
    let shown : List Text → Type 0 =
      λ ys. In m ys → In (n, m) ((a, b) ∷ edges) ⊎ In (m, n) ((a, b) ∷ edges) in
    let later = λ (x : In m (neighbors_of n edges)).
      Sum-map {C = In (n, m) ((a, b) ∷ edges)} {D = In (m, n) ((a, b) ∷ edges)} inr inr
        (neighbors_of-In n m edges x) in
    if_cases shown (text_eq a n)
      (λ from. elim [
        | inl e ↦ let f : a ≡ n = (text_eq_iff a n).0 from in inl (inl (λ i. (f i, e i)))
        | inr x ↦ later x
      ])
      (λ _.
        if_cases shown (text_eq b n)
          (λ to. elim [
            | inl e ↦ let f : b ≡ n = (text_eq_iff b n).0 to in inr (inl (λ i. (e i, f i)))
            | inr x ↦ later x
          ])
          (λ _. later))
      h

In-neighbors_of :
    (n m : Text) (edges : List (Text × Text))
    → In (n, m) edges ⊎ In (m, n) edges
    → In m (neighbors_of n edges)
unfolding neighbors_of
In-neighbors_of n m [] h = elim h [ inl x ↦ x | inr x ↦ x ]
In-neighbors_of n m ((a, b) ∷ edges) h =
    let rest = In-neighbors_of n m edges in
    if_cases (In m) (text_eq a n)
      (λ from.
        let f : a ≡ n = (text_eq_iff a n).0 from in
        elim h [
          | inl (inl e) ↦ inl (ap (λ x. x.1) e)
          | inl (inr x) ↦ inr (rest (inl x))
          | inr (inl e) ↦ inl (ap (λ x. x.1) e ∙ sym f ∙ ap (λ x. x.0) e)
          | inr (inr x) ↦ inr (rest (inr x))
        ])
      λ not_from.
        if_cases (In m) (text_eq b n)
          (λ to. elim h [
            | inl (inl e) ↦ cc (sym not_from ∙ (text_eq_iff a n).1 (ap (λ x. x.0) e))
            | inl (inr x) ↦ inr (rest (inl x))
            | inr (inl e) ↦ inl (ap (λ x. x.0) e)
            | inr (inr x) ↦ inr (rest (inr x))
          ])
          λ not_to. elim h [
            | inl (inl e) ↦ cc (sym not_from ∙ (text_eq_iff a n).1 (ap (λ x. x.0) e))
            | inl (inr x) ↦ rest (inl x)
            | inr (inl e) ↦ cc (sym not_to ∙ (text_eq_iff b n).1 (ap (λ x. x.1) e))
            | inr (inr x) ↦ rest (inr x)
          ]

-- A node's neighbors are exactly the nodes that share an edge with it, in either direction.
pub neighbors-In :
    (o : Overlay) (n m : Text) → In m (neighbors o n) ↔ (In (n, m) o.edges ⊎ In (m, n) o.edges)
unfolding neighbors
neighbors-In o n m = (neighbors_of-In n m o.edges, In-neighbors_of n m o.edges)
