-- ===== src/Routing/Json/Ends.antt =====
-- The JSON reader (cpp/common/routing.cpp) comes to an end on every text, well-formed or not.
use mini.Base.{
  ℕ, zero, suc, ◌+◌, ◌*◌, ◌≤◌, ◌<◌, ◌≡◌, refl, ap, arith, Bool, true, false, if_cases, ◌==◌, Text,
  codes, text_eq, [], ◌∷◌, length, take, length-drop, Option, none, some, Floats, Option-cases, inl,
  inr,
}
use mini.Routing.Json.{
  Tok, lbrace, rbrace, lbracket, rbracket, colon, comma, str, num, true_tok, false_tok, null_tok,
  end_tok, is_comma, is_colon, is_rbracket, Value, object, array, ws, read_str, span_num, is_num,
  word, token, next, wrap, parse_value, parse_fields, parse_items, parse_root, put_field, item,
}

ws-le : (s : Text) → length (ws s) ≤ length s
unfolding ws
ws-le [] = omega arith
ws-le (c ∷ s) = ground (arith, ws-le s)

read_str-le : (b : Bool) (s : Text) → length (read_str b s).1 ≤ length s
unfolding read_str
read_str-le true [] = omega arith
read_str-le false [] = omega arith
read_str-le true (c ∷ s) = omega (arith, read_str-le false s)
read_str-le false (c ∷ s) =
    if_cases (λ (r : Text × Text). length r.1 ≤ length (c ∷ s)) (c == 34) (λ _. omega arith)
      λ _.
        if_cases (λ (r : Text × Text). length r.1 ≤ length (c ∷ s)) (c == 92)
          (λ _. omega (arith, read_str-le (c == 92) s))
          (λ _. omega (arith, read_str-le (c == 92) s))

span_num-le : (s : Text) → length (span_num s).1 ≤ length s
unfolding span_num
span_num-le [] = omega arith
span_num-le (c ∷ s) =
    if_cases (λ (r : Text × Text). length r.1 ≤ length (c ∷ s)) (is_num c)
      (λ _. omega (arith, span_num-le s)) (λ _. omega arith)

-- A token of at least one character.
abbrev is_solid : {F : Type 0} → Tok F → Bool
is_solid (num x) = false
is_solid true_tok = false
is_solid false_tok = false
is_solid null_tok = false
is_solid end_tok = false
is_solid _ = true

module _ {F : Type 0} ⦃fl : Floats F⦄ (stod : Text → Option F) where
  -- The text that a token leaves: no longer, and shorter behind a solid one.
  abbrev Leaves : Text → Tok F × Text → Type 0
  Leaves s r = (length r.1 ≤ length s) × (is_solid r.0 ≡ true → length r.1 < length s)

  word-Leaves : (s : Text) → Leaves s (word stod s)
  unfolding word
  word-Leaves s =
      if_cases (Leaves s) (text_eq (take 4 s) (codes "true"))
        (λ _. (omega (arith, length-drop 4 s), λ e. cc))
        λ _.
          if_cases (Leaves s) (text_eq (take 5 s) (codes "false"))
            (λ _. (omega (arith, length-drop 5 s), λ e. cc))
            λ _.
              if_cases (Leaves s) (text_eq (take 4 s) (codes "null"))
                (λ _. (omega (arith, length-drop 4 s), λ e. cc)) (λ _. (span_num-le s, λ e. cc))

  token-Leaves : (s : Text) → Leaves s (token stod s)
  unfolding token
  token-Leaves [] = (omega arith, λ e. cc)
  token-Leaves (c ∷ s) =
      let P = Leaves (c ∷ s) in
      if_cases P (c == 123) (λ _. one lbrace)
        λ _.
          if_cases P (c == 125) (λ _. one rbrace)
            λ _.
              if_cases P (c == 91) (λ _. one lbracket)
                λ _.
                  if_cases P (c == 93) (λ _. one rbracket)
                    λ _.
                      if_cases P (c == 58) (λ _. one colon)
                        λ _.
                          if_cases P (c == 44) (λ _. one comma)
                            λ _.
                              if_cases P (c == 34)
                                (λ _. (
                                  omega (arith, read_str-le false s),
                                  λ e. omega (arith, read_str-le false s),
                                ))
                                (λ _. word-Leaves (c ∷ s))
    where
      one : (t : Tok F) → Leaves (c ∷ s) (t, s)
      one t = (omega arith, λ e. omega arith)

  next-Leaves : (s : Text) → Leaves s (next stod s)
  unfolding next
  next-Leaves s =
      let (short, solid) = token-Leaves (ws s) in
      (omega (arith, ws-le s), λ e. omega (arith, ws-le s, solid e))

  -- The reader came to an end, with at most `n` characters left.
  abbrev Ends : {A : Type 0} → ℕ → Option (A × Text) → Type 0
  Ends n none = ⊥
  Ends n (some (a, rest)) = length rest ≤ n

  Ends-wrap :
      {A B : Type 0} (g : A → B) (m n : ℕ) (o : Option (A × Text))
      → m ≤ n
      → Ends m o
      → Ends n (wrap g o)
  Ends-wrap g m n none h e = e
  Ends-wrap g m n (some (a, rest)) h e = omega arith

  comma-lt : (s : Text) → is_comma (next stod s).0 ≡ true → length (next stod s).1 < length s
  comma-lt s e = solid_lt (next stod s) (next-Leaves s) (is_comma-solid (next stod s).0 e)
    where
      is_comma-solid : (t : Tok F) → is_comma t ≡ true → is_solid t ≡ true
      is_comma-solid comma e = refl
      is_comma-solid _ e = cc

      solid_lt : (r : Tok F × Text) → Leaves s r → is_solid r.0 ≡ true → length r.1 < length s
      solid_lt r l e = l.1 e

  abbrev FieldsEnd : ℕ → Type 0
  FieldsEnd f =
      (t : Tok F) (s : Text) → 2 * length s + 2 ≤ f → Ends (length s) (parse_fields stod f t s)

  abbrev ItemsEnd : ℕ → Type 0
  ItemsEnd f = (s : Text) → 2 * length s + 2 ≤ f → Ends (length s) (parse_items stod f s)

  value-Ends :
      (f : ℕ) (s : Text) (t : Tok F)
      → (next stod s).0 ≡ t
      → 2 * length s + 1 ≤ suc f
      → FieldsEnd f
      → ItemsEnd f
      → Ends (length s) (parse_value stod (suc f) s)
  unfolding parse_value
  value-Ends f s lbrace e h fields items =
      let s₁ = (next stod s).1 in
      let shorter : length s₁ < length s = (next-Leaves s).1 (ap is_solid e) in
      rw (parse_value, e)
        (Ends-wrap object (length (next stod s₁).1) (length s) _
          (omega (arith, shorter, (next-Leaves s₁).0))
          (fields (next stod s₁).0 (next stod s₁).1 (omega (arith, shorter, (next-Leaves s₁).0))))
  value-Ends f s lbracket e h fields items =
      let s₁ = (next stod s).1 in
      let shorter : length s₁ < length s = (next-Leaves s).1 (ap is_solid e) in
      rw (parse_value, e)
        (if_cases (Ends (length s)) (is_rbracket (next stod s₁).0)
          (λ _. omega (arith, shorter, (next-Leaves s₁).0))
          (λ _.
            Ends-wrap array (length s₁) (length s) _ (omega (arith, shorter))
              (items s₁ (omega (arith, shorter)))))
  value-Ends f s _ e h fields items = rw (parse_value, e) ((next-Leaves s).0)

  mutual
    unfolding parse_value

    parse_value-Ends :
        (f : ℕ) (s : Text) → 2 * length s + 1 ≤ f → Ends (length s) (parse_value stod f s)
    parse_value-Ends zero s h = absurd (omega arith)
    parse_value-Ends (suc f) s h =
        value-Ends f s _ refl h (λ t r g. parse_fields-Ends f t r g) (λ r g. parse_items-Ends f r g)

    parse_fields-Ends :
        (f : ℕ) (t : Tok F) (s : Text)
        → 2 * length s + 2 ≤ f
        → Ends (length s) (parse_fields stod f t s)
    parse_fields-Ends zero t s h = absurd (omega arith)
    parse_fields-Ends (suc f) (str k) s h =
        let s₁ = (next stod s).1 in
        let first = next-Leaves s in
        if_cases (Ends (length s)) (is_colon (next stod s).0)
          (λ _. elim (Option-cases (parse_value stod f s₁)) [
            | inl missing ↦ absurd (rw missing at (parse_value-Ends f s₁ (omega (arith, first.0))))
            | inr ((v, s₂), found) ↦
                let short : length s₂ ≤ length s₁ =
                  rw found at (parse_value-Ends f s₁ (omega (arith, first.0))) in
                let s₃ = (next stod s₂).1 in
                let behind = next-Leaves s₂ in
                let after = next-Leaves s₃ in
                rw found (
                  if_cases (Ends (length s)) (is_comma (next stod s₂).0)
                    (λ e.
                      Ends-wrap (put_field k v) (length (next stod s₃).1) (length s) _
                        (omega (arith, first.0, behind.0, after.0))
                        (parse_fields-Ends f (next stod s₃).0 (next stod s₃).1
                          (omega (arith, first.0, after.0, comma-lt s₂ e))))
                    (λ _. omega (arith, first.0, behind.0)))
          ])
          (λ _. first.0)
    parse_fields-Ends (suc f) _ s h = omega arith

    parse_items-Ends :
        (f : ℕ) (s : Text) → 2 * length s + 2 ≤ f → Ends (length s) (parse_items stod f s)
    parse_items-Ends zero s h = absurd (omega arith)
    parse_items-Ends (suc f) s h = elim (Option-cases (parse_value stod f s)) [
      | inl missing ↦ absurd (rw missing at (parse_value-Ends f s (omega arith)))
      | inr ((v, s₁), found) ↦
          let short : length s₁ ≤ length s = rw found at (parse_value-Ends f s (omega arith)) in
          let behind = next-Leaves s₁ in
          rw (parse_items, found)
            (if_cases (Ends (length s)) (is_comma (next stod s₁).0)
              (λ e.
                Ends-wrap (item v) (length (next stod s₁).1) (length s) _ (omega (arith, behind.0))
                  (parse_items-Ends f (next stod s₁).1 (omega (arith, comma-lt s₁ e))))
              (λ _. omega (arith, behind.0)))
    ]

  -- The descent comes to an end on every text, malformed ones included: `parse_root` always gives it
  -- enough fuel, and it returns a value.
  pub parse_root-ends : (src : Text) → (v : Value F) × (parse_root stod src ≡ some v)
  unfolding parse_root
  parse_root-ends src = elim (Option-cases (parse_value stod (2 * length src + 2) src)) [
    | inl missing ↦ absurd (rw missing at (parse_value-Ends (2 * length src + 2) src (omega arith)))
    | inr ((v, rest), found) ↦ (v, rw (parse_root, found) refl)
  ]
