-- ===== src/Routing/Json/Printed/Tokens.antt =====
-- The tokens of a printed JSON value (cpp/common/routing.cpp: `Lex`).
use mini.Base.{
  ◌≡◌, refl, ap, ◌∙◌, arith, Bool, true, false, not, ◌||◌, ◌==◌, if_cases, Text, codes, text_eq,
  is_empty, [], ◌∷◌, ◌++◌, All, Option, some, Floats,
}
use mathlib.Core.List.{append_assoc}
use mini.Routing.Json.{
  Tok, str, num, Value, null, string, number, boolean, object, array, Items, no_items, item, Fields,
  no_fields, field, is_blank, unescape, is_num, ws, read_str, span_num, word, token, next,
  number_of, is_rbracket,
}
use mini.Routing.Json.Printed.{
  escape_str, print_str, print, print_items, print_fields, PrintsNumbers,
}

-- No number goes on at the front.
abbrev pub stops : Text → Bool
stops [] = true
stops (c ∷ s) = not (is_num c)

pub read_str-escape_str : (t rest : Text) → read_str false (escape_str t ++ 34 ∷ rest) ≡ (t, rest)
unfolding read_str escape_str
read_str-escape_str [] rest = refl
read_str-escape_str (c ∷ t) rest =
    let ih = read_str-escape_str t rest in
    if_cases (λ (l : Text). read_str false (l ++ 34 ∷ rest) ≡ (c ∷ t, rest)) (c == 34 || c == 92)
      (λ special. let kept : unescape c ≡ c = ground arith in rw ih (ap (λ d. (d ∷ t, rest)) kept))
      λ plain.
        let no_quote : (c == 34) ≡ false = ground arith in
        let no_backslash : (c == 92) ≡ false = ground arith in rw (no_quote, no_backslash, ih) refl

pub span_num-append :
    (n rest : Text)
    → All (λ c. is_num c ≡ true) n
    → stops rest ≡ true
    → span_num (n ++ rest) ≡ (n, rest)
unfolding span_num
span_num-append [] [] p h = refl
span_num-append [] (c ∷ rest) p h = ground (arith, h)
span_num-append (c ∷ n) rest p h = rw (p.0, span_num-append n rest p.1 h)

module _ {F : Type 0} ⦃fl : Floats F⦄ (stod : Text → Option F) where
  pub next-num :
      (n : Text) (x : F) (rest : Text)
      → is_empty n ≡ false
      → All (λ c. is_num c ≡ true) n
      → stod n ≡ some x
      → stops rest ≡ true
      → next stod (n ++ rest) ≡ (num x, rest)
  unfolding next ws token word text_eq codes
  next-num [] x rest e p r h = cc
  next-num (c ∷ n) x rest e p r h =
      let blank : is_blank c ≡ false = ground (arith, p.0) in
      let t1 : (c == 123) ≡ false = ground (arith, p.0) in
      let t2 : (c == 125) ≡ false = ground (arith, p.0) in
      let t3 : (c == 91) ≡ false = ground (arith, p.0) in
      let t4 : (c == 93) ≡ false = ground (arith, p.0) in
      let t5 : (c == 58) ≡ false = ground (arith, p.0) in
      let t6 : (c == 44) ≡ false = ground (arith, p.0) in
      let t7 : (c == 34) ≡ false = ground (arith, p.0) in
      let u1 : (c == 116) ≡ false = ground (arith, p.0) in
      let u2 : (c == 102) ≡ false = ground (arith, p.0) in
      let u3 : (c == 110) ≡ false = ground (arith, p.0) in
      rw (blank, t1, t2, t3, t4, t5, t6, t7, u1, u2, u3)
        (rw (p.0, span_num-append n rest p.1 h, number_of) (rw (r, is_empty) refl))

  pub next-str : (t rest : Text) → next stod (print_str t ++ rest) ≡ (str t, rest)
  unfolding next ws token print_str
  next-str t rest =
      ap (λ (r : Text × Text). (str r.0, r.1))
        (ap (read_str false) (append_assoc (escape_str t) (34 ∷ []) rest)
          ∙ read_str-escape_str t rest)

  -- Up to the colon behind a key.
  pub next-key :
      (k v t rest : Text)
      → next stod ((print_str k ++ (58 ∷ (v ++ t))) ++ rest) ≡ (str k, 58 ∷ (v ++ (t ++ rest)))
  next-key k v t rest =
      ap (next stod) (append_assoc (print_str k) (58 ∷ (v ++ t)) rest)
      ∙ (next-str k (58 ∷ ((v ++ t) ++ rest)) ∙ ap (λ u. (str k, 58 ∷ u)) (append_assoc v t rest))

module _ {F : Type 0} ⦃fl : Floats F⦄ (stod : Text → Option F) (print_num : F → Text)
    (numbers : PrintsNumbers stod print_num) where
  pub next-number :
      (x : F) (rest : Text) → stops rest ≡ true → next stod (print_num x ++ rest) ≡ (num x, rest)
  next-number x rest h =
      next-num stod (print_num x) x rest (numbers.some_char x) (numbers.num_chars x)
        (numbers.read_back x) h

  -- What follows a printed value inside an array or an object does not go on a number.
  pub stops-items : (xs : Items F) (rest : Text) → stops (print_items print_num xs ++ rest) ≡ true
  unfolding print
  stops-items no_items rest = refl
  stops-items (item v xs) rest = refl

  pub stops-fields :
      (fs : Fields F) (rest : Text) → stops (print_fields print_num fs ++ rest) ≡ true
  unfolding print
  stops-fields no_fields rest = refl
  stops-fields (field k v fs) rest = refl

  -- No value starts like the end of an array.
  pub starts_value :
      (v : Value F) (rest : Text)
      → stops rest ≡ true
      → is_rbracket (next stod (print print_num v ++ rest)).0 ≡ false
  unfolding print next codes
  starts_value null rest h = refl
  starts_value (boolean true) rest h = refl
  starts_value (boolean false) rest h = refl
  starts_value (string t) rest h = ap (λ (r : Tok F × Text). is_rbracket r.0) (next-str stod t rest)
  starts_value (number x) rest h = ap (λ (r : Tok F × Text). is_rbracket r.0) (next-number x rest h)
  starts_value (array no_items) rest h = refl
  starts_value (array (item v xs)) rest h = refl
  starts_value (object no_fields) rest h = refl
  starts_value (object (field k v fs)) rest h = refl
