-- ===== src/Routing/Json.antt =====
-- The JSON reader of cpp/common/routing.cpp: `Lex` and the recursive descent. The lexer's state is the
-- text that is left. `std::stod` is a parameter, `none` where it throws. The descent runs on fuel, of
-- which `parse_root` gives enough for every text: `none` stands for want of it.
pub mod Ends
pub mod Printed
use mini.Base.{
  ℕ, zero, suc, ◌+◌, ◌*◌, Bool, true, false, not, ◌&&◌, ◌||◌, ◌==◌, leb, if◌then◌else◌, pos, Text,
  codes, text_eq, is_empty, List, [], ◌∷◌, length, take, drop, Option, none, some, Floats,
}

pub data Tok (F : Type 0) : Type 0 where
  lbrace rbrace lbracket rbracket colon comma : Tok F
  str : Text → Tok F
  num : F → Tok F
  true_tok false_tok null_tok end_tok : Tok F

module _ {F : Type 0} where
  abbrev pub is_comma : Tok F → Bool
  is_comma comma = true
  is_comma _ = false

  abbrev pub is_colon : Tok F → Bool
  is_colon colon = true
  is_colon _ = false

  abbrev pub is_rbracket : Tok F → Bool
  is_rbracket rbracket = true
  is_rbracket _ = false

-- A JSON value. The fields of an object are a `std::map`.
mutual
  pub data Value (F : Type 0) : Type 0 where
    null : Value F
    string : Text → Value F
    number : F → Value F
    boolean : Bool → Value F
    object : Fields F → Value F
    array : Items F → Value F

  pub data Items (F : Type 0) : Type 0 where
    no_items : Items F
    item : Value F → Items F → Items F

  pub data Fields (F : Type 0) : Type 0 where
    no_fields : Fields F
    field : Text → Value F → Fields F → Fields F

abbrev pub is_blank : ℕ → Bool
is_blank c = c == 32 || c == 10 || c == 13 || c == 9

unfoldable pub ws : Text → Text
ws [] = []
ws (c ∷ s) = let rest = ws s in if is_blank c then rest else c ∷ s

-- What a character behind a backslash stands for.
abbrev pub unescape : ℕ → ℕ
unescape c = if c == 110 then 10 else if c == 116 then 9 else c

-- The string up to its closing quote or the end, and what is left. The flag is set behind a backslash;
-- one at the very end stands for itself.
unfoldable pub read_str : Bool → Text → Text × Text
read_str true [] = (92 ∷ [], [])
read_str false [] = ([], [])
read_str true (c ∷ s) = let rest = read_str false s in (unescape c ∷ rest.0, rest.1)
read_str false (c ∷ s) =
    let rest = read_str (c == 92) s in
    if c == 34 then ([], s) else if c == 92 then rest else (c ∷ rest.0, rest.1)

-- A digit, or one of `.eE+-`.
abbrev pub is_num : ℕ → Bool
is_num c = leb 48 c && leb c 57 || c == 46 || c == 101 || c == 69 || c == 43 || c == 45

unfoldable pub span_num : Text → Text × Text
span_num [] = ([], [])
span_num (c ∷ s) = let rest = span_num s in if is_num c then (c ∷ rest.0, rest.1) else ([], c ∷ s)

module _ {F : Type 0} ⦃fl : Floats F⦄ (stod : Text → Option F) where
  abbrev pub number_of : Text → F
  number_of t = elim (stod t) [ none ↦ fl.of_int (pos 0) | some x ↦ x ]

  -- A number, `true`, `false` or `null`; at any other character a number of no characters.
  unfoldable pub word : Text → Tok F × Text
  unfolding span_num codes text_eq
  word s =
      if text_eq (take 4 s) (codes "true")
      then (true_tok, drop 4 s)
      else if text_eq (take 5 s) (codes "false")
      then (false_tok, drop 5 s)
      else if text_eq (take 4 s) (codes "null")
      then (null_tok, drop 4 s)
      else (num (number_of (span_num s).0), (span_num s).1)

  unfoldable pub token : Text → Tok F × Text
  unfolding read_str word
  token [] = (end_tok, [])
  token (c ∷ s) =
      if c == 123
      then (lbrace, s)
      else if c == 125
      then (rbrace, s)
      else if c == 91
      then (lbracket, s)
      else if c == 93
      then (rbracket, s)
      else if c == 58
      then (colon, s)
      else if c == 44
      then (comma, s)
      else if c == 34
      then (str (read_str false s).0, (read_str false s).1)
      else word (c ∷ s)

  unfoldable pub next : Text → Tok F × Text
  unfolding ws token
  next s = token (ws s)

unfoldable pub has_field : {F : Type 0} → Text → Fields F → Bool
has_field k no_fields = false
has_field k (field j v fs) = let rest = has_field k fs in if text_eq j k then true else rest

-- `v.obj[key] = child`, before the fields that follow: a later one of the same key replaces it.
unfoldable pub put_field : {F : Type 0} → Text → Value F → Fields F → Fields F
unfolding has_field
put_field k v fs = if has_field k fs then fs else field k v fs

-- A result with its value wrapped.
abbrev pub wrap : {A B : Type 0} → (A → B) → Option (A × Text) → Option (B × Text)
wrap g none = none
wrap g (some (a, rest)) = some (g a, rest)

module _ {F : Type 0} ⦃fl : Floats F⦄ (stod : Text → Option F) where
  unfoldable mutual
    unfolding next put_field

    pub parse_value : ℕ → Text → Option (Value F × Text)
    parse_value zero s = none
    parse_value (suc f) s = elim (next stod s).0 [
      | lbrace ↦
          wrap object (parse_fields f (next stod (next stod s).1).0 (next stod (next stod s).1).1)
      | lbracket ↦
          let rest = parse_items f (next stod s).1 in
          if is_rbracket (next stod (next stod s).1).0
          then some (array no_items, (next stod (next stod s).1).1)
          else wrap array rest
      | str t ↦ some (string t, (next stod s).1)
      | num x ↦ some (number x, (next stod s).1)
      | true_tok ↦ some (boolean true, (next stod s).1)
      | false_tok ↦ some (boolean false, (next stod s).1)
      | _ ↦ some (null, (next stod s).1)
    ]

    -- The loop of `parse_object`, from the token `t` on.
    pub parse_fields : ℕ → Tok F → Text → Option (Fields F × Text)
    parse_fields zero t s = none
    parse_fields (suc f) (str k) s =
        let child = parse_value f (next stod s).1 in
        let more : Option (Fields F × Text) = elim child [
          | none ↦ none
          | some (v, s₁) ↦
              let rest =
                parse_fields f (next stod (next stod s₁).1).0 (next stod (next stod s₁).1).1 in
              if is_comma (next stod s₁).0
              then wrap (put_field k v) rest
              else some (field k v no_fields, (next stod s₁).1)
        ] in
        if is_colon (next stod s).0 then more else some (no_fields, (next stod s).1)
    parse_fields (suc f) _ s = some (no_fields, s)

    -- The loop of `parse_array`.
    pub parse_items : ℕ → Text → Option (Items F × Text)
    parse_items zero s = none
    parse_items (suc f) s = elim (parse_value f s) [
      | none ↦ none
      | some (v, s₁) ↦
          let rest = parse_items f (next stod s₁).1 in
          if is_comma (next stod s₁).0
          then wrap (item v) rest
          else some (item v no_items, (next stod s₁).1)
    ]

  unfoldable pub parse_root : Text → Option (Value F)
  unfolding parse_value
  parse_root src = elim (parse_value (2 * length src + 2) src) [
    | none ↦ none
    | some (v, rest) ↦ some v
  ]
