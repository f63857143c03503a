-- ===== src/Routing/Json/Printed/Read.antt =====
-- A printed JSON value is read back (cpp/common/routing.cpp: `parse_value`, `parse_root`).
use mini.Base.{
  ℕ, zero, suc, ◌+◌, ◌*◌, ◌<◌, ◌≡◌, refl, sym, ap, ◌∙◌, arith, Bool, true, false, not, ◌&&◌,
  if◌then◌else◌, if_cases, Text, codes, [], ◌∷◌, ◌++◌, length, Option, none, some, Floats,
}
use mathlib.Core.List.{append_assoc, append-nil}
use mini.Routing.Json.{
  Tok, str, num, rbrace, lbrace, lbracket, true_tok, false_tok, wrap, is_comma, Value, null, string,
  number, boolean, object, array, Items, no_items, item, Fields, no_fields, field, next, has_field,
  put_field, parse_value, parse_items, parse_fields, parse_root, is_rbracket,
}
use mini.Routing.Json.Printed.{
  print_str, print, print_items, print_fields, PrintsNumbers, has_keys, items_keys, fields_keys,
}
use mini.Routing.Json.Printed.Size.{need, need_items, need_fields, need-print}
use mini.Routing.Json.Printed.Tokens.{
  stops, next-str, next-key, next-number, stops-items, starts_value,
}

and_left : (a b : Bool) → a && b ≡ true → a ≡ true
and_left true b h = refl
and_left false b h = h

and_right : (a b : Bool) → a && b ≡ true → b ≡ true
and_right true b h = h
and_right false b h = cc

put_field-fresh :
    {F : Type 0} (k : Text) (v : Value F) (fs : Fields F)
    → not (has_field k fs) ≡ true
    → put_field k v fs ≡ field k v fs
unfolding put_field
put_field-fresh k v fs h = if_cases (λ u. u ≡ field k v fs) (has_field k fs) (λ e. cc) (λ _. refl)

module _ {F : Type 0} ⦃fl : Floats F⦄ (stod : Text → Option F) (print_num : F → Text)
    (numbers : PrintsNumbers stod print_num) where
  -- The readers' branches, from what is already read.
  abbrev value_from : ℕ → Tok F × Text → Option (Value F × Text)
  value_from f r = elim r.0 [
    | lbrace ↦ wrap object (parse_fields stod f (next stod r.1).0 (next stod r.1).1)
    | lbracket ↦
        if is_rbracket (next stod r.1).0
        then some (array no_items, (next stod r.1).1)
        else wrap array (parse_items stod f r.1)
    | str t ↦ some (string t, r.1)
    | num x ↦ some (number x, r.1)
    | true_tok ↦ some (boolean true, r.1)
    | false_tok ↦ some (boolean false, r.1)
    | _ ↦ some (null, r.1)
  ]

  abbrev items_from : ℕ → Option (Value F × Text) → Option (Items F × Text)
  items_from f o = elim o [
    | none ↦ none
    | some (v, s) ↦
        if is_comma (next stod s).0
        then wrap (item v) (parse_items stod f (next stod s).1)
        else some (item v no_items, (next stod s).1)
  ]

  abbrev fields_from : ℕ → Text → Option (Value F × Text) → Option (Fields F × Text)
  fields_from f k o = elim o [
    | none ↦ none
    | some (v, s) ↦
        if is_comma (next stod s).0
        then wrap (put_field k v)
            (parse_fields stod f (next stod (next stod s).1).0 (next stod (next stod s).1).1)
        else some (field k v no_fields, (next stod s).1)
  ]

  parse_value-from : (f : ℕ) (s : Text) → parse_value stod (suc f) s ≡ value_from f (next stod s)
  unfolding parse_value
  parse_value-from f s = refl

  parse_items-from :
      (f : ℕ) (s : Text) → parse_items stod (suc f) s ≡ items_from f (parse_value stod f s)
  unfolding parse_value
  parse_items-from f s = refl

  parse_fields-from :
      (f : ℕ) (k s : Text)
      → parse_fields stod (suc f) (str k) (58 ∷ s) ≡ fields_from f k (parse_value stod f s)
  unfolding parse_value next
  parse_fields-from f k s = refl

  parse_fields-end : (f : ℕ) (s : Text) → parse_fields stod (suc f) rbrace s ≡ some (no_fields, s)
  unfolding parse_value
  parse_fields-end f s = refl

  mutual
    unfolding print has_keys need next codes put_field

    parse_value-print :
        (v : Value F) (f : ℕ) (rest : Text)
        → has_keys v ≡ true
        → need v < f
        → stops rest ≡ true
        → parse_value stod f (print print_num v ++ rest) ≡ some (v, rest)
    parse_value-print v zero rest k h e = absurd (omega (arith, h))
    parse_value-print null (suc f) rest k h e = parse_value-from f (codes "null" ++ rest)
    parse_value-print (boolean true) (suc f) rest k h e = parse_value-from f (codes "true" ++ rest)
    parse_value-print (boolean false) (suc f) rest k h e =
        parse_value-from f (codes "false" ++ rest)
    parse_value-print (string t) (suc f) rest k h e =
        parse_value-from f (print_str t ++ rest) ∙ ap (value_from f) (next-str stod t rest)
    parse_value-print (number x) (suc f) rest k h e =
        parse_value-from f (print_num x ++ rest)
        ∙ ap (value_from f) (next-number stod print_num numbers x rest e)
    parse_value-print (array no_items) (suc f) rest k h e = parse_value-from f (91 ∷ 93 ∷ rest)
    parse_value-print (array (item v xs)) (suc f) rest k h e =
        ap (λ u. parse_value stod (suc f) (91 ∷ u))
          (append_assoc (print print_num v) (print_items print_num xs) rest)
        ∙ (parse_value-from f (91 ∷ (print print_num v ++ (print_items print_num xs ++ rest)))
            ∙ ap
                (λ (b : Bool).
                  if b
                  then some (
                    array no_items,
                    (next stod (print print_num v ++ (print_items print_num xs ++ rest))).1,
                  )
                  else wrap array (
                      parse_items stod f (print print_num v ++ (print_items print_num xs ++ rest))))
                (starts_value stod print_num numbers v (print_items print_num xs ++ rest)
                  (stops-items stod print_num numbers xs rest))
            ∙ ap (wrap array) (parse_items-print v xs f rest k (omega (arith, h))))
    parse_value-print (object no_fields) (suc zero) rest k h e = absurd (omega (arith, h))
    parse_value-print (object no_fields) (suc (suc f)) rest k h e =
        parse_value-from (suc f) (123 ∷ 125 ∷ rest) ∙ ap (wrap object) (parse_fields-end f rest)
    parse_value-print (object (field j v fs)) (suc f) rest k h e =
        parse_value-from f (print print_num (object (field j v fs)) ++ rest)
        ∙ ap (λ (r : Tok F × Text). wrap object (parse_fields stod f r.0 r.1))
            (next-key stod j (print print_num v) (print_fields print_num fs) rest)
        ∙ ap (wrap object) (parse_fields-print j v fs f rest k (omega (arith, h)))

    parse_items-print :
        (v : Value F) (xs : Items F) (f : ℕ) (rest : Text)
        → items_keys (item v xs) ≡ true
        → need_items (item v xs) < f
        → parse_items stod f (print print_num v ++ (print_items print_num xs ++ rest))
          ≡ some (item v xs, rest)
    parse_items-print v xs zero rest k h = absurd (omega (arith, h))
    parse_items-print v no_items (suc f) rest k h =
        parse_items-from f (print print_num v ++ (93 ∷ rest))
        ∙ ap (items_from f) (
            parse_value-print v f (93 ∷ rest) (and_left (has_keys v) true k) (omega (arith, h))
              refl)
    parse_items-print v (item w xs) (suc f) rest k h =
        parse_items-from f (print print_num v ++ (print_items print_num (item w xs) ++ rest))
        ∙ ap (items_from f) (
            parse_value-print v f (print_items print_num (item w xs) ++ rest)
              (and_left (has_keys v) (has_keys w && items_keys xs) k) (omega (arith, h)) refl)
        ∙ ap (λ u. wrap (item v) (parse_items stod f u))
            (append_assoc (print print_num w) (print_items print_num xs) rest)
        ∙ ap (wrap (item v)) (
            parse_items-print w xs f rest (and_right (has_keys v) (has_keys w && items_keys xs) k)
              (omega (arith, h)))

    parse_fields-print :
        (j : Text) (v : Value F) (fs : Fields F) (f : ℕ) (rest : Text)
        → fields_keys (field j v fs) ≡ true
        → need_fields (field j v fs) < f
        → parse_fields stod f
            (str j)
            (58 ∷ (print print_num v ++ (print_fields print_num fs ++ rest)))
          ≡ some (field j v fs, rest)
    parse_fields-print j v fs zero rest k h = absurd (omega (arith, h))
    parse_fields-print j v no_fields (suc f) rest k h =
        parse_fields-from f j (print print_num v ++ (125 ∷ rest))
        ∙ ap (fields_from f j) (
            parse_value-print v f (125 ∷ rest) (and_left (has_keys v) true k) (omega (arith, h))
              refl)
    parse_fields-print j v (field i w fs) (suc f) rest k h =
        parse_fields-from f j (print print_num v ++ (print_fields print_num (field i w fs) ++ rest))
        ∙ ap (fields_from f j) (
            parse_value-print v f (print_fields print_num (field i w fs) ++ rest)
              (and_left (has_keys v) (fields_keys (field i w fs)) (
                and_right (not (has_field j (field i w fs)))
                  (has_keys v && fields_keys (field i w fs)) k))
              (omega (arith, h)) refl)
        ∙ ap (λ (r : Tok F × Text). wrap (put_field j v) (parse_fields stod f r.0 r.1))
            (next-key stod i (print print_num w) (print_fields print_num fs) rest)
        ∙ ap (wrap (put_field j v)) (
            parse_fields-print i w fs f rest
              (and_right (has_keys v) (fields_keys (field i w fs)) (
                and_right (not (has_field j (field i w fs)))
                  (has_keys v && fields_keys (field i w fs)) k))
              (omega (arith, h)))
        ∙ ap (λ u. some (u, rest))
            (put_field-fresh j v (field i w fs) (
              and_left (not (has_field j (field i w fs))) (has_keys v && fields_keys (field i w fs))
                k))

  -- A value whose objects have no key twice, printed without blanks, is read back as itself, whatever is
  -- in its strings, given a printer that writes a number as one or more of the characters that the lexer
  -- takes for one, and that `std::stod` inverts.
  pub parse_root-print :
      (v : Value F) → has_keys v ≡ true → parse_root stod (print print_num v) ≡ some v
  unfolding parse_root
  parse_root-print v k =
      let size = 2 * length (print print_num v) + 2 in
      let read : parse_value stod size (print print_num v ++ []) ≡ some (v, []) =
        parse_value-print v size [] k (omega (arith, need-print print_num v)) refl in
      ap (λ (o : Option (Value F × Text)). elim o [ none ↦ none | some (w, rest) ↦ some w ])
        (ap (parse_value stod size) (sym (append-nil (print print_num v))) ∙ read)
