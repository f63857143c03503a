-- ===== src/Routing/Json/Printed.antt =====
-- How a JSON value is printed for the reader of cpp/common/routing.cpp, without blanks, and what the
-- value and the printer of numbers have to keep for it to be read back.
pub mod Tokens
pub mod Size
pub mod Read
use mini.Base.{
  ℕ, zero, suc, ◌+◌, ◌*◌, ◌≤◌, ◌<◌, ◌≡◌, refl, sym, ap, ◌∙◌, arith, Bool, true, false, not, ◌||◌,
  ◌&&◌, ◌==◌, if◌then◌else◌, if_cases, Text, codes, text_eq, is_empty, List, [], ◌∷◌, ◌++◌, length,
  length-append, All, Option, none, some, Floats, take, drop,
}
use mathlib.Core.List.{append_assoc, append-nil}
use mini.Routing.Json.{
  Tok, str, num, comma, colon, rbrace, lbrace, lbracket, true_tok, false_tok, wrap, is_comma,
  is_colon, Value, null, string, number, boolean, object, array, Items, no_items, item, Fields,
  no_fields, field, is_blank, unescape, is_num, ws, read_str, span_num, word, token, next,
  number_of, has_field, put_field, parse_value, parse_items, parse_fields, parse_root, is_rbracket,
}

unfoldable pub escape_str : Text → Text
escape_str [] = []
escape_str (c ∷ t) =
    let rest = escape_str t in if c == 34 || c == 92 then 92 ∷ c ∷ rest else c ∷ rest

unfoldable pub print_str : Text → Text
print_str t = 34 ∷ escape_str t ++ 34 ∷ []

-- What a printer of numbers does for `std::stod`: it writes number characters, at least one, which are
-- read back as the number.
pub record PrintsNumbers {F : Type 0} (stod : Text → Option F) (print_num : F → Text) : Type 0 where
  pub some_char : (x : F) → is_empty (print_num x) ≡ false
  pub num_chars : (x : F) → All (λ c. is_num c ≡ true) (print_num x)
  pub read_back : (x : F) → stod (print_num x) ≡ some x

module _ {F : Type 0} (print_num : F → Text) where
  unfoldable mutual
    unfolding print_str

    pub print : Value F → Text
    print null = codes "null"
    print (boolean true) = codes "true"
    print (boolean false) = codes "false"
    print (string t) = print_str t
    print (number x) = print_num x
    print (array no_items) = 91 ∷ 93 ∷ []
    print (array (item v xs)) = 91 ∷ (print v ++ print_items xs)
    print (object no_fields) = 123 ∷ 125 ∷ []
    print (object (field k v fs)) = 123 ∷ (print_str k ++ (58 ∷ (print v ++ print_fields fs)))

    -- The items behind the first.
    pub print_items : Items F → Text
    print_items no_items = 93 ∷ []
    print_items (item v xs) = 44 ∷ (print v ++ print_items xs)

    pub print_fields : Fields F → Text
    print_fields no_fields = 125 ∷ []
    print_fields (field k v fs) = 44 ∷ (print_str k ++ (58 ∷ (print v ++ print_fields fs)))

-- No object has a key twice.
unfoldable mutual
  unfolding has_field

  pub has_keys : {F : Type 0} → Value F → Bool
  has_keys (array xs) = items_keys xs
  has_keys (object fs) = fields_keys fs
  has_keys _ = true

  pub items_keys : {F : Type 0} → Items F → Bool
  items_keys no_items = true
  items_keys (item v xs) = has_keys v && items_keys xs

  pub fields_keys : {F : Type 0} → Fields F → Bool
  fields_keys no_fields = true
  fields_keys (field k v fs) = not (has_field k fs) && (has_keys v && fields_keys fs)
