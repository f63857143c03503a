-- ===== src/Telemetry/Reader.antt =====
-- A reader of JSON strings, by the grammar of JSON as far as `Telemetry::Event`
-- (cpp/common/telemetry.hpp) writes it, and the round trip of a string through it.
use mini.Base.{
  ℕ, ◌≡◌, refl, sym, ap, ◌∙◌, arith, ◌≤◌, ◌⊎◌, Bool, false, not, ◌&&◌, ◌||◌, ◌==◌, ltb,
  if◌then◌else◌, if_cases, Text, [], ◌∷◌, ◌++◌, All, Option, none, some,
}
use mathlib.Core.List.{append_assoc}
use mini.Telemetry.{quote, backslash, newline, letter_n, colon, escape, add_kv, add_string}

abbrev pub push : ℕ → Option (Text × Text) → Option (Text × Text)
push c none = none
push c (some (v, rest)) = some (c ∷ v, rest)

-- What follows the opening quote of a string: the string, up to its closing quote, and the rest. The
-- flag is set behind a backslash. A control character is an error, as is an escape other than these three.
pub read_string : Bool → Text → Option (Text × Text)
read_string escaped [] = none
read_string escaped (c ∷ s) =
    let rest = read_string (not escaped && c == backslash) s in
    if escaped
    then (if c == quote || c == backslash
        then push c rest
        else if c == letter_n
        then push newline rest
        else none)
    else if c == quote
    then some ([], s)
    else if c == backslash
    then rest
    else if ltb c 32
    then none
    else push c rest

-- A newline, or no control character.
abbrev pub IsPrintable : ℕ → Type 0
IsPrintable c = (c ≡ 10) ⊎ (32 ≤ c)

-- The value behind a key: a colon and a string.
read_value : Text → Text → Option (Text × Text × Text)
read_value k (c ∷ d ∷ s) =
    if c == colon && d == quote
    then elim (read_string false s) [ none ↦ none | some (v, rest) ↦ some (k, v, rest) ]
    else none
read_value k _ = none

-- A member of an object, with what follows it.
pub read_member : Text → Option (Text × Text × Text)
read_member [] = none
read_member (c ∷ s) =
    if c == quote
    then elim (read_string false s) [ none ↦ none | some (k, rest) ↦ read_value k rest ]
    else none

-- A string of printable characters and newlines, written by `escape` and a closing quote, is read back as
-- it was, with what follows it left.
read_string-escape :
    (v rest : Text)
    → All IsPrintable v
    → read_string false (escape v ++ quote ∷ rest) ≡ some (v, rest)
unfolding read_string escape
read_string-escape [] rest p = refl
read_string-escape (c ∷ v) rest p =
    let P = λ (l : Text). read_string false (l ++ quote ∷ rest) ≡ some (c ∷ v, rest) in
    let ih = read_string-escape v rest p.1 in
    if_cases P (c == quote || c == backslash) (λ special. rw (special, ih) refl)
      λ plain.
        let no_quote : (c == quote) ≡ false = ground arith in
        let no_backslash : (c == backslash) ≡ false = ground arith in
        if_cases P (c == newline) (λ line. rw ih (ap (λ d. some (d ∷ v, rest)) (ground arith)))
          λ other.
            let high : ltb c 32 ≡ false = ground (arith, p.0) in
            rw (no_quote, no_backslash, high, ih) refl

-- A member that `f` writes into an empty buffer, with a string of printable characters and newlines under
-- a key that needs no escape, is read back as it was, with what follows it left.
pub read_member-add_string :
    (k v rest : Text)
    → All IsPrintable k
    → escape k ≡ k
    → All IsPrintable v
    → read_member (add_string [] k v ++ rest) ≡ some (k, v, rest)
unfolding read_member read_value add_string add_kv
read_member-add_string k v rest pk plain pv =
    let tail = (escape v ++ quote ∷ []) ++ rest in
    let written = quote ∷ colon ∷ quote ∷ escape v ++ quote ∷ [] in
    let key : read_string false ((k ++ written) ++ rest) ≡ some (k, colon ∷ quote ∷ tail) =
      ap (read_string false) (append_assoc k written rest)
      ∙ ap (λ l. read_string false (l ++ quote ∷ colon ∷ quote ∷ tail)) (sym plain)
      ∙ read_string-escape k (colon ∷ quote ∷ tail) pk in
    let body : read_string false tail ≡ some (v, rest) =
      ap (read_string false) (append_assoc (escape v) (quote ∷ []) rest)
      ∙ read_string-escape v rest pv in
    rw (key, read_value, body) refl
