-- ===== src/Overlay/Flow.antt =====
-- The flow-style values of the overlay file (cpp/common/overlay.cpp): `trim`, `dequote`,
-- `parse_flow_seq` and `parse_flow_map`.
pub mod Printed
use mini.Base.{
  ℕ, zero, suc, ◌+◌, ◌-◌, Bool, true, false, ◌&&◌, ◌||◌, ◌==◌, leb, ltb, if◌then◌else◌, Text, Dict,
  put, is_empty, List, [], ◌∷◌, ◌++◌, length, take, drop, Option, none, some,
}

-- `std::isspace` in the "C" locale.
abbrev pub is_space : ℕ → Bool
is_space c = c == 32 || leb 9 c && leb c 13

unfoldable pub drop_spaces : Text → Text
drop_spaces [] = []
drop_spaces (c ∷ s) = let rest = drop_spaces s in if is_space c then rest else c ∷ s

unfoldable pub drop_last_spaces : Text → Text
drop_last_spaces [] = []
drop_last_spaces (c ∷ s) =
    let rest = drop_last_spaces s in if is_empty rest && is_space c then [] else c ∷ rest

unfoldable pub trim : Text → Text
unfolding drop_spaces drop_last_spaces
trim s = drop_last_spaces (drop_spaces s)

abbrev pub first_is : ℕ → Text → Bool
first_is q [] = false
first_is q (c ∷ s) = c == q

abbrev pub last_is : ℕ → Text → Bool
last_is q [] = false
last_is q (c ∷ s) = let rest = last_is q s in if is_empty s then c == q else rest

-- Matched outer quotes, double or single, are removed.
unfoldable pub dequote : Text → Text
unfolding trim
dequote s =
    let t = trim s in
    if leb 2 (length t) && (first_is 34 t && last_is 34 t || first_is 39 t && last_is 39 t)
    then take (length t - 2) (drop 1 t)
    else t

-- `std::string::find` and `rfind` of a character.
unfoldable pub find_first : ℕ → Text → Option ℕ
find_first c [] = none
find_first c (x ∷ s) =
    let rest = find_first c s in
    if x == c then some 0 else elim rest [ none ↦ none | some i ↦ some (suc i) ]

unfoldable pub find_last : ℕ → Text → Option ℕ
find_last c [] = none
find_last c (x ∷ s) = elim (find_last c s) [
  | none ↦ if x == c then some 0 else none
  | some i ↦ some (suc i)
]

-- `body.substr(lb + 1, rb - lb - 1)`: where `rb` comes before `lb` the length wraps around, and the
-- text goes to its end.
unfoldable pub between : Text → ℕ → ℕ → Text
between body lb rb =
    if ltb lb rb then take (rb - lb - 1) (drop (lb + 1) body) else drop (lb + 1) body

-- The loop that splits at commas: the tokens before a comma, and the last one.
unfoldable pub split : Text → Text → List Text × Text
split tok [] = ([], tok)
split tok (c ∷ s) =
    let rest = split (if c == 44 then [] else tok ++ c ∷ []) s in
    if c == 44 then (tok ∷ rest.0, rest.1) else rest

unfoldable pub clean_all : List Text → List Text
unfolding dequote trim
clean_all [] = []
clean_all (t ∷ ts) = dequote (trim t) ∷ clean_all ts

unfoldable pub seq_items : List Text × Text → List Text
unfolding clean_all
seq_items (toks, tok) =
    clean_all toks ++ (if is_empty (trim tok) then [] else dequote (trim tok) ∷ [])

unfoldable pub parse_flow_seq : Text → List Text
unfolding find_first find_last between split seq_items
parse_flow_seq body = elim (find_first 91 body) [
  | none ↦ []
  | some lb ↦ elim (find_last 93 body) [
    | none ↦ []
    | some rb ↦ seq_items (split [] (between body lb rb))
  ]
]

-- One part `key: value`; a part without a colon is passed over.
unfoldable pub add_part : Text → Dict Text → Dict Text
unfolding find_first trim dequote
add_part p m = elim (find_first 58 p) [
  | none ↦ m
  | some colon ↦ put (trim (take colon p)) (dequote (trim (drop (colon + 1) p))) m
]

unfoldable pub add_parts : List Text → Dict Text → Dict Text
unfolding add_part
add_parts [] m = m
add_parts (p ∷ ps) m = add_parts ps (add_part p m)

-- `none`: the code throws.
unfoldable pub parse_flow_map : Text → Option (Dict Text)
unfolding find_first find_last between split add_parts
parse_flow_map body = elim (find_first 123 body) [
  | none ↦ none
  | some lb ↦ elim (find_last 125 body) [
    | none ↦ none
    | some rb ↦
        if leb rb lb
        then none
        else (let (toks, tok) = split [] (between body lb rb) in
            some (add_parts (toks ++ (if is_empty tok then [] else tok ∷ [])) []))
  ]
]
