-- ===== src/Overlay/Lines.antt =====
-- The lines of the overlay file (cpp/common/overlay.cpp): comments, indentation, blocks, keys.
use mini.Base.{
  ℕ, suc, ◌+◌, Bool, ◌&&◌, ◌||◌, ◌==◌, leb, if◌then◌else◌, Text, is_empty, List, [], ◌∷◌, take,
  drop, none, some,
}
use mini.Overlay.Flow.{trim, find_first}

unfoldable pub leading_spaces : Text → ℕ
leading_spaces [] = 0
leading_spaces (c ∷ s) = let rest = leading_spaces s in if c == 32 then suc rest else 0

abbrev pub is_tail : ℕ → Bool
is_tail c = c == 13 || c == 10 || c == 32

unfoldable pub rtrim : Text → Text
rtrim [] = []
rtrim (c ∷ s) = let rest = rtrim s in if is_empty rest && is_tail c then [] else c ∷ rest

unfoldable pub strip_comment : Text → Text
strip_comment [] = []
strip_comment (c ∷ s) = let rest = strip_comment s in if c == 35 then [] else c ∷ rest

unfoldable pub line_is_blank : Text → Bool
unfolding trim
line_is_blank s = is_empty (trim s)

unfoldable pub clean_lines : List Text → List Text
unfolding strip_comment rtrim
clean_lines [] = []
clean_lines (l ∷ ls) = rtrim (strip_comment l) ∷ clean_lines ls

-- The lines up to the first one that is neither blank nor indented by `n`.
unfoldable pub block : ℕ → List Text → List Text
unfolding line_is_blank leading_spaces
block n [] = []
block n (l ∷ ls) =
    let rest = block n ls in if line_is_blank l || leb n (leading_spaces l) then l ∷ rest else []

-- `substr(0, c)` and `substr(c + 1)`, both trimmed; without a colon `c` is `npos`, and both are the line.
unfoldable pub key_value : Text → Text × Text
unfolding find_first trim
key_value l = elim (find_first 58 l) [
  | none ↦ (trim l, trim l)
  | some c ↦ (trim (take c l), trim (drop (c + 1) l))
]
