-- ===== src/Store/Load.antt =====
-- The CSV loader (cpp/common/csv_store.cpp: `load_partition_csv` and its helpers). The file is its bytes:
-- that it can be opened and mapped is taken for granted. `std::from_chars` is a parameter.
pub mod Rows
pub mod Lines
pub mod Threads
pub mod Sequential
pub mod Satisfying
use mini.Base.{
  ℕ, zero, suc, ◌+◌, ◌-◌, ◌*◌, ◌/◌, ◌%◌, ◌^◌, Bool, true, false, not, ◌&&◌, ◌||◌, ◌==◌, leb, ltb,
  if◌then◌else◌, ℤ, pos, Text, is_empty, List, [], ◌∷◌, ◌++◌, map, length, get_or, set, take, drop,
  replicate, Option, none, some, Floats,
}

-- `std::from_chars`: the value at the front of a text with what is left behind it; `none` where it
-- reports an error and leaves its output as it was.
pub record FromChars (F : Type 0) : Type 0 where
  pub read_i32 : Text → Option (ℤ × Text)
  pub read_i64 : Text → Option (ℤ × Text)
  pub read_f64 : Text → Option (F × Text)

-- The first field and what is behind its comma.
unfoldable pub next_field : Text → Text × Text
next_field [] = ([], [])
next_field (c ∷ s) = let rest = next_field s in if c == 44 then ([], s) else (c ∷ rest.0, rest.1)

-- The next `n` fields.
unfoldable pub fields : ℕ → Text → List Text
unfolding next_field
fields zero s = []
fields (suc n) s = (next_field s).0 ∷ fields n (next_field s).1

-- `parse_i32`, `parse_i64` and `parse_f64`: the value that a cell gets, and whether all was read. An
-- empty field is zero.
unfoldable pub parse_number : {A : Type 0} → (Text → Option (A × Text)) → A → A → Text → A × Bool
parse_number read nought old [] = (nought, true)
parse_number read nought old (c ∷ s) = elim (read (c ∷ s)) [
  | none ↦ (old, false)
  | some (v, rest) ↦ (v, is_empty rest)
]

-- 'Y' or 'y'.
unfoldable pub is_yes : Text → Bool
is_yes [] = false
is_yes (c ∷ s) = c == 89 || c == 121

-- The text without a carriage return at its end.
unfoldable pub strip_return : Text → Text
strip_return [] = []
strip_return (c ∷ s) = let rest = strip_return s in if is_empty s && c == 13 then [] else c ∷ rest

-- The lines of a text, of which the last need not end.
unfoldable pub lines_from : Text → Text → List Text
lines_from acc [] = if is_empty acc then [] else acc ∷ []
lines_from acc (c ∷ s) =
    let rest = lines_from (if c == 10 then [] else acc ++ c ∷ []) s in
    if c == 10 then acc ∷ rest else rest

unfoldable pub count_newlines : Text → ℕ
count_newlines [] = 0
count_newlines (c ∷ s) = (if c == 10 then 1 else 0) + count_newlines s

-- The first byte of the line behind the first newline at `raw` or later, or the end: a boundary.
unfoldable pub find_newline : Text → Option ℕ
find_newline [] = none
find_newline (c ∷ s) =
    let rest = find_newline s in
    if c == 10 then some 0 else elim rest [ none ↦ none | some k ↦ some (suc k) ]

unfoldable pub boundary : Text → ℕ → ℕ
unfolding find_newline
boundary body raw =
    if leb (length body) raw
    then length body
    else elim (find_newline (drop raw body)) [ none ↦ length body | some k ↦ raw + k + 1 ]

-- `chunk_starts[i]` for `nt` threads.
unfoldable pub chunk_start : Text → ℕ → ℕ → ℕ
unfolding boundary
chunk_start body nt i =
    if i == 0
    then 0
    else if i == nt
    then length body
    else boundary body (length body * i % 2 ^ 64 / nt)

-- The bytes of `n` threads from the `i`-th on.
unfoldable pub chunks : Text → ℕ → ℕ → ℕ → List Text
unfolding chunk_start
chunks body nt i zero = []
chunks body nt i (suc n) =
    take (chunk_start body nt (suc i) - chunk_start body nt i) (drop (chunk_start body nt i) body)
    ∷ chunks body nt (suc i) n
