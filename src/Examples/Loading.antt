-- ===== src/Examples/Loading.antt =====
-- A small file loaded by two threads (cpp/common/csv_store.cpp).
use mini.Base.{
  ◌-◌, ◌≡◌, refl, arith, ◌&&◌, leb, if◌then◌else◌, ℤ, pos, Text, [], ◌∷◌, ◌++◌, map, length, keep,
  Option, none, some, Whole, whole, whole_floats,
}
use mathlib.Core.Option
use mini.Store.Load.{FromChars, lines_from, count_newlines, chunks, chunk_start}
use mini.Store.Load.Rows.{Cells, load_rows, load_partition_csv, total_rows, fill_chunks, fill_lines}
use mini.Store.Load.Threads.{parsed}
use mini.Store.Load.Sequential.{valid_rows, load-sequential}

-- A reader of one digit.
abbrev digit : Text → Option (ℤ × Text)
digit [] = none
digit (c ∷ s) = if leb 48 c && leb c 57 then some (pos (c - 48), s) else none

abbrev pub digits : FromChars Whole
digits = record {
  read_i32 = digit;
  read_i64 = digit;
  read_f64 = λ t. Option.map (λ r. (whole (r.0), r.1)) (digit t);
}

-- `1,2`, an empty line, `x` and `3`.
abbrev body : Text
body = 49 ∷ 44 ∷ 50 ∷ 10 ∷ 10 ∷ 120 ∷ 10 ∷ 51 ∷ 10 ∷ []

load-sequential_example :
    Option.map valid_rows (load_partition_csv digits 2 ((104 ∷ []) ++ 10 ∷ body))
    ≡ some (
        map
          (λ (c : Cells Whole). c.row)
          (keep (λ (c : Cells Whole). c.valid) (parsed digits (lines_from [] body))))
load-sequential_example =
    load-sequential digits 2 (104 ∷ []) body (omega arith) (omega arith) (refl, tt) refl

-- A last line without a newline gets no row.
last_line_lost : load_rows digits 1 (49 ∷ 10 ∷ 50 ∷ []) ≡ load_rows digits 1 (49 ∷ 10 ∷ [])
unfolding load_rows chunks chunk_start total_rows count_newlines fill_chunks fill_lines lines_from
last_line_lost = refl

-- Behind an empty line it gets the row of that line.
last_line_kept : length (load_rows digits 1 (10 ∷ 50 ∷ [])) ≡ 1
unfolding load_rows chunks chunk_start total_rows count_newlines fill_chunks fill_lines lines_from
last_line_kept = refl
