-- ===== src/Store/Load/Sequential.antt =====
-- Loading a file with any number of threads (cpp/common/csv_store.cpp) gives the rows that a single pass
-- over its lines gives.
use mini.Base.{
  ℕ, zero, suc, ◌+◌, ◌*◌, ◌^◌, ◌<◌, ◌≡◌, refl, ap, ap₂, ◌∙◌, arith, Bool, true, false, not, ◌==◌,
  if◌then◌else◌, Text, List, [], ◌∷◌, ◌++◌, map, length, get_or, drop, keep, All, some, Floats,
  length-append, Bool-cases, inl, inr,
}
use mathlib.Core.Option
use mathlib.Core.List.{append_assoc}
use mathlib.Core.Path.{fun_ext}
use mini.Store.{PartitionStore, TaxiRow, fill, is_valid, size}
use mini.Store.Scan.{count_up}
use mini.Store.Load.{FromChars, lines_from, find_newline, chunks, chunk_start}
use mini.Store.Load.Rows.{Cells, zero_cells, store_of, load_rows, load_partition_csv}
use mini.Store.Load.Lines.{ends_line, join-chunks, chunks-ends}
use mini.Store.Load.Threads.{
  parsed, length-map, fill_chunks_lem, valid_rows-segments, get_or-append,
}

flag_lem : (b : Bool) → not ((if b then 1 else 0) == 0) ≡ b
flag_lem b = ground arith

-- A walk by index over a list is a walk over the list.
pub by_index :
    {A B : Type 0} (g : A → B) (p : A → Bool) (d : A) (before xs : List A)
    → map
        (λ i. g (get_or (before ++ xs) i d))
        (keep (λ i. p (get_or (before ++ xs) i d)) (count_up (length before) (length xs)))
      ≡ map g (keep p xs)
by_index g p d before [] = refl
by_index {A} {B} g p d before (x ∷ xs) =
    let here : get_or (before ++ x ∷ xs) (length before) d ≡ x = get_or-append before xs x d in
    let longer : length (before ++ x ∷ []) ≡ suc (length before) =
      omega (arith, length-append before (x ∷ [])) in
    let rest : map (λ i. g (get_or (before ++ x ∷ xs) i d))
          (keep (λ i. p (get_or (before ++ x ∷ xs) i d))
            (count_up (suc (length before)) (length xs)))
        ≡ map g (keep p xs) =
      rw (append_assoc before (x ∷ []) xs, longer) at (by_index g p d (before ++ x ∷ []) xs) in
    elim (Bool-cases (p x)) [
      | inl kept ↦ rw (here, kept) (ap₂ (λ y l. g y ∷ l) here rest)
      | inr dropped ↦ rw (here, dropped) rest
    ]

pub find_newline_lem :
    (header body : Text)
    → All (λ c. (c == 10) ≡ false) header
    → find_newline (header ++ 10 ∷ body) ≡ some (length header)
unfolding find_newline
find_newline_lem [] body h = refl
find_newline_lem (c ∷ header) body h = rw (h.0, find_newline_lem header body h.1)

pub drop_header : (header body : Text) → drop (length header + 1) (header ++ 10 ∷ body) ≡ body
drop_header [] body = refl
drop_header (c ∷ header) body =
    let shift : suc (length header) + 1 ≡ suc (length header + 1) = omega arith in
    rw shift (drop_header header body)

module _ {F : Type 0} ⦃fl : Floats F⦄ where
  -- The valid rows of a store, as `fill` gives them.
  abbrev pub valid_rows : PartitionStore F → List (TaxiRow F)
  valid_rows s = map (fill s) (keep (is_valid s) (count_up 0 (size s)))

  pub fill-store_of :
      (cells : List (Cells F)) (i : ℕ) → fill (store_of cells) i ≡ (get_or cells i zero_cells).row
  unfolding fill store_of zero_cells
  fill-store_of [] i = refl
  fill-store_of (c ∷ cells) zero =
      ap (λ f. record (c.row) { store_and_fwd_flag = f }) (flag_lem c.row.store_and_fwd_flag)
  fill-store_of (c ∷ cells) (suc i) = fill-store_of cells i

  pub is_valid-store_of :
      (cells : List (Cells F)) (i : ℕ)
      → is_valid (store_of cells) i ≡ (get_or cells i zero_cells).valid
  unfolding is_valid store_of zero_cells
  is_valid-store_of [] i = refl
  is_valid-store_of (c ∷ cells) zero = ground arith
  is_valid-store_of (c ∷ cells) (suc i) = is_valid-store_of cells i

  valid_rows-store_of :
      (cells : List (Cells F))
      → valid_rows (store_of cells)
        ≡ map (λ (c : Cells F). c.row) (keep (λ (c : Cells F). c.valid) cells)
  unfolding size store_of
  valid_rows-store_of cells =
      ap₂ (λ f q. map f (keep q (count_up 0 (length (store_of cells).valid))))
        (fun_ext (fill-store_of cells)) (fun_ext (is_valid-store_of cells))
      ∙ ap
          (λ n.
            map (λ i. (get_or cells i zero_cells).row)
              (keep (λ i. (get_or cells i zero_cells).valid) (count_up 0 n)))
          (length-map (λ (c : Cells F). (if c.valid then 1 else 0)) cells)
      ∙ by_index (λ (c : Cells F). c.row) (λ (c : Cells F). c.valid) zero_cells [] cells

  pub load_rows-valid :
      (from_chars : FromChars F) (nt : ℕ) (body : Text)
      → 0 < nt
      → length body * nt < 2 ^ 64
      → ends_line body ≡ true
      → keep (λ (c : Cells F). c.valid) (load_rows from_chars nt body)
        ≡ keep (λ (c : Cells F). c.valid) (parsed from_chars (lines_from [] body))
  unfolding load_rows chunk_start
  load_rows-valid from_chars nt body p w e =
      let ends = chunks-ends body nt p w 0 nt e (omega arith) in
      ap (keep (λ (c : Cells F). c.valid))
        (fill_chunks_lem from_chars (chunks body nt 0 nt) [] ends)
      ∙ valid_rows-segments from_chars (chunks body nt 0 nt) ends
      ∙ ap (λ t. keep (λ (c : Cells F). c.valid) (parsed from_chars (lines_from [] t)))
          (join-chunks body nt p w 0 nt (omega arith) ∙ refl)

  loaded_rows :
      (from_chars : FromChars F) (nt : ℕ) (body : Text)
      → 0 < nt
      → length body * nt < 2 ^ 64
      → ends_line body ≡ true
      → some (valid_rows (store_of (load_rows from_chars nt body)))
        ≡ some (
            map
              (λ (c : Cells F). c.row)
              (keep (λ (c : Cells F). c.valid) (parsed from_chars (lines_from [] body))))
  loaded_rows from_chars nt body p w e = ap some (
      valid_rows-store_of (load_rows from_chars nt body)
      ∙ ap (map (λ (c : Cells F). c.row)) (load_rows-valid from_chars nt body p w e))

  -- Loading a file of a header line and whole lines, on a machine with 64-bit sizes that holds their
  -- number of bytes times the number of threads: whatever that number is, the valid rows of the store are
  -- those of a single pass over the lines that are not empty, in the file's order and each once.
  pub load-sequential :
      (from_chars : FromChars F) (nt : ℕ) (header body : Text)
      → 0 < nt
      → length body * nt < 2 ^ 64
      → All (λ c. (c == 10) ≡ false) header
      → ends_line body ≡ true
      → Option.map valid_rows (load_partition_csv from_chars nt (header ++ 10 ∷ body))
        ≡ some (
            map
              (λ (c : Cells F). c.row)
              (keep (λ (c : Cells F). c.valid) (parsed from_chars (lines_from [] body))))
  unfolding load_partition_csv find_newline
  load-sequential from_chars nt [] body p w h e =
      ap (λ r. some (valid_rows (store_of (load_rows from_chars nt r)))) (drop_header [] body)
      ∙ loaded_rows from_chars nt body p w e
  load-sequential from_chars nt (c ∷ header) body p w h e =
      rw (load_partition_csv, find_newline_lem (c ∷ header) body h)
        (ap (λ r. some (valid_rows (store_of (load_rows from_chars nt r))))
            (drop_header (c ∷ header) body)
          ∙ loaded_rows from_chars nt body p w e)
