-- ===== src/Store/Load/Threads.antt =====
-- The threads of the loader (cpp/common/csv_store.cpp) fill the rows as one thread would.
use mini.Base.{
  ℕ, zero, suc, ◌+◌, ◌-◌, ◌≤◌, ◌≡◌, refl, sym, ap, ap₂, ◌∙◌, arith, Bool, true, not, ◌==◌, ltb,
  if_cases, Text, is_empty, List, [], ◌∷◌, ◌++◌, map, length, get_or, set, keep, replicate,
  length-append, length-replicate, All, Floats, Bool-cases, inl, inr,
}
use mathlib.Core.List.{append_assoc, append-nil, map-append}
use mini.Store.Scan.{keep-append}
use mini.Store.Load.{FromChars, lines_from, count_newlines}
use mini.Store.Load.Rows.{Cells, zero_cells, parse_line, fill_lines, fill_chunks, total_rows}
use mini.Store.Load.Lines.{ends_line, join}

-- A line that is parsed.
abbrev pub is_row : Text → Bool
is_row l = not (is_empty l)

pub get_or-append :
    {A : Type 0} (xs ys : List A) (y d : A) → get_or (xs ++ y ∷ ys) (length xs) d ≡ y
get_or-append [] ys y d = refl
get_or-append (x ∷ xs) ys y d = get_or-append xs ys y d

set-append :
    {A : Type 0} (xs ys : List A) (y v : A)
    → set (xs ++ y ∷ ys) (length xs) v ≡ (xs ++ v ∷ []) ++ ys
set-append [] ys y v = refl
set-append (x ∷ xs) ys y v = ap (◌∷◌ x) (set-append xs ys y v)

replicate-add :
    {A : Type 0} (m n : ℕ) (a : A) → replicate (m + n) a ≡ replicate m a ++ replicate n a
replicate-add zero n a = ap (λ k. replicate k a) (omega arith)
replicate-add (suc m) n a =
    let shift : suc m + n ≡ suc (m + n) = omega arith in rw shift (ap (◌∷◌ a) (replicate-add m n a))

length-lines_cons :
    (c : ℕ) (s acc : Text)
    → ends_line (c ∷ s) ≡ true
    → length (lines_from acc (c ∷ s)) ≡ count_newlines (c ∷ s)
unfolding lines_from count_newlines
length-lines_cons c [] acc e = ground (arith, e)
length-lines_cons c (d ∷ s) acc e =
    ground (arith, length-lines_cons d s [] e, length-lines_cons d s (acc ++ c ∷ []) e)

-- A text of whole lines has as many lines as newlines.
length-lines_from : (s : Text) → ends_line s ≡ true → length (lines_from [] s) ≡ count_newlines s
unfolding lines_from count_newlines
length-lines_from [] e = refl
length-lines_from (c ∷ s) e = length-lines_cons c s [] e

lines_cons-append :
    (c : ℕ) (s t acc : Text)
    → ends_line (c ∷ s) ≡ true
    → lines_from acc (c ∷ s ++ t) ≡ lines_from acc (c ∷ s) ++ lines_from [] t
unfolding lines_from
lines_cons-append c [] t acc e = ground (arith, e)
lines_cons-append c (d ∷ s) t acc e =
    if_cases (λ (b : List Text). b ≡ lines_from acc (c ∷ d ∷ s) ++ lines_from [] t) (c == 10)
      (λ end. rw end (ap (◌∷◌ acc) (lines_cons-append d s t [] e)))
      (λ more. rw more (lines_cons-append d s t (acc ++ c ∷ []) e))

-- The lines behind whole lines are counted by themselves.
lines_from-append :
    (s t : Text) → ends_line s ≡ true → lines_from [] (s ++ t) ≡ lines_from [] s ++ lines_from [] t
unfolding lines_from
lines_from-append [] t e = refl
lines_from-append (c ∷ s) t e = lines_cons-append c s t [] e

pub length-map : {A B : Type 0} (f : A → B) (xs : List A) → length (map f xs) ≡ length xs
length-map f [] = refl
length-map f (x ∷ xs) = ap suc (length-map f xs)

length-keep-le : {A : Type 0} (p : A → Bool) (xs : List A) → length (keep p xs) ≤ length xs
length-keep-le p [] = omega arith
length-keep-le p (x ∷ xs) = ground (arith, length-keep-le p xs)

module _ {F : Type 0} ⦃fl : Floats F⦄ (from_chars : FromChars F) where
  -- The rows of lines, as a single pass makes them.
  abbrev pub parsed : List Text → List (Cells F)
  parsed lines = map (parse_line from_chars zero_cells) (keep is_row lines)

  -- What the rows hold behind `before` when a thread is through with `lines` and `room` rows.
  abbrev behind : List Text → List (Cells F) → ℕ → List (Cells F)
  behind lines after room =
      parsed lines ++ (replicate (room - length (keep is_row lines)) zero_cells ++ after)

  write_line :
      (l : Text) (lines : List Text) (before after : List (Cells F)) (room : ℕ)
      → (let filled = before ++ parse_line from_chars zero_cells l ∷ [] in
          fill_lines from_chars lines
            (length filled)
            (length filled + room)
            (filled ++ (replicate room zero_cells ++ after))
          ≡ filled ++ behind lines after room)
      → fill_lines from_chars lines (suc (length before)) (length before + suc room) (
          set (before ++ zero_cells ∷ (replicate room zero_cells ++ after)) (length before) (
            parse_line from_chars
              (get_or
                (before ++ zero_cells ∷ (replicate room zero_cells ++ after))
                (length before)
                zero_cells)
              l))
        ≡ before
          ++ parse_line from_chars zero_cells l
            ∷ (parsed lines
                ++ (replicate (suc room - suc (length (keep is_row lines))) zero_cells ++ after))
  write_line l lines before after room ih =
      let rest = replicate room zero_cells ++ after in
      let new = parse_line from_chars zero_cells l in
      let filled : List (Cells F) = before ++ new ∷ [] in
      let longer : length filled ≡ suc (length before) =
        omega (arith, length-append before (new ∷ [])) in
      let same_cap : length filled + room ≡ length before + suc room = omega (arith, longer) in
      let less : suc room - suc (length (keep is_row lines)) ≡ room - length (keep is_row lines) =
        omega arith in
      rw
        (
          get_or-append before rest zero_cells zero_cells,
          set-append before rest zero_cells new,
          less,
        )
        (ap₂ (λ i c. fill_lines from_chars lines i c (filled ++ rest)) (sym longer) (sym same_cap)
          ∙ ih
          ∙ append_assoc before (new ∷ []) (behind lines after room))

  -- A thread with a row for each line fills the first of its rows.
  fill_lines_lem :
      (lines : List Text) (before after : List (Cells F)) (room : ℕ)
      → length lines ≤ room
      → fill_lines from_chars lines
          (length before)
          (length before + room)
          (before ++ (replicate room zero_cells ++ after))
        ≡ before
          ++ (parsed lines ++ (replicate (room - length (keep is_row lines)) zero_cells ++ after))
  unfolding fill_lines
  fill_lines_lem [] before after room h =
      ap (λ n. before ++ (replicate n zero_cells ++ after)) (omega arith)
  fill_lines_lem (l ∷ lines) before after zero h = absurd (omega arith)
  fill_lines_lem (l ∷ lines) before after (suc room) h =
      if_cases
        (λ (t : List (Cells F)).
          t
          ≡ before
            ++ (parsed (l ∷ lines)
                ++ (replicate (suc room - length (keep is_row (l ∷ lines))) zero_cells ++ after)))
        (ltb (length before) (length before + suc room))
        (λ _. elim (Bool-cases (is_empty l)) [
          | inl blank ↦ rw blank (fill_lines_lem lines before after (suc room) (omega arith))
          | inr text ↦ rw text (
              write_line l lines before after room (
                fill_lines_lem lines (before ++ parse_line from_chars zero_cells l ∷ []) after room
                  (omega arith)))
        ])
        (λ never. absurd (ground arith))

  -- The rows of a chunk: its lines, and the rows left over by its empty lines.
  abbrev pub segment : Text → List (Cells F)
  segment c =
      parsed (lines_from [] c)
      ++ replicate (count_newlines c - length (keep is_row (lines_from [] c))) zero_cells

  length-segment : (c : Text) → ends_line c ≡ true → length (segment c) ≡ count_newlines c
  length-segment c e =
      let k = keep is_row (lines_from [] c) in
      omega (
        arith,
        length-append (parsed (lines_from [] c))
            (replicate (count_newlines c - length k) zero_cells),
        length-map (parse_line from_chars zero_cells) k,
        length-replicate (count_newlines c - length k) (zero_cells {F = F}),
        length-keep-le is_row (lines_from [] c),
        length-lines_from c e,
      )

  pub fill_chunks_lem :
      (parts : List Text) (before : List (Cells F))
      → All (λ c. ends_line c ≡ true) parts
      → fill_chunks from_chars parts
          (length before)
          (before ++ replicate (total_rows parts) zero_cells)
        ≡ before ++ join (map segment parts)
  unfolding fill_chunks total_rows
  fill_chunks_lem [] before e = refl
  fill_chunks_lem (c ∷ parts) before e =
      let n = count_newlines c in
      let after = replicate (total_rows parts) (zero_cells {F = F}) in
      let filled : List (Cells F) = before ++ segment c in
      let longer : length before + n ≡ length filled =
        omega (arith, length-append before (segment c), length-segment c e.0) in
      let lined : fill_lines from_chars (lines_from [] c) (length before) (length before + n)
            (before ++ replicate (n + total_rows parts) zero_cells)
          ≡ filled ++ after =
        ap
          (λ r.
            fill_lines from_chars (lines_from [] c) (length before) (length before + n)
              (before ++ r))
          (replicate-add n (total_rows parts) zero_cells)
        ∙ fill_lines_lem (lines_from [] c) before after n (omega (arith, length-lines_from c e.0))
        ∙ ap (λ r. before ++ r) (sym (append_assoc (parsed (lines_from [] c)) _ after))
        ∙ sym (append_assoc before (segment c) after) in
      ap₂ (fill_chunks from_chars parts) longer lined
      ∙ fill_chunks_lem parts filled e.1
      ∙ append_assoc before (segment c) (join (map segment parts))

  keep_unused : (n : ℕ) → keep (λ (c : Cells F). c.valid) (replicate n zero_cells) ≡ []
  unfolding zero_cells
  keep_unused zero = refl
  keep_unused (suc n) = keep_unused n

  kept_segment :
      (lines : List Text) (n : ℕ)
      → keep (λ (c : Cells F). c.valid) (parsed lines ++ replicate n zero_cells)
        ≡ keep (λ (c : Cells F). c.valid) (parsed lines)
  kept_segment lines n =
      keep-append _ (parsed lines) (replicate n zero_cells)
      ∙ ap (λ r. keep (λ (c : Cells F). c.valid) (parsed lines) ++ r) (keep_unused n)
      ∙ append-nil (keep (λ (c : Cells F). c.valid) (parsed lines))

  -- The rows that no line was parsed into are not valid.
  pub valid_rows-segments :
      (parts : List Text)
      → All (λ c. ends_line c ≡ true) parts
      → keep (λ (c : Cells F). c.valid) (join (map segment parts))
        ≡ keep (λ (c : Cells F). c.valid) (parsed (lines_from [] (join parts)))
  unfolding lines_from
  valid_rows-segments [] e = refl
  valid_rows-segments (c ∷ parts) e =
      let valid = λ (r : Cells F). r.valid in
      let lines = lines_from [] c in
      let unused = replicate (count_newlines c - length (keep is_row lines)) (zero_cells {F = F}) in
      keep-append valid (segment c) (join (map segment parts))
      ∙ ap₂ ◌++◌ (kept_segment lines _) (valid_rows-segments parts e.1)
      ∙ sym (keep-append valid (parsed lines) (parsed (lines_from [] (join parts))))
      ∙ ap (keep valid) (
          sym (
            ap (λ ls. parsed ls) (lines_from-append c (join parts) e.0)
            ∙ ap (map (parse_line from_chars zero_cells))
                (keep-append is_row lines (lines_from [] (join parts)))
            ∙ map-append (parse_line from_chars zero_cells) (keep is_row lines) _))
