-- ===== src/Overlay/Load/Skips.antt =====
-- The outer loop of `load_overlay` (cpp/common/overlay.cpp) passes over the lines of a section, so that it
-- may go on at any of them.
use mini.Base.{
  ◌≡◌, refl, ◌∙◌, arith, true, ◌||◌, leb, if_cases, ℤ, Text, List, [], ◌∷◌, length, drop,
}
use mini.Overlay.{Overlay}
use mini.Overlay.Lines.{line_is_blank, leading_spaces, block}
use mini.Overlay.Load.{is_passed, read_lines}

-- A line of a section is passed over.
line_is_passed :
    (l : Text) → line_is_blank l || leb 2 (leading_spaces l) ≡ true → is_passed l ≡ true
line_is_passed l h = ground (arith, h)

module _ (atoi : Text → ℤ) where
  read_lines-passed :
      (l : Text) (ls : List Text) (o : Overlay)
      → is_passed l ≡ true
      → read_lines atoi (l ∷ ls) o ≡ read_lines atoi ls o
  unfolding read_lines
  read_lines-passed l ls o h = rw (read_lines, h) refl

  pub read_lines-block :
      (ls : List Text) (o : Overlay)
      → read_lines atoi ls o ≡ read_lines atoi (drop (length (block 2 ls)) ls) o
  unfolding block
  read_lines-block [] o = refl
  read_lines-block (l ∷ ls) o =
      if_cases
        (λ (b : List Text).
          read_lines atoi (l ∷ ls) o ≡ read_lines atoi (drop (length b) (l ∷ ls)) o)
        (line_is_blank l || leb 2 (leading_spaces l))
        (λ indented. read_lines-passed l ls o (line_is_passed l indented) ∙ read_lines-block ls o)
        (λ _. refl)
