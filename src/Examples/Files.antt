-- ===== src/Examples/Files.antt =====
-- A small overlay file (cpp/common/overlay.cpp: `load_overlay`).
use mini.Base.{
  ◌≡◌, refl, ℤ, pos, Text, codes, find, put, at_or, text_eq, [], ◌∷◌, ◌++◌, Option, none, some,
}
use mathlib.Core.Option
use mini.Store.Load.{lines_from}
use mini.Overlay.{Overlay}
use mini.Overlay.Lines.{clean_lines}
use mini.Overlay.Load.{load_overlay, read_lines}

abbrev line : Text → Text → Text
line t rest = t ++ 10 ∷ rest

-- A comment, a section with an indented line, and the owners.
abbrev file : Text
file = line (codes "# small") (
    line (codes "nodes:")
      (line (codes "  A: {role: gateway, host: h}") (line (codes "data_owners: [A, B]") [])))

abbrev atoi : Text → ℤ
atoi t = pos 0

abbrev getenv : Text → Option Text
getenv t = none

owners_read :
    Option.map (λ (o : Overlay). o.data_owners) (load_overlay atoi getenv file)
    ≡ some (codes "A" ∷ codes "B" ∷ [])
unfolding load_overlay lines_from clean_lines read_lines codes text_eq find put at_or
owners_read = refl

-- Without nodes the load throws.
no_nodes : load_overlay atoi getenv (line (codes "edges:") []) ≡ none
unfolding load_overlay lines_from clean_lines read_lines codes text_eq
no_nodes = refl
