-- ===== src/Examples/Running.antt =====
-- A node that `main` starts (cpp/server/node.cpp).
use mini.Base.{
  ◌≡◌, refl, if◌then◌else◌, Bool, true, false, ℤ, pos, Text, codes, [], ◌∷◌, ◌++◌, Option, none,
  some, Whole, whole_floats, text_eq, has,
}
use mini.Overlay.{Overlay}
use mini.Node.Handlers.{Server}
use mini.Node.Start.{
  NodeArgs, parsed, Outcome, serves, exits, throws, default_args, parse_args, arg_or, open_overlay,
  main,
}
use mini.Node.Start.Serves.{Serving, main-Serving}
use mini.Examples.Loading.{digits}
use mini.Examples.Starting.{srv, split}

abbrev atoi : Text → ℤ
atoi t = pos 7

-- The name comes from the environment.
abbrev getenv : Text → Option Text
getenv key = if text_eq key (codes "MINI2_NODE") then some (codes "B") else none

abbrev files : Text → Option Text
files path =
    if text_eq path (codes "o")
    then some (
        codes "nodes:"
        ++ 10 ∷ codes "  B: {host: h, port: 7}"
        ++ 10 ∷ codes "data_owners: [B]"
        ++ 10 ∷ [])
    else none

abbrev stod : Text → Option Whole
stod t = none

abbrev outcome : Outcome Whole
outcome =
    main digits stod 1 split files atoi getenv (λ port. true) (codes "--overlay" ∷ codes "o" ∷ [])

abbrev is_served : Outcome Whole → Bool
is_served (serves s port threads) = true
is_served o = false

abbrev server_of : Outcome Whole → Server Whole × ℤ × ℤ
server_of (serves s port threads) = (s, port, threads)
server_of o = (srv, pos 0, pos 0)

is_served_lem :
    (o : Outcome Whole)
    → is_served o ≡ true
    → o ≡ serves (server_of o).0 (server_of o).1 (server_of o).2
is_served_lem (serves s port threads) h = refl
is_served_lem (exits n) h = cc
is_served_lem throws h = cc

serving : is_served outcome ≡ true
unfolding main has
serving = refl

main-Serving_test :
    (a : NodeArgs) × (overlay : Overlay) × (parse_args atoi
        (codes "--overlay" ∷ codes "o" ∷ [])
        default_args
      ≡ parsed a)
    × (open_overlay digits stod 1 split files atoi getenv (λ port. true) a.overlay_path
        ≡ some overlay)
    × Serving digits stod 1 split files atoi getenv
        (λ port. true)
        (server_of outcome).0
        (arg_or getenv a.name (codes "MINI2_NODE") [])
        overlay
        (server_of outcome).1
        (server_of outcome).2
main-Serving_test =
    main-Serving digits stod 1 split files atoi getenv (λ port. true)
      (codes "--overlay" ∷ codes "o" ∷ []) (server_of outcome).0 (server_of outcome).1
      (server_of outcome).2 (is_served_lem outcome serving)
