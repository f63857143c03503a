-- ===== src/Examples/Events.antt =====
-- An event that a node emits (cpp/common/telemetry.cpp).
use mini.Base.{◌≡◌, refl, true, ℤ, pos, Text, codes, List, [], ◌∷◌, ◌++◌, none, Whole}
use mini.Telemetry.{
  Member, integer, flag, text, Telemetry, init, emit, emit_raw, add_members, value_text, add_kv,
  escape,
}

abbrev writer : Telemetry
writer = record { node = codes "A"; path = codes "telemetry-A.jsonl"; inited = true; written = [] }

-- A number, a flag, and a string with a quote in it.
abbrev members : List (Text × Member Whole)
members =
    (codes "ms", integer (pos 2))
    ∷ (codes "ok", flag true)
    ∷ (codes "err", text (97 ∷ 34 ∷ 98 ∷ []))
    ∷ []

abbrev int_text : ℤ → Text
int_text n = codes "7"

line_written :
    (emit int_text (λ x. []) writer (pos 7) (pos 7) (codes "pull") members).written
    ≡ codes
        "{\"t_ns\":7,\"wall_ns\":7,\"node\":\"A\",\"event\":\"pull\",\"ms\":7,\"ok\":true,\"err\":\"a"
      ++ 92 ∷ 34 ∷ codes "b\"}"
      ++ 10 ∷ []
unfolding emit emit_raw add_members value_text add_kv escape codes
line_written = refl

-- A second `init` changes nothing.
init_once : init (λ key. none) writer (codes "B") ≡ writer
unfolding init
init_once = refl
