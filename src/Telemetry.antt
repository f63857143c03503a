-- ===== src/Telemetry.antt =====
-- The telemetry of a node (cpp/common/telemetry.hpp, telemetry.cpp): an event with its members, and the
-- writer of its file. The printing of numbers and the clocks' readings are arguments, and the file is what
-- this process has appended to it.
pub mod Reader
use mini.Base.{
  ℕ, ℤ, Bool, true, false, ◌||◌, ◌==◌, if◌then◌else◌, Text, codes, is_empty, List, [], ◌∷◌, ◌++◌,
  Option, none, some,
}

-- `"`, `\`, the newline, `n`, `:` and `,`.
abbrev pub quote : ℕ
quote = 34

abbrev pub backslash : ℕ
backslash = 92

abbrev pub newline : ℕ
newline = 10

abbrev pub letter_n : ℕ
letter_n = 110

abbrev pub colon : ℕ
colon = 58

abbrev pub comma : ℕ
comma = 44

-- The loop over the characters of a string.
unfoldable pub escape : Text → Text
escape [] = []
escape (c ∷ v) =
    let rest = escape v in
    if c == quote || c == backslash
    then backslash ∷ c ∷ rest
    else if c == newline
    then backslash ∷ letter_n ∷ rest
    else c ∷ rest

unfoldable pub add_kv : Text → Text → Text → Text
add_kv buf k v = (if is_empty buf then [] else buf ++ comma ∷ []) ++ quote ∷ k ++ quote ∷ colon ∷ v

-- `f` on a string.
unfoldable pub add_string : Text → Text → Text → Text
unfolding escape add_kv
add_string buf k v = add_kv buf k (quote ∷ escape v ++ quote ∷ [])

-- What the overloads of `f` take.
pub data Member (F : Type 0) : Type 0 where
  integer : ℤ → Member F
  number : F → Member F
  flag : Bool → Member F
  text : Text → Member F

pub record Telemetry : Type 0 where
  pub node : Text
  pub path : Text
  pub inited : Bool
  pub written : Text

unfoldable pub init : (Text → Option Text) → Telemetry → Text → Telemetry
unfolding codes
init getenv w node =
    let base : Text = elim (getenv (codes "MINI2_RUN_DIR")) [
      | none ↦ codes "logs/run-default"
      | some dir ↦ dir
    ] in
    if w.inited then w else record {
      node = node;
      path = base ++ codes "/telemetry-" ++ node ++ codes ".jsonl";
      inited = true;
      written = [];
    }

-- `std::to_string` on integers and on doubles; a stream prints an integer as the first.
module _ {F : Type 0} (int_text : ℤ → Text) (to_string : F → Text) where
  unfoldable pub value_text : Member F → Text
  unfolding escape codes
  value_text (integer n) = int_text n
  value_text (number x) = to_string x
  value_text (flag b) = if b then codes "true" else codes "false"
  value_text (text v) = quote ∷ escape v ++ quote ∷ []

  -- The calls of `f` on an event, one after the other.
  unfoldable pub add_members : Text → List (Text × Member F) → Text
  unfolding add_kv value_text
  add_members buf [] = buf
  add_members buf ((k, m) ∷ ms) = add_members (add_kv buf k (value_text m)) ms

  unfoldable pub emit_raw : Telemetry → ℤ → ℤ → Text → Text → Telemetry
  unfolding codes
  emit_raw w t_ns wall_ns event kv_json =
      let tail = (if is_empty kv_json then [] else comma ∷ kv_json) ++ codes "}" ++ newline ∷ [] in
      let names =
        codes ",\"node\":\"" ++ (w.node ++ (codes "\",\"event\":\"" ++ (event ++ quote ∷ tail))) in
      let line =
        codes "{\"t_ns\":"
        ++ (int_text t_ns ++ (codes ",\"wall_ns\":" ++ (int_text wall_ns ++ names))) in
      if w.inited then record w { written = w.written ++ line } else w

  unfoldable pub emit : Telemetry → ℤ → ℤ → Text → List (Text × Member F) → Telemetry
  unfolding emit_raw add_members
  emit w t_ns wall_ns event ms = emit_raw w t_ns wall_ns event (add_members [] ms)
