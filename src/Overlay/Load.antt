-- ===== src/Overlay/Load.antt =====
-- The reader of the overlay file (cpp/common/overlay.cpp: `load_overlay`). The environment, the file's
-- bytes and `atoi` are arguments. A section's loop goes over the lines below its key; the outer loop then
-- goes on at the next line, since it passes those lines over itself. Of the scheduler and the network, the
-- settings that change no result are left out.
pub mod Skips
use mini.Base.{
  ℕ, suc, ◌+◌, Bool, true, false, not, ◌&&◌, ◌||◌, ◌==◌, leb, if◌then◌else◌, ℤ, pos, ltb_ℤ, Text,
  Dict, codes, find, put, at_or, text_eq, is_empty, List, [], ◌∷◌, ◌++◌, length, take, drop, Option,
  none, some,
}
use mini.Store.Load.{lines_from}
use mini.Overlay.{Overlay, NodeSpec, Chunking, NetworkSim, default_chunking}
use mini.Overlay.Lines.{leading_spaces, line_is_blank, clean_lines, block, key_value}
use mini.Overlay.Flow.{trim, dequote, find_first, first_is, parse_flow_map, parse_flow_seq}

abbrev pub empty_overlay : Overlay
empty_overlay = record {
  nodes = [];
  edges = [];
  routing = [];
  data_owners = [];
  chunking = default_chunking;
  mode = codes "weighted_round_robin";
  network = record { intra_host_max_rows = pos 0; inter_host_max_rows = pos 0 };
}

-- An edge, from a sequence of exactly two names.
abbrev pub add_edge : List Text → List (Text × Text) → List (Text × Text)
add_edge (a ∷ b ∷ []) edges = edges ++ (a, b) ∷ []
add_edge names edges = edges

unfoldable pub read_edges : List Text → Overlay → Overlay
unfolding line_is_blank find_first parse_flow_seq
read_edges [] o = o
read_edges (l ∷ ls) o =
    let skipped = read_edges ls o in
    if line_is_blank l then skipped else elim (find_first 45 l) [
      | none ↦ skipped
      | some dash ↦
          read_edges ls (record o { edges = add_edge (parse_flow_seq (drop (dash + 1) l)) o.edges })
    ]

-- The block form of a row of the routing table.
unfoldable pub read_row : List Text → Dict Text → Dict Text
unfolding line_is_blank find_first trim dequote put
read_row [] row = row
read_row (l ∷ ls) row =
    let skipped = read_row ls row in
    if line_is_blank l then skipped else elim (find_first 58 l) [
      | none ↦ skipped
      | some c ↦ read_row ls (put (trim (take c l)) (dequote (trim (drop (c + 1) l))) row)
    ]

unfoldable pub read_scheduler : List Text → Overlay → Overlay
unfolding line_is_blank key_value dequote text_eq codes
read_scheduler [] o = o
read_scheduler (l ∷ ls) o =
    let (k, v) = key_value l in
    read_scheduler ls (
      if line_is_blank l || not (text_eq k (codes "mode"))
      then o
      else record o { mode = dequote v })

-- A line that no section starts at.
abbrev pub is_passed : Text → Bool
is_passed l = line_is_blank l || not (leading_spaces l == 0)

module _ (atoi : Text → ℤ) where
  abbrev pub node_of : Text → Dict Text → NodeSpec
  node_of name kv =
      let vh = at_or (codes "virtual_host") [] kv in
      record {
        name = name;
        host = at_or (codes "host") [] kv;
        port = atoi (at_or (codes "port") [] kv);
        team = at_or (codes "team") [] kv;
        role = at_or (codes "role") [] kv;
        impl = at_or (codes "impl") [] kv;
        virtual_host = if is_empty vh then codes "h1" else vh;
      }

  -- The section `nodes`; `none` where a line throws.
  unfoldable pub read_nodes : List Text → Overlay → Option Overlay
  unfolding line_is_blank key_value parse_flow_map put at_or text_eq codes
  read_nodes [] o = some o
  read_nodes (l ∷ ls) o =
      let skipped = read_nodes ls o in
      let (name, body) = key_value l in
      if line_is_blank l then skipped else elim (parse_flow_map body) [
        | none ↦ none
        | some kv ↦ read_nodes ls (record o { nodes = put name (node_of name kv) o.nodes })
      ]

  -- The section `routing`: the rows are the lines indented by two, in flow form or with the lines below.
  unfoldable pub read_routing : List Text → Overlay → Option Overlay
  unfolding line_is_blank leading_spaces key_value parse_flow_map block read_row put
  read_routing [] o = some o
  read_routing (l ∷ ls) o =
      let skipped = read_routing ls o in
      let (src, body) = key_value l in
      let below =
        read_routing ls (record o { routing = put src (read_row (block 4 ls) []) o.routing }) in
      if line_is_blank l || not (leading_spaces l == 2)
      then skipped
      else if first_is 123 body
      then elim (parse_flow_map body) [
        | none ↦ none
        | some row ↦ read_routing ls (record o { routing = put src row o.routing })
      ]
      else below

  abbrev pub set_chunking : Text → Text → Chunking → Chunking
  set_chunking k v c =
      if text_eq k (codes "initial_rows")
      then record c { initial_rows = atoi v }
      else if text_eq k (codes "min_rows")
      then record c { min_rows = atoi v }
      else if text_eq k (codes "max_rows")
      then record c { max_rows = atoi v }
      else if text_eq k (codes "target_chunk_ms")
      then record c { target_chunk_ms = atoi v }
      else c

  unfoldable pub read_chunking : List Text → Overlay → Overlay
  unfolding line_is_blank key_value text_eq codes
  read_chunking [] o = o
  read_chunking (l ∷ ls) o =
      let (k, v) = key_value l in
      read_chunking ls
        (if line_is_blank l then o else record o { chunking = set_chunking k v o.chunking })

  abbrev pub set_network : Text → Text → NetworkSim → NetworkSim
  set_network k v n =
      if text_eq k (codes "intra_host_max_rows")
      then record n { intra_host_max_rows = atoi v }
      else if text_eq k (codes "inter_host_max_rows")
      then record n { inter_host_max_rows = atoi v }
      else n

  unfoldable pub read_network : List Text → Overlay → Overlay
  unfolding line_is_blank key_value dequote text_eq codes
  read_network [] o = o
  read_network (l ∷ ls) o =
      let (k, v) = key_value l in
      read_network ls
        (if line_is_blank l then o else record o { network = set_network k (dequote v) o.network })

  -- A section with the rest of its line and the lines below it.
  unfoldable pub read_section : Text → Text → List Text → Overlay → Option Overlay
  unfolding read_nodes read_edges read_routing read_chunking read_scheduler read_network
      parse_flow_seq text_eq codes
  read_section key rest below o =
      if text_eq key (codes "nodes")
      then read_nodes below o
      else if text_eq key (codes "edges")
      then some (read_edges below o)
      else if text_eq key (codes "routing")
      then read_routing below o
      else if text_eq key (codes "data_owners")
      then some (if is_empty rest then o else record o { data_owners = parse_flow_seq rest })
      else if text_eq key (codes "chunking")
      then some (read_chunking below o)
      else if text_eq key (codes "scheduler")
      then some (read_scheduler below o)
      else if text_eq key (codes "network")
      then some (read_network below o)
      else some o

  unfoldable pub read_lines : List Text → Overlay → Option Overlay
  unfolding line_is_blank leading_spaces find_first trim block read_section
  read_lines [] o = some o
  read_lines (l ∷ ls) o =
      let passed = read_lines ls o in
      if is_passed l then passed else elim (find_first 58 l) [
        | none ↦ passed
        | some c ↦ elim (read_section (trim (take c l)) (trim (drop (c + 1) l)) (block 2 ls) o) [
          | none ↦ none
          | some o' ↦ read_lines ls o'
        ]
      ]

  module _ (getenv : Text → Option Text) where
    unfoldable pub override_nodes : Dict NodeSpec → Dict NodeSpec
    unfolding codes
    override_nodes [] = []
    override_nodes ((name, spec) ∷ nodes) =
        let host : Text = elim (getenv (codes "MINI2_HOST_" ++ name)) [
          | none ↦ spec.host
          | some h ↦ h
        ] in
        let port : ℤ = elim (getenv (codes "MINI2_PORT_" ++ name)) [
          | none ↦ spec.port
          | some p ↦ atoi p
        ] in
        (name, record spec { host = host; port = port }) ∷ override_nodes nodes

    -- A tuning knob: only a positive number counts.
    abbrev pub knob : Text → ℤ → ℤ
    knob name old = elim (getenv name) [
      | none ↦ old
      | some v ↦ if ltb_ℤ (pos 0) (atoi v) then atoi v else old
    ]

    abbrev pub apply_env : Overlay → Overlay
    apply_env o = record o {
      nodes = override_nodes o.nodes;
      chunking = record (o.chunking) {
        initial_rows = knob (codes "MINI2_INITIAL_ROWS") o.chunking.initial_rows;
        max_rows = knob (codes "MINI2_MAX_ROWS") o.chunking.max_rows;
        target_chunk_ms = knob (codes "MINI2_TARGET_CHUNK_MS") o.chunking.target_chunk_ms;
      };
    }

    -- The overlay of an open file; `none` where the code throws.
    unfoldable pub load_overlay : Text → Option Overlay
    unfolding lines_from clean_lines read_lines override_nodes
    load_overlay file = elim (read_lines (clean_lines (lines_from [] file)) empty_overlay) [
      | none ↦ none
      | some o ↦ if is_empty o.nodes then none else some (apply_env o)
    ]
