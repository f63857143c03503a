-- ===== src/Overlay.antt =====
-- The overlay network (cpp/common/overlay.hpp, overlay.cpp): its nodes, edges and routing table.
pub mod Neighbors
pub mod Flow
pub mod Lines
pub mod Load
use mini.Base.{
  ℕ, Bool, true, false, if◌then◌else◌, ℤ, pos, Text, Dict, codes, find, has, text_eq, List, [], ◌∷◌,
  ◌++◌, Option, none, some,
}

pub record NodeSpec : Type 0 where
  pub name : Text
  pub host : Text
  pub port : ℤ
  pub team : Text
  pub role : Text
  pub impl : Text
  pub virtual_host : Text

-- The chunk limits of `NetworkSim`; the simulated latencies and gzip change no result.
pub record NetworkSim : Type 0 where
  pub intra_host_max_rows : ℤ
  pub inter_host_max_rows : ℤ

pub record Chunking : Type 0 where
  pub initial_rows : ℤ
  pub min_rows : ℤ
  pub max_rows : ℤ
  pub target_chunk_ms : ℤ

-- The values in the declarations of the struct.
abbrev pub default_chunking : Chunking
default_chunking = record {
  initial_rows = pos 64;
  min_rows = pos 16;
  max_rows = pos 4096;
  target_chunk_ms = pos 25;
}

pub record Overlay : Type 0 where
  pub nodes : Dict NodeSpec
  pub edges : List (Text × Text)
  pub routing : Dict (Dict Text)
  pub data_owners : List Text
  pub chunking : Chunking
  pub mode : Text
  pub network : NetworkSim

unfoldable pub neighbors_of : Text → List (Text × Text) → List Text
neighbors_of n [] = []
neighbors_of n ((a, b) ∷ edges) =
    let rest = neighbors_of n edges in
    if text_eq a n then b ∷ rest else if text_eq b n then a ∷ rest else rest

unfoldable pub neighbors : Overlay → Text → List Text
unfolding neighbors_of
neighbors o n = neighbors_of n o.edges

-- `none`: the code throws.
unfoldable pub next_hop : Overlay → Text → Text → Option Text
next_hop o src dst = elim (find src o.routing) [ none ↦ none | some row ↦ find dst row ]

unfoldable pub has_node : Overlay → Text → Bool
has_node o n = has n o.nodes
