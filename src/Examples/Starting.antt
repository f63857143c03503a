-- ===== src/Examples/Starting.antt =====
-- An owner that starts on a file of two lines, and a query to it (cpp/server/node.cpp).
use mini.Base.{
  zero, suc, sym, arith, ℕ, ◌≡◌, refl, inl, inr, Bool, true, if◌then◌else◌, pos, Text, codes, List,
  [], ◌∷◌, ◌++◌, Option, none, some, Whole, whole_floats, text_eq, find, put, at_or, ◌+ℤ◌,
}
use mini.Store.{size, empty, fill, resolve_col, columns, is_valid, hit, read_val}
use mini.Store.Search.{
  compute_column_ranges, range_search, predicate_can_match, resolve_preds, scan_slices, scan_slice,
  row_match, ranges_from, minmax_col, minmax_threads, minmax_rows, combine, widen, is_proper,
  windows_meet,
}
use mini.Store.Scan.{count_up}
use mini.Store.Ranges.{Covers}
use mini.Scheduler.FairScheduler
use mini.Scheduler.ChunkSizer
use mini.Store.Load.{
  parse_number, fields, next_field, is_yes, strip_return, find_newline, chunks, chunk_start,
  boundary, count_newlines, lines_from,
}
use mini.Store.Load.Rows.{
  store_of, load_rows, load_partition_csv, total_rows, fill_chunks, fill_lines, parse_line,
  parse_i32, parse_i64, parse_f64, zero_cells,
}
use mini.Store.Load.Satisfying.{rows_for}
use mini.Overlay.{Overlay, default_chunking}
use mini.Node.Owner.{step, start, new_request}
use mini.Node.Gateway.{fetch_chunk}
use mini.Routing.Hash.{has_text}
use mini.Routing.Manifest.{load_owner_metadata, no_metadata}
use mini.Node.Gateway.Conserve.{from_owner}
use mini.Node.Gateway.Prefetch.{submitted, act}
use mini.Node.Handlers.{Server}
use mini.Node.Link.{Link, turns}
use mini.Node.Start.{start_node, load_own, with_ranges}
use mini.Node.Start.Answers.{requested, client_gets_lines}
use mini.Examples.Partition.{short_trips}
use mini.Examples.Serving.{new_gate}
use mini.Examples.Loading.{digits}
use mini.Examples.Linked.{turns_taken}
use mini.Examples.Routes.{node}

-- The trip distances are the fifth fields.
abbrev body : Text
body = codes "1,1,1,1,2" ++ 10 ∷ codes "1,1,1,1,9" ++ 10 ∷ []

abbrev files : Text → Option Text
files path = if text_eq path (codes "d/B.csv") then some ((104 ∷ []) ++ 10 ∷ body) else none

abbrev overlay : Overlay
overlay = record {
  nodes = node (codes "A") ∷ node (codes "B") ∷ [];
  edges = [];
  routing = [];
  data_owners = codes "A" ∷ codes "B" ∷ [];
  chunking = default_chunking;
  mode = codes "round_robin";
  network = record { intra_host_max_rows = pos 0; inter_host_max_rows = pos 0 };
}

abbrev stod : Text → Option Whole
stod t = none

abbrev pub split : ℕ → List (List ℕ)
split n = count_up 0 n ∷ []

abbrev pub srv : Server Whole
srv = record {
  name = codes "B";
  overlay = overlay;
  me = (node (codes "B")).1;
  meta = no_metadata;
  part = with_ranges split (store_of (load_rows digits 1 body));
  requests = [];
  sched = FairScheduler.make (codes "round_robin");
  sizer = ChunkSizer.make (pos 64) (pos 16) (pos 4096) (pos 25);
}

starts : start_node digits stod 1 split files (codes "B") overlay (codes "d") ≡ some srv
unfolding start_node find text_eq codes load_own load_partition_csv find_newline load_owner_metadata
starts = refl

two_rows : size srv.part ≡ 2
unfolding size compute_column_ranges empty load_rows chunks chunk_start boundary total_rows
    count_newlines fill_chunks fill_lines lines_from store_of codes
two_rows = refl

two-Covers : Covers (split 2) 2
two-Covers zero h = inl (inl refl)
two-Covers (suc zero) h = inl (inr (inl refl))
two-Covers (suc (suc i)) h = absurd (omega arith)

abbrev served : Link Whole
served =
    turns srv.part (codes "B")
      (requested (2 ∷ []) srv new_gate (codes "A" ∷ codes "B" ∷ []) [] (codes "r1") short_trips
        (pos 1))
      turns_taken

-- Everything that the link computes.
linking : Bool
unfolding turns step act start new_request submitted fetch_chunk fill empty compute_column_ranges
    columns ranges_from minmax_col minmax_threads minmax_rows combine widen is_proper windows_meet
    predicate_can_match range_search resolve_preds resolve_col scan_slices scan_slice row_match
    is_valid hit read_val put find text_eq codes ◌+ℤ◌ at_or has_text size load_rows chunks
    chunk_start boundary total_rows count_newlines fill_chunks fill_lines lines_from store_of
    parse_line fields next_field parse_number parse_i32 parse_i64 parse_f64 is_yes strip_return
    zero_cells
linking = true

ends_last : (fetch_chunk served.session.gate (pos 4)).2 ≡ true
unfolding linking
ends_last = refl

client_gets_lines_example :
    from_owner (codes "B") (served.session.delivered ++ (fetch_chunk served.session.gate (pos 4)).1)
    ≡ rows_for digits body short_trips
unfolding text_eq codes at_or has_text submitted put
client_gets_lines_example =
    client_gets_lines digits stod 1 split files (104 ∷ []) body (codes "d") overlay srv (2 ∷ [])
      (codes "r1") short_trips (pos 1) new_gate (codes "A" ∷ codes "B" ∷ []) [] (codes "B")
      turns_taken (pos 4) starts (inr (inl refl)) refl (refl, tt) refl (omega arith) (omega arith)
      (rw two_rows two-Covers) (sym two_rows) refl refl refl (inr (inl refl)) refl refl ends_last
