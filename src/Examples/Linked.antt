-- ===== src/Examples/Linked.antt =====
-- A query that one remote owner serves, from its submission to the last chunk (cpp/server/node.cpp).
use mini.Base.{
  ◌≡◌, refl, inl, inr, Bool, true, pos, codes, List, [], ◌∷◌, ◌++◌, map, Whole, whole_floats,
  text_eq, find, put, at_or, ◌+ℤ◌,
}
use mini.Store.{empty, fill, resolve_col, columns, is_valid, hit, read_val}
use mini.Store.Search.{
  compute_column_ranges, range_search, predicate_can_match, resolve_preds, scan_slices, scan_slice,
  row_match, ranges_from, minmax_col, minmax_threads, minmax_rows, combine, widen, is_proper,
  windows_meet,
}
use mini.Node.Owner.{begin, test, push, finish, step, start, new_request}
use mini.Node.Gateway.{fetch_chunk}
use mini.Routing.Hash.{has_text}
use mini.Node.Gateway.Conserve.{from_owner}
use mini.Node.Gateway.Prefetch.{issue, local_end, fetch, submitted, act}
use mini.Node.Link.{Link, Turn, gateway, work, arrive, load, return, turns}
use mini.Node.Link.Delivers.{linked, client_gets_wanted}
use mini.Examples.Partition.{trips, short_trips, threads, slices, threads-Covers}
use mini.Examples.Serving.{part, rows_wanted, new_gate}

-- Two pulls, of which the second is the last.
abbrev pub turns_taken : List (Turn Whole)
turns_taken =
    gateway (issue (codes "B"))
    ∷ work begin
    ∷ work test
    ∷ work push
    ∷ arrive (pos 16)
    ∷ work finish
    ∷ load
    ∷ return
    ∷ gateway (fetch (pos 4))
    ∷ gateway (issue (codes "B"))
    ∷ arrive (pos 16)
    ∷ load
    ∷ return
    ∷ gateway local_end
    ∷ []

abbrev served : Link Whole
served =
    turns part (codes "B")
      (linked threads slices trips (codes "r1") short_trips (pos 1) new_gate
        (codes "A" ∷ codes "B" ∷ []) [])
      turns_taken

-- Everything that the link computes.
linking : Bool
unfolding turns step act start new_request submitted fetch_chunk fill empty compute_column_ranges
    columns ranges_from minmax_col minmax_threads minmax_rows combine widen is_proper windows_meet
    predicate_can_match range_search resolve_preds resolve_col scan_slices scan_slice row_match
    is_valid hit read_val put find text_eq codes ◌+ℤ◌ at_or has_text
linking = true

ends_last : (fetch_chunk served.session.gate (pos 4)).2 ≡ true
unfolding linking
ends_last = refl

client_gets_wanted_example :
    from_owner (codes "B") (served.session.delivered ++ (fetch_chunk served.session.gate (pos 4)).1)
    ≡ map (fill part) rows_wanted
unfolding text_eq codes at_or has_text submitted put
client_gets_wanted_example =
    client_gets_wanted threads slices trips (codes "r1") short_trips (pos 1) new_gate
      (codes "A" ∷ codes "B" ∷ []) [] (codes "B") turns_taken (pos 4) refl threads-Covers refl refl
      refl refl (inr (inl refl)) refl refl ends_last
