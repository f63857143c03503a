-- ===== src/Node/Start/Answers.antt =====
-- From an owner's file to the client (cpp/server/node.cpp, cpp/common/csv_store.cpp).
use mini.Base.{
  ℕ, ◌*◌, ◌^◌, ◌<◌, ◌≡◌, refl, ap, ◌∙◌, true, false, ◌==◌, ℤ, Text, text_eq, List, [], ◌∷◌, ◌++◌,
  In, All, length, Option, some, Floats,
}
use mini.Store.{PartitionStore, Query, size}
use mini.Store.Search.{compute_column_ranges}
use mini.Store.Scan.{sum}
use mini.Store.Ranges.{Covers, compute-valid}
use mini.Store.Load.{FromChars}
use mini.Store.Load.Lines.{ends_line}
use mini.Store.Load.Rows.{store_of, load_rows}
use mini.Store.Load.Satisfying.{rows_for, scan-load_rows}
use mini.Overlay.{Overlay}
use mini.Node.Owner.{new_request, start}
use mini.Node.Gateway.{Gateway, fetch_chunk}
use mini.Node.Gateway.Conserve.{from_owner}
use mini.Node.Gateway.Prefetch.{waits, submitted}
use mini.Node.Handlers.{Server}
use mini.Node.Link.{Link, Turn, turns}
use mini.Node.Link.Steady.{flags}
use mini.Node.Link.Delivers.{client_gets_wanted}
use mini.Node.Start.{partition_file, start_node}
use mini.Node.Start.Loads.{start_node-part}

module _ {F : Type 0} ⦃fl : Floats F⦄ where
  -- A request of a gateway, forwarded to the owner `srv` and registered there.
  abbrev pub requested :
      List ℕ → Server F → Gateway F → List Text → List Text → Text → Query F → ℤ → Link F
  requested slices srv g elig failed rid q weight = record {
    session = submitted g elig failed;
    owner = start (new_request slices srv.part rid q weight);
  }

module _ {F : Type 0} ⦃fl : Floats F⦄ (from_chars : FromChars F) (stod : Text → Option F) (nt : ℕ)
    (split : ℕ → List (List ℕ)) (files : Text → Option Text) where
  no_ranges : (body : Text) → (store_of (load_rows from_chars nt body)).column_ranges ≡ []
  unfolding store_of
  no_ranges body = refl

  -- A remote data owner has started on a file of a header line and whole lines, on a machine with 64-bit
  -- sizes that holds its number of bytes times the number of loading threads, and a gateway with nothing
  -- buffered has forwarded a query to it and pulls from it. In every interleaving of the owner's producer,
  -- of those pulls, each answered, and of what else the gateway does for the request, without a
  -- cancellation: when `FetchChunk` answers `is_last`, the client has got from this owner exactly the
  -- rows of the file's valid lines that satisfy the query, all of them, in the file's order and once.
  pub client_gets_lines :
      (header body data_dir : Text) (overlay : Overlay) (srv : Server F) (slices : List ℕ)
      (rid : Text) (q : Query F) (weight : ℤ) (g : Gateway F) (elig failed : List Text) (o : Text)
      (ts : List (Turn F)) (max_rows : ℤ)
      → start_node from_chars stod nt split files o overlay data_dir ≡ some srv
      → In o overlay.data_owners
      → partition_file files data_dir o ≡ some (header ++ 10 ∷ body)
      → All (λ c. (c == 10) ≡ false) header
      → ends_line body ≡ true
      → 0 < nt
      → length body * nt < 2 ^ 64
      → Covers (split (size srv.part)) (size srv.part)
      → sum slices ≡ size srv.part
      → g.prefetch_buf ≡ []
      → g.prefetch_done_map ≡ []
      → flags g ≡ (false, false)
      → In o g.owners
      → text_eq o g.name ≡ false
      → (submitted g elig failed).prefetchers o ≡ waits
      → (fetch_chunk
          (turns srv.part o (requested slices srv g elig failed rid q weight) ts).session.gate
          max_rows).2
        ≡ true
      → from_owner o (
          (turns srv.part o (requested slices srv g elig failed rid q weight) ts).session.delivered
          ++ (fetch_chunk
              (turns srv.part o (requested slices srv g elig failed rid q weight) ts).session.gate
              max_rows).1)
        ≡ rows_for from_chars body q
  unfolding size
  client_gets_lines header body data_dir overlay srv slices rid q weight g elig failed o ts max_rows
        s m f h e p w cover total b d off i n wt last =
      let raw = store_of (load_rows from_chars nt body) in
      let part : srv.part ≡ compute_column_ranges (split (size raw)) raw =
        start_node-part from_chars stod nt split files o data_dir header body overlay srv s m f h in
      let same : srv.part.valid ≡ raw.valid =
        ap (λ (x : PartitionStore F). x.valid) part ∙ compute-valid _ raw in
      rw part (
        client_gets_wanted (split (size raw)) slices raw rid q weight g elig failed o ts max_rows
          (no_ranges body) (rw same at cover) (total ∙ ap length same) b d off i n wt
          (rw part at last)
        ∙ scan-load_rows from_chars nt body (split (size raw)) q p w e)
