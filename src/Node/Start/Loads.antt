-- ===== src/Node/Start/Loads.antt =====
-- The partition that a node starts with (cpp/server/node.cpp).
use mini.Base.{
  ℕ, ◌≡◌, refl, sym, ap, ◌∙◌, true, false, ◌==◌, if_cases, Bool-cases, inl, inr, Text, codes, find,
  text_eq, text_eq_iff, is_empty, List, [], ◌∷◌, ◌++◌, In, All, Option, some, Option-cases, Floats,
}
use mathlib.Core.Option.{some-injective}
use mini.Store.{PartitionStore, empty, size}
use mini.Store.Search.{compute_column_ranges}
use mini.Store.Load.{FromChars}
use mini.Store.Load.Rows.{store_of, load_rows, load_partition_csv}
use mini.Store.Load.Satisfying.{load-store_of}
use mini.Overlay.{Overlay}
use mini.Routing.Manifest.{load_owner_metadata}
use mini.Node.Handlers.{Server}
use mini.Node.Start.{partition_file, load_own, with_ranges, start_node}

module _ {F : Type 0} ⦃fl : Floats F⦄ (from_chars : FromChars F) (stod : Text → Option F) (nt : ℕ)
    (split : ℕ → List (List ℕ)) (files : Text → Option Text) where
  -- Loading once more gives the same partition.
  load_own-again :
      (name data_dir csv : Text) (os : List Text) (store : PartitionStore F)
      → partition_file files data_dir name ≡ some csv
      → load_partition_csv from_chars nt csv ≡ some store
      → load_own from_chars stod nt split files name data_dir os store ≡ some store
  unfolding load_own
  load_own-again name data_dir csv [] store f l = refl
  load_own-again name data_dir csv (o ∷ os) store f l =
      if_cases (λ r. r ≡ some store) (text_eq o name)
        (λ _. rw (f, l) (load_own-again name data_dir csv os store f l))
        (λ _. load_own-again name data_dir csv os store f l)

  load_own-listed :
      (name data_dir csv : Text) (os : List Text) (part store : PartitionStore F)
      → partition_file files data_dir name ≡ some csv
      → load_partition_csv from_chars nt csv ≡ some store
      → In name os
      → load_own from_chars stod nt split files name data_dir os part ≡ some store
  unfolding load_own
  load_own-listed name data_dir csv [] part store f l m = absurd m
  load_own-listed name data_dir csv (o ∷ os) part store f l (inl here) =
      let same : text_eq o name ≡ true = (text_eq_iff o name).1 here in
      rw same (rw (f, l) (load_own-again name data_dir csv os store f l))
  load_own-listed name data_dir csv (o ∷ os) part store f l (inr m) =
      if_cases (λ r. r ≡ some store) (text_eq o name)
        (λ _. rw (f, l) (load_own-again name data_dir csv os store f l))
        (λ _. load_own-listed name data_dir csv os part store f l m)

  -- An empty partition has no range table to compute.
  ranges-always :
      (part : PartitionStore F)
      → with_ranges split part ≡ compute_column_ranges (split (size part)) part
  unfolding compute_column_ranges empty
  ranges-always part = elim (Bool-cases (is_empty part.valid)) [
    | inl e ↦ rw e refl
    | inr e ↦ rw e refl
  ]

  -- A data owner whose file is a header line and whole lines starts with the rows of that file and their range table.
  pub start_node-part :
      (name data_dir header body : Text) (overlay : Overlay) (srv : Server F)
      → start_node from_chars stod nt split files name overlay data_dir ≡ some srv
      → In name overlay.data_owners
      → partition_file files data_dir name ≡ some (header ++ 10 ∷ body)
      → All (λ c. (c == 10) ≡ false) header
      → srv.part
        ≡ compute_column_ranges
            (split (size (store_of (load_rows from_chars nt body))))
            (store_of (load_rows from_chars nt body))
  unfolding start_node
  start_node-part name data_dir header body overlay srv s m f h =
      let store = store_of (load_rows from_chars nt body) in
      let own : load_own from_chars stod nt split files name data_dir overlay.data_owners
            (store_of [])
          ≡ some store =
        load_own-listed name data_dir (header ++ 10 ∷ body) overlay.data_owners (store_of []) store
          f (load-store_of from_chars nt header body h) m in
      elim (Option-cases (find name overlay.nodes)) [
        | inl missing ↦ cc (rw (start_node, missing) at s)
        | inr (me, known) ↦
            elim (Option-cases
              (load_owner_metadata stod (files (data_dir ++ codes "/manifest.json")))) [
                | inl bad ↦ cc (rw (start_node, known, own, bad) at s)
                | inr (meta, good) ↦
                    let built = rw (start_node, known, own, good) at s in
                    ap (λ (x : Server F). x.part) (sym (some-injective _ _ built))
                    ∙ ranges-always store
              ]
      ]
