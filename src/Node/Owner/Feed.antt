-- ===== src/Node/Owner/Feed.antt =====
-- What the owner of a request promises its pulls (cpp/server/node.cpp), as an abstract machine: a feed of
-- rows that is taken from the front, may be withdrawn but for one row that is on its way, and announces its
-- end only when nothing is left.
use mini.Base.{◌≤◌, ℕ, ◌≡◌, Bool, true, false, List, [], ◌++◌, take, drop, take-append-drop}
use mathlib.Core.List.Sublist
use mathlib.Core.List.{Sublist, sublist-append_left, sublist-append_right, append_assoc}
use mini.Store.{TaxiRow}

take-Sublist : {A : Type 0} (n : ℕ) (xs : List A) → Sublist (take n xs) xs
take-Sublist n xs = rw (take-append-drop n xs) at (sublist-append_left (take n xs) (drop n xs))

drop-Sublist : {A : Type 0} (n : ℕ) (xs : List A) → Sublist (drop n xs) xs
drop-Sublist n xs = rw (take-append-drop n xs) at (sublist-append_right (take n xs) (drop n xs))

pub record Feed (F : Type 0) : Type 0 where
  pub left : List (TaxiRow F)
  pub taken : List (TaxiRow F)
  pub ended : Bool

module _ {F : Type 0} where
  abbrev pub grab_rows : Feed F → ℕ → Feed F
  grab_rows f n = record f { left = drop n f.left; taken = f.taken ++ take n f.left }

  abbrev pub withdrawn : Feed F → ℕ → ℕ → Feed F
  withdrawn f n k = record f { left = take k (drop n f.left) }

  abbrev pub announced : Feed F → Feed F
  announced f = record f { ended = true }

  pub data Move (f : Feed F) : Feed F → Type 0 where
    stay : Move f f
    grab : (n : ℕ) → Move f (grab_rows f n)
    withdraw : (n k : ℕ) → k ≤ 1 → Move f (withdrawn f n k)
    announce : f.left ≡ [] → Move f (announced f)

  pub data Moves (f : Feed F) : Feed F → Type 0 where
    still : Moves f f
    later : {g h : Feed F} → Moves f g → Move g h → Moves f h

  Move-Sublist :
      {rows : List (TaxiRow F)} {f g : Feed F}
      → Move f g
      → Sublist (f.taken ++ f.left) rows
      → Sublist (g.taken ++ g.left) rows
  Move-Sublist stay o = o
  Move-Sublist {rows} {f} (grab n) o =
      rw (append_assoc f.taken (take n f.left) (drop n f.left), take-append-drop n f.left) o
  Move-Sublist {rows} {f} (withdraw n k _) o =
      Sublist.trans
        (Sublist.append (Sublist.refl f.taken)
          (Sublist.trans (take-Sublist k (drop n f.left)) (drop-Sublist n f.left)))
        o
  Move-Sublist (announce _) o = o

  Moves-Sublist :
      {rows : List (TaxiRow F)} {f g : Feed F}
      → Moves f g
      → Sublist (f.taken ++ f.left) rows
      → Sublist (g.taken ++ g.left) rows
  Moves-Sublist still o = o
  Moves-Sublist (later ms m) o = Move-Sublist m (Moves-Sublist ms o)

  abbrev pub fresh : List (TaxiRow F) → Feed F
  fresh rows = record { left = rows; taken = []; ended = false }

  -- The rows taken from a feed are rows of it, in its order and each once.
  pub taken-Sublist :
      {rows : List (TaxiRow F)} {f : Feed F} → Moves (fresh rows) f → Sublist f.taken rows
  taken-Sublist {rows} {f} ms =
      Sublist.trans (sublist-append_left f.taken f.left) (Moves-Sublist ms (Sublist.refl rows))
