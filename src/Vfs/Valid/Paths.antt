-- ===== src/Vfs/Valid/Paths.antt =====
-- Where a path can lead: to null, or to an inode in use.
use clb_filesystem.Common.{
  ℕ, ◌<◌, ◌≡◌, ◌≢◌, refl, inl, inr, none, some, List, [], ◌∷◌, ok, arith, ◌==◌, Bool-cases,
  Option-cases,
}
use clb_filesystem.CString.{Holds}
use clb_filesystem.Inode.{TypeFile, file, folder, empty, Ptr, Table, fs_npages}
use clb_filesystem.Filesystem.Tree.{View, IsTree}
use clb_filesystem.Vfs.Path.{slash, parse_path}
use clb_filesystem.Vfs.Path.Pieces.{piece, pieces}
use clb_filesystem.Vfs.Path.Resolve.{visit, resolve, parse_path-resolve, visit_inside}

-- A pointer that is null or leads to an inode in use.
abbrev pub IsLive : Table → Ptr → Type 0
IsLive t none = Unit {0}
IsLive t (some i) = (i < fs_npages) × ((t i).type ≢ empty)

-- The last component may be a file or a folder, the others are folders.
module _ (t : Table) (i : ℕ) (inside : i < fs_npages) where
  last-IsLive :
      (type : TypeFile)
      → (t i).type ≡ type
      → IsLive t (elim type [ file ↦ some i | folder ↦ some i | empty ↦ none ])
  last-IsLive file e = (inside, λ z. cc)
  last-IsLive folder e = (inside, λ z. cc)
  last-IsLive empty e = tt

  next-IsLive :
      (type : TypeFile) (p : Ptr)
      → IsLive t p
      → IsLive t (elim type [ file ↦ none | folder ↦ p | empty ↦ none ])
  next-IsLive file p h = tt
  next-IsLive folder p h = h
  next-IsLive empty p h = tt

module _ (t : Table) (v : View) (tree : IsTree t v) where
  abbrev types : ℕ → TypeFile
  types i = (t i).type

  pub resolve-IsLive :
      (cur : ℕ) (name : List ℕ) (rest : List (List ℕ))
      → cur < fs_npages
      → IsLive t (resolve types v cur name rest)
  unfolding resolve
  resolve-IsLive cur name [] h = elim (Option-cases (visit v cur name)) [
    | inl lost ↦ rw (lost, resolve) tt
    | inr (i, found) ↦
        let inside = visit_inside t v [] tree cur i name h found in
        rw (found, resolve) (last-IsLive t i inside (types i) refl)
  ]
  resolve-IsLive cur name (next ∷ rest) h = elim (Option-cases (visit v cur name)) [
    | inl lost ↦ rw (lost, resolve) tt
    | inr (i, found) ↦
        let inside = visit_inside t v [] tree cur i name h found in
        rw (found, resolve)
          (next-IsLive t i inside (types i) (resolve types v i next rest)
            (resolve-IsLive i next rest inside))
  ]

  -- `parse_path` of a terminated text returns null or an inode in use.
  pub parse_path-IsLive :
      (path p : List ℕ) → Holds path p → (o : Ptr) × (parse_path t (some path) ≡ ok o) × IsLive t o
  unfolding parse_path
  parse_path-IsLive [] p h = absurd h
  parse_path-IsLive (c ∷ path) [] h = (none, ground arith, tt)
  parse_path-IsLive (c ∷ path) (x ∷ p) h = elim (Bool-cases (c == slash)) [
    | inl absolute ↦
        let held : Holds (c ∷ path) (slash ∷ p) = (ground arith, omega arith, h.2) in
        (
          resolve types v 0 (piece p) (pieces p),
          parse_path-resolve t v (c ∷ path) p tree held,
          resolve-IsLive 0 (piece p) (pieces p) (omega arith),
        )
    | inr relative ↦ (none, rw relative refl, tt)
  ]
