-- ===== src/Vfs/Dir/Names.antt =====
-- A client that asks for one son of an open folder after another.
use clb_filesystem.Common.{
  ℕ, zero, suc, ◌+◌, ◌<◌, ◌≡◌, refl, ◌∙◌, true, Option, some, List, [], ◌∷◌, ◌++◌, Outcome, ok,
  ◌>>=◌, need, arith, length, length-append, length-drop, drop, has, map, ◌==◌,
}
use clb_filesystem.Common.Words.{ℤ, pos}
use clb_filesystem.CString.{Holds, c_text, strcpy}
use clb_filesystem.CString.Laws.{strcpy_lem, Holds-append, c_text_lem}
use clb_filesystem.Inode.{is_folder, Table, update}
use clb_filesystem.Inode.Name.{name_object}
use clb_filesystem.Filesystem.Chain.{Chain}
use clb_filesystem.Filesystem.Tree.{View}
use clb_filesystem.Vfs.{Vfs, max_open_files}
use clb_filesystem.Vfs.Dir.{next_son, get_next_dir_son}
use clb_filesystem.Vfs.Valid.Slots.{slot-ok}

-- The texts that n calls of `get_next_dir_son` leave in one buffer, in their order.
unfoldable pub next_names : ℕ → Vfs → Option ℤ → List ℕ → Outcome (List (List ℕ) × Vfs)
next_names zero s fd buf = ok ([], s)
next_names (suc n) s fd buf = do
  next ← get_next_dir_son s fd (some buf)
  text ← need next.son_name
  name ← c_text text
  (names, s') ← next_names n next.state next.fd text
  ok (name ∷ names, s')

-- n empty texts, which say that there are no more sons.
abbrev pub ends : ℕ → List (List ℕ)
ends zero = []
ends (suc n) = [] ∷ ends n

-- The descriptor is open on the folder d, and the sons that it has not come to are xs.
pub record IsAt (s : Vfs) (fd d : ℕ) (xs : List ℕ) : Type 0 where
  pub slot_in : fd < max_open_files
  pub inode : (s.open_inodes fd).inode ≡ some d
  pub of_folder : is_folder (s.ram.inodes d).type ≡ true
  pub rest : Chain s.ram.inodes (s.open_inodes fd).next_son xs

-- The state after the son x was named.
abbrev pub passed : Vfs → ℕ → ℕ → Vfs
passed s fd x = record s {
  open_inodes =
      update s.open_inodes fd (record (s.open_inodes fd) { next_son = (s.ram.inodes x).brother });
}

-- Each of the inodes has a name that the buffer has room for.
abbrev pub AreNamed : Table → View → List ℕ → List ℕ → Type 0
AreNamed t v xs buf =
    (c : ℕ)
    → has c xs ≡ true
    → Holds (name_object (t c)) (v.names c) × (length (v.names c) < length buf)

get_next_dir_son-next_son :
    (s : Vfs) (fd d : ℕ) (xs buf : List ℕ)
    → IsAt s fd d xs
    → get_next_dir_son s (some (pos fd)) (some buf) ≡ next_son s (pos fd) fd buf
unfolding get_next_dir_son
get_next_dir_son-next_son s fd d xs buf at = rw (slot-ok fd at.slot_in, at.inode, at.of_folder) refl

-- One call, for a folder without a further son and for one with a further son x.
get_next_dir_son-end :
    (s : Vfs) (fd d c : ℕ) (buf : List ℕ)
    → IsAt s fd d []
    → get_next_dir_son s (some (pos fd)) (some (c ∷ buf))
      ≡ ok (record { result = pos 0; fd = some (pos fd); son_name = some (0 ∷ buf); state = s })
unfolding next_son
get_next_dir_son-end s fd d c buf at =
    get_next_dir_son-next_son s fd d [] (c ∷ buf) at ∙ rw (at.rest, next_son) refl

get_next_dir_son-son :
    (s : Vfs) (fd d x : ℕ) (xs buf text : List ℕ)
    → IsAt s fd d (x ∷ xs)
    → strcpy buf (name_object (s.ram.inodes x)) ≡ ok text
    → get_next_dir_son s (some (pos fd)) (some buf)
      ≡ ok (record {
        result = pos 0;
        fd = some (pos fd);
        son_name = some text;
        state = passed s fd x;
      })
unfolding next_son
get_next_dir_son-son s fd d x xs buf text at copied =
    get_next_dir_son-next_son s fd d (x ∷ xs) buf at ∙ rw (at.rest.0, next_son, copied) refl

passed-IsAt :
    (s : Vfs) (fd d x : ℕ) (xs : List ℕ) → IsAt s fd d (x ∷ xs) → IsAt (passed s fd x) fd d xs
passed-IsAt s fd d x xs at =
    let here : (fd == fd) ≡ true = ground arith in
    record {
      slot_in = at.slot_in;
      inode = rw here at.inode;
      of_folder = at.of_folder;
      rest = rw here at.rest.1;
    }

next_names-ends :
    (k : ℕ) (s : Vfs) (fd d : ℕ) (buf : List ℕ)
    → IsAt s fd d []
    → 0 < length buf
    → next_names k s (some (pos fd)) buf ≡ ok (ends k, s)
unfolding next_names
next_names-ends zero s fd d buf at room = refl
next_names-ends (suc k) s fd d [] at room = absurd (omega arith)
next_names-ends (suc k) s fd d (c ∷ buf) at room = rw (get_next_dir_son-end s fd d c buf at) (
    rw (c_text_lem (0 ∷ buf) [] refl)
      (rw (next_names-ends k s fd d (0 ∷ buf) at (omega arith)) refl))

-- From any point of a folder on, the names of the remaining sons, and then the empty text.
pub next_names-names :
    (k : ℕ) (s : Vfs) (v : View) (fd d : ℕ) (xs buf : List ℕ)
    → IsAt s fd d xs
    → AreNamed s.ram.inodes v xs buf
    → 0 < length buf
    → (s' : Vfs) × (next_names (length xs + k) s (some (pos fd)) buf
        ≡ ok (map v.names xs ++ ends k, s'))
      × (s'.ram ≡ s.ram)
unfolding next_names
next_names-names k s v fd d [] buf at named room =
    let none_left : length {A = ℕ} [] + k ≡ k = omega arith in
    (s, rw none_left (next_names-ends k s fd d buf at room), refl)
next_names-names k s v fd d (x ∷ xs) buf at named room =
    let one_more : length (x ∷ xs) + k ≡ suc (length xs + k) = omega arith in
    let (held, fits) = named x (ground arith) in
    let rest = drop (suc (length (v.names x))) buf in
    let text = v.names x ++ 0 ∷ rest in
    let copied = strcpy_lem buf (name_object (s.ram.inodes x)) (v.names x) held fits in
    let size : length text ≡ length buf =
      omega
        (arith, length-append (v.names x) (0 ∷ rest), length-drop (suc (length (v.names x))) buf) in
    let (s', runs, same) =
      next_names-names k (passed s fd x) v fd d xs text (passed-IsAt s fd d x xs at)
        (λ c m. let (h, f) = named c (ground arith) in (h, omega (arith, f, size)))
        (omega (arith, size)) in
    (
      s',
      rw (one_more, next_names, get_next_dir_son-son s fd d x xs buf text at copied)
          (rw (c_text_lem text (v.names x) (Holds-append _ (v.names x) rest held)) (rw runs refl)),
      same,
    )
