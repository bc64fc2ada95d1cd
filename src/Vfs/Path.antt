-- ===== src/Vfs/Path.antt =====
-- vfs.c: from an absolute path to an inode. The static buffer `token` is a result of
-- `get_path_first_token`: it is written there and read only by the call that follows.
pub mod Append
pub mod Below
pub mod Created
pub mod Pieces
pub mod Resolve
pub mod Sons
use clb_filesystem.Common.{
  ℕ, zero, suc, ◌+◌, Bool, true, false, not, ◌||◌, Option, none, some, List, [], ◌∷◌, Outcome, ok,
  fault, out_of_fuel, ◌>>=◌, need, get_elem?, drop, length, ◌==◌, if◌then◌else◌,
}
use clb_filesystem.Common.Words.{is_zero}
use clb_filesystem.CString.{strcmp}
use clb_filesystem.Inode.{
  TypeFile, file, folder, empty, Ptr, Table, fs_npages, max_size_name, root_inode,
}
use clb_filesystem.Inode.Name.{name_object}
use clb_filesystem.Vfs.{Text}

abbrev pub slash : ℕ
slash = 0x2f

abbrev pub ends_token : ℕ → Bool
ends_token c = c == 0 || c == slash

abbrev longer : ℕ → Option (ℕ × List ℕ) → Option (ℕ × List ℕ)
longer c none = none
longer c (some (n, token)) = some (suc n, c ∷ token)

-- The `for` loop of `get_path_first_token`, with n rounds left.
unfoldable pub token_loop : ℕ → List ℕ → Outcome (Option (ℕ × List ℕ))
token_loop zero path = ok none
token_loop (suc n) [] = fault
token_loop (suc n) (c ∷ path) =
    if ends_token c
    then ok (some (0, 0 ∷ []))
    else do token ← token_loop n path; ok (longer c token)

-- `get_path_first_token`: the size and the text of the token, or -1
unfoldable pub get_path_first_token : List ℕ → Outcome (Option (ℕ × List ℕ))
get_path_first_token path = token_loop (suc max_size_name) path

-- The `while` loop of `get_son_inode`; a chain of brothers has at most `FS_NPAGES` inodes.
unfoldable pub son_loop : ℕ → Table → List ℕ → Ptr → Outcome Ptr
son_loop zero t name p = out_of_fuel
son_loop (suc k) t name none = ok none
son_loop (suc k) t name (some c) = do
  order ← strcmp name (name_object (t c))
  elim (is_zero order) [ true ↦ ok (some c) | false ↦ son_loop k t name (t c).brother ]

-- `get_son_inode`
unfoldable pub get_son_inode : Table → ℕ → List ℕ → Outcome Ptr
get_son_inode t father name = son_loop fs_npages t name (t father).first_son

-- The inode that a token leads to; an empty token stays where it is.
unfoldable pub follow : Table → ℕ → ℕ → List ℕ → Outcome Ptr
follow t cur size token = if size == 0 then ok (some cur) else get_son_inode t cur token

-- A round of the loop in `parse_path`, which goes on by `next` below a folder.
unfoldable pub parse_step : Table → (ℕ → List ℕ → Outcome Ptr) → ℕ → List ℕ → Outcome Ptr
parse_step t next cur path = do
  token ← get_path_first_token path
  elim token [
    | none ↦ ok none
    | some (size, name) ↦ do
      son ← follow t cur size name
      elim son [
        | none ↦ ok none
        | some i ↦ do
          c ← need (get_elem? path size)
          elim ((t i).type) [
            | file ↦ if c == 0 then ok (some i) else ok none
            | folder ↦ elim (c == 0) [ true ↦ ok (some i) | false ↦ next i (drop (suc size) path) ]
            | empty ↦ ok none
          ]
      ]
  ]

unfoldable pub parse_loop : ℕ → Table → ℕ → List ℕ → Outcome Ptr
parse_loop zero t cur path = out_of_fuel
parse_loop (suc k) t cur path = parse_step t (parse_loop k t) cur path

-- `parse_path`: each round that goes on consumes at least one byte.
unfoldable pub parse_path : Table → Text → Outcome Ptr
parse_path t none = fault
parse_path t (some []) = fault
parse_path t (some (c ∷ path)) =
    if c == slash then parse_loop (length path) t root_inode path else ok none
