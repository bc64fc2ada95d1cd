-- ===== src/Vfs/Path/Sons.antt =====
-- `get_son_inode` finds the first son of the given name.
use clb_filesystem.Common.{
  ℕ, zero, suc, ◌<◌, ◌≡◌, refl, true, none, some, List, [], ◌∷◌, ok, arith, length, has,
  if◌then◌else◌,
}
use clb_filesystem.CString.{Holds}
use clb_filesystem.CString.Laws.{text_eq, text_eq_iff, strcmp-eq}
use clb_filesystem.Inode.{Ptr, Table, fs_npages}
use clb_filesystem.Inode.Name.{name_object}
use clb_filesystem.Filesystem.Chain.{Chain}
use clb_filesystem.Filesystem.Tree.{View, IsForest, length-sons}
use clb_filesystem.Vfs.Path.{son_loop, get_son_inode}

-- The first of the inodes that has the name s.
unfoldable pub find_son : (ℕ → List ℕ) → List ℕ → List ℕ → Ptr
find_son names s [] = none
find_son names s (c ∷ cs) = if text_eq s (names c) then some c else find_son names s cs

module _ (t : Table) (names : ℕ → List ℕ) (buf s : List ℕ) (held : Holds buf s) where
  son_loop-find_son :
      (k : ℕ) (p : Ptr) (xs : List ℕ)
      → Chain t p xs
      → ((c : ℕ) → has c xs ≡ true → Holds (name_object (t c)) (names c))
      → length xs < k
      → son_loop k t buf p ≡ ok (find_son names s xs)
  unfolding son_loop find_son
  son_loop-find_son zero p xs h named lt = absurd (omega arith)
  son_loop-find_son (suc k) p [] h named lt = rw (h, son_loop) refl
  son_loop-find_son (suc k) p (x ∷ xs) h named lt =
      let (z, runs, same) =
        strcmp-eq buf (name_object (t x)) s (names x) held (named x (ground arith)) in
      rw (h.0, son_loop, runs)
        (ground (
          arith,
          same,
          son_loop-find_son k (t x).brother xs h.1 (λ c m. named c (ground arith)) (omega arith),
        ))

-- `get_son_inode` of a consistent table returns the first son of that name, or null.
pub get_son_inode-find_son :
    (t : Table) (v : View) (loose : List ℕ) (d : ℕ) (buf s : List ℕ)
    → IsForest t v loose
    → d < fs_npages
    → Holds buf s
    → get_son_inode t d buf ≡ ok (find_son v.names s (v.sons d))
unfolding get_son_inode
get_son_inode-find_son t v loose d buf s forest h held =
    son_loop-find_son t v.names buf s held fs_npages (t d).first_son (v.sons d) (forest.chain d h)
      (λ c m. let son = forest.son d c h m in forest.named c son.inside son.live)
      (length-sons forest d h)

-- What is found is a son of that name.
pub find_son-some :
    (names : ℕ → List ℕ) (s xs : List ℕ) (c : ℕ)
    → find_son names s xs ≡ some c
    → (has c xs ≡ true) × (names c ≡ s)
unfolding find_son
find_son-some names s [] c h = cc
find_son-some names s (x ∷ xs) c h =
    ground (arith, text_eq_iff s (names x), find_son-some names s xs c)
