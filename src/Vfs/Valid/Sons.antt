-- ===== src/Vfs/Valid/Sons.antt =====
-- The iteration over the sons of a folder returns and keeps the state valid, where the next son is
-- still in use: a son that was deleted meanwhile may have been given to another folder.
use clb_filesystem.Common.{
  ℕ, suc, ◌<◌, ◌≡◌, ◌≢◌, refl, inl, inr, true, Option, none, some, List, [], ◌∷◌, ◌++◌, ok, arith,
  length, length-append, length-drop, drop, ◌==◌, Bool-cases, Option-cases,
}
use clb_filesystem.Common.Words.{ℤ, pos, negsuc}
use clb_filesystem.CString.Laws.{strcpy_lem, Holds-append}
use clb_filesystem.CString.{IsText}
use clb_filesystem.Inode.{empty, is_folder, Table, update, fs_npages}
use clb_filesystem.Inode.Name.{name_object}
use clb_filesystem.Filesystem.Tree.{View}
use clb_filesystem.Filesystem.Chain.{Chain-brother}
use clb_filesystem.Vfs.{vfs_ok, vfs_invalid_fd, vfs_null_pointer, code, Vfs, max_open_files}
use clb_filesystem.Vfs.Dir.{Next, next_son, get_next_dir_son}
use clb_filesystem.Vfs.Valid.{IsValid, IsFd, IsFdOf, Iterates}
use clb_filesystem.Vfs.Valid.Slots.{slot-ok}

-- Where the descriptor is open on a folder, its next son is null, or in use, with a name that the
-- buffer has room for.
abbrev pub IsReady : Vfs → View → ℕ → List ℕ → Type 0
IsReady s v fd buf =
    (0 < length buf)
    × ((d i : ℕ)
        → (s.open_inodes fd).inode ≡ some d
        → is_folder (s.ram.inodes d).type ≡ true
        → (s.open_inodes fd).next_son ≡ some i
        → ((s.ram.inodes i).type ≢ empty) × (length (v.names i) < length buf))

module _ (s : Vfs) (v : View) (valid : IsValid s v) where
  abbrev t : Table
  t = s.ram.inodes

  brother_inside :
      (x : ℕ)
      → x < fs_npages
      → x ≢ 0
      → (t x).type ≢ empty
      → (i : ℕ) → (t x).brother ≡ some i
      → (i < fs_npages) × (i ≢ 0) × ((t i).type ≢ empty)
  brother_inside x h not_root live i e =
      let (d, d_in, of_d, m) = valid.tree.father x h not_root live refl in
      let son =
        valid.tree.son d i d_in
          (Chain-brother t (t d).first_son (v.sons d) x i (valid.tree.chain d d_in) m e) in
      (son.inside, son.not_root, son.live)

  abbrev advanced : ℕ → ℕ → Vfs
  advanced fd i = record s {
    open_inodes = update s.open_inodes fd (record (s.open_inodes fd) { next_son = (t i).brother });
  }

  advanced-IsValid :
      (fd i : ℕ)
      → fd < max_open_files
      → i < fs_npages
      → i ≢ 0
      → (t i).type ≢ empty
      → IsValid (advanced fd i) v
  advanced-IsValid fd i h inside not_root live = record {
    tree = valid.tree;
    descriptors = λ k k_in. elim (Bool-cases (k == fd)) [
      | inl same ↦ rw same (record {
        inode = (valid.descriptors fd h).inode;
        next_son = λ j e. let (h, ne, used) = brother_inside i inside not_root live j e in (h, ne);
      })
      | inr other ↦ rw other (valid.descriptors k k_in)
    ];
  }

  -- What a step leaves: where the iteration goes on, and a text in the buffer that a caller may print.
  pub record Stepped (fd : Option ℤ) (buf : List ℕ) (next : Next) : Type 0 where
    pub valid_after : IsValid next.state v
    pub of_fd : IsFdOf fd next.fd
    pub iterates : Iterates s fd → Iterates next.state next.fd
    pub text : List ℕ
    pub written : next.son_name ≡ some text
    pub size : length text ≡ length buf
    pub terminated : next.result ≡ pos 0 → IsText text

  advanced-Iterates :
      (fd i : ℕ)
      → i < fs_npages
      → i ≢ 0
      → (t i).type ≢ empty
      → Iterates (advanced fd i) (some (pos fd))
  advanced-Iterates fd i inside not_root live n e d j open_on of_folder more =
      let same : n ≡ fd = cc in
      let here : (n == fd) ≡ true = ground arith in
      let brother : (t i).brother ≡ some j = rw here at more in
      (brother_inside i inside not_root live j brother).2

  next_son-Stepped :
      (fd d : ℕ) (buf : List ℕ)
      → fd < max_open_files
      → (s.open_inodes fd).inode ≡ some d
      → is_folder (t d).type ≡ true
      → IsReady s v fd buf
      → (next : Next) × (next_son s (pos fd) fd buf ≡ ok next) × Stepped (some (pos fd)) buf next
  unfolding next_son
  next_son-Stepped fd d [] h open_on of_folder ready = absurd (omega (arith, ready.0))
  next_son-Stepped fd d (c ∷ buf) h open_on of_folder ready =
      elim (Option-cases ((s.open_inodes fd).next_son)) [
        | inl end ↦ (
          record {
            result = pos (code vfs_ok);
            fd = some (pos fd);
            son_name = some (0 ∷ buf);
            state = s;
          },
          rw (end, next_son) refl,
          record {
            valid_after = valid;
            of_fd = (pos fd, refl, h);
            iterates = λ it. it;
            text = 0 ∷ buf;
            written = refl;
            size = refl;
            terminated = λ e. ([], refl);
          },
        )
        | inr (i, more) ↦
            let (inside, not_root) = (valid.descriptors fd h).next_son i more in
            let (live, room) = ready.1 d i open_on of_folder more in
            let held = valid.tree.named i inside live in
            let copied = strcpy_lem (c ∷ buf) (name_object (t i)) (v.names i) held room in
            let text = v.names i ++ 0 ∷ drop (suc (length (v.names i))) (c ∷ buf) in
            (
              record {
                result = pos (code vfs_ok);
                fd = some (pos fd);
                son_name = some text;
                state = advanced fd i;
              },
              rw (more, next_son, copied) refl,
              record {
                valid_after = advanced-IsValid fd i h inside not_root live;
                of_fd = (pos fd, refl, h);
                iterates = λ it. advanced-Iterates fd i inside not_root live;
                text = text;
                written = refl;
                size = omega (
                  arith,
                  length-append (v.names i) (0 ∷ drop (suc (length (v.names i))) (c ∷ buf)),
                  length-drop (suc (length (v.names i))) (c ∷ buf),
                );
                terminated = λ e. (
                  v.names i,
                  Holds-append (name_object (t i)) (v.names i)
                      (drop (suc (length (v.names i))) (c ∷ buf)) held,
                );
              },
            )
      ]

  abbrev answer : ℤ → Option ℤ → List ℕ → Next
  answer z fd buf = record { result = z; fd = fd; son_name = some buf; state = s }

  -- A refusal leaves the descriptor as it is, or makes it invalid.
  answer-Stepped :
      (z : ℤ) (fd fd' : Option ℤ) (buf : List ℕ)
      → z ≢ pos 0
      → IsFdOf fd fd'
      → (Iterates s fd → Iterates s fd')
      → Stepped fd buf (answer z fd' buf)
  answer-Stepped z fd fd' buf refused of_fd iterates = record {
    valid_after = valid;
    of_fd = of_fd;
    iterates = iterates;
    text = buf;
    written = refl;
    size = refl;
    terminated = λ e. absurd (refused e);
  }

  pub get_next_dir_son-Stepped :
      (fd : Option ℤ) (buf : List ℕ)
      → IsFd fd
      → ((n : ℕ) → fd ≡ some (pos n) → IsReady s v n buf)
      → (next : Next) × (get_next_dir_son s fd (some buf) ≡ ok next) × Stepped fd buf next
  unfolding get_next_dir_son
  get_next_dir_son-Stepped none buf h ready =
      let z : ℤ = pos (code vfs_null_pointer) in
      (answer z none buf, refl, answer-Stepped z none none buf (λ e. cc) refl (λ it. it))
  get_next_dir_son-Stepped (some (negsuc n)) buf h ready =
      let z : ℤ = pos (code vfs_invalid_fd) in
      let fd : Option ℤ = some (negsuc n) in
      (answer z fd buf, refl, answer-Stepped z fd fd buf (λ e. cc) (negsuc n, refl, tt) (λ it. it))
  get_next_dir_son-Stepped (some (pos n)) buf h ready =
      let fd : Option ℤ = some (pos n) in
      elim (Option-cases ((s.open_inodes n).inode)) [
        | inl unused ↦
            let z : ℤ = pos (code vfs_invalid_fd) in
            let fd' : Option ℤ = some (negsuc 0) in
            (
              answer z fd' buf,
              rw (slot-ok n h, unused) refl,
              answer-Stepped z fd fd' buf (λ e. cc) (negsuc 0, refl, tt) (λ it m e. cc),
            )
        | inr (d, open_on) ↦ elim (Bool-cases (is_folder (t d).type)) [
          | inl of_folder ↦
              let (next, runs, stepped) =
                next_son-Stepped n d buf h open_on of_folder (ready n refl) in
              (next, rw (slot-ok n h, open_on, of_folder) runs, stepped)
          | inr other ↦
              let z : ℤ = negsuc 0 in
              (
                answer z fd buf,
                rw (slot-ok n h, open_on, other) refl,
                answer-Stepped z fd fd buf (λ e. cc) (pos n, refl, h) (λ it. it),
              )
        ]
      ]
