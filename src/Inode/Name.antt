-- ===== src/Inode/Name.antt =====
-- The name of an inode in memory. `name` is an array of sixteen bytes with `data_block` right
-- behind it, so the terminator of a name of sixteen bytes lies in the lowest byte of `data_block`
-- (the machine is little-endian). The object behind `name` is taken to end with `data_block`.
use clb_filesystem.Common.{
  ℕ, zero, suc, ◌+◌, ◌*◌, ◌/◌, ◌%◌, ◌^◌, ◌≤◌, ◌<◌, ◌≡◌, refl, ap, sym, ◌∙◌, ◌⊎◌, inl, inr, List, [],
  ◌∷◌, ◌++◌, Outcome, ok, ◌>>=◌, arith, take, drop, length, length-append, length-take,
  take-append-drop, drop-append, drop_one-drop, length-drop,
}
use clb_filesystem.CString.{strcpy, Holds}
use clb_filesystem.CString.Laws.{strcpy_lem, Holds-append}
use clb_filesystem.Inode.{Inode, max_size_name}

pub bytes_of : ℕ → ℕ → List ℕ
bytes_of zero v = []
bytes_of (suc n) v = v % 256 ∷ bytes_of n (v / 256)

pub value_of : List ℕ → ℕ
value_of [] = 0
value_of (b ∷ bs) = b + 256 * value_of bs

-- What the address of `name` leads to.
unfoldable pub name_object : Inode → List ℕ
unfolding bytes_of
name_object x = x.name ++ bytes_of 8 x.data_block

pub name_object-eq :
    (x y : Inode) → x.name ≡ y.name → x.data_block ≡ y.data_block → name_object x ≡ name_object y
unfolding name_object
name_object-eq x y e f = cc

-- `strcpy(x.name, name)`
unfoldable pub set_name : Inode → List ℕ → Outcome Inode
unfolding name_object value_of
set_name x name = do
  object ← strcpy (name_object x) name
  ok (record x {
    name = take max_size_name object;
    data_block = value_of (drop max_size_name object);
  })

length-bytes_of : (n v : ℕ) → length (bytes_of n v) ≡ n
unfolding bytes_of
length-bytes_of zero v = refl
length-bytes_of (suc n) v = ap suc (length-bytes_of n (v / 256))

value_of-bytes_of : (v : ℕ) → v < 2 ^ 64 → value_of (bytes_of 8 v) ≡ v
unfolding value_of bytes_of
value_of-bytes_of v h = omega arith

drop-nil : (n : ℕ) → drop {A = ℕ} n [] ≡ []
drop-nil zero = refl
drop-nil (suc n) = refl

-- Behind the terminator the object is as it was.
drop-splice :
    (n : ℕ) (s object : List ℕ)
    → length s < n
    → length s < length object
    → drop n (s ++ 0 ∷ drop (suc (length s)) object) ≡ drop n object
drop-splice zero s object h k = absurd (omega arith)
drop-splice (suc n) s [] h k = absurd (omega arith)
drop-splice (suc n) [] (o ∷ object) h k = refl
drop-splice (suc n) (x ∷ s) (o ∷ object) h k = drop-splice n s object (omega arith) (omega arith)

-- The shape of an entry in memory: sixteen bytes of name, and a page-aligned 64-bit address.
pub record IsLaidOut (x : Inode) : Type 0 where
  pub name_size : length x.name ≡ max_size_name
  pub word : x.data_block < 2 ^ 64
  pub aligned : x.data_block % 256 ≡ 0

module _ (x : Inode) (laid : IsLaidOut x) where
  pub length-name_object : length (name_object x) ≡ 24
  unfolding name_object
  length-name_object = omega (
    arith,
    length-append x.name (bytes_of 8 x.data_block),
    length-bytes_of 8 x.data_block,
    laid.name_size,
  )

  drop-name_object : drop 16 (name_object x) ≡ bytes_of 8 x.data_block
  unfolding name_object
  drop-name_object =
      ap (λ n. drop n (x.name ++ bytes_of 8 x.data_block)) (sym laid.name_size)
      ∙ drop-append x.name (bytes_of 8 x.data_block)

  drop_17-name_object : drop 17 (name_object x) ≡ bytes_of 7 (x.data_block / 256)
  unfolding bytes_of
  drop_17-name_object = sym (drop_one-drop 16 (name_object x)) ∙ ap (drop 1) drop-name_object

  -- A name of at most sixteen bytes leaves the address behind the array as it was.
  address_kept :
      (s : List ℕ)
      → length s ≤ 16
      → drop 16 (s ++ 0 ∷ drop (suc (length s)) (name_object x)) ≡ bytes_of 8 x.data_block
  unfolding bytes_of
  address_kept s h = elim (split (length s) h) [
    | inl short ↦
        drop-splice 16 s (name_object x) short (omega (arith, length-name_object))
        ∙ drop-name_object
    | inr full ↦
        ap (λ n. drop n (s ++ 0 ∷ drop (suc (length s)) (name_object x))) (sym full)
        ∙ drop-append s (0 ∷ drop (suc (length s)) (name_object x))
        ∙ ap (λ n. 0 ∷ drop (suc n) (name_object x)) full
        ∙ ap (λ l. 0 ∷ l) drop_17-name_object
        ∙ ap (λ b. b ∷ bytes_of 7 (x.data_block / 256)) (sym laid.aligned)
  ]
    where
      split : (n : ℕ) → n ≤ 16 → (n < 16) ⊎ (n ≡ 16)
      split n le = omega arith

  -- The entry after `strcpy` of the text s: only the bytes of the array have changed.
  abbrev named : List ℕ → Inode
  named s = record x { name = take 16 (s ++ 0 ∷ drop (suc (length s)) (name_object x)) }

  set_name-named : (buf s : List ℕ) → Holds buf s → length s ≤ 16 → set_name x buf ≡ ok (named s)
  unfolding set_name
  set_name-named buf s held h =
      rw (strcpy_lem (name_object x) buf s held (omega (arith, length-name_object))) (
        ap
          (λ v. ok (record x {
            name = take 16 (s ++ 0 ∷ drop (suc (length s)) (name_object x));
            data_block = v;
          }))
          (ap value_of (address_kept s h) ∙ value_of-bytes_of x.data_block laid.word))

  name_object-named :
      (s : List ℕ)
      → length s ≤ 16
      → name_object (named s) ≡ s ++ 0 ∷ drop (suc (length s)) (name_object x)
  unfolding name_object
  name_object-named s h =
      ap (λ l. take 16 (s ++ 0 ∷ drop (suc (length s)) (name_object x)) ++ l)
        (sym (address_kept s h))
      ∙ take-append-drop 16 (s ++ 0 ∷ drop (suc (length s)) (name_object x))

  -- An array of sixteen bytes takes a name of up to sixteen: the name reads back, and the address
  -- of the data page behind the array, whose lowest byte is 0, is unchanged.
  pub set_name-Holds :
      (buf s : List ℕ)
      → Holds buf s
      → length s ≤ 16
      → (y : Inode) × (set_name x buf ≡ ok y)
        × Holds (name_object y) s
        × IsLaidOut y
        × (y ≡ record x { name = y.name })
  set_name-Holds buf s held h = (
    named s,
    set_name-named buf s held h,
    rw (name_object-named s h) (Holds-append buf s (drop (suc (length s)) (name_object x)) held),
    record {
      name_size = length-take 16 (s ++ 0 ∷ drop (suc (length s)) (name_object x)) (
          omega (
            arith,
            length-name_object,
            length-append s (0 ∷ drop (suc (length s)) (name_object x)),
            length-drop (suc (length s)) (name_object x),
          ));
      word = laid.word;
      aligned = laid.aligned;
    },
    refl,
  )
