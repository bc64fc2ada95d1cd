-- ===== src/User.antt =====
-- user.c: the user program. It calls the system by user_sys.S, and prints by the call `sys_write`.
-- What it prints is kept as the list of the texts, in their order, and what printf makes of a `%` in
-- them is not modelled; the local variable `fd` is a part of the state, and the local array `buff` is
-- in memory. String literals are objects of their own.
use Prim.Native.String.{String}
use clb_filesystem.Common.{
  ℕ, zero, suc, ◌+◌, ◌*◌, true, false, some, List, [], ◌∷◌, ◌++◌, Outcome, ok, ◌>>=◌, need, ◌==◌,
  if◌then◌else◌,
}
use clb_filesystem.Common.Words.{ℤ, pos, negsuc, to_u32}
use clb_filesystem.CString.{c_text}
use clb_filesystem.Memory.{Memory, store_byte}
use clb_filesystem.Sys.{
  Kernel, Call, sys_create_file, sys_create_dir, sys_delete_file, sys_delete_dir, sys_open_file,
  sys_open_dir, sys_close_file, sys_close_dir, sys_read_file, sys_write_file, sys_append_file,
  sys_get_dir_son, Reply, sys_call,
}

-- `get_vfs_error_name`, for any number that a call returns
unfoldable pub get_vfs_error_name : ℤ → String
get_vfs_error_name (negsuc n) = "UNDEFINED VFS ERROR"
get_vfs_error_name (pos err) =
    if err == 0
    then "VFS_OK"
    else if err == 1
    then "VFS_INVALID_PATH"
    else if err == 2
    then "VFS_INVALID_FD"
    else if err == 3
    then "VFS_INVALID_PATH_DIR"
    else if err == 4
    then "VFS_INVALID_PATH_FILE"
    else if err == 5
    then "VFS_MAX_FD_REACHED"
    else if err == 6
    then "VFS_MEMORY_FULL"
    else if err == 7
    then "VFS_INVALID_NAME"
    else if err == 8
    then "VFS_NULL_POINTER"
    else if err == 9
    then "VFS_UNKWON_ERROR"
    else "UNDEFINED VFS ERROR"

-- A text that is printed: a literal, or the bytes of an object.
pub data Printed : Type 0 where
  says : String → Printed
  shows : List ℕ → Printed

pub record User : Type 0 where
  pub kernel : Kernel
  pub printed : List Printed
  pub fd : ℤ

-- `call_sys_write` of one text after another
abbrev pub print : User → List Printed → User
print u texts = record u { printed = u.printed ++ texts }

-- The n bytes from p on, and a memory with other bytes there.
unfoldable pub bytes_at : ℕ → Memory → ℕ → List ℕ
bytes_at zero m p = []
bytes_at (suc n) m p = m p ∷ bytes_at n m (p + 1)

unfoldable pub with_bytes : Memory → ℕ → List ℕ → Memory
with_bytes m p [] = m
with_bytes m p (c ∷ s) = store_byte (with_bytes m (p + 1) s) p c

abbrev pub memory : User → Memory
memory u = u.kernel.vfs.ram.memory

abbrev pub with_memory : User → Memory → User
with_memory u m = record u {
  kernel = record u.kernel {
    vfs = record u.kernel.vfs { ram = record u.kernel.vfs.ram { memory = m } };
  };
}

-- The answer to a call that returns a `vfs_error`.
abbrev pub report_failure : User → ℤ → User
report_failure u ret = print u (says "KO (" ∷ says (get_vfs_error_name ret) ∷ says ")\n" ∷ [])

abbrev pub report : User → ℤ → User
report u (negsuc n) = report_failure u (negsuc n)
report u (pos err) = if err == 0 then print u (says "OK\n" ∷ []) else report_failure u (pos err)

-- The answer to a call that returns a number of bytes, as an int without sign.
abbrev pub report_count : User → (len : ℕ) → ℤ → User
report_count u len ret =
    if len == to_u32 ret then print u (says "OK\n" ∷ []) else print u (says "KO\n" ∷ [])

-- `TVFS_STRING_SIZE`, and the size of `buff`
abbrev pub tvfs_string_size : ℕ
tvfs_string_size = 6

abbrev pub buff_size : ℕ
buff_size = 25

-- The end of `test_read_file`, where `buff` is the address of an array of n bytes.
unfoldable pub read_answer : User → (n buff len : ℕ) → ℤ → Outcome User
read_answer u n buff len ret = elim (len == to_u32 ret) [
  | true ↦ do
    let u' = with_memory u (store_byte (memory u) (buff + len) 0)
    t ← c_text (bytes_at n (memory u') buff)
    ok (print u' (says "OK (" ∷ shows t ∷ says ")\n" ∷ []))
  | false ↦ ok (print u (says "KO\n" ∷ []))
]

-- The end of `test_get_next_dir_son`.
unfoldable pub son_answer : User → (n son : ℕ) → ℤ → Outcome User
son_answer u n son (negsuc m) = ok (report_failure u (negsuc m))
son_answer u n son (pos err) = elim (err == 0) [
  | true ↦ do
    t ← c_text (bytes_at n (memory u) son)
    ok (print u (says "OK (" ∷ shows t ∷ says ")\n" ∷ []))
  | false ↦ ok (report_failure u (pos err))
]

module _ (k : ℕ) (copy_process : Kernel → Outcome (ℤ × Kernel)) where
  -- A call of user_sys.S.
  abbrev pub call : User → Call → Outcome (Reply × User)
  call u c = do
    (reply, kernel) ← sys_call k copy_process u.kernel c
    ok (reply, record u { kernel = kernel })

  -- A call that leaves something in `fd`, which the program passed the address of.
  abbrev pub call_fd : User → Call → Outcome (Reply × User)
  call_fd u c = do (reply, u') ← call u c; fd ← need reply.fd; ok (reply, record u' { fd = fd })

  unfoldable pub test_create_file : User → (path file : List ℕ) → Outcome User
  test_create_file u path file = do
    p ← c_text path
    f ← c_text file
    let u₁ = print u (says "Test create file <" ∷ shows p ∷ says ">:<" ∷ shows f ∷ says "> : " ∷ [])
    (reply, u₂) ← call u₁ (sys_create_file (some path) (some file))
    ok (report u₂ reply.result)

  unfoldable pub test_delete_file : User → (path : List ℕ) → Outcome User
  test_delete_file u path = do
    p ← c_text path
    let u₁ = print u (says "Test delete file <" ∷ shows p ∷ says "> : " ∷ [])
    (reply, u₂) ← call u₁ (sys_delete_file (some path))
    ok (report u₂ reply.result)

  -- `fd = test_open_file(file)`: the function has a variable `fd` of its own, which the call writes
  -- and the function returns.
  unfoldable pub test_open_file : User → (file : List ℕ) → Outcome User
  test_open_file u file = do
    p ← c_text file
    let u₁ = print u (says "Test open file <" ∷ shows p ∷ says "> : " ∷ [])
    (reply, u₂) ← call_fd u₁ (sys_open_file (some file) (some u.fd))
    ok (report u₂ reply.result)

  -- A written or appended string: its address, and the object there, which is printed.
  unfoldable pub test_write_file : User → (string : ℕ) (object : List ℕ) (len : ℕ) → Outcome User
  test_write_file u string object len = do
    t ← c_text object
    let u₁ = print u (says "Test write <" ∷ shows t ∷ says "> in file : " ∷ [])
    (reply, u₂) ← call u₁ (sys_write_file (some u.fd) string len)
    ok (report_count u₂ len reply.result)

  unfoldable pub test_append_file : User → (string : ℕ) (object : List ℕ) (len : ℕ) → Outcome User
  test_append_file u string object len = do
    t ← c_text object
    let u₁ = print u (says "Test write <" ∷ shows t ∷ says "> in file : " ∷ [])
    (reply, u₂) ← call u₁ (sys_append_file (some u.fd) string len)
    ok (report_count u₂ len reply.result)

  unfoldable pub test_read_file : User → (n buff len : ℕ) → Outcome User
  test_read_file u n buff len = do
    let u₁ = print u (says "Test read file : " ∷ [])
    (reply, u₂) ← call u₁ (sys_read_file (some u.fd) buff len)
    read_answer u₂ n buff len reply.result

  unfoldable pub test_close_file : User → Outcome User
  test_close_file u = do
    let u₁ = print u (says "Test close file : " ∷ [])
    (reply, u₂) ← call_fd u₁ (sys_close_file (some u.fd))
    ok (report u₂ reply.result)

  unfoldable pub test_create_dir : User → (path dir : List ℕ) → Outcome User
  test_create_dir u path dir = do
    p ← c_text path
    d ← c_text dir
    let u₁ = print u (says "Test create dir <" ∷ shows p ∷ says ">:<" ∷ shows d ∷ says "> : " ∷ [])
    (reply, u₂) ← call u₁ (sys_create_dir (some path) (some dir))
    ok (report u₂ reply.result)

  unfoldable pub test_delete_dir : User → (path : List ℕ) → Outcome User
  test_delete_dir u path = do
    p ← c_text path
    let u₁ = print u (says "Test delete dir <" ∷ shows p ∷ says "> : " ∷ [])
    (reply, u₂) ← call u₁ (sys_delete_dir (some path))
    ok (report u₂ reply.result)

  unfoldable pub test_open_dir : User → (dir : List ℕ) → Outcome User
  test_open_dir u dir = do
    p ← c_text dir
    let u₁ = print u (says "Test open dir <" ∷ shows p ∷ says "> : " ∷ [])
    (reply, u₂) ← call_fd u₁ (sys_open_dir (some dir) (some u.fd))
    ok (report u₂ reply.result)

  unfoldable pub test_get_next_dir_son : User → (n son : ℕ) → Outcome User
  test_get_next_dir_son u n son = do
    let u₁ = print u (says "Test get next son : " ∷ [])
    (reply, u₂) ← call_fd u₁ (sys_get_dir_son (some u.fd) (some (bytes_at n (memory u₁) son)))
    text ← need reply.text
    let u₃ = with_memory u₂ (with_bytes (memory u₂) son text)
    son_answer u₃ n son reply.result

  unfoldable pub test_close_dir : User → Outcome User
  test_close_dir u = do
    let u₁ = print u (says "Test close dir : " ∷ [])
    (reply, u₂) ← call_fd u₁ (sys_close_dir (some u.fd))
    ok (report u₂ reply.result)

-- The literals: `ROOT`, `TVFS_FILE1_NAME` and the others
abbrev pub root : List ℕ
root = b'/' ∷ 0 ∷ []

abbrev pub tvfs_file1_name : List ℕ
tvfs_file1_name = b'f' ∷ b'i' ∷ b'l' ∷ b'e' ∷ b'1' ∷ b'.' ∷ b't' ∷ b'x' ∷ b't' ∷ 0 ∷ []

abbrev pub tvfs_file2_name : List ℕ
tvfs_file2_name = b'f' ∷ b'i' ∷ b'l' ∷ b'e' ∷ b'2' ∷ b'.' ∷ b't' ∷ b'x' ∷ b't' ∷ 0 ∷ []

abbrev pub tvfs_file3_name : List ℕ
tvfs_file3_name = b'f' ∷ b'i' ∷ b'l' ∷ b'e' ∷ b'3' ∷ b'.' ∷ b't' ∷ b'x' ∷ b't' ∷ 0 ∷ []

abbrev pub tvfs_src_name : List ℕ
tvfs_src_name = b's' ∷ b'r' ∷ b'c' ∷ 0 ∷ []

abbrev pub tvfs_file1 : List ℕ
tvfs_file1 = b'/' ∷ tvfs_file1_name

abbrev pub tvfs_src : List ℕ
tvfs_src = b'/' ∷ b's' ∷ b'r' ∷ b'c' ∷ b'/' ∷ 0 ∷ []

abbrev pub tvfs_file2 : List ℕ
tvfs_file2 = b'/' ∷ b's' ∷ b'r' ∷ b'c' ∷ b'/' ∷ tvfs_file2_name

abbrev pub tvfs_string : List ℕ
tvfs_string = b'a' ∷ b'b' ∷ b'c' ∷ b'1' ∷ b'2' ∷ b'3' ∷ 0 ∷ []

-- `string` is the address of the literal `TVFS_STRING`, and `buff` that of the array.
module _ (k : ℕ) (copy_process : Kernel → Outcome (ℤ × Kernel)) (string buff : ℕ) where
  -- `user_process`, the part on files
  unfoldable pub file_part : User → Outcome User
  file_part u = do
    let len = tvfs_string_size
    u₁ ← test_create_file k copy_process u root tvfs_file1_name
    u₂ ← test_open_file k copy_process u₁ tvfs_file1
    u₃ ← test_write_file k copy_process u₂ string tvfs_string len
    u₄ ← test_read_file k copy_process u₃ buff_size buff len
    u₅ ← test_close_file k copy_process u₄
    u₆ ← test_open_file k copy_process u₅ tvfs_file1
    u₇ ← test_append_file k copy_process u₆ string tvfs_string len
    u₈ ← test_read_file k copy_process u₇ buff_size buff (len * 2)
    test_close_file k copy_process u₈

  -- The part on folders.
  unfoldable pub dir_part : User → Outcome User
  dir_part u = do
    u₁ ← test_create_dir k copy_process u root tvfs_src_name
    u₂ ← test_create_file k copy_process u₁ tvfs_src tvfs_file2_name
    u₃ ← test_create_file k copy_process u₂ tvfs_src tvfs_file3_name
    u₄ ← test_open_dir k copy_process u₃ tvfs_src
    u₅ ← test_get_next_dir_son k copy_process u₄ buff_size buff
    u₆ ← test_get_next_dir_son k copy_process u₅ buff_size buff
    u₇ ← test_get_next_dir_son k copy_process u₆ buff_size buff
    test_close_dir k copy_process u₇

  -- The part on deletion.
  unfoldable pub delete_part : User → Outcome User
  delete_part u = do
    u₁ ← test_delete_file k copy_process u tvfs_file2
    u₂ ← test_open_dir k copy_process u₁ tvfs_src
    u₃ ← test_get_next_dir_son k copy_process u₂ buff_size buff
    u₄ ← test_get_next_dir_son k copy_process u₃ buff_size buff
    u₅ ← test_close_dir k copy_process u₄
    u₆ ← test_delete_file k copy_process u₅ tvfs_src
    u₇ ← test_open_dir k copy_process u₆ root
    u₈ ← test_get_next_dir_son k copy_process u₇ buff_size buff
    u₉ ← test_get_next_dir_son k copy_process u₈ buff_size buff
    test_close_dir k copy_process u₉

  -- `user_process` up to the loop that prints dots.
  unfoldable pub user_process : User → Outcome User
  user_process u = do
    let u₀ = print u (says "User process, starting the call to the VFS :\n\r" ∷ [])
    u₁ ← file_part u₀
    u₂ ← dir_part u₁
    u₃ ← delete_part u₂
    ok (print u₃ (says "\r\n THE END" ∷ []))
