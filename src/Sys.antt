-- ===== src/Sys.antt =====
-- sys.c: the system calls, which pass their arguments on, and the table of them. A call is an entry
-- of the table with its arguments, and what it leaves are its results and the state. `sys_write`
-- only prints, where its text is fit for that: the serial line is taken to get ready, and what is sent
-- is the text of the answer. `sys_fork` is a parameter of the dispatch.
pub mod Calls
use clb_filesystem.Common.{
  ℕ, Option, none, some, Bool, true, false, List, [], ◌∷◌, ◌==◌, if◌then◌else◌, Outcome, ok, fault,
  ◌>>=◌,
}
use clb_filesystem.Common.Words.{ℤ, pos}
use clb_filesystem.Vfs.{
  VfsError, vfs_ok, vfs_invalid_path, vfs_invalid_fd, vfs_invalid_path_dir, vfs_invalid_path_file,
  vfs_max_fd_reached, vfs_memory_full, vfs_invalid_name, vfs_null_pointer, vfs_unkwon_error, code,
  Vfs, Text,
}
use clb_filesystem.Vfs.File.{
  create_file, create_dir, open_file, close_file, read_file, write_file, append_file,
}
use clb_filesystem.Vfs.Delete.{delete_file, delete_dir}
use clb_filesystem.Vfs.Dir.{open_dir, close_dir, Next, get_next_dir_son}
use clb_filesystem.Sched.{Sched, exit_process}

-- The globals of the file system and of the scheduler.
pub record Kernel : Type 0 where
  pub vfs : Vfs
  pub sched : Sched

abbrev pub with_vfs : Kernel → Vfs → Kernel
with_vfs s v = record s { vfs = v }

-- The entries of `sys_call_table`.
pub data Call : Type 0 where
  sys_write : Text → Call
  sys_fork sys_exit : Call
  sys_create_file sys_create_dir : Text → Text → Call
  sys_delete_file sys_delete_dir : Text → Call
  sys_open_file sys_open_dir : Text → Option ℤ → Call
  sys_close_file sys_close_dir : Option ℤ → Call
  sys_read_file sys_write_file sys_append_file : Option ℤ → (str len : ℕ) → Call
  sys_get_dir_son : Option ℤ → Text → Call

-- The index of an entry in the table.
abbrev pub sys_call_table : Call → ℕ
sys_call_table (sys_write buf) = 0
sys_call_table sys_fork = 1
sys_call_table sys_exit = 2
sys_call_table (sys_create_file path file) = 3
sys_call_table (sys_delete_file path) = 4
sys_call_table (sys_open_file path fd) = 5
sys_call_table (sys_close_file fd) = 6
sys_call_table (sys_read_file fd str len) = 7
sys_call_table (sys_write_file fd str len) = 8
sys_call_table (sys_append_file fd str len) = 9
sys_call_table (sys_create_dir path dir) = 10
sys_call_table (sys_delete_dir dir) = 11
sys_call_table (sys_open_dir path fd) = 12
sys_call_table (sys_close_dir fd) = 13
sys_call_table (sys_get_dir_son fd son_name) = 14

-- What a call returns, and what its pointer arguments lead to afterwards.
pub record Reply : Type 0 where
  pub result : ℤ
  pub fd : Option ℤ
  pub text : Text

abbrev pub replied : Kernel → VfsError × Vfs → Outcome (Reply × Kernel)
replied s (e, v) = ok (record { result = pos (code e); fd = none; text = none }, with_vfs s v)

abbrev pub replied_fd : Kernel → VfsError × Option ℤ × Vfs → Outcome (Reply × Kernel)
replied_fd s (e, fd, v) = ok (record { result = pos (code e); fd = fd; text = none }, with_vfs s v)

abbrev pub replied_count : Kernel → Option ℤ → ℤ × Vfs → Outcome (Reply × Kernel)
replied_count s fd (n, v) = ok (record { result = n; fd = fd; text = none }, with_vfs s v)

abbrev pub replied_next : Kernel → Next → Outcome (Reply × Kernel)
replied_next s next =
    ok (record { result = next.result; fd = next.fd; text = next.son_name }, with_vfs s next.state)

-- The text that `sys_write` hands to `printf` as a format: it is terminated, and a `%` is followed by
-- another one. Any other conversion would read an argument that is not there.
unfoldable pub is_plain : (percent : Bool) → List ℕ → Bool
is_plain percent [] = false
is_plain true (c ∷ buf) = if c == 37 then is_plain false buf else false
is_plain false (c ∷ buf) = if c == 0 then true else is_plain (c == 37) buf

module _ (k : ℕ) (copy_process : Kernel → Outcome (ℤ × Kernel)) where
  -- The call of an entry of the table. `sys_exit` goes on as another task.
  unfoldable pub sys_call : Kernel → Call → Outcome (Reply × Kernel)
  sys_call s (sys_write none) = fault
  sys_call s (sys_write (some buf)) =
      if is_plain false buf
      then ok (record { result = pos 0; fd = none; text = some buf }, s)
      else fault
  sys_call s sys_fork = do
    (pid, s') ← copy_process s
    ok (record { result = pid; fd = none; text = none }, s')
  sys_call s sys_exit = do
    sched' ← exit_process k s.sched
    ok (record { result = pos 0; fd = none; text = none }, record s { sched = sched' })
  sys_call s (sys_create_file path file) = create_file s.vfs path file >>= replied s
  sys_call s (sys_delete_file path) = delete_file s.vfs path >>= replied s
  sys_call s (sys_open_file path fd) = open_file s.vfs path fd >>= replied_fd s
  sys_call s (sys_close_file fd) = close_file s.vfs fd >>= replied_fd s
  sys_call s (sys_read_file fd str len) = read_file s.vfs fd str len >>= replied_count s fd
  sys_call s (sys_write_file fd str len) = write_file s.vfs fd str len >>= replied_count s fd
  sys_call s (sys_append_file fd str len) = append_file s.vfs fd str len >>= replied_count s fd
  sys_call s (sys_create_dir path dir) = create_dir s.vfs path dir >>= replied s
  sys_call s (sys_delete_dir dir) = delete_dir s.vfs dir >>= replied s
  sys_call s (sys_open_dir path fd) = open_dir s.vfs path fd >>= replied_fd s
  sys_call s (sys_close_dir fd) = close_dir s.vfs fd >>= replied_fd s
  sys_call s (sys_get_dir_son fd son_name) = get_next_dir_son s.vfs fd son_name >>= replied_next s
