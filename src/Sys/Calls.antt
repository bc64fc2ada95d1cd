-- ===== src/Sys/Calls.antt =====
-- The system calls of the file system, in any order.
use clb_filesystem.Common.{ℕ, ◌≡◌, ◌≢◌, Option, none, some, Outcome, ok}
use clb_filesystem.Common.Words.{ℤ, pos}
use clb_filesystem.CString.{IsText}
use clb_filesystem.Filesystem.Tree.{View}
use clb_filesystem.Vfs.{vfs_null_pointer, Vfs, Text, code}
use clb_filesystem.Vfs.Path.{parse_path}
use clb_filesystem.Vfs.Dir.{Next}
use clb_filesystem.Vfs.Valid.{IsValid, IsFd}
use clb_filesystem.Vfs.Valid.Movable.{IsMovable}
use clb_filesystem.Vfs.Valid.Sons.{IsReady}
use clb_filesystem.Sys.{
  Kernel, Call, sys_write, sys_fork, sys_exit, sys_create_file, sys_create_dir, sys_delete_file,
  sys_delete_dir, sys_open_file, sys_open_dir, sys_close_file, sys_close_dir, sys_read_file,
  sys_write_file, sys_append_file, sys_get_dir_son, Reply, sys_call,
}

-- A terminated text, or null.
abbrev pub IsGiven : Text → Type 0
IsGiven none = Unit {0}
IsGiven (some buf) = IsText buf

-- The path is null, or terminated and does not lead to the root.
abbrev pub IsBelow : Vfs → Text → Type 0
IsBelow s none = Unit {0}
IsBelow s (some path) = IsText path × (parse_path s.ram.inodes (some path) ≢ ok (some 0))

-- The path that is opened is terminated; a null pointer would be read.
abbrev pub IsPath : Text → Type 0
IsPath none = ⊥
IsPath (some path) = IsText path

abbrev pub IsIterable : Vfs → View → Option ℤ → Text → Type 0
IsIterable s v fd none = Unit {0}
IsIterable s v fd (some buf) = (n : ℕ) → fd ≡ some (pos n) → IsReady s v n buf

-- What a caller of a file system call has to see to. The calls that print and those that end or start a
-- task are others.
abbrev pub Accepts : Vfs → View → Call → Type 0
Accepts s v (sys_write buf) = ⊥
Accepts s v sys_fork = ⊥
Accepts s v sys_exit = ⊥
Accepts s v (sys_create_file path name) = IsGiven path × IsGiven name
Accepts s v (sys_create_dir path name) = IsGiven path × IsGiven name
Accepts s v (sys_delete_file path) = IsBelow s path
Accepts s v (sys_delete_dir path) = IsBelow s path
Accepts s v (sys_open_file path fd) = IsPath path
Accepts s v (sys_open_dir path fd) = IsPath path
Accepts s v (sys_close_file fd) = IsFd fd
Accepts s v (sys_close_dir fd) = IsFd fd
Accepts s v (sys_read_file fd str len) = IsFd fd × IsMovable s fd str len
Accepts s v (sys_write_file fd str len) = IsFd fd × IsMovable s fd str len
Accepts s v (sys_append_file fd str len) = IsFd fd × IsMovable s fd str len
Accepts s v (sys_get_dir_son fd son_name) = IsFd fd × IsIterable s v fd son_name

module _ (k : ℕ) (copy_process : Kernel → Outcome (ℤ × Kernel)) where
  -- The call returns to its caller, in a valid state, and the scheduler is as it was.
  pub record Served (s : Kernel) (c : Call) : Type 0 where
    pub reply : Reply
    pub after : Vfs
    pub view : View
    pub runs : sys_call k copy_process s c ≡ ok (reply, record s { vfs = after })
    pub valid : IsValid after view

  module _ (s : Kernel) (v : View) (valid : IsValid s.vfs v) where
    abbrev null_name : Option ℤ → Next
    null_name fd = record {
      result = pos (code vfs_null_pointer);
      fd = fd;
      son_name = none;
      state = s.vfs;
    }

  -- The states that calls lead to, each one from a caller that sees to what it has to.
  pub data Session (s : Kernel) : Kernel → Type 0 where
    start : Session s s
    then_call :
        {t u : Kernel}
        → Session s t
        → (c : Call) (r : Reply) → ((v : View) → IsValid t.vfs v → Accepts t.vfs v c)
        → sys_call k copy_process t c ≡ ok (r, u)
        → Session s u
