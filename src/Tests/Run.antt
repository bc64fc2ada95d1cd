-- ===== src/Tests/Run.antt =====
-- A run of the user program on a file system with a root only, and what it prints.
use clb_filesystem.CString.{strlen, strcpy, strcat, strcmp, c_text}
use clb_filesystem.Memory.{store_byte, copy_word, rounds, memcpy, memzero, memwrite}
use clb_filesystem.Inode.Name.{name_object, set_name}
use clb_filesystem.Filesystem.{
  last_loop, find_last_child, attach, claim, find_empty, alloc_inode, unlink_loop, unlink,
  free_inode, reset_inode, size_to_write, write_inode, size_to_read, read_inode, init_entry,
  init_entries, init_fs,
}
use clb_filesystem.Vfs.Path.{
  token_loop, get_path_first_token, son_loop, get_son_inode, follow, parse_step, parse_loop,
  parse_path,
}
use clb_filesystem.Vfs.File.{
  bad_name, create_in, create, create_file, create_dir, open_at, open_file, close_file,
  open_descriptor, read_file, write_file, append_file,
}
use clb_filesystem.Vfs.Dir.{open_dir_at, open_dir, close_dir, next_son, get_next_dir_son}
use clb_filesystem.Vfs.Delete.{free_id, delete_sons, delete_inode, delete_file, delete_dir}
use clb_filesystem.Vfs.Descriptor.{fd_loop, get_next_fd}
use clb_filesystem.User.{
  get_vfs_error_name, bytes_at, with_bytes, read_answer, son_answer, test_create_file,
  test_delete_file, test_open_file, test_write_file, test_append_file, test_read_file,
  test_close_file, test_create_dir, test_delete_dir, test_open_dir, test_get_next_dir_son,
  test_close_dir,
}
use clb_filesystem.Common.Words.{◌+ℤ◌, ◌-ℤ◌, to_u32, to_u64, to_s32}
use clb_filesystem.Sys.{sys_call}
use clb_filesystem.Common.{
  true, ◌++◌, ◌≡◌, refl, ℕ, zero, suc, ◌-◌, none, some, List, [], ◌∷◌, Outcome, ok, fault,
  out_of_fuel, get_elem?, ◌==◌, if◌then◌else◌,
}
use clb_filesystem.Common.Words.{negsuc}
use clb_filesystem.Inode.{reaches, Table, folder}
use clb_filesystem.Memory.{Memory}
use clb_filesystem.Boot.UserMode.{closed_vfs}
use clb_filesystem.User.{
  root, tvfs_string, tvfs_file1, tvfs_file1_name, tvfs_file2, tvfs_file2_name, tvfs_file3_name,
  tvfs_src, tvfs_src_name, User, Printed, says, shows, user_process, file_part, dir_part,
  delete_part,
}
use clb_filesystem.Tests.{blank, zeros, two_tasks}
use clb_filesystem.Tests.Calls.{no_process}

-- The inodes after `init_fs`.
abbrev fresh : Table
fresh zero = record (blank 0) { type = folder; name = 0x2f ∷ zeros 15 }
fresh (suc i) = blank (suc i)

-- The literal "abc123" at the address 64.
abbrev bytes : Memory
bytes a = elim (get_elem? {A = ℕ} tvfs_string (a - 64)) [ none ↦ 0 | some b ↦ b ]

abbrev first_user : User
first_user = record {
  kernel = record { vfs = closed_vfs fresh bytes λ a. true; sched = two_tasks };
  printed = [];
  fd = negsuc 0;
}

abbrev text : List ℕ → List ℕ
text [] = []
text (c ∷ s) = if c == 0 then [] else c ∷ text s

abbrev printed_by : Outcome User → List Printed
printed_by (ok u) = u.printed
printed_by fault = []
printed_by out_of_fuel = []

abbrev expected : List Printed
expected =
    says "User process, starting the call to the VFS :\n\r"
    ∷ says "Test create file <"
    ∷ shows (text root)
    ∷ says ">:<"
    ∷ shows (text tvfs_file1_name)
    ∷ says "> : "
    ∷ says "OK\n"
    ∷ says "Test open file <"
    ∷ shows (text tvfs_file1)
    ∷ says "> : "
    ∷ says "OK\n"
    ∷ says "Test write <"
    ∷ shows (text tvfs_string)
    ∷ says "> in file : "
    ∷ says "OK\n"
    ∷ says "Test read file : "
    ∷ says "OK ("
    ∷ shows (text tvfs_string)
    ∷ says ")\n"
    ∷ says "Test close file : "
    ∷ says "OK\n"
    ∷ says "Test open file <"
    ∷ shows (text tvfs_file1)
    ∷ says "> : "
    ∷ says "OK\n"
    ∷ says "Test write <"
    ∷ shows (text tvfs_string)
    ∷ says "> in file : "
    ∷ says "OK\n"
    ∷ says "Test read file : "
    ∷ says "OK ("
    ∷ shows (text tvfs_string ++ text tvfs_string)
    ∷ says ")\n"
    ∷ says "Test close file : "
    ∷ says "OK\n"
    ∷ says "Test create dir <"
    ∷ shows (text root)
    ∷ says ">:<"
    ∷ shows (text tvfs_src_name)
    ∷ says "> : "
    ∷ says "OK\n"
    ∷ says "Test create file <"
    ∷ shows (text tvfs_src)
    ∷ says ">:<"
    ∷ shows (text tvfs_file2_name)
    ∷ says "> : "
    ∷ says "OK\n"
    ∷ says "Test create file <"
    ∷ shows (text tvfs_src)
    ∷ says ">:<"
    ∷ shows (text tvfs_file3_name)
    ∷ says "> : "
    ∷ says "OK\n"
    ∷ says "Test open dir <"
    ∷ shows (text tvfs_src)
    ∷ says "> : "
    ∷ says "OK\n"
    ∷ says "Test get next son : "
    ∷ says "OK ("
    ∷ shows (text tvfs_file2_name)
    ∷ says ")\n"
    ∷ says "Test get next son : "
    ∷ says "OK ("
    ∷ shows (text tvfs_file3_name)
    ∷ says ")\n"
    ∷ says "Test get next son : "
    ∷ says "OK ("
    ∷ shows []
    ∷ says ")\n"
    ∷ says "Test close dir : "
    ∷ says "OK\n"
    ∷ says "Test delete file <"
    ∷ shows (text tvfs_file2)
    ∷ says "> : "
    ∷ says "OK\n"
    ∷ says "Test open dir <"
    ∷ shows (text tvfs_src)
    ∷ says "> : "
    ∷ says "OK\n"
    ∷ says "Test get next son : "
    ∷ says "OK ("
    ∷ shows (text tvfs_file3_name)
    ∷ says ")\n"
    ∷ says "Test get next son : "
    ∷ says "OK ("
    ∷ shows []
    ∷ says ")\n"
    ∷ says "Test close dir : "
    ∷ says "OK\n"
    ∷ says "Test delete file <"
    ∷ shows (text tvfs_src)
    ∷ says "> : "
    ∷ says "OK\n"
    ∷ says "Test open dir <"
    ∷ shows (text root)
    ∷ says "> : "
    ∷ says "OK\n"
    ∷ says "Test get next son : "
    ∷ says "OK ("
    ∷ shows (text tvfs_file1_name)
    ∷ says ")\n"
    ∷ says "Test get next son : "
    ∷ says "OK ("
    ∷ shows []
    ∷ says ")\n"
    ∷ says "Test close dir : "
    ∷ says "OK\n"
    ∷ says "\r\n THE END"
    ∷ []

-- Every call succeeds, the bytes that were written are read, and the folders list what was created
-- and not deleted.
user_process_prints : printed_by (user_process 0 no_process 64 96 first_user) ≡ expected
unfolding strlen strcpy strcat strcmp c_text store_byte copy_word rounds memcpy memzero memwrite
    name_object set_name last_loop find_last_child attach claim find_empty alloc_inode unlink_loop
    unlink free_inode reset_inode size_to_write write_inode size_to_read read_inode init_entry
    init_entries init_fs token_loop get_path_first_token son_loop get_son_inode follow parse_step
    parse_loop parse_path bad_name create_in create create_file create_dir open_at open_file
    close_file open_descriptor read_file write_file append_file open_dir_at open_dir close_dir
    next_son get_next_dir_son free_id delete_sons delete_inode delete_file delete_dir fd_loop
    get_next_fd get_vfs_error_name bytes_at with_bytes read_answer son_answer test_create_file
    test_delete_file test_open_file test_write_file test_append_file test_read_file test_close_file
    test_create_dir test_delete_dir test_open_dir test_get_next_dir_son test_close_dir file_part
    dir_part delete_part user_process ◌+ℤ◌ ◌-ℤ◌ to_u32 to_u64 to_s32 sys_call reaches
user_process_prints = refl
