-- ===== src/Lib.antt =====
-- An educational ARM kernel with a file system in RAM: the inodes and the data of files, the virtual
-- file system with paths and file descriptors above them, and below them the pages and page tables,
-- the scheduler, new processes, the devices, the start, and the user program.
--
-- The program's parts, and the files that model them:
--  * Common: Boolean tests, lists, machine words, and the outcome of C code, which is a value,
--    undefined behaviour, or a loop that used up its fuel.
--  * CString: src/filesystem/src/string.c. A `char *` is the list of the bytes from its address to
--    the end of its object; an access behind the object is a fault.
--  * Memory: the loops `memcpy` and `memzero` of src/filesystem/src/mm.S and `memwrite` of
--    src/filesystem/src/filesystem.S, over a memory that maps an address to a byte.
--  * Inode: the types and the table of src/filesystem/include/filesystem.h. A pointer to an inode is
--    null or an index into `RAM_inodes_table`. Inode.Name: the array `name`, which strcpy writes.
--  * Pages: the page allocator of src/filesystem/src/mm.c, with Pages.Free about taking pages and
--    giving them back. Pages.Tables has the page tables of mm.c, `map_page` and what calls it;
--    Memory.Entry has their 64-bit entries. Pages.Tables.Walk says how the processor walks through
--    the tables, Pages.Tables.Level what keeps the tables of a walk apart, Pages.Tables.Apart that
--    they are not shared, and Pages.Tables.Route and Pages.Tables.Same what a walk depends on.
--    Pages.Tables.Top, Pages.Tables.Step and Pages.Tables.Linked are about the steps of `map_page`,
--    Pages.Tables.Mapped, Pages.Tables.Map and Pages.Tables.Isolation about the whole of it, and
--    Pages.Tables.Fault about `do_mem_abort`.
--  * Filesystem: src/filesystem/src/filesystem.c, one function for each function of the source, and
--    one for each of their loops. Filesystem.Chain is about chains of brothers, Filesystem.Tree says
--    what a well-formed table is and which tree of names it stands for, Filesystem.Init is about
--    `init_fs`, and Filesystem.Alloc, Filesystem.Free and Filesystem.Data are about allocating and
--    freeing inodes and about the data.
--  * Vfs: src/filesystem/src/vfs.c with src/filesystem/include/vfs.h. Vfs.Path looks paths up,
--    Vfs.Descriptor finds a free descriptor, Vfs.File has the operations on files, Vfs.Dir those on
--    folders, with Vfs.Dir.Names and Vfs.Dir.Listing about a client that lists a folder, and
--    Vfs.Delete deletes subtrees. Vfs.Valid has the states that all of them keep to, and
--    Vfs.Valid.Movable says what a caller that moves data has to see to.
--  * Sched: src/filesystem/src/sched.c with src/filesystem/include/sched.h. Sched.Pick is about the
--    task that `_schedule` picks, Sched.Charge and Sched.Fair about new counters and the end of its
--    loop, Sched.Exit, Sched.Tick and Sched.Negative about what calls it, and Sched.Only about
--    the case that one task only has time left.
--  * Fork: src/filesystem/src/fork.c with the structures of sched.h and of
--    src/filesystem/include/fork.h. Fork.Spawn is about kernel threads, Fork.Full about a memory
--    without a free page, and Fork.ToUser about the way into user mode.
--  * Devices: src/filesystem/src/mini_uart.c, timer.c and irq.c, over the registers' addresses of
--    src/filesystem/include/peripherals. What a device answers is a parameter.
--  * Sys: the system calls of src/filesystem/src/sys.c, which call the virtual file system and the
--    scheduler. `copy_process` is a parameter there. Sys.Calls is about single calls and sequences of
--    them.
--  * User: the user program of src/filesystem/src/user.c, with what it prints.
--  * Boot: `kernel_main` of src/filesystem/src/kernel.c up to its loop, and `kernel_process`. Boot.Room
--    counts the pages that the start takes, Boot.Printed is about what is sent to the devices, and
--    Boot.Started about the state that the start leaves; Boot.Handover is about the first call of
--    `schedule`, and Boot.UserMode about all of this up to user mode.
--  * Tests: small states, and the theorems at them; Tests.Run is a run of the whole user program.
--
-- The virtual file system calls the functions of filesystem.c on the table, which it reads itself
-- too; filesystem.c calls strcpy for names, the copying loops for data, and the page allocator when
-- it starts, as the page tables and new processes do. The timer's interrupt calls the scheduler, and
-- the user program makes system calls only. The state of the file system is the table, the memory
-- behind the data pages, and the descriptors.
--
-- Bounds and fuel: the walks along `brother` and the recursion of `delete_inode` have fuel 128, the
-- number of inodes, since in a well-formed table a folder has at most 127 sons and a son lies deeper
-- than its father. The loop of `parse_path` has the length of the path, since each round that goes
-- on consumes at least one byte. The theorems show that this is enough. The loop in `_schedule`
-- does not end where every running task has the counter and the priority 0, so its rounds are an
-- argument of the functions that call it; two are enough where priorities are positive. The loops that
-- wait for the serial line have as many rounds as the device takes to become ready, and one more.
--
-- Sizes and addresses are words of 32 and 64 bits with their wrap-around written out where C
-- computes with them. The loops in assembly step through addresses that do not wrap. A task's counter
-- is a whole number without bounds, which becomes a word of 32 bits where `_schedule` keeps it in an
-- `int`. A reference count is an integer without bounds. The static array `token` of vfs.c is a value that the function
-- returns, since it is written anew before each use. The messages of WARN are not modelled.
--
-- The user program's buffer and what it writes to files are at addresses of the same memory as the data
-- of the files, wherever they lie there. `objects` of the memory says which bytes are in data
-- pages or in buffers: what `read_inode`, `write_inode` and `read_file` access outside them, for
-- instance through a null `data_block`, behind the end of a buffer by the whole words of `memcpy`, or
-- in the table or a task, is undefined behaviour.
--
-- The page tables are in memory, byte by byte. The structures of a task, which are in a page of their
-- own, are maps from the page's address instead, so that nothing is said of a stray write to them. The
-- translation of the addresses of the task that runs, which `copy_virt_memory` reads through, is a
-- parameter, and so is the address of `ret_from_fork`. The system calls that start a task take
-- `copy_process` as a parameter, since the state of the calls has no page tables.
--
-- Not modelled: the saving of registers in a switch of tasks and the exceptions' entry in assembly;
-- the loop at the end of the user program, which prints dots; interrupts during the
-- start of the kernel; printf.c, a copy of a third-party library. What `printf` makes of a
-- text in kernel.c is a parameter, and each of its bytes goes through `putc`; `sys_write` takes a text
-- without conversions for itself, and the serial line for ready.
pub mod Devices
pub mod Fork
pub mod Common
pub mod Boot
pub mod CString
pub mod Filesystem
pub mod Inode
pub mod Memory
pub mod Pages
pub mod Sched
pub mod Sys
pub mod Tests
pub mod User
pub mod Vfs
