-- ===== src/Lib.antt =====
-- A verification library for the kernel of this repository and its C library.
--
-- The kernel manages page frames and page tables (sys/page.c), a heap from which it only ever takes
-- (`kmalloc` of sys/page.c), a file system in memory that it reads from a tar archive (sys/tarfs.c), and system
-- calls on file descriptors for files, directories and pipes (sys/syscall.c).
--
-- - Base: Boolean tests, lists, 64-bit words, byte memory and `Run`, the result of code that may have
--   undefined behaviour (`fault`) or spin (`hang`).
-- - Page: `alignUp` and its kin (Page/Align), the free list of `page_free_init`, `page_alloc` and `page_release`
--   (Page/Frames), the walks `pml4Walk`, `pdpeWalk` and `pdeWalk` with `get_mapping`, `page_insert`, `page_remove` and
--   `region_mapping` (Page/Walk), and `kmalloc` (Page/Kmalloc). Physical memory is a function from a frame and a place in
--   it to a word; a table is known by its kernel virtual address, as in the source.
--   Page/Fault has the page faults of sys/isr.c (`copy_on_write_handler` and `allocatePages`), and Page/Fork the areas and
--   page tables that `fork_handler` of sys/syscall.c gives the child.
-- - Pipe: `struct pipe_node` and the pipe branches of `sys_read` and `sys_write`.
-- - Fd: `struct file_descriptor`, the table of a process and `sys_open`, `sys_read`, `sys_write`, `sys_close`,
--   `sys_lseek`, `sys_getdents`, `sys_dup`, `sys_dup2` and `sys_pipe`. Objects on the heap live in a function from addresses, so that
--   two slots can share one descriptor and two descriptors one pipe.
-- - Strings: the string functions of libc/, of which sys/ has copies. A `char *` is the list of bytes from it
--   to the end of its object.
-- - Tarfs: the numbers of an archive header (`atoi`, `power`, `convertOctalToDecimal`, Tarfs/Octal), `struct tar_file`
--   (Tarfs/Node), `parseFileName` (Tarfs/Path), `lookUpForFile` (Tarfs/Tree), `getFile` and `setupHeirarchyOfTarfs` above
--   the bytes of the archive (Tarfs/Archive), and `sys_getcwd` and `sys_chdir` of sys/syscall.c (Tarfs/Cwd).
-- - Vma: the virtual memory areas of a process: `getELF`, `check_vma`, `insert_vma` and `set_vma` of sys/elf.c,
--   `add_heap_vma` and `add_stack_vma` of sys/process.c, `findVMA` of sys/isr.c, and `SYS_brk` with `getHeapVMA`
--   of sys/syscall.c, with `vma_free_init` of sys/page.c and `vma_remove_for_process` of sys/cleanup.c (Vma/Remove).
-- - Sched: the queues of processes of sys/syscall.c and sys/timer.c: `SchNext`, `sys_yield`, `sleepPlease`, `waitPlease`,
--   `timer_handler` (Sched/Timer, and the switch in Sched), `sys_exit`, `deleteNode` and `KillisCalled` (Sched/Exit). Registers,
--   stacks and page tables are not part of a process here: of `build_process_address_space` and `delete_process` the state
--   has the effects on the process table, and whether the rest of them gets through (`loads`, `releases`).
-- - Format: `convert` and `printf` of libc/printf.c, as the list of the calls of `write`.
-- - Keyboard: the interrupt handler of sys/kbd.c with its line buffer, above the queues of Sched.
-- - Shell: `getCommands`, `getArguments` and `getPathsAppendedWithCommand` of bin/shell/shell.c.
-- - Screen: `writek` of sys/printf.c, the text screen, and its `printf` (Screen/Printf).
-- - Heap: `malloc`, `free` and `sbrk` of libc/malloc.c, above an interface for `brk` (`Brk`, `BrkLaws`), which `SYS_brk` of Vma
--   fills (Heap/Break).
--
-- Fuel: `alignUpEight` and `alignDownEight` get eight rounds, since one of eight neighbours is a multiple of eight;
-- `power` halves a 64-bit number 64 times at most; a 64-bit number has 20 decimal digits; `region_mapping` steps by pages;
-- a loop over areas gets 101 rounds, since the kernel has 100 areas,
-- a loop over processes 1001, since it has 1000, and a loop over the children of a directory 101, since it has 100 files.
-- `getFile` and `setupHeirarchyOfTarfs` take one round for each 512 bytes of the archive and one more, which is enough unless
-- the size of a file carries a pointer past 2^64.
-- A 64-bit number has 64 digits at most, in any base from 2 on, and an `int` has ten decimal ones.
--
-- Memory from `kmalloc`: the copy of a page and the calls on descriptors have the end of the kernel heap in their state. The
-- routines on paths take the number of calls of `kmalloc` before the first one that returns NULL.
--
-- Not modelled: the process table of `fork`, `execve`, `copyELF`, the read of a line from the keyboard (an argument of
-- `sys_read`), the strings, descriptors and tables that `delete_process` gives back, `scanf`, the calls of the shell; the
-- set-up of the processor and the devices, and the stubs around the `syscall` instruction, which are assembly.
pub mod Base
pub mod Page
pub mod Pipe
pub mod Strings
pub mod Tarfs
pub mod Fd
pub mod Vma
pub mod Sched
pub mod Format
pub mod Screen
pub mod Heap
pub mod Shell
pub mod Keyboard
