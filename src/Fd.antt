-- ===== src/Fd.antt =====
-- The file descriptors of sys/syscall.c: `sys_open`, `sys_read` and `sys_write` on descriptors,
-- `sys_close`, `sys_lseek`, `sys_getdents`, `sys_dup`, `sys_dup2` and `sys_pipe`. A call returns its
-- result as a `uint64_t`, so -1 is 2^64 - 1, and the kernel after it. Messages on the console are
-- left out but for what a program writes.
pub mod Calls
pub mod Slots
pub mod Open
pub mod Close
pub mod Ends
pub mod Files
pub mod Dirs
pub mod Tests
use preemptive_unix_os.Base.{
  ℕ, zero, suc, ◌+◌, ◌-◌, ◌%◌, ◌^◌, Bool, ◌&&◌, not, Option, none, some, List, [], ◌∷◌, ◌++◌, Run,
  ok, fault, ◌>>=◌, if◌then◌else◌, leb, ltb, ◌==◌, minus_one, update, set, get_elem?, add64, sub64,
}
use preemptive_unix_os.Page.Kmalloc.{kmalloc}
use preemptive_unix_os.Pipe.{PipeNode}
use preemptive_unix_os.Tarfs.Node.{TarFile}

-- `FD_TYPE`
pub data FdType : Type 0 where
  tarfile piperead pipewrite stdfiletype : FdType

-- `struct file_descriptor`. Pointers are addresses, 0 for NULL.
pub record FileDescriptor : Type 0 where
  pub fd_type : FdType
  pub offset : ℕ
  pub perm : ℕ
  pub ref_count : ℕ
  pub file_ptr : ℕ
  pub pipe_ptr : ℕ

-- What the calls work on: the kernel heap with the objects at its addresses, the array
-- `fileDescriptors` of the current process, and what was written to the screen.
pub record Kernel : Type 0 where
  pub heap : ℕ
  pub descriptors : ℕ → FileDescriptor
  pub pipes : ℕ → PipeNode
  pub files : ℕ → TarFile
  pub table : List ℕ
  pub console : List ℕ

abbrev pub max_file_descriptors : ℕ
max_file_descriptors = 15

-- `sizeof(struct file_descriptor)`, `sizeof(struct pipe_node)`, `PIPE_SIZE`
abbrev pub sizeof_file_descriptor : ℕ
sizeof_file_descriptor = 48

abbrev pub sizeof_pipe_node : ℕ
sizeof_pipe_node = 40

abbrev pub pipe_size : ℕ
pipe_size = 20480

abbrev pub o_rdonly : ℕ
o_rdonly = 0

abbrev pub o_wronly : ℕ
o_wronly = 1

abbrev pub o_creat : ℕ
o_creat = 0x40

abbrev pub o_directory : ℕ
o_directory = 0x10000

-- What a call returns, and the kernel after it.
abbrev pub Call : Type 0
Call = Run (ℕ × Kernel)

abbrev pub failed : Kernel → Call
failed k = ok (minus_one, k)

-- `current_pcb->fileDescriptors[i]`: outside the array there is no such element.
unfoldable pub slot : Kernel → ℕ → Run ℕ
slot k i = elim (get_elem? k.table i) [ none ↦ fault | some p ↦ ok p ]

unfoldable pub set_slot : Kernel → ℕ → ℕ → Run Kernel
set_slot k i p =
    if ltb i max_file_descriptors then ok (record k { table = set k.table i p }) else fault

-- `for (i = from; i <= MAX_FILE_DESCRIPTORS_PER_PROCESS; i++)` up to the first slot that is NULL, with
-- the rounds that are left. The last round looks behind the array.
unfoldable pub find_slot : ℕ → Kernel → ℕ → Run ℕ
find_slot zero k i = ok i
find_slot (suc n) k i =
    slot k i >>= λ p. (let rest = find_slot n k (i + 1) in if p == 0 then ok i else rest)

-- `kmalloc` of a descriptor, filled in.
unfoldable pub new_descriptor : Kernel → FileDescriptor → ℕ × Kernel
new_descriptor k d =
    let (p, heap') = kmalloc k.heap sizeof_file_descriptor in
    (p, record k { heap = heap'; descriptors = update k.descriptors p d })
