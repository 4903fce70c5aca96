-- ===== src/Fd/Calls.antt =====
-- The system calls of sys/syscall.c that work on file descriptors.
use preemptive_unix_os.Base.{
  drop, ℕ, zero, suc, ◌+◌, ◌%◌, ◌^◌, Bool, true, false, ◌&&◌, not, Option, none, some, List, ◌++◌,
  Run, ok, fault, ◌>>=◌, if◌then◌else◌, leb, ltb, ◌==◌, minus_one, update, add64, sub64, take,
  length,
}
use preemptive_unix_os.Page.Kmalloc.{kmalloc}
use preemptive_unix_os.Pipe.{PipeNode, pipe_read, pipe_write}
use preemptive_unix_os.Strings.{strlen, strncpy}
use preemptive_unix_os.Tarfs.Node.{TarFile, regtype, dirtype}
use preemptive_unix_os.Fd.{
  FdType, tarfile, piperead, pipewrite, stdfiletype, FileDescriptor, Kernel, Call, failed, slot,
  set_slot, find_slot, new_descriptor, max_file_descriptors, sizeof_file_descriptor,
  sizeof_pipe_node, pipe_size, o_wronly, o_creat, o_directory,
}

-- The checks of `sys_open` on the file that the lookup found.
unfoldable pub open_allowed : TarFile → ℕ → Bool
open_allowed file flags =
    not (file.file_type == regtype && file.file_perm == 493)
    && not (flags == o_wronly)
    && not (flags == o_creat)
    && not (flags == o_directory && not (file.file_type == dirtype))

-- `sys_open`, with what `lookUpForFile` returned; 493 is `convertOctalToDecimal(755)`. NULL from `kmalloc` is
-- written through.
unfoldable pub sys_open : Kernel → ℕ → ℕ → Call
sys_open k file_ptr flags =
    if file_ptr == 0
    then failed k
    else if not (open_allowed (k.files file_ptr) flags)
    then failed k
    else (find_slot 13 k 3 >>= λ i.
        if ltb max_file_descriptors i
        then failed k
        else (let (p, k') = new_descriptor k (record {
          fd_type = tarfile;
          offset = 0;
          perm = flags;
          ref_count = 1;
          file_ptr = file_ptr;
          pipe_ptr = 0;
        }) in
            if p == 0 then fault else (set_slot k' i p >>= λ k''. ok (i, k''))))

-- The branch of `sys_read` on a file of the archive. The caller's buffer is returned too.
unfoldable pub read_file : Kernel → ℕ → List ℕ → ℕ → Run (ℕ × Kernel × List ℕ)
read_file k p buf count =
    let d = k.descriptors p in
    let file = k.files d.file_ptr in
    if d.perm == o_wronly
    then ok (minus_one, k, buf)
    else if d.file_ptr == 0
    then ok (minus_one, k, buf)
    else if file.file_type == dirtype
    then ok (minus_one, k, buf)
    else if leb file.file_size d.offset
    then ok (0, k, buf)
    else (strncpy buf (drop d.offset file.start) count >>= λ buf'. strlen buf' >>= λ bytes_read.
        let k' = record k {
          descriptors = update k.descriptors p (record d { offset = add64 d.offset bytes_read });
        } in
        ok (bytes_read, k', buf'))

-- The branch of `sys_read` on a pipe.
unfoldable pub read_pipe : Kernel → ℕ → List ℕ → ℕ → Run (ℕ × Kernel × List ℕ)
read_pipe k p buf count =
    let d = k.descriptors p in
    if d.pipe_ptr == 0
    then ok (minus_one, k, buf)
    else (pipe_read (k.pipes d.pipe_ptr) buf count >>= λ (ret, node, buf').
        ok (ret, record k { pipes = update k.pipes d.pipe_ptr node }, buf'))

-- `sys_read` of the standard input: a NULL slot is read through. What the keyboard has for the process is `typed`.
unfoldable pub read_stdin :
    Run (ℕ × Kernel × List ℕ) → Kernel → List ℕ → ℕ → Run (ℕ × Kernel × List ℕ)
read_stdin typed k buf count = slot k 0 >>= λ p.
    if p == 0 then fault else elim (k.descriptors p).fd_type [
      | tarfile ↦ ok (minus_one, k, buf)
      | pipewrite ↦ ok (minus_one, k, buf)
      | piperead ↦ read_pipe k p buf count
      | stdfiletype ↦ typed
    ]

-- `sys_read` below its tests for 0 and 1.
unfoldable pub read_any : Kernel → ℕ → List ℕ → ℕ → Run (ℕ × Kernel × List ℕ)
read_any k fd buf count = slot k fd >>= λ p.
    if p == 0 then ok (minus_one, k, buf) else elim (k.descriptors p).fd_type [
      | tarfile ↦ read_file k p buf count
      | pipewrite ↦ ok (minus_one, k, buf)
      | piperead ↦ read_pipe k p buf count
      | stdfiletype ↦ ok (minus_one, k, buf)
    ]

-- `sys_read`, with what the read of a line from the keyboard comes to, which may be a switch to another process.
unfoldable pub sys_read :
    Run (ℕ × Kernel × List ℕ) → Kernel → ℕ → List ℕ → ℕ → Run (ℕ × Kernel × List ℕ)
sys_read typed k fd buf count =
    if fd == 0
    then read_stdin typed k buf count
    else if fd == 1
    then ok (minus_one, k, buf)
    else read_any k fd buf count

-- `printf("%s", buf)` of a program's output, and the length that the call returns.
unfoldable pub print_out : Kernel → List ℕ → Call
print_out k buf = strlen buf >>= λ ret. ok (ret, record k { console = k.console ++ take ret buf })

-- The branch of `sys_write` on a pipe.
unfoldable pub write_pipe : Kernel → ℕ → List ℕ → ℕ → Call
write_pipe k p buf size =
    let d = k.descriptors p in
    if d.pipe_ptr == 0
    then failed k
    else (pipe_write (k.pipes d.pipe_ptr) d.offset buf size >>= λ (ret, node, offset'). ok (
      ret,
      record k {
        pipes = update k.pipes d.pipe_ptr node;
        descriptors = update k.descriptors p (record d { offset = offset' });
      },
    ))

-- The part of `sys_write` that serves any descriptor but 0, 1 and 2.
unfoldable pub write_any : Kernel → ℕ → List ℕ → ℕ → Call
write_any k fd buf size = slot k fd >>= λ p.
    if p == 0 then failed k else elim (k.descriptors p).fd_type [
      | tarfile ↦ failed k
      | piperead ↦ failed k
      | pipewrite ↦ write_pipe k p buf size
      | stdfiletype ↦ failed k
    ]

-- Descriptor 1: a NULL slot is read through. What is neither the screen nor a pipe goes on below.
unfoldable pub write_stdout : Kernel → List ℕ → ℕ → Call
write_stdout k buf size = slot k 1 >>= λ p.
    if p == 0 then fault else elim (k.descriptors p).fd_type [
      | stdfiletype ↦ print_out k buf
      | pipewrite ↦ write_pipe k p buf size
      | _ ↦ write_any k 1 buf size
    ]

unfoldable pub sys_write : Kernel → ℕ → List ℕ → ℕ → Call
sys_write k fd buf size =
    if fd == 1
    then write_stdout k buf size
    else if fd == 2
    then print_out k buf
    else if fd == 0
    then failed k
    else write_any k fd buf size

-- The end that is closed is marked in the pipe; a NULL `pipe_ptr` is written through.
unfoldable pub mark_closed : Kernel → FileDescriptor → Run Kernel
mark_closed k d = elim d.fd_type [
  | tarfile ↦ ok k
  | stdfiletype ↦ ok k
  | pipewrite ↦
      (if d.pipe_ptr == 0
        then fault
        else ok (record k {
          pipes =
              update k.pipes d.pipe_ptr (record (k.pipes d.pipe_ptr) { is_write_closed = true });
        }))
  | piperead ↦
      (if d.pipe_ptr == 0
        then fault
        else ok (record k {
          pipes = update k.pipes d.pipe_ptr (record (k.pipes d.pipe_ptr) { is_read_closed = true });
        }))
]

unfoldable pub sys_close : Kernel → ℕ → Call
sys_close k fd = slot k fd >>= λ p.
    if p == 0
    then failed k
    else (let d = k.descriptors p in
        let d' = record d { ref_count = sub64 d.ref_count 1 } in
        let k' = record k { descriptors = update k.descriptors p d' } in
        if d'.ref_count == 0
        then (mark_closed k' d' >>= λ k''. set_slot k'' fd 0 >>= λ k'''. ok (0, k'''))
        else ok (0, k'))

-- `SEEK_SET`, `SEEK_CUR` and `SEEK_END` are 0, 1 and 2.
unfoldable pub seek_to : FileDescriptor → TarFile → ℕ → ℕ → Option ℕ
seek_to d file offset whence =
    if whence == 0
    then some offset
    else if whence == 1
    then some (add64 d.offset offset)
    else if whence == 2
    then some (add64 file.file_size offset)
    else none

unfoldable pub sys_lseek : Kernel → ℕ → ℕ → ℕ → Call
sys_lseek k fd offset whence = slot k fd >>= λ p.
    let d = k.descriptors p in
    let file = k.files d.file_ptr in
    if p == 0
    then failed k
    else if d.file_ptr == 0
    then failed k
    else if file.file_type == dirtype
    then failed k
    else elim (seek_to d file offset whence) [
      | none ↦ failed k
      | some to ↦
          ok (to, record k { descriptors = update k.descriptors p (record d { offset = to }) })
    ]

-- `while((index!=fileDesc->offset) && filePtr)`: the loop ends at NULL or after `offset` steps.
unfoldable pub nth_sibling : ℕ → (ℕ → TarFile) → ℕ → ℕ
nth_sibling zero files p = p
nth_sibling (suc n) files p =
    let rest = nth_sibling n files (files p).next in if p == 0 then 0 else rest

-- `sys_getdents`: the name in the entry that is filled in, `none` at the end of the directory.
-- `d_reclen` is an `unsigned short`: 18 bytes of fields and the name.
unfoldable pub sys_getdents : Kernel → ℕ → Run (ℕ × Option (List ℕ) × Kernel)
sys_getdents k fd = slot k fd >>= λ p.
    let d = k.descriptors p in
    let file = k.files d.file_ptr in
    if p == 0
    then ok (minus_one, none, k)
    else if d.file_ptr == 0
    then ok (minus_one, none, k)
    else if not (file.file_type == dirtype)
    then ok (minus_one, none, k)
    else (let entry = nth_sibling d.offset k.files file.child in
        if entry == 0
        then ok
            (0, none, record k { descriptors = update k.descriptors p (record d { offset = 0 }) })
        else (let name = take 256 (k.files entry).file_name in
            ok (
              (18 + length name) % 2 ^ 16,
              some name,
              record k {
                descriptors = update k.descriptors p (record d { offset = add64 d.offset 1 });
              },
            )))

unfoldable pub sys_dup : Kernel → ℕ → Call
sys_dup k oldfd = find_slot 16 k 0 >>= λ i.
    if ltb max_file_descriptors i
    then failed k
    else (slot k oldfd >>= λ p. set_slot k i p >>= λ k'. ok (i, k'))

unfoldable pub sys_dup2 : Kernel → ℕ → ℕ → Call
sys_dup2 k oldfd newfd = slot k oldfd >>= λ p.
    if p == 0
    then failed k
    else (slot k newfd >>= λ q. (if q == 0 then ok (0, k) else sys_close k newfd) >>= λ (_, k').
        slot k' oldfd >>= λ p'. set_slot k' newfd p' >>= λ k''. ok (newfd, k''))

-- The second search of `sys_pipe` tests slot `i`, which is NULL, in place of slot `j`: it ends at 3, or
-- at 4 if `i` is 3.
unfoldable pub second_slot : ℕ → ℕ
second_slot i = if i == 3 then 4 else 3

-- What `sys_pipe` returns, the two descriptors that it hands out, and the kernel after it.
abbrev pub PipeCall : Type 0
PipeCall = Run (ℕ × (ℕ × ℕ) × Kernel)

abbrev pub no_pipe : ℕ → Kernel → PipeCall
no_pipe heap' k = ok (minus_one, (0, 0), record k { heap = heap' })

-- `kmalloc`, and what follows where it does not return NULL.
unfoldable pub with_object : ℕ → ℕ → Kernel → (ℕ → ℕ → PipeCall) → PipeCall
with_object heap' size k next =
    let (p, heap'') = kmalloc heap' size in if p == 0 then no_pipe heap'' k else next p heap''

abbrev pub pipe_end : FdType → ℕ → FileDescriptor
pipe_end t node = record {
  fd_type = t;
  offset = 0;
  perm = 0;
  ref_count = 1;
  file_ptr = 0;
  pipe_ptr = node;
}

abbrev pub new_pipe : List ℕ → PipeNode
new_pipe bytes = record {
  r = 0;
  w = minus_one;
  pipe_buffer = bytes;
  size = pipe_size;
  is_write_closed = false;
  is_read_closed = false;
}

-- The kernel with the two ends and the pipe between them filled in.
abbrev pub with_pipe : Kernel → List ℕ → ℕ → ℕ → ℕ → ℕ → Kernel
with_pipe k bytes fd1 fd2 node heap' = record k {
  heap = heap';
  descriptors =
      update (update k.descriptors fd1 (pipe_end piperead node)) fd2 (pipe_end pipewrite node);
  pipes = update k.pipes node (new_pipe bytes);
}

-- The objects are in place: the two slots are set.
unfoldable pub connect : Kernel → ℕ → ℕ → ℕ → ℕ → PipeCall
connect k i j fd1 fd2 = set_slot k i fd1 >>= λ k1. set_slot k1 j fd2 >>= λ k2. ok (0, (i, j), k2)

-- `sys_pipe`; `bytes` is what the memory of the new buffer holds.
unfoldable pub sys_pipe : Kernel → List ℕ → PipeCall
sys_pipe k bytes = with_object k.heap pipe_size k λ buffer heap1. find_slot 13 k 3 >>= λ i.
    if ltb max_file_descriptors i
    then no_pipe heap1 k
    else (with_object heap1 sizeof_file_descriptor k λ fd1 heap2.
        with_object heap2 sizeof_file_descriptor k λ fd2 heap3.
          with_object heap3 sizeof_pipe_node k
            λ node heap4. connect (with_pipe k bytes fd1 fd2 node heap4) i (second_slot i) fd1 fd2)
