-- ===== src/Pipe/Append.antt =====
-- `sys_write` on a pipe of sys/syscall.c, where the bytes fit behind the last one.
use preemptive_unix_os.Base.{ℕ, List, splice, length, add64}
use preemptive_unix_os.Pipe.{PipeNode}

-- The pipe with `bytes` written behind its last byte.
abbrev pub appended : PipeNode → List ℕ → PipeNode
appended p bytes = record p {
  pipe_buffer = splice p.pipe_buffer (add64 p.w 1) bytes;
  w = add64 p.w (length bytes);
}
