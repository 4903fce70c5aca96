-- ===== src/Pipe/Tests.antt =====
-- Runs of the pipes of sys/syscall.c on a buffer of four bytes.
use preemptive_unix_os.Base.{refl, [], ◌∷◌, arith, Ensures, false, inr}
use preemptive_unix_os.Pipe.{PipeNode, pipe_read}
use preemptive_unix_os.Pipe.Linear.{IsLinear}
use preemptive_unix_os.Pipe.Drain.{Drains, pipe_read-Drains}

-- The bytes 72 and 73 at the indices 1 and 2.
abbrev two_bytes : PipeNode
two_bytes = record {
  r = 1;
  w = 2;
  pipe_buffer = 71 ∷ 72 ∷ 73 ∷ 74 ∷ [];
  size = 4;
  is_write_closed = false;
  is_read_closed = false;
}

two_bytes-IsLinear : IsLinear two_bytes
two_bytes-IsLinear = record {
  storage = refl;
  small = omega arith;
  nonempty = omega arith;
  cases = inr (omega arith, omega arith);
}

pipe_read-Drains_example :
    Ensures (Drains two_bytes (0 ∷ 0 ∷ 0 ∷ []) 1) (pipe_read two_bytes (0 ∷ 0 ∷ 0 ∷ []) 1)
pipe_read-Drains_example =
    pipe_read-Drains (0 ∷ 0 ∷ 0 ∷ []) 1 two_bytes-IsLinear (omega arith) (omega arith)
