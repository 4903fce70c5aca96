-- ===== src/Pipe/Faults.antt =====
-- Pipes of sys/syscall.c at the end of their buffer, and empty pipes: where `sys_read` and
-- `sys_write` do not do what a pipe should.
use native.Mathlib.Nat.{mod-eq_of_lt}
use preemptive_unix_os.Base.{
  hang, ◌≢◌, ltb, ◌>>=◌, ℕ, ◌+◌, ◌%◌, ◌^◌, ◌≤◌, ◌<◌, ◌≡◌, refl, List, arith, Run, ok, fault, splice,
  take, length, length-take, add64, sub64, minus_one, true, false,
}
use preemptive_unix_os.Pipe.Drain.{not_empty}
use preemptive_unix_os.Pipe.{
  WriteResult, emptied, read_wrapped, write_rest, write_ahead, PipeNode, copy_in, copy_out, is_full,
  is_empty, read_partial, read_part, pipe_read, pipe_write,
}
use preemptive_unix_os.Pipe.Linear.{IsLinear, held, room}

copy_in-fault :
    (p : PipeNode) (at : ℕ) (buf : List ℕ) (off n : ℕ)
    → length buf < off + n
    → copy_in p at buf off n ≡ fault
unfolding copy_in
copy_in-fault p at buf off n h = ground arith

copy_in-ne-hang : (p : PipeNode) (at : ℕ) (buf : List ℕ) (off n : ℕ) → copy_in p at buf off n ≢ hang
unfolding copy_in
copy_in-ne-hang p at buf off n = ground arith

module _ (p : PipeNode) (buf : List ℕ) (n : ℕ) (small : p.size < 2 ^ 31)
    (bounded : length buf < 2 ^ 63) where
  second_faults :
      (p' : PipeNode) (off : ℕ)
      → n < p.size
      → copy_in p' 0 buf off (sub64 (sub64 n 0) p.size) ≡ fault
  second_faults p' off short = copy_in-fault p' 0 buf off (sub64 (sub64 n 0) p.size) (omega arith)

  write_ahead-fault :
      p.w < p.size
      → p.r ≤ p.w
      → p.size ≤ n + p.w
      → n < p.size
      → n + p.w < p.size + p.r
      → write_ahead p p.w p.r 0 buf n ≡ fault
  unfolding write_ahead
  write_ahead-fault in_range order over short free =
      let one : ltb (sub64 n 0) (add64 (sub64 p.size p.w) p.r) ≡ true = ground arith in
      let two : ltb (sub64 n 0) (sub64 p.size p.w) ≡ false = ground arith in
      rw (one, two)
        (after (copy_in p (add64 p.w 1) buf 0 (sub64 (sub64 p.size p.w) 1))
          (copy_in-ne-hang p (add64 p.w 1) buf 0 (sub64 (sub64 p.size p.w) 1)))
    where
      result : PipeNode → Run WriteResult
      result p'' = ok (n, record p'' { w = add64 p.w (sub64 n 0) % p.size }, 0)

      after :
          (m : Run PipeNode)
          → m ≢ hang
          → (m >>= λ p'.
              copy_in p' 0 buf (add64 0 (sub64 (sub64 p.size p.w) 1)) (sub64 (sub64 n 0) p.size)
              >>= λ p''. result p'')
            ≡ fault
      after fault ne = refl
      after hang ne = absurd (ne refl)
      after (ok p') ne = rw (second_faults p' (add64 0 (sub64 (sub64 p.size p.w) 1)) short)

-- A write that has to go round the end of the buffer, though the bytes would fit in it, ends in a
-- `memcpy` that leaves the caller's buffer: the second length wraps below zero. The pipe holds bytes
-- and holds them in one piece, and the buffer is shorter than 2^63 bytes.
pub pipe_write-wraps :
    {p : PipeNode} (buf : List ℕ) (n : ℕ)
    → IsLinear p
    → 0 < held p
    → room p < n
    → n < p.size
    → n ≤ room p + p.r
    → length buf < 2 ^ 63
    → pipe_write p 0 buf n ≡ fault
unfolding pipe_write write_rest
pipe_write-wraps {p} buf n v pos over short free bounded =
    rw (not_empty v pos)
      (ground (arith, v.cases, v.small, write_ahead-fault p buf n v.small bounded))

-- A write of no bytes to an empty pipe leaves a pipe that is not empty: `w` becomes the remainder
-- of 2^64 - 1 by the size of the pipe.
pub pipe_write-zero :
    {p : PipeNode} (buf : List ℕ)
    → IsLinear p
    → pipe_write (emptied p) 0 buf 0 ≡ ok (0, record p { r = 0; w = minus_one % p.size }, 0)
unfolding pipe_write is_empty copy_in
pipe_write-zero {p} buf v = ground arith

not_full : (p : PipeNode) → IsLinear p → is_full (emptied p) ≡ false
unfolding is_full
not_full p v = ground (arith, v.small, v.nonempty)

read_empty :
    (p : PipeNode) (buf : List ℕ) (count : ℕ)
    → IsLinear p
    → count < p.size
    → count ≤ length buf
    → read_wrapped (emptied p) buf count
      ≡ ok (count, record p { r = count; w = minus_one }, splice buf 0 (take count p.pipe_buffer))
unfolding read_wrapped read_part copy_out
read_empty p buf count v less fits = ground (
  arith,
  v.storage,
  v.small,
  length-take count p.pipe_buffer,
  mod-eq_of_lt {n = count} {m = p.size},
)

-- A read of fewer bytes than the pipe's size from an empty pipe whose writing end is open returns
-- bytes that are in the buffer from before, and moves `r`.
pub pipe_read-empty :
    {p : PipeNode} (buf : List ℕ) (count : ℕ)
    → IsLinear p
    → p.is_write_closed ≡ false
    → count < p.size
    → count ≤ length buf
    → pipe_read (emptied p) buf count
      ≡ ok (count, record p { r = count; w = minus_one }, splice buf 0 (take count p.pipe_buffer))
unfolding pipe_read is_empty is_full read_partial
pipe_read-empty {p} buf count v open_end less fits =
    let step = read_empty p buf count v less fits in
    let full = not_full p v in rw (open_end, full) (rw open_end at step)
