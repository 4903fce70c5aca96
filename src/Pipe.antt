-- ===== src/Pipe.antt =====
-- The pipes of sys/syscall.c: `struct pipe_node`, and the parts of `sys_read` and `sys_write` that
-- move bytes through one. `w` is an `int` that is -1 in an empty pipe; it is kept as the
-- `uint64_t` that C makes of it in each comparison and sum, so -1 is 2^64 - 1. The wait that the
-- source leaves out ("WAIT") is left out here too.
pub mod Linear
pub mod Append
pub mod Drain
pub mod Faults
pub mod Tests
use preemptive_unix_os.Base.{
  ℕ, ◌+◌, ◌-◌, ◌*◌, ◌%◌, ◌^◌, Bool, List, ◌&&◌, ◌||◌, not, if◌then◌else◌, ltb, leb, ◌==◌, Run, ok,
  ◌>>=◌, add64, sub64, minus_one, ltb_signed, fetch, store, true, false,
}

-- `int r`, `int w`, `char *pipe_buffer`, `uint64_t size`, and the two flags of `struct pipe_node`.
pub record PipeNode : Type 0 where
  pub r : ℕ
  pub w : ℕ
  pub pipe_buffer : List ℕ
  pub size : ℕ
  pub is_write_closed : Bool
  pub is_read_closed : Bool

-- What a read returns, the pipe after it, and the caller's buffer after it.
abbrev pub ReadResult : Type 0
ReadResult = ℕ × PipeNode × List ℕ

-- What a write returns, the pipe after it, and the `offset` of its descriptor after it.
abbrev pub WriteResult : Type 0
WriteResult = ℕ × PipeNode × ℕ

-- `((r-w)==1 && w!=-1) || (w==(sz-1) && r==0)`
unfoldable pub is_full : PipeNode → Bool
is_full p = (sub64 p.r p.w == 1 && not (p.w == minus_one)) || (p.w == sub64 p.size 1 && p.r == 0)

unfoldable pub is_empty : PipeNode → Bool
is_empty p = p.r == 0 && p.w == minus_one

abbrev pub emptied : PipeNode → PipeNode
emptied p = record p { r = 0; w = minus_one }

-- One `memcpy` from index `at` of the pipe to index `to` of the caller's buffer.
unfoldable pub copy_out : PipeNode → ℕ → ℕ → List ℕ → ℕ → Run (List ℕ)
copy_out p at n buf to = fetch p.pipe_buffer at n >>= λ bytes. store buf to bytes

-- The end of a read that copies one piece and leaves bytes behind.
unfoldable pub read_part : PipeNode → ℕ → List ℕ → ℕ → Run ReadResult
read_part p r' buf count =
    copy_out p p.r count buf 0 >>= λ out. ok (count, record p { r = r' }, out)

-- The end of a read that takes all `n` bytes, in one piece.
unfoldable pub read_all : PipeNode → List ℕ → ℕ → Run ReadResult
read_all p buf n = copy_out p p.r n buf 0 >>= λ out. ok (n, emptied p, out)

-- The branch `r > w`. The source sets its `r` to 0 between the two copies and goes on computing
-- with `sz - r`, so the second copy and the result use `sz`.
unfoldable pub read_wrapped : PipeNode → List ℕ → ℕ → Run ReadResult
read_wrapped p buf count =
    let sz = p.size in
    let head = sub64 sz p.r in
    if leb (add64 (add64 head p.w) 1) count
    then (copy_out p p.r head buf 0 >>= λ out.
        copy_out p 0 (add64 p.w 1) out sz >>= λ out'. ok (add64 (add64 sz p.w) 1, emptied p, out'))
    else if leb count head
    then read_part p (add64 p.r count % sz) buf count
    else (copy_out p p.r head buf 0 >>= λ out. copy_out p 0 (sub64 count sz) out sz >>= λ out'.
        ok (count, record p { r = add64 p.r count % sz }, out'))

-- The branches below the test for a full pipe.
unfoldable pub read_partial : PipeNode → List ℕ → ℕ → Run ReadResult
read_partial p buf count =
    let held = add64 (sub64 p.w p.r) 1 in
    if not (ltb_signed p.w p.r)
    then if leb held count then read_all p buf held else read_part p (add64 p.r count) buf count
    else read_wrapped p buf count

-- `sys_read` on the reading end of a pipe.
unfoldable pub pipe_read : PipeNode → List ℕ → ℕ → Run ReadResult
pipe_read p buf count =
    let sz = p.size in
    if is_empty p && p.is_write_closed
    then ok (0, p, buf)
    else if is_full p
    then if leb sz count then read_all p buf sz else read_part p (add64 p.r count % sz) buf count
    else read_partial p buf count

-- One `memcpy` from index `off` of the caller's buffer to index `at` of the pipe.
unfoldable pub copy_in : PipeNode → ℕ → List ℕ → ℕ → ℕ → Run PipeNode
copy_in p at buf off n = fetch buf off n >>= λ bytes.
    store p.pipe_buffer at bytes >>= λ b. ok (record p { pipe_buffer = b })

-- The branch `w < r`.
unfoldable pub write_behind : PipeNode → ℕ → ℕ → ℕ → List ℕ → ℕ → Run WriteResult
write_behind p w r off buf size =
    let n = sub64 size off in
    let room = sub64 (sub64 r w) 1 in
    if ltb n (sub64 r w)
    then (copy_in p (add64 w 1) buf off n >>= λ p'. ok (size, record p' { w = add64 p.w n }, 0))
    else (copy_in p (add64 w 1) buf off room >>= λ p'.
        ok (minus_one, record p' { w = sub64 (add64 p.w (sub64 p.r p.w)) 1 }, add64 off room))

-- The branch `w >= r`. The source sets its `w` to -1 between the two copies and goes on computing
-- with `sz - w - 1`, which is `sz` from there on.
unfoldable pub write_ahead : PipeNode → ℕ → ℕ → ℕ → List ℕ → ℕ → Run WriteResult
write_ahead p w r off buf size =
    let sz = p.size in
    let n = sub64 size off in
    let tail = sub64 (sub64 sz w) 1 in
    if ltb n (add64 (sub64 sz w) r)
    then if ltb n (sub64 sz w)
      then (copy_in p (add64 w 1) buf off n >>= λ p'.
          ok (size, record p' { w = add64 p.w n % sz }, 0))
      else (copy_in p (add64 w 1) buf off tail >>= λ p'.
          copy_in p' 0 buf (add64 off tail) (sub64 (sub64 size off) sz) >>= λ p''.
          ok (size, record p'' { w = add64 p.w n % sz }, 0))
    else (copy_in p (add64 w 1) buf off tail >>= λ p'.
        copy_in p' 0 buf (add64 off tail) r >>= λ p''.
        ok (minus_one, record p'' { w = add64 p.w (add64 sz r) % sz }, add64 (add64 off tail) r))

unfoldable pub write_rest : PipeNode → ℕ → ℕ → ℕ → List ℕ → ℕ → Run WriteResult
write_rest p w r off buf size =
    if ltb_signed w r then write_behind p w r off buf size else write_ahead p w r off buf size

-- `sys_write` on the writing end of a pipe: the first `size` bytes of `buf`, from `offset` on. A
-- write that an empty pipe cannot hold fills it, and goes on with the old `r` and `w`.
unfoldable pub pipe_write : PipeNode → ℕ → List ℕ → ℕ → Run WriteResult
pipe_write p offset buf size =
    let sz = p.size in
    let n = sub64 size offset in
    if is_empty p
    then if leb n sz
      then (copy_in p (add64 p.w 1) buf offset n >>= λ p'.
          ok (size, record p' { w = add64 p.w n % sz }, 0))
      else (copy_in p (add64 p.w 1) buf offset sz >>= λ p'.
          write_rest (record p' { w = add64 p.w sz % sz }) p.w p.r (add64 offset sz) buf size)
    else write_rest p p.w p.r offset buf size
