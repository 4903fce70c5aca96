-- ===== src/Pipe/Linear.antt =====
-- A pipe of sys/syscall.c whose bytes lie in one piece, from `r` to `w`, as all bytes of a pipe do
-- until a write reaches the end of the buffer.
use preemptive_unix_os.Base.{
  ℕ, ◌-◌, ◌^◌, ◌≤◌, ◌<◌, ◌≡◌, ◌⊎◌, List, minus_one, take, drop, length, add64,
}
use preemptive_unix_os.Pipe.{PipeNode}

-- `size` is an `int` in the source's comparisons.
pub record IsLinear (p : PipeNode) : Type 0 where
  pub storage : length p.pipe_buffer ≡ p.size
  pub small : p.size < 2 ^ 31
  pub nonempty : 0 < p.size
  pub cases : (p.w ≡ minus_one) × (p.r ≡ 0) ⊎ (p.w < p.size) × (p.r ≤ p.w)

-- How many bytes the pipe holds. `w + 1` wraps to 0 in an empty pipe.
abbrev pub held : PipeNode → ℕ
held p = add64 p.w 1 - p.r

-- How many bytes fit behind `w`.
abbrev pub room : PipeNode → ℕ
room p = p.size - add64 p.w 1

abbrev pub contents : PipeNode → List ℕ
contents p = take (held p) (drop p.r p.pipe_buffer)
