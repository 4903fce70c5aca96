-- ===== src/Pipe/Drain.antt =====
-- `sys_read` on a pipe of sys/syscall.c whose bytes lie in one piece.
use preemptive_unix_os.Base.{
  drop_all, [], min, ℕ, ◌+◌, ◌-◌, ◌%◌, ◌≤◌, ◌<◌, ◌≡◌, ◌∙◌, refl, inl, inr, List, ◌++◌, arith,
  Ensures, ok, splice, take, drop, length, length-take, length-drop, splice-zero, drop-drop,
  drop-take, take-take, add64, ap, Bool-cases, true, false, sym, leb,
}
use native.Mathlib.Nat.{mod-eq_of_lt}
use preemptive_unix_os.Pipe.{
  PipeNode, ReadResult, copy_out, emptied, read_part, read_all, is_full, is_empty, read_partial,
  pipe_read,
}
use preemptive_unix_os.Pipe.Linear.{IsLinear, contents, held}

-- What a read of `n` bytes leaves in the caller's buffer.
abbrev received : PipeNode → List ℕ → ℕ → List ℕ
received p buf n = splice buf 0 (take n (drop p.r p.pipe_buffer))

copy_out-ok :
    (p : PipeNode) (n : ℕ) (buf : List ℕ)
    → p.r + n ≤ length p.pipe_buffer
    → n ≤ length buf
    → copy_out p p.r n buf 0 ≡ ok (received p buf n)
unfolding copy_out
copy_out-ok p n buf h k =
    ground (arith, length-take n (drop p.r p.pipe_buffer), length-drop p.r p.pipe_buffer)

module _ {p : PipeNode} (v : IsLinear p) (pos : 0 < held p) where
  pub not_empty : is_empty p ≡ false
  unfolding is_empty
  not_empty = ground (arith, v.cases)

  full_means : is_full p ≡ true → (held p ≡ p.size) × (p.r ≡ 0)
  unfolding is_full
  full_means h = ground (arith, v.cases)

  bounded : (p.r + held p ≤ length p.pipe_buffer) × (p.w ≡ p.r + held p - 1)
  bounded = ground (arith, v.cases, v.storage)

  module _ (buf : List ℕ) (count : ℕ) where
    read_all-ok :
        held p ≤ length buf
        → read_all p buf (held p) ≡ ok (held p, emptied p, received p buf (held p))
    unfolding read_all
    read_all-ok fits = ground (arith, copy_out-ok p (held p) buf, bounded)

    read_part-ok :
        (r' : ℕ)
        → count < held p
        → count ≤ length buf
        → read_part p r' buf count ≡ ok (count, record p { r = r' }, received p buf count)
    unfolding read_part
    read_part-ok r' part fits = ground (arith, copy_out-ok p count buf, bounded)

    read_partial-all :
        held p ≤ count
        → held p ≤ length buf
        → read_partial p buf count ≡ ok (held p, emptied p, received p buf (held p))
    unfolding read_partial
    read_partial-all all fits = ground (arith, v.cases, read_all-ok)

    read_partial-part :
        count < held p
        → count ≤ length buf
        → read_partial p buf count ≡ ok (count, record p { r = p.r + count }, received p buf count)
    unfolding read_partial
    read_partial-part part fits = ground (arith, v.cases, read_part-ok (p.r + count))

    pipe_read-all :
        held p ≤ count
        → held p ≤ length buf
        → pipe_read p buf count ≡ ok (held p, emptied p, received p buf (held p))
    unfolding pipe_read
    pipe_read-all all fits = elim (Bool-cases (is_full p)) [
      | inl e ↦ rw (not_empty, e) (ground (arith, full_means e, read_all-ok))
      | inr e ↦ rw (not_empty, e) (read_partial-all all fits)
    ]

    pipe_read-part :
        count < held p
        → count ≤ length buf
        → pipe_read p buf count ≡ ok (count, record p { r = p.r + count }, received p buf count)
    unfolding pipe_read
    pipe_read-part part fits = elim (Bool-cases (is_full p)) [
      | inl e ↦
          rw (not_empty, e)
            (ground (
              arith,
              full_means e,
              v.small,
              read_part-ok (add64 p.r count % p.size),
              mod-eq_of_lt {n = add64 p.r count} {m = p.size},
            ))
      | inr e ↦ rw (not_empty, e) (read_partial-part part fits)
    ]

    received-eq :
        (n : ℕ) → n ≤ held p → n ≤ length buf → received p buf n ≡ take n (contents p) ++ drop n buf
    received-eq n h l =
        let len : length (take n (drop p.r p.pipe_buffer)) ≡ n =
          omega (
            arith,
            bounded,
            length-take n (drop p.r p.pipe_buffer),
            length-drop p.r p.pipe_buffer,
          ) in
        splice-zero buf (take n (drop p.r p.pipe_buffer)) (omega arith)
        ∙ ap (λ k. take n (drop p.r p.pipe_buffer) ++ drop k buf) len
        ∙ ap (λ l'. l' ++ drop n buf) (sym (take-take n (held p) (drop p.r p.pipe_buffer) h))

    rest-contents :
        count < held p → contents (record p { r = p.r + count }) ≡ drop count (contents p)
    rest-contents part =
        let e : add64 p.w 1 - (p.r + count) ≡ held p - count = ground (arith, v.cases) in
        ap (λ k. take k (drop (p.r + count) p.pipe_buffer)) e
        ∙ ap (λ l. take (held p - count) l) (sym (drop-drop count p.r p.pipe_buffer))
        ∙ sym (drop-take count (held p) (drop p.r p.pipe_buffer))

    rest-IsLinear : count < held p → IsLinear (record p { r = p.r + count })
    rest-IsLinear part = ground (arith, v.cases, v.storage, v.small, v.nonempty)

    emptied-IsLinear : IsLinear (emptied p)
    emptied-IsLinear = ground (arith, v.storage, v.small, v.nonempty)

-- What a read of up to `count` bytes promises: it takes the bytes that were written first, as many as
-- there are up to `count`, puts them at the start of the caller's buffer and leaves the others.
abbrev pub Drains : PipeNode → List ℕ → ℕ → ReadResult → Type 0
Drains p buf count (n, p', out) =
    (n ≡ min count (held p))
    × (out ≡ take n (contents p) ++ drop n buf)
    × (contents p' ≡ drop n (contents p))
    × IsLinear p'

length-contents : {p : PipeNode} → IsLinear p → length (contents p) ≡ held p
length-contents {p} v = ground (
  arith,
  v.cases,
  v.storage,
  length-take (held p) (drop p.r p.pipe_buffer),
  length-drop p.r p.pipe_buffer,
)

contents-emptied : (p : PipeNode) → contents (emptied p) ≡ []
contents-emptied p = refl

-- A read of a pipe that holds bytes, and holds them in one piece, drains it (`Drains`) and does not
-- fault, if the caller's buffer has room for what it takes.
pub pipe_read-Drains :
    {p : PipeNode} (buf : List ℕ) (count : ℕ)
    → IsLinear p
    → 0 < held p
    → min count (held p) ≤ length buf
    → Ensures (Drains p buf count) (pipe_read p buf count)
pipe_read-Drains {p} buf count v pos fits = elim (Bool-cases (leb (held p) count)) [
  | inl all ↦ rw (pipe_read-all v pos buf count (ground arith) (ground arith)) (
    ground arith,
    received-eq v pos buf count (held p) (omega arith) (ground arith),
    sym (drop_all (held p) (contents p) (omega (arith, length-contents v))),
    emptied-IsLinear v pos buf count,
  )
  | inr part ↦ rw (pipe_read-part v pos buf count (ground arith) (ground arith)) (
    ground arith,
    received-eq v pos buf count count (ground arith) (ground arith),
    rest-contents v pos buf count (ground arith),
    rest-IsLinear v pos buf count (ground arith),
  )
]
