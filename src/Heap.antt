-- ===== src/Heap.antt =====
-- The heap of a user program: `malloc`, `free` and `sbrk` of libc/malloc.c, above the system call `brk`. The
-- 500 nodes record the blocks; a block that was freed is given out again.
pub mod Best
pub mod Blocks
pub mod Malloc
pub mod Free
pub mod Break
pub mod Tests
use preemptive_unix_os.Base.{
  ℕ, zero, suc, ◌+◌, ◌≤◌, ◌<◌, ◌≡◌, ◌≢◌, ◌⊎◌, Bool, true, false, ◌&&◌, not, Run, ok, fault, ◌>>=◌,
  if◌then◌else◌, ltb, leb, ◌==◌, update, minus_one, add64, Ensures,
}
use preemptive_unix_os.Vma.{uheapstart, uheaplimit}

-- What `brk` is to a program: the call, and the end of its heap.
pub record Brk : Type 1 where
  pub Space : Type 0
  pub brk : Space → ℕ → Run (ℕ × Space)
  pub end_of : Space → ℕ

-- The promises of `brk` that the library relies on.
abbrev pub Grants : (b : Brk) → b.Space → ℕ → ℕ × b.Space → Type 0
Grants b s a (ret, s') =
    ((uheapstart ≤ b.end_of s') × (b.end_of s' ≤ uheaplimit))
    × (b.end_of s ≤ b.end_of s')
    × (a ≡ 0 → (ret ≡ b.end_of s) × (b.end_of s' ≡ b.end_of s))
    × (uheapstart ≤ a → a ≤ uheaplimit → (ret ≡ 0) × (a ≤ b.end_of s'))
    × (a ≢ 0 → (a < uheapstart) ⊎ (uheaplimit < a) → ret ≡ minus_one)

pub record BrkLaws (b : Brk) : Type 1 where
  pub Valid : b.Space → Type 0
  pub grants :
      (s : b.Space) (a : ℕ) → Valid s → Ensures (λ r. Valid r.1 × Grants b s a r) (b.brk s a)

-- `struct node`
pub record Node : Type 0 where
  pub size : ℕ
  pub mem_ptr : ℕ
  pub is_free : ℕ

-- `#define n 500`
abbrev pub num_nodes : ℕ
num_nodes = 500

-- The loop's variables: `flag`, `bestfit` and `bestindex`.
pub record Choice : Type 0 where
  pub flag : Bool
  pub bestfit : ℕ
  pub bestindex : ℕ

unfoldable pub consider : (ℕ → Node) → ℕ → ℕ → Choice → Choice
consider nodes size i c =
    if (nodes i).is_free == 1 && leb size (nodes i).size
    then (if ltb (nodes i).size c.bestfit
        then record { flag = true; bestfit = (nodes i).size; bestindex = i }
        else record c { flag = true })
    else c

-- The rounds that are left, from the node `i` on.
unfoldable pub choose_from : ℕ → (ℕ → Node) → ℕ → ℕ → Choice → Choice
choose_from zero nodes size i c = c
choose_from (suc k) nodes size i c = choose_from k nodes size (suc i) (consider nodes size i c)

unfoldable pub choose : (ℕ → Node) → ℕ → Choice
choose nodes size =
    choose_from num_nodes nodes size 0 (record { flag = false; bestfit = 100000000; bestindex = 0 })

-- `memset(p, 0, size)` of a block.
unfoldable pub clear : (ℕ → ℕ) → ℕ → ℕ → ℕ → ℕ
clear bytes p size a = if leb p a && ltb a (p + size) then 0 else bytes a

module _ (b : Brk) where
  -- The variables of the library, the bytes of the program, and its space.
  pub record Program : Type 0 where
    pub nodes : ℕ → Node
    pub index : ℕ
    pub heap_end : ℕ
    pub bytes : ℕ → ℕ
    pub space : b.Space

module _ {b : Brk} where
  -- The first call finds where the heap ends.
  unfoldable pub find_heap : Program b → Run (Program b)
  find_heap s =
      if s.heap_end == 0
      then (b.brk s.space 0 >>= λ (e, sp). ok (record s { heap_end = e; space = sp }))
      else ok s

  -- A new block on top of the heap, NULL where `brk` fails; there is no node behind the last one.
  unfoldable pub extend : ℕ → Program b → Run (ℕ × Program b)
  extend size s =
      let temp = s.heap_end in
      b.brk s.space (add64 temp size) >>= λ (ret, sp).
      if ret == 0
      then (if leb num_nodes s.index
          then fault
          else ok (
            temp,
            record {
              nodes = update s.nodes s.index (record { size = size; mem_ptr = temp; is_free = 0 });
              index = suc s.index;
              heap_end = add64 temp size;
              bytes = clear s.bytes temp size;
              space = sp;
            },
          ))
      else ok (0, record s { space = sp })

  unfoldable pub reuse : ℕ → ℕ → Program b → ℕ × Program b
  reuse size i s =
      let node = s.nodes i in
      (
        node.mem_ptr,
        record s {
          nodes = update s.nodes i (record node { is_free = 0 });
          bytes = clear s.bytes node.mem_ptr size;
        },
      )

  unfoldable pub malloc : ℕ → Program b → Run (ℕ × Program b)
  malloc size s =
      let c = choose s.nodes size in
      if c.flag then ok (reuse size c.bestindex s) else (find_heap s >>= λ s'. extend size s')

unfoldable pub free_from : ℕ → (ℕ → Node) → ℕ → ℕ → ℕ → Node
free_from zero nodes mem_ptr i = nodes
free_from (suc k) nodes mem_ptr i =
    let nodes' = update nodes i (record (nodes i) { is_free = 1 }) in
    free_from k (if (nodes i).mem_ptr == mem_ptr then nodes' else nodes) mem_ptr (suc i)

-- Its tests `increment < 0` and `brk(...) < 0` on unsigned numbers are never true.
unfoldable pub sbrk : (b : Brk) → ℕ → b.Space → Run (ℕ × b.Space)
sbrk b increment s = b.brk s 0 >>= λ (oldval, s').
    b.brk s' (add64 oldval increment) >>= λ (ret, s''). ok (oldval, s'')

module _ {b : Brk} where
  unfoldable pub free : ℕ → Program b → Program b
  free mem_ptr s =
      if mem_ptr == 0 then s else record s { nodes = free_from num_nodes s.nodes mem_ptr 0 }
