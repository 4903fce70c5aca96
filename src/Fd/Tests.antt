-- ===== src/Fd/Tests.antt =====
-- Runs of the descriptor calls of sys/syscall.c on a process with a text file, a directory and a pipe.
use preemptive_unix_os.Base.{
  zero, suc, ◌&&◌, not, suc, ℕ, ◌<◌, ◌≤◌, ◌≡◌, ◌≢◌, refl, List, [], ◌∷◌, some, arith, Ensures,
  minus_one, true, false, Bool, if◌then◌else◌, ◌==◌, ◌>>=◌, get_elem?, minus_one,
}
use preemptive_unix_os.Strings.{terminated}
use preemptive_unix_os.Tarfs.Node.{TarFile, regtype, dirtype}
use preemptive_unix_os.Page.Align.{align_up}
use preemptive_unix_os.Page.Kmalloc.{kmalloc, heap_end}
use preemptive_unix_os.Fd.{
  sizeof_file_descriptor, kmalloc, tarfile, pipewrite, stdfiletype, FileDescriptor, Kernel,
  max_file_descriptors,
}
use preemptive_unix_os.Fd.Calls.{open_allowed, sys_open, sys_close, sys_dup, sys_pipe}
use preemptive_unix_os.Fd.Slots.{FirstFree}
use preemptive_unix_os.Fd.Open.{Opens, sys_open-Opens}
use preemptive_unix_os.Fd.Close.{Closes, sys_close-last, sys_dup-sys_close}
use preemptive_unix_os.Fd.Ends.{HasMemory, Pairs, sys_pipe-connects}
use preemptive_unix_os.Fd.Files.{OpenFile}
use preemptive_unix_os.Fd.Dirs.{Siblings}

abbrev hello : List ℕ
hello = 104 ∷ 101 ∷ 108 ∷ 108 ∷ 111 ∷ []

-- The file at 500 holds `hello`; the directory at 600 has the children 500 and 700.
abbrev files : ℕ → TarFile
files p =
    if p == 600
    then record {
      next = 0;
      child = 500;
      parent = 0;
      file_name = 98 ∷ [];
      file_path = [];
      file_size = 0;
      start = [];
      file_type = dirtype;
      file_perm = 493;
    }
    else record {
      next = if p == 500 then 700 else 0;
      child = 0;
      parent = 600;
      file_name = 97 ∷ [];
      file_path = [];
      file_size = 5;
      start = terminated hello (9 ∷ []);
      file_type = regtype;
      file_perm = 420;
    }

-- The descriptors: 100 the screen, 200 the file, 300 the directory, 400 and 401 a pipe's write end with one
-- and with two references.
abbrev descriptors : ℕ → FileDescriptor
descriptors p =
    if p == 200
    then record {
      fd_type = tarfile;
      offset = 1;
      perm = 0;
      ref_count = 1;
      file_ptr = 500;
      pipe_ptr = 0;
    }
    else if p == 300
    then record {
      fd_type = tarfile;
      offset = 1;
      perm = 0;
      ref_count = 1;
      file_ptr = 600;
      pipe_ptr = 0;
    }
    else if p == 400
    then record {
      fd_type = pipewrite;
      offset = 0;
      perm = 0;
      ref_count = 1;
      file_ptr = 0;
      pipe_ptr = 800;
    }
    else if p == 401
    then record {
      fd_type = pipewrite;
      offset = 0;
      perm = 0;
      ref_count = 2;
      file_ptr = 0;
      pipe_ptr = 800;
    }
    else record {
      fd_type = stdfiletype;
      offset = 0;
      perm = 0;
      ref_count = 1;
      file_ptr = 0;
      pipe_ptr = 0;
    }

abbrev with_table : List ℕ → Kernel
with_table table = record {
  heap = 0;
  descriptors = descriptors;
  pipes = λ _. record {
    r = 0;
    w = minus_one;
    pipe_buffer = [];
    size = 20480;
    is_write_closed = false;
    is_read_closed = false;
  };
  files = files;
  table = table;
  console = [];
}

-- The slots from `i` on are as given, and the ones before it are 0 to 2.
abbrev used_table : List ℕ
used_table = 100 ∷ 100 ∷ 100 ∷ 200 ∷ 300 ∷ 400 ∷ 0 ∷ 0 ∷ 0 ∷ 0 ∷ 0 ∷ 0 ∷ 0 ∷ 0 ∷ 0 ∷ []

abbrev fresh_table : List ℕ
fresh_table = 100 ∷ 100 ∷ 100 ∷ 0 ∷ 300 ∷ 401 ∷ 0 ∷ 0 ∷ 0 ∷ 0 ∷ 0 ∷ 0 ∷ 0 ∷ 0 ∷ 0 ∷ []

abbrev full_table : List ℕ
full_table =
    100 ∷ 100 ∷ 100 ∷ 200 ∷ 200 ∷ 200 ∷ 200 ∷ 200 ∷ 200 ∷ 200 ∷ 200 ∷ 200 ∷ 200 ∷ 200 ∷ 200 ∷ []

abbrev used : Kernel
used = with_table used_table

abbrev fresh : Kernel
fresh = with_table fresh_table

-- No slot from `from` up to `to` is NULL.
unfoldable busy : List ℕ → ℕ → ℕ → Bool
busy [] from to = true
busy (x ∷ xs) from zero = true
busy (x ∷ xs) zero (suc to) = not (x == 0) && busy xs zero to
busy (x ∷ xs) (suc from) (suc to) = busy xs from to

busy-used :
    (xs : List ℕ) (from to j : ℕ)
    → busy xs from to ≡ true
    → from ≤ j
    → j < to
    → get_elem? xs j ≢ some 0
unfolding busy
busy-used [] from to j b h k e = cc
busy-used (x ∷ xs) from zero j b h k e = absurd (omega arith)
busy-used (x ∷ xs) zero (suc to) zero b h k e = ground arith
busy-used (x ∷ xs) zero (suc to) (suc j) b h k e =
    busy-used xs zero to j (ground arith) (omega arith) (omega arith) e
busy-used (x ∷ xs) (suc from) (suc to) zero b h k e = absurd (omega arith)
busy-used (x ∷ xs) (suc from) (suc to) (suc j) b h k e =
    busy-used xs from to j b (omega arith) (omega arith) e

first_free :
    (k : Kernel) (from i : ℕ)
    → from ≤ i
    → i < max_file_descriptors
    → get_elem? k.table i ≡ some 0
    → busy k.table from i ≡ true
    → FirstFree k from i
first_free k from i h l f b = record {
  after = h;
  inside = l;
  free = f;
  used = λ j a c. busy-used k.table from i j b a c;
}

used-FirstFree : FirstFree used 3 6
unfolding busy
used-FirstFree = first_free used 3 6 (omega arith) (omega arith) refl refl

used-FirstFree_any : FirstFree used 0 6
unfolding busy
used-FirstFree_any = first_free used 0 6 (omega arith) (omega arith) refl refl

fresh-FirstFree : FirstFree fresh 3 3
unfolding busy
fresh-FirstFree = first_free fresh 3 3 (omega arith) (omega arith) refl refl

some_descriptor : (kmalloc 0 sizeof_file_descriptor).0 ≢ 0
unfolding kmalloc heap_end
some_descriptor e = ground arith

some_memory : (k : Kernel) → k.heap ≡ 0 → HasMemory k
unfolding kmalloc heap_end align_up
some_memory k e = rw e (record {
  for_buffer = λ z. ground arith;
  for_fd1 = λ z. ground arith;
  for_fd2 = λ z. ground arith;
  for_node = λ z. ground arith;
  apart = λ z. ground arith;
})

sys_open-Opens_example : Ensures (Opens used 500 0 6) (sys_open used 500 0)
unfolding open_allowed
sys_open-Opens_example =
    sys_open-Opens used refl 500 0 6 (λ e. ground arith) refl used-FirstFree
      (λ e. some_descriptor e)

sys_pipe-connects_example : Ensures (Pairs fresh [] 3 4) (sys_pipe fresh [])
sys_pipe-connects_example = sys_pipe-connects fresh [] refl (some_memory fresh refl) fresh-FirstFree

abbrev buffer : List ℕ
buffer = 1 ∷ 2 ∷ 3 ∷ 4 ∷ []

used-directory : OpenFile used 4 300
used-directory = record {
  any_slot = omega arith;
  in_table = refl;
  nonnull = λ e. ground arith;
  is_tarfile = refl;
  has_file = λ e. ground arith;
}

used-Siblings : Siblings files 500 (500 ∷ 700 ∷ [])
unfolding Siblings
used-Siblings = (refl, λ e. ground arith, (refl, λ e. ground arith, refl))

sys_close-last_example : Ensures (Closes used 5 400) (sys_close used 5)
sys_close-last_example =
    sys_close-last used 5 400 refl (omega arith) refl (λ e. ground arith) refl
      (λ e. absurd (ground arith), λ e f. ground arith)

sys_dup-sys_close_example :
    Ensures
      (λ (ret, k'). (get_elem? k'.table 6 ≡ some 400) × ((k'.pipes 800).is_write_closed ≡ true))
      (sys_dup used 5 >>= λ (_, k'). sys_close k' 5)
sys_dup-sys_close_example =
    sys_dup-sys_close used 5 400 6 refl (omega arith) refl (λ e. ground arith) used-FirstFree_any
      refl refl (λ e. ground arith)
