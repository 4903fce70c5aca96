-- ===== src/Tarfs/Node.antt =====
-- `struct tar_file` of include/sys/structs.h.
use preemptive_unix_os.Base.{ℕ, List}

-- `REGTYPE` is 0 and `DIRTYPE` is 5. `child`, `next` and `parent` are pointers, 0 for NULL. `start`
-- is the memory from the file's first byte on.
pub record TarFile : Type 0 where
  pub next : ℕ
  pub child : ℕ
  pub parent : ℕ
  pub file_name : List ℕ
  pub file_path : List ℕ
  pub file_size : ℕ
  pub start : List ℕ
  pub file_type : ℕ
  pub file_perm : ℕ

abbrev pub regtype : ℕ
regtype = 0

abbrev pub dirtype : ℕ
dirtype = 5
