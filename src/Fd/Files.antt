-- ===== src/Fd/Files.antt =====
-- Descriptors of files of the archive in sys/syscall.c: `sys_read`, `sys_lseek` and `sys_getdents`.
use preemptive_unix_os.Base.{
  update, min, ℕ, ◌+◌, ◌-◌, ◌<◌, ◌≤◌, ◌≡◌, ◌≢◌, ◌^◌, List, some, get_elem?, length, take, drop,
}
use preemptive_unix_os.Strings.{IsText, terminated}
use preemptive_unix_os.Tarfs.Node.{TarFile, dirtype}
use preemptive_unix_os.Fd.{tarfile, Kernel, o_wronly}

-- Slot `fd`, from 2 on, holds the descriptor at `p`, which stands for a file of the archive.
pub record OpenFile (k : Kernel) (fd p : ℕ) : Type 0 where
  pub any_slot : 2 ≤ fd
  pub in_table : get_elem? k.table fd ≡ some p
  pub nonnull : p ≢ 0
  pub is_tarfile : (k.descriptors p).fd_type ≡ tarfile
  pub has_file : (k.descriptors p).file_ptr ≢ 0

abbrev pub file_of : Kernel → ℕ → TarFile
file_of k p = k.files (k.descriptors p).file_ptr

-- The file of the descriptor at `p` is a regular file with the bytes of `text`, and a NUL byte follows it in the archive.
pub record Holds (k : Kernel) (p : ℕ) (text rest : List ℕ) : Type 0 where
  pub regular : (file_of k p).file_type ≢ dirtype
  pub bytes : (file_of k p).start ≡ terminated text rest
  pub size : (file_of k p).file_size ≡ length text
  pub characters : IsText text
  pub small : length text < 2 ^ 64
  pub readable : (k.descriptors p).perm ≢ o_wronly

-- What a read of `count` bytes at `offset` promises: the bytes of `text` from there, as many as asked for
-- or left, with a NUL behind them in the buffer, and the offset moved on by their number.
abbrev pub Reads : List ℕ → ℕ → List ℕ → ℕ → ℕ → ℕ × Kernel × List ℕ → Type 0
Reads text p buf count offset (ret, k', buf') =
    (ret ≡ min count (length text - offset))
    × (buf' ≡ terminated (take count (drop offset text)) (drop (ret + 1) buf))
    × ((k'.descriptors p).offset ≡ offset + ret)

module _ (k : Kernel) (fd p : ℕ) (text rest : List ℕ) (opened : OpenFile k fd p)
    (holds : Holds k p text rest) where
  after_seek : ℕ → Kernel
  after_seek offset = record k {
    descriptors = update k.descriptors p (record (k.descriptors p) { offset = offset });
  }
