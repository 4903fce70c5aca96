-- ===== src/Tarfs/Cwd/Getcwd.antt =====
-- `sys_getcwd` of sys/syscall.c keeps within the buffer.
use preemptive_unix_os.Base.{
  ℕ, ◌+◌, ◌≤◌, ◌<◌, ◌≡◌, refl, List, none, some, ok, length, drop, arith, leb, true, false,
}
use preemptive_unix_os.Strings.{IsText, terminated}
use preemptive_unix_os.Strings.Copy.{strlen_lem, strcpy_lem}
use preemptive_unix_os.Tarfs.Cwd.{sys_getcwd}

-- A path with its NUL that does not fit into `size` bytes gives NULL. One that fits into `size` bytes of the buffer is
-- written there, and the bytes behind it are left alone.
pub sys_getcwd_lem :
    (path rest buf : List ℕ) (size : ℕ)
    → IsText path
    → (size ≤ length path → sys_getcwd (terminated path rest) buf size ≡ ok none)
      × (length path < size
          → size ≤ length buf
          → sys_getcwd (terminated path rest) buf size
            ≡ ok (some (terminated path (drop (length path + 1) buf))))
unfolding sys_getcwd
sys_getcwd_lem path rest buf size t = (
  λ h.
      let small : leb size (length path) ≡ true = ground arith in
      rw (strlen_lem path rest t, small) refl,
  λ h k.
      let fits : leb size (length path) ≡ false = ground arith in
      rw (strlen_lem path rest t, fits, strcpy_lem buf path rest t (omega arith)) refl,
)
