-- ===== src/Utilities/Flags.antt =====
-- utils/utilities.h: the flag macros. For a flag of one bit, `n & f` is tested by division, which
-- the arithmetic tactics read.
use file_storage_server.Base.{
  ℕ, ◌+◌, ◌-◌, ◌/◌, ◌%◌, ◌≡◌, Bool, true, false, arith, ◌==◌, if◌then◌else◌,
}

abbrev pub o_noflag : ℕ
o_noflag = 1

abbrev pub o_create : ℕ
o_create = 2

abbrev pub o_lock : ℕ
o_lock = 4

-- `CHK_FLAG(n, f)`, `SET_FLAG(n, f)` and `CLR_FLAG(n, f)`
abbrev pub chk_flag : ℕ → ℕ → Bool
chk_flag n f = n / f % 2 == 1

unfoldable pub set_flag : ℕ → ℕ → ℕ
set_flag n f = if chk_flag n f then n else n + f

unfoldable pub clr_flag : ℕ → ℕ → ℕ
clr_flag n f = if chk_flag n f then n - f else n

-- What SET_FLAG and CLR_FLAG do to the flag itself and to the other one that a file can have.
pub chk-set_lock : (n : ℕ) → chk_flag (set_flag n o_lock) o_lock ≡ true
unfolding set_flag
chk-set_lock n = ground arith

pub chk-clr_lock : (n : ℕ) → chk_flag (clr_flag n o_lock) o_lock ≡ false
unfolding clr_flag
chk-clr_lock n = ground arith

pub create-set_lock : (n : ℕ) → chk_flag (set_flag n o_lock) o_create ≡ chk_flag n o_create
unfolding set_flag
create-set_lock n = ground arith

pub create-clr_lock : (n : ℕ) → chk_flag (clr_flag n o_lock) o_create ≡ chk_flag n o_create
unfolding clr_flag
create-clr_lock n = ground arith

pub lock-clr_create : (n : ℕ) → chk_flag (clr_flag n o_create) o_lock ≡ chk_flag n o_lock
unfolding clr_flag
lock-clr_create n = ground arith

pub chk-clr_create : (n : ℕ) → chk_flag (clr_flag n o_create) o_create ≡ false
unfolding clr_flag
chk-clr_create n = ground arith
