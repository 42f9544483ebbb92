-- ===== src/Prelude/Ints.antt =====
-- Return codes: a C `int`, `negsuc n` being -(n + 1).
use Prim.Native.Nat.{ℕ}
use mathlib.Core.Bool.{Bool, true, false}

pub data ℤ : Type 0 where
  pos : ℕ → ℤ
  negsuc : ℕ → ℤ

-- `EOF`, the -1 of most failures.
abbrev pub eof : ℤ
eof = negsuc 0

abbrev pub success : ℤ
success = pos 0

-- `-ENOMEM` (12), `-EFAULT` (14), `-EEXIST` (17), `-EINVAL` (22), `-ENOENT` (2) of include/errno.h.
abbrev pub enomem : ℤ
enomem = negsuc 11

abbrev pub efault : ℤ
efault = negsuc 13

abbrev pub eexist : ℤ
eexist = negsuc 16

abbrev pub einval : ℤ
einval = negsuc 21

abbrev pub enoent : ℤ
enoent = negsuc 1

-- `x < 0`
abbrev pub is_neg : ℤ → Bool
is_neg (pos n) = false
is_neg (negsuc n) = true
