-- ===== src/Common/Codes.antt =====
-- The return values of the firmware's functions that return 0 or a negative errno.
use Prim.Native.Nat.{ℕ}
use mathlib.Core.Option.{Option}

-- The errno without its sign; those that only foreign code returns by their number.
pub data Errno : Type 0 where
  einval enodev enoent eio enomem enotsup eacces : Errno
  other_errno : ℕ → Errno

-- `none` is the return value 0.
abbrev pub Status : Type 0
Status = Option Errno
