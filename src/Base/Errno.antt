-- ===== src/Base/Errno.antt =====
-- The error numbers of <errno.h> that the code names.
use Prim.Native.Nat.{ℕ}

abbrev pub enoent : ℕ
enoent = 2

abbrev pub eio : ℕ
eio = 5

abbrev pub ebadf : ℕ
ebadf = 9

abbrev pub eagain : ℕ
eagain = 11

abbrev pub enomem : ℕ
enomem = 12

abbrev pub eacces : ℕ
eacces = 13

abbrev pub enodev : ℕ
enodev = 19

abbrev pub einval : ℕ
einval = 22

abbrev pub enotsup : ℕ
enotsup = 95

abbrev pub etimedout : ℕ
etimedout = 110

abbrev pub eopnotsupp : ℕ
eopnotsupp = 95
