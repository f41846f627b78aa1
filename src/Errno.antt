-- ===== src/Errno.antt =====
-- Return codes: the errors of the kernel that the code names, and the three of xcpfs.h for zones.
use xcpfs.Base.{Option}

pub data Errno : Type 0 where
  eperm enoent eio eagain enomem eexist einval enametoolong enotempty enokey eopnotsupp : Errno
  emaxopen emaxactive ezone : Errno

-- An `int` that is 0 or a negated error; `none` is 0.
abbrev pub Ret : Type 0
Ret = Option Errno
