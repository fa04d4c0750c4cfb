-- ===== src/UrlCopy/Errno.antt =====
-- The Linux numbers of the errors that the code names.
use fts.Common.{ℤ, pos}

abbrev pub eperm : ℤ
eperm = pos 1

abbrev pub enoent : ℤ
enoent = pos 2

abbrev pub eintr : ℤ
eintr = pos 4

abbrev pub e2big : ℤ
e2big = pos 7

abbrev pub eacces : ℤ
eacces = pos 13

abbrev pub eexist : ℤ
eexist = pos 17

abbrev pub enotdir : ℤ
enotdir = pos 20

abbrev pub eisdir : ℤ
eisdir = pos 21

abbrev pub einval : ℤ
einval = pos 22

abbrev pub efbig : ℤ
efbig = pos 27

abbrev pub enospc : ℤ
enospc = pos 28

abbrev pub erofs : ℤ
erofs = pos 30

abbrev pub enametoolong : ℤ
enametoolong = pos 36

abbrev pub eprotonosupport : ℤ
eprotonosupport = pos 93

abbrev pub etimedout : ℤ
etimedout = pos 110

abbrev pub ecanceled : ℤ
ecanceled = pos 125
