-- ===== src/Errors.antt =====
-- The error numbers of errno.h that the sources return, without their sign.
use external_minigbm.Base.{ℕ}

abbrev pub enomem : ℕ
enomem = 12

abbrev pub einval : ℕ
einval = 22

abbrev pub enotsup : ℕ
enotsup = 95

abbrev pub efault : ℕ
efault = 14
