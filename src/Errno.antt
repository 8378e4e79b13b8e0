-- ===== src/Errno.antt =====
-- include/uapi/errno.h: the error numbers that the modelled code returns (negated), and the
-- results of fallible code.

pub data Errno : Type 0 where
  eperm enoent esrch eintr ebadf eagain enomem efault eexist einval efbig epipe erange eidrm
        enosys :
      Errno

-- A system call returns a number or a negated error number.
pub data Result {ℓ} (A : Type ℓ) : Type ℓ where
  ok : A → Result A
  err : Errno → Result A
