-- ===== src/Status/Errno.antt =====
-- The `errno` numbers that cppboot/base/status.cc names, all of which Linux defines. The numbers
-- themselves are the platform's: `zero` is no error, and `other` is a number not named there.
use altas.Prelude.{ℕ, Bytes, ◌++◌, codes}
use altas.Status.{
  StatusCode, Status, new_status, k_aborted, k_already_exists, k_cancelled, k_deadline_exceeded,
  k_failed_precondition, k_invalid_argument, k_not_found, k_ok, k_out_of_range, k_permission_denied,
  k_resource_exhausted, k_unavailable, k_unimplemented, k_unknown,
}

pub data Errno : Type 0 where
  no_error : Errno
  einval enametoolong e2big edestaddrreq edom efault eilseq enoprotoopt enostr enotsock enotty :
      Errno
  eprototype espipe etimedout etime enodev enoent enomedium enxio esrch eexist eaddrnotavail : Errno
  ealready enotuniq eperm eacces enokey erofs enotempty eisdir enotdir eaddrinuse ebadf ebadfd :
      Errno
  ebusy echild eisconn eisnam enotblk enotconn epipe eshutdown etxtbsy eunatch enospc edquot : Errno
  emfile emlink enfile enobufs enodata enomem enosr eusers echrng efbig eoverflow erange enopkg :
      Errno
  enosys enotsup eafnosupport epfnosupport eprotonosupport esocktnosupport exdev eagain ecomm :
      Errno
  econnrefused econnaborted econnreset eintr ehostdown ehostunreach enetdown enetreset : Errno
  enetunreach enolck enolink enonet edeadlk estale ecanceled : Errno
  other : ℕ → Errno

unfoldable pub errno_to_status_code : Errno → StatusCode
errno_to_status_code no_error = k_ok
errno_to_status_code einval = k_invalid_argument
errno_to_status_code enametoolong = k_invalid_argument
errno_to_status_code e2big = k_invalid_argument
errno_to_status_code edestaddrreq = k_invalid_argument
errno_to_status_code edom = k_invalid_argument
errno_to_status_code efault = k_invalid_argument
errno_to_status_code eilseq = k_invalid_argument
errno_to_status_code enoprotoopt = k_invalid_argument
errno_to_status_code enostr = k_invalid_argument
errno_to_status_code enotsock = k_invalid_argument
errno_to_status_code enotty = k_invalid_argument
errno_to_status_code eprototype = k_invalid_argument
errno_to_status_code espipe = k_invalid_argument
errno_to_status_code etimedout = k_deadline_exceeded
errno_to_status_code etime = k_deadline_exceeded
errno_to_status_code enodev = k_not_found
errno_to_status_code enoent = k_not_found
errno_to_status_code enomedium = k_not_found
errno_to_status_code enxio = k_not_found
errno_to_status_code esrch = k_not_found
errno_to_status_code eexist = k_already_exists
errno_to_status_code eaddrnotavail = k_already_exists
errno_to_status_code ealready = k_already_exists
errno_to_status_code enotuniq = k_already_exists
errno_to_status_code eperm = k_permission_denied
errno_to_status_code eacces = k_permission_denied
errno_to_status_code enokey = k_permission_denied
errno_to_status_code erofs = k_permission_denied
errno_to_status_code enotempty = k_failed_precondition
errno_to_status_code eisdir = k_failed_precondition
errno_to_status_code enotdir = k_failed_precondition
errno_to_status_code eaddrinuse = k_failed_precondition
errno_to_status_code ebadf = k_failed_precondition
errno_to_status_code ebadfd = k_failed_precondition
errno_to_status_code ebusy = k_failed_precondition
errno_to_status_code echild = k_failed_precondition
errno_to_status_code eisconn = k_failed_precondition
errno_to_status_code eisnam = k_failed_precondition
errno_to_status_code enotblk = k_failed_precondition
errno_to_status_code enotconn = k_failed_precondition
errno_to_status_code epipe = k_failed_precondition
errno_to_status_code eshutdown = k_failed_precondition
errno_to_status_code etxtbsy = k_failed_precondition
errno_to_status_code eunatch = k_failed_precondition
errno_to_status_code enospc = k_resource_exhausted
errno_to_status_code edquot = k_resource_exhausted
errno_to_status_code emfile = k_resource_exhausted
errno_to_status_code emlink = k_resource_exhausted
errno_to_status_code enfile = k_resource_exhausted
errno_to_status_code enobufs = k_resource_exhausted
errno_to_status_code enodata = k_resource_exhausted
errno_to_status_code enomem = k_resource_exhausted
errno_to_status_code enosr = k_resource_exhausted
errno_to_status_code eusers = k_resource_exhausted
errno_to_status_code echrng = k_out_of_range
errno_to_status_code efbig = k_out_of_range
errno_to_status_code eoverflow = k_out_of_range
errno_to_status_code erange = k_out_of_range
errno_to_status_code enopkg = k_unimplemented
errno_to_status_code enosys = k_unimplemented
errno_to_status_code enotsup = k_unimplemented
errno_to_status_code eafnosupport = k_unimplemented
errno_to_status_code epfnosupport = k_unimplemented
errno_to_status_code eprotonosupport = k_unimplemented
errno_to_status_code esocktnosupport = k_unimplemented
errno_to_status_code exdev = k_unimplemented
errno_to_status_code eagain = k_unavailable
errno_to_status_code ecomm = k_unavailable
errno_to_status_code econnrefused = k_unavailable
errno_to_status_code econnaborted = k_unavailable
errno_to_status_code econnreset = k_unavailable
errno_to_status_code eintr = k_unavailable
errno_to_status_code ehostdown = k_unavailable
errno_to_status_code ehostunreach = k_unavailable
errno_to_status_code enetdown = k_unavailable
errno_to_status_code enetreset = k_unavailable
errno_to_status_code enetunreach = k_unavailable
errno_to_status_code enolck = k_unavailable
errno_to_status_code enolink = k_unavailable
errno_to_status_code enonet = k_unavailable
errno_to_status_code edeadlk = k_aborted
errno_to_status_code estale = k_aborted
errno_to_status_code ecanceled = k_cancelled
errno_to_status_code (other n) = k_unknown

-- `strerror` is the C library's: a parameter. `format("{}: {}", …)` is read as what it prints.
module _ (strerror : Errno → Bytes) where
  unfoldable pub message_for_errno_to_status : Errno → Bytes → Bytes
  message_for_errno_to_status e msg = msg ++ (codes ": " ++ strerror e)

  unfoldable pub errno_to_status : Errno → Bytes → Status
  unfolding message_for_errno_to_status
  errno_to_status e msg = new_status (errno_to_status_code e) (message_for_errno_to_status e msg)
