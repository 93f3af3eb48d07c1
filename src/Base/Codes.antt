-- ===== src/Base/Codes.antt =====
-- The return codes of the driver: 0 with the value that goes out through a pointer, or an error.

-- `failed` is a literal -1, `report_failed` the 1 of `ms9132_hid_report`, `not_found` the 1 of a
-- search without a result, `uninitialised` the value of a variable that was never written, and
-- `fault` stands for the read through a NULL pointer, which the kernel answers with an oops.
pub data Errno : Type 0 where
  einval enomem eperm ebusy erange enoent enodev failed report_failed not_found : Errno
  uninitialised fault etimedout : Errno

pub data Outcome {ℓ} (A : Type ℓ) : Type ℓ where
  ok : A → Outcome A
  fail : Errno → Outcome A
