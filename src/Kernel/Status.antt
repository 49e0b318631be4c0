-- ===== src/Kernel/Status.antt =====
-- NTSTATUS values as `uint32_t` numbers, and `ebpf_result_t`.
use ntosebpfext.Base.{arith, ℕ, ◌^◌, ◌≡◌, Bool, true, false, ltb}

-- NTSTATUS is signed: the negative values are those from `2 ^ 31` on.
abbrev pub nt_success : ℕ → Bool
nt_success status = ltb status (2 ^ 31)

abbrev pub status_success : ℕ
status_success = 0

abbrev pub status_pending : ℕ
status_pending = 0x103

abbrev pub status_buffer_overflow : ℕ
status_buffer_overflow = 0x80000005

abbrev pub status_unsuccessful : ℕ
status_unsuccessful = 0xC0000001

abbrev pub status_invalid_parameter : ℕ
status_invalid_parameter = 0xC000000D

abbrev pub status_no_memory : ℕ
status_no_memory = 0xC0000017

abbrev pub status_access_denied : ℕ
status_access_denied = 0xC0000022

abbrev pub status_buffer_too_small : ℕ
status_buffer_too_small = 0xC0000023

abbrev pub status_insufficient_resources : ℕ
status_insufficient_resources = 0xC000009A

abbrev pub status_nointerface : ℕ
status_nointerface = 0xC00002B9

-- The codes that the drivers return or test; `other` is any code of an eBPF program's invocation.
pub data EbpfResult : Type 0 where
  success no_memory invalid_argument access_denied operation_not_supported : EbpfResult
  other : ℕ → EbpfResult

abbrev pub is_success : EbpfResult → Bool
is_success success = true
is_success no_memory = false
is_success invalid_argument = false
is_success access_denied = false
is_success operation_not_supported = false
is_success (other _) = false

pub eq_of_is_success : (r : EbpfResult) → is_success r ≡ true → r ≡ success
eq_of_is_success r h = ground arith
