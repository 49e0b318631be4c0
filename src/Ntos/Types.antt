-- ===== src/Ntos/Types.antt =====
-- The structures of the process hook: include/ebpf_ntos_hooks.h and ntos_ebpf_ext_process.c.
use ntosebpfext.Base.{ℕ, Bool}
use ntosebpfext.Kernel.Pool.{Bytes}

-- `process_operation_t`
pub data Operation : Type 0 where
  create delete : Operation

-- `process_md_t`. Pointers are addresses.
pub record ProcessMd : Type 0 where
  pub command_start : ℕ
  pub command_end : ℕ
  pub process_id : ℕ
  pub parent_process_id : ℕ
  pub creating_process_id : ℕ
  pub creating_thread_id : ℕ
  pub creation_time : ℕ
  pub exit_time : ℕ
  pub process_exit_code : ℕ
  pub operation : Operation
  pub token_sid_size : ℕ
  pub token_sid : Bytes

-- `TOKEN_SID_MAX_SIZE`
abbrev pub token_sid_max_size : ℕ
token_sid_max_size = 68

-- UNICODE_STRING; the lengths are in bytes.
pub record UnicodeString : Type 0 where
  pub length : ℕ
  pub maximum_length : ℕ
  pub buffer : ℕ

-- `RtlInitUnicodeString(s, NULL)`
abbrev pub null_string : UnicodeString
null_string = record { length = 0; maximum_length = 0; buffer = 0 }

-- `process_notify_context_t`
pub record NotifyContext : Type 0 where
  pub process_md : ProcessMd
  pub process : ℕ
  pub create_info : ℕ
  pub command_line : UnicodeString
  pub image_file_name : UnicodeString
  pub account_name : UnicodeString
  pub account_domain : UnicodeString
  pub account_lookup_done : Bool

-- `process_test_context_t`
pub record TestContext : Type 0 where
  pub base : NotifyContext
  pub account_name_initial_buffer : ℕ
  pub account_domain_initial_buffer : ℕ
