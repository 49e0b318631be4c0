-- ===== src/Ntos/Notify.antt =====
-- `_ebpf_process_create_process_notify_routine_ex` of ntos_ebpf_ext_process.c: the context of a process event is
-- filled, the hook is called, and the buffers that the account lookup put in place of the routine's own are
-- freed. The functions of the process manager and of tokens are parameters, and the count of
-- references to a token is left out. The two arrays on the stack are blocks of the pool.
pub mod Filled
pub mod Helpers
pub mod Balance
pub mod Returns
use ntosebpfext.Base.{
  ℕ, zero, suc, ◌+◌, Bool, true, false, not, ◌&&◌, Option, none, some, [], ◌∷◌, leb, ◌==◌,
  if◌then◌else◌,
}
use ntosebpfext.Kernel.Status.{nt_success}
use ntosebpfext.Kernel.Command.{Cmd, pure, ◌>>=◌, ◌>>◌, focus}
use ntosebpfext.Kernel.Pool.{Bytes, Pool, free}
use ntosebpfext.HookProvider.State.{Rundown, Sys}
use ntosebpfext.HookProvider.Calls.{call_hook}
use ntosebpfext.Ntos.Types.{
  Operation, ProcessMd, token_sid_max_size, UnicodeString, null_string, NotifyContext,
}

-- `ACCOUNT_STRING_INLINE_BYTES`
abbrev pub account_string_inline_bytes : ℕ
account_string_inline_bytes = 80

-- The fields of `PS_CREATE_NOTIFY_INFO` that the routine reads.
pub record CreateInfo : Type 0 where
  pub command_line : Option UnicodeString
  pub image_file_name : Option UnicodeString
  pub parent_process_id : ℕ
  pub creating_process_id : ℕ
  pub creating_thread_id : ℕ

-- `PsGetProcessCreateTimeQuadPart`, `PsGetProcessExitTime`, `PsGetProcessExitStatus`, `PsReferencePrimaryToken`,
-- `SeQueryInformationToken`, which gives its status and a block of the pool, the SID in that block,
-- `RtlValidSid`, `RtlLengthSid` and `RtlCopySid`, which gives its status and the bytes of its destination.
pub record ProcessFunctions : Type 0 where
  pub create_time : ℕ → ℕ
  pub exit_time : ℕ
  pub exit_status : ℕ → ℕ
  pub primary_token : ℕ → ℕ
  pub query_user : ℕ → Cmd Pool (ℕ × ℕ)
  pub sid : ℕ → Bytes
  pub valid_sid : Bytes → Bool
  pub length_sid : Bytes → ℕ
  pub copy_sid : (room : ℕ) (destination sid : Bytes) → ℕ × Bytes

unfoldable pub zero_bytes : ℕ → Bytes
zero_bytes zero = []
zero_bytes (suc n) = 0 ∷ zero_bytes n

-- `.process_md = {0}`
abbrev pub no_metadata : ProcessMd
no_metadata = record {
  command_start = 0;
  command_end = 0;
  process_id = 0;
  parent_process_id = 0;
  creating_process_id = 0;
  creating_thread_id = 0;
  creation_time = 0;
  exit_time = 0;
  process_exit_code = 0;
  operation = Operation.create;
  token_sid_size = 0;
  token_sid = zero_bytes token_sid_max_size;
}

-- The string of one of the two arrays on the stack.
abbrev pub inline_string : ℕ → UnicodeString
inline_string stack_buffer = record {
  length = 0;
  maximum_length = account_string_inline_bytes;
  buffer = stack_buffer;
}

abbrev pub string_or_null : Option UnicodeString → UnicodeString
string_or_null none = null_string
string_or_null (some s) = s

module _ (pf : ProcessFunctions) where
  -- The copy of a valid SID, if it fits.
  unfoldable pub copy_token_sid : Bytes → ProcessMd → ProcessMd
  copy_token_sid sid md =
      if leb (pf.length_sid sid) token_sid_max_size
      then (let (status, bytes) = pf.copy_sid token_sid_max_size md.token_sid sid in
          if nt_success status
          then record md { token_sid = bytes; token_sid_size = pf.length_sid sid }
          else record md { token_sid = bytes })
      else md

  -- The SID of the primary token. The block of the query is freed only where the SID is valid.
  unfoldable pub read_token_sid : (process : ℕ) → ProcessMd → Cmd Pool ProcessMd
  read_token_sid process md = if pf.primary_token process == 0 then pure md else do
    (status, user) ← pf.query_user (pf.primary_token process)
    if nt_success status && not (user == 0) && pf.valid_sid (pf.sid user)
        then (do free user; pure (copy_token_sid (pf.sid user) md))
        else pure md

  -- The context before the test of `create_info`.
  abbrev pub initial_context :
      (process process_id create_info name_stack domain_stack : ℕ) → NotifyContext
  initial_context process process_id create_info name_stack domain_stack = record {
    process_md = record no_metadata {
      process_id = process_id;
      creation_time = pf.create_time process;
    };
    process = process;
    create_info = create_info;
    command_line = null_string;
    image_file_name = null_string;
    account_name = inline_string name_stack;
    account_domain = inline_string domain_stack;
    account_lookup_done = false;
  }

  -- The branch of a process that is created.
  unfoldable pub fill_create : CreateInfo → NotifyContext → Cmd Pool NotifyContext
  fill_create info c = do
    md ← read_token_sid c.process (record c.process_md {
      operation = Operation.create;
      parent_process_id = info.parent_process_id;
      creating_process_id = info.creating_process_id;
      creating_thread_id = info.creating_thread_id;
      command_start = (string_or_null info.command_line).buffer;
      command_end =
          (string_or_null info.command_line).buffer + (string_or_null info.command_line).length;
    })
    pure (record c {
      process_md = md;
      command_line = string_or_null info.command_line;
      image_file_name = string_or_null info.image_file_name;
    })

  -- The branch of a process that ends.
  unfoldable pub fill_delete : NotifyContext → NotifyContext
  fill_delete c = record c {
    process_md = record c.process_md {
      operation = Operation.delete;
      exit_time = pf.exit_time;
      process_exit_code = pf.exit_status c.process;
    };
  }

  unfoldable pub fill_context : Option CreateInfo → NotifyContext → Cmd Pool NotifyContext
  fill_context none c = pure (fill_delete c)
  fill_context (some info) c = fill_create info c

-- `if (p != NULL && p != stack_buffer) ExFreePool(p);`
unfoldable pub free_unless_inline : (stack_buffer p : ℕ) → Cmd Pool (Unit {0})
free_unless_inline stack_buffer p =
    if not (p == 0) && not (p == stack_buffer) then free p else pure tt

-- The end of the routine.
unfoldable pub release_account : (name_stack domain_stack : ℕ) → NotifyContext → Cmd Pool (Unit {0})
release_account name_stack domain_stack c = do
  free_unless_inline name_stack c.account_name.buffer
  free_unless_inline domain_stack c.account_domain.buffer

-- The memory of the routine, and `create_info->CreationStatus`.
pub record NotifyState (E R : Type 0) : Type 0 where
  pub hook : Sys E (NotifyContext × Pool) R
  pub pool : Pool
  pub creation_status : ℕ

module _ {E R : Type 0} where
  abbrev pub put_pool : Pool → NotifyState E R → NotifyState E R
  put_pool h s = record s { pool = h }

  abbrev pub on_pool : {A : Type 0} → Cmd Pool A → Cmd (NotifyState E R) A
  on_pool = focus (λ s. s.pool) put_pool

abbrev pub is_some : {A : Type 0} → Option A → Bool
is_some none = false
is_some (some a) = true

module _ {E R : Type 0} (rd : Rundown R) (pf : ProcessFunctions) where
  -- The call of the hook: the programs run on the context and, through the helpers, on the pool.
  unfoldable pub notify_clients :
      (fuel : ℕ) (stops : Bool) (provider : ℕ) → NotifyContext → Cmd (NotifyState E R) NotifyContext
  notify_clients fuel stops provider c s =
      elim (call_hook rd fuel stops provider (c, s.pool) s.hook) [
        | none ↦ none
        | some (((c', pool'), verdict), hook') ↦ some (
          c',
          record s {
            hook = hook';
            pool = pool';
            creation_status = elim verdict [ none ↦ s.creation_status | some status ↦ status ];
          },
        )
      ]

  -- `_ebpf_process_create_process_notify_routine_ex`; `create_info` is the address of the information.
  unfoldable pub create_process_notify_routine :
      (fuel provider process process_id create_info : ℕ)
      → Option CreateInfo
      → (name_stack domain_stack : ℕ) → Cmd (NotifyState E R) (Unit {0})
  create_process_notify_routine fuel provider process process_id create_info info name_stack
        domain_stack =
      do
        c ← on_pool (
            fill_context pf info
              (initial_context pf process process_id create_info name_stack domain_stack))
        c' ← notify_clients fuel (is_some info) provider c
        on_pool (release_account name_stack domain_stack c')
