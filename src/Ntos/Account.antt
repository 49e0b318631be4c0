-- ===== src/Ntos/Account.antt =====
-- `_ebpf_process_resolve_account` of ntos_ebpf_ext_process.c and the helpers that use it. The SID functions
-- of the kernel are parameters.
pub mod Buffers
pub mod Ownership
pub mod Fits
use ntosebpfext.Base.{
  ℕ, ◌-◌, ◌%◌, ◌^◌, Bool, true, false, not, ◌&&◌, ◌||◌, List, ltb, ◌==◌, if◌then◌else◌,
}
use ntosebpfext.Kernel.Status.{
  nt_success, status_success, status_unsuccessful, status_buffer_too_small, status_buffer_overflow,
  status_insufficient_resources,
}
use ntosebpfext.Kernel.Command.{Cmd, pure, ◌>>=◌, ◌>>◌}
use ntosebpfext.Kernel.Pool.{Bytes, Pool, Allocator, allocate, free}
use ntosebpfext.Ntos.Types.{UnicodeString, null_string, NotifyContext}
use ntosebpfext.Ntos.Strings.{HelperResult, enoent, copy_unicode_string_to_buffer}

-- `RtlValidSid` and `SecLookupAccountSid`. The lookup takes the SID and the sizes and strings of the name and
-- the domain, and gives its status and both sizes and strings as it leaves them.
pub record SidFunctions : Type 0 where
  pub valid : Bytes → Bool
  pub lookup :
      Bytes
      → ℕ
      → UnicodeString
      → ℕ
      → UnicodeString
      → Cmd Pool (ℕ × ℕ × UnicodeString × ℕ × UnicodeString)

-- A buffer of at least `size` bytes: the status, the string, and whether its buffer is new.
unfoldable pub grow : Allocator → ℕ → UnicodeString → Cmd Pool (ℕ × UnicodeString × Bool)
grow al size s =
    if ltb s.maximum_length size
    then (do
      p ← allocate al size
      if p == 0
          then pure (status_insufficient_resources, s, false)
          else pure (status_success, record s { buffer = p; maximum_length = size % 2 ^ 16 }, true))
    else pure (status_success, s, false)

-- `if (…_heap_allocated) ExFreePool(…);`
abbrev pub free_if : Bool → ℕ → Cmd Pool (Unit {0})
free_if heap_allocated p = if heap_allocated then free p else pure tt

-- The label `Exit`, with the two strings as they stand there.
unfoldable pub resolve_exit :
    NotifyContext
    → (status : ℕ) (name domain : UnicodeString) (name_heap_allocated domain_heap_allocated : Bool)
    → Cmd Pool (ℕ × NotifyContext)
resolve_exit c status name domain name_heap_allocated domain_heap_allocated =
    if nt_success status
    then pure (
      status,
      record c { account_name = name; account_domain = domain; account_lookup_done = true },
    )
    else (do
      free_if name_heap_allocated name.buffer
      free_if domain_heap_allocated domain.buffer
      pure (
        status,
        record c {
          account_name = null_string;
          account_domain = null_string;
          account_lookup_done = true;
        },
      ))

module _ (sid : SidFunctions) (al : Allocator) where
  -- The second try, with the sizes that the first one returned.
  unfoldable pub resolve_again :
      NotifyContext
      → (name_size : ℕ) (name : UnicodeString) (domain_size : ℕ) (domain : UnicodeString)
      → Cmd Pool (ℕ × NotifyContext)
  resolve_again c name_size name domain_size domain =
      if ltb (2 ^ 16 - 1) name_size || ltb (2 ^ 16 - 1) domain_size
      then resolve_exit c status_buffer_overflow name domain false false
      else do
        (status₁, name₁, new_name) ← grow al name_size name
        if not (nt_success status₁) then resolve_exit c status₁ name₁ domain new_name false else do
          (status₂, domain₂, new_domain) ← grow al domain_size domain
          if not (nt_success status₂)
              then resolve_exit c status₂ name₁ domain₂ new_name new_domain
              else do
                (status, ns, name₃, ds, domain₃) ←
                    sid.lookup c.process_md.token_sid name_size name₁ domain_size domain₂
                resolve_exit c status name₃ domain₃ new_name new_domain

  -- `_ebpf_process_resolve_account`: the status, and the context as it leaves it.
  unfoldable pub resolve_account : NotifyContext → Cmd Pool (ℕ × NotifyContext)
  resolve_account c =
      if c.account_lookup_done
      then pure (
        if not (c.account_name.buffer == 0) && not (c.account_domain.buffer == 0)
            then status_success
            else status_unsuccessful,
        c,
      )
      else if c.process_md.token_sid_size == 0 || not (sid.valid c.process_md.token_sid)
      then resolve_exit c status_unsuccessful c.account_name c.account_domain false false
      else do
        (status, name_size, name, domain_size, domain) ←
            sid.lookup c.process_md.token_sid c.account_name.maximum_length c.account_name
              c.account_domain.maximum_length c.account_domain
        if status == status_buffer_too_small
            then resolve_again c name_size name domain_size domain
            else resolve_exit c status name domain false false

  -- `_ebpf_process_get_account_name`: the result, the bytes written and the context.
  unfoldable pub get_account_name :
      NotifyContext → (name_length : ℕ) → Cmd Pool ((HelperResult × Bytes) × NotifyContext)
  get_account_name c name_length = do
    (status, c') ← resolve_account c
    if not (nt_success status)
        then pure ((enoent, List.[]), c')
        else do r ← copy_unicode_string_to_buffer c'.account_name name_length; pure (r, c')

  -- `_ebpf_process_get_account_domain`
  unfoldable pub get_account_domain :
      NotifyContext → (domain_length : ℕ) → Cmd Pool ((HelperResult × Bytes) × NotifyContext)
  get_account_domain c domain_length = do
    (status, c') ← resolve_account c
    if not (nt_success status)
        then pure ((enoent, List.[]), c')
        else do r ← copy_unicode_string_to_buffer c'.account_domain domain_length; pure (r, c')

-- `_ebpf_process_get_image_path`
unfoldable pub get_image_path : NotifyContext → (path_length : ℕ) → Cmd Pool (HelperResult × Bytes)
get_image_path c path_length = copy_unicode_string_to_buffer c.image_file_name path_length
