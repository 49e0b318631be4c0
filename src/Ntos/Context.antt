-- ===== src/Ntos/Context.antt =====
-- `_ebpf_process_context_create` and `_ebpf_process_context_destroy` of ntos_ebpf_ext_process.c. The
-- fixed-size structures are values; what they take of the pool is the block at their address.
-- `context_size` is `sizeof(process_notify_context_t)`, `test_context_size` that of its wrapper.
pub mod Steps
pub mod Copies
pub mod Packed
pub mod Ownership
pub mod Creation
pub mod Roundtrip
use mathlib.Core.List.{◌++◌}
use ntosebpfext.Base.{
  ℕ, ◌+◌, ◌<◌, Bool, true, false, not, ◌&&◌, ◌||◌, Option, none, some, List, ltb, leb, ◌==◌,
  if◌then◌else◌, length, take, drop,
}
use ntosebpfext.Kernel.Status.{EbpfResult, success, no_memory, invalid_argument, is_success}
use ntosebpfext.Kernel.Command.{Cmd, pure, fault, ◌>>=◌, ◌>>◌}
use ntosebpfext.Kernel.Pool.{Bytes, Pool, Allocator, allocate, free, free_unless_null, write, read}
use ntosebpfext.Ntos.Types.{ProcessMd, UnicodeString, NotifyContext, TestContext}
use ntosebpfext.Ntos.Strings.{deep_copy_unicode_string_from_data}

-- The bytes of the four strings of a context.
abbrev pub total_length : NotifyContext → ℕ
total_length c =
    c.command_line.length + c.image_file_name.length + c.account_name.length
    + c.account_domain.length

-- A string that is longer than its buffer.
abbrev pub too_long : UnicodeString → Bool
too_long s = ltb s.maximum_length s.length

abbrev pub some_too_long : NotifyContext → Bool
some_too_long c =
    too_long c.command_line
    || too_long c.image_file_name
    || too_long c.account_name
    || too_long c.account_domain

-- The tests of the sizes that the caller gives.
abbrev pub bad_sizes : (context_size context_size_in : ℕ) → Bytes → NotifyContext → Bool
bad_sizes context_size context_size_in bytes input =
    ltb context_size_in context_size
    || ltb (length bytes) (total_length input)
    || some_too_long input

-- The four copies in a row; the first that fails ends them. `input` is the caller's context.
module _ (al : Allocator) (input : NotifyContext) where
  abbrev copy_domain : NotifyContext → Bytes → Cmd Pool (EbpfResult × NotifyContext)
  copy_domain c rest = do
    (result, s, rest') ←
        deep_copy_unicode_string_from_data al c.account_domain input.account_domain rest
    pure (result, record c { account_domain = s })

  abbrev copy_name : NotifyContext → Bytes → Cmd Pool (EbpfResult × NotifyContext)
  copy_name c rest = do
    (result, s, rest') ←
        deep_copy_unicode_string_from_data al c.account_name input.account_name rest
    if is_success result
        then copy_domain (record c { account_name = s }) rest'
        else pure (result, record c { account_name = s })

  abbrev copy_image : NotifyContext → Bytes → Cmd Pool (EbpfResult × NotifyContext)
  copy_image c rest = do
    (result, s, rest') ←
        deep_copy_unicode_string_from_data al c.image_file_name input.image_file_name rest
    if is_success result
        then copy_name (record c { image_file_name = s }) rest'
        else pure (result, record c { image_file_name = s })

  unfoldable pub copy_strings : NotifyContext → Bytes → Cmd Pool (EbpfResult × NotifyContext)
  copy_strings c rest = do
    (result, s, rest') ←
        deep_copy_unicode_string_from_data al c.command_line input.command_line rest
    if is_success result
        then copy_image (record c { command_line = s }) rest'
        else pure (result, record c { command_line = s })

-- The label `Exit` of the creation, reached with the test context allocated.
unfoldable pub create_exit : ℕ → NotifyContext → Cmd Pool (Unit {0})
create_exit test_context c = do
  free_unless_null c.command_line.buffer
  free_unless_null c.image_file_name.buffer
  free_unless_null c.account_name.buffer
  free_unless_null c.account_domain.buffer
  free test_context

-- The finished context: the command line is shown to the program by its two ends.
abbrev pub finish_context : NotifyContext → TestContext
finish_context c = record {
  base = record c {
    process_md = record (c.process_md) {
      command_start = c.command_line.buffer;
      command_end = c.command_line.buffer + c.command_line.length;
    };
  };
  account_name_initial_buffer = c.account_name.buffer;
  account_domain_initial_buffer = c.account_domain.buffer;
}

-- `_ebpf_process_context_create`: the code, and on success the address of the new context with its
-- contents. `context_in` is read only if `context_size_in` covers it.
unfoldable pub context_create :
    Allocator
    → (context_size test_context_size : ℕ)
    → (data_in : Option Bytes) (context_in : Option NotifyContext) (context_size_in : ℕ)
    → Cmd Pool (EbpfResult × Option (ℕ × TestContext))
context_create al context_size test_context_size data_in none context_size_in =
    pure (invalid_argument, none)
context_create al context_size test_context_size none (some input) context_size_in =
    pure (invalid_argument, none)
context_create al context_size test_context_size (some bytes) (some input) context_size_in =
    if bad_sizes context_size context_size_in bytes input then pure (invalid_argument, none) else do
      test_context ← allocate al test_context_size
      if test_context == 0 then pure (no_memory, none) else do
        (result, c) ← copy_strings al input (record input { process = 0; create_info = 0 }) bytes
        if is_success result
            then pure (success, some (test_context, finish_context c))
            else (do create_exit test_context c; pure (result, none))

-- One string of the packed output.
abbrev pub pack : UnicodeString → Cmd Pool Bytes
pack s = if ltb 0 s.length && not (s.buffer == 0) then read s.buffer s.length else pure List.[]

-- The caller's copy of the context, with the pointers of its metadata and of its strings reset.
abbrev pub context_for_caller : NotifyContext → NotifyContext
context_for_caller c = record c {
  process_md = record (c.process_md) { command_start = 0; command_end = 0 };
  command_line = record (c.command_line) { buffer = 0 };
  image_file_name = record (c.image_file_name) { buffer = 0 };
  account_name = record (c.account_name) { buffer = 0 };
  account_domain = record (c.account_domain) { buffer = 0 };
}

-- `data_out` if it is large enough: the bytes of the four strings.
unfoldable pub pack_strings :
    NotifyContext → (data_out : Bool) → (data_size_out : ℕ) → Cmd Pool (Option Bytes)
pack_strings c data_out data_size_out =
    if data_out && leb (total_length c) data_size_out
    then (do
      line ← pack c.command_line
      image ← pack c.image_file_name
      name ← pack c.account_name
      domain ← pack c.account_domain
      pure (some (line ++ (image ++ (name ++ domain)))))
    else pure none

-- A pointer that was replaced by another, or NULL.
abbrev pub replaced : (initial current : ℕ) → ℕ
replaced initial current = if initial == current then 0 else initial

-- The frees of the destruction, in the order of the source.
unfoldable pub destroy_frees : ℕ → TestContext → Cmd Pool (Unit {0})
destroy_frees test_context t = do
  free_unless_null t.base.command_line.buffer
  free_unless_null t.base.image_file_name.buffer
  free_unless_null (replaced t.account_name_initial_buffer t.base.account_name.buffer)
  free_unless_null (replaced t.account_domain_initial_buffer t.base.account_domain.buffer)
  free_unless_null t.base.account_name.buffer
  free_unless_null t.base.account_domain.buffer
  free test_context

-- `_ebpf_process_context_destroy`: what is written to `context_out` and to `data_out`, `none` where the
-- size is set to 0. `context` is NULL, and then nothing is written, or a context with its address.
unfoldable pub context_destroy :
    (context_size : ℕ)
    → Option (ℕ × TestContext)
    → (data_out : Bool) (data_size_out : ℕ) (context_out : Bool) (context_size_out : ℕ)
    → Cmd Pool (Option (Option NotifyContext × Option Bytes))
context_destroy context_size none data_out data_size_out context_out context_size_out = pure none
context_destroy context_size (some (p, t)) data_out data_size_out context_out context_size_out = do
  packed ← pack_strings t.base data_out data_size_out
  destroy_frees p t
  pure (
      some (
        if context_out && leb context_size context_size_out
            then some (context_for_caller t.base)
            else none,
        packed,
      ))
