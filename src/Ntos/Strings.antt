-- ===== src/Ntos/Strings.antt =====
-- The copies of UNICODE_STRINGs of ntos_ebpf_ext_process.c.
pub mod Copied
use mathlib.Core.List.{◌++◌}
use ntosebpfext.Base.{
  ℕ, ◌<◌, Bool, true, false, not, ◌&&◌, Option, none, some, List, ltb, leb, ◌==◌, if◌then◌else◌,
  length, take, drop,
}
use ntosebpfext.Kernel.Status.{EbpfResult, success, no_memory}
use ntosebpfext.Kernel.Command.{Cmd, pure, fault, ◌>>=◌, ◌>>◌}
use ntosebpfext.Kernel.Pool.{Bytes, Pool, Allocator, allocate, write, read}
use ntosebpfext.Ntos.Types.{UnicodeString, null_string}

-- The next `n` bytes of the caller's data; reading past its end faults.
abbrev pub next_bytes : ℕ → Bytes → Cmd Pool Bytes
next_bytes n rest = if leb n (length rest) then pure (take n rest) else fault

-- `_deep_copy_unicode_string_from_data`: the code, `*dest`, and what is left of the data.
unfoldable pub deep_copy_unicode_string_from_data :
    Allocator
    → (dest src_descriptor : UnicodeString) → Bytes
    → Cmd Pool (EbpfResult × UnicodeString × Bytes)
deep_copy_unicode_string_from_data al dest src rest =
    if src.length == 0 then pure (success, null_string, rest) else do
      buffer ← allocate al src.maximum_length
      if buffer == 0 then pure (no_memory, record dest { buffer = 0 }, rest) else do
        bytes ← next_bytes src.length rest
        write buffer bytes
        pure (
          success,
          record { length = src.length; maximum_length = src.maximum_length; buffer = buffer },
          drop src.length rest,
        )

-- A status of a helper: a length, or a negative error number.
pub data HelperResult : Type 0 where
  copied : ℕ → HelperResult
  einval enoent : HelperResult

-- `_copy_unicode_string_to_buffer`: the result, and the bytes written to `dest`.
unfoldable pub copy_unicode_string_to_buffer :
    UnicodeString → (dest_length : ℕ) → Cmd Pool (HelperResult × Bytes)
copy_unicode_string_to_buffer source dest_length =
    if ltb dest_length source.length
    then pure (einval, List.[])
    else if not (source.buffer == 0) && ltb 0 source.length
    then (do bytes ← read source.buffer source.length; pure (copied source.length, bytes))
    else pure (copied 0, List.[])
