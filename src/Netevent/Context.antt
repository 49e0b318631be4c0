-- ===== src/Netevent/Context.antt =====
-- `_ebpf_netevent_program_context_create` and `_ebpf_netevent_program_context_destroy` of
-- netevent_ebpf_ext_event.c. The caller's data is given by its address and its bytes; the new context
-- points into it.
pub mod Roundtrip
use ntosebpfext.Base.{
  ℕ, ◌+◌, ◌-◌, Bool, true, false, not, ◌&&◌, ◌||◌, Option, none, some, List, ltb, leb, ◌==◌,
  if◌then◌else◌, length, take, drop,
}
use mathlib.Core.List.{[], ◌∷◌}
use ntosebpfext.Kernel.Status.{EbpfResult, success, no_memory, invalid_argument}
use ntosebpfext.Kernel.Command.{Cmd, pure, fault, ◌>>=◌, ◌>>◌}
use ntosebpfext.Kernel.Pool.{Bytes, Pool, Allocator, allocate, free}

-- `netevent_event_md_t`
pub record EventMd : Type 0 where
  pub data_meta : ℕ
  pub payload : ℕ
  pub data_end : ℕ

-- `sizeof(netevent_event_md_t)` and `sizeof(netevent_data_header_t)`: a type, a pad and a 16-bit version.
abbrev pub sizeof_event_md : ℕ
sizeof_event_md = 24

abbrev pub sizeof_data_header : ℕ
sizeof_data_header = 4

-- `PKTMON_EVENT_HEADER_LENGTH`
abbrev pub pktmon_event_header_length : ℕ
pktmon_event_header_length = 0x35

-- `NETEVENT_EVENT_TYPE_PKTMON_DROP` and `NETEVENT_EVENT_TYPE_PKTMON_FLOW`
abbrev pub is_supported : ℕ → Bool
is_supported type = type == 100 || type == 101

-- `header_ptr->type`, the first byte.
abbrev pub header_type : Bytes → ℕ
header_type [] = 0
header_type (type ∷ _) = type

-- `_ebpf_netevent_program_context_create`: the code, and on success the address of the new context with its
-- contents. `context_size` is the size of the structure around the context.
unfoldable pub event_context_create :
    Allocator
    → (context_size : ℕ)
    → (data_in : Option (ℕ × Bytes)) (context_in : Option EventMd) (context_size_in : ℕ)
      (has_context_out : Bool)
    → Cmd Pool (EbpfResult × Option (ℕ × EventMd))
event_context_create al context_size data_in none context_size_in has_context_out =
    pure (invalid_argument, none)
event_context_create al context_size none (some input) context_size_in has_context_out =
    pure (invalid_argument, none)
event_context_create al context_size (some (address, bytes)) (some input) context_size_in
      has_context_out =
    if ltb context_size_in sizeof_event_md
      || not has_context_out
      || ltb (length bytes) sizeof_data_header
    then pure (invalid_argument, none)
    else do
      p ← allocate al context_size
      if p == 0
          then pure (no_memory, none)
          else if is_supported (header_type bytes)
          then pure (
            success,
            some (
              p,
              record {
                data_meta = address;
                payload = address + (pktmon_event_header_length + sizeof_data_header);
                data_end = address + length bytes;
              },
            ),
          )
          else (do free p; pure (invalid_argument, none))

-- The bytes from one address to another, which stand in the caller's data; others fault.
abbrev pub span : (address : ℕ) → Bytes → (first last : ℕ) → Cmd Pool Bytes
span address bytes first last =
    if leb address first && leb last (address + length bytes)
    then pure (take (last - first) (drop (first - address) bytes))
    else fault

-- `_ebpf_netevent_program_context_destroy`: what is written to `context_out` and to `data_out`, `none` where
-- the size is set to 0. `context` is NULL, and then nothing is written, or a context with its address.
unfoldable pub event_context_destroy :
    (address : ℕ)
    → Bytes
    → Option (ℕ × EventMd)
    → (data_out : Bool) (data_size_out : ℕ) (context_out : Bool) (context_size_out : ℕ)
    → Cmd Pool (Option (Option EventMd × Option Bytes))
event_context_destroy address bytes none data_out data_size_out context_out context_size_out =
    pure none
event_context_destroy address bytes (some (p, md)) data_out data_size_out context_out
      context_size_out =
    do
      copied ←
          (if data_out && leb (md.data_end - md.data_meta) data_size_out
            then (do b ← span address bytes md.data_meta md.data_end; pure (some b))
            else pure none)
      free p
      pure (
          some (
            if context_out && leb sizeof_event_md context_size_out
                then some (record { data_meta = 0; payload = 0; data_end = 0 })
                else none,
            copied,
          ))
