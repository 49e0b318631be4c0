-- ===== src/Netevent/Push.antt =====
-- The first part of `_ebpf_netevent_push_event` of netevent_ebpf_ext_event.c: the event is copied behind a
-- header into the buffer of the current CPU, which grows where it is too small. The second part is the call
-- of the hook. An event is given by its two addresses and the bytes between them; `event_id` reads the
-- EventId of the PktMon header. The early return for a NULL event and the
-- interrupt request level stand in Notify.
pub mod Bounds
use mathlib.Core.List.{◌++◌}
use ntosebpfext.Base.{
  ℕ, ◌+◌, ◌-◌, ◌%◌, ◌||◌, Option, none, some, List, [], ◌∷◌, ltb, leb, ◌==◌, if◌then◌else◌, length,
  take, drop,
}
use ntosebpfext.Kernel.Command.{Cmd, pure, ◌>>=◌, ◌>>◌}
use ntosebpfext.Kernel.Pool.{Bytes, Pool, Allocator, write_block, allocate, free_unless_null}
use ntosebpfext.HookProvider.State.{update}
use ntosebpfext.Netevent.Context.{EventMd, sizeof_data_header, pktmon_event_header_length}

-- `_event_buffers`, `_event_buffer_sizes` and `_cpu_count`, and the elements of the two arrays.
pub record EventBuffers : Type 0 where
  pub event_buffers : ℕ
  pub event_buffer_sizes : ℕ
  pub cpu_count : ℕ
  pub buffer : ℕ → ℕ
  pub size : ℕ → ℕ

-- `memcpy` of bytes to an offset of a block; what does not fit faults.
unfoldable pub write_at : ℕ → (offset : ℕ) → Bytes → Cmd Pool (Unit {0})
write_at p offset bytes h = elim (h.block p) [
  | none ↦ none
  | some c ↦
      if leb (offset + length bytes) (length c)
      then some (
        tt,
        record h {
          block =
              write_block h.block p
                (some (take offset c ++ (bytes ++ drop (offset + length bytes) c)));
        },
      )
      else none
]

-- The growth of the buffer of a CPU, `none` if there is no memory.
unfoldable pub grow_buffer :
    Allocator → (cpu total_size : ℕ) → EventBuffers → Cmd Pool (Option EventBuffers)
grow_buffer al cpu total_size b =
    if ltb (b.size cpu) total_size
    then (do
      p ← allocate al total_size
      if p == 0 then pure none else do
        free_unless_null (b.buffer cpu)
        pure (
            some
              (record b { buffer = update b.buffer cpu p; size = update b.size cpu total_size })))
    else pure (some b)

-- The three copies into the buffer: version and type of the header, the PktMon header, the payload.
unfoldable pub fill_buffer : (event_id : Bytes → ℕ) → ℕ → Bytes → Cmd Pool (Unit {0})
fill_buffer event_id p bytes = do
  write_at p 2 (1 ∷ 0 ∷ [])
  write_at p 0 ((event_id bytes % 256) ∷ [])
  write_at p sizeof_data_header (take pktmon_event_header_length bytes)
  write_at p (sizeof_data_header + pktmon_event_header_length)
      (drop pktmon_event_header_length bytes)

-- From the growth on: the event is lost (`none`), or it stands in the buffer with this context.
unfoldable pub finish_event :
    (event_id : Bytes → ℕ) (cpu total_size : ℕ)
    → Bytes
    → EventBuffers
    → Option EventBuffers
    → Cmd Pool (Option EventMd × EventBuffers)
finish_event event_id cpu total_size bytes b none = pure (none, b)
finish_event event_id cpu total_size bytes b (some b') = do
  fill_buffer event_id (b'.buffer cpu) bytes
  pure (
    some (record {
      data_meta = b'.buffer cpu;
      payload = b'.buffer cpu + (sizeof_data_header + pktmon_event_header_length);
      data_end = b'.buffer cpu + total_size;
    }),
    b',
  )

-- The part before the call of the hook, its early returns included.
unfoldable pub prepare_event :
    Allocator
    → (event_id : Bytes → ℕ) → (cpu event_start event_end : ℕ) → Bytes
    → EventBuffers
    → Cmd Pool (Option EventMd × EventBuffers)
prepare_event al event_id cpu event_start event_end bytes b =
    if leb event_end event_start
      || ltb (event_end - event_start) pktmon_event_header_length
      || (b.event_buffers == 0 || b.event_buffer_sizes == 0)
      || leb b.cpu_count cpu
    then pure (none, b)
    else do
      grown ← grow_buffer al cpu (sizeof_data_header + (event_end - event_start)) b
      finish_event event_id cpu (sizeof_data_header + (event_end - event_start)) bytes b grown
