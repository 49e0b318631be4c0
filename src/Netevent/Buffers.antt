-- ===== src/Netevent/Buffers.antt =====
-- The buffers of the CPUs in netevent_ebpf_ext_event.c: `ebpf_ext_register_netevent` allocates the two arrays
-- and a buffer for each CPU, `ebpf_ext_unregister_netevent` frees them. The elements of a new array are not
-- initialised, so that their values are an argument.
pub mod Holds
pub mod Create
pub mod Arrays
pub mod Grow
pub mod Release
pub mod Pushes
pub mod Undo
use ntosebpfext.Base.{ℕ, zero, suc, ◌+◌, ◌*◌, ◌||◌, ◌==◌, if◌then◌else◌}
use ntosebpfext.Kernel.Status.{status_success, status_insufficient_resources}
use ntosebpfext.Kernel.Command.{Cmd, pure, ◌>>=◌, ◌>>◌}
use ntosebpfext.Kernel.Pool.{Pool, Allocator, allocate, free, free_unless_null}
use ntosebpfext.HookProvider.State.{update}
use ntosebpfext.Netevent.Push.{EventBuffers}

-- `INIT_EVENT_BUFFER_SIZE`
abbrev pub init_event_buffer_size : ℕ
init_event_buffer_size = 4096

-- `sizeof(uint8_t*)` and `sizeof(size_t)`
abbrev pub sizeof_pointer : ℕ
sizeof_pointer = 8

-- The allocation of the two arrays; `buffers` and `sizes` are what the new blocks hold.
unfoldable pub allocate_arrays :
    Allocator → (cpu_count : ℕ) → (buffers sizes : ℕ → ℕ) → Cmd Pool EventBuffers
allocate_arrays al cpu_count buffers sizes = do
  p ← allocate al (cpu_count * sizeof_pointer)
  q ← allocate al (cpu_count * sizeof_pointer)
  pure (record {
    event_buffers = p;
    event_buffer_sizes = q;
    cpu_count = cpu_count;
    buffer = buffers;
    size = sizes;
  })

-- The loop that allocates the buffers of the CPUs from `i` on, `left` of them.
unfoldable pub allocate_buffers :
    Allocator → (left i : ℕ) → EventBuffers → Cmd Pool (ℕ × EventBuffers)
allocate_buffers al zero i b = pure (status_success, b)
allocate_buffers al (suc left) i b = do
  p ← allocate al init_event_buffer_size
  if p == 0
      then pure (
        status_insufficient_resources,
        record b { buffer = update b.buffer i 0; size = update b.size i init_event_buffer_size },
      )
      else allocate_buffers al left (i + 1)
          (record b { buffer = update b.buffer i p; size = update b.size i init_event_buffer_size })

-- The initialisation of the buffers, with its status.
unfoldable pub create_buffers :
    Allocator → (cpu_count : ℕ) → (buffers sizes : ℕ → ℕ) → Cmd Pool (ℕ × EventBuffers)
create_buffers al cpu_count buffers sizes = do
  b ← allocate_arrays al cpu_count buffers sizes
  if b.event_buffers == 0 || b.event_buffer_sizes == 0
      then pure (status_insufficient_resources, b)
      else allocate_buffers al cpu_count 0 b

-- The loop that frees the buffers of the CPUs from `i` on, `left` of them.
unfoldable pub release_loop : (left i : ℕ) → EventBuffers → Cmd Pool EventBuffers
release_loop zero i b = pure b
release_loop (suc left) i b = do
  free_unless_null (b.buffer i)
  release_loop left (i + 1) (record b { buffer = update b.buffer i 0 })

-- The array of the buffers, if there is one, with what it holds.
unfoldable pub release_array : EventBuffers → Cmd Pool EventBuffers
release_array b = if b.event_buffers == 0 then pure b else do
  b' ← release_loop b.cpu_count 0 b
  free b'.event_buffers
  pure (record b' { event_buffers = 0 })

-- The part of `ebpf_ext_unregister_netevent` behind the two providers.
unfoldable pub release_buffers : EventBuffers → Cmd Pool EventBuffers
release_buffers b = do
  free_unless_null b.event_buffer_sizes
  release_array (record b { event_buffer_sizes = 0 })
