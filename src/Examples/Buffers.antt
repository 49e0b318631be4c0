-- ===== src/Examples/Buffers.antt =====
-- One CPU with a buffer, an event of 60 bytes that is pushed on it, and an initialisation that runs out of
-- memory over an array with an address in it.
use ntosebpfext.Base.{
  ◌==◌, ◌≢◌, if◌then◌else◌, ℕ, ◌≡◌, refl, none, some, true, List, [], ◌∷◌, arith, ltb,
}
use ntosebpfext.Kernel.Status.{nt_success}
use ntosebpfext.Kernel.Command.{Returns, ◌>>=◌, of_Returns}
use ntosebpfext.Kernel.Pool.{Pool, Allocator, allocate, write_block}
use ntosebpfext.Netevent.Context.{header_type}
use ntosebpfext.Netevent.Push.{EventBuffers, prepare_event}
use ntosebpfext.Netevent.Buffers.{
  allocate_arrays, allocate_buffers, create_buffers, release_buffers,
}
use ntosebpfext.Netevent.Buffers.Holds.{HoldsBuffers}
use ntosebpfext.Netevent.Buffers.Pushes.{
  Push, create_push_release, prepare_event-HoldsBuffers, release_buffers-create_buffers,
}
use ntosebpfext.Netevent.Buffers.Undo.{create_and_release_wild}
use ntosebpfext.Examples.EventContext.{zeros, length-zeros, next_block, allocator, empty}

abbrev pub one_cpu : Pool
one_cpu = record {
  block = λ a.
      if 700 == a
      then some (zeros 8)
      else if 800 == a
      then some (zeros 8)
      else if 900 == a
      then some (zeros 10)
      else none;
  requests = 3;
}

abbrev pub one_buffer : EventBuffers
one_buffer = record {
  event_buffers = 700;
  event_buffer_sizes = 800;
  cpu_count = 1;
  buffer = λ cpu. 900;
  size = λ cpu. 10;
}

pub one_cpu-HoldsBuffers : HoldsBuffers empty.block one_buffer 1 one_cpu
one_cpu-HoldsBuffers = record {
  buffers_new = record { ne_null = ground arith; live = refl; unused = refl };
  sizes_new = record { ne_null = ground arith; live = refl; unused = refl };
  arrays_apart = ground arith;
  new = λ c lt. record { ne_null = ground arith; live = refl; unused = refl };
  sized = λ c lt. (zeros 10, refl, length-zeros 10);
  apart = λ c d lc ld ne e. ne (omega (arith, lc, ld));
  not_buffers = λ c lt. ground arith;
  not_sizes = λ c lt. ground arith;
  frame = λ a na ns nb. ground (arith, na, ns, nb 0 (omega arith));
}

prepare_event-HoldsBuffers_example :
    Returns
      (λ (out, b') h'. HoldsBuffers empty.block b' 1 h' × (b'.cpu_count ≡ 1))
      (prepare_event allocator header_type 0 500 560 (zeros 60) one_buffer one_cpu)
prepare_event-HoldsBuffers_example =
    prepare_event-HoldsBuffers allocator empty.block header_type 0 500 560 (zeros 60) one_buffer
      one_cpu (length-zeros 60) one_cpu-HoldsBuffers

-- In the empty pool there is memory for the buffer of one CPU.
created_once :
    (status : ℕ) (b : EventBuffers) (h : Pool)
    → create_buffers allocator 1 (λ c. 77) (λ c. 0) empty ≡ some ((status, b), h)
    → nt_success status ≡ true
unfolding create_buffers allocate_arrays allocate_buffers allocate
created_once status b h run =
    of_Returns (λ (st, b') h'. nt_success st ≡ true)
      (create_buffers allocator 1 (λ c. 77) (λ c. 0) empty) (status, b) h refl run

abbrev events : List Push
events =
    (record { cpu = 0; event_start = 500; event_end = 560; bytes = zeros 60 })
    ∷ (record { cpu = 0; event_start = 500; event_end = 5500; bytes = zeros 5000 })
    ∷ []

release_buffers-create_buffers_example :
    Returns
      (λ b'' h'.
        ((a : ℕ) → h'.block a ≡ none) × (b''.event_buffers ≡ 0) × (b''.event_buffer_sizes ≡ 0))
      (create_push_release allocator header_type 1 (λ c. 77) (λ c. 0) events empty)
release_buffers-create_buffers_example =
    release_buffers-create_buffers allocator header_type 1 (λ c. 77) (λ c. 0) events empty
      (length-zeros 60, (length-zeros 5000, tt))
      (λ status b h run bad. absurd (ground (arith, bad, created_once status b h run)))

abbrev scarce_address : Pool → ℕ → ℕ
scarce_address h n = if ltb h.requests 2 then next_block h n else 0

scarce_new : (h : Pool) (n : ℕ) → scarce_address h n ≢ 0 → h.block (scarce_address h n) ≡ none
scarce_new h n ne = ground arith

-- An allocator that has two blocks only.
abbrev scarce : Allocator
scarce = record {
  address = scarce_address;
  junk = allocator.junk;
  address_new = scarce_new;
  junk_size = allocator.junk_size;
}

abbrev arrays_only : EventBuffers
arrays_only = record {
  event_buffers = 1000;
  event_buffer_sizes = 1001;
  cpu_count = 2;
  buffer = λ c. 77;
  size = λ c. 0;
}

abbrev arrays_pool : Pool
arrays_pool = record {
  block = write_block (write_block (λ a. none) 1000 (some (zeros 16))) 1001 (some (zeros 16));
  requests = 2;
}

arrays_run : allocate_arrays scarce 2 (λ c. 77) (λ c. 0) empty ≡ some (arrays_only, arrays_pool)
unfolding allocate_arrays allocate
arrays_run = refl

create_and_release_wild_example :
    (create_buffers scarce 2 (λ c. 77) (λ c. 0) >>= λ (status, b'). release_buffers b') empty ≡ none
create_and_release_wild_example =
    create_and_release_wild scarce 0 (λ c. 77) (λ c. 0) empty arrays_pool arrays_only arrays_run
      (ground arith) (ground arith) refl (ground arith) refl
