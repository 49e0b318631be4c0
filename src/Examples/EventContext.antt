-- ===== src/Examples/EventContext.antt =====
-- A netevent context for a dropped packet in an empty pool, and an event of 60 bytes that is pushed on a CPU
-- with a buffer of ten.
use ntosebpfext.Base.{
  ◌==◌, ◌≢◌, if◌then◌else◌, ℕ, zero, suc, ◌+◌, ◌≡◌, refl, none, some, [], ◌∷◌, arith, length,
}
use ntosebpfext.Kernel.Command.{Returns}
use ntosebpfext.Kernel.Pool.{Bytes, Pool, Allocator}
use ntosebpfext.Netevent.Context.{EventMd, header_type}
use ntosebpfext.Netevent.Push.{EventBuffers, prepare_event}
use ntosebpfext.Netevent.Push.Bounds.{HasSize, Prepared, prepare_event-Prepared}

pub zeros : ℕ → Bytes
zeros zero = []
zeros (suc n) = 0 ∷ zeros n

pub length-zeros : (n : ℕ) → length (zeros n) ≡ n
unfolding zeros
length-zeros zero = refl
length-zeros (suc n) = omega (arith, length-zeros n)

-- The next block, if it is free.
abbrev pub next_block : Pool → ℕ → ℕ
next_block h n = elim (h.block (h.requests + 1000)) [ none ↦ h.requests + 1000 | some c ↦ 0 ]

pub next_block_new : (h : Pool) (n : ℕ) → next_block h n ≢ 0 → h.block (next_block h n) ≡ none
next_block_new h n ne = ground arith

abbrev pub allocator : Allocator
allocator = record {
  address = next_block;
  junk = λ h n. zeros n;
  address_new = next_block_new;
  junk_size = λ h n. length-zeros n;
}

abbrev pub empty : Pool
empty = record { block = λ a. none; requests = 0 }

abbrev input : EventMd
input = record { data_meta = 0; payload = 0; data_end = 0 }

abbrev event : Bytes
event = 100 ∷ 0 ∷ 1 ∷ 0 ∷ []

-- One CPU with a buffer of ten bytes, too small for the event.
abbrev one_buffer : Pool
one_buffer = record { block = λ a. if 900 == a then some (zeros 10) else none; requests = 1 }

abbrev buffers : EventBuffers
buffers = record {
  event_buffers = 700;
  event_buffer_sizes = 800;
  cpu_count = 1;
  buffer = λ cpu. 900;
  size = λ cpu. 10;
}

one_buffer-HasSize : HasSize 900 10 one_buffer
one_buffer-HasSize = (zeros 10, refl, length-zeros 10)

buffer_ne : buffers.buffer 0 ≢ 0
buffer_ne = ground arith

prepare_event-Prepared_example :
    Returns
      (Prepared allocator header_type 0 500 560
        (zeros 60)
        buffers
        one_buffer
        one_buffer-HasSize
        buffer_ne
        (length-zeros 60))
      (prepare_event allocator header_type 0 500 560 (zeros 60) buffers one_buffer)
prepare_event-Prepared_example =
    prepare_event-Prepared allocator header_type 0 500 560 (zeros 60) buffers one_buffer
      one_buffer-HasSize buffer_ne (length-zeros 60)
