-- ===== src/Netevent/Buffers/Holds.antt =====
-- The memory of the buffers of the CPUs.
use ntosebpfext.Base.{ℕ, ◌≡◌, ◌≢◌, ◌<◌, true, Option, none}
use ntosebpfext.Kernel.Pool.{Bytes, Pool}
use ntosebpfext.Kernel.Pool.Owns.{is_live}
use ntosebpfext.Netevent.Push.{EventBuffers}
use ntosebpfext.Netevent.Push.Bounds.{HasSize}

-- A block that is live in `h`, and not in the memory `f`.
pub record IsNew (f : ℕ → Option Bytes) (h : Pool) (p : ℕ) : Type 0 where
  pub ne_null : p ≢ 0
  pub live : is_live h p ≡ true
  pub unused : f p ≡ none

-- The pool `h` is the memory `f` and, besides, the two arrays and a buffer of its own for each of the first
-- `n` CPUs, with the size that the array says.
pub record HoldsBuffers (f : ℕ → Option Bytes) (b : EventBuffers) (n : ℕ) (h : Pool) : Type 0 where
  pub buffers_new : IsNew f h b.event_buffers
  pub sizes_new : IsNew f h b.event_buffer_sizes
  pub arrays_apart : b.event_buffers ≢ b.event_buffer_sizes
  pub new : (c : ℕ) → c < n → IsNew f h (b.buffer c)
  pub sized : (c : ℕ) → c < n → HasSize (b.buffer c) (b.size c) h
  pub apart : (c d : ℕ) → c < n → d < n → c ≢ d → b.buffer c ≢ b.buffer d
  pub not_buffers : (c : ℕ) → c < n → b.buffer c ≢ b.event_buffers
  pub not_sizes : (c : ℕ) → c < n → b.buffer c ≢ b.event_buffer_sizes
  pub frame :
      (a : ℕ)
      → a ≢ b.event_buffers
      → a ≢ b.event_buffer_sizes
      → ((c : ℕ) → c < n → b.buffer c ≢ a)
      → h.block a ≡ f a
