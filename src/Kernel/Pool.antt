-- ===== src/Kernel/Pool.antt =====
-- The pool of kernel memory as blocks of bytes, with the allocator as a parameter. A free of what is not
-- allocated, and an access outside a block, fault.
pub mod Owns
use mathlib.Core.List.{◌++◌}
use ntosebpfext.Base.{
  ℕ, ◌+◌, ◌≡◌, ◌≢◌, Bool, true, false, Option, none, some, List, leb, ◌==◌, if◌then◌else◌, length,
  take, drop,
}
use ntosebpfext.Kernel.Command.{Cmd, pure, ◌>>=◌, ◌>>◌}

abbrev pub Bytes : Type 0
Bytes = List ℕ

-- `requests` counts the calls of the allocator, so that it may answer equal calls differently.
pub record Pool : Type 0 where
  pub block : ℕ → Option Bytes
  pub requests : ℕ

-- What `ExAllocatePoolUninitialized` returns, 0 for NULL, and what a new block holds. It hands out no
-- block that is in use, and blocks of the size asked for.
pub record Allocator : Type 0 where
  pub address : Pool → ℕ → ℕ
  pub junk : Pool → ℕ → Bytes
  pub address_new : (h : Pool) (n : ℕ) → address h n ≢ 0 → h.block (address h n) ≡ none
  pub junk_size : (h : Pool) (n : ℕ) → length (junk h n) ≡ n

-- The allocator returns NULL for some request.
abbrev pub Exhausted : Allocator → Type 0
Exhausted al = (h : Pool) × (n : ℕ) × (al.address h n ≡ 0)

abbrev pub write_block : (ℕ → Option Bytes) → ℕ → Option Bytes → ℕ → Option Bytes
write_block f p v b = if p == b then v else f b

-- `ExAllocatePoolUninitialized`
unfoldable pub allocate : Allocator → ℕ → Cmd Pool ℕ
allocate al n h = some (
  al.address h n,
  record {
    block =
        if al.address h n == 0
        then h.block
        else write_block h.block (al.address h n) (some (al.junk h n));
    requests = h.requests + 1;
  },
)

-- `ExFreePool`
unfoldable pub free : ℕ → Cmd Pool (Unit {0})
free p h = elim (h.block p) [
  | none ↦ none
  | some c ↦ some (tt, record h { block = write_block h.block p none })
]

-- `if (p != NULL) ExFreePool(p);`
unfoldable pub free_unless_null : ℕ → Cmd Pool (Unit {0})
unfolding free
free_unless_null p = if p == 0 then pure tt else free p

-- `memcpy` of bytes to the start of a block.
unfoldable pub write : ℕ → Bytes → Cmd Pool (Unit {0})
write p bytes h = elim (h.block p) [
  | none ↦ none
  | some c ↦
      if leb (length bytes) (length c)
      then some
          (tt, record h { block = write_block h.block p (some (bytes ++ drop (length bytes) c)) })
      else none
]

-- The first `n` bytes of a block.
unfoldable pub read : ℕ → ℕ → Cmd Pool Bytes
read p n h = elim (h.block p) [
  | none ↦ none
  | some c ↦ if leb n (length c) then some (take n c, h) else none
]
