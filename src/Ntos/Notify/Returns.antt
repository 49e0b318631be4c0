-- ===== src/Ntos/Notify/Returns.antt =====
-- No call of a helper of the process hook faults or writes past the program's buffer.
use ntosebpfext.Base.{ℕ, ◌≡◌, ◌≤◌, ◌⊎◌, Option, List, [], length}
use ntosebpfext.Kernel.Pool.{Bytes, Pool, Allocator}
use ntosebpfext.Kernel.Pool.Owns.{Owns}
use ntosebpfext.Ntos.Types.{UnicodeString, NotifyContext}
use ntosebpfext.Ntos.Strings.{HelperResult, copied}
use ntosebpfext.Ntos.Account.{SidFunctions}
use ntosebpfext.Ntos.Account.Buffers.{KeepsBuffers}
use ntosebpfext.Ntos.Account.Fits.{KeepsSizes, IsPrepared}
use ntosebpfext.Ntos.Notify.Helpers.{Helpers, IsLooked}

-- What a helper writes fits into the `n` bytes of the program, and its result is the number of bytes.
abbrev pub Written : ℕ → HelperResult × Bytes → Type 0
Written n (r, bytes) = (length bytes ≤ n) × ((r ≡ copied (length bytes)) ⊎ (bytes ≡ []))

module _ (f : ℕ → Option Bytes) (name_stack domain_stack : ℕ) (ps : List ℕ) (image : UnicodeString)
    (sid : SidFunctions) (keeps : KeepsBuffers sid) (sizes : KeepsSizes sid) (al : Allocator) where
  -- The context between two helpers, with the image path `image`.
  abbrev pub IsReady : NotifyContext → Pool → Type 0
  IsReady c h =
      IsLooked f name_stack domain_stack ps c h × IsPrepared c h × (c.image_file_name ≡ image)

  -- What a helper with a context leaves.
  abbrev Served : ℕ → (HelperResult × Bytes) × NotifyContext → Pool → Type 0
  Served n (r, c') h' = Written n r × IsReady c' h'
