-- ===== src/Ntos/Context/Creation.antt =====
-- The creation of a context: on success a context with the bytes of its strings, else nothing is left.
use ntosebpfext.Base.{
  ℕ, ◌+◌, ◌≡◌, ◌≤◌, ◌⊎◌, true, false, Option, none, some, ◌==◌, if◌then◌else◌, length, take, drop,
}
use ntosebpfext.Kernel.Status.{EbpfResult, success, invalid_argument, is_success}
use ntosebpfext.Kernel.Command.{Cmd, pure, ◌>>=◌, ◌>>◌}
use ntosebpfext.Kernel.Pool.{Bytes, Pool, Allocator}
use ntosebpfext.Kernel.Pool.Owns.{Owns}
use ntosebpfext.Ntos.Types.{NotifyContext, TestContext}
use ntosebpfext.Ntos.Strings.Copied.{Failed}
use ntosebpfext.Ntos.Context.{copy_strings, bad_sizes, total_length, create_exit, finish_context}
use ntosebpfext.Ntos.Context.Copies.{NoBuffers}
use ntosebpfext.Ntos.Context.Ownership.{IsContext}

-- The pieces of the data that the four strings take.
module _ (input : NotifyContext) (bytes : Bytes) where
  abbrev pub line : Bytes
  line = take input.command_line.length bytes

  abbrev pub image : Bytes
  image = take input.image_file_name.length (drop input.command_line.length bytes)

  abbrev pub name : Bytes
  name =
      take input.account_name.length
        (drop input.image_file_name.length (drop input.command_line.length bytes))

  abbrev pub domain : Bytes
  domain = take input.account_domain.length (
      drop input.account_name.length
        (drop input.image_file_name.length (drop input.command_line.length bytes)))

module _ (f : ℕ → Option Bytes) (input : NotifyContext) (bytes : Bytes) where
  -- What a creation returns: a code and no context, with the pool as it was, or a context with the bytes
  -- of its four strings.
  abbrev pub Outcome :
      Allocator
      → (context_size context_size_in : ℕ) → EbpfResult × Option (ℕ × TestContext)
      → Pool
      → Type 0
  Outcome al context_size context_size_in (r, out) h' =
      (((r ≡ invalid_argument) × (bad_sizes context_size context_size_in bytes input ≡ true)
          ⊎ Failed al r)
        × (out ≡ none)
        × ((b : ℕ) → h'.block b ≡ f b))
      ⊎ ((r ≡ success)
          × (p : ℕ) × (t : TestContext) × (out ≡ some (p, t))
          × ((p == 0) ≡ false)
          × (total_length input ≤ length bytes)
          × IsContext f h' p t (line input bytes) (image input bytes) (name input bytes)
              (domain input bytes)
          × (t.base.process_md ≡ record (input.process_md) {
            command_start = t.base.command_line.buffer;
            command_end = t.base.command_line.buffer + t.base.command_line.length;
          }))

module _ (al : Allocator) (context_size test_context_size : ℕ) (h : Pool) (input : NotifyContext)
    (bytes : Bytes) (clean : NoBuffers input) where
  -- The copies and what follows them, from the allocated test context on.
  abbrev copied_or_undone : ℕ → Cmd Pool (EbpfResult × Option (ℕ × TestContext))
  copied_or_undone p = do
    (result, c) ← copy_strings al input (record input { process = 0; create_info = 0 }) bytes
    if is_success result
        then pure (success, some (p, finish_context c))
        else (do create_exit p c; pure (result, none))
