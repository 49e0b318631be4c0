-- ===== src/Netevent/Context/Roundtrip.antt =====
-- Creation and then destruction of a netevent context.
use ntosebpfext.Base.{
  ℕ, ◌+◌, ◌≡◌, ◌⊎◌, Bool, true, false, not, ◌&&◌, ◌||◌, Option, none, some, ltb, leb, ◌==◌,
  if◌then◌else◌, length,
}
use mathlib.Core.List.{[], ◌∷◌}
use ntosebpfext.Kernel.Status.{EbpfResult, success, is_success}
use ntosebpfext.Kernel.Command.{Cmd, ◌>>=◌}
use ntosebpfext.Kernel.Pool.{Bytes, Pool, Allocator, Exhausted}
use ntosebpfext.Kernel.Pool.Owns.{Owns}
use ntosebpfext.Netevent.Context.{
  EventMd, sizeof_event_md, sizeof_data_header, is_supported, header_type, event_context_create,
  event_context_destroy,
}

module _ (al : Allocator) (context_size address : ℕ) (bytes : Bytes) (input : EventMd)
    (context_size_in data_size_out context_size_out : ℕ)
    (has_context_out data_out context_out : Bool) where
  -- The tests of the arguments.
  abbrev pub refused : Bool
  refused =
      ltb context_size_in sizeof_event_md
      || not has_context_out
      || ltb (length bytes) sizeof_data_header

  abbrev Made : Pool → EbpfResult × Option (ℕ × EventMd) → Pool → Type 0
  Made h (r, out) h' =
      ((is_success r ≡ false)
        × (out ≡ none)
        × ((b : ℕ) → h'.block b ≡ h.block b)
        × ((refused ≡ true) ⊎ Exhausted al ⊎ (is_supported (header_type bytes) ≡ false)))
      ⊎ ((r ≡ success)
          × (p : ℕ) × (md : EventMd) × (out ≡ some (p, md))
          × ((p == 0) ≡ false)
          × Owns h.block h' (p ∷ [])
          × (md.data_meta ≡ address)
          × (md.data_end ≡ address + length bytes))

  -- The two calls in a row.
  abbrev pub event_create_and_destroy : Cmd Pool (Option (Option EventMd × Option Bytes))
  event_create_and_destroy = do
    (result, made) ←
        event_context_create al context_size (some (address, bytes)) (some input) context_size_in
          has_context_out
    event_context_destroy address bytes made data_out data_size_out context_out context_size_out

  abbrev pub Restored : Pool → Option (Option EventMd × Option Bytes) → Pool → Type 0
  Restored h out h' =
      ((b : ℕ) → h'.block b ≡ h.block b)
      × (((out ≡ none)
            × ((refused ≡ true) ⊎ Exhausted al ⊎ (is_supported (header_type bytes) ≡ false)))
          ⊎ (out
              ≡ some (
                if context_out && leb sizeof_event_md context_size_out
                    then some (record { data_meta = 0; payload = 0; data_end = 0 })
                    else none,
                if data_out && leb (length bytes) data_size_out then some bytes else none,
              )))
