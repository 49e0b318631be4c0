-- ===== src/Netevent/Push/Bounds.antt =====
-- Every write of an event lies in the buffer of the CPU.
use mathlib.Core.List.{◌++◌}
use ntosebpfext.Base.{
  ℕ, ◌+◌, ◌-◌, ◌≡◌, ◌≢◌, ◌≤◌, ◌⊎◌, ◌||◌, refl, inl, inr, true, false, Option, none, some, [], ◌∷◌,
  arith, ltb, leb, le→leb, ◌==◌, if◌then◌else◌, length, take, drop, length-take, length-drop,
  length-append, Bool-cases,
}
use ntosebpfext.Kernel.Command.{◌>>=◌, Returns, Returns-bind}
use ntosebpfext.Kernel.Pool.{Bytes, Pool, Allocator, write_block, allocate, free, free_unless_null}
use ntosebpfext.Netevent.Context.{EventMd, sizeof_data_header, pktmon_event_header_length}
use ntosebpfext.Netevent.Push.{
  EventBuffers, write_at, grow_buffer, fill_buffer, finish_event, prepare_event,
}

-- The block at `p` is live and has `n` bytes.
abbrev pub HasSize : ℕ → ℕ → Pool → Type 0
HasSize p n h = (c : Bytes) × (h.block p ≡ some c) × (length c ≡ n)

-- The block at `p` has `n` bytes, and no other block has changed since `h₀`.
abbrev pub Only : ℕ → ℕ → Pool → Pool → Type 0
Only p n h₀ h = HasSize p n h × ((a : ℕ) → a ≢ p → h.block a ≡ h₀.block a)

write_at-Only :
    (p offset n : ℕ) (bytes : Bytes) (h₀ h : Pool)
    → Only p n h₀ h
    → offset + length bytes ≤ n
    → Returns (λ _ h'. Only p n h₀ h') (write_at p offset bytes h)
unfolding write_at
write_at-Only p offset n bytes h₀ h ((c, live, size), others) fits =
    let room : leb (offset + length bytes) (length c) ≡ true =
      le→leb (offset + length bytes) (length c) (omega (arith, size, fits)) in
    rw (write_at, live, room, if◌then◌else◌)
      (
        (
          take offset c ++ (bytes ++ drop (offset + length bytes) c),
          ground arith,
          omega (
            arith,
            size,
            fits,
            length-append (take offset c) (bytes ++ drop (offset + length bytes) c),
            length-append bytes (drop (offset + length bytes) c),
            length-take offset c,
            length-drop (offset + length bytes) c,
          ),
        ),
        λ a ne. ground (arith, ne, others a),
      )

-- For a live buffer with room for the header and the event, and an event that is no shorter than its own header,
-- the copies do not fault, keep the size of the buffer and write to no other block.
pub fill_buffer-Only :
    (event_id : Bytes → ℕ) (p n : ℕ) (bytes : Bytes) (h : Pool)
    → HasSize p n h
    → sizeof_data_header + length bytes ≤ n
    → pktmon_event_header_length ≤ length bytes
    → Returns (λ _ h'. Only p n h h') (fill_buffer event_id p bytes h)
unfolding fill_buffer
fill_buffer-Only event_id p n bytes h s fits long =
    Returns-bind _ _ (write_at p 2 (1 ∷ 0 ∷ [])) _ h
      (write_at-Only p 2 n _ h h (s, λ a ne. refl) (omega (arith, fits, long)))
      (λ _ h₁ s₁.
        Returns-bind _ _ (write_at p 0 _) _ h₁
          (write_at-Only p 0 n _ h h₁ s₁ (omega (arith, fits, long)))
          (λ _ h₂ s₂.
            Returns-bind _ _ (write_at p sizeof_data_header _) _ h₂
              (write_at-Only p sizeof_data_header n _ h h₂ s₂
                (omega (arith, fits, long, length-take pktmon_event_header_length bytes)))
              (λ _ h₃ s₃.
                write_at-Only p (sizeof_data_header + pktmon_event_header_length) n _ h h₃ s₃
                  (omega (arith, fits, long, length-drop pktmon_event_header_length bytes)))))

pub free_run :
    (q : ℕ) (c : Bytes) (h : Pool)
    → (q == 0) ≡ false
    → h.block q ≡ some c
    → free_unless_null q h ≡ some (tt, record h { block = write_block h.block q none })
unfolding free_unless_null free
free_run q c h nz live = ground (arith, nz, live)

module _ (al : Allocator) (cpu total : ℕ) (b : EventBuffers) (h : Pool)
    (live : HasSize (b.buffer cpu) (b.size cpu) h) (ne : b.buffer cpu ≢ 0) where
  -- The buffer of the CPU after a growth has the size that the arrays say, and room for what was asked for.
  abbrev Grown : Option EventBuffers → Pool → Type 0
  Grown none h' = HasSize (b.buffer cpu) (b.size cpu) h'
  Grown (some b') h' = HasSize (b'.buffer cpu) (b'.size cpu) h' × (total ≤ b'.size cpu)

  grow_buffer-Grown : Returns Grown (grow_buffer al cpu total b h)
  unfolding grow_buffer allocate free_unless_null free
  grow_buffer-Grown =
      let (c, old, size) = live in
      let p : ℕ = al.address h total in
      elim (Bool-cases (ltb (b.size cpu) total)) [
        | inr t ↦ rw (t, if◌then◌else◌) (live, ground (arith, t))
        | inl t ↦ elim (Bool-cases (p == 0)) [
          | inl z ↦ ground (arith, t, z, old, size)
          | inr nz ↦
              let other : (p == b.buffer cpu) ≡ false =
                ground (arith, al.address_new h total, nz, old) in
              let h₁ : Pool = record {
                block = write_block h.block p (some (al.junk h total));
                requests = h.requests + 1;
              } in
              rw
                (
                  grow_buffer,
                  t,
                  allocate,
                  nz,
                  if◌then◌else◌,
                  ◌>>=◌,
                  free_run (b.buffer cpu) c h₁ (ground (arith, ne)) (ground (arith, other, old)),
                )
                (
                  (al.junk h total, ground (arith, other), ground (arith, al.junk_size h total)),
                  ground arith,
                )
        ]
      ]

module _ (al : Allocator) (event_id : Bytes → ℕ) (cpu event_start event_end : ℕ) (bytes : Bytes)
    (b : EventBuffers) (h : Pool) (live : HasSize (b.buffer cpu) (b.size cpu) h)
    (ne : b.buffer cpu ≢ 0) (whole : length bytes ≡ event_end - event_start) where
  abbrev total_size : ℕ
  total_size = sizeof_data_header + (event_end - event_start)

  -- The buffer of the CPU has the size that the arrays say, and the context lies in it.
  abbrev pub Prepared : Option EventMd × EventBuffers → Pool → Type 0
  Prepared (out, b') h' =
      HasSize (b'.buffer cpu) (b'.size cpu) h'
      × ((out ≡ none)
          ⊎ ((md : EventMd) × (out ≡ some md)
              × (md.data_meta ≡ b'.buffer cpu)
              × (md.data_meta ≤ md.payload)
              × (md.payload ≤ md.data_end)
              × (md.data_end ≤ b'.buffer cpu + b'.size cpu)))

  finish_event-Prepared :
      (grown : Option EventBuffers) (h₁ : Pool)
      → pktmon_event_header_length ≤ event_end - event_start
      → Grown al cpu total_size b h live ne grown h₁
      → Returns Prepared (finish_event event_id cpu total_size bytes b grown h₁)
  unfolding finish_event
  finish_event-Prepared none h₁ long x = (x, inl refl)
  finish_event-Prepared (some b') h₁ long (room, enough) =
      Returns-bind _ Prepared (fill_buffer event_id (b'.buffer cpu) bytes) _ h₁
        (fill_buffer-Only event_id (b'.buffer cpu) (b'.size cpu) bytes h₁ room
          (omega (arith, whole, enough)) (omega (arith, whole, long)))
        (λ _ h₂ x.
          (x.0, inr (_, refl, refl, omega arith, omega (arith, long), omega (arith, enough))))

  -- For a CPU whose buffer is live with the size that the arrays say, and an event whose bytes are all there, the
  -- preparation does not fault. It keeps the buffer so, also where it grows, and the context of an event that is not
  -- lost lies in the buffer.
  pub prepare_event-Prepared :
      Returns Prepared (prepare_event al event_id cpu event_start event_end bytes b h)
  unfolding prepare_event
  prepare_event-Prepared =
      elim (Bool-cases (
        leb event_end event_start
        || ltb (event_end - event_start) pktmon_event_header_length
        || (b.event_buffers == 0 || b.event_buffer_sizes == 0)
        || leb b.cpu_count cpu)) [
          | inl t ↦ rw (t, if◌then◌else◌) (live, inl refl)
          | inr t ↦
              rw (t, if◌then◌else◌)
                (Returns-bind _ Prepared (grow_buffer al cpu total_size b) _ h
                  (grow_buffer-Grown al cpu total_size b h live ne)
                  (λ grown h₁ x. finish_event-Prepared grown h₁ (ground (arith, t)) x))
        ]
