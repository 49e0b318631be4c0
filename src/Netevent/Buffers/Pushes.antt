-- ===== src/Netevent/Buffers/Pushes.antt =====
-- The life of the buffers: they are created, events are pushed on any CPUs in any order, and they are released.
use ntosebpfext.Base.{
  ℕ, ◌+◌, ◌-◌, ◌≡◌, ◌<◌, ◌≤◌, refl, sym, subst, ◌∙◌, inl, inr, true, Option, none, some, List, [],
  ◌∷◌, All, arith, ◌==◌, ◌||◌, ltb, leb, if◌then◌else◌, length, Bool-cases, ==_ne,
}
use ntosebpfext.Kernel.Status.{nt_success}
use ntosebpfext.Kernel.Command.{Cmd, pure, ◌>>=◌, Returns, Returns-bind, Returns-mono, Returns-run}
use ntosebpfext.Kernel.Pool.{Bytes, Pool, Allocator}
use ntosebpfext.Kernel.Pool.Owns.{block_of_nothing}
use ntosebpfext.Netevent.Context.{sizeof_data_header, pktmon_event_header_length}
use ntosebpfext.Netevent.Push.{EventBuffers, grow_buffer, fill_buffer, finish_event, prepare_event}
use ntosebpfext.Netevent.Push.Bounds.{Only, fill_buffer-Only, free_run}
use ntosebpfext.Netevent.Buffers.{create_buffers, release_buffers}
use ntosebpfext.Netevent.Buffers.Holds.{HoldsBuffers}
use ntosebpfext.Netevent.Buffers.Create.{allocated, live_other, allocate_run, allocate_refused}
use ntosebpfext.Netevent.Buffers.Arrays.{Created, create_buffers-Created}
use ntosebpfext.Netevent.Buffers.Grow.{Only-HoldsBuffers, counted, replaced}
use ntosebpfext.Netevent.Buffers.Release.{release_buffers-Released}
use ntosebpfext.Netevent.Buffers.Undo.{IsZeroed, release-Created}

module _ (al : Allocator) (f : ℕ → Option Bytes) (b : EventBuffers) (n cpu total : ℕ) (h : Pool)
    (lt : cpu < n) (k : HoldsBuffers f b n h) where
  -- After a growth the buffer has room for what was asked for, or there is no memory for it.
  abbrev Grown : Option EventBuffers → Pool → Type 0
  Grown none h' = HoldsBuffers f b n h'
  Grown (some b') h' = HoldsBuffers f b' n h' × (b'.cpu_count ≡ b.cpu_count) × (total ≤ b'.size cpu)

  grow_buffer-Holds : Returns Grown (grow_buffer al cpu total b h)
  unfolding grow_buffer
  grow_buffer-Holds = elim (Bool-cases (ltb (b.size cpu) total)) [
    | inr t ↦ rw (t, if◌then◌else◌) (k, refl, ground (arith, t))
    | inl t ↦ elim (Bool-cases (al.address h total == 0)) [
      | inl z ↦
          rw (t, if◌then◌else◌, ◌>>=◌, allocate_refused al total h z)
            (counted al f b n cpu total h lt k)
      | inr nz ↦
          let (bytes, old, size) = k.sized cpu lt in
          rw
            (
              t,
              if◌then◌else◌,
              ◌>>=◌,
              allocate_run al total h nz,
              nz,
              free_run (b.buffer cpu) bytes (allocated al total h)
                  (==_ne (b.buffer cpu) 0 (k.new cpu lt).ne_null)
                  (ground
                    (arith, old, live_other al f b n h k total (b.buffer cpu) nz (k.new cpu lt))),
            )
            (replaced al f b n cpu total h lt k nz, refl, ground arith)
    ]
  ]

  finish_event-Holds :
      (event_id : Bytes → ℕ) (bytes : Bytes) (g : Option EventBuffers) (h₁ : Pool)
      → Grown g h₁
      → sizeof_data_header + length bytes ≡ total
      → pktmon_event_header_length ≤ length bytes
      → Returns
          (λ (out, b') h'. HoldsBuffers f b' n h' × (b'.cpu_count ≡ b.cpu_count))
          (finish_event event_id cpu total bytes b g h₁)
  unfolding finish_event
  finish_event-Holds event_id bytes none h₁ x whole long = (x, refl)
  finish_event-Holds event_id bytes (some b') h₁ (k', count, room) whole long =
      Returns-bind (λ _ h'. Only (b'.buffer cpu) (b'.size cpu) h₁ h')
        (λ (out, b'') h'. HoldsBuffers f b'' n h' × (b''.cpu_count ≡ b.cpu_count))
        (fill_buffer event_id (b'.buffer cpu) bytes) _ h₁
        (fill_buffer-Only event_id (b'.buffer cpu) (b'.size cpu) bytes h₁ (k'.sized cpu lt)
          (omega (arith, whole, room)) long)
        (λ _ h₂ x. (Only-HoldsBuffers f b' n cpu h₁ h₂ lt k' x, count))

-- The push of an event keeps, beside the memory `f`, the two arrays and for each CPU a live buffer of its own
-- with the size that the array says, also where the buffer grows or the event is lost.
pub prepare_event-HoldsBuffers :
    (al : Allocator) (f : ℕ → Option Bytes) (event_id : Bytes → ℕ) (cpu event_start event_end : ℕ)
    (bytes : Bytes) (b : EventBuffers) (h : Pool)
    → length bytes ≡ event_end - event_start
    → HoldsBuffers f b b.cpu_count h
    → Returns
        (λ (out, b') h'. HoldsBuffers f b' b.cpu_count h' × (b'.cpu_count ≡ b.cpu_count))
        (prepare_event al event_id cpu event_start event_end bytes b h)
unfolding prepare_event
prepare_event-HoldsBuffers al f event_id cpu event_start event_end bytes b h whole k =
    let total : ℕ = sizeof_data_header + (event_end - event_start) in
    elim (Bool-cases (
      leb event_end event_start
      || ltb (event_end - event_start) pktmon_event_header_length
      || (b.event_buffers == 0 || b.event_buffer_sizes == 0)
      || leb b.cpu_count cpu)) [
        | inl t ↦ rw (t, if◌then◌else◌) (k, refl)
        | inr t ↦
            let lt : cpu < b.cpu_count = ground (arith, t) in
            rw (t, if◌then◌else◌)
              (Returns-bind (Grown al f b b.cpu_count cpu total h lt k)
                (λ (out, b') h'. HoldsBuffers f b' b.cpu_count h' × (b'.cpu_count ≡ b.cpu_count))
                (grow_buffer al cpu total b) _ h
                (grow_buffer-Holds al f b b.cpu_count cpu total h lt k)
                (λ g h₁ x.
                  finish_event-Holds al f b b.cpu_count cpu total h lt k event_id bytes g h₁ x
                    (rw whole refl) (ground (arith, t, whole))))
      ]

-- A push: the CPU, the two addresses of the event, and the bytes between them.
pub record Push : Type 0 where
  pub cpu : ℕ
  pub event_start : ℕ
  pub event_end : ℕ
  pub bytes : Bytes

abbrev pub IsWhole : Push → Type 0
IsWhole e = length e.bytes ≡ e.event_end - e.event_start

module _ (al : Allocator) (event_id : Bytes → ℕ) where
  -- Events that are pushed one after the other, whatever their CPUs and their fates.
  unfoldable pub push_all : List Push → EventBuffers → Cmd Pool EventBuffers
  push_all [] b = pure b
  push_all (e ∷ es) b = do
    (out, b') ← prepare_event al event_id e.cpu e.event_start e.event_end e.bytes b
    push_all es b'

  push_all-HoldsBuffers :
      (f : ℕ → Option Bytes) (es : List Push) (b : EventBuffers) (h : Pool)
      → All IsWhole es
      → HoldsBuffers f b b.cpu_count h
      → Returns
          (λ b' h'. HoldsBuffers f b' b.cpu_count h' × (b'.cpu_count ≡ b.cpu_count))
          (push_all es b h)
  unfolding push_all
  push_all-HoldsBuffers f [] b h whole k = (k, refl)
  push_all-HoldsBuffers f (e ∷ es) b h (here, whole) k =
      Returns-bind _ _ (prepare_event al event_id e.cpu e.event_start e.event_end e.bytes b) _ h
        (prepare_event-HoldsBuffers al f event_id e.cpu e.event_start e.event_end e.bytes b h here
          k)
        (λ (out, b₁) h₁ (k₁, same).
          Returns-mono _ _ (push_all es b₁ h₁)
            (push_all-HoldsBuffers f es b₁ h₁ whole
              (subst (λ m. HoldsBuffers f b₁ m h₁) (sym same) k₁))
            (λ b₂ h₂ (k₂, same'). (subst (λ m. HoldsBuffers f b₂ m h₂) same k₂, same' ∙ same)))

  -- The life of the buffers: events are pushed only if the initialisation succeeds.
  abbrev pub create_push_release :
      (cpu_count : ℕ) (buffers sizes : ℕ → ℕ) → List Push → Cmd Pool EventBuffers
  create_push_release cpu_count buffers sizes es = do
    (status, b) ← create_buffers al cpu_count buffers sizes
    b' ← (if nt_success status then push_all es b else pure b)
    release_buffers b'

  -- Unless the initialisation of the buffers fails behind the allocation of the first array and that array does
  -- not hold zeros, the initialisation, any events pushed on any CPUs if it succeeds, and the release do not fault.
  -- The release leaves every block of the pool as it was before the initialisation, and resets both pointers.
  pub release_buffers-create_buffers :
      (n : ℕ) (buffers sizes : ℕ → ℕ) (es : List Push) (h : Pool)
      → All IsWhole es
      → ((status : ℕ) (b : EventBuffers) (h' : Pool)
          → create_buffers al n buffers sizes h ≡ some ((status, b), h')
          → IsZeroed buffers status b)
      → Returns
          (λ b'' h'.
            ((a : ℕ) → h'.block a ≡ h.block a)
            × (b''.event_buffers ≡ 0)
            × (b''.event_buffer_sizes ≡ 0))
          (create_push_release n buffers sizes es h)
  release_buffers-create_buffers n buffers sizes es h whole zeroed =
      Returns-bind _ _ (create_buffers al n buffers sizes) _ h
        (Returns-run (Created al n buffers sizes h) (create_buffers al n buffers sizes h)
          (create_buffers-Created al n buffers sizes h))
        (λ (status, b) h₁ ((count, outcome), run). elim (Bool-cases (nt_success status)) [
          | inl ok ↦
              rw (ok, if◌then◌else◌)
                (Returns-bind _ _ (push_all es b) _ h₁
                  (push_all-HoldsBuffers h.block es b h₁ whole
                    (all_held status b h₁ ok (count, outcome)))
                  (λ b' h₂ (k, same).
                    Returns-mono _ _ (release_buffers b' h₂)
                      (release_buffers-Released h.block b' b.cpu_count h₂ k
                        (λ c le lt. absurd (omega (arith, le, lt, same))) (omega (arith, same)))
                      (λ b'' h' (o, e, e'). (block_of_nothing o, e, e'))))
          | inr bad ↦
              rw (bad, if◌then◌else◌)
                (Returns-mono _ _ (release_buffers b h₁)
                  (release-Created al n buffers sizes h status b h₁ (zeroed status b h₁ run)
                    (count, outcome))
                  (λ b'' h' (o, e, e'). (block_of_nothing o, e, e')))
        ])
    where
      all_held :
          (status : ℕ) (b : EventBuffers) (h₁ : Pool)
          → nt_success status ≡ true
          → Created al n buffers sizes h (status, b) h₁
          → HoldsBuffers h.block b b.cpu_count h₁
      all_held status b h₁ ok (count, outcome) = elim outcome [
        | inl (j, hi, k, rest, end) ↦ elim end [
          | inl (_, all) ↦ subst (λ m. HoldsBuffers h.block b m h₁) (all ∙ sym count) k
          | inr bad ↦ absurd (ground (arith, ok, bad))
        ]
        | inr missing ↦ absurd (ground (arith, ok, missing.0))
      ]
