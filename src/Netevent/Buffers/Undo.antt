-- ===== src/Netevent/Buffers/Undo.antt =====
-- The release of the buffers behind an initialisation that may have failed half way.
use ntosebpfext.Base.{
  ℕ, zero, suc, ◌+◌, ◌≡◌, ◌≢◌, ◌<◌, ◌≤◌, refl, subst, ◌∙◌, ◌⊎◌, inl, inr, true, false, Option, none,
  some, [], ◌∷◌, arith, ◌||◌, ◌==◌, if◌then◌else◌, Bool-cases, Option-cases, All, ==_ne,
}
use ntosebpfext.Kernel.Status.{nt_success, status_insufficient_resources}
use ntosebpfext.Kernel.Command.{◌>>=◌, Returns, Returns-bind, Returns-mono, of_Returns}
use ntosebpfext.Kernel.Pool.{Bytes, Pool, Allocator, free_unless_null, free}
use ntosebpfext.Kernel.Pool.Owns.{Owns, Ours, Apart, owned, free-Owns}
use ntosebpfext.HookProvider.State.{update}
use ntosebpfext.Netevent.Push.{EventBuffers}
use ntosebpfext.Netevent.Buffers.{
  init_event_buffer_size, allocate_arrays, allocate_buffers, create_buffers, release_loop,
  release_array, release_buffers,
}
use ntosebpfext.Netevent.Buffers.Create.{allocate_refused}
use ntosebpfext.Netevent.Buffers.Arrays.{Arrays, Created, allocate_arrays-Arrays}
use ntosebpfext.Netevent.Buffers.Release.{pointers, release_array-Owns, release_buffers-Released}

-- Entries that are NULL own nothing.
module _ (f : ℕ → Option Bytes) (h : Pool) (g : ℕ → ℕ) (zeroed : (c : ℕ) → g c ≡ 0) where
  All-zeroed : (i left : ℕ) → All (Ours f h) (pointers g i left)
  All-zeroed i zero = tt
  All-zeroed i (suc left) = (ground (arith, zeroed i), All-zeroed (i + 1) left)

  not_owned-zeroed : (a i left : ℕ) → owned a (pointers g i left) ≡ false
  not_owned-zeroed a i zero = ground arith
  not_owned-zeroed a i (suc left) = ground (arith, zeroed i, not_owned-zeroed a (i + 1) left)

  Apart-zeroed : (i left : ℕ) → Apart (pointers g i left)
  Apart-zeroed i zero = tt
  Apart-zeroed i (suc left) = (not_owned-zeroed (g i) (i + 1) left, Apart-zeroed (i + 1) left)

  Owns-zeroed : (p left : ℕ) → Owns f h (p ∷ []) → Owns f h (p ∷ pointers g 0 left)
  Owns-zeroed p left o = record {
    ours = (o.ours.0, All-zeroed 0 left);
    apart = (not_owned-zeroed p 0 left, Apart-zeroed 0 left);
    frame = λ a e. o.frame a (ground (arith, e));
  }

-- Nothing is left of the buffers.
abbrev pub IsReleased : (ℕ → Option Bytes) → EventBuffers → Pool → Type 0
IsReleased f b h = Owns f h [] × (b.event_buffers ≡ 0) × (b.event_buffer_sizes ≡ 0)

release_array-missing :
    (f : ℕ → Option Bytes) (b : EventBuffers) (h : Pool)
    → b.event_buffer_sizes ≡ 0
    → (b.event_buffers ≢ 0 → (c : ℕ) → b.buffer c ≡ 0)
    → Owns f h (b.event_buffers ∷ [])
    → Returns (IsReleased f) (release_array b h)
unfolding release_array
release_array-missing f b h none_left zeroed o = elim (Bool-cases (b.event_buffers == 0)) [
  | inl z ↦
      rw (z, if◌then◌else◌)
        (
          record { ours = tt; apart = tt; frame = λ a e. o.frame a (ground (arith, z)) },
          ground (arith, z),
          none_left,
        )
  | inr nz ↦
      Returns-mono _ _ (release_array b h)
        (release_array-Owns f b h (ground (arith, nz))
          (Owns-zeroed f h b.buffer (zeroed (ground (arith, nz))) b.event_buffers b.cpu_count o))
        (λ b' h' (o', e, e'). (o', e, e' ∙ none_left))
]

-- A failure of the initialisation behind the allocation of the first array leaves entries of it as they were; then
-- they have to hold zeros.
abbrev pub IsZeroed : (entries : ℕ → ℕ) (status : ℕ) → EventBuffers → Type 0
IsZeroed entries status b =
    nt_success status ≡ false → b.event_buffers ≢ 0 → (c : ℕ) → entries c ≡ 0

-- Unless it failed behind the first array, and that array does not hold zeros, a release behind the initialisation
-- of the buffers does not fault, and leaves the pool as it was before.
pub release-Created :
    (al : Allocator) (n : ℕ) (buffers sizes : ℕ → ℕ) (h : Pool) (status : ℕ) (b : EventBuffers)
    (h' : Pool)
    → IsZeroed buffers status b
    → Created al n buffers sizes h (status, b) h'
    → Returns (IsReleased h.block) (release_buffers b h')
unfolding release_buffers
release-Created al n buffers sizes h status b h' zeroed (count, outcome) = elim outcome [
  | inl (j, hi, k, rest, end) ↦
      release_buffers-Released h.block b j h' k
        (λ c le lt. elim end [
          | inl (_, all) ↦ absurd (omega (arith, le, lt, all, count))
          | inr bad ↦ elim (rest c le) [
            | inl e ↦ e
            | inr e ↦ e ∙ zeroed bad k.buffers_new.ne_null c
          ]
        ])
        (rw count hi)
  | inr (bad, (o, _, junk)) ↦
      Returns-bind _ _ (free_unless_null b.event_buffer_sizes) _ h'
        (free-Owns h.block h' b.event_buffer_sizes (b.event_buffers ∷ []) o)
        (λ _ h₁ o₁.
          release_array-missing h.block (record b { event_buffer_sizes = 0 }) h₁ refl
            (λ array c. rw junk (zeroed bad array c)) o₁)
]

-- A free of another pointer does not make a block.
free_cases :
    (p q : ℕ) (h : Pool)
    → h.block q ≡ none
    → (free_unless_null p h ≡ none)
      ⊎ ((h' : Pool) × (free_unless_null p h ≡ some (tt, h')) × (h'.block q ≡ none))
unfolding free_unless_null free
free_cases p q h wild = elim (Bool-cases (p == 0)) [
  | inl z ↦ rw (z, if◌then◌else◌) (inr (h, refl, wild))
  | inr nz ↦ elim (Option-cases (h.block p)) [
    | inl e ↦ rw (nz, if◌then◌else◌, free, e) (inl refl)
    | inr (c, e) ↦ rw (nz, if◌then◌else◌, free, e) (inr (_, refl, ground (arith, wild)))
  ]
]

free_wild : (p : ℕ) (h : Pool) → p ≢ 0 → h.block p ≡ none → free_unless_null p h ≡ none
unfolding free_unless_null free
free_wild p h ne wild = ground (arith, ne, wild)

release_loop_wild :
    (c left i : ℕ) (b : EventBuffers) (h : Pool)
    → i ≤ c
    → c < i + left
    → b.buffer c ≢ 0
    → h.block (b.buffer c) ≡ none
    → release_loop left i b h ≡ none
unfolding release_loop
release_loop_wild c zero i b h le lt ne wild = absurd (omega (arith, le, lt))
release_loop_wild c (suc left) i b h le lt ne wild = elim (Bool-cases (i == c)) [
  | inl e ↦
      let same : c ≡ i = ground (arith, e) in
      rw
        (
          release_loop,
          ◌>>=◌,
          free_wild (b.buffer i) h (subst (λ d. b.buffer d ≢ 0) same ne)
              (subst (λ d. h.block (b.buffer d) ≡ none) same wild),
        )
        refl
  | inr e ↦ elim (free_cases (b.buffer i) (b.buffer c) h wild) [
    | inl f ↦ rw (release_loop, ◌>>=◌, f) refl
    | inr (h', f, wild') ↦
        rw (release_loop, ◌>>=◌, f)
          (release_loop_wild c left (i + 1) (record b { buffer = update b.buffer i 0 }) h'
            (ground (arith, e, le)) (omega (arith, lt)) (rw e ne) (rw e wild'))
  ]
]

-- A release faults where an entry of the array points to no block.
release_buffers_wild :
    (c : ℕ) (b : EventBuffers) (h : Pool)
    → b.event_buffers ≢ 0
    → c < b.cpu_count
    → b.buffer c ≢ 0
    → h.block (b.buffer c) ≡ none
    → release_buffers b h ≡ none
unfolding release_buffers release_array
release_buffers_wild c b h array lt ne wild =
    elim (free_cases b.event_buffer_sizes (b.buffer c) h wild) [
      | inl f ↦ rw (release_buffers, ◌>>=◌, f) refl
      | inr (h', f, wild') ↦
          rw
            (
              release_buffers,
              ◌>>=◌,
              f,
              ==_ne b.event_buffers 0 array,
              if◌then◌else◌,
              release_loop_wild c b.cpu_count 0 (record b { event_buffer_sizes = 0 }) h'
                  (omega arith) (omega (arith, lt)) ne wild',
            )
            refl
    ]

allocate_buffers_refused :
    (al : Allocator) (left : ℕ) (b : EventBuffers) (h : Pool)
    → al.address h init_event_buffer_size ≡ 0
    → allocate_buffers al (suc left) 0 b h
      ≡ some (
        (
          status_insufficient_resources,
          record b { buffer = update b.buffer 0 0; size = update b.size 0 init_event_buffer_size },
        ),
        record h { requests = h.requests + 1 },
      )
unfolding allocate_buffers
allocate_buffers_refused al left b h z =
    let null : (al.address h init_event_buffer_size == 0) ≡ true = ground (arith, z) in
    rw (allocate_buffers, ◌>>=◌, allocate_refused al init_event_buffer_size h null, if◌then◌else◌)
      refl

-- With both arrays, two CPUs or more, and no memory for the buffer of the first CPU, the initialisation and the
-- release that the failed registration runs fault, if the second entry of the new array happens to hold an
-- address that is not NULL and at which there is no block.
pub create_and_release_wild :
    (al : Allocator) (left : ℕ) (buffers sizes : ℕ → ℕ) (h h₂ : Pool) (b : EventBuffers)
    → allocate_arrays al (suc (suc left)) buffers sizes h ≡ some (b, h₂)
    → b.event_buffers ≢ 0
    → b.event_buffer_sizes ≢ 0
    → al.address h₂ init_event_buffer_size ≡ 0
    → buffers 1 ≢ 0
    → h₂.block (buffers 1) ≡ none
    → (create_buffers al (suc (suc left)) buffers sizes >>= λ (status, b'). release_buffers b') h
      ≡ none
unfolding create_buffers
create_and_release_wild al left buffers sizes h h₂ b run p q full ne wild =
    let (_, count, junk) =
      of_Returns (Arrays al (suc (suc left)) buffers sizes h) _ b h₂
        (allocate_arrays-Arrays al (suc (suc left)) buffers sizes h) run in
    let both : (b.event_buffers == 0 || b.event_buffer_sizes == 0) ≡ false = ground (arith, p, q) in
    rw
      (
        ◌>>=◌,
        create_buffers,
        run,
        both,
        if◌then◌else◌,
        allocate_buffers_refused al (suc left) b h₂ full,
      )
      (release_buffers_wild 1
        (record b { buffer = update b.buffer 0 0; size = update b.size 0 init_event_buffer_size })
        (record h₂ { requests = h₂.requests + 1 }) p (omega (arith, count)) (rw junk ne)
        (rw junk wild))
