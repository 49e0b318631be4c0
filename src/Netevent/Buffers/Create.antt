-- ===== src/Netevent/Buffers/Create.antt =====
-- A registration that succeeds leaves a buffer of its own for each CPU.
use ntosebpfext.Base.{
  ℕ, zero, suc, ◌+◌, ◌≡◌, ◌≢◌, ◌<◌, refl, sym, ◌∙◌, ◌⊎◌, inl, inr, true, false, Option, some, arith,
  ◌==◌, if◌then◌else◌, Bool-cases, ==_ne, ==_refl, ◌≤◌,
}
use ntosebpfext.Kernel.Status.{nt_success}
use ntosebpfext.Kernel.Command.{◌>>=◌, Returns, Returns-mono}
use ntosebpfext.Kernel.Pool.{Bytes, Pool, Allocator, write_block, allocate}
use ntosebpfext.HookProvider.State.{update}
use ntosebpfext.Netevent.Push.{EventBuffers}
use ntosebpfext.Netevent.Buffers.{init_event_buffer_size, allocate_buffers}
use ntosebpfext.Netevent.Buffers.Holds.{IsNew, HoldsBuffers}

-- The pool after an allocation of `n` bytes that succeeds.
abbrev pub allocated : Allocator → ℕ → Pool → Pool
allocated al n h = record {
  block = write_block h.block (al.address h n) (some (al.junk h n));
  requests = h.requests + 1;
}

pub allocate_run :
    (al : Allocator) (n : ℕ) (h : Pool)
    → (al.address h n == 0) ≡ false
    → allocate al n h ≡ some (al.address h n, allocated al n h)
unfolding allocate
allocate_run al n h ne = ground (arith, ne)

module _ (al : Allocator) (f : ℕ → Option Bytes) (b : EventBuffers) (i : ℕ) (h : Pool)
    (k : HoldsBuffers f b i h) where
  pub IsNew-kept :
      (n p : ℕ) → (al.address h n == 0) ≡ false → IsNew f h p → IsNew f (allocated al n h) p
  IsNew-kept n p ne new = record {
    ne_null = new.ne_null;
    live = ground (arith, new.live);
    unused = new.unused;
  }

  -- A block that is live is not the one that an allocation returns.
  pub live_other : (n p : ℕ) → (al.address h n == 0) ≡ false → IsNew f h p → p ≢ al.address h n
  live_other n p ne new = ground (arith, ne, new.live, al.address_new h n)

  -- It is not in the memory of before.
  pub allocated-IsNew :
      (n : ℕ) → (al.address h n == 0) ≡ false → IsNew f (allocated al n h) (al.address h n)
  allocated-IsNew n ne = record {
    ne_null = ground (arith, ne);
    live = ground arith;
    unused =
        sym (
          k.frame (al.address h n) (λ e. live_other n b.event_buffers ne k.buffers_new (sym e))
            (λ e. live_other n b.event_buffer_sizes ne k.sizes_new (sym e))
            (λ c lt. live_other n (b.buffer c) ne (k.new c lt)))
        ∙ al.address_new h n (ground (arith, ne));
  }

  -- A CPU is one of the first `i + 1` if it is the last of them or one of the first `i`.
  last_or_earlier : (c : ℕ) → c < i + 1 → ((i == c) ≡ true) ⊎ (((i == c) ≡ false) × (c < i))
  last_or_earlier c lt = ground arith

  -- One buffer more.
  extended :
      (al.address h init_event_buffer_size == 0) ≡ false
      → HoldsBuffers f
          (record b {
            buffer = update b.buffer i (al.address h init_event_buffer_size);
            size = update b.size i init_event_buffer_size;
          })
          (i + 1)
          (allocated al init_event_buffer_size h)
  extended ne =
      let p : ℕ = al.address h init_event_buffer_size in
      let h' : Pool = allocated al init_event_buffer_size h in
      record {
        buffers_new = IsNew-kept init_event_buffer_size b.event_buffers ne k.buffers_new;
        sizes_new = IsNew-kept init_event_buffer_size b.event_buffer_sizes ne k.sizes_new;
        arrays_apart = k.arrays_apart;
        new = λ c lt. elim (last_or_earlier c lt) [
          | inl e ↦ rw e (allocated-IsNew init_event_buffer_size ne)
          | inr (e, lt') ↦ rw e (IsNew-kept init_event_buffer_size (b.buffer c) ne (k.new c lt'))
        ];
        sized = λ c lt. elim (last_or_earlier c lt) [
          | inl e ↦ rw e (
            al.junk h init_event_buffer_size,
            ground arith,
            al.junk_size h init_event_buffer_size,
          )
          | inr (e, lt') ↦
              let (bytes, live, size) = k.sized c lt' in
              rw e (
                bytes,
                ground
                    (arith, live, live_other init_event_buffer_size (b.buffer c) ne (k.new c lt')),
                size,
              )
        ];
        apart = λ c d lc ld ne'. elim (last_or_earlier c lc) [
          | inl e ↦ elim (last_or_earlier d ld) [
            | inl e' ↦ absurd (ground (arith, e, e', ne'))
            | inr (e', lt') ↦
                rw (e, e')
                  (λ x. live_other init_event_buffer_size (b.buffer d) ne (k.new d lt') (sym x))
          ]
          | inr (e, lt) ↦ elim (last_or_earlier d ld) [
            | inl e' ↦ rw (e, e') (live_other init_event_buffer_size (b.buffer c) ne (k.new c lt))
            | inr (e', lt') ↦ rw (e, e') (k.apart c d lt lt' ne')
          ]
        ];
        not_buffers = λ c lt. elim (last_or_earlier c lt) [
          | inl e ↦
              rw e (λ x. live_other init_event_buffer_size b.event_buffers ne k.buffers_new (sym x))
          | inr (e, lt') ↦ rw e (k.not_buffers c lt')
        ];
        not_sizes = λ c lt. elim (last_or_earlier c lt) [
          | inl e ↦
              rw e
                (λ x. live_other init_event_buffer_size b.event_buffer_sizes ne k.sizes_new (sym x))
          | inr (e, lt') ↦ rw e (k.not_sizes c lt')
        ];
        frame = λ a na ns nb.
            let other : (p == a) ≡ false = ==_ne p a (λ x. nb i (omega arith) (rw (==_refl i) x)) in
            rw other (
              k.frame a na ns (λ c lt x.
                nb c (omega (arith, lt)) (rw (==_ne i c (λ e. omega (arith, e, lt))) x)));
      }

  -- No memory for the next buffer.
  refused :
      HoldsBuffers f
        (record b { buffer = update b.buffer i 0; size = update b.size i init_event_buffer_size })
        i
        (record h { requests = h.requests + 1 })
  refused =
      let earlier : (c : ℕ) → c < i → (i == c) ≡ false = λ c lt. ground (arith, lt) in
      record {
        buffers_new = record {
          ne_null = k.buffers_new.ne_null;
          live = k.buffers_new.live;
          unused = k.buffers_new.unused;
        };
        sizes_new = record {
          ne_null = k.sizes_new.ne_null;
          live = k.sizes_new.live;
          unused = k.sizes_new.unused;
        };
        arrays_apart = k.arrays_apart;
        new = λ c lt. rw (earlier c lt) (record {
          ne_null = (k.new c lt).ne_null;
          live = (k.new c lt).live;
          unused = (k.new c lt).unused;
        });
        sized = λ c lt. rw (earlier c lt) (k.sized c lt);
        apart = λ c d lc ld ne. rw (earlier c lc, earlier d ld) (k.apart c d lc ld ne);
        not_buffers = λ c lt. rw (earlier c lt) (k.not_buffers c lt);
        not_sizes = λ c lt. rw (earlier c lt) (k.not_sizes c lt);
        frame = λ a na ns nb. k.frame a na ns (λ c lt x. nb c lt (rw (earlier c lt) x));
      }

pub allocate_refused :
    (al : Allocator) (n : ℕ) (h : Pool)
    → (al.address h n == 0) ≡ true
    → allocate al n h ≡ some (0, record h { requests = h.requests + 1 })
unfolding allocate
allocate_refused al n h z = ground (arith, z)

-- After the loop from `i` on: the first `j` CPUs have buffers, all `n` of them if it succeeds; the other
-- entries are NULL or as they were.
abbrev pub Allocated : (ℕ → Option Bytes) → EventBuffers → ℕ → ℕ → ℕ × EventBuffers → Pool → Type 0
Allocated f b i n (status, b') h' =
    (j : ℕ) × (i ≤ j)
    × (j ≤ n)
    × HoldsBuffers f b' j h'
    × (b'.cpu_count ≡ b.cpu_count)
    × ((c : ℕ) → j ≤ c → (b'.buffer c ≡ 0) ⊎ (b'.buffer c ≡ b.buffer c))
    × (((nt_success status ≡ true) × (j ≡ n)) ⊎ (nt_success status ≡ false))

pub allocate_buffers-Allocated :
    (al : Allocator) (f : ℕ → Option Bytes) (left i : ℕ) (b : EventBuffers) (h : Pool)
    → HoldsBuffers f b i h
    → Returns (Allocated f b i (i + left)) (allocate_buffers al left i b h)
unfolding allocate_buffers
allocate_buffers-Allocated al f zero i b h k =
    (i, omega arith, omega arith, k, refl, λ c le. inr refl, inl (refl, omega arith))
allocate_buffers-Allocated al f (suc left) i b h k =
    let p : ℕ = al.address h init_event_buffer_size in
    elim (Bool-cases (p == 0)) [
      | inl z ↦
          rw
            (allocate_buffers, allocate_refused al init_event_buffer_size h z, ◌>>=◌, if◌then◌else◌)
            (
              i,
              omega arith,
              omega arith,
              refused al f b i h k,
              refl,
              λ c le. entry_after c,
              inr refl,
            )
      | inr nz ↦
          let b₁ : EventBuffers = record b {
            buffer = update b.buffer i p;
            size = update b.size i init_event_buffer_size;
          } in
          rw
            (
              allocate_buffers,
              allocate_run al init_event_buffer_size h nz,
              ◌>>=◌,
              nz,
              if◌then◌else◌,
            )
            (Returns-mono (Allocated f b₁ (i + 1) (i + 1 + left)) (Allocated f b i (i + suc left)) _
              (allocate_buffers-Allocated al f left (i + 1) b₁
                (allocated al init_event_buffer_size h) (extended al f b i h k nz))
              (λ (status, b') h' (j, lo, hi, k', count, rest, end). (
                j,
                omega (arith, lo),
                omega (arith, hi),
                k',
                count,
                λ c le. later b' c (omega (arith, lo, le)) (rest c le),
                elim end [ inl (ok, e) ↦ inl (ok, omega (arith, e)) | inr bad ↦ inr bad ],
              )))
    ]
  where
    entry_after : (c : ℕ) → (update b.buffer i 0 c ≡ 0) ⊎ (update b.buffer i 0 c ≡ b.buffer c)
    entry_after c = ground arith

    later :
        (b' : EventBuffers) (c : ℕ)
        → i < c
        → (b'.buffer c ≡ 0)
          ⊎ (b'.buffer c ≡ update b.buffer i (al.address h init_event_buffer_size) c)
        → (b'.buffer c ≡ 0) ⊎ (b'.buffer c ≡ b.buffer c)
    later b' c lt x = ground (arith, lt, x)
