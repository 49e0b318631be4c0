-- ===== src/Netevent/Buffers/Grow.antt =====
-- The push of an event keeps a buffer of its own for each CPU.
use ntosebpfext.Base.{
  ℕ, ◌+◌, ◌≡◌, ◌≢◌, ◌<◌, refl, sym, subst, ◌∙◌, inl, inr, false, Option, none, arith, ◌==◌,
  Bool-cases, ==_ne, ==_iff, ==_refl,
}
use ntosebpfext.Kernel.Pool.{Bytes, Pool, Allocator, write_block}
use ntosebpfext.HookProvider.State.{update}
use ntosebpfext.Netevent.Push.{EventBuffers}
use ntosebpfext.Netevent.Push.Bounds.{HasSize, Only}
use ntosebpfext.Netevent.Buffers.Holds.{IsNew, HoldsBuffers}
use ntosebpfext.Netevent.Buffers.Create.{allocated, live_other, allocated-IsNew}

IsNew-same :
    (f : ℕ → Option Bytes) (h h' : Pool) (p : ℕ)
    → h'.block p ≡ h.block p
    → IsNew f h p
    → IsNew f h' p
IsNew-same f h h' p e new = record {
  ne_null = new.ne_null;
  live = ground (arith, e, new.live);
  unused = new.unused;
}

-- A write to the buffer of one CPU.
pub Only-HoldsBuffers :
    (f : ℕ → Option Bytes) (b : EventBuffers) (n cpu : ℕ) (h h' : Pool)
    → cpu < n
    → HoldsBuffers f b n h
    → Only (b.buffer cpu) (b.size cpu) h h'
    → HoldsBuffers f b n h'
Only-HoldsBuffers f b n cpu h h' lt k ((bytes, live, size), others) = record {
  buffers_new =
      IsNew-same f h h' b.event_buffers (others b.event_buffers (λ e. k.not_buffers cpu lt (sym e)))
        k.buffers_new;
  sizes_new =
      IsNew-same f h h' b.event_buffer_sizes
        (others b.event_buffer_sizes (λ e. k.not_sizes cpu lt (sym e))) k.sizes_new;
  arrays_apart = k.arrays_apart;
  new = λ c lc. elim (Bool-cases (cpu == c)) [
    | inl e ↦ record {
      ne_null = (k.new c lc).ne_null;
      live = ground (arith, e, live);
      unused = (k.new c lc).unused;
    }
    | inr e ↦
        IsNew-same f h h' (b.buffer c)
          (others (b.buffer c) (k.apart c cpu lc lt (λ x. ground (arith, e, x)))) (k.new c lc)
  ];
  sized = λ c lc. elim (Bool-cases (cpu == c)) [
    | inl e ↦
        subst (λ d. HasSize (b.buffer d) (b.size d) h') ((==_iff cpu c).0 e) (bytes, live, size)
    | inr e ↦
        let (bytes', live', size') = k.sized c lc in
        (
          bytes',
          others (b.buffer c) (k.apart c cpu lc lt (λ x. ground (arith, e, x))) ∙ live',
          size',
        )
  ];
  apart = k.apart;
  not_buffers = k.not_buffers;
  not_sizes = k.not_sizes;
  frame = λ a na ns nb. others a (λ e. nb cpu lt (sym e)) ∙ k.frame a na ns nb;
}

module _ (al : Allocator) (f : ℕ → Option Bytes) (b : EventBuffers) (n cpu total : ℕ) (h : Pool)
    (lt : cpu < n) (k : HoldsBuffers f b n h) where
  -- Requests are counted, and no block changes.
  pub counted : HoldsBuffers f b n (record h { requests = h.requests + 1 })
  counted =
      Only-HoldsBuffers f b n cpu h (record h { requests = h.requests + 1 }) lt k
        (k.sized cpu lt, λ a ne. refl)

  abbrev pub grown_pool : Pool
  grown_pool = record (allocated al total h) {
    block = write_block (allocated al total h).block (b.buffer cpu) none;
  }

  kept :
      (q : ℕ)
      → (al.address h total == 0) ≡ false
      → q ≢ b.buffer cpu
      → IsNew f h q
      → IsNew f grown_pool q
  kept q nz ne new = record {
    ne_null = new.ne_null;
    live = ground (arith, ne, new.live);
    unused = new.unused;
  }

  -- The old buffer of the CPU is freed, and the new one takes its place.
  pub replaced :
      (al.address h total == 0) ≡ false
      → HoldsBuffers f
          (record b {
            buffer = update b.buffer cpu (al.address h total);
            size = update b.size cpu total;
          })
          n
          grown_pool
  replaced nz =
      let p : ℕ = al.address h total in
      let other : (q : ℕ) → IsNew f h q → q ≢ p = λ q new. live_other al f b n h k total q nz new in
      record {
        buffers_new = kept b.event_buffers nz (λ e. k.not_buffers cpu lt (sym e)) k.buffers_new;
        sizes_new = kept b.event_buffer_sizes nz (λ e. k.not_sizes cpu lt (sym e)) k.sizes_new;
        arrays_apart = k.arrays_apart;
        new = λ c lc. elim (Bool-cases (cpu == c)) [
          | inl e ↦ rw e (record {
            ne_null = ground (arith, nz);
            live = ground (arith, other (b.buffer cpu) (k.new cpu lt));
            unused = (allocated-IsNew al f b n h k total nz).unused;
          })
          | inr e ↦
              rw e (
                kept (b.buffer c) nz (k.apart c cpu lc lt (λ x. ground (arith, e, x))) (k.new c lc))
        ];
        sized = λ c lc. elim (Bool-cases (cpu == c)) [
          | inl e ↦ rw e (
            al.junk h total,
            ground (arith, other (b.buffer cpu) (k.new cpu lt)),
            al.junk_size h total,
          )
          | inr e ↦
              let (bytes, live, size) = k.sized c lc in
              rw e (
                bytes,
                ground (
                  arith,
                  live,
                  other (b.buffer c) (k.new c lc),
                  k.apart c cpu lc lt (λ x. ground (arith, e, x)),
                ),
                size,
              )
        ];
        apart = λ c d lc ld ne. elim (Bool-cases (cpu == c)) [
          | inl e ↦ elim (Bool-cases (cpu == d)) [
            | inl e' ↦ absurd (ground (arith, e, e', ne))
            | inr e' ↦ rw (e, e') (λ x. other (b.buffer d) (k.new d ld) (sym x))
          ]
          | inr e ↦ elim (Bool-cases (cpu == d)) [
            | inl e' ↦ rw (e, e') (other (b.buffer c) (k.new c lc))
            | inr e' ↦ rw (e, e') (k.apart c d lc ld ne)
          ]
        ];
        not_buffers = λ c lc. elim (Bool-cases (cpu == c)) [
          | inl e ↦ rw e (λ x. other b.event_buffers k.buffers_new (sym x))
          | inr e ↦ rw e (k.not_buffers c lc)
        ];
        not_sizes = λ c lc. elim (Bool-cases (cpu == c)) [
          | inl e ↦ rw e (λ x. other b.event_buffer_sizes k.sizes_new (sym x))
          | inr e ↦ rw e (k.not_sizes c lc)
        ];
        frame = λ a na ns nb. elim (Bool-cases (b.buffer cpu == a)) [
          | inl e ↦ ground (arith, e, (k.new cpu lt).unused)
          | inr e ↦
              let new_other : (p == a) ≡ false = ==_ne p a (λ x. nb cpu lt (rw (==_refl cpu) x)) in
              rw (e, new_other)
                (k.frame a na ns (λ c lc x. elim (Bool-cases (cpu == c)) [
                  | inl e' ↦ ground (arith, e, e', x)
                  | inr e' ↦ nb c lc (rw e' x)
                ]))
        ];
      }
