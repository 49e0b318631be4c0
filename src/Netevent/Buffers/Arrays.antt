-- ===== src/Netevent/Buffers/Arrays.antt =====
-- The initialisation of the buffers as a whole: the two arrays, and then the loop.
use ntosebpfext.Base.{
  ℕ, ◌+◌, ◌*◌, ◌≡◌, ◌≤◌, refl, ◌∙◌, ◌⊎◌, inl, inr, true, false, [], ◌∷◌, arith, ◌||◌, ◌==◌,
  if◌then◌else◌, Bool-cases,
}
use ntosebpfext.Kernel.Status.{nt_success}
use ntosebpfext.Kernel.Command.{Returns, Returns-bind, Returns-mono}
use ntosebpfext.Kernel.Pool.{Pool, Allocator, allocate}
use ntosebpfext.Kernel.Pool.Owns.{Owns, Owns-self, allocate-Owns}
use ntosebpfext.Netevent.Push.{EventBuffers}
use ntosebpfext.Netevent.Buffers.{sizeof_pointer, allocate_arrays, create_buffers}
use ntosebpfext.Netevent.Buffers.Holds.{HoldsBuffers}
use ntosebpfext.Netevent.Buffers.Create.{Allocated, allocate_buffers-Allocated}

module _ (al : Allocator) (n : ℕ) (buffers sizes : ℕ → ℕ) (h : Pool) where
  -- The arrays that there was memory for, with entries that are not initialised.
  abbrev pub Arrays : EventBuffers → Pool → Type 0
  Arrays b h' =
      Owns h.block h' (b.event_buffer_sizes ∷ b.event_buffers ∷ [])
      × (b.cpu_count ≡ n)
      × (b.buffer ≡ buffers)

  pub allocate_arrays-Arrays : Returns Arrays (allocate_arrays al n buffers sizes h)
  unfolding allocate_arrays
  allocate_arrays-Arrays =
      Returns-bind _ _ (allocate al (n * sizeof_pointer)) _ h
        (allocate-Owns h.block h [] (Owns-self h) al (n * sizeof_pointer))
        (λ p h₁ (_, o₁).
          Returns-bind _ _ (allocate al (n * sizeof_pointer)) _ h₁
            (allocate-Owns h.block h₁ (p ∷ []) o₁ al (n * sizeof_pointer))
            (λ q h₂ (_, o₂). (o₂, refl, refl)))

  both-HoldsBuffers :
      (b : EventBuffers) (h' : Pool)
      → (b.event_buffers == 0 || b.event_buffer_sizes == 0) ≡ false
      → Owns h.block h' (b.event_buffer_sizes ∷ b.event_buffers ∷ [])
      → HoldsBuffers h.block b 0 h'
  both-HoldsBuffers b h' ne o = record {
    buffers_new = record {
      ne_null = ground (arith, ne);
      live = ground (arith, ne, o.ours.1.0);
      unused = ground (arith, ne, o.ours.1.0);
    };
    sizes_new = record {
      ne_null = ground (arith, ne);
      live = ground (arith, ne, o.ours.0);
      unused = ground (arith, ne, o.ours.0);
    };
    arrays_apart = ground (arith, ne, o.apart.0);
    new = λ c lt. absurd (omega (arith, lt));
    sized = λ c lt. absurd (omega (arith, lt));
    apart = λ c d lc ld e. absurd (omega (arith, lc));
    not_buffers = λ c lt. absurd (omega (arith, lt));
    not_sizes = λ c lt. absurd (omega (arith, lt));
    frame = λ a na ns nb. o.frame a (ground (arith, na, ns));
  }

  -- Both arrays and buffers, all of them on success; or an array is missing, and no buffer is allocated.
  abbrev pub Created : ℕ × EventBuffers → Pool → Type 0
  Created (status, b) h' =
      (b.cpu_count ≡ n)
      × (((j : ℕ) × (j ≤ n)
            × HoldsBuffers h.block b j h'
            × ((c : ℕ) → j ≤ c → (b.buffer c ≡ 0) ⊎ (b.buffer c ≡ buffers c))
            × (((nt_success status ≡ true) × (j ≡ n)) ⊎ (nt_success status ≡ false)))
          ⊎ ((nt_success status ≡ false) × Arrays b h'))

  -- The initialisation of the buffers does not fault. With both arrays, the first CPUs have buffers of their
  -- own, all of them if it succeeds; it fails otherwise, and the entries that it did not set are as they were.
  pub create_buffers-Created : Returns Created (create_buffers al n buffers sizes h)
  unfolding create_buffers
  create_buffers-Created =
      Returns-bind Arrays Created (allocate_arrays al n buffers sizes) _ h allocate_arrays-Arrays
        (λ b h₁ (o, count, junk).
          elim (Bool-cases (b.event_buffers == 0 || b.event_buffer_sizes == 0)) [
            | inl t ↦ rw (t, if◌then◌else◌) (count, inr (refl, (o, count, junk)))
            | inr t ↦
                rw (t, if◌then◌else◌)
                  (Returns-mono (Allocated h.block b 0 (0 + n)) Created _
                    (allocate_buffers-Allocated al h.block n 0 b h₁ (both-HoldsBuffers b h₁ t o))
                    (λ (status, b') h' (j, lo, hi, k, count', rest, end). (
                      count' ∙ count,
                      inl (
                        j,
                        omega (arith, hi),
                        k,
                        λ c le. rw junk at rest c le,
                        elim end [ inl (ok, e) ↦ inl (ok, omega (arith, e)) | inr bad ↦ inr bad ],
                      ),
                    )))
          ])
