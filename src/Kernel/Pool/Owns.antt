-- ===== src/Kernel/Pool/Owns.antt =====
-- Ownership: `Owns f h ps` says that the pool `h` is the memory `f` and, besides, one live block for each
-- pointer of `ps` that is not NULL.
use ntosebpfext.Base.{
  ℕ, ◌+◌, ◌≡◌, ◌≢◌, refl, ==_ne, inl, inr, Bool, true, false, not, ◌&&◌, ◌||◌, Option, none, some,
  List, [], ◌∷◌, arith, ◌==◌, if◌then◌else◌, length, drop, has, All, Bool-cases, Option-cases,
  le→leb, ◌≤◌,
}
use ntosebpfext.Kernel.Command.{Returns}
use ntosebpfext.Kernel.Pool.{
  Bytes, Pool, Allocator, write_block, allocate, free, free_unless_null, write,
}
use mathlib.Core.List.{◌++◌}

-- A pointer of the list, and not NULL.
abbrev pub owned : ℕ → List ℕ → Bool
owned b ps = not (b == 0) && has b ps

-- No pointer but NULL stands twice.
abbrev pub Apart : List ℕ → Type 0
Apart [] = Unit {0}
Apart (p ∷ ps) = (owned p ps ≡ false) × Apart ps

abbrev pub is_live : Pool → ℕ → Bool
is_live h p = elim (h.block p) [ none ↦ false | some c ↦ true ]

abbrev pub is_unused : (ℕ → Option Bytes) → ℕ → Bool
is_unused f p = elim (f p) [ none ↦ true | some c ↦ false ]

-- A block of ours: live in `h`, and not in the memory `f` that we were given.
abbrev pub Ours : (ℕ → Option Bytes) → Pool → ℕ → Type 0
Ours f h p = ((p == 0) || (is_live h p && is_unused f p)) ≡ true

pub record Owns (f : ℕ → Option Bytes) (h : Pool) (ps : List ℕ) : Type 0 where
  pub ours : All (Ours f h) ps
  pub apart : Apart ps
  pub frame : (b : ℕ) → owned b ps ≡ false → h.block b ≡ f b

-- A pool owns nothing beside itself.
pub Owns-self : (h : Pool) → Owns h.block h []
Owns-self h = record { ours = tt; apart = tt; frame = λ b e. refl }

-- With nothing left, the memory is what it was.
pub block_of_nothing : {f : ℕ → Option Bytes} {h : Pool} → Owns f h [] → (b : ℕ) → h.block b ≡ f b
block_of_nothing o b = o.frame b (ground arith)

module _ (f : ℕ → Option Bytes) (h : Pool) (ps : List ℕ) (o : Owns f h ps) where
  Ours-after_alloc :
      (al : Allocator) (n : ℕ) (qs : List ℕ)
      → All (Ours f h) qs
      → All
          (Ours f (record {
            block =
                if al.address h n == 0
                then h.block
                else write_block h.block (al.address h n) (some (al.junk h n));
            requests = h.requests + 1;
          }))
          qs
  Ours-after_alloc al n [] k = tt
  Ours-after_alloc al n (q ∷ qs) k = (ground (arith, k), Ours-after_alloc al n qs k.1)

  owned_unused : (qs : List ℕ) (b : ℕ) → All (Ours f h) qs → h.block b ≡ none → owned b qs ≡ false
  owned_unused [] b k e = ground arith
  owned_unused (q ∷ qs) b k e = ground (arith, owned_unused qs b k.1 e, k.0)

  -- A new block is owned too.
  pub allocate-Owns :
      (al : Allocator) (n : ℕ)
      → Returns (λ p h'. (p ≡ al.address h n) × Owns f h' (p ∷ ps)) (allocate al n h)
  unfolding allocate
  allocate-Owns al n = (
    refl,
    record {
      ours = (
        ground (
          arith,
          o.frame (al.address h n),
          owned_unused ps (al.address h n) o.ours,
          al.address_new h n,
        ),
        Ours-after_alloc al n ps o.ours,
      );
      apart =
          (ground (arith, owned_unused ps (al.address h n) o.ours, al.address_new h n), o.apart);
      frame = λ b e. ground (arith, o.frame b);
    },
  )

module _ (f : ℕ → Option Bytes) (h : Pool) (p : ℕ) where
  Ours-after_write :
      (v : Option Bytes) (n : ℕ) (qs : List ℕ)
      → owned p qs ≡ false
      → (p == 0) ≡ false
      → All (Ours f h) qs
      → All (Ours f (record { block = write_block h.block p v; requests = n })) qs
  Ours-after_write v n [] e z k = tt
  Ours-after_write v n (q ∷ qs) e z k =
      (ground (arith, k.0), Ours-after_write v n qs (ground arith) z k.1)

  Ours-after_overwrite :
      (c : Bytes) (n : ℕ) (qs : List ℕ)
      → All (Ours f h) qs
      → All (Ours f (record { block = write_block h.block p (some c); requests = n })) qs
  Ours-after_overwrite c n [] k = tt
  Ours-after_overwrite c n (q ∷ qs) k = (ground (arith, k.0), Ours-after_overwrite c n qs k.1)

  -- Freeing what is owned does not fault, and gives up just that.
  pub free-Owns :
      (ps : List ℕ) → Owns f h (p ∷ ps) → Returns (λ _ h'. Owns f h' ps) (free_unless_null p h)
  unfolding free_unless_null
  free-Owns ps o = elim (Bool-cases (p == 0)) [
    | inl z ↦
        rw z
          (record { ours = o.ours.1; apart = o.apart.1; frame = λ b e. o.frame b (ground arith) })
    | inr nz ↦
        let (c, live) = live_block nz o.ours.0 in
        rw (nz, live, if◌then◌else◌, free)
          (record {
            ours = Ours-after_write none h.requests ps o.apart.0 nz o.ours.1;
            apart = o.apart.1;
            frame = λ b e. ground (arith, o.frame b, o.ours.0);
          })
  ]
    where
      live_block : (p == 0) ≡ false → Ours f h p → (c : Bytes) × (h.block p ≡ some c)
      live_block z k = elim (Option-cases (h.block p)) [
        | inl e ↦ absurd (ground (arith, e, k, z))
        | inr w ↦ w
      ]

  free_unless_null_ne : p ≢ 0 → free_unless_null p h ≡ free p h
  unfolding free_unless_null
  free_unless_null_ne ne = rw (==_ne p 0 ne, if◌then◌else◌) refl

  -- The same for a free without the test.
  pub free_ne-Owns :
      (ps : List ℕ) → p ≢ 0 → Owns f h (p ∷ ps) → Returns (λ _ h'. Owns f h' ps) (free p h)
  free_ne-Owns ps ne o = rw⁻¹ (free_unless_null_ne ne) (free-Owns ps o)

  -- A write to a block that is owned keeps the ownership.
  pub write-Owns :
      (bytes c : Bytes) (ps : List ℕ)
      → Owns f h ps
      → owned p ps ≡ true
      → h.block p ≡ some c
      → length bytes ≤ length c
      → (write p bytes h
          ≡ some (
            tt,
            record h { block = write_block h.block p (some (bytes ++ drop (length bytes) c)) },
          ))
        × Owns f
            (record h { block = write_block h.block p (some (bytes ++ drop (length bytes) c)) })
            ps
  unfolding write
  write-Owns bytes c ps o m live fits = (
    rw (live, write, le→leb (length bytes) (length c) fits),
    record {
      ours = Ours-after_overwrite (bytes ++ drop (length bytes) c) h.requests ps o.ours;
      apart = o.apart;
      frame = λ b e. ground (arith, o.frame b, m, e);
    },
  )

-- The order of the pointers does not matter.
module _ (p : ℕ) where
  has-move : (b : ℕ) (qs rs : List ℕ) → has b (qs ++ p ∷ rs) ≡ has b (p ∷ qs ++ rs)
  has-move b [] rs = refl
  has-move b (q ∷ qs) rs = ground (arith, has-move b qs rs)

  Apart-move : (qs rs : List ℕ) → Apart (qs ++ p ∷ rs) → Apart (p ∷ qs ++ rs)
  Apart-move [] rs k = k
  Apart-move (q ∷ qs) rs k = ground (arith, has-move q qs rs, Apart-move qs rs k.1)

  All-move : (P : ℕ → Type 0) (qs rs : List ℕ) → All P (qs ++ p ∷ rs) → All P (p ∷ qs ++ rs)
  All-move P [] rs k = k
  All-move P (q ∷ qs) rs k = ((All-move P qs rs k.1).0, (k.0, (All-move P qs rs k.1).1))

  pub Owns-move :
      {f : ℕ → Option Bytes} {h : Pool} (qs rs : List ℕ)
      → Owns f h (qs ++ p ∷ rs)
      → Owns f h (p ∷ qs ++ rs)
  Owns-move qs rs o = record {
    ours = All-move _ qs rs o.ours;
    apart = Apart-move qs rs o.apart;
    frame = λ b e. o.frame b (ground (arith, has-move b qs rs, e));
  }
