-- ===== src/Netevent/Buffers/Release.antt =====
-- The release of the buffers of the CPUs.
use ntosebpfext.Base.{
  ℕ, zero, suc, ◌+◌, ◌≡◌, ◌≢◌, ◌<◌, ◌≤◌, refl, ap, ==_iff, ◌⊎◌, inl, inr, true, false, Option, List,
  [], ◌∷◌, arith, ◌==◌, if◌then◌else◌, Bool-cases, All, ==_ne,
}
use ntosebpfext.Kernel.Command.{Returns, Returns-bind}
use ntosebpfext.Kernel.Pool.{Bytes, Pool, free, free_unless_null}
use ntosebpfext.Kernel.Pool.Owns.{Owns, Ours, Apart, owned, Owns-move, free-Owns, free_ne-Owns}
use ntosebpfext.HookProvider.State.{update}
use ntosebpfext.Netevent.Push.{EventBuffers}
use ntosebpfext.Netevent.Buffers.{release_loop, release_array, release_buffers}
use ntosebpfext.Netevent.Buffers.Holds.{IsNew, HoldsBuffers}

-- The entries from `i` on, `left` of them.
abbrev pub pointers : (ℕ → ℕ) → (i left : ℕ) → List ℕ
pointers g i zero = []
pointers g i (suc left) = g i ∷ pointers g (i + 1) left

pointers-update :
    (g : ℕ → ℕ) (j v i left : ℕ) → j < i → pointers (update g j v) i left ≡ pointers g i left
pointers-update g j v i zero lt = refl
pointers-update g j v i (suc left) lt = ground (arith, pointers-update g j v (i + 1) left, lt)

release_loop-Owns :
    (f : ℕ → Option Bytes) (x left i : ℕ) (b : EventBuffers) (h : Pool)
    → Owns f h (x ∷ pointers b.buffer i left)
    → Returns
        (λ b' h'.
          Owns f h' (x ∷ [])
          × (b'.event_buffers ≡ b.event_buffers)
          × (b'.event_buffer_sizes ≡ b.event_buffer_sizes))
        (release_loop left i b h)
unfolding release_loop
release_loop-Owns f x zero i b h o = (o, refl, refl)
release_loop-Owns f x (suc left) i b h o =
    Returns-bind _ _ (free_unless_null (b.buffer i)) _ h
      (free-Owns f h (b.buffer i) (x ∷ pointers b.buffer (i + 1) left)
        (Owns-move (b.buffer i) (x ∷ []) (pointers b.buffer (i + 1) left) o))
      (λ _ h₁ o₁.
        release_loop-Owns f x left (i + 1) (record b { buffer = update b.buffer i 0 }) h₁
          (rw (pointers-update b.buffer i 0 (i + 1) left (omega arith)) o₁))

pub release_array-Owns :
    (f : ℕ → Option Bytes) (b : EventBuffers) (h : Pool)
    → b.event_buffers ≢ 0
    → Owns f h (b.event_buffers ∷ pointers b.buffer 0 b.cpu_count)
    → Returns
        (λ b' h'.
          Owns f h' [] × (b'.event_buffers ≡ 0) × (b'.event_buffer_sizes ≡ b.event_buffer_sizes))
        (release_array b h)
unfolding release_array
release_array-Owns f b h ne o =
    rw (==_ne b.event_buffers 0 ne, if◌then◌else◌)
      (Returns-bind _ _ (release_loop b.cpu_count 0 b) _ h
        (release_loop-Owns f b.event_buffers b.cpu_count 0 b h o)
        (λ b' h₁ (o₁, e, e').
          Returns-bind (λ _ h₂. Owns f h₂ []) _ (free b'.event_buffers) _ h₁
            (rw e (free_ne-Owns f h₁ b.event_buffers [] ne o₁)) (λ _ h₂ o₂. (o₂, refl, e'))))

-- The first `j` CPUs have buffers, and the entries of the others are NULL.
module _ (f : ℕ → Option Bytes) (b : EventBuffers) (j : ℕ) (h : Pool) (k : HoldsBuffers f b j h)
    (rest : (c : ℕ) → j ≤ c → c < b.cpu_count → b.buffer c ≡ 0) where
  Ours-new : (p : ℕ) → IsNew f h p → Ours f h p
  Ours-new p new = ground (arith, new.live, new.unused)

  below : (c : ℕ) → (c < j) ⊎ (j ≤ c)
  below c = ground arith

  -- A pointer of an entry is NULL or that of a buffer.
  entry : (c : ℕ) → c < b.cpu_count → (b.buffer c ≡ 0) ⊎ (c < j)
  entry c lt = elim (below c) [ inl e ↦ inr e | inr e ↦ inl (rest c e lt) ]

  All-pointers : (i left : ℕ) → i + left ≤ b.cpu_count → All (Ours f h) (pointers b.buffer i left)
  All-pointers i zero le = tt
  All-pointers i (suc left) le = (
    elim (entry i (omega (arith, le))) [
      | inl e ↦ ground (arith, e)
      | inr lt ↦ Ours-new (b.buffer i) (k.new i lt)
    ],
    All-pointers (i + 1) left (omega (arith, le)),
  )

  -- What no entry points to is not in the list.
  not_owned :
      (a i left : ℕ)
      → i + left ≤ b.cpu_count
      → ((c : ℕ) → i ≤ c → c < j → b.buffer c ≢ a)
      → owned a (pointers b.buffer i left) ≡ false
  not_owned a i zero le other = ground arith
  not_owned a i (suc left) le other = ground (
    arith,
    not_owned a (i + 1) left (omega (arith, le)) (λ c l. other c (omega (arith, l))),
    entry i (omega (arith, le)),
    other i (omega arith),
  )

  -- What is not in the list, no buffer is.
  owned_buffer :
      (c i left : ℕ)
      → i ≤ c
      → c < i + left
      → c < j
      → owned (b.buffer c) (pointers b.buffer i left) ≡ true
  owned_buffer c i zero le lt lj = absurd (omega (arith, le, lt))
  owned_buffer c i (suc left) le lt lj = elim here_or_later [
    | inl e ↦ ground (arith, e, (k.new c lj).ne_null)
    | inr l ↦ ground (arith, owned_buffer c (i + 1) left l (omega (arith, lt)) lj)
  ]
    where
      here_or_later : (b.buffer i ≡ b.buffer c) ⊎ (i + 1 ≤ c)
      here_or_later = elim (Bool-cases (i == c)) [
        | inl e ↦ inl (ap b.buffer ((==_iff i c).0 e))
        | inr e ↦ inr (ground (arith, e, le))
      ]

  Apart-pointers : (i left : ℕ) → i + left ≤ b.cpu_count → Apart (pointers b.buffer i left)
  Apart-pointers i zero le = tt
  Apart-pointers i (suc left) le = (
    elim (entry i (omega (arith, le))) [
      | inl e ↦ ground (arith, e)
      | inr lt ↦
          not_owned (b.buffer i) (i + 1) left (omega (arith, le))
            (λ c l lc. k.apart c i lc lt (λ e. omega (arith, e, l)))
    ],
    Apart-pointers (i + 1) left (omega (arith, le)),
  )

  -- What the two static pointers and the entries own.
  HoldsBuffers-Owns :
      j ≤ b.cpu_count
      → Owns f h (b.event_buffer_sizes ∷ b.event_buffers ∷ pointers b.buffer 0 b.cpu_count)
  HoldsBuffers-Owns le =
      let all : 0 + b.cpu_count ≤ b.cpu_count = omega arith in
      record {
        ours = (
          Ours-new b.event_buffer_sizes k.sizes_new,
          (Ours-new b.event_buffers k.buffers_new, All-pointers 0 b.cpu_count all),
        );
        apart = (
          ground (
            arith,
            k.arrays_apart,
            not_owned b.event_buffer_sizes 0 b.cpu_count all (λ c l lc. k.not_sizes c lc),
          ),
          (
            not_owned b.event_buffers 0 b.cpu_count all (λ c l lc. k.not_buffers c lc),
            Apart-pointers 0 b.cpu_count all,
          ),
        );
        frame = λ a e.
            k.frame a (λ x. ground (arith, x, e, k.buffers_new.ne_null))
              (λ x. ground (arith, x, e, k.sizes_new.ne_null))
              (λ c lc x. ground (
                arith,
                e,
                x,
                (k.new c lc).ne_null,
                owned_buffer c 0 b.cpu_count (omega arith) (omega (arith, lc, le)) lc,
              ));
      }

  -- The release frees the buffers and the arrays and nothing else, and resets both pointers.
  pub release_buffers-Released :
      j ≤ b.cpu_count
      → Returns
          (λ b' h'. Owns f h' [] × (b'.event_buffers ≡ 0) × (b'.event_buffer_sizes ≡ 0))
          (release_buffers b h)
  unfolding release_buffers
  release_buffers-Released le =
      Returns-bind _ _ (free_unless_null b.event_buffer_sizes) _ h
        (free-Owns f h b.event_buffer_sizes (b.event_buffers ∷ pointers b.buffer 0 b.cpu_count)
          (HoldsBuffers-Owns le))
        (λ _ h₁ o₁.
          release_array-Owns f (record b { event_buffer_sizes = 0 }) h₁ k.buffers_new.ne_null o₁)
