-- ===== src/Ntos/Account/Buffers.antt =====
-- The buffers that the account lookup allocates and frees.
use ntosebpfext.Base.{
  ℕ, ◌≡◌, refl, subst, ◌⊎◌, inl, inr, Bool, true, false, Option, List, ◌∷◌, arith, ltb, ◌==◌,
  ==_iff, if◌then◌else◌, Bool-cases,
}
use ntosebpfext.Kernel.Command.{pure, Returns, Returns-bind}
use ntosebpfext.Kernel.Pool.{Bytes, Pool, Allocator, allocate, free, free_unless_null}
use ntosebpfext.Kernel.Pool.Owns.{Owns, allocate-Owns, free-Owns}
use ntosebpfext.Ntos.Types.{UnicodeString}
use ntosebpfext.Ntos.Strings.Copied.{Owns-null}
use ntosebpfext.Ntos.Account.{SidFunctions, grow, free_if}

-- A lookup writes to the buffers that it is given, and neither allocates nor frees nor moves one.
pub record KeepsBuffers (sid : SidFunctions) : Type 0 where
  pub keeps :
      (bytes : Bytes) (m : ℕ) (name : UnicodeString) (n : ℕ) (domain : UnicodeString) (h : Pool)
      → Returns
          (λ (status, m', name', n', domain') h'.
            (name'.buffer ≡ name.buffer)
            × (domain'.buffer ≡ domain.buffer)
            × ((f : ℕ → Option Bytes) (ps : List ℕ) → Owns f h ps → Owns f h' ps))
          (sid.lookup bytes m name n domain h)

-- The pointer that took the place of another, or NULL.
abbrev pub fresh : (initial current : ℕ) → ℕ
fresh initial current = if initial == current then 0 else current

-- The pointer of a string that may be new: owned if it is, and otherwise the initial one.
abbrev pub new_pointer : Bool → ℕ → ℕ
new_pointer heap_allocated p = if heap_allocated then p else 0

module _ (f : ℕ → Option Bytes) where
  pub grow-Owns :
      (al : Allocator) (size : ℕ) (s : UnicodeString) (h : Pool) (ps : List ℕ)
      → Owns f h ps
      → Returns
          (λ (status, s', new) h'.
            Owns f h' (new_pointer new s'.buffer ∷ ps)
            × ((new ≡ true) ⊎ (s' ≡ s))
            × ((new ≡ true) → (s'.buffer == 0) ≡ false))
          (grow al size s h)
  unfolding grow
  grow-Owns al size s h ps o = elim (Bool-cases (ltb s.maximum_length size)) [
    | inl t ↦
        rw (t, if◌then◌else◌)
          (Returns-bind _ _ (allocate al size) _ h (allocate-Owns f h ps o al size) (λ p h₁ (e, o₁).
            elim (Bool-cases (p == 0)) [
              | inl z ↦
                  rw (z, if◌then◌else◌)
                    (
                      subst (λ q. Owns f h₁ (q ∷ ps)) ((==_iff p 0).0 z) o₁,
                      inr refl,
                      λ k. absurd (ground (arith, k)),
                    )
              | inr nz ↦ rw (nz, if◌then◌else◌) (o₁, inl refl, λ k. nz)
            ]))
    | inr t ↦ rw (t, if◌then◌else◌) (Owns-null o, inr refl, λ k. absurd (ground (arith, k)))
  ]

  pub free_if-Owns :
      (new : Bool) (p : ℕ) (h : Pool) (ps : List ℕ)
      → ((new ≡ true) → (p == 0) ≡ false)
      → Owns f h (new_pointer new p ∷ ps)
      → Returns (λ _ h'. Owns f h' ps) (free_if new p h)
  unfolding free_unless_null
  free_if-Owns true p h ps nz o =
      subst (λ b. Returns (λ _ h'. Owns f h' ps) ((if b then pure tt else free p) h)) (nz refl)
        (free-Owns f h p ps o)
  free_if-Owns false p h ps nz o = free-Owns f h 0 ps o
