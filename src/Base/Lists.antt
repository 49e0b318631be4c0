-- ===== src/Base/Lists.antt =====
-- Lists measured by native numbers, and membership of addresses as a Boolean.
use Prim.Native.Nat.{ℕ, zero, suc, ◌+◌, ◌-◌, min}
use mathlib.Core.Path.{◌≡◌, refl, sym, subst}
use mathlib.Core.Logic.{inl, inr}
use mathlib.Core.Bool.{Bool, true, false, ◌||◌}
use mathlib.Core.List.{List, [], ◌∷◌, ◌++◌}
use mathlib.Core.Option.{Option, none, some}
use native.Mathlib.Omega.{arith}
use ntosebpfext.Base.Tests.{◌==◌, if◌then◌else◌, ==_iff, Bool-cases}

module _ {ℓ} {A : Type ℓ} where
  abbrev pub length : List A → ℕ
  length [] = 0
  length (x ∷ xs) = suc (length xs)

  abbrev pub take : ℕ → List A → List A
  take zero xs = []
  take (suc n) [] = []
  take (suc n) (x ∷ xs) = x ∷ take n xs

  abbrev pub drop : ℕ → List A → List A
  drop zero xs = xs
  drop (suc n) [] = []
  drop (suc n) (x ∷ xs) = drop n xs

  abbrev pub head? : List A → Option A
  head? [] = none
  head? (x ∷ xs) = some x

  pub length-append : (xs ys : List A) → length (xs ++ ys) ≡ length xs + length ys
  length-append [] ys = omega arith
  length-append (x ∷ xs) ys = omega (arith, length-append xs ys)

  pub length-take : (n : ℕ) (xs : List A) → length (take n xs) ≡ min n (length xs)
  length-take zero xs = omega arith
  length-take (suc n) [] = omega arith
  length-take (suc n) (x ∷ xs) = omega (arith, length-take n xs)

  pub length-drop : (n : ℕ) (xs : List A) → length (drop n xs) ≡ length xs - n
  length-drop zero xs = omega arith
  length-drop (suc n) [] = omega arith
  length-drop (suc n) (x ∷ xs) = omega (arith, length-drop n xs)

-- Membership of an address, as a test.
abbrev pub has : ℕ → List ℕ → Bool
has a [] = false
has a (x ∷ xs) = (a == x) || has a xs

infix 40 ◌∈◌ ◌∉◌
abbrev pub ◌∈◌ : ℕ → List ℕ → Type 0
a ∈ xs = has a xs ≡ true

abbrev pub ◌∉◌ : ℕ → List ℕ → Type 0
a ∉ xs = has a xs ≡ false

-- No address occurs twice.
abbrev pub Distinct : List ℕ → Type 0
Distinct [] = Unit {0}
Distinct (x ∷ xs) = (x ∉ xs) × Distinct xs

abbrev pub erase : ℕ → List ℕ → List ℕ
erase a [] = []
erase a (x ∷ xs) = if a == x then xs else x ∷ erase a xs

abbrev pub All {ℓ κ} : {A : Type ℓ} → (A → Type κ) → List A → Type κ
All P [] = Unit
All P (x ∷ xs) = P x × All P xs

pub All-append {ℓ κ} :
    {A : Type ℓ} (P : A → Type κ) (xs ys : List A) → All P xs → All P ys → All P (xs ++ ys)
All-append P [] ys hx hy = hy
All-append P (x ∷ xs) ys hx hy = (hx.0, All-append P xs ys hx.1 hy)

pub All-map {ℓ κ μ} :
    {A : Type ℓ} (P : A → Type κ) (Q : A → Type μ) (xs : List A)
    → ((x : A) → P x → Q x)
    → All P xs
    → All Q xs
All-map P Q [] f h = tt
All-map P Q (x ∷ xs) f h = (f x h.0, All-map P Q xs f h.1)

pub All_of_mem : (P : ℕ → Type 0) (a : ℕ) (xs : List ℕ) → All P xs → a ∈ xs → P a
All_of_mem P a [] h m = cc
All_of_mem P a (x ∷ xs) h m = elim (Bool-cases (a == x)) [
  | inl e ↦ subst P (sym ((==_iff a x).0 e)) h.0
  | inr e ↦ All_of_mem P a xs h.1 (rw e at m)
]

pub not-mem-append : (a : ℕ) (xs ys : List ℕ) → a ∉ xs → a ∉ ys → a ∉ xs ++ ys
not-mem-append a [] ys hx hy = hy
not-mem-append a (x ∷ xs) ys hx hy = ground (arith, not-mem-append a xs ys)

pub length-erase : (a : ℕ) (xs : List ℕ) → a ∈ xs → length (erase a xs) + 1 ≡ length xs
length-erase a [] m = cc
length-erase a (x ∷ xs) m = ground (arith, length-erase a xs)

pub not-mem-erase : (a b : ℕ) (xs : List ℕ) → a ∉ xs → a ∉ erase b xs
not-mem-erase a b [] h = refl
not-mem-erase a b (x ∷ xs) h = ground (arith, not-mem-erase a b xs)

pub erase-Distinct : (a : ℕ) (xs : List ℕ) → Distinct xs → Distinct (erase a xs)
erase-Distinct a [] h = tt
erase-Distinct a (x ∷ xs) h = ground (arith, erase-Distinct a xs, not-mem-erase x a xs)

pub not-mem-erase_self : (a : ℕ) (xs : List ℕ) → Distinct xs → a ∉ erase a xs
not-mem-erase_self a [] h = refl
not-mem-erase_self a (x ∷ xs) h = ground (arith, not-mem-erase_self a xs)
