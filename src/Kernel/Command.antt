-- ===== src/Kernel/Command.antt =====
-- Commands over a state: `none` is a fault, such as an access through a NULL or a freed pointer,
-- or a free of what is not allocated.
use ntosebpfext.Base.{◌≡◌, refl, subst, Option, none, some}

abbrev pub Cmd : Type 0 → Type 0 → Type 0
Cmd S A = S → Option (A × S)

module _ {S A : Type 0} where
  abbrev pub pure : A → Cmd S A
  pure a s = some (a, s)

  abbrev pub fault : Cmd S A
  fault s = none

infixl 5 ◌>>=◌ ◌>>◌
abbrev pub ◌>>=◌ : {S A B : Type 0} → Cmd S A → (A → Cmd S B) → Cmd S B
◌>>=◌ m f s = elim (m s) [ none ↦ none | some (a, s') ↦ f a s' ]

abbrev pub ◌>>◌ : {S B : Type 0} → Cmd S (Unit {0}) → Cmd S B → Cmd S B
m >> k = m >>= λ _. k

-- A command on a part of the state.
abbrev pub focus : {S T A : Type 0} → (S → T) → (T → S → S) → Cmd T A → Cmd S A
focus part put m s = elim (m (part s)) [ none ↦ none | some (a, t) ↦ some (a, put t s) ]

-- The run does not fault, and its result and final state meet `P`.
abbrev pub Returns : {S A : Type 0} → (A → S → Type 0) → Option (A × S) → Type 0
Returns P none = ⊥
Returns P (some (a, s)) = P a s

-- The rule for a sequence.
pub Returns-bind :
    {S A B : Type 0} (P : A → S → Type 0) (Q : B → S → Type 0) (m : Cmd S A) (k : A → Cmd S B)
    (s : S)
    → Returns P (m s)
    → ((a : A) (s' : S) → P a s' → Returns Q (k a s'))
    → Returns Q ((m >>= k) s)
Returns-bind {S} {A} P Q m k s r next = step (m s) r
  where
    step :
        (o : Option (A × S))
        → Returns P o
        → Returns Q (elim o [ none ↦ none | some (a, s') ↦ k a s' ])
    step none r' = r'
    step (some (a, s')) r' = next a s' r'

pub Returns-mono :
    {S A : Type 0} (P Q : A → S → Type 0) (o : Option (A × S))
    → Returns P o
    → ((a : A) (s : S) → P a s → Q a s)
    → Returns Q o
Returns-mono P Q none r weaken = r
Returns-mono P Q (some (a, s)) r weaken = weaken a s r

-- A result that has a property is the result of the run.
pub Returns-run :
    {S A : Type 0} (P : A → S → Type 0) (o : Option (A × S))
    → Returns P o
    → Returns (λ a s. P a s × (o ≡ some (a, s))) o
Returns-run P none p = p
Returns-run P (some (a, s)) p = (p, refl)

-- Two properties of a result hold at once.
pub Returns-both :
    {S A : Type 0} (P Q : A → S → Type 0) (o : Option (A × S))
    → Returns P o
    → Returns Q o
    → Returns (λ a s. P a s × Q a s) o
Returns-both P Q none p q = p
Returns-both P Q (some (a, s)) p q = (p, q)

-- A postcondition of a run holds of the result that the run has.
pub of_Returns :
    {S A : Type 0} (P : A → S → Type 0) (m : Option (A × S)) (a : A) (s : S)
    → Returns P m
    → m ≡ some (a, s)
    → P a s
of_Returns P m a s r e = subst (Returns P) e r

-- What a command on a part of the state leaves.
abbrev pub Focused : {S T A : Type 0} → (T → S → S) → S → (A → T → Type 0) → A → S → Type 0
Focused {S} {T} put s P a s' = (t : T) × P a t × (s' ≡ put t s)

-- The rule for a command on a part of the state.
pub Returns-focus :
    {S T A : Type 0} (part : S → T) (put : T → S → S) (P : A → T → Type 0) (m : Cmd T A) (s : S)
    → Returns P (m (part s))
    → Returns (Focused put s P) (focus part put m s)
Returns-focus {S} {T} {A} part put P m s r = step (m (part s)) r
  where
    step :
        (o : Option (A × T))
        → Returns P o
        → Returns (Focused put s P) (elim o [ none ↦ none | some (a, t) ↦ some (a, put t s) ])
    step none r' = r'
    step (some (a, t)) r' = (t, r', refl)

-- A run that does not fault has a result.
pub result_of_Returns :
    {S A : Type 0} (P : A → S → Type 0) (m : Option (A × S))
    → Returns P m
    → (a : A) × (s : S) × (m ≡ some (a, s))
result_of_Returns P none r = absurd r
result_of_Returns P (some (a, s)) r = (a, s, refl)

-- The run faults, or its result and final state meet `P`.
abbrev pub Yields : {S A : Type 0} → (A → S → Type 0) → Option (A × S) → Type 0
Yields P none = Unit {0}
Yields P (some (a, s)) = P a s

pub Yields-bind :
    {S A B : Type 0} (P : A → S → Type 0) (Q : B → S → Type 0) (m : Cmd S A) (k : A → Cmd S B)
    (s : S)
    → Yields P (m s)
    → ((a : A) (s' : S) → P a s' → Yields Q (k a s'))
    → Yields Q ((m >>= k) s)
Yields-bind {S} {A} P Q m k s r next = step (m s) r
  where
    step :
        (o : Option (A × S))
        → Yields P o
        → Yields Q (elim o [ none ↦ none | some (a, s') ↦ k a s' ])
    step none r' = tt
    step (some (a, s')) r' = next a s' r'

pub Yields-of_Returns :
    {S A : Type 0} (P : A → S → Type 0) (m : Option (A × S)) → Returns P m → Yields P m
Yields-of_Returns P none r = tt
Yields-of_Returns P (some (a, s)) r = r

-- What holds of every run that does not fault holds of the result that a run has.
pub of_Yields :
    {S A : Type 0} (P : A → S → Type 0) (m : Option (A × S)) (a : A) (s : S)
    → Yields P m
    → m ≡ some (a, s)
    → P a s
of_Yields P m a s r e = subst (Yields P) e r
