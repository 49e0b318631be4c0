-- ===== src/HookProvider/Calls/Verdict.antt =====
-- What the call of a hook should do, by recursion on the list of clients.
use mathlib.Core.Path.{fun_ext}
use ntosebpfext.Base.{
  ℕ, ◌≡◌, refl, ap, ◌∙◌, Bool, false, not, ◌&&◌, Option, none, some, List, [], ◌∷◌, ◌++◌, arith,
  ◌==◌, if◌then◌else◌, ◌∈◌, ◌∉◌, Distinct, head?, Bool-cases, inl, inr,
}
use ntosebpfext.Kernel.Status.{nt_success}
use ntosebpfext.HookProvider.Links.Ring.{next?}
use ntosebpfext.HookProvider.State.{Rundown, Invoke, HookClient, update}

module _ {C R : Type 0} (rd : Rundown R) where
  -- The status and the context after a client with the program `f`.
  abbrev pub answer : HookClient C R → Invoke C → C → ℕ × C
  answer c f context =
      if (rd.enter c.rundown).0
      then (let (result, status, context') = f c.client_binding_context context 0 in
          (status, context'))
      else (0, context)

  -- The client after its call.
  abbrev pub called : HookClient C R → HookClient C R
  called c = record c {
    rundown =
        if (rd.enter c.rundown).0 then rd.leave (rd.enter c.rundown).1 else (rd.enter c.rundown).1;
  }

  -- One client, and the others behind it.
  abbrev pub step : (stops : Bool) → Option (HookClient C R) → (C → C × Option ℕ) → C → C × Option ℕ
  step stops none rest context = (context, none)
  step stops (some c) rest context = elim c.invoke_program [
    | none ↦ (context, none)
    | some f ↦
        let (status, context') = answer c f context in
        if not (nt_success status) && stops then (context', some status) else rest context'
  ]

  -- The clients one by one.
  unfoldable pub verdict :
      (stops : Bool) → (ℕ → Option (HookClient C R)) → List ℕ → C → C × Option ℕ
  verdict stops clients [] context = (context, none)
  verdict stops clients (x ∷ xs) context = step stops (clients x) (verdict stops clients xs) context

  pub verdict-update :
      (stops : Bool) (clients : ℕ → Option (HookClient C R)) (x : ℕ) (v : Option (HookClient C R))
      (xs : List ℕ) (context : C)
      → x ∉ xs
      → verdict stops (update clients x v) xs context ≡ verdict stops clients xs context
  unfolding verdict
  verdict-update stops clients x v [] context n = refl
  verdict-update stops clients x v (y ∷ ys) context n =
      let other : update clients x v y ≡ clients y = ground arith in
      ap (λ o. step stops o (verdict stops (update clients x v) ys) context) other
      ∙ ap (λ r. step stops (clients y) r context)
          (fun_ext λ d. verdict-update stops clients x v ys d (ground arith))

  pub step_run :
      (stops : Bool) (o : Option (HookClient C R)) (c : HookClient C R) (f : Invoke C)
      (rest : C → C × Option ℕ) (context : C)
      → o ≡ some c
      → c.invoke_program ≡ some f
      → step stops o rest context ≡ (
          if not (nt_success (answer c f context).0) && stops
          then ((answer c f context).1, some (answer c f context).0)
          else rest (answer c f context).1)
  step_run stops o c f rest context live program = rw (live, step, program) refl

pub next?-split : (x : ℕ) (ys zs : List ℕ) → x ∉ ys → next? x (ys ++ x ∷ zs) ≡ head? zs
next?-split x [] zs n = ground arith
next?-split x (y ∷ ys) zs n = ground (arith, n, next?-split x ys zs)

pub split-Distinct : (x : ℕ) (ys zs : List ℕ) → Distinct (ys ++ x ∷ zs) → (x ∉ ys) × (x ∉ zs)
split-Distinct x [] zs d = (refl, d.0)
split-Distinct x (y ∷ ys) zs d =
    let (n, m) = split-Distinct x ys zs d.1 in (ground (arith, n, d.0, not-mem-middle y x ys zs), m)
  where
    not-mem-middle : (a b : ℕ) (us vs : List ℕ) → a ∉ (us ++ b ∷ vs) → (a == b) ≡ false
    not-mem-middle a b [] vs k = ground arith
    not-mem-middle a b (u ∷ us) vs k = ground (arith, k, not-mem-middle a b us vs)

pub split_again : (x : ℕ) (ys zs : List ℕ) → ys ++ x ∷ zs ≡ (ys ++ x ∷ []) ++ zs
split_again x [] zs = refl
split_again x (y ∷ ys) zs = ap (λ t. y ∷ t) (split_again x ys zs)

pub mem-middle : (x : ℕ) (ys zs : List ℕ) → x ∈ (ys ++ x ∷ zs)
mem-middle x [] zs = ground arith
mem-middle x (y ∷ ys) zs = ground (arith, mem-middle x ys zs)

module _ {C R : Type 0} where
  -- A live client with a program; it has one from its attachment on.
  abbrev pub HasProgram : (ℕ → Option (HookClient C R)) → ℕ → Type 0
  HasProgram clients x =
      (c : HookClient C R) × (f : Invoke C) × (clients x ≡ some c) × (c.invoke_program ≡ some f)

  pub called-HasProgram :
      (rd : Rundown R) (clients : ℕ → Option (HookClient C R)) (x : ℕ) (c : HookClient C R) (y : ℕ)
      → clients x ≡ some c
      → HasProgram clients y
      → HasProgram (update clients x (some (called rd c))) y
  called-HasProgram rd clients x c y live (d, f, e, program) = elim (Bool-cases (x == y)) [
    | inl t ↦ (called rd c, f, ground (arith, t), ground (arith, t, e, live, program))
    | inr t ↦ (d, f, ground (arith, t, e), program)
  ]
