-- ===== src/HookProvider/Calls/Kept.antt =====
-- What every program keeps of its context, the call of the hook keeps.
use ntosebpfext.Base.{
  ℕ, ◌≡◌, refl, Bool, true, false, not, ◌&&◌, Option, none, some, List, [], ◌∷◌, All, ◌⊎◌, arith,
  if◌then◌else◌, Bool-cases, inl, inr,
}
use ntosebpfext.Kernel.Status.{nt_success}
use ntosebpfext.HookProvider.State.{Rundown, Invoke, HookClient}
use ntosebpfext.HookProvider.Calls.Verdict.{answer, verdict, step_run, HasProgram}

-- A verdict is the failure of a client, and there is none where a failure does not end the calls.
abbrev pub IsVerdict : Bool → Option ℕ → Type 0
IsVerdict stops out =
    (out ≡ none)
    ⊎ ((status : ℕ) × (out ≡ some status) × (nt_success status ≡ false) × (stops ≡ true))

module _ {C R : Type 0} (Q : C → Type 0) where
  -- The client has a program, and the program keeps `Q`.
  abbrev pub HasKeeper : (ℕ → Option (HookClient C R)) → ℕ → Type 0
  HasKeeper clients x =
      (c : HookClient C R) × (f : Invoke C) × (clients x ≡ some c)
      × (c.invoke_program ≡ some f)
      × ((binding : ℕ) (context : C) (result : ℕ)
          → Q context
          → let (code, status, context') = f binding context result in Q context')

  pub All-HasProgram :
      (clients : ℕ → Option (HookClient C R)) (xs : List ℕ)
      → All (HasKeeper clients) xs
      → All (HasProgram clients) xs
  All-HasProgram clients [] k = tt
  All-HasProgram clients (x ∷ xs) ((c, f, live, program, keeps), k) =
      ((c, f, live, program), All-HasProgram clients xs k)

  answer-keeps :
      (rd : Rundown R) (c : HookClient C R) (f : Invoke C) (context : C)
      → ((binding : ℕ) (context : C) (result : ℕ)
          → Q context
          → let (code, status, context') = f binding context result in Q context')
      → Q context
      → Q (answer rd c f context).1
  answer-keeps rd c f context keeps k = elim (Bool-cases (rd.enter c.rundown).0) [
    | inl t ↦ rw (t, if◌then◌else◌) (keeps c.client_binding_context context 0 k)
    | inr t ↦ rw (t, if◌then◌else◌) k
  ]

  pub verdict-keeps :
      (rd : Rundown R) (stops : Bool) (clients : ℕ → Option (HookClient C R)) (xs : List ℕ)
      (context : C)
      → All (HasKeeper clients) xs
      → Q context
      → Q (verdict rd stops clients xs context).0
  unfolding verdict
  verdict-keeps rd stops clients [] context all k = k
  verdict-keeps rd stops clients (x ∷ xs) context ((c, f, live, program, keeps), all) k =
      let k' : Q (answer rd c f context).1 = answer-keeps rd c f context keeps k in
      elim (Bool-cases (not (nt_success (answer rd c f context).0) && stops)) [
        | inl t ↦
            rw
              (
                step_run rd stops (clients x) c f (verdict rd stops clients xs) context live
                    program,
                t,
                if◌then◌else◌,
              )
              k'
        | inr t ↦
            rw
              (
                step_run rd stops (clients x) c f (verdict rd stops clients xs) context live
                    program,
                t,
                if◌then◌else◌,
              )
              (verdict-keeps rd stops clients xs (answer rd c f context).1 all k')
      ]

  pub verdict-IsVerdict :
      (rd : Rundown R) (stops : Bool) (clients : ℕ → Option (HookClient C R)) (xs : List ℕ)
      (context : C)
      → All (HasKeeper clients) xs
      → IsVerdict stops (verdict rd stops clients xs context).1
  unfolding verdict
  verdict-IsVerdict rd stops clients [] context all = inl refl
  verdict-IsVerdict rd stops clients (x ∷ xs) context ((c, f, live, program, keeps), all) =
      let rest = verdict rd stops clients xs in
      elim (Bool-cases (not (nt_success (answer rd c f context).0) && stops)) [
        | inl t ↦
            rw (step_run rd stops (clients x) c f rest context live program, t, if◌then◌else◌)
              (inr ((answer rd c f context).0, refl, ground (arith, t), ground (arith, t)))
        | inr t ↦
            rw (step_run rd stops (clients x) c f rest context live program, t, if◌then◌else◌)
              (verdict-IsVerdict rd stops clients xs (answer rd c f context).1 all)
      ]
