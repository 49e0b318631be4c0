-- ===== src/HookProvider/Inv/Exclusive.antt =====
-- What the check of an attach parameter keeps true of the attached clients.
use ntosebpfext.Base.{
  ℕ, ◌<◌, ◌≡◌, ◌≢◌, sym, subst, inl, inr, some, List, [], ◌∷◌, ◌++◌, length, All, All-append,
}
use ntosebpfext.Kernel.Status.{success}
use ntosebpfext.Kernel.Command.{of_Returns}
use ntosebpfext.HookProvider.State.{HookProvider, Sys}
use ntosebpfext.HookProvider.Query.{check_attach_parameter}
use ntosebpfext.HookProvider.Inv.{IsAttached}
use ntosebpfext.HookProvider.Inv.Parameters.{
  LeavesRoom, Admits, HasParameter, Answered, check_attach_parameter-Answered,
}

module _ (wild_card : List ℕ) (parameters : ℕ → List ℕ) where
  -- Two clients differ in their parameters, and neither has the wild card.
  abbrev AreApart : ℕ → ℕ → Type 0
  AreApart x y =
      (parameters x ≢ parameters y) × (parameters x ≢ wild_card) × (parameters y ≢ wild_card)

  -- Each two clients do.
  abbrev pub Exclusive : List ℕ → Type 0
  Exclusive [] = Unit {0}
  Exclusive (x ∷ xs) = All (AreApart x) xs × Exclusive xs

  add-Exclusive :
      (new : ℕ) (xs : List ℕ)
      → parameters new ≢ wild_card
      → All (LeavesRoom (parameters new) wild_card parameters) xs
      → Exclusive xs
      → Exclusive (xs ++ new ∷ [])
  add-Exclusive new [] ne room k = (tt, tt)
  add-Exclusive new (x ∷ xs) ne ((other, differs), room) (apart, k) = (
    All-append (AreApart x) xs (new ∷ []) apart ((differs, other, ne), tt),
    add-Exclusive new xs ne room k,
  )

  Admits-Exclusive :
      (new : ℕ) (xs : List ℕ)
      → Admits (parameters new) wild_card parameters xs
      → Exclusive xs
      → Exclusive (xs ++ new ∷ [])
  Admits-Exclusive new xs (inl (_, none_there)) k =
      subst (λ us. Exclusive (us ++ new ∷ [])) (sym none_there) (tt, tt)
  Admits-Exclusive new xs (inr (ne, room)) k = add-Exclusive new xs ne room k

  -- Where the attach parameters of the attached clients are exclusive and the check grants the parameter of a new
  -- client, they are exclusive with the new client too: no two clients have the same parameter, and one with the
  -- wild card is alone.
  pub check_attach_parameter-Exclusive :
      {E C R : Type 0} (n : ℕ) (new : ℕ)
      → length (parameters new) ≡ n
      → length wild_card ≡ n
      → (s t : Sys E C R) (provider : ℕ) (h : HookProvider E C R) (xs : List ℕ) (fuel : ℕ)
      → IsAttached s provider h xs
      → All (HasParameter n (parameters new) wild_card parameters s) xs
      → length xs < fuel
      → Exclusive xs
      → check_attach_parameter fuel n (parameters new) wild_card provider s ≡ some (success, t)
      → Exclusive (xs ++ new ∷ [])
  check_attach_parameter-Exclusive n new small small_wild s t provider h xs fuel inv ps enough k
        run =
      elim (of_Returns
        (Answered n (parameters new) wild_card parameters s
          (Admits (parameters new) wild_card parameters xs))
        _ success t
        (check_attach_parameter-Answered n (parameters new) wild_card parameters small small_wild s
          provider h xs fuel inv ps enough)
        run).1 [
          | inl (_, admitted) ↦ Admits-Exclusive new xs admitted k
          | inr (denied, _) ↦ absurd cc
        ]
