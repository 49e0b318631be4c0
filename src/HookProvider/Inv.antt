-- ===== src/HookProvider/Inv.antt =====
-- The invariant of a registered provider: its ring holds live clients that point back at it. Parameters and
-- Exclusive are about the check of an attach parameter.
pub mod Attach
pub mod Outcome
pub mod Attached
pub mod Detached
pub mod Walk
pub mod Parameters
pub mod Exclusive
use ntosebpfext.Base.{ℕ, ◌≡◌, ◌≢◌, true, Option, none, some, List, All}
use ntosebpfext.HookProvider.Links.Ring.{IsRing}
use ntosebpfext.HookProvider.State.{HookClient, HookProvider, Sys}

module _ {E C R : Type 0} where
  -- `x` is a live client of `provider` with an allocated work item.
  abbrev pub IsClient : Sys E C R → ℕ → ℕ → Type 0
  IsClient s provider x =
      (x ≢ 0)
      × (c : HookClient C R) × (s.client x ≡ some c)
      × (c.provider_context ≡ provider)
      × (s.work_item c.detach_work_item ≡ true)

  -- `provider` is live as `p`, and `xs` are its clients in the order of their attachment.
  pub record IsAttached (s : Sys E C R) (provider : ℕ) (p : HookProvider E C R) (xs : List ℕ)
      : Type 0 where
    pub ne_null : provider ≢ 0
    pub holds : s.provider provider ≡ some p
    pub ring : IsRing s.links provider xs
    pub clients : All (IsClient s provider) xs
