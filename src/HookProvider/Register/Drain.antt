-- ===== src/HookProvider/Register/Drain.antt =====
-- A provider is unregistered while it has clients: NMR detaches them, their detaches are completed, and only then is
-- the provider freed.
use ntosebpfext.Base.{
  ℕ, ◌≡◌, ◌≢◌, ◌⊎◌, true, false, none, some, List, [], ◌==◌, All, ◌∈◌, ◌∉◌, erase,
}
use ntosebpfext.Kernel.Status.{status_pending}
use ntosebpfext.Kernel.Command.{Cmd}
use ntosebpfext.HookProvider.State.{Rundown, HookClient, HookProvider, Sys, update}
use ntosebpfext.HookProvider.Detach.{
  detach_client, detach_client_completion, cleanup_binding_context,
}
use ntosebpfext.HookProvider.Register.{Nmr}
use ntosebpfext.HookProvider.Inv.{IsAttached}

-- A client that is live has another work item than `c`.
abbrev pub HasOtherItem : {E C R : Type 0} → Sys E C R → HookClient C R → ℕ → Type 0
HasOtherItem {C = C} {R = R} s c y =
    (d : HookClient C R) → s.client y ≡ some d → (c.detach_work_item == d.detach_work_item) ≡ false

module _ {E C R : Type 0} (rd : Rundown R) (complete : ℕ → Cmd (Sys E C R) (Unit {0})) where
  -- What NMR does while a provider is deregistered: it detaches clients, and the work items of those that are
  -- detached complete; `complete` is `NmrProviderDetachClientComplete`, which calls the cleanup of the client.
  pub data Detaches (s : Sys E C R) (xs : List ℕ) : Sys E C R → List ℕ → Type 0 where
    nothing : Detaches s xs s xs
    detach :
        {t u : Sys E C R} {ys : List ℕ} (x status : ℕ)
        → Detaches s xs t ys
        → x ∈ ys
        → detach_client x t ≡ some (status, u)
        → Detaches s xs u (erase x ys)
    finish :
        {t u : Sys E C R} {ys : List ℕ} (x : ℕ) (c : HookClient C R)
        → Detaches s xs t ys
        → x ∉ ys
        → x ≢ 0
        → t.client x ≡ some c
        → t.work_item c.detach_work_item ≡ true
        → All (HasOtherItem t c) ys
        → ((t' : Sys E C R) → complete c.nmr_binding_handle t' ≡ cleanup_binding_context x t')
        → detach_client_completion rd complete x t ≡ some (tt, u)
        → Detaches s xs u ys

  -- The documented deregistration of a provider with the clients `xs`: all are detached and their detaches
  -- completed, at once, or else by the end of the wait.
  pub record Deregisters (nmr : Nmr (Sys E C R)) (handle : ℕ) (s : Sys E C R) (xs : List ℕ)
      : Type 0 where
    pub left : ℕ
    pub middle : Sys E C R
    pub remaining : List ℕ
    pub calls : nmr.deregister_provider handle s ≡ some (left, middle)
    pub begins : Detaches s xs middle remaining
    pub ends :
        ((left == status_pending) ≡ false) × (remaining ≡ [])
        ⊎ ((left == status_pending) ≡ true)
          × (last : Sys E C R) × (nmr.wait_for_provider_deregister_complete handle middle
              ≡ some (tt, last))
          × Detaches middle remaining last []

  -- Nothing is left of a provider but what its clients left: the ring was empty when the provider was freed.
  abbrev pub Unregistered :
      ℕ → HookProvider E C R → Sys E C R → List ℕ → Unit {0} → Sys E C R → Type 0
  Unregistered p h s xs _ t =
      (u : Sys E C R) × Detaches s xs u []
      × IsAttached u p h []
      × (t ≡ record u { provider = update u.provider p none })
