-- ===== src/Providers/Laws.antt =====
-- Registering and unregistering the two providers of an extension.
use ntosebpfext.Base.{
  ℕ, ◌≡◌, ◌≢◌, refl, ◌⊎◌, inl, inr, true, Option, none, some, arith, ◌==◌, if◌then◌else◌, ==_ne,
}
use ntosebpfext.Kernel.Command.{◌>>=◌, Returns, Returns-bind}
use ntosebpfext.HookProvider.State.{Sys, update, update_self, update_restore}
use ntosebpfext.HookProvider.Register.{Nmr, Quiet}
use ntosebpfext.HookProvider.Register.Laws.{provider_unregister-frees}
use ntosebpfext.ProgramInfo.{InfoSys}
use ntosebpfext.ProgramInfo.Laws.{unregister_run}
use ntosebpfext.Providers.{Contexts, unregister_hook, unregister_info, unregister_contexts}

-- The table `g` is `f` with, at `p`, one provider more, or it is `f` where `p` is NULL.
abbrev pub Slot : {A : Type 0} → (ℕ → Option A) → (ℕ → Option A) → ℕ → Type 0
Slot {A} f g p =
    ((p ≡ 0) × (g ≡ f)) ⊎ ((p ≢ 0) × (f p ≡ none) × (c : A) × (g ≡ update f p (some c)))

Slot_released :
    {A : Type 0} (f g : ℕ → Option A) (p : ℕ) (c : A)
    → f p ≡ none
    → g ≡ update f p (some c)
    → update g p none ≡ f
Slot_released f g p c new e = rw e (update_restore f p (some c) none new)

Slot_live :
    {A : Type 0} (f g : ℕ → Option A) (p : ℕ) (c : A) → g ≡ update f p (some c) → g p ≡ some c
Slot_live f g p c e = rw e (update_self f p (some c))

module _ {E C R : Type 0} where
  -- `t` is the memory of `s` and, besides, what its two static pointers hold.
  pub record Holds (s t : Contexts E C R) : Type 0 where
    pub info_slot : Slot s.info.provider t.info.provider t.info_context
    pub hook_slot : Slot s.hook.provider t.hook.provider t.hook_context
    pub info_clients : t.info.client ≡ s.info.client
    pub hook_clients : t.hook.client ≡ s.hook.client

  -- Nothing is held, and the memory is that of `s`.
  pub record Restored (s t : Contexts E C R) : Type 0 where
    pub no_info : t.info_context ≡ 0
    pub no_hook : t.hook_context ≡ 0
    pub info_providers : t.info.provider ≡ s.info.provider
    pub hook_providers : t.hook.provider ≡ s.hook.provider
    pub info_clients : t.info.client ≡ s.info.client
    pub hook_clients : t.hook.client ≡ s.hook.client

  pub Restored-Holds : (s t : Contexts E C R) → Restored s t → Holds s t
  Restored-Holds s t r = record {
    info_slot = inl (r.no_info, r.info_providers);
    hook_slot = inl (r.no_hook, r.hook_providers);
    info_clients = r.info_clients;
    hook_clients = r.hook_clients;
  }

  -- Both registrars leave the memory alone; the status and handle of a registration, and the status of its end.
  pub record BothQuiet (info_nmr : Nmr InfoSys) (hook_nmr : Nmr (Sys E C R)) : Type 0 where
    pub info_status : ℕ
    pub info_handle : ℕ
    pub info_left : ℕ
    pub hook_status : ℕ
    pub hook_handle : ℕ
    pub hook_left : ℕ
    pub info_quiet : Quiet info_nmr info_status info_handle info_left
    pub hook_quiet : Quiet hook_nmr hook_status hook_handle hook_left

  module _ (info_nmr : Nmr InfoSys) (hook_nmr : Nmr (Sys E C R))
      (q : BothQuiet info_nmr hook_nmr) where
    unregister_hook-Holds :
        (s t : Contexts E C R)
        → Holds s t
        → Returns (λ _ u. Holds s u × (u.hook_context ≡ 0)) (unregister_hook info_nmr hook_nmr t)
    unfolding unregister_hook
    unregister_hook-Holds s t k = elim k.hook_slot [
      | inl (z, same) ↦
          let null : (t.hook_context == 0) ≡ true = ground (arith, z) in
          rw (null, if◌then◌else◌) (k, z)
      | inr (ne, new, c, live) ↦
          rw
            (
              ==_ne t.hook_context 0 ne,
              if◌then◌else◌,
              ◌>>=◌,
              provider_unregister-frees hook_nmr q.hook_status q.hook_handle q.hook_left
                  q.hook_quiet t.hook_context c t.hook ne
                  (Slot_live s.hook.provider t.hook.provider t.hook_context c live),
            )
            (
              record {
                info_slot = k.info_slot;
                hook_slot =
                    inl (
                      refl,
                      Slot_released s.hook.provider t.hook.provider t.hook_context c new live,
                    );
                info_clients = k.info_clients;
                hook_clients = k.hook_clients;
              },
              refl,
            )
    ]

    unregister_info-Restored :
        (s t : Contexts E C R)
        → Holds s t
        → t.hook_context ≡ 0
        → t.hook.provider ≡ s.hook.provider
        → Returns (λ _ u. Restored s u) (unregister_info info_nmr hook_nmr t)
    unfolding unregister_info
    unregister_info-Restored s t k z same = elim k.info_slot [
      | inl (z', same') ↦
          let null : (t.info_context == 0) ≡ true = ground (arith, z') in
          rw (null, if◌then◌else◌)
            (record {
              no_info = z';
              no_hook = z;
              info_providers = same';
              hook_providers = same;
              info_clients = k.info_clients;
              hook_clients = k.hook_clients;
            })
      | inr (ne, new, c, live) ↦
          rw
            (
              ==_ne t.info_context 0 ne,
              if◌then◌else◌,
              ◌>>=◌,
              unregister_run info_nmr q.info_status q.info_handle q.info_left q.info_quiet
                  t.info_context c t.info (==_ne t.info_context 0 ne)
                  (Slot_live s.info.provider t.info.provider t.info_context c live),
            )
            (record {
              no_info = refl;
              no_hook = z;
              info_providers =
                  Slot_released s.info.provider t.info.provider t.info_context c new live;
              hook_providers = same;
              info_clients = k.info_clients;
              hook_clients = k.hook_clients;
            })
    ]

    -- If no client comes or goes meanwhile, unregistering does not fault, frees the providers that the static
    -- pointers hold and resets the pointers.
    pub unregister_contexts-Restored :
        (s t : Contexts E C R)
        → Holds s t
        → Returns (λ _ u. Restored s u) (unregister_contexts info_nmr hook_nmr t)
    unfolding unregister_contexts
    unregister_contexts-Restored s t k =
        Returns-bind _ _ (unregister_hook info_nmr hook_nmr) _ t (unregister_hook-Holds s t k)
          (λ _ u (k', z).
            unregister_info-Restored s u k' z
              (elim k'.hook_slot [ inl (_, same) ↦ same | inr full ↦ absurd (full.0 z) ]))
