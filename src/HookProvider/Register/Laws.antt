-- ===== src/HookProvider/Register/Laws.antt =====
-- A registration gives an empty ring, and unregistering gives back what it took.
use ntosebpfext.Base.{
  ℕ, ◌≡◌, ◌≢◌, refl, ◌⊎◌, inl, inr, true, false, Option, none, some, [], ◌==◌, arith, if◌then◌else◌,
  Bool-cases,
}
use ntosebpfext.Kernel.Status.{nt_success, status_pending}
use ntosebpfext.Kernel.Command.{◌>>=◌, Returns}
use ntosebpfext.HookProvider.Links.{initialize_list_head}
use ntosebpfext.HookProvider.Links.Ring.{initialize-IsRing}
use ntosebpfext.HookProvider.State.{
  HookProvider, Sys, update, update_self, update-update, update_restore,
}
use ntosebpfext.HookProvider.Register.{
  Nmr, Quiet, RegisterArgs, provider_unregister, provider_register,
}
use ntosebpfext.HookProvider.Inv.{IsAttached}

-- The provider that a registration stores.
abbrev pub registered_as : {E C R : Type 0} → RegisterArgs E C R → (handle : ℕ) → HookProvider E C R
registered_as a handle = record {
  npi_specific_characteristics = a.provider_data;
  module_id = a.provider_module_id;
  nmr_provider_handle = handle;
  attach_callback = a.attach_callback;
  detach_callback = a.detach_callback;
  custom_data = a.custom_data;
}

module _ {E C R : Type 0} (nmr : Nmr (Sys E C R)) (status handle left : ℕ)
    (quiet : Quiet nmr status handle left) where
  -- If no client comes or goes meanwhile, unregistering a live provider does not fault, with a registration or
  -- without, and frees the provider and nothing else.
  pub provider_unregister-frees :
      (p : ℕ) (c : HookProvider E C R) (s : Sys E C R)
      → p ≢ 0
      → s.provider p ≡ some c
      → provider_unregister nmr p s ≡ some (tt, record s { provider = update s.provider p none })
  unfolding provider_unregister
  provider_unregister-frees p c s ne live = elim (Bool-cases (c.nmr_provider_handle == 0)) [
    | inl z ↦ ground (arith, ne, live, z)
    | inr nz ↦ elim (Bool-cases (left == status_pending)) [
      | inl e ↦ ground (
        arith,
        ne,
        live,
        nz,
        e,
        quiet.deregisters c.nmr_provider_handle s,
        quiet.waits c.nmr_provider_handle s,
      )
      | inr e ↦ ground (arith, ne, live, nz, e, quiet.deregisters c.nmr_provider_handle s)
    ]
  ]

  -- What a registration leaves: a provider without clients that is handed out, or no provider.
  abbrev pub Registered :
      (block : ℕ) → RegisterArgs E C R → Sys E C R → ℕ × Option ℕ → Sys E C R → Type 0
  Registered block a s (st, out) s' =
      ((nt_success st ≡ true)
        × (block ≢ 0)
        × (out ≡ some block)
        × IsAttached s' block (registered_as a handle) []
        × (s'.provider ≡ update s.provider block (some (registered_as a handle)))
        × (s'.client ≡ s.client))
      ⊎ ((nt_success st ≡ false)
          × ((block ≡ 0) ⊎ (nt_success status ≡ false))
          × (out ≡ none)
          × (s'.provider ≡ s.provider)
          × (s'.client ≡ s.client))

  -- If no client comes or goes meanwhile, and for an address that is not in use, a registration does not fault.
  -- It hands out a provider whose ring is empty and leaves the other providers alone, or it fails, for want of
  -- memory or of NMR's agreement, and leaves no provider behind.
  pub provider_register-Registered :
      (block : ℕ) (a : RegisterArgs E C R) (s : Sys E C R)
      → s.provider block ≡ none
      → Returns (Registered block a s) (provider_register nmr block a s)
  unfolding provider_register
  provider_register-Registered block a s new =
      let c : HookProvider E C R = registered_as a 0 in
      let s₁ : Sys E C R = record s {
        provider = update s.provider block (some c);
        links = initialize_list_head block s.links;
      } in
      elim (Bool-cases (block == 0)) [
        | inl z ↦ rw (z, if◌then◌else◌) (inr (refl, inl (ground (arith, z)), refl, refl, refl))
        | inr nz ↦ elim (Bool-cases (nt_success status)) [
          | inl ok ↦
              rw
                (
                  nz,
                  if◌then◌else◌,
                  ◌>>=◌,
                  quiet.registers block s₁,
                  update_self s.provider block (some c),
                  ok,
                )
                (inl (
                  ok,
                  ground (arith, nz),
                  refl,
                  record {
                    ne_null = ground (arith, nz);
                    holds = update_self s₁.provider block (some (registered_as a handle));
                    ring = initialize-IsRing block s.links;
                    clients = tt;
                  },
                  update-update s.provider block (some c) (some (registered_as a handle)),
                  refl,
                ))
          | inr bad ↦
              let s₂ : Sys E C R = record s₁ { provider = update s₁.provider block (some c) } in
              rw
                (
                  nz,
                  if◌then◌else◌,
                  ◌>>=◌,
                  quiet.registers block s₁,
                  update_self s.provider block (some c),
                  bad,
                  provider_unregister-frees block c s₂ (ground (arith, nz))
                      (update_self s₁.provider block (some c)),
                  update-update s₁.provider block (some c) none,
                  update_restore s.provider block (some c) none new,
                )
                (inr (bad, inr bad, refl, refl, refl))
        ]
      ]
