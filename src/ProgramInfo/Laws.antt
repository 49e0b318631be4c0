-- ===== src/ProgramInfo/Laws.antt =====
-- What the provider of program information allocates, it gives back.
use ntosebpfext.Base.{
  ℕ, ◌≡◌, ◌≢◌, refl, ◌&&◌, ◌⊎◌, inl, inr, true, false, not, ◌||◌, Option, none, some, ◌==◌, arith,
  if◌then◌else◌, Bool-cases,
}
use ntosebpfext.Kernel.Status.{nt_success, status_pending}
use ntosebpfext.Kernel.Command.{Cmd, pure, ◌>>=◌, ◌>>◌, Returns}
use ntosebpfext.HookProvider.State.{update, update_self, update-update, update_restore}
use ntosebpfext.HookProvider.Register.{Nmr, Quiet}
use ntosebpfext.ProgramInfo.{
  InfoClient, InfoProvider, InfoSys, InfoArgs, info_attach_client, info_detach_client,
  info_cleanup_binding_context, info_provider_unregister, info_provider_register,
}

-- What NMR runs to end a binding.
abbrev pub unbind : Option ℕ → Cmd InfoSys (Unit {0})
unbind none = pure tt
unbind (some p) = do status ← info_detach_client p; info_cleanup_binding_context p

-- A binding from its beginning to its end, with the status of the attach.
abbrev pub bind_and_unbind : ℕ → InfoArgs → Cmd InfoSys ℕ
bind_and_unbind block a = do
  (status, bound, dispatch) ← info_attach_client block a
  if nt_success status then (do unbind bound; pure status) else pure status

cleanup_run :
    (p : ℕ) (c : InfoClient) (s : InfoSys)
    → (p == 0) ≡ false
    → s.client p ≡ some c
    → info_cleanup_binding_context p s ≡ some (tt, record s { client = update s.client p none })
unfolding info_cleanup_binding_context
cleanup_run p c s ne live = ground (arith, ne, live)

-- For an address that is not in use, the attach, the detach and the cleanup of a client do not fault and
-- leave the state as it was. The attach succeeds if and only if both out pointers are given and the
-- allocation succeeds.
pub bind_and_unbind-restores :
    (block : ℕ) (a : InfoArgs) (s : InfoSys)
    → s.client block ≡ none
    → Returns
        (λ status s'.
          (s' ≡ s)
          × (nt_success status
              ≡ not (not a.has_binding_context_out || not a.has_dispatch_out || block == 0)))
        (bind_and_unbind block a s)
unfolding info_attach_client info_detach_client info_cleanup_binding_context
bind_and_unbind-restores block a s new =
    let c : InfoClient = record {
      nmr_binding_handle = a.nmr_binding_handle;
      client_module_id = a.module_id;
    } in
    elim (Bool-cases (not a.has_binding_context_out || not a.has_dispatch_out)) [
      | inl t ↦ rw (info_attach_client, t, if◌then◌else◌) (refl, ground arith)
      | inr t ↦ elim (Bool-cases (block == 0)) [
        | inl z ↦ rw (info_attach_client, t, z, if◌then◌else◌) (refl, ground arith)
        | inr nz ↦
            rw
              (
                info_attach_client,
                t,
                nz,
                if◌then◌else◌,
                ◌>>=◌,
                cleanup_run block c (record s { client = update s.client block (some c) }) nz
                    (update_self s.client block (some c)),
                update_restore s.client block (some c) none new,
              )
              (refl, refl)
      ]
    ]

module _ (nmr : Nmr InfoSys) (status handle left : ℕ) (quiet : Quiet nmr status handle left) where
  -- Unregistering a live provider frees it, with a registration or without.
  pub unregister_run :
      (p : ℕ) (c : InfoProvider) (s : InfoSys)
      → (p == 0) ≡ false
      → s.provider p ≡ some c
      → info_provider_unregister nmr p s
        ≡ some (tt, record s { provider = update s.provider p none })
  unfolding info_provider_unregister
  unregister_run p c s ne live = elim (Bool-cases (c.nmr_provider_handle == 0)) [
    | inl z ↦ ground (arith, ne, live, z)
    | inr nz ↦ elim (Bool-cases (left == status_pending)) [
      | inl e ↦ ground (
        arith,
        ne,
        live,
        nz,
        e,
        quiet.deregisters c.nmr_provider_handle s,
        quiet.waits c.nmr_provider_handle s,
      )
      | inr e ↦ ground (arith, ne, live, nz, e, quiet.deregisters c.nmr_provider_handle s)
    ]
  ]

  -- Registration as a driver loads, and if it succeeds unregistration as it unloads.
  abbrev pub load_and_unload :
      (block provider_data provider_module_id : ℕ) → Cmd InfoSys (ℕ × Option ℕ)
  load_and_unload block provider_data provider_module_id = do
    (status', out) ← info_provider_register nmr block provider_data provider_module_id
    elim out [
      | none ↦ pure (status', none)
      | some p ↦ do info_provider_unregister nmr p; pure (status', some p)
    ]

  -- If NMR leaves the memory alone, and for an address that is not in use, a registration and the
  -- unregistration behind it do not fault and leave the state as it was. The context is handed out if and only if
  -- the status is a success, which takes the allocation and NMR's agreement.
  pub load_and_unload-restores :
      (block provider_data provider_module_id : ℕ) (s : InfoSys)
      → s.provider block ≡ none
      → Returns
          (λ (status', out) s'.
            (s' ≡ s)
            × (nt_success status' ≡ not (block == 0) && nt_success status)
            × (out ≡ (if nt_success status' then some block else none)))
          (load_and_unload block provider_data provider_module_id s)
  unfolding info_provider_register
  load_and_unload-restores block chars id s new =
      let c : InfoProvider = record {
        npi_specific_characteristics = chars;
        module_id = id;
        nmr_provider_handle = 0;
      } in
      let s₁ : InfoSys = record s { provider = update s.provider block (some c) } in
      elim (Bool-cases (block == 0)) [
        | inl z ↦ rw (z, if◌then◌else◌, ◌>>=◌) (refl, ground arith, ground arith)
        | inr nz ↦ elim (Bool-cases (nt_success status)) [
          | inl ok ↦
              let c₁ : InfoProvider = record c { nmr_provider_handle = handle } in
              let s₂ : InfoSys = record s₁ { provider = update s₁.provider block (some c₁) } in
              rw
                (
                  nz,
                  if◌then◌else◌,
                  ◌>>=◌,
                  quiet.registers block s₁,
                  update_self s.provider block (some c),
                  ok,
                  unregister_run block c₁ s₂ nz (update_self s₁.provider block (some c₁)),
                  update-update s₁.provider block (some c₁) none,
                  update_restore s.provider block (some c) none new,
                )
                (refl, ok, rw ok refl)
          | inr bad ↦
              let s₂ : InfoSys = record s₁ { provider = update s₁.provider block (some c) } in
              rw
                (
                  nz,
                  if◌then◌else◌,
                  ◌>>=◌,
                  quiet.registers block s₁,
                  update_self s.provider block (some c),
                  bad,
                  unregister_run block c s₂ nz (update_self s₁.provider block (some c)),
                  update-update s₁.provider block (some c) none,
                  update_restore s.provider block (some c) none new,
                )
                (refl, bad, rw bad refl)
        ]
      ]

  -- The provider that a registration stores.
  abbrev pub info_registered_as : (provider_data provider_module_id : ℕ) → InfoProvider
  info_registered_as provider_data provider_module_id = record {
    npi_specific_characteristics = provider_data;
    module_id = provider_module_id;
    nmr_provider_handle = handle;
  }

  -- A registration alone: the new provider and no other change, or a failure and no change.
  abbrev pub InfoRegistered :
      (block provider_data provider_module_id : ℕ) → InfoSys → ℕ × Option ℕ → InfoSys → Type 0
  InfoRegistered block provider_data provider_module_id s (status', out) s' =
      ((nt_success status' ≡ true)
        × (block ≢ 0)
        × (out ≡ some block)
        × (s' ≡ record s {
          provider =
              update s.provider block (some (info_registered_as provider_data provider_module_id));
        }))
      ⊎ ((nt_success status' ≡ false) × (out ≡ none) × (s' ≡ s))

  pub info_provider_register-Registered :
      (block provider_data provider_module_id : ℕ) (s : InfoSys)
      → s.provider block ≡ none
      → Returns
          (InfoRegistered block provider_data provider_module_id s)
          (info_provider_register nmr block provider_data provider_module_id s)
  unfolding info_provider_register
  info_provider_register-Registered block chars id s new =
      let c : InfoProvider = record {
        npi_specific_characteristics = chars;
        module_id = id;
        nmr_provider_handle = 0;
      } in
      let s₁ : InfoSys = record s { provider = update s.provider block (some c) } in
      elim (Bool-cases (block == 0)) [
        | inl z ↦ rw (z, if◌then◌else◌) (inr (refl, refl, refl))
        | inr nz ↦ elim (Bool-cases (nt_success status)) [
          | inl ok ↦
              rw
                (
                  nz,
                  if◌then◌else◌,
                  ◌>>=◌,
                  quiet.registers block s₁,
                  update_self s.provider block (some c),
                  ok,
                )
                (inl (
                  ok,
                  ground (arith, nz),
                  refl,
                  rw (update-update s.provider block (some c) (some (info_registered_as chars id)))
                      refl,
                ))
          | inr bad ↦
              let s₂ : InfoSys = record s₁ { provider = update s₁.provider block (some c) } in
              rw
                (
                  nz,
                  if◌then◌else◌,
                  ◌>>=◌,
                  quiet.registers block s₁,
                  update_self s.provider block (some c),
                  bad,
                  unregister_run block c s₂ nz (update_self s₁.provider block (some c)),
                  update-update s₁.provider block (some c) none,
                  update_restore s.provider block (some c) none new,
                )
                (inr (bad, refl, refl))
        ]
      ]
