-- ===== src/Driver/Entry/Balance.antt =====
-- What a driver of ebpf_ext_drv.c holds of the framework after its entry and after its unload.
use ntosebpfext.Base.{
  ℕ, ◌≡◌, ◌≢◌, refl, ◌∙◌, ◌⊎◌, inl, inr, Bool, true, false, ◌∷◌, arith, if◌then◌else◌, Bool-cases,
}
use ntosebpfext.Kernel.Status.{nt_success}
use ntosebpfext.Driver.{DriverState, register_providers, unregister_providers}
use ntosebpfext.Driver.Entry.{
  Framework, Held, IsDocumented, Globals, uninitialize_objects, driver_unload, initialize_objects,
  entry_exit, driver_entry,
}
use ntosebpfext.Driver.Entry.Initialize.{hold, NameRefused, initialize_objects-Initialized}

module _ {W S : Type 0} (fw : Framework W) (held : W → Held) (doc : IsDocumented fw held)
    (reg : S → ℕ × S) (unreg : S → S) where
  -- After the entry of a driver that had no device and no providers.
  abbrev pub Entered : Globals W S → ℕ × Globals W S → Type 0
  Entered s (status, s') =
      ((nt_success status ≡ true)
        × (s'.device ≢ 0)
        × (s'.providers ≡ record { providers_registered = true; own = (reg s.providers.own).1 })
        × (held s'.world ≡ record (held s.world) {
          devices = s'.device ∷ (held s.world).devices;
          tracing = true;
        }))
      ⊎ ((nt_success status ≡ false)
          × (s'.providers.providers_registered ≡ false)
          × ((s'.providers.own ≡ s.providers.own)
              ⊎ (s'.providers.own ≡ unreg (reg s.providers.own).1))
          × (leaked : ℕ) × ((leaked ≡ 0) ⊎ NameRefused fw leaked)
          × (held s'.world ≡ record (held s.world) {
            inits = hold leaked (held s.world).inits;
            tracing = false;
          }))

  register_done :
      (d : DriverState S)
      → nt_success (reg d.own).0 ≡ true
      → (register_providers reg unreg d).1
        ≡ record { providers_registered = true; own = (reg d.own).1 }
  unfolding register_providers
  register_done d ok = ground arith

  register_undone :
      (d : DriverState S)
      → nt_success (reg d.own).0 ≡ false
      → (register_providers reg unreg d).1 ≡ record d { own = unreg (reg d.own).1 }
  unfolding register_providers
  register_undone d bad = ground arith

  unregister_nothing :
      (d : DriverState S) → d.providers_registered ≡ false → unregister_providers reg unreg d ≡ d
  unfolding unregister_providers
  unregister_nothing d none_yet = ground arith

  unregistered :
      (own : S)
      → unregister_providers reg unreg (record { providers_registered = true; own = own })
        ≡ record { providers_registered = false; own = unreg own }
  unfolding unregister_providers
  unregistered own = ground arith

  -- The end of the framework's objects.
  uninitialize_held :
      (s : Globals W S) (v : Held)
      → held s.world ≡ record v { devices = hold s.device v.devices }
      → held (uninitialize_objects fw reg unreg s).world ≡ record v { tracing = false }
  unfolding uninitialize_objects
  uninitialize_held s v h = ground (
    arith,
    h,
    doc.trace_terminate s.world,
    doc.object_delete s.device (fw.trace_terminate s.world),
  )

  uninitialize_providers :
      (s : Globals W S)
      → (uninitialize_objects fw reg unreg s).providers ≡ unregister_providers reg unreg s.providers
  unfolding uninitialize_objects
  uninitialize_providers s = refl

  -- A failure with the driver's objects in any of their states.
  exit_failed :
      (s t : Globals W S) (status : ℕ) (t₀ : Bool)
      → nt_success status ≡ false
      → s.providers.providers_registered ≡ false
      → (t.providers ≡ s.providers)
        ⊎ ((t.providers ≡ (register_providers reg unreg s.providers).1)
            × (nt_success (reg s.providers.own).0 ≡ false))
      → (leaked : ℕ) × ((leaked ≡ 0) ⊎ NameRefused fw leaked)
        × (held t.world ≡ record {
          devices = hold t.device (held s.world).devices;
          inits = hold leaked (held s.world).inits;
          tracing = t₀;
        })
      → Entered s (entry_exit fw reg unreg (status, t))
  unfolding entry_exit
  exit_failed s t status t₀ bad idle own (leaked, why, h) =
      let ended =
        uninitialize_held t
          (record {
            devices = (held s.world).devices;
            inits = hold leaked (held s.world).inits;
            tracing = t₀;
          })
          h in
      let kept : unregister_providers reg unreg t.providers ≡ t.providers =
        unregister_nothing t.providers (elim own [
          | inl e ↦ rw e idle
          | inr (e, no_status) ↦ rw (e, register_undone s.providers no_status) idle
        ]) in
      rw (bad, if◌then◌else◌, uninitialize_providers t, kept)
        (inr (
          bad,
          elim own [
            | inl e ↦ rw e idle
            | inr (e, no_status) ↦ rw (e, register_undone s.providers no_status) idle
          ],
          elim own [
            | inl e ↦ inl (rw e refl)
            | inr (e, no_status) ↦ inr (rw (e, register_undone s.providers no_status) refl)
          ],
          leaked,
          why,
          ended,
        ))

  exit_done :
      (s t : Globals W S) (status : ℕ)
      → nt_success status ≡ true
      → t.device ≢ 0
      → t.providers ≡ (register_providers reg unreg s.providers).1
      → nt_success (reg s.providers.own).0 ≡ true
      → held t.world
        ≡ record (held s.world) { devices = t.device ∷ (held s.world).devices; tracing = true }
      → Entered s (entry_exit fw reg unreg (status, t))
  unfolding entry_exit
  exit_done s t status ok ne own done h =
      rw (ok, if◌then◌else◌) (inl (ok, ne, own ∙ register_done s.providers done, h))

  -- From a driver without a device and without providers, the entry succeeds with a device, the providers and
  -- the tracing; or it fails, the device that it had is deleted, the tracing is off, the providers are
  -- unregistered if their registration had begun, and no initialisation structure is left but one whose name
  -- the framework refused.
  pub driver_entry-Entered :
      (s : Globals W S)
      → s.device ≡ 0
      → s.providers.providers_registered ≡ false
      → Entered s (driver_entry fw reg unreg s)
  unfolding driver_entry
  driver_entry-Entered s fresh idle =
      let w : W = (fw.trace_initiate s.world).1 in
      let s₁ : Globals W S = record s { world = w } in
      let r = initialize_objects fw reg unreg s₁ in
      elim (Bool-cases (nt_success (fw.trace_initiate s.world).0)) [
        | inl ok ↦
            let h : held w ≡ record (held s.world) { tracing = true } =
              ground (arith, doc.trace_initiate s.world, ok) in
            rw (ok, if◌then◌else◌)
              (elim (initialize_objects-Initialized fw held doc reg unreg s₁ fresh) [
                | inl (good, ne, own, done, k) ↦
                    exit_done s r.1 r.0 good ne own done (k ∙ rw h refl)
                | inr (bad, own, leaked, why, k) ↦
                    exit_failed s r.1 r.0 true bad idle own (leaked, why, k ∙ rw h refl)
              ])
        | inr bad ↦
            rw (bad, if◌then◌else◌)
              (exit_failed s s₁ (fw.trace_initiate s.world).0 (held s.world).tracing bad idle
                (inl refl) (0, inl refl, ground (arith, doc.trace_initiate s.world, bad, fresh)))
      ]

  -- An entry that succeeds, from a driver without a device and without providers, and then the unload leave
  -- the framework with the devices and the initialisation structures of before and without tracing, and the
  -- providers are registered once and unregistered once.
  pub driver_unload-driver_entry :
      (s : Globals W S)
      → s.device ≡ 0
      → s.providers.providers_registered ≡ false
      → nt_success (driver_entry fw reg unreg s).0 ≡ true
      → let t = driver_unload fw reg unreg (driver_entry fw reg unreg s).1 in
        (held t.world ≡ record (held s.world) { tracing = false })
        × (t.providers
            ≡ record { providers_registered = false; own = unreg (reg s.providers.own).1 })
  unfolding driver_unload
  driver_unload-driver_entry s fresh idle ok = elim (driver_entry-Entered s fresh idle) [
    | inl (_, ne, own, k) ↦ (
      uninitialize_held (driver_entry fw reg unreg s).1 (record (held s.world) { tracing = true })
          (ground (arith, k, ne)),
      rw (uninitialize_providers (driver_entry fw reg unreg s).1, own)
          (unregistered (reg s.providers.own).1),
    )
    | inr k ↦ absurd (ground (arith, ok, k.0))
  ]
