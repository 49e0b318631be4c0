-- ===== src/Driver/Entry/Initialize.antt =====
-- The objects of a driver after `_ebpf_ext_driver_initialize_objects`.
use ntosebpfext.Base.{
  ℕ, ◌≡◌, ◌≢◌, refl, ◌⊎◌, inl, inr, true, false, List, ◌∷◌, arith, ◌==◌, if◌then◌else◌, Bool-cases,
}
use ntosebpfext.Kernel.Status.{nt_success}
use ntosebpfext.Driver.{DriverState, register_providers}
use ntosebpfext.Driver.Entry.{
  Framework, Held, IsDocumented, Globals, start_providers, create_device, name_device,
  initialize_objects,
}

-- A list with an address in front, if the address is not NULL.
abbrev pub hold : ℕ → List ℕ → List ℕ
hold p xs = if p == 0 then xs else p ∷ xs

-- The framework refuses a name for the initialisation structure.
abbrev pub NameRefused : {W : Type 0} → Framework W → ℕ → Type 0
NameRefused {W} fw p = (w : W) × (nt_success (fw.assign_name p w).0 ≡ false)

module _ {W S : Type 0} (fw : Framework W) (held : W → Held) (doc : IsDocumented fw held)
    (reg : S → ℕ × S) (unreg : S → S) where
  -- After the creation of the driver's objects from `s`: which device it has, and what became of the
  -- providers and of the initialisation structure.
  abbrev pub Initialized : Globals W S → ℕ × Globals W S → Type 0
  Initialized s (status, s') =
      ((nt_success status ≡ true)
        × (s'.device ≢ 0)
        × (s'.providers ≡ (register_providers reg unreg s.providers).1)
        × (nt_success (reg s.providers.own).0 ≡ true)
        × (held s'.world ≡ record (held s.world) { devices = s'.device ∷ (held s.world).devices }))
      ⊎ ((nt_success status ≡ false)
          × ((s'.providers ≡ s.providers)
              ⊎ ((s'.providers ≡ (register_providers reg unreg s.providers).1)
                  × (nt_success (reg s.providers.own).0 ≡ false)))
          × (leaked : ℕ) × ((leaked ≡ 0) ⊎ NameRefused fw leaked)
          × (held s'.world ≡ record (held s.world) {
            devices = hold s'.device (held s.world).devices;
            inits = hold leaked (held s.world).inits;
          }))

  register_status : (d : DriverState S) → (register_providers reg unreg d).0 ≡ (reg d.own).0
  unfolding register_providers
  register_status d = ground arith

  start_providers-Initialized :
      (s t : Globals W S)
      → t.device ≢ 0
      → t.providers ≡ s.providers
      → held t.world ≡ record (held s.world) { devices = t.device ∷ (held s.world).devices }
      → Initialized s (start_providers fw reg unreg t)
  unfolding start_providers
  start_providers-Initialized s t ne same h =
      elim (Bool-cases (nt_success (reg s.providers.own).0)) [
        | inl ok ↦
            rw (same, register_status s.providers, ok, if◌then◌else◌)
              (inl (ok, ne, refl, refl, rw (doc.finish_initializing t.device t.world) h))
        | inr bad ↦
            rw (same, register_status s.providers, bad, if◌then◌else◌)
              (inr (bad, inr (refl, refl), 0, inl refl, ground (arith, h, ne)))
      ]

  create_device-Initialized :
      (p : ℕ) (s t : Globals W S)
      → t.device ≡ 0
      → p ≢ 0
      → t.providers ≡ s.providers
      → held t.world ≡ record (held s.world) { inits = p ∷ (held s.world).inits }
      → Initialized s (create_device fw reg unreg p t)
  unfolding create_device
  create_device-Initialized p s t fresh ne same h =
      elim (Bool-cases (nt_success (fw.device_create p t.world).0)) [
        | inl ok ↦
            let (d, live, out, h') = doc.creates p t.world ok in
            rw (ok, if◌then◌else◌, out)
              (start_providers-Initialized s
                (record t {
                  device = d;
                  device_object = fw.get_device_object d (fw.device_create p t.world).2;
                  world = (fw.device_create p t.world).2;
                })
                live same (ground (arith, h', h)))
        | inr bad ↦
            let (out, h') = doc.creates_not p t.world bad in
            rw (bad, if◌then◌else◌, out, fresh)
              (inr (
                bad,
                inl same,
                0,
                inl refl,
                ground (arith, doc.device_init_free p (fw.device_create p t.world).2, h', h),
              ))
      ]

  name_device-Initialized :
      (p : ℕ) (s t : Globals W S)
      → t.device ≡ 0
      → p ≢ 0
      → t.providers ≡ s.providers
      → held t.world ≡ record (held s.world) { inits = p ∷ (held s.world).inits }
      → Initialized s (name_device fw reg unreg p t)
  unfolding name_device
  name_device-Initialized p s t fresh ne same h =
      let w₁ = fw.set_device_type p t.world in
      let w₂ = fw.set_characteristics p 0x100 false w₁ in
      let w₃ = fw.set_characteristics p 0x80 true w₂ in
      let w₄ = (fw.assign_name p w₃).1 in
      let held₄ : held w₄ ≡ held t.world = cc (
        doc.assign_name p w₃,
        doc.set_characteristics p 0x80 true w₂,
        doc.set_characteristics p 0x100 false w₁,
        doc.set_device_type p t.world,
      ) in
      elim (Bool-cases (nt_success (fw.assign_name p w₃).0)) [
        | inl ok ↦
            rw (ok, if◌then◌else◌)
              (create_device-Initialized p s (record t { world = w₄ }) fresh ne same
                (cc (held₄, h)))
        | inr bad ↦
            rw (bad, if◌then◌else◌)
              (inr (bad, inl same, p, inr (w₃, bad), ground (arith, held₄, h, fresh, ne)))
      ]

  pub initialize_objects-Initialized :
      (s : Globals W S) → s.device ≡ 0 → Initialized s (initialize_objects fw reg unreg s)
  unfolding initialize_objects
  initialize_objects-Initialized s fresh =
      elim (Bool-cases (nt_success (fw.driver_create s.world).0)) [
        | inl ok ↦
            let w : W = (fw.driver_create s.world).1 in
            let p : ℕ = (fw.control_device_init_allocate w).0 in
            elim (Bool-cases (p == 0)) [
              | inl z ↦
                  rw (ok, if◌then◌else◌, z)
                    (inr (
                      refl,
                      inl refl,
                      0,
                      inl refl,
                      ground (
                        arith,
                        z,
                        fresh,
                        doc.driver_create s.world,
                        doc.control_device_init_allocate w,
                      ),
                    ))
              | inr nz ↦
                  rw (ok, if◌then◌else◌, nz)
                    (name_device-Initialized p s
                      (record s { world = (fw.control_device_init_allocate w).1 }) fresh
                      (ground (arith, nz)) refl
                      (ground
                        (arith, nz, doc.driver_create s.world, doc.control_device_init_allocate w)))
            ]
        | inr bad ↦
            rw (bad, if◌then◌else◌)
              (inr (bad, inl refl, 0, inl refl, ground (arith, fresh, doc.driver_create s.world)))
      ]
