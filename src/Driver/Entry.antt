-- ===== src/Driver/Entry.antt =====
-- libs/ebpf_ext/ebpf_ext_drv.c: the entry and the unload of a driver. `W` is the state of the driver
-- framework (WDF) and of the trace provider, whose calls are parameters, `S` the state of the driver's own
-- registration functions.
pub mod Initialize
pub mod Balance
use ntosebpfext.Base.{
  ℕ, ◌≡◌, ◌≢◌, Bool, true, false, Option, none, some, List, ◌∷◌, ◌==◌, if◌then◌else◌, erase,
}
use ntosebpfext.Kernel.Status.{nt_success, status_insufficient_resources}
use ntosebpfext.Driver.{DriverState, register_providers, unregister_providers}

-- The calls that the driver makes. `device_create` gives the handle that it writes to its out parameter.
pub record Framework (W : Type 0) : Type 0 where
  pub driver_create : W → ℕ × W
  pub control_device_init_allocate : W → ℕ × W
  pub set_device_type : ℕ → W → W
  pub set_characteristics : ℕ → (characteristics : ℕ) → (or_in_values : Bool) → W → W
  pub assign_name : ℕ → W → ℕ × W
  pub device_create : ℕ → W → ℕ × Option ℕ × W
  pub device_init_free : ℕ → W → W
  pub get_device_object : ℕ → W → ℕ
  pub finish_initializing : ℕ → W → W
  pub object_delete : ℕ → W → W
  pub trace_initiate : W → ℕ × W
  pub trace_terminate : W → W

-- What the framework holds for the driver: its devices, the initialisation structures that it was given and
-- has not given back, and whether it traces.
pub record Held : Type 0 where
  pub devices : List ℕ
  pub inits : List ℕ
  pub tracing : Bool

-- The documented effects of the calls.
pub record IsDocumented {W : Type 0} (fw : Framework W) (held : W → Held) : Type 0 where
  pub driver_create : (w : W) → held (fw.driver_create w).1 ≡ held w
  pub control_device_init_allocate :
      (w : W)
      → held (fw.control_device_init_allocate w).1 ≡ (
          if (fw.control_device_init_allocate w).0 == 0
          then held w
          else record (held w) { inits = (fw.control_device_init_allocate w).0 ∷ (held w).inits })
  pub set_device_type : (p : ℕ) (w : W) → held (fw.set_device_type p w) ≡ held w
  pub set_characteristics :
      (p n : ℕ) (b : Bool) (w : W) → held (fw.set_characteristics p n b w) ≡ held w
  pub assign_name : (p : ℕ) (w : W) → held (fw.assign_name p w).1 ≡ held w
  pub creates :
      (p : ℕ) (w : W)
      → nt_success (fw.device_create p w).0 ≡ true
      → (d : ℕ) × (d ≢ 0)
        × ((fw.device_create p w).1 ≡ some d)
        × (held (fw.device_create p w).2
            ≡ record (held w) { devices = d ∷ (held w).devices; inits = erase p (held w).inits })
  pub creates_not :
      (p : ℕ) (w : W)
      → nt_success (fw.device_create p w).0 ≡ false
      → ((fw.device_create p w).1 ≡ none) × (held (fw.device_create p w).2 ≡ held w)
  pub device_init_free :
      (p : ℕ) (w : W)
      → held (fw.device_init_free p w) ≡ record (held w) { inits = erase p (held w).inits }
  pub finish_initializing : (d : ℕ) (w : W) → held (fw.finish_initializing d w) ≡ held w
  pub object_delete :
      (d : ℕ) (w : W)
      → held (fw.object_delete d w) ≡ record (held w) { devices = erase d (held w).devices }
  pub trace_initiate :
      (w : W)
      → held (fw.trace_initiate w).1 ≡ (
          if nt_success (fw.trace_initiate w).0 then record (held w) { tracing = true } else held w)
  pub trace_terminate : (w : W) → held (fw.trace_terminate w) ≡ record (held w) { tracing = false }

-- `_ebpf_ext_device`, `_ebpf_ext_driver_unloading_flag` and `_ebpf_ext_driver_device_object`.
pub record Globals (W S : Type 0) : Type 0 where
  pub device : ℕ
  pub unloading : Bool
  pub device_object : ℕ
  pub providers : DriverState S
  pub world : W

-- `FILE_DEVICE_SECURE_OPEN` and `FILE_AUTOGENERATED_DEVICE_NAME`
abbrev file_device_secure_open : ℕ
file_device_secure_open = 0x100

abbrev file_autogenerated_device_name : ℕ
file_autogenerated_device_name = 0x80

module _ {W S : Type 0} (fw : Framework W) (custom_register_providers : S → ℕ × S)
    (custom_unregister_providers : S → S) where
  -- `_ebpf_ext_driver_uninitialize_objects`. The device keeps its handle.
  unfoldable pub uninitialize_objects : Globals W S → Globals W S
  uninitialize_objects s =
      let w = fw.trace_terminate s.world in
      record s {
        unloading = true;
        providers =
            unregister_providers custom_register_providers custom_unregister_providers s.providers;
        world = if s.device == 0 then w else fw.object_delete s.device w;
      }

  -- `_ebpf_ext_driver_unload`
  unfoldable pub driver_unload : Globals W S → Globals W S
  driver_unload s = uninitialize_objects s

  -- From the registration of the providers on, with the device created.
  unfoldable pub start_providers : Globals W S → ℕ × Globals W S
  start_providers s =
      let (status, providers') =
        register_providers custom_register_providers custom_unregister_providers s.providers in
      if nt_success status
      then (
        status,
        record s { providers = providers'; world = fw.finish_initializing s.device s.world },
      )
      else (status, record s { providers = providers' })

  -- From `WdfDeviceCreate` on.
  unfoldable pub create_device : (device_initialize : ℕ) → Globals W S → ℕ × Globals W S
  create_device p s =
      let (status, out, w) = fw.device_create p s.world in
      let device' : ℕ = elim out [ none ↦ s.device | some d ↦ d ] in
      if nt_success status
      then start_providers
          (record s { device = device'; device_object = fw.get_device_object device' w; world = w })
      else (status, record s { device = device'; world = fw.device_init_free p w })

  -- From the first call on the initialisation structure on. A refused name leaves it allocated.
  unfoldable pub name_device : (device_initialize : ℕ) → Globals W S → ℕ × Globals W S
  name_device p s =
      let w₁ = fw.set_device_type p s.world in
      let w₂ = fw.set_characteristics p file_device_secure_open false w₁ in
      let w₃ = fw.set_characteristics p file_autogenerated_device_name true w₂ in
      let (status, w₄) = fw.assign_name p w₃ in
      if nt_success status
      then create_device p (record s { world = w₄ })
      else (status, record s { world = w₄ })

  -- `_ebpf_ext_driver_initialize_objects`
  unfoldable pub initialize_objects : Globals W S → ℕ × Globals W S
  initialize_objects s =
      let (status, w) = fw.driver_create s.world in
      if nt_success status
      then (let (p, w') = fw.control_device_init_allocate w in
          if p == 0
          then (status_insufficient_resources, record s { world = w' })
          else name_device p (record s { world = w' }))
      else (status, record s { world = w })

  -- The label `Exit` of `DriverEntry`.
  unfoldable pub entry_exit : ℕ × Globals W S → ℕ × Globals W S
  entry_exit (status, s) =
      if nt_success status then (status, s) else (status, uninitialize_objects s)

  -- `DriverEntry`
  unfoldable pub driver_entry : Globals W S → ℕ × Globals W S
  driver_entry s =
      let (status, w) = fw.trace_initiate s.world in
      if nt_success status
      then entry_exit (initialize_objects (record s { world = w }))
      else entry_exit (status, record s { world = w })
