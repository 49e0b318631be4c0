-- ===== src/Examples/Driver.antt =====
-- The entry and the unload of a driver, over a framework that grants everything.
use ntosebpfext.Base.{ℕ, ◌≡◌, refl, true, false, some, [], ◌∷◌, arith, ◌+◌, ◌-◌, erase}
use ntosebpfext.Kernel.Status.{nt_success}
use ntosebpfext.Driver.{register_providers}
use ntosebpfext.Driver.Entry.{
  Framework, Held, IsDocumented, Globals, start_providers, create_device, name_device,
  initialize_objects, entry_exit, driver_entry, driver_unload,
}
use ntosebpfext.Driver.Entry.Balance.{Entered, driver_entry-Entered, driver_unload-driver_entry}

abbrev granting : Framework Held
granting = record {
  driver_create = λ w. (0, w);
  control_device_init_allocate = λ w. (7, record w { inits = 7 ∷ w.inits });
  set_device_type = λ p w. w;
  set_characteristics = λ p n b w. w;
  assign_name = λ p w. (0, w);
  device_create = λ p w. (0, some 9, record w { devices = 9 ∷ w.devices; inits = erase p w.inits });
  device_init_free = λ p w. record w { inits = erase p w.inits };
  get_device_object = λ d w. d + 1;
  finish_initializing = λ d w. w;
  object_delete = λ d w. record w { devices = erase d w.devices };
  trace_initiate = λ w. (0, record w { tracing = true });
  trace_terminate = λ w. record w { tracing = false };
}

granting-IsDocumented : IsDocumented granting (λ w. w)
granting-IsDocumented = record {
  driver_create = λ w. refl;
  control_device_init_allocate = λ w. refl;
  set_device_type = λ p w. refl;
  set_characteristics = λ p n b w. refl;
  assign_name = λ p w. refl;
  creates = λ p w e. (9, λ e'. absurd (omega (arith, e')), refl, refl);
  creates_not = λ p w e. cc;
  device_init_free = λ p w. refl;
  finish_initializing = λ d w. refl;
  object_delete = λ d w. refl;
  trace_initiate = λ w. refl;
  trace_terminate = λ w. refl;
}

abbrev unloaded : Globals Held ℕ
unloaded = record {
  device = 0;
  unloading = false;
  device_object = 0;
  providers = record { providers_registered = false; own = 5 };
  world = record { devices = 3 ∷ []; inits = []; tracing = false };
}

abbrev count_up : ℕ → ℕ × ℕ
count_up n = (0, n + 1)

abbrev count_down : ℕ → ℕ
count_down n = n - 1

driver_entry-Entered_example :
    Entered granting
      (λ w. w)
      granting-IsDocumented
      count_up
      count_down
      unloaded
      (driver_entry granting count_up count_down unloaded)
driver_entry-Entered_example =
    driver_entry-Entered granting (λ w. w) granting-IsDocumented count_up count_down unloaded refl
      refl

entry_succeeds : nt_success (driver_entry granting count_up count_down unloaded).0 ≡ true
unfolding register_providers start_providers create_device name_device initialize_objects entry_exit
    driver_entry
entry_succeeds = refl

driver_unload-driver_entry_example :
    let t =
      driver_unload granting count_up count_down
        (driver_entry granting count_up count_down unloaded).1 in
    (t.world ≡ record { devices = 3 ∷ []; inits = []; tracing = false })
    × (t.providers ≡ record { providers_registered = false; own = 5 })
driver_unload-driver_entry_example =
    driver_unload-driver_entry granting (λ w. w) granting-IsDocumented count_up count_down unloaded
      refl refl entry_succeeds
