-- ===== src/Driver.antt =====
-- libs/ebpf_ext/ebpf_ext.c: a driver registers its providers when it is loaded, and unregisters them when
-- it is unloaded. `S` is the state that the driver's own two functions work on.
pub mod Entry
use ntosebpfext.Base.{ℕ, ◌≡◌, refl, Bool, true, false, inl, inr, if◌then◌else◌, Bool-cases}
use ntosebpfext.Kernel.Status.{nt_success}

-- `_ebpf_process_providers_registered`
pub record DriverState (S : Type 0) : Type 0 where
  pub providers_registered : Bool
  pub own : S

module _ {S : Type 0} (custom_register_providers : S → ℕ × S)
    (custom_unregister_providers : S → S) where
  -- `ebpf_ext_register_providers`
  unfoldable pub register_providers : DriverState S → ℕ × DriverState S
  register_providers d =
      let (status, own') = custom_register_providers d.own in
      if nt_success status
      then (status, record { providers_registered = true; own = own' })
      else (status, record d { own = custom_unregister_providers own' })

  -- `ebpf_ext_unregister_providers`
  unfoldable pub unregister_providers : DriverState S → DriverState S
  unregister_providers d =
      if d.providers_registered
      then record { providers_registered = false; own = custom_unregister_providers d.own }
      else d

  -- From a driver without registered providers, a load and an unload register once and unregister once, whether the
  -- registration succeeds or fails, and leave no providers registered.
  pub unregister_providers-register_providers :
      (d : DriverState S)
      → d.providers_registered ≡ false
      → unregister_providers (register_providers d).1 ≡ record {
        providers_registered = false;
        own = custom_unregister_providers (custom_register_providers d.own).1;
      }
  unfolding register_providers unregister_providers
  unregister_providers-register_providers d first =
      elim (Bool-cases (nt_success (custom_register_providers d.own).0)) [
        | inl t ↦ rw t refl
        | inr t ↦ rw (t, first) refl
      ]
