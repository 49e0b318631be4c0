-- ===== src/HookProvider/Register.antt =====
-- Registering and unregistering a provider of ebpf_ext_hook_provider.c.
pub mod Laws
pub mod Drain
use ntosebpfext.Base.{ℕ, ◌≡◌, Option, none, some, ◌==◌, if◌then◌else◌}
use ntosebpfext.Kernel.Status.{EbpfResult, nt_success, status_pending, status_no_memory}
use ntosebpfext.Kernel.Command.{Cmd, pure, ◌>>=◌, ◌>>◌}
use ntosebpfext.HookProvider.Links.{initialize_list_head}
use ntosebpfext.HookProvider.State.{
  HookClient, Sys, load_provider, store_provider, free_provider, relink,
}

-- The calls of the Network Module Registrar that the drivers make. `register_provider` takes the
-- provider's context and gives a status and a handle.
pub record Nmr (S : Type 0) : Type 0 where
  pub register_provider : ℕ → Cmd S (ℕ × ℕ)
  pub deregister_provider : ℕ → Cmd S ℕ
  pub wait_for_provider_deregister_complete : ℕ → Cmd S (Unit {0})

-- NMR as the drivers rely on it: it registers or fails, it deregisters at once or later, and no client comes
-- or goes while it does.
pub record Quiet {S : Type 0} (nmr : Nmr S) (status handle left : ℕ) : Type 0 where
  pub registers : (p : ℕ) (s : S) → nmr.register_provider p s ≡ some ((status, handle), s)
  pub deregisters : (h : ℕ) (s : S) → nmr.deregister_provider h s ≡ some (left, s)
  pub waits : (h : ℕ) (s : S) → nmr.wait_for_provider_deregister_complete h s ≡ some (tt, s)

-- `ebpf_extension_hook_provider_parameters_t`, the two callbacks and the custom data.
pub record RegisterArgs (E C R : Type 0) : Type 0 where
  pub provider_module_id : ℕ
  pub provider_data : ℕ
  pub attach_callback : HookClient C R → ℕ → E → EbpfResult × E
  pub detach_callback : HookClient C R → E → E
  pub custom_data : ℕ

module _ {E C R : Type 0} (nmr : Nmr (Sys E C R)) where
  -- `ebpf_extension_hook_provider_unregister`
  unfoldable pub provider_unregister : ℕ → Cmd (Sys E C R) (Unit {0})
  provider_unregister p = if p == 0 then pure tt else do
    c ← load_provider p
    if c.nmr_provider_handle == 0 then pure tt else do
      status ← nmr.deregister_provider c.nmr_provider_handle
      if status == status_pending
          then nmr.wait_for_provider_deregister_complete c.nmr_provider_handle
          else pure tt
    free_provider p

  -- `ebpf_extension_hook_provider_register`: the status, and what is written to `*provider_context`.
  -- `block` is the address that `ExAllocatePoolUninitialized` returns.
  unfoldable pub provider_register : ℕ → RegisterArgs E C R → Cmd (Sys E C R) (ℕ × Option ℕ)
  unfolding provider_unregister
  provider_register block a = if block == 0 then pure (status_no_memory, none) else do
    store_provider block (record {
      npi_specific_characteristics = a.provider_data;
      module_id = a.provider_module_id;
      nmr_provider_handle = 0;
      attach_callback = a.attach_callback;
      detach_callback = a.detach_callback;
      custom_data = a.custom_data;
    })
    relink (initialize_list_head block)
    (status, handle) ← nmr.register_provider block
    p ← load_provider block
    if nt_success status
        then (do
          store_provider block (record p { nmr_provider_handle = handle })
          pure (status, some block))
        else (do
          store_provider block (record p { nmr_provider_handle = 0 })
          provider_unregister block
          pure (status, none))
