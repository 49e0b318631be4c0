-- ===== src/Ntos/Providers.antt =====
-- The registration of the providers of ntos_ebpf_ext_process.c, as the driver is loaded and unloaded.
pub mod Laws
use ntosebpfext.Base.{ℕ, if◌then◌else◌}
use ntosebpfext.Kernel.Status.{nt_success}
use ntosebpfext.Kernel.Command.{Cmd, pure, ◌>>=◌, ◌>>◌}
use ntosebpfext.HookProvider.State.{Sys}
use ntosebpfext.HookProvider.Register.{Nmr}
use ntosebpfext.ProgramInfo.{InfoSys}
use ntosebpfext.Providers.{
  Contexts, ProviderArgs, unregister_contexts, register_info, register_hook,
}
use ntosebpfext.Ntos.Registration.{Registration, PsSet, attach_callback, detach_callback}

-- The addresses of `_ebpf_process_program_data` and `_ntos_ebpf_process_hook_provider_data`, and the
-- identifiers EBPF_PROGRAM_TYPE_PROCESS and EBPF_ATTACH_TYPE_PROCESS.
pub record ProcessIds : Type 0 where
  pub program_data : ℕ
  pub program_type : ℕ
  pub provider_data : ℕ
  pub attach_type : ℕ

module _ {O C R : Type 0} (ps_set : PsSet O) (info_nmr : Nmr InfoSys)
    (hook_nmr : Nmr (Sys (Registration O) C R)) where
  -- The parameters of the two registrations.
  abbrev pub process_args :
      ProcessIds → (info_block hook_block : ℕ) → ProviderArgs (Registration O) C R
  process_args ids info_block hook_block = record {
    info_block = info_block;
    program_data = ids.program_data;
    program_type = ids.program_type;
    hook_block = hook_block;
    hook_args = record {
      provider_module_id = ids.attach_type;
      provider_data = ids.provider_data;
      attach_callback = attach_callback ps_set;
      detach_callback = detach_callback ps_set;
      custom_data = 0;
    };
  }

  -- `ebpf_ext_unregister_ntos`
  unfoldable pub unregister_ntos : Cmd (Contexts (Registration O) C R) (Unit {0})
  unregister_ntos = unregister_contexts info_nmr hook_nmr

  -- The label `Exit` of the registration.
  unfoldable pub register_exit : ℕ → Cmd (Contexts (Registration O) C R) ℕ
  register_exit status =
      if nt_success status then pure status else (do unregister_ntos; pure status)

  -- `ebpf_ext_register_ntos`. Whatever the second status, what follows is the label `Exit`.
  unfoldable pub register_ntos :
      ProcessIds → (info_block hook_block : ℕ) → Cmd (Contexts (Registration O) C R) ℕ
  register_ntos ids info_block hook_block = do
    status ← register_info info_nmr hook_nmr (process_args ids info_block hook_block)
    if nt_success status
        then (register_hook info_nmr hook_nmr (process_args ids info_block hook_block)
            >>= register_exit)
        else register_exit status
