-- ===== src/ProgramInfo.antt =====
-- libs/ebpf_ext/ebpf_ext_prog_info_provider.c: the provider of program information. It gives each client
-- a binding context and no more. The addresses that `ExAllocatePoolUninitialized` returns are arguments.
pub mod Laws
use ntosebpfext.Base.{ℕ, Bool, not, ◌||◌, Option, none, some, ◌==◌, if◌then◌else◌}
use ntosebpfext.Kernel.Status.{
  nt_success, status_success, status_pending, status_invalid_parameter, status_no_memory,
}
use ntosebpfext.Kernel.Command.{Cmd, pure, ◌>>=◌, ◌>>◌}
use ntosebpfext.HookProvider.State.{update}
use ntosebpfext.HookProvider.Register.{Nmr}

-- `ebpf_extension_program_info_client_t`
pub record InfoClient : Type 0 where
  pub nmr_binding_handle : ℕ
  pub client_module_id : ℕ

-- `ebpf_extension_program_info_provider_t`. Of `characteristics` the two fields that vary.
pub record InfoProvider : Type 0 where
  pub npi_specific_characteristics : ℕ
  pub module_id : ℕ
  pub nmr_provider_handle : ℕ

-- The live structures by address.
pub record InfoSys : Type 0 where
  pub client : ℕ → Option InfoClient
  pub provider : ℕ → Option InfoProvider

-- The arguments of the attach callback that it reads.
pub record InfoArgs : Type 0 where
  pub nmr_binding_handle : ℕ
  pub module_id : ℕ
  pub has_binding_context_out : Bool
  pub has_dispatch_out : Bool

-- `ExFreePool` of a client or a provider; freeing what is not allocated faults.
abbrev free_info_client : ℕ → Cmd InfoSys (Unit {0})
free_info_client p s = elim (s.client p) [
  | none ↦ none
  | some c ↦ some (tt, record s { client = update s.client p none })
]

abbrev free_info_provider : ℕ → Cmd InfoSys (Unit {0})
free_info_provider p s = elim (s.provider p) [
  | none ↦ none
  | some c ↦ some (tt, record s { provider = update s.provider p none })
]

abbrev load_info_provider : ℕ → Cmd InfoSys InfoProvider
load_info_provider p s = elim (s.provider p) [ none ↦ none | some c ↦ some (c, s) ]

abbrev store_info_provider : ℕ → InfoProvider → Cmd InfoSys (Unit {0})
store_info_provider p c s = some (tt, record s { provider = update s.provider p (some c) })

-- `_ebpf_extension_program_info_provider_attach_client`: the status, and the values left in
-- `*provider_binding_context` and `*provider_dispatch`, `none` if they are not written. On every failing
-- path the client is NULL, so that there is nothing to free.
unfoldable pub info_attach_client : ℕ → InfoArgs → Cmd InfoSys (ℕ × Option ℕ × Option ℕ)
info_attach_client block a s =
    if not a.has_binding_context_out || not a.has_dispatch_out
    then some ((status_invalid_parameter, none, none), s)
    else if block == 0
    then some ((status_no_memory, some 0, some 0), s)
    else some (
      (status_success, some block, some 0),
      record s {
        client = update s.client block (
            some (record {
              nmr_binding_handle = a.nmr_binding_handle;
              client_module_id = a.module_id;
            }));
      },
    )

-- `_ebpf_extension_program_info_provider_detach_client`
unfoldable pub info_detach_client : ℕ → Cmd InfoSys ℕ
info_detach_client p = pure status_success

-- `_ebpf_extension_program_info_provider_cleanup_binding_context`
unfoldable pub info_cleanup_binding_context : ℕ → Cmd InfoSys (Unit {0})
info_cleanup_binding_context p = if p == 0 then pure tt else free_info_client p

module _ (nmr : Nmr InfoSys) where
  -- `ebpf_extension_program_info_provider_unregister`
  unfoldable pub info_provider_unregister : ℕ → Cmd InfoSys (Unit {0})
  info_provider_unregister p = if p == 0 then pure tt else do
    c ← load_info_provider p
    if c.nmr_provider_handle == 0 then pure tt else do
      status ← nmr.deregister_provider c.nmr_provider_handle
      if status == status_pending
          then nmr.wait_for_provider_deregister_complete c.nmr_provider_handle
          else pure tt
    free_info_provider p

  -- `ebpf_extension_program_info_provider_register`: the status, and what is written to
  -- `*provider_context`.
  unfoldable pub info_provider_register :
      (block provider_data provider_module_id : ℕ) → Cmd InfoSys (ℕ × Option ℕ)
  info_provider_register block provider_data provider_module_id =
      if block == 0 then pure (status_no_memory, none) else do
        store_info_provider block (record {
          npi_specific_characteristics = provider_data;
          module_id = provider_module_id;
          nmr_provider_handle = 0;
        })
        (status, handle) ← nmr.register_provider block
        p ← load_info_provider block
        if nt_success status
            then (do
              store_info_provider block (record p { nmr_provider_handle = handle })
              pure (status, some block))
            else (do
              store_info_provider block (record p { nmr_provider_handle = 0 })
              info_provider_unregister block
              pure (status, none))
