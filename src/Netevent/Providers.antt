-- ===== src/Netevent/Providers.antt =====
-- `ebpf_ext_register_netevent` and `ebpf_ext_unregister_netevent` of netevent_ebpf_ext_event.c: the two
-- providers, and the buffers of the CPUs.
pub mod Exit
pub mod Laws
use ntosebpfext.Base.{ℕ, none, some, ◌==◌, if◌then◌else◌}
use ntosebpfext.Kernel.Status.{nt_success}
use ntosebpfext.Kernel.Command.{Cmd, pure, ◌>>=◌, ◌>>◌, focus}
use ntosebpfext.Kernel.Pool.{Pool, Allocator}
use ntosebpfext.HookProvider.State.{Sys}
use ntosebpfext.HookProvider.Register.{Nmr}
use ntosebpfext.ProgramInfo.{InfoSys}
use ntosebpfext.Providers.{
  Contexts, ProviderArgs, unregister_contexts, register_info, register_hook,
}
use ntosebpfext.Netevent.Push.{EventBuffers}
use ntosebpfext.Netevent.Buffers.{create_buffers, release_buffers}
use ntosebpfext.Netevent.Registration.{Registration, NmrClient, attach_callback, detach_callback}

-- The static variables of the file and the memory that they point to.
pub record EventState (E C R : Type 0) : Type 0 where
  pub contexts : Contexts E C R
  pub buffers : EventBuffers
  pub pool : Pool

-- The addresses of `_ebpf_netevent_event_program_data` and `_netevent_ebpf_netevent_event_hook_provider_data`,
-- the identifiers EBPF_PROGRAM_TYPE_NETEVENT and EBPF_ATTACH_TYPE_NETEVENT, and
-- EBPF_ATTACH_CLIENT_DATA_CURRENT_VERSION.
pub record EventIds : Type 0 where
  pub program_data : ℕ
  pub program_type : ℕ
  pub provider_data : ℕ
  pub attach_type : ℕ
  pub client_data_version : ℕ

-- What the allocations of a registration return: the blocks of the two providers, and the entries of the two
-- arrays, which are not initialised.
pub record NewBlocks : Type 0 where
  pub info_block : ℕ
  pub hook_block : ℕ
  pub entries : ℕ → ℕ
  pub sizes : ℕ → ℕ

module _ {E C R : Type 0} where
  abbrev pub put_contexts : Contexts E C R → EventState E C R → EventState E C R
  put_contexts c s = record s { contexts = c }

  abbrev pub on_contexts : {A : Type 0} → Cmd (Contexts E C R) A → Cmd (EventState E C R) A
  on_contexts = focus (λ s. s.contexts) put_contexts

  -- A command of the pool that gives the new buffers, and any other result.
  abbrev pub create : {A : Type 0} → Cmd Pool (A × EventBuffers) → Cmd (EventState E C R) A
  create m s = elim (m s.pool) [
    | none ↦ none
    | some ((a, b), h) ↦ some (a, record s { buffers = b; pool = h })
  ]

module _ {O C R : Type 0} (nmr_client : NmrClient O) (al : Allocator) (info_nmr : Nmr InfoSys)
    (hook_nmr : Nmr (Sys (Registration O) C R)) where
  -- The parameters of the two registrations.
  abbrev pub netevent_args : EventIds → NewBlocks → ProviderArgs (Registration O) C R
  netevent_args ids new = record {
    info_block = new.info_block;
    program_data = ids.program_data;
    program_type = ids.program_type;
    hook_block = new.hook_block;
    hook_args = record {
      provider_module_id = ids.attach_type;
      provider_data = ids.provider_data;
      attach_callback = attach_callback nmr_client ids.client_data_version;
      detach_callback = detach_callback nmr_client;
      custom_data = 0;
    };
  }

  -- `ebpf_ext_unregister_netevent`
  unfoldable pub unregister_netevent : Cmd (EventState (Registration O) C R) (Unit {0})
  unregister_netevent = do
    on_contexts (unregister_contexts info_nmr hook_nmr)
    λ s. create (release_buffers s.buffers >>= λ b. pure (tt, b)) s

  -- The label `Exit` of the registration.
  unfoldable pub register_exit : ℕ → Cmd (EventState (Registration O) C R) ℕ
  register_exit status =
      if nt_success status then pure status else (do unregister_netevent; pure status)

  -- `ebpf_ext_register_netevent`. `cpu_count` is what `KeQueryMaximumProcessorCountEx` returns. A second status
  -- that is not zero leads to the label `Exit`, also where it is a success.
  unfoldable pub register_netevent :
      EventIds → NewBlocks → (cpu_count : ℕ) → Cmd (EventState (Registration O) C R) ℕ
  register_netevent ids new cpu_count = do
    status ← on_contexts (register_info info_nmr hook_nmr (netevent_args ids new))
    if nt_success status
        then (do
          status' ← on_contexts (register_hook info_nmr hook_nmr (netevent_args ids new))
          if status' == 0
              then (create (create_buffers al cpu_count new.entries new.sizes) >>= register_exit)
              else register_exit status')
        else register_exit status
