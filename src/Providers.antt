-- ===== src/Providers.antt =====
-- The two providers of an extension, as its registration functions keep them: the provider of program
-- information and the hook provider, with the pointers that the extension holds in static variables.
pub mod Laws
pub mod Registered
use ntosebpfext.Base.{ℕ, Option, none, some, ◌==◌, if◌then◌else◌}
use ntosebpfext.Kernel.Command.{Cmd, pure, ◌>>=◌, ◌>>◌, focus}
use ntosebpfext.HookProvider.State.{Sys}
use ntosebpfext.HookProvider.Register.{Nmr, RegisterArgs, provider_unregister, provider_register}
use ntosebpfext.ProgramInfo.{InfoSys, info_provider_unregister, info_provider_register}

-- The static pointers `…_program_info_provider_context` and `…_hook_provider_context`, 0 for NULL, and the
-- memory of the two providers.
pub record Contexts (E C R : Type 0) : Type 0 where
  pub info_context : ℕ
  pub hook_context : ℕ
  pub info : InfoSys
  pub hook : Sys E C R

-- The arguments of the two registrations, and the addresses that their allocations return.
pub record ProviderArgs (E C R : Type 0) : Type 0 where
  pub info_block : ℕ
  pub program_data : ℕ
  pub program_type : ℕ
  pub hook_block : ℕ
  pub hook_args : RegisterArgs E C R

module _ {E C R : Type 0} where
  abbrev pub put_info : InfoSys → Contexts E C R → Contexts E C R
  put_info t s = record s { info = t }

  abbrev pub put_hook : Sys E C R → Contexts E C R → Contexts E C R
  put_hook t s = record s { hook = t }

  abbrev pub on_info : {A : Type 0} → Cmd InfoSys A → Cmd (Contexts E C R) A
  on_info = focus (λ s. s.info) put_info

  abbrev pub on_hook : {A : Type 0} → Cmd (Sys E C R) A → Cmd (Contexts E C R) A
  on_hook = focus (λ s. s.hook) put_hook

  abbrev set_info_context : ℕ → Cmd (Contexts E C R) (Unit {0})
  set_info_context p s = some (tt, record s { info_context = p })

  abbrev set_hook_context : ℕ → Cmd (Contexts E C R) (Unit {0})
  set_hook_context p s = some (tt, record s { hook_context = p })

  module _ (info_nmr : Nmr InfoSys) (hook_nmr : Nmr (Sys E C R)) where
    -- The hook provider goes first.
    unfoldable pub unregister_hook : Cmd (Contexts E C R) (Unit {0})
    unregister_hook s =
        (if s.hook_context == 0
            then pure tt
            else do on_hook (provider_unregister hook_nmr s.hook_context); set_hook_context 0)
          s

    unfoldable pub unregister_info : Cmd (Contexts E C R) (Unit {0})
    unregister_info s =
        (if s.info_context == 0
            then pure tt
            else do on_info (info_provider_unregister info_nmr s.info_context); set_info_context 0)
          s

    -- The two `if` statements that end both providers.
    unfoldable pub unregister_contexts : Cmd (Contexts E C R) (Unit {0})
    unregister_contexts = do unregister_hook; unregister_info

    -- `ebpf_extension_program_info_provider_register` on the static pointer.
    unfoldable pub register_info : ProviderArgs E C R → Cmd (Contexts E C R) ℕ
    register_info a = do
      (status, out) ←
          on_info (info_provider_register info_nmr a.info_block a.program_data a.program_type)
      elim out [ none ↦ pure tt | some p ↦ set_info_context p ]
      pure status

    -- `ebpf_extension_hook_provider_register` on the static pointer.
    unfoldable pub register_hook : ProviderArgs E C R → Cmd (Contexts E C R) ℕ
    register_hook a = do
      (status, out) ← on_hook (provider_register hook_nmr a.hook_block a.hook_args)
      elim out [ none ↦ pure tt | some p ↦ set_hook_context p ]
      pure status
