-- ===== src/HookProvider/Detach.antt =====
-- Detaching a client of ebpf_ext_hook_provider.c: the NMR callback, the work item that completes the
-- detach, and the release of the binding context.
use ntosebpfext.Base.{ℕ, some, ◌==◌, if◌then◌else◌}
use ntosebpfext.Kernel.Status.{status_pending, status_invalid_parameter}
use ntosebpfext.Kernel.Command.{Cmd, pure, ◌>>=◌, ◌>>◌}
use ntosebpfext.HookProvider.Links.{remove_entry_list}
use ntosebpfext.HookProvider.State.{
  Rundown, Sys, load_client, load_provider, store_client, free_client, free_work_item,
  queue_work_item, relink,
}

module _ {E C R : Type 0} where
  -- The hook specific handler runs on the extension's state.
  unfoldable pub call_detach_callback : (hook_client provider : ℕ) → Cmd (Sys E C R) (Unit {0})
  call_detach_callback hook_client provider s =
      (do
        p ← load_provider provider
        c ← load_client hook_client
        λ s'. some (tt, record s' { ext = p.detach_callback c s'.ext }))
        s

  -- `_ebpf_extension_hook_provider_detach_client`: the pointer is followed before it is compared
  -- with NULL.
  unfoldable pub detach_client : ℕ → Cmd (Sys E C R) ℕ
  unfolding call_detach_callback
  detach_client p = do
    c ← load_client p
    if p == 0 then pure status_invalid_parameter else do
      call_detach_callback p c.provider_context
      relink (remove_entry_list p)
      c' ← load_client p
      queue_work_item c'.detach_work_item p
      pure status_pending

  -- `_ebpf_extension_detach_client_completion`. `NmrProviderDetachClientComplete` is a parameter.
  unfoldable pub detach_client_completion :
      Rundown R
      → (nmr_provider_detach_client_complete : ℕ → Cmd (Sys E C R) (Unit {0})) → ℕ
      → Cmd (Sys E C R) (Unit {0})
  detach_client_completion rd complete p = do
    c ← load_client p
    store_client p (record c { rundown = rd.wait c.rundown })
    free_work_item c.detach_work_item
    c' ← load_client p
    complete c'.nmr_binding_handle

  -- `_ebpf_extension_hook_provider_cleanup_binding_context`
  unfoldable pub cleanup_binding_context : ℕ → Cmd (Sys E C R) (Unit {0})
  cleanup_binding_context p = if p == 0 then pure tt else free_client p
