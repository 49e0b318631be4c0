-- ===== src/HookProvider/Attach.antt =====
-- `_ebpf_extension_hook_provider_attach_client` and what it calls. The addresses that
-- `ExAllocatePoolUninitialized` and `IoAllocateWorkItem` return are arguments; 0 is NULL.
use ntosebpfext.Base.{ℕ, Bool, true, not, ◌||◌, Option, none, some, ◌==◌, if◌then◌else◌}
use ntosebpfext.Kernel.Status.{
  EbpfResult, is_success, nt_success, status_success, status_invalid_parameter, status_no_memory,
  status_access_denied, status_insufficient_resources,
}
use ntosebpfext.Kernel.Command.{Cmd, pure, ◌>>=◌, ◌>>◌}
use ntosebpfext.HookProvider.Links.{insert_tail_list}
use ntosebpfext.HookProvider.State.{
  ExtensionData, Rundown, Invoke, HookClient, Sys, update, load_client, load_provider, store_client,
  free_client, free_work_item, relink,
}

-- The arguments of the callback. An out parameter is given by whether its pointer is set.
pub record AttachArgs (C : Type 0) : Type 0 where
  pub nmr_binding_handle : ℕ
  pub provider_context : ℕ
  pub module_id : ℕ
  pub npi_specific_characteristics : Option ExtensionData
  pub client_binding_context : ℕ
  pub client_dispatch : Option (Invoke C)
  pub has_binding_context_out : Bool
  pub has_dispatch_out : Bool

-- The status, and the values left in `*provider_binding_context` and `*provider_dispatch`, `none` if
-- they are not written.
abbrev pub AttachReply : Type 0
AttachReply = ℕ × Option ℕ × Option ℕ

-- The client as `memset` and the assignments before the test of the dispatch table leave it.
abbrev pub unbound_client : {C R : Type 0} → Rundown R → AttachArgs C → HookClient C R
unbound_client rd a = record {
  nmr_binding_handle = a.nmr_binding_handle;
  client_module_id = a.module_id;
  client_binding_context = a.client_binding_context;
  client_data = a.npi_specific_characteristics;
  invoke_program = none;
  provider_data = 0;
  provider_context = 0;
  detach_work_item = 0;
  rundown = rd.zeroed;
}

module _ {E C R : Type 0} where
  -- `IoAllocateWorkItem`: the address returned becomes an allocated work item.
  abbrev pub allocate_work_item : ℕ → Cmd (Sys E C R) ℕ
  allocate_work_item item s =
      some (item, if item == 0 then s else record s { work_item = update s.work_item item true })

  module _ (rd : Rundown R) where
    -- `_ebpf_ext_attach_init_rundown`
    unfoldable pub attach_init_rundown : ℕ → ℕ → Cmd (Sys E C R) ℕ
    attach_init_rundown item hook_client = do
      work_item ← allocate_work_item item
      c ← load_client hook_client
      store_client hook_client (record c { detach_work_item = work_item })
      if work_item == 0 then pure status_insufficient_resources else do
        c' ← load_client hook_client
        store_client hook_client (record c' { rundown = rd.init })
        pure status_success

  -- `_ebpf_extension_hook_client_cleanup`
  unfoldable pub hook_client_cleanup : ℕ → Cmd (Sys E C R) (Unit {0})
  hook_client_cleanup p = if p == 0 then pure tt else do
    c ← load_client p
    if c.detach_work_item == 0 then pure tt else free_work_item c.detach_work_item
    free_client p

  -- The label `Exit`, reached with `hook_client` allocated.
  unfoldable pub attach_exit : ℕ → ℕ → Cmd (Sys E C R) AttachReply
  unfolding hook_client_cleanup
  attach_exit hook_client status =
      if nt_success status
      then pure (status, some hook_client, some 0)
      else do hook_client_cleanup hook_client; pure (status, some 0, some 0)

  -- The hook specific callback runs on the extension's state.
  unfoldable pub call_attach_callback : ℕ → ℕ → Cmd (Sys E C R) EbpfResult
  call_attach_callback hook_client provider s =
      (do
        p ← load_provider provider
        c ← load_client hook_client
        λ s'.
            let (result, ext') = p.attach_callback c provider s'.ext in
            some (result, record s' { ext = ext' }))
        s

  -- The callback, and the insertion if it agrees.
  unfoldable pub attach_callback_insert : ℕ → ℕ → Cmd (Sys E C R) ℕ
  unfolding call_attach_callback
  attach_callback_insert hook_client provider = do
    result ← call_attach_callback hook_client provider
    if is_success result
        then (do relink (insert_tail_list provider hook_client); pure status_success)
        else pure status_access_denied

  module _ (rd : Rundown R) where
    -- From the dispatch table on.
    unfoldable pub attach_bound :
        (item hook_client : ℕ) → Invoke C → AttachArgs C → Cmd (Sys E C R) AttachReply
    unfolding attach_init_rundown attach_exit attach_callback_insert
    attach_bound item hook_client invoke a = do
      c ← load_client hook_client
      store_client hook_client
          (record c { invoke_program = some invoke; provider_context = a.provider_context })
      status ← attach_init_rundown rd item hook_client
      if nt_success status
          then attach_callback_insert hook_client a.provider_context >>= attach_exit hook_client
          else attach_exit hook_client status

    -- `_ebpf_extension_hook_provider_attach_client`
    unfoldable pub attach_client : (block item : ℕ) → AttachArgs C → Cmd (Sys E C R) AttachReply
    unfolding attach_bound attach_exit
    attach_client block item a =
        if not a.has_binding_context_out || not a.has_dispatch_out || a.provider_context == 0
        then pure (status_invalid_parameter, none, none)
        else if block == 0
        then pure (status_no_memory, some 0, some 0)
        else do
          store_client block (unbound_client rd a)
          elim a.client_dispatch [
            | none ↦ attach_exit block status_invalid_parameter
            | some invoke ↦ attach_bound item block invoke a
          ]
