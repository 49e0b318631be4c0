-- ===== src/HookProvider/Inv/Attach.antt =====
-- Attaching a client: what each outcome does to the ring and to the memory.
use ntosebpfext.Base.{ℕ, ◌≡◌, refl, ◌≢◌, true, false, none, some, arith}
use ntosebpfext.Kernel.Status.{
  is_success, nt_success, status_success, status_access_denied, status_insufficient_resources,
}
use ntosebpfext.Kernel.Command.{◌>>=◌}
use ntosebpfext.HookProvider.Links.{insert_tail_list}
use ntosebpfext.HookProvider.State.{
  Rundown, Invoke, HookClient, HookProvider, Sys, update, update-update,
}
use ntosebpfext.HookProvider.Attach.{
  AttachArgs, attach_exit, attach_callback_insert, attach_init_rundown, hook_client_cleanup,
}

-- The client that a successful attach leaves at `block`.
abbrev pub bound_client : {C R : Type 0} → Rundown R → ℕ → Invoke C → AttachArgs C → HookClient C R
bound_client rd item invoke a = record {
  nmr_binding_handle = a.nmr_binding_handle;
  client_module_id = a.module_id;
  client_binding_context = a.client_binding_context;
  client_data = a.npi_specific_characteristics;
  invoke_program = some invoke;
  provider_data = 0;
  provider_context = a.provider_context;
  detach_work_item = item;
  rundown = rd.init;
}

-- The state with a client written, and with a work item allocated too.
abbrev pub with_client : {E C R : Type 0} → Sys E C R → ℕ → HookClient C R → Sys E C R
with_client s p c = record s { client = update s.client p (some c) }

abbrev pub with_item : {E C R : Type 0} → Sys E C R → ℕ → Sys E C R
with_item s item = record s { work_item = update s.work_item item true }

module _ {E C R : Type 0} (s : Sys E C R) (c : HookClient C R) (p : ℕ)
    (live : s.client p ≡ some c) where
  pub attach_init_rundown-ok :
      (rd : Rundown R) (item : ℕ)
      → item ≢ 0
      → attach_init_rundown rd item p s
        ≡ some (
          status_success,
          with_item
              (with_client s p (record c { detach_work_item = item; rundown = rd.init }))
              item,
        )
  unfolding attach_init_rundown
  attach_init_rundown-ok rd item ne = ground (
    arith,
    update-update s.client p (some (record c { detach_work_item = item }))
        (some (record c { detach_work_item = item; rundown = rd.init })),
  )

  pub attach_init_rundown-fails :
      (rd : Rundown R)
      → attach_init_rundown rd 0 p s
        ≡ some (status_insufficient_resources, with_client s p (record c { detach_work_item = 0 }))
  unfolding attach_init_rundown
  attach_init_rundown-fails rd = ground arith

  pub cleanup_no_item :
      p ≢ 0
      → c.detach_work_item ≡ 0
      → hook_client_cleanup p s ≡ some (tt, record s { client = update s.client p none })
  unfolding hook_client_cleanup
  cleanup_no_item ne e = ground arith

  pub cleanup_item :
      p ≢ 0
      → c.detach_work_item ≢ 0
      → s.work_item c.detach_work_item ≡ true
      → hook_client_cleanup p s
        ≡ some (
          tt,
          record s {
            client = update s.client p none;
            work_item = update s.work_item c.detach_work_item false;
          },
        )
  unfolding hook_client_cleanup
  cleanup_item ne e h = ground arith

  pub attach_exit_ok : attach_exit p status_success s ≡ some ((status_success, some p, some 0), s)
  unfolding attach_exit
  attach_exit_ok = refl

  pub attach_exit_fails :
      (status : ℕ) (s' : Sys E C R)
      → nt_success status ≡ false
      → hook_client_cleanup p s ≡ some (tt, s')
      → attach_exit p status s ≡ some ((status, some 0, some 0), s')
  unfolding attach_exit
  attach_exit_fails status s' h e = rw (h, ◌>>=◌, e)

  module _ (h : HookProvider E C R) (provider : ℕ) (holds : s.provider provider ≡ some h) where
    pub insert_ok :
        is_success (h.attach_callback c provider s.ext).0 ≡ true
        → attach_callback_insert p provider s
          ≡ some (
            status_success,
            record s {
              ext = (h.attach_callback c provider s.ext).1;
              links = insert_tail_list provider p s.links;
            },
          )
    unfolding attach_callback_insert
    insert_ok ok = ground arith

    pub insert_denied :
        is_success (h.attach_callback c provider s.ext).0 ≡ false
        → attach_callback_insert p provider s
          ≡ some (status_access_denied, record s { ext = (h.attach_callback c provider s.ext).1 })
    unfolding attach_callback_insert
    insert_denied ok = ground arith
