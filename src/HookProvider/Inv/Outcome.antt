-- ===== src/HookProvider/Inv/Outcome.antt =====
-- The outcomes of `_ebpf_extension_hook_provider_attach_client`.
use ntosebpfext.Base.{ℕ, ◌≡◌, refl, ◌≢◌, true, false, none, some, arith}
use ntosebpfext.Kernel.Status.{
  is_success, status_success, status_access_denied, status_insufficient_resources,
}
use ntosebpfext.Kernel.Command.{◌>>=◌}
use ntosebpfext.HookProvider.Links.{insert_tail_list}
use ntosebpfext.HookProvider.State.{
  Rundown, Invoke, HookClient, HookProvider, Sys, update, update-update,
}
use ntosebpfext.HookProvider.Attach.{
  AttachArgs, attach_bound, attach_exit, attach_callback_insert, unbound_client,
}
use ntosebpfext.HookProvider.Inv.Attach
use ntosebpfext.HookProvider.Inv.Attach.{bound_client, with_client, with_item}

module _ {E C R : Type 0} (rd : Rundown R) (s : Sys E C R) (block : ℕ) (invoke : Invoke C)
    (a : AttachArgs C) (live : s.client block ≡ some (unbound_client rd a))
    (block_ne : block ≢ 0) where
  -- The client when its dispatch table has been read.
  abbrev pub dispatched : HookClient C R
  dispatched = record (unbound_client rd a) {
    invoke_program = some invoke;
    provider_context = a.provider_context;
  }

  abbrev pub read_dispatch : Sys E C R
  read_dispatch = with_client s block dispatched

  module _ (item : ℕ) (item_ne : item ≢ 0) where
    abbrev pub bound : HookClient C R
    bound = bound_client rd item invoke a

    abbrev pub ready : Sys E C R
    ready = with_item (with_client read_dispatch block bound) item

    prepared :
        attach_bound rd item block invoke a s
        ≡ (attach_callback_insert block a.provider_context >>= attach_exit block) ready
    unfolding attach_bound
    prepared = ground (
      arith,
      Attach.attach_init_rundown-ok read_dispatch dispatched block (ground arith) rd item item_ne,
    )

    module _ (h : HookProvider E C R) (holds : s.provider a.provider_context ≡ some h) where
      pub bound_ok :
          is_success (h.attach_callback bound a.provider_context s.ext).0 ≡ true
          → attach_bound rd item block invoke a s
            ≡ some (
              (status_success, some block, some 0),
              record s {
                ext = (h.attach_callback bound a.provider_context s.ext).1;
                links = insert_tail_list a.provider_context block s.links;
                client = update s.client block (some bound);
                work_item = update s.work_item item true;
              },
            )
      bound_ok ok = ground (
        arith,
        prepared,
        Attach.insert_ok ready bound block (ground arith) h a.provider_context holds ok,
        Attach.attach_exit_ok
            (record ready {
              ext = (h.attach_callback bound a.provider_context s.ext).1;
              links = insert_tail_list a.provider_context block s.links;
            })
            bound block (ground arith),
        update-update s.client block (some dispatched) (some bound),
      )

      pub bound_denied :
          is_success (h.attach_callback bound a.provider_context s.ext).0 ≡ false
          → attach_bound rd item block invoke a s
            ≡ some (
              (status_access_denied, some 0, some 0),
              record s {
                ext = (h.attach_callback bound a.provider_context s.ext).1;
                client = update s.client block none;
                work_item = update (update s.work_item item true) item false;
              },
            )
      bound_denied ok =
          let left : Sys E C R = record ready {
            ext = (h.attach_callback bound a.provider_context s.ext).1;
          } in
          let at : left.client block ≡ some bound = ground arith in
          ground (
            arith,
            prepared,
            Attach.insert_denied ready bound block (ground arith) h a.provider_context holds ok,
            Attach.attach_exit_fails left bound block at status_access_denied _ refl
                (Attach.cleanup_item left bound block at block_ne item_ne (ground arith)),
            update-update s.client block (some dispatched) (some bound),
            update-update s.client block (some bound) none,
          )

  pub bound_no_item :
      attach_bound rd 0 block invoke a s
      ≡ some (
        (status_insufficient_resources, some 0, some 0),
        record s { client = update s.client block none },
      )
  unfolding attach_bound
  bound_no_item =
      let left : Sys E C R =
        with_client read_dispatch block (record dispatched { detach_work_item = 0 }) in
      let at : left.client block ≡ some (record dispatched { detach_work_item = 0 }) =
        ground arith in
      ground (
        arith,
        Attach.attach_init_rundown-fails read_dispatch dispatched block (ground arith) rd,
        Attach.attach_exit_fails left _ block at status_insufficient_resources _ refl
            (Attach.cleanup_no_item left _ block at block_ne refl),
        update-update s.client block (some dispatched)
            (some (record dispatched { detach_work_item = 0 })),
        update-update s.client block (some (record dispatched { detach_work_item = 0 })) none,
      )
