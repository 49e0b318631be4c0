-- ===== src/HookProvider/Inv/Attached.antt =====
-- `_ebpf_extension_hook_provider_attach_client` as a whole: every path either adds the client or
-- gives back all that it took.
use ntosebpfext.Base.{
  ℕ, ◌≡◌, refl, ◌≢◌, ◌⊎◌, true, false, ◌&&◌, none, some, List, [], ◌∷◌, ◌++◌, arith, ◌==◌, ==_iff,
  All, All-map, All-append, ◌∉◌, Bool-cases, Option-cases, inl, inr,
}
use ntosebpfext.Kernel.Status.{
  EbpfResult, is_success, nt_success, status_success, status_invalid_parameter, status_no_memory,
}
use ntosebpfext.Kernel.Command.{Returns}
use ntosebpfext.HookProvider.Links.{insert_tail_list}
use ntosebpfext.HookProvider.Links.Ring.{insert_tail-IsRing}
use ntosebpfext.HookProvider.State.{
  Rundown, Invoke, HookClient, HookProvider, Sys, update, update-update, update_restore,
}
use ntosebpfext.HookProvider.Attach.{
  AttachArgs, AttachReply, attach_client, attach_bound, attach_exit, unbound_client,
}
use ntosebpfext.HookProvider.Inv.{IsClient, IsAttached}
use ntosebpfext.HookProvider.Inv.Attach
use ntosebpfext.HookProvider.Inv.Attach.{bound_client, with_client}
use ntosebpfext.HookProvider.Inv.Outcome.{bound_ok, bound_denied, bound_no_item}

-- What the pool hands out is not in use: `block` is no client and `item` no work item.
pub record IsFresh {E C R : Type 0} (s : Sys E C R) (provider block item : ℕ) : Type 0 where
  pub block_new : s.client block ≡ none
  pub block_ne : block ≢ provider
  pub item_new : s.work_item item ≡ false

module _ {E C R : Type 0} where
  -- The extension's callback agreed, or was not called or refused, and its state is what it left.
  abbrev pub Agreed : Sys E C R → ℕ → HookProvider E C R → Sys E C R → Type 0
  Agreed s provider h s' =
      (c : HookClient C R) × (is_success (h.attach_callback c provider s.ext).0 ≡ true)
      × (s'.ext ≡ (h.attach_callback c provider s.ext).1)

  abbrev pub Refused : Sys E C R → ℕ → HookProvider E C R → Sys E C R → Type 0
  Refused s provider h s' =
      (s'.ext ≡ s.ext)
      ⊎ ((c : HookClient C R) × (is_success (h.attach_callback c provider s.ext).0 ≡ false)
          × (s'.ext ≡ (h.attach_callback c provider s.ext).1))

  -- The client is added, and given to NMR as the binding context.
  abbrev pub Accepted :
      Sys E C R → ℕ → HookProvider E C R → List ℕ → ℕ → AttachReply → Sys E C R → Type 0
  Accepted s provider h xs block r s' =
      (r ≡ (status_success, some block, some 0))
      × IsAttached s' provider h (xs ++ block ∷ [])
      × Agreed s provider h s'

  -- The status is a failure, no binding context is given out, and ring and memory are as before.
  abbrev pub Rejected :
      Sys E C R → ℕ → HookProvider E C R → List ℕ → AttachReply → Sys E C R → Type 0
  Rejected s provider h xs r s' =
      (nt_success r.0 ≡ false)
      × ((r.1 ≡ none) ⊎ (r.1 ≡ some 0))
      × (s'.links ≡ s.links)
      × (s'.client ≡ s.client)
      × (s'.work_item ≡ s.work_item)
      × (s'.provider ≡ s.provider)
      × Refused s provider h s'

module _ {E C R : Type 0} (rd : Rundown R) (s : Sys E C R) (block item : ℕ) (a : AttachArgs C) where
  abbrev allocated : Sys E C R
  allocated = with_client s block (unbound_client rd a)

  no_out_pointers :
      (a.has_binding_context_out && a.has_dispatch_out) ≡ false
      → attach_client rd block item a s ≡ some ((status_invalid_parameter, none, none), s)
  unfolding attach_client
  no_out_pointers h = ground arith

  module _ (outs : (a.has_binding_context_out && a.has_dispatch_out) ≡ true)
      (ne : a.provider_context ≢ 0) where
    no_block :
        block ≡ 0 → attach_client rd block item a s ≡ some ((status_no_memory, some 0, some 0), s)
    unfolding attach_client
    no_block h = ground arith

    no_dispatch :
        block ≢ 0
        → a.client_dispatch ≡ none
        → attach_client rd block item a s ≡ attach_exit block status_invalid_parameter allocated
    unfolding attach_client
    no_dispatch h e = ground arith

    with_dispatch :
        (invoke : Invoke C)
        → block ≢ 0
        → a.client_dispatch ≡ some invoke
        → attach_client rd block item a s ≡ attach_bound rd item block invoke a allocated
    unfolding attach_client
    with_dispatch invoke h e = ground arith

  module _ (h : HookProvider E C R) (xs : List ℕ) (inv : IsAttached s a.provider_context h xs)
      (fresh : IsFresh s a.provider_context block item) where
    -- The other clients are where they were.
    others :
        (ext' : E) (c : HookClient C R) (x : ℕ)
        → IsClient s a.provider_context x
        → IsClient
            (record s {
              ext = ext';
              links = insert_tail_list a.provider_context block s.links;
              client = update s.client block (some c);
              work_item = update s.work_item item true;
            })
            a.provider_context
            x
    others ext' c x k = (k.0, k.1, ground (arith, fresh.block_new), k.3, ground arith)

    not-client : (ys : List ℕ) → All (IsClient s a.provider_context) ys → block ∉ ys
    not-client [] k = refl
    not-client (y ∷ ys) k = ground (arith, fresh.block_new, not-client ys k.1)

    attached-IsAttached :
        (ext' : E) (c : HookClient C R)
        → block ≢ 0
        → c.provider_context ≡ a.provider_context
        → c.detach_work_item ≡ item
        → IsAttached
            (record s {
              ext = ext';
              links = insert_tail_list a.provider_context block s.links;
              client = update s.client block (some c);
              work_item = update s.work_item item true;
            })
            a.provider_context
            h
            (xs ++ block ∷ [])
    attached-IsAttached ext' c ne p i = record {
      ne_null = inv.ne_null;
      holds = inv.holds;
      ring =
          insert_tail-IsRing block inv.ring
            (ground (arith, not-client xs inv.clients, fresh.block_ne));
      clients =
          All-append _ xs (block ∷ []) (All-map _ _ xs (others ext' c) inv.clients)
            ((ne, c, ground arith, p, ground arith), tt);
    }

    abbrev pub Outcome : AttachReply → Sys E C R → Type 0
    Outcome r s' =
        Accepted s a.provider_context h xs block r s' ⊎ Rejected s a.provider_context h xs r s'

    allocated_live : allocated.client block ≡ some (unbound_client rd a)
    allocated_live = ground arith

    block_restored : update allocated.client block none ≡ s.client
    block_restored = update_restore s.client block (some (unbound_client rd a)) none fresh.block_new

    Outcome-item :
        (invoke : Invoke C)
        → block ≢ 0
        → item ≢ 0
        → Returns Outcome (attach_bound rd item block invoke a allocated)
    Outcome-item invoke ne item_ne =
        let c : HookClient C R = bound_client rd item invoke a in
        let call : EbpfResult × E = h.attach_callback c a.provider_context s.ext in
        elim (Bool-cases (is_success call.0)) [
          | inl ok ↦
              rw
                (
                  bound_ok rd allocated block invoke a allocated_live ne item item_ne h inv.holds
                      ok,
                  update-update s.client block (some (unbound_client rd a)) (some c),
                )
                (inl (refl, attached-IsAttached call.1 c ne refl refl, (c, ok, refl)))
          | inr bad ↦
              rw
                (bound_denied rd allocated block invoke a allocated_live ne item item_ne h inv.holds
                  bad)
                (inr (
                  refl,
                  inr refl,
                  refl,
                  block_restored,
                  update_restore s.work_item item true false fresh.item_new,
                  refl,
                  inr (c, bad, refl),
                ))
        ]

    Outcome-bound :
        (invoke : Invoke C)
        → block ≢ 0
        → Returns Outcome (attach_bound rd item block invoke a allocated)
    Outcome-bound invoke ne = elim (Bool-cases (item == 0)) [
      | inl z ↦
          rw ((==_iff item 0).0 z, bound_no_item rd allocated block invoke a allocated_live ne)
            (inr (refl, inr refl, refl, block_restored, refl, refl, inl refl))
      | inr nz ↦ Outcome-item invoke ne (ground arith)
    ]

    -- For a provider whose ring holds the live clients `xs`, and addresses that are not in use, an attach does
    -- not fault. It succeeds with the new client behind the others and the callback's agreement, or it fails
    -- with ring, clients, work items and providers as before.
    pub attach_client-Outcome : Returns Outcome (attach_client rd block item a s)
    attach_client-Outcome = elim (Bool-cases (a.has_binding_context_out && a.has_dispatch_out)) [
      | inr e ↦ rw (no_out_pointers e) (inr (refl, inl refl, refl, refl, refl, refl, inl refl))
      | inl e ↦ elim (Bool-cases (block == 0)) [
        | inl z ↦
            rw (no_block e inv.ne_null ((==_iff block 0).0 z))
              (inr (refl, inr refl, refl, refl, refl, refl, inl refl))
        | inr nz ↦ elim (Option-cases a.client_dispatch) [
          | inl d ↦ rw (no_dispatch e inv.ne_null (ground arith) d) (
              rw
                (Attach.attach_exit_fails allocated (unbound_client rd a) block allocated_live
                  status_invalid_parameter _ refl
                  (Attach.cleanup_no_item allocated (unbound_client rd a) block allocated_live
                    (ground arith) refl))
                (inr (refl, inr refl, refl, block_restored, refl, refl, inl refl)))
          | inr (invoke, d) ↦
              rw (with_dispatch e inv.ne_null invoke (ground arith) d)
                (Outcome-bound invoke (ground arith))
        ]
      ]
    ]
