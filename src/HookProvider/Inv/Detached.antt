-- ===== src/HookProvider/Inv/Detached.antt =====
-- Detaching a client: the ring, the work item that is queued, and what its completion frees.
use ntosebpfext.Base.{
  ℕ, ◌≡◌, refl, ◌≢◌, true, false, none, some, List, [], ◌∷◌, ◌++◌, arith, ◌==◌, All, All_of_mem,
  ◌∈◌, erase, Bool-cases, inl, inr,
}
use ntosebpfext.Kernel.Status.{status_pending}
use ntosebpfext.Kernel.Command.{Cmd, Returns}
use ntosebpfext.HookProvider.Links.{remove_entry_list}
use ntosebpfext.HookProvider.Links.Ring.{remove_entry-IsRing}
use ntosebpfext.HookProvider.State.{Rundown, HookClient, HookProvider, Sys, update, update-update}
use ntosebpfext.HookProvider.Detach.{
  detach_client, detach_client_completion, cleanup_binding_context,
}
use ntosebpfext.HookProvider.Inv.{IsClient, IsAttached}

All-erase : (P : ℕ → Type 0) (x : ℕ) (xs : List ℕ) → All P xs → All P (erase x xs)
All-erase P x [] k = tt
All-erase P x (y ∷ ys) k = elim (Bool-cases (x == y)) [
  | inl e ↦ rw e k.1
  | inr e ↦ rw e (k.0, All-erase P x ys k.1)
]

module _ {E C R : Type 0} where
  -- The state after a detach of `x`, whose client is `c`.
  abbrev pub detached : Sys E C R → HookProvider E C R → HookClient C R → ℕ → Sys E C R
  detached s h c x = record s {
    ext = h.detach_callback c s.ext;
    links = remove_entry_list x s.links;
    queued = s.queued ++ ((c.detach_work_item, x) ∷ []);
  }

  detach_run :
      (s : Sys E C R) (h : HookProvider E C R) (c : HookClient C R) (x provider : ℕ)
      → x ≢ 0
      → s.client x ≡ some c
      → c.provider_context ≡ provider
      → s.provider provider ≡ some h
      → detach_client x s ≡ some (status_pending, detached s h c x)
  unfolding detach_client
  detach_run s h c x provider ne live back holds = ground arith

  -- What a detach leaves: the ring without `x`, its memory still there, its work item queued, and the
  -- extension's callback run.
  abbrev pub Detached : Sys E C R → ℕ → HookProvider E C R → List ℕ → ℕ → ℕ → Sys E C R → Type 0
  Detached s provider h xs x status s' =
      (status ≡ status_pending)
      × IsAttached s' provider h (erase x xs)
      × (s'.client ≡ s.client)
      × (s'.work_item ≡ s.work_item)
      × (c : HookClient C R) × (s.client x ≡ some c)
      × (s'.queued ≡ s.queued ++ ((c.detach_work_item, x) ∷ []))
      × (s'.ext ≡ h.detach_callback c s.ext)

  -- For an attached client, a detach does not fault and is pending: the client leaves the ring, its work item
  -- is queued with it as context, the detach callback has run, and no memory is freed.
  pub detach_client-Detached :
      (s : Sys E C R) (provider : ℕ) (h : HookProvider E C R) (xs : List ℕ) (x : ℕ)
      → IsAttached s provider h xs
      → x ∈ xs
      → Returns (Detached s provider h xs x) (detach_client x s)
  detach_client-Detached s provider h xs x inv m =
      let (ne, c, live, back, _) = All_of_mem (IsClient s provider) x xs inv.clients m in
      rw (detach_run s h c x provider ne live back inv.holds) (
        refl,
        record {
          ne_null = inv.ne_null;
          holds = inv.holds;
          ring = remove_entry-IsRing x inv.ring m;
          clients = All-erase _ x xs inv.clients;
        },
        refl,
        refl,
        c,
        live,
        refl,
        refl,
      )

  -- A detach of NULL faults, where nothing stands at NULL.
  pub detach_client_null : (s : Sys E C R) → s.client 0 ≡ none → detach_client 0 s ≡ none
  unfolding detach_client
  detach_client_null s h = ground arith

  -- If NMR answers the completion of a detach with the cleanup of the binding context, the work item of a
  -- client frees itself and the client, and changes nothing else.
  pub completion_frees :
      (rd : Rundown R) (complete : ℕ → Cmd (Sys E C R) (Unit {0})) (s : Sys E C R)
      (c : HookClient C R) (x : ℕ)
      → ((s' : Sys E C R) → complete c.nmr_binding_handle s' ≡ cleanup_binding_context x s')
      → x ≢ 0
      → s.client x ≡ some c
      → s.work_item c.detach_work_item ≡ true
      → detach_client_completion rd complete x s
        ≡ some (
          tt,
          record s {
            client = update s.client x none;
            work_item = update s.work_item c.detach_work_item false;
          },
        )
  unfolding detach_client_completion cleanup_binding_context
  completion_frees rd complete s c x nmr ne live item =
      let waited : HookClient C R = record c { rundown = rd.wait c.rundown } in
      ground (
        arith,
        nmr (record s {
          client = update s.client x (some waited);
          work_item = update s.work_item c.detach_work_item false;
        }),
        update-update s.client x (some waited) none,
      )
