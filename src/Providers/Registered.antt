-- ===== src/Providers/Registered.antt =====
-- What the registrations of the two providers of an extension leave.
use ntosebpfext.Base.{ℕ, ◌≡◌, refl, ◌∙◌, ◌⊎◌, inl, inr, true, false, none, []}
use ntosebpfext.Kernel.Status.{nt_success}
use ntosebpfext.Kernel.Command.{Returns, Focused, Returns-bind, Returns-focus}
use ntosebpfext.HookProvider.State.{Sys}
use ntosebpfext.HookProvider.Register.{Nmr, provider_register}
use ntosebpfext.HookProvider.Register.Laws.{registered_as, Registered, provider_register-Registered}
use ntosebpfext.HookProvider.Inv.{IsAttached}
use ntosebpfext.ProgramInfo.{InfoSys, info_provider_register}
use ntosebpfext.ProgramInfo.Laws.{InfoRegistered, info_provider_register-Registered}
use ntosebpfext.Providers.{
  Contexts, ProviderArgs, put_info, put_hook, on_info, on_hook, register_info, register_hook,
}
use ntosebpfext.Providers.Laws.{Holds, BothQuiet}

module _ {E C R : Type 0} (a : ProviderArgs E C R) (s : Contexts E C R) where
  -- The static pointers are NULL, and the addresses of the new blocks are not in use.
  pub record IsReady : Type 0 where
    pub no_info : s.info_context ≡ 0
    pub no_hook : s.hook_context ≡ 0
    pub info_new : s.info.provider a.info_block ≡ none
    pub hook_new : s.hook.provider a.hook_block ≡ none

  abbrev pub InfoDone : ℕ → Contexts E C R → Type 0
  InfoDone status t =
      Holds s t
      × (t.hook_context ≡ 0)
      × (t.hook ≡ s.hook)
      × (((nt_success status ≡ true) × (t.info_context ≡ a.info_block))
          ⊎ (nt_success status ≡ false))

  abbrev pub HookDone : (hook_handle : ℕ) → ℕ → Contexts E C R → Type 0
  HookDone hook_handle status t =
      Holds s t
      × (((nt_success status ≡ true)
            × (t.info_context ≡ a.info_block)
            × (t.hook_context ≡ a.hook_block)
            × IsAttached t.hook a.hook_block (registered_as a.hook_args hook_handle) [])
          ⊎ (nt_success status ≡ false))

module _ {E C R : Type 0} (info_nmr : Nmr InfoSys) (hook_nmr : Nmr (Sys E C R))
    (q : BothQuiet info_nmr hook_nmr) (a : ProviderArgs E C R) (s : Contexts E C R) where
  pub register_info-InfoDone :
      IsReady a s → Returns (InfoDone a s) (register_info info_nmr hook_nmr a s)
  unfolding register_info
  register_info-InfoDone r =
      Returns-bind
        (Focused put_info s (
          InfoRegistered info_nmr q.info_status q.info_handle q.info_left q.info_quiet a.info_block
            a.program_data a.program_type s.info))
        (InfoDone a s)
        (on_info (info_provider_register info_nmr a.info_block a.program_data a.program_type)) _ s
        (Returns-focus (λ u. u.info) put_info
          (InfoRegistered info_nmr q.info_status q.info_handle q.info_left q.info_quiet a.info_block
            a.program_data a.program_type s.info)
          (info_provider_register info_nmr a.info_block a.program_data a.program_type) s
          (info_provider_register-Registered info_nmr q.info_status q.info_handle q.info_left
            q.info_quiet a.info_block a.program_data a.program_type s.info r.info_new))
        (λ (status, out) t (info', x, et). elim x [
          | inl (ok, ne, e, e') ↦
              rw (e, et, e')
                (
                  record {
                    info_slot = inr (ne, r.info_new, _, refl);
                    hook_slot = inl (r.no_hook, refl);
                    info_clients = refl;
                    hook_clients = refl;
                  },
                  r.no_hook,
                  refl,
                  inl (ok, refl),
                )
          | inr (bad, e, e') ↦
              rw (e, et, e')
                (
                  record {
                    info_slot = inl (r.no_info, refl);
                    hook_slot = inl (r.no_hook, refl);
                    info_clients = refl;
                    hook_clients = refl;
                  },
                  r.no_hook,
                  refl,
                  inr bad,
                )
        ])

  pub register_hook-HookDone :
      (t : Contexts E C R)
      → IsReady a s
      → Holds s t
      → t.info_context ≡ a.info_block
      → t.hook_context ≡ 0
      → t.hook ≡ s.hook
      → Returns (HookDone a s q.hook_handle) (register_hook info_nmr hook_nmr a t)
  unfolding register_hook
  register_hook-HookDone t r k here empty same =
      Returns-bind
        (Focused put_hook t (
          Registered hook_nmr q.hook_status q.hook_handle q.hook_left q.hook_quiet a.hook_block
            a.hook_args t.hook))
        (HookDone a s q.hook_handle) (on_hook (provider_register hook_nmr a.hook_block a.hook_args))
        _ t
        (Returns-focus (λ u. u.hook) put_hook
          (Registered hook_nmr q.hook_status q.hook_handle q.hook_left q.hook_quiet a.hook_block
            a.hook_args t.hook)
          (provider_register hook_nmr a.hook_block a.hook_args) t
          (provider_register-Registered hook_nmr q.hook_status q.hook_handle q.hook_left
            q.hook_quiet a.hook_block a.hook_args t.hook (rw same r.hook_new)))
        (λ (status, out) u (hook', x, e). elim x [
          | inl (ok, ne, eo, up, table, clients) ↦
              rw (eo, e)
                (
                  record {
                    info_slot = k.info_slot;
                    hook_slot = inr (
                      ne,
                      r.hook_new,
                      registered_as a.hook_args q.hook_handle,
                      rw (table, same) refl,
                    );
                    info_clients = k.info_clients;
                    hook_clients = clients ∙ k.hook_clients;
                  },
                  inl (ok, here, refl, up),
                )
          | inr (bad, why, eo, table, clients) ↦
              rw (eo, e)
                (
                  record {
                    info_slot = k.info_slot;
                    hook_slot = inl (empty, rw (table, same) refl);
                    info_clients = k.info_clients;
                    hook_clients = clients ∙ k.hook_clients;
                  },
                  inr bad,
                )
        ])
