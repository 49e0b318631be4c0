-- ===== src/Ntos/Providers/Laws.antt =====
-- The registration of the providers of the process hook holds both providers or none, and unregistering
-- gives back what it took.
use ntosebpfext.Base.{ℕ, ◌≡◌, ◌⊎◌, inl, inr, true, false, [], if◌then◌else◌}
use ntosebpfext.Kernel.Status.{nt_success}
use ntosebpfext.Kernel.Command.{◌>>=◌, Returns, Returns-bind}
use ntosebpfext.HookProvider.State.{Sys}
use ntosebpfext.HookProvider.Register.{Nmr}
use ntosebpfext.HookProvider.Register.Laws.{registered_as}
use ntosebpfext.HookProvider.Inv.{IsAttached}
use ntosebpfext.ProgramInfo.{InfoSys}
use ntosebpfext.Providers.{
  Contexts, ProviderArgs, unregister_contexts, register_info, register_hook,
}
use ntosebpfext.Providers.Laws.{
  Holds, BothQuiet, Restored, Restored-Holds, unregister_contexts-Restored,
}
use ntosebpfext.Providers.Registered.{
  IsReady, InfoDone, HookDone, register_info-InfoDone, register_hook-HookDone,
}
use ntosebpfext.Ntos.Registration.{Registration, PsSet}
use ntosebpfext.Ntos.Providers.{
  ProcessIds, process_args, unregister_ntos, register_exit, register_ntos,
}

module _ {O C R : Type 0} (ps_set : PsSet O) (info_nmr : Nmr InfoSys)
    (hook_nmr : Nmr (Sys (Registration O) C R)) (q : BothQuiet info_nmr hook_nmr) (ids : ProcessIds)
    (info_block hook_block : ℕ) (s : Contexts (Registration O) C R) where
  abbrev args : ProviderArgs (Registration O) C R
  args = process_args ps_set info_nmr hook_nmr ids info_block hook_block

  -- Both providers are held, the hook provider without clients; or nothing is.
  abbrev pub ProvidersUp : Contexts (Registration O) C R → Type 0
  ProvidersUp t =
      Holds s t
      × (t.info_context ≡ info_block)
      × (t.hook_context ≡ hook_block)
      × IsAttached t.hook hook_block (registered_as args.hook_args q.hook_handle) []

  abbrev pub Registered : ℕ → Contexts (Registration O) C R → Type 0
  Registered status t =
      ((nt_success status ≡ true) × ProvidersUp t) ⊎ ((nt_success status ≡ false) × Restored s t)

  register_exit-Restored :
      (status : ℕ) (t : Contexts (Registration O) C R)
      → nt_success status ≡ false
      → Holds s t
      → Returns Registered (register_exit ps_set info_nmr hook_nmr status t)
  unfolding register_exit unregister_ntos
  register_exit-Restored status t bad k =
      rw (bad, if◌then◌else◌)
        (Returns-bind _ _ (unregister_contexts info_nmr hook_nmr) _ t
          (unregister_contexts-Restored info_nmr hook_nmr q s t k) (λ _ u r. inr (bad, r)))

  register_exit_up :
      (status : ℕ) (t : Contexts (Registration O) C R)
      → nt_success status ≡ true
      → ProvidersUp t
      → Returns Registered (register_exit ps_set info_nmr hook_nmr status t)
  unfolding register_exit
  register_exit_up status t ok up = rw (ok, if◌then◌else◌) (inl (ok, up))

  -- If no client comes or goes meanwhile, and for addresses that are not in use, the registration of the
  -- process hook's providers does not fault. It succeeds and holds both providers, the hook provider without
  -- clients, or it fails and holds none, with the memory of the providers as before.
  pub register_ntos-Registered :
      IsReady args s
      → Returns Registered (register_ntos ps_set info_nmr hook_nmr ids info_block hook_block s)
  unfolding register_ntos
  register_ntos-Registered ready =
      Returns-bind (InfoDone args s) Registered (register_info info_nmr hook_nmr args) _ s
        (register_info-InfoDone info_nmr hook_nmr q args s ready)
        (λ status t (k, empty, same, r). elim r [
          | inr bad ↦ rw (bad, if◌then◌else◌) (register_exit-Restored status t bad k)
          | inl (ok, here) ↦
              rw (ok, if◌then◌else◌)
                (Returns-bind (HookDone args s q.hook_handle) Registered
                  (register_hook info_nmr hook_nmr args) _ t
                  (register_hook-HookDone info_nmr hook_nmr q args s t ready k here empty same)
                  (λ status' u (k', r'). elim r' [
                    | inl (ok', info, hook, up) ↦
                        register_exit_up status' u ok' (k', info, hook, up)
                    | inr bad' ↦ register_exit-Restored status' u bad' k'
                  ]))
        ])

  -- If no client comes or goes meanwhile, and for addresses that are not in use, the registration of the
  -- process hook's providers and the unregistration behind it do not fault, whether the registration succeeds
  -- or not. They leave no provider held, and the memory of the providers as before.
  pub unregister_ntos-register_ntos :
      IsReady args s
      → Returns
          (λ _ u. Restored s u)
          ((register_ntos ps_set info_nmr hook_nmr ids info_block hook_block >>= λ status.
              unregister_ntos ps_set info_nmr hook_nmr)
            s)
  unfolding unregister_ntos
  unregister_ntos-register_ntos ready =
      Returns-bind Registered _ (register_ntos ps_set info_nmr hook_nmr ids info_block hook_block) _
        s (register_ntos-Registered ready)
        (λ status t r.
          unregister_contexts-Restored info_nmr hook_nmr q s t
            (elim r [ inl up ↦ up.1.0 | inr down ↦ Restored-Holds s t down.1 ]))
