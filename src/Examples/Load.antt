-- ===== src/Examples/Load.antt =====
-- The process hook's providers as the driver is loaded and unloaded, over a registrar that agrees to
-- everything.
use ntosebpfext.Base.{ℕ, ◌+◌, refl, none, false, []}
use ntosebpfext.Kernel.Status.{status_success, status_pending}
use ntosebpfext.Kernel.Command.{Returns, ◌>>=◌}
use ntosebpfext.Providers.{Contexts}
use ntosebpfext.Providers.Laws.{BothQuiet, Restored}
use ntosebpfext.Providers.Registered.{IsReady}
use ntosebpfext.Ntos.Registration.{Registration, PsSet}
use ntosebpfext.Ntos.Providers.{ProcessIds, process_args, register_ntos, unregister_ntos}
use ntosebpfext.Ntos.Providers.Laws.{
  Registered, register_ntos-Registered, unregister_ntos-register_ntos,
}
use ntosebpfext.Examples.Registration.{nmr, nmr-Quiet, no_info}

module _ {E : Type 0} where
  abbrev pub no_contexts : E → Contexts E ℕ ℕ
  no_contexts e = record {
    info_context = 0;
    hook_context = 0;
    info = no_info;
    hook = record {
      ext = e;
      links = record { flink = λ a. 0; blink = λ a. 0 };
      client = λ a. none;
      provider = λ a. none;
      work_item = λ a. false;
      queued = [];
    };
  }

  pub both_quiet : BothQuiet {E = E} {C = ℕ} {R = ℕ} nmr nmr
  both_quiet = record {
    info_status = status_success;
    info_handle = 11;
    info_left = status_pending;
    hook_status = status_success;
    hook_handle = 11;
    hook_left = status_pending;
    info_quiet = nmr-Quiet;
    hook_quiet = nmr-Quiet;
  }

abbrev ps_set : PsSet ℕ
ps_set remove n = (status_success, n + 1)

abbrev ids : ProcessIds
ids = record { program_data = 1; program_type = 2; provider_data = 3; attach_type = 4 }

abbrev unloaded : Contexts (Registration ℕ) ℕ ℕ
unloaded = no_contexts (record { registered = false; registration_count = 0; os = 0 })

unloaded-IsReady : IsReady (process_args ps_set nmr nmr ids 100 200) unloaded
unloaded-IsReady = record { no_info = refl; no_hook = refl; info_new = refl; hook_new = refl }

register_ntos-Registered_example :
    Returns
      (Registered ps_set nmr nmr both_quiet ids 100 200 unloaded)
      (register_ntos ps_set nmr nmr ids 100 200 unloaded)
register_ntos-Registered_example =
    register_ntos-Registered ps_set nmr nmr both_quiet ids 100 200 unloaded unloaded-IsReady

unregister_ntos-register_ntos_example :
    Returns
      (λ _ u. Restored unloaded u)
      ((register_ntos ps_set nmr nmr ids 100 200 >>= λ status. unregister_ntos ps_set nmr nmr)
        unloaded)
unregister_ntos-register_ntos_example =
    unregister_ntos-register_ntos ps_set nmr nmr both_quiet ids 100 200 unloaded unloaded-IsReady
