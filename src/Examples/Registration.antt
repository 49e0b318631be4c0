-- ===== src/Examples/Registration.antt =====
-- An NMR that registers every provider at the handle 11 and deregisters at once, or later.
use ntosebpfext.Base.{ℕ, ◌≡◌, refl, true, false, none, some, [], if◌then◌else◌}
use ntosebpfext.Kernel.Status.{success, status_success, status_pending, nt_success}
use ntosebpfext.Kernel.Command.{Returns}
use ntosebpfext.HookProvider.State.{Sys}
use ntosebpfext.HookProvider.Register.{Nmr, Quiet, RegisterArgs, provider_register}
use ntosebpfext.HookProvider.Register.Laws.{Registered, provider_register-Registered}
use ntosebpfext.ProgramInfo.{InfoSys, InfoArgs}
use ntosebpfext.ProgramInfo.Laws.{
  bind_and_unbind, bind_and_unbind-restores, load_and_unload, load_and_unload-restores,
}

abbrev State : Type 0
State = Sys ℕ ℕ ℕ

module _ {S : Type 0} where
  abbrev pub nmr : Nmr S
  nmr = record {
    register_provider = λ p s. some ((status_success, 11), s);
    deregister_provider = λ h s. some (status_pending, s);
    wait_for_provider_deregister_complete = λ h s. some (tt, s);
  }

  pub nmr-Quiet : Quiet {S = S} nmr status_success 11 status_pending
  nmr-Quiet = record { registers = λ p s. refl; deregisters = λ h s. refl; waits = λ h s. refl }

abbrev parameters : RegisterArgs ℕ ℕ ℕ
parameters = record {
  provider_data = 1;
  provider_module_id = 2;
  attach_callback = λ c p e. (success, e);
  detach_callback = λ c e. e;
  custom_data = 0;
}

abbrev nothing : State
nothing = record {
  ext = 0;
  links = record { flink = λ a. 0; blink = λ a. 0 };
  client = λ a. none;
  provider = λ a. none;
  work_item = λ a. false;
  queued = [];
}

provider_register-Registered_example :
    Returns
      (Registered nmr status_success 11 status_pending nmr-Quiet 100 parameters nothing)
      (provider_register nmr 100 parameters nothing)
provider_register-Registered_example =
    provider_register-Registered nmr status_success 11 status_pending nmr-Quiet 100 parameters
      nothing refl

abbrev pub no_info : InfoSys
no_info = record { client = λ a. none; provider = λ a. none }

abbrev info_args : InfoArgs
info_args = record {
  nmr_binding_handle = 7;
  module_id = 8;
  has_binding_context_out = true;
  has_dispatch_out = true;
}

bind_and_unbind-restores_example :
    Returns
      (λ status s'. (s' ≡ no_info) × (nt_success status ≡ true))
      (bind_and_unbind 200 info_args no_info)
bind_and_unbind-restores_example = bind_and_unbind-restores 200 info_args no_info refl

load_and_unload-restores_example :
    Returns
      (λ (status', out) s'.
        (s' ≡ no_info)
        × (nt_success status' ≡ true)
        × (out ≡ (if nt_success status' then some 100 else none)))
      (load_and_unload nmr status_success 11 status_pending nmr-Quiet 100 1 2 no_info)
load_and_unload-restores_example =
    load_and_unload-restores nmr status_success 11 status_pending nmr-Quiet 100 1 2 no_info refl
