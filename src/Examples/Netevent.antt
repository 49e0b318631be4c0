-- ===== src/Examples/Netevent.antt =====
-- The provider of the netevent hook at the address 100, with one client that captures the dropped packets.
use ntosebpfext.Base.{
  ℕ, ◌+◌, ◌-◌, ◌≤◌, ◌≡◌, ap, ◌∙◌, refl, Bool, true, false, not, ◌==◌, none, some, [], ◌∷◌, arith,
}
use ntosebpfext.Kernel.Status.{success, status_success}
use ntosebpfext.HookProvider.Links.{Links, initialize_list_head, insert_tail_list}
use ntosebpfext.HookProvider.Links.Ring.{initialize-IsRing}
use ntosebpfext.HookProvider.State.{
  Rundown, ExtensionData, HookClient, HookProvider, Sys, update, update-update,
}
use ntosebpfext.HookProvider.Attach.{
  AttachArgs, attach_client, attach_bound, attach_exit, attach_init_rundown, attach_callback_insert,
  call_attach_callback,
}
use ntosebpfext.HookProvider.Query.{client_get_client_data}
use ntosebpfext.HookProvider.Lifecycle.{Reach, Step, IsTracked}
use ntosebpfext.Netevent.Registration.{
  Registration, NmrClient, on_client_attach, valid_options, read_capture_type, register_and_count,
  attach_callback, detach_callback,
}
use ntosebpfext.Netevent.Registration.Laws.{IsRegistrar, Counts, reachable_netevent_client}

abbrev nmr : NmrClient ℕ
nmr = record { register = λ n. (status_success, 1); deregister = λ n. (status_success, 0) }

abbrev is_client : ℕ → Bool
is_client n = not (n == 0)

nmr-IsRegistrar : IsRegistrar nmr is_client
nmr-IsRegistrar = record {
  registers = λ o ok. refl;
  refuses = λ o bad. ground (arith, bad);
  deregisters = λ o e. refl;
}

abbrev rundown : Rundown ℕ
rundown = record {
  zeroed = 0;
  init = 1;
  enter = λ r. (true, r + 1);
  leave = λ r. r - 1;
  wait = λ r. 0;
}

abbrev provider : HookProvider (Registration ℕ) ℕ ℕ
provider = record {
  npi_specific_characteristics = 1;
  module_id = 2;
  nmr_provider_handle = 3;
  attach_callback = attach_callback nmr 1;
  detach_callback = detach_callback nmr;
  custom_data = 0;
}

-- `NeteventCapture_Drop`
abbrev options : ExtensionData
options = record { version = 1; data_size = 4; payload = some (3 ∷ 0 ∷ 0 ∷ 0 ∷ []) }

abbrev no_links : Links
no_links = record { flink = λ a. 0; blink = λ a. 0 }

abbrev no_client : Sys (Registration ℕ) ℕ ℕ
no_client = record {
  ext = record { registered = false; registration_count = 0; capture_type = 3; os = 0 };
  links = initialize_list_head 100 no_links;
  client = λ a. none;
  provider = update (λ a. none) 100 (some provider);
  work_item = λ a. false;
  queued = [];
}

abbrev args : AttachArgs ℕ
args = record {
  nmr_binding_handle = 7;
  provider_context = 100;
  module_id = 8;
  npi_specific_characteristics = some options;
  client_binding_context = 9;
  client_dispatch = some (λ binding context result. (success, binding, context));
  has_binding_context_out = true;
  has_dispatch_out = true;
}

abbrev client : HookClient ℕ ℕ
client = record {
  nmr_binding_handle = 7;
  client_module_id = 8;
  client_binding_context = 9;
  client_data = some options;
  invoke_program = some (λ binding context result. (success, binding, context));
  provider_data = 0;
  provider_context = 100;
  detach_work_item = 300;
  rundown = 1;
}

abbrev one_client : Sys (Registration ℕ) ℕ ℕ
one_client = record {
  ext = record { registered = true; registration_count = 1; capture_type = 3; os = 1 };
  links = insert_tail_list 100 200 (initialize_list_head 100 no_links);
  client = update (λ a. none) 200 (some client);
  provider = update (λ a. none) 100 (some provider);
  work_item = update (λ a. false) 300 true;
  queued = [];
}

no_client-IsTracked : IsTracked 100 provider (Counts is_client) no_client []
no_client-IsTracked = record {
  attached = record {
    ne_null = ground arith;
    holds = refl;
    ring = initialize-IsRing 100 no_links;
    clients = tt;
  };
  counted = record {
    count = refl;
    registered = refl;
    client = refl;
    capture_low = omega arith;
    capture_high = omega arith;
  };
  small = omega arith;
}

attached_once :
    attach_client rundown 200 300 args no_client
    ≡ some ((status_success, some 200, some 0), one_client)
unfolding attach_client attach_bound attach_exit attach_init_rundown attach_callback_insert
    call_attach_callback on_client_attach valid_options client_get_client_data read_capture_type
    register_and_count
attached_once =
    ap (λ f. some ((status_success, some 200, some 0), record one_client { client = f }))
      (update-update _ 200 _ _ ∙ (update-update _ 200 _ _ ∙ update-update _ 200 _ _))

one_step : Reach rundown 100 no_client [] one_client (200 ∷ [])
one_step = Reach.next Reach.here (
    Step.attach 200 300 args (status_success, some 200, some 0) refl
      (record { block_new = refl; block_ne = ground arith; item_new = refl }) (omega arith)
      attached_once refl)

reachable_netevent_client_example :
    (one_client.ext.registration_count ≡ 1)
    × (one_client.ext.registered ≡ true)
    × (is_client one_client.ext.os ≡ true)
    × (1 ≤ one_client.ext.capture_type)
    × (one_client.ext.capture_type ≤ 4)
reachable_netevent_client_example =
    reachable_netevent_client is_client nmr nmr-IsRegistrar 1 provider refl refl rundown 100
      no_client [] one_client (200 ∷ []) no_client-IsTracked one_step
