-- ===== src/Examples/Provider.antt =====
-- The provider of the process hook at the address 100, without a client and with the client 200.
use ntosebpfext.Base.{
  ℕ, ◌+◌, ◌-◌, ◌≡◌, refl, ap, ◌∙◌, Bool, true, false, not, ◌==◌, if◌then◌else◌, none, some, [], ◌∷◌,
  arith,
}
use ntosebpfext.Kernel.Status.{success, status_success}
use ntosebpfext.Kernel.Command.{Returns}
use ntosebpfext.HookProvider.Links.{Links, initialize_list_head, insert_tail_list}
use ntosebpfext.HookProvider.Links.Ring.{initialize-IsRing, insert_tail-IsRing}
use ntosebpfext.HookProvider.State.{Rundown, HookClient, HookProvider, Sys, update, update-update}
use ntosebpfext.HookProvider.Attach.{
  AttachArgs, attach_client, attach_bound, attach_exit, attach_init_rundown, attach_callback_insert,
  call_attach_callback,
}
use ntosebpfext.HookProvider.Detach.{
  detach_client, detach_client_completion, cleanup_binding_context,
}
use ntosebpfext.HookProvider.Query.{get_attached_client, get_next_attached_client}
use ntosebpfext.HookProvider.Inv.{IsAttached}
use ntosebpfext.HookProvider.Inv.Attached.{IsFresh, Outcome, attach_client-Outcome}
use ntosebpfext.HookProvider.Inv.Detached.{
  Detached, detach_client-Detached, detach_client_null, completion_frees,
}
use ntosebpfext.HookProvider.Inv.Walk.{get_next-first, get_attached-first, get_next-next}
use ntosebpfext.HookProvider.Calls.{call_hook}
use ntosebpfext.HookProvider.Calls.Verdict.{verdict}
use ntosebpfext.HookProvider.Calls.Order.{Called, call_hook-Called}
use ntosebpfext.HookProvider.Lifecycle.{Reach, Step, IsTracked, Reach-IsTracked}
use ntosebpfext.Ntos.Registration.{
  Registration, PsSet, on_client_attach, attach_callback, detach_callback,
}
use ntosebpfext.Ntos.Registration.Laws.{IsNotifyList, Counts, counter, reachable_notify_routine}

-- A kernel whose list holds the routine or does not.
abbrev ps_set : PsSet ℕ
ps_set remove n = (status_success, if remove then 0 else 1)

abbrev is_set : ℕ → Bool
is_set n = not (n == 0)

ps_set-IsNotifyList : IsNotifyList ps_set is_set
ps_set-IsNotifyList = record {
  sets = λ o ok. refl;
  refuses = λ o bad. ground (arith, bad);
  removes = λ o e. refl;
}

abbrev pub rundown : Rundown ℕ
rundown = record {
  zeroed = 0;
  init = 1;
  enter = λ r. (true, r + 1);
  leave = λ r. r - 1;
  wait = λ r. 0;
}

abbrev Client : Type 0
Client = HookClient ℕ ℕ

abbrev pub provider : HookProvider (Registration ℕ) ℕ ℕ
provider = record {
  npi_specific_characteristics = 1;
  module_id = 2;
  nmr_provider_handle = 3;
  attach_callback = attach_callback ps_set;
  detach_callback = detach_callback ps_set;
  custom_data = 0;
}

abbrev pub State : Type 0
State = Sys (Registration ℕ) ℕ ℕ

abbrev pub no_links : Links
no_links = record { flink = λ a. 0; blink = λ a. 0 }

abbrev no_client : State
no_client = record {
  ext = record { registered = false; registration_count = 0; os = 0 };
  links = initialize_list_head 100 no_links;
  client = λ a. none;
  provider = update (λ a. none) 100 (some provider);
  work_item = λ a. false;
  queued = [];
}

abbrev args : AttachArgs ℕ
args = record {
  nmr_binding_handle = 7;
  provider_context = 100;
  module_id = 8;
  npi_specific_characteristics = none;
  client_binding_context = 9;
  client_dispatch = some (λ binding context result. (success, binding, context));
  has_binding_context_out = true;
  has_dispatch_out = true;
}

abbrev pub client : Client
client = record {
  nmr_binding_handle = 7;
  client_module_id = 8;
  client_binding_context = 9;
  client_data = none;
  invoke_program = some (λ binding context result. (success, binding, context));
  provider_data = 0;
  provider_context = 100;
  detach_work_item = 300;
  rundown = 1;
}

abbrev pub one_client : State
one_client = record {
  ext = record { registered = true; registration_count = 1; os = 1 };
  links = insert_tail_list 100 200 (initialize_list_head 100 no_links);
  client = update (λ a. none) 200 (some client);
  provider = update (λ a. none) 100 (some provider);
  work_item = update (λ a. false) 300 true;
  queued = [];
}

no_client-IsAttached : IsAttached no_client 100 provider []
no_client-IsAttached = record {
  ne_null = ground arith;
  holds = refl;
  ring = initialize-IsRing 100 no_links;
  clients = tt;
}

no_client-IsFresh : IsFresh no_client 100 200 300
no_client-IsFresh = record { block_new = refl; block_ne = ground arith; item_new = refl }

pub one_client-IsAttached : IsAttached one_client 100 provider (200 ∷ [])
one_client-IsAttached = record {
  ne_null = ground arith;
  holds = refl;
  ring = insert_tail-IsRing 200 (initialize-IsRing 100 no_links) refl;
  clients = ((ground arith, client, refl, refl, refl), tt);
}

no_client-IsTracked : IsTracked 100 provider (Counts is_set) no_client []
no_client-IsTracked = record {
  attached = no_client-IsAttached;
  counted = record { count = refl; registered = refl; routine = refl };
  small = omega arith;
}

attached_once :
    attach_client rundown 200 300 args no_client
    ≡ some ((status_success, some 200, some 0), one_client)
unfolding attach_client attach_bound attach_exit attach_init_rundown attach_callback_insert
    call_attach_callback on_client_attach
attached_once =
    ap (λ f. some ((status_success, some 200, some 0), record one_client { client = f }))
      (update-update _ 200 _ _ ∙ (update-update _ 200 _ _ ∙ update-update _ 200 _ _))

one_step : Reach rundown 100 no_client [] one_client (200 ∷ [])
one_step = Reach.next Reach.here (
    Step.attach 200 300 args (status_success, some 200, some 0) refl no_client-IsFresh (omega arith)
      attached_once refl)

attach_client-Outcome_example :
    Returns
      (Outcome rundown no_client 200 300 args provider [] no_client-IsAttached no_client-IsFresh)
      (attach_client rundown 200 300 args no_client)
attach_client-Outcome_example =
    attach_client-Outcome rundown no_client 200 300 args provider [] no_client-IsAttached
      no_client-IsFresh

detach_client-Detached_example :
    Returns (Detached one_client 100 provider (200 ∷ []) 200) (detach_client 200 one_client)
detach_client-Detached_example =
    detach_client-Detached one_client 100 provider (200 ∷ []) 200 one_client-IsAttached refl

detach_client_null_example : detach_client 0 one_client ≡ none
detach_client_null_example = detach_client_null one_client refl

completion_frees_example :
    detach_client_completion rundown (λ h s. cleanup_binding_context 200 s) 200 one_client
    ≡ some (
      tt,
      record one_client {
        client = update one_client.client 200 none;
        work_item = update one_client.work_item 300 false;
      },
    )
completion_frees_example =
    completion_frees rundown (λ h s. cleanup_binding_context 200 s) one_client client 200
      (λ s. refl) (ground arith) refl refl

get_next-first_example : get_next_attached_client 100 0 one_client ≡ some (200, one_client)
get_next-first_example = get_next-first one_client 100 provider (200 ∷ []) one_client-IsAttached

get_attached-first_example : get_attached_client 100 one_client ≡ some (200, one_client)
get_attached-first_example =
    get_attached-first one_client 100 provider (200 ∷ []) one_client-IsAttached

get_next-next_example : get_next_attached_client 100 200 one_client ≡ some (0, one_client)
get_next-next_example =
    get_next-next one_client 100 provider (200 ∷ []) 200 one_client-IsAttached refl

Reach-IsTracked_example : IsTracked 100 provider (Counts is_set) one_client (200 ∷ [])
Reach-IsTracked_example =
    Reach-IsTracked rundown 100 provider (Counts is_set)
      (counter is_set ps_set ps_set-IsNotifyList provider refl refl) no_client-IsTracked one_step

reachable_notify_routine_example :
    (one_client.ext.registration_count ≡ 1)
    × (one_client.ext.registered ≡ true)
    × (is_set one_client.ext.os ≡ true)
reachable_notify_routine_example =
    reachable_notify_routine is_set ps_set ps_set-IsNotifyList provider refl refl rundown 100
      no_client [] one_client (200 ∷ []) no_client-IsTracked one_step

call_hook-Called_example :
    Returns
      (Called rundown one_client 100 provider
        (200 ∷ [])
        (verdict rundown true one_client.client (200 ∷ []) 5))
      (call_hook rundown 2 true 100 5 one_client)
call_hook-Called_example =
    call_hook-Called rundown true 100 provider (200 ∷ []) 2 5 one_client one_client-IsAttached
      ((client, (λ binding context result. (success, binding, context)), refl, refl), tt)
      (omega arith)
