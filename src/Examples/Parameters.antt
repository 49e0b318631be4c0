-- ===== src/Examples/Parameters.antt =====
-- The check of an attach parameter: one client that holds the parameter 5, a request for 7, the wild card 0.
use ntosebpfext.Base.{
  ℕ, ◌≡◌, ◌==◌, if◌then◌else◌, refl, true, false, none, some, List, [], ◌∷◌, arith,
}
use ntosebpfext.Kernel.Status.{success}
use ntosebpfext.Kernel.Command.{Returns}
use ntosebpfext.HookProvider.Links.{initialize_list_head, insert_tail_list, is_list_empty}
use ntosebpfext.HookProvider.Links.Ring.{initialize-IsRing, insert_tail-IsRing}
use ntosebpfext.HookProvider.State.{ExtensionData, HookClient, HookProvider, Sys, update}
use ntosebpfext.HookProvider.Query.{memcmp_eq, conflicts, check_loop, check_attach_parameter}
use ntosebpfext.HookProvider.Inv.{IsAttached}
use ntosebpfext.HookProvider.Inv.Parameters.{Answered, Admits, check_attach_parameter-Answered}
use ntosebpfext.HookProvider.Inv.Exclusive.{Exclusive, check_attach_parameter-Exclusive}
use ntosebpfext.Examples.Provider.{no_links}

abbrev attach_data : ExtensionData
attach_data = record { version = 1; data_size = 1; payload = some (5 ∷ []) }

abbrev client : HookClient ℕ ℕ
client = record {
  nmr_binding_handle = 7;
  client_module_id = 8;
  client_binding_context = 9;
  client_data = some attach_data;
  invoke_program = some (λ binding context result. (success, binding, context));
  provider_data = 0;
  provider_context = 100;
  detach_work_item = 300;
  rundown = 1;
}

abbrev provider : HookProvider ℕ ℕ ℕ
provider = record {
  npi_specific_characteristics = 1;
  module_id = 2;
  nmr_provider_handle = 3;
  attach_callback = λ c p e. (success, e);
  detach_callback = λ c e. e;
  custom_data = 0;
}

abbrev state : Sys ℕ ℕ ℕ
state = record {
  ext = 1;
  links = insert_tail_list 100 200 (initialize_list_head 100 no_links);
  client = update (λ a. none) 200 (some client);
  provider = update (λ a. none) 100 (some provider);
  work_item = update (λ a. false) 300 true;
  queued = [];
}

state-IsAttached : IsAttached state 100 provider (200 ∷ [])
state-IsAttached = record {
  ne_null = ground arith;
  holds = refl;
  ring = insert_tail-IsRing 200 (initialize-IsRing 100 no_links) refl;
  clients = ((ground arith, client, refl, refl, refl), tt);
}

abbrev parameters : ℕ → List ℕ
parameters x = 5 ∷ []

check_attach_parameter-Answered_example :
    Returns
      (Answered 1
        (7 ∷ [])
        (0 ∷ [])
        parameters
        state
        (Admits (7 ∷ []) (0 ∷ []) parameters (200 ∷ [])))
      (check_attach_parameter 2 1 (7 ∷ []) (0 ∷ []) 100 state)
check_attach_parameter-Answered_example =
    check_attach_parameter-Answered 1 (7 ∷ []) (0 ∷ []) parameters refl refl state 100 provider
      (200 ∷ []) 2 state-IsAttached ((client, attach_data, refl, refl, refl, refl), tt)
      (omega arith)

-- A second client, at 201, with the parameter 7.
abbrev two_parameters : ℕ → List ℕ
two_parameters x = if 200 == x then 5 ∷ [] else 7 ∷ []

granted : check_attach_parameter 2 1 (7 ∷ []) (0 ∷ []) 100 state ≡ some (success, state)
unfolding check_attach_parameter check_loop conflicts memcmp_eq is_list_empty insert_tail_list
    initialize_list_head
granted = refl

check_attach_parameter-Exclusive_example : Exclusive (0 ∷ []) two_parameters (200 ∷ 201 ∷ [])
check_attach_parameter-Exclusive_example =
    check_attach_parameter-Exclusive (0 ∷ []) two_parameters 1 201 refl refl state state 100
      provider (200 ∷ []) 2 state-IsAttached ((client, attach_data, refl, refl, refl, refl), tt)
      (omega arith) (tt, tt) granted
