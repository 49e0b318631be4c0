-- ===== src/Examples/PushEvent.antt =====
-- The push of an event of 60 bytes on the only CPU, with one client.
use ntosebpfext.Base.{ℕ, ◌+◌, refl, true, false, none, some, [], ◌∷◌, arith}
use ntosebpfext.Kernel.Status.{success, status_success}
use ntosebpfext.Kernel.Command.{Returns}
use ntosebpfext.Kernel.Pool.{Pool}
use ntosebpfext.HookProvider.Links.{initialize_list_head, insert_tail_list}
use ntosebpfext.HookProvider.Links.Ring.{initialize-IsRing, insert_tail-IsRing}
use ntosebpfext.HookProvider.State.{Invoke, HookClient, HookProvider, Sys, update}
use ntosebpfext.HookProvider.Inv.{IsAttached}
use ntosebpfext.Netevent.Context.{EventMd, header_type}
use ntosebpfext.Netevent.Notify.{IrqlFunctions, IrqlLaws, NeteventEvent, PushState, push_event}
use ntosebpfext.Netevent.Notify.Levels.{Pushed, push_event-Pushed}
use ntosebpfext.Examples.Provider.{rundown, no_links}
use ntosebpfext.Examples.EventContext.{zeros, length-zeros, allocator, empty}
use ntosebpfext.Examples.Buffers.{one_cpu, one_buffer, one_cpu-HoldsBuffers}

abbrev irql : IrqlFunctions ℕ
irql = record { current = λ i. i; raise = λ i. (i, 2); lower = λ n i. some n }

irql-IrqlLaws : IrqlLaws irql
irql-IrqlLaws = record { raises = λ i le. (refl, refl); lowers = λ n i le. (n, refl, refl) }

abbrev accept : Invoke (EventMd × Pool)
accept binding (md, h) result = (success, status_success, (md, h))

abbrev client : HookClient (EventMd × Pool) ℕ
client = record {
  nmr_binding_handle = 7;
  client_module_id = 8;
  client_binding_context = 9;
  client_data = none;
  invoke_program = some accept;
  provider_data = 0;
  provider_context = 100;
  detach_work_item = 300;
  rundown = 1;
}

abbrev provider : HookProvider ℕ (EventMd × Pool) ℕ
provider = record {
  npi_specific_characteristics = 1;
  module_id = 2;
  nmr_provider_handle = 3;
  attach_callback = λ c p n. (success, n + 1);
  detach_callback = λ c n. n;
  custom_data = 0;
}

abbrev hook : Sys ℕ (EventMd × Pool) ℕ
hook = record {
  ext = 1;
  links = insert_tail_list 100 200 (initialize_list_head 100 no_links);
  client = update (λ a. none) 200 (some client);
  provider = update (λ a. none) 100 (some provider);
  work_item = update (λ a. false) 300 true;
  queued = [];
}

hook-IsAttached : IsAttached hook 100 provider (200 ∷ [])
hook-IsAttached = record {
  ne_null = ground arith;
  holds = refl;
  ring = insert_tail-IsRing 200 (initialize-IsRing 100 no_links) refl;
  clients = ((ground arith, client, refl, refl, refl), tt);
}

abbrev state : PushState ℕ ℕ ℕ
state = record { hook = hook; pool = one_cpu; buffers = one_buffer; level = 0 }

abbrev event : NeteventEvent
event = record { event_start = 500; event_end = 560; bytes = zeros 60 }

push_event-Pushed_example :
    Returns
      (Pushed irql irql-IrqlLaws rundown allocator header_type empty.block 100 provider
        (200 ∷ [])
        2
        0
        state)
      (push_event rundown allocator header_type irql 2 100 0 (some event) state)
push_event-Pushed_example =
    push_event-Pushed irql irql-IrqlLaws rundown allocator header_type empty.block 100 provider
      (200 ∷ []) 2 0 state (some event) (length-zeros 60) hook-IsAttached
      ((client, accept, refl, refl, λ binding md h result. (refl, λ n k. (k, λ a ne. refl))), tt)
      (omega arith) one_cpu-HoldsBuffers
