-- ===== src/Examples/EventLoad.antt =====
-- The netevent hook as the driver is loaded and unloaded on a system with two CPUs.
use ntosebpfext.Base.{ℕ, ◌+◌, ◌≡◌, refl, true, false, some, arith}
use ntosebpfext.Kernel.Status.{status_success, nt_success}
use ntosebpfext.Kernel.Command.{Returns, of_Returns}
use ntosebpfext.Kernel.Pool.{Pool, allocate}
use ntosebpfext.Netevent.Push.{EventBuffers}
use ntosebpfext.Netevent.Buffers.{allocate_arrays, allocate_buffers, create_buffers}
use ntosebpfext.Netevent.Buffers.Undo.{IsZeroed}
use ntosebpfext.Providers.Registered.{IsReady}
use ntosebpfext.Netevent.Registration.{Registration, NmrClient}
use ntosebpfext.Netevent.Providers.{
  EventState, EventIds, NewBlocks, netevent_args, register_netevent, unregister_netevent,
}
use ntosebpfext.Netevent.Providers.Exit.{Registered, NothingLeft}
use ntosebpfext.Netevent.Providers.Laws.{
  register_netevent-Registered, unregister_netevent-register_netevent,
}
use ntosebpfext.Examples.Registration.{nmr}
use ntosebpfext.Examples.EventContext.{allocator, empty}
use ntosebpfext.Examples.Load.{no_contexts, both_quiet}

abbrev nmr_client : NmrClient ℕ
nmr_client = record {
  register = λ n. (status_success, n + 1);
  deregister = λ n. (status_success, n + 1);
}

abbrev ids : EventIds
ids = record {
  program_data = 1;
  program_type = 2;
  provider_data = 3;
  attach_type = 4;
  client_data_version = 1;
}

abbrev new : NewBlocks
new = record { info_block = 100; hook_block = 200; entries = λ c. 77; sizes = λ c. 0 }

abbrev unloaded : EventState (Registration ℕ) ℕ ℕ
unloaded = record {
  contexts =
      no_contexts (record { registered = false; registration_count = 0; capture_type = 3; os = 0 });
  buffers = record {
    event_buffers = 0;
    event_buffer_sizes = 0;
    cpu_count = 0;
    buffer = λ c. 0;
    size = λ c. 0;
  };
  pool = empty;
}

unloaded-IsReady : IsReady (netevent_args nmr_client allocator nmr nmr ids new) unloaded.contexts
unloaded-IsReady = record { no_info = refl; no_hook = refl; info_new = refl; hook_new = refl }

-- In the empty pool there is memory for the buffers of two CPUs.
created_both :
    (status : ℕ) (b : EventBuffers) (h : Pool)
    → create_buffers allocator 2 (λ c. 77) (λ c. 0) empty ≡ some ((status, b), h)
    → IsZeroed (λ c. 77) status b
unfolding create_buffers allocate_arrays allocate_buffers allocate
created_both status b h run bad array =
    let ok : nt_success status ≡ true =
      of_Returns (λ (st, b') h'. nt_success st ≡ true)
        (create_buffers allocator 2 (λ c. 77) (λ c. 0) empty) (status, b) h refl run in
    absurd (ground (arith, bad, ok))

register_netevent-Registered_example :
    Returns
      (Registered nmr_client allocator nmr nmr both_quiet ids new 2 unloaded)
      (register_netevent nmr_client allocator nmr nmr ids new 2 unloaded)
register_netevent-Registered_example =
    register_netevent-Registered nmr_client allocator nmr nmr both_quiet ids new 2 unloaded
      unloaded-IsReady refl refl created_both

unregister_netevent-register_netevent_example :
    Returns
      (λ status t.
        Registered nmr_client allocator nmr nmr both_quiet ids new 2 unloaded status t
        × Returns
            (λ _ u. NothingLeft nmr_client allocator nmr nmr both_quiet ids new 2 unloaded u)
            (unregister_netevent nmr_client allocator nmr nmr t))
      (register_netevent nmr_client allocator nmr nmr ids new 2 unloaded)
unregister_netevent-register_netevent_example =
    unregister_netevent-register_netevent nmr_client allocator nmr nmr both_quiet ids new 2 unloaded
      unloaded-IsReady refl refl created_both
