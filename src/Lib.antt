-- ===== src/Lib.antt =====
-- Verification of the eBPF extensions ntosebpfext and neteventebpfext for Windows.
--
-- An extension is a driver that offers hooks to eBPF programs. Its hook provider (libs/ebpf_ext) is an NPI
-- provider: the Network Module Registrar (NMR) attaches and detaches clients, one per program, and the
-- provider keeps them in a ring. The extension's own code (ebpf_extensions) hangs on two callbacks of the
-- provider and registers with the operating system while there is a client.
--
-- Which file models what:
-- - Base: lists, options, Boolean tests of numbers.
-- - Kernel: status codes, `Cmd` (a computation on a state that may fault), the pool as blocks of bytes.
--   Kernel/Pool/Owns says which blocks a piece of code owns.
-- - HookProvider: libs/ebpf_ext/ebpf_ext_hook_provider.c. Links is `LIST_ENTRY` with
--   `InsertTailList` and `RemoveEntryList`; State the structures; Attach
--   `_ebpf_extension_hook_provider_attach_client`; Detach the detach callback, its completion and the
--   cleanup of the binding context; Query the accessors, the walk and the check of an attach parameter;
--   Register the registration with NMR. Inv is the invariant of a registered provider, Lifecycle the
--   sequences of attaches and detaches, Calls the loop in which the extensions call their clients.
-- - ProgramInfo: libs/ebpf_ext/ebpf_ext_prog_info_provider.c.
-- - Providers: the two providers of an extension, as `ebpf_ext_register_ntos` and
--   `ebpf_ext_register_netevent` register them.
-- - Driver: libs/ebpf_ext/ebpf_ext.c. Driver/Entry is libs/ebpf_ext/ebpf_ext_drv.c.
-- - Ntos: ebpf_extensions/ntosebpfext/ntos_ebpf_ext_process.c and include/ebpf_ntos_hooks.h. Registration
--   is the two callbacks, Providers `ebpf_ext_register_ntos` and its counterpart, Strings the copies of a UNICODE_STRING, Context
--   `_ebpf_process_context_create` and `_ebpf_process_context_destroy`, Account
--   `_ebpf_process_resolve_account` and the helpers, Notify
--   `_ebpf_process_create_process_notify_routine_ex`, which calls the hook in between.
-- - Netevent: ebpf_extensions/neteventebpfext/netevent_ebpf_ext_event.c and
--   include/ebpf_netevent_hooks.h. Registration is the two callbacks, Context
--   `_ebpf_netevent_program_context_create` and `_ebpf_netevent_program_context_destroy`, Push the part of
--   `_ebpf_netevent_push_event` before the call of the hook, Notify the whole of it, Buffers the buffers of the CPUs from their
--   allocation to their release, Providers `ebpf_ext_register_netevent` and its counterpart.
-- - Examples: concrete systems on which the theorems are applied.
--
-- How code and model correspond. Addresses are numbers, 0 is NULL, and a table maps an address to the
-- structure that lives there; an access to any other address faults. The addresses that an allocation
-- returns are arguments of the model, or come from an allocator that is a parameter, so every outcome of an
-- allocation is covered. Counters have 64 bits and wrap. The calls of NMR, of the rundown header
-- ebpf_ext_rundown.h, of `PsSetCreateProcessNotifyRoutineEx` and of the programs, the SID functions and the calls of WDF, are parameters. The macros
-- EBPF_EXT_BAIL_ON_ALLOC_FAILURE are not among the files read; the status taken is the one that the comments of the
-- functions name. Spin locks and push locks make each modelled function one step. The interrupt
-- request level is modelled in the push of an event only, with the three functions on it as parameters.
-- The loops over the ring, in the calls of the clients and in the check of an attach parameter, take one unit
-- of fuel for each entry and one for the end.
--
-- Not modelled: the count of references to a process token, the callbacks towards the NetEvent provider, which
-- pass pointers on to NMR, tracing, the tables of program information, tests, user-mode tools and the sample eBPF
-- programs.

pub mod Base
pub mod Kernel
pub mod HookProvider
pub mod ProgramInfo
pub mod Providers
pub mod Driver
pub mod Ntos
pub mod Netevent
pub mod Examples
