-- ===== src/HookProvider.antt =====
-- libs/ebpf_ext/ebpf_ext_hook_provider.c: the NPI provider that eBPF programs attach to.
-- `State` has the structures and the memory, `Attach`, `Detach`, `Query` and `Register` the functions.
pub mod Links
pub mod State
pub mod Attach
pub mod Detach
pub mod Query
pub mod Register
pub mod Inv
pub mod Lifecycle
pub mod Calls
