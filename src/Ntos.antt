-- ===== src/Ntos.antt =====
-- ebpf_extensions/ntosebpfext/ntos_ebpf_ext_process.c: the process hook.
pub mod Registration
pub mod Providers
pub mod Types
pub mod Strings
pub mod Context
pub mod Account
pub mod Notify
