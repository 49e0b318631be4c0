-- ===== src/Netevent.antt =====
-- ebpf_extensions/neteventebpfext/netevent_ebpf_ext_event.c: the netevent hook.
pub mod Registration
pub mod Context
pub mod Push
pub mod Buffers
pub mod Notify
pub mod Providers
