-- ===== src/Kernel.antt =====
-- What the drivers take from Windows and from eBPF for Windows: NTSTATUS values, eBPF result
-- codes, and commands over a state that may fault. The numbers of the status codes are the
-- documented ones; a code is a `uint32_t`.
pub mod Status
pub mod Command
pub mod Pool
