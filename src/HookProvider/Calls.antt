-- ===== src/HookProvider/Calls.antt =====
-- The loop with which the extensions call their hook: `_ebpf_process_create_process_notify_routine_ex` of
-- ntos_ebpf_ext_process.c and `_ebpf_netevent_push_event` of netevent_ebpf_ext_event.c.
pub mod Verdict
pub mod Order
pub mod Kept
use ntosebpfext.Base.{
  ℕ, zero, suc, Bool, true, false, not, ◌&&◌, Option, none, some, ◌==◌, if◌then◌else◌,
}
use ntosebpfext.Kernel.Status.{nt_success}
use ntosebpfext.Kernel.Command.{Cmd, pure, fault, ◌>>=◌, ◌>>◌}
use ntosebpfext.HookProvider.State.{Rundown, Sys}
use ntosebpfext.HookProvider.Query.{
  client_enter_rundown, client_leave_rundown, invoke_program, get_next_attached_client,
}

module _ {E C R : Type 0} (rd : Rundown R) where
  -- The call of one client: the status that its program left, 0 if the client is going away, and the
  -- program's context. The code of the invocation is only logged.
  unfoldable pub call_client : ℕ → C → Cmd (Sys E C R) (ℕ × C)
  call_client client context = do
    entered ← client_enter_rundown rd client
    if entered
        then (do
          (result, status, context') ← invoke_program client context 0
          client_leave_rundown rd client
          pure (status, context'))
        else pure (0, context)

  -- The loop from `client` on, with fuel for the entries of the ring. `stops` says whether a failure of a
  -- client ends it, as on the creation of a process; then its status is the second result.
  unfoldable pub call_clients :
      (fuel : ℕ) (stops : Bool) (provider client : ℕ) → C → Cmd (Sys E C R) (C × Option ℕ)
  call_clients zero stops provider client context = fault
  call_clients (suc fuel) stops provider client context =
      if client == 0 then pure (context, none) else do
        (status, context') ← call_client client context
        if not (nt_success status) && stops then pure (context', some status) else do
          next ← get_next_attached_client provider client
          call_clients fuel stops provider next context'

  -- The call of the hook, from the first client on.
  unfoldable pub call_hook :
      (fuel : ℕ) (stops : Bool) (provider : ℕ) → C → Cmd (Sys E C R) (C × Option ℕ)
  call_hook fuel stops provider context = do
    first ← get_next_attached_client provider 0
    call_clients fuel stops provider first context
