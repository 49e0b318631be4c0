-- ===== src/Examples/Drain.antt =====
-- The provider of the process hook with one client is unregistered: NMR detaches the client, and while it waits the
-- work item of the client runs.
use ntosebpfext.Base.{ℕ, false, none, some}
use ntosebpfext.Kernel.Status.{status_success, status_pending}
use ntosebpfext.Kernel.Command.{Cmd, pure, ◌>>=◌}
use ntosebpfext.HookProvider.State.{update}
use ntosebpfext.HookProvider.Detach.{
  detach_client, detach_client_completion, cleanup_binding_context,
}
use ntosebpfext.HookProvider.Register.{Nmr}
use ntosebpfext.HookProvider.Inv.Detached.{detached}
use ntosebpfext.Examples.Provider.{State, rundown, client, provider, one_client}

-- `NmrProviderDetachClientComplete`
abbrev complete : ℕ → Cmd State (Unit {0})
complete h = cleanup_binding_context 200

abbrev draining : Nmr State
draining = record {
  register_provider = λ p s. some ((status_success, 3), s);
  deregister_provider = λ h. (do _ ← detach_client 200; pure status_pending);
  wait_for_provider_deregister_complete = λ h. detach_client_completion rundown complete 200;
}

-- The state after the detach callback, and the state after the work item.
abbrev middle : State
middle = detached one_client provider client 200

abbrev last : State
last = record middle {
  client = update middle.client 200 none;
  work_item = update middle.work_item 300 false;
}
