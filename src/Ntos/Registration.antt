-- ===== src/Ntos/Registration.antt =====
-- The attach and detach callbacks of the process hook: the notify routine is set for the first client
-- and removed with the last one. `O` is the state of the kernel's list of notify routines.
pub mod Laws
use ntosebpfext.Base.{ℕ, ◌+◌, ◌-◌, ◌%◌, ◌^◌, Bool, true, false, ◌&&◌, ◌==◌, if◌then◌else◌}
use ntosebpfext.Kernel.Status.{EbpfResult, success, operation_not_supported, nt_success}
use ntosebpfext.HookProvider.State.{HookClient}

-- `_ebpf_process_hook_provider_registered` and `_ebpf_process_hook_provider_registration_count`. The push
-- lock makes each callback one step.
pub record Registration (O : Type 0) : Type 0 where
  pub registered : Bool
  pub registration_count : ℕ
  pub os : O

-- `PsSetCreateProcessNotifyRoutineEx` of this driver's routine: whether to remove it, and the status.
abbrev pub PsSet : Type 0 → Type 0
PsSet O = Bool → O → ℕ × O

-- `uint64_t` increment and decrement.
abbrev pub increment : ℕ → ℕ
increment n = (n + 1) % 2 ^ 64

abbrev pub decrement : ℕ → ℕ
decrement n = (n + 2 ^ 64 - 1) % 2 ^ 64

module _ {O : Type 0} (ps_set_create_process_notify_routine : PsSet O) where
  -- The tail of the attach callback, with the routine set.
  abbrev count_client : Registration O → EbpfResult × Registration O
  count_client r = (success, record r { registration_count = increment r.registration_count })

  -- `_ntos_ebpf_extension_process_on_client_attach`
  unfoldable pub on_client_attach : Registration O → EbpfResult × Registration O
  on_client_attach r =
      if r.registered
      then count_client r
      else (let (status, os') = ps_set_create_process_notify_routine false r.os in
          if nt_success status
          then count_client (record r { registered = true; os = os' })
          else (operation_not_supported, record r { os = os' }))

  -- `_ntos_ebpf_extension_process_on_client_detach`. The status of the removal is only logged.
  unfoldable pub on_client_detach : Registration O → Registration O
  on_client_detach r =
      let left = decrement r.registration_count in
      if r.registered && left == 0
      then record r {
        registered = false;
        registration_count = left;
        os = (ps_set_create_process_notify_routine true r.os).1;
      }
      else record r { registration_count = left }

  -- The callbacks as the hook provider calls them; they read neither the client nor the provider.
  abbrev pub attach_callback :
      {C R : Type 0} → HookClient C R → ℕ → Registration O → EbpfResult × Registration O
  attach_callback c provider = on_client_attach

  abbrev pub detach_callback : {C R : Type 0} → HookClient C R → Registration O → Registration O
  detach_callback c = on_client_detach
