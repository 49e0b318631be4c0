-- ===== src/Ntos/Registration/Laws.antt =====
-- The count of the process hook is the number of its clients, and the notify routine is set while
-- there is one.
use ntosebpfext.Base.{ℕ, ◌+◌, ◌^◌, ◌<◌, ◌≡◌, Bool, true, false, not, ◌==◌, arith, List, length}
use ntosebpfext.Kernel.Status.{is_success, nt_success}
use ntosebpfext.HookProvider.State.{HookProvider, Sys, Rundown}
use ntosebpfext.HookProvider.Lifecycle.{IsCounter, IsTracked, Reach, Reach-IsTracked}
use ntosebpfext.Ntos.Registration.{
  Registration, PsSet, on_client_attach, on_client_detach, attach_callback, detach_callback,
}

-- `PsSetCreateProcessNotifyRoutineEx` as it is documented: a success sets the routine, a failure to set it leaves
-- the list as it was, and a routine that is set can be removed. `is_set` reads the list.
pub record IsNotifyList {O : Type 0} (ps : PsSet O) (is_set : O → Bool) : Type 0 where
  pub sets : (o : O) → nt_success (ps false o).0 ≡ true → is_set (ps false o).1 ≡ true
  pub refuses : (o : O) → nt_success (ps false o).0 ≡ false → is_set (ps false o).1 ≡ is_set o
  pub removes : (o : O) → is_set o ≡ true → is_set (ps true o).1 ≡ false

module _ {O : Type 0} (is_set : O → Bool) where
  -- `r` counts `n` clients, and the routine is set, and known to be, exactly while `n` is not 0.
  pub record Counts (r : Registration O) (n : ℕ) : Type 0 where
    pub count : r.registration_count ≡ n
    pub registered : r.registered ≡ not (n == 0)
    pub routine : is_set r.os ≡ not (n == 0)

  module _ (ps : PsSet O) (laws : IsNotifyList ps is_set) where
    attach-agrees :
        (r : Registration O) (n : ℕ)
        → Counts r n
        → n + 1 < 2 ^ 64
        → is_success (on_client_attach ps r).0 ≡ true
        → Counts (on_client_attach ps r).1 (n + 1)
    unfolding on_client_attach
    attach-agrees r n k small ok = ground (arith, laws.sets r.os)

    attach-refuses :
        (r : Registration O) (n : ℕ)
        → Counts r n
        → is_success (on_client_attach ps r).0 ≡ false
        → Counts (on_client_attach ps r).1 n
    unfolding on_client_attach
    attach-refuses r n k bad = ground (arith, laws.refuses r.os)

    detach-Counts :
        (r : Registration O) (n : ℕ)
        → Counts r (n + 1)
        → n + 1 < 2 ^ 64
        → Counts (on_client_detach ps r) n
    unfolding on_client_detach
    detach-Counts r n k small = ground (arith, laws.removes r.os)

    module _ {C R : Type 0} (h : HookProvider (Registration O) C R)
        (attaches : h.attach_callback ≡ attach_callback ps)
        (detaches : h.detach_callback ≡ detach_callback ps) where
      pub counter : IsCounter h Counts
      counter = record {
        agrees = rw attaches (λ c provider. attach-agrees);
        refuses = rw attaches (λ c provider. attach-refuses);
        detaches = rw detaches (λ c. detach-Counts);
      }

      module _ (rd : Rundown R) (provider : ℕ) where
        -- If `is_set` reads from the kernel's list whether the notify routine is set, then after any sequence of
        -- attaches and detaches from a tracked state the count of the process hook is the number of the clients
        -- that NMR holds, and both the flag of the hook and the kernel's list say that the routine is set if and
        -- only if there is a client.
        pub reachable_notify_routine :
            (s : Sys (Registration O) C R) (xs : List ℕ) (s' : Sys (Registration O) C R)
            (ys : List ℕ)
            → IsTracked provider h Counts s xs
            → Reach rd provider s xs s' ys
            → (s'.ext.registration_count ≡ length ys)
              × (s'.ext.registered ≡ not (length ys == 0))
              × (is_set s'.ext.os ≡ not (length ys == 0))
        reachable_notify_routine s xs s' ys t r =
            let k = (Reach-IsTracked rd provider h Counts counter t r).counted in
            (k.count, k.registered, k.routine)
