-- ===== src/Netevent/Registration/Laws.antt =====
-- The count of the netevent hook is the number of its clients; the extension is registered with NetEvent
-- while there is one, and its capture type stays in range.
use ntosebpfext.Base.{
  ℕ, ◌+◌, ◌^◌, ◌<◌, ◌≤◌, ◌≡◌, Bool, true, false, not, ◌==◌, arith, List, Option-cases, inl, inr,
  Bool-cases, ◌&&◌, leb, ◌⊎◌, length,
}
use ntosebpfext.Kernel.Status.{invalid_argument, operation_not_supported, is_success, nt_success}
use ntosebpfext.HookProvider.State.{HookClient, HookProvider, Sys, Rundown}
use ntosebpfext.HookProvider.Query.{client_get_client_data}
use ntosebpfext.HookProvider.Lifecycle.{IsCounter, IsTracked, Reach, Reach-IsTracked}
use ntosebpfext.Netevent.Registration.{
  Registration, NmrClient, register_and_count, on_client_attach, on_client_detach, attach_callback,
  detach_callback, valid_options, read_capture_type, capture_all, capture_none,
}

-- NMR as it is documented: a success registers the client module, a failure to register leaves it as it was, and
-- a module that is registered can be deregistered. `is_client` reads whether it is registered.
pub record IsRegistrar {O : Type 0} (nmr : NmrClient O) (is_client : O → Bool) : Type 0 where
  pub registers :
      (o : O) → nt_success (nmr.register o).0 ≡ true → is_client (nmr.register o).1 ≡ true
  pub refuses :
      (o : O) → nt_success (nmr.register o).0 ≡ false → is_client (nmr.register o).1 ≡ is_client o
  pub deregisters : (o : O) → is_client o ≡ true → is_client (nmr.deregister o).1 ≡ false

module _ {O : Type 0} (is_client : O → Bool) where
  pub record Counts (r : Registration O) (n : ℕ) : Type 0 where
    pub count : r.registration_count ≡ n
    pub registered : r.registered ≡ not (n == 0)
    pub client : is_client r.os ≡ not (n == 0)
    pub capture_low : 1 ≤ r.capture_type
    pub capture_high : r.capture_type ≤ 4

  module _ (nmr : NmrClient O) (laws : IsRegistrar nmr is_client) where
    register-agrees :
        (r : Registration O) (n : ℕ)
        → Counts r n
        → n + 1 < 2 ^ 64
        → is_success (register_and_count nmr r).0 ≡ true
        → Counts (register_and_count nmr r).1 (n + 1)
    unfolding register_and_count
    register-agrees r n k small ok = ground (arith, laws.registers r.os)

    register-refuses :
        (r : Registration O) (n : ℕ)
        → Counts r n
        → is_success (register_and_count nmr r).0 ≡ false
        → Counts (register_and_count nmr r).1 n
    unfolding register_and_count
    register-refuses r n k bad = ground (arith, laws.refuses r.os)

    detach-Counts :
        (r : Registration O) (n : ℕ)
        → Counts r (n + 1)
        → n + 1 < 2 ^ 64
        → Counts (on_client_detach nmr r) n
    unfolding on_client_detach
    detach-Counts r n k small = ground (arith, laws.deregisters r.os)

    module _ {C R : Type 0} (current_version : ℕ) (c : HookClient C R) (r : Registration O) where
      -- The three ways through the tests of the attach callback.
      pub attach_cases :
          (on_client_attach nmr current_version c r ≡ (invalid_argument, r))
          ⊎ (on_client_attach nmr current_version c r ≡ (operation_not_supported, r))
          ⊎ ((capture : ℕ) × (1 ≤ capture)
              × (capture ≤ 4)
              × (on_client_attach nmr current_version c r
                  ≡ register_and_count nmr (record r { capture_type = capture })))
      unfolding on_client_attach
      attach_cases =
          elim (Option-cases (valid_options current_version (client_get_client_data c))) [
            | inl e ↦ inl (rw (e, on_client_attach))
            | inr (o, e) ↦
                elim (Bool-cases (
                  leb capture_all (read_capture_type o)
                  && leb (read_capture_type o) capture_none)) [
                    | inl k ↦ inr (
                        inr (
                          read_capture_type o,
                          ground (arith, k),
                          ground (arith, k),
                          rw (e, on_client_attach, k),
                        ))
                    | inr k ↦ inr (inl (rw (e, on_client_attach, k)))
                  ]
          ]

      attach-agrees :
          (n : ℕ)
          → Counts r n
          → n + 1 < 2 ^ 64
          → is_success (on_client_attach nmr current_version c r).0 ≡ true
          → Counts (on_client_attach nmr current_version c r).1 (n + 1)
      attach-agrees n k small ok = elim attach_cases [
        | inl e ↦ ground (arith, e, ok)
        | inr (inl e) ↦ ground (arith, e, ok)
        | inr (inr (t, lo, hi, e)) ↦ rw e (
            register-agrees (record r { capture_type = t }) n
              (record {
                count = k.count;
                registered = k.registered;
                client = k.client;
                capture_low = lo;
                capture_high = hi;
              })
              small (rw e at ok))
      ]

      attach-refuses :
          (n : ℕ)
          → Counts r n
          → is_success (on_client_attach nmr current_version c r).0 ≡ false
          → Counts (on_client_attach nmr current_version c r).1 n
      attach-refuses n k bad = elim attach_cases [
        | inl e ↦ rw e k
        | inr (inl e) ↦ rw e k
        | inr (inr (t, lo, hi, e)) ↦ rw e (
            register-refuses (record r { capture_type = t }) n
              (record {
                count = k.count;
                registered = k.registered;
                client = k.client;
                capture_low = lo;
                capture_high = hi;
              })
              (rw e at bad))
      ]

    module _ {C R : Type 0} (current_version : ℕ) (h : HookProvider (Registration O) C R)
        (attaches : h.attach_callback ≡ attach_callback nmr current_version)
        (detaches : h.detach_callback ≡ detach_callback nmr) where
      pub counter : IsCounter h Counts
      counter = record {
        agrees = rw attaches (λ c provider. attach-agrees current_version c);
        refuses = rw attaches (λ c provider. attach-refuses current_version c);
        detaches = rw detaches (λ c. detach-Counts);
      }

      module _ (rd : Rundown R) (provider : ℕ) where
        -- If `is_client` reads from NMR whether the extension is registered as a client of NetEvent, then after
        -- any sequence of attaches and detaches from a tracked state the count of the netevent hook is the number
        -- of the clients that NMR holds, both the flag of the hook and NMR say that the extension is registered
        -- if and only if there is one, and the capture type is in range.
        pub reachable_netevent_client :
            (s : Sys (Registration O) C R) (xs : List ℕ) (s' : Sys (Registration O) C R)
            (ys : List ℕ)
            → IsTracked provider h Counts s xs
            → Reach rd provider s xs s' ys
            → (s'.ext.registration_count ≡ length ys)
              × (s'.ext.registered ≡ not (length ys == 0))
              × (is_client s'.ext.os ≡ not (length ys == 0))
              × (1 ≤ s'.ext.capture_type)
              × (s'.ext.capture_type ≤ 4)
        reachable_netevent_client s xs s' ys t r =
            let k = (Reach-IsTracked rd provider h Counts counter t r).counted in
            (k.count, k.registered, k.client, k.capture_low, k.capture_high)
