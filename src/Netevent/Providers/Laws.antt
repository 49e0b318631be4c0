-- ===== src/Netevent/Providers/Laws.antt =====
-- The registration of netevent_ebpf_ext_event.c takes both providers and the buffers or nothing, and
-- unregistering gives back what it took.
use ntosebpfext.Base.{ℕ, ◌≡◌, some, refl, subst, inl, inr, arith, ◌==◌, if◌then◌else◌, Bool-cases}
use ntosebpfext.Kernel.Command.{
  ◌>>=◌, Returns, Focused, Returns-bind, Returns-mono, Returns-run, Returns-focus,
}
use ntosebpfext.Kernel.Pool.{Pool, Allocator}
use ntosebpfext.Kernel.Pool.Owns.{Owns-self}
use ntosebpfext.HookProvider.State.{Sys}
use ntosebpfext.HookProvider.Register.{Nmr}
use ntosebpfext.ProgramInfo.{InfoSys}
use ntosebpfext.Providers.{Contexts, register_info, register_hook}
use ntosebpfext.Providers.Laws.{Holds, BothQuiet, Restored-Holds}
use ntosebpfext.Providers.Registered.{
  IsReady, InfoDone, HookDone, register_info-InfoDone, register_hook-HookDone,
}
use ntosebpfext.Netevent.Buffers.{create_buffers, release_buffers}
use ntosebpfext.Netevent.Buffers.Holds.{HoldsBuffers}
use ntosebpfext.Netevent.Buffers.Arrays.{Created, create_buffers-Created}
use ntosebpfext.Netevent.Buffers.Release.{release_buffers-Released}
use ntosebpfext.Netevent.Buffers.Undo.{IsReleased, IsZeroed, release-Created}
use ntosebpfext.Netevent.Push.{EventBuffers}
use ntosebpfext.Netevent.Registration.{Registration, NmrClient}
use ntosebpfext.Netevent.Providers.{
  EventState, EventIds, NewBlocks, put_contexts, on_contexts, create, netevent_args,
  unregister_netevent, register_exit, register_netevent,
}
use ntosebpfext.Netevent.Providers.Exit.{
  Made, NothingLeft, ProvidersUp, Registered, release_nothing, Returns-create,
  unregister-NothingLeft, register_exit-NothingLeft, register_exit_up,
}

module _ {O C R : Type 0} (nmr_client : NmrClient O) (al : Allocator) (info_nmr : Nmr InfoSys)
    (hook_nmr : Nmr (Sys (Registration O) C R)) (q : BothQuiet info_nmr hook_nmr) (ids : EventIds)
    (new : NewBlocks) (cpu_count : ℕ) (s : EventState (Registration O) C R) where
  module _ (ready : IsReady (netevent_args nmr_client al info_nmr hook_nmr ids new) s.contexts)
      (no_buffers : s.buffers.event_buffers ≡ 0) (no_sizes : s.buffers.event_buffer_sizes ≡ 0)
      (zeroed : (status : ℕ) (b : EventBuffers) (h : Pool)
        → create_buffers al cpu_count new.entries new.sizes s.pool ≡ some ((status, b), h)
        → IsZeroed new.entries status b) where
    -- What the initialisation of the buffers leaves.
    abbrev CreatedHere : ℕ × EventBuffers → Pool → Type 0
    CreatedHere r h =
        Created al cpu_count new.entries new.sizes s.pool r h
        × (create_buffers al cpu_count new.entries new.sizes s.pool ≡ some (r, h))

    -- From the initialisation of the buffers on.
    created-Registered :
        (c : Contexts (Registration O) C R)
        → ProvidersUp nmr_client al info_nmr hook_nmr q ids new cpu_count s c
        → Returns (Registered nmr_client al info_nmr hook_nmr q ids new cpu_count s) (
            (create (create_buffers al cpu_count new.entries new.sizes)
                >>= register_exit nmr_client al info_nmr hook_nmr)
              (put_contexts c s))
    created-Registered c up =
        Returns-bind (Made CreatedHere (put_contexts c s))
          (Registered nmr_client al info_nmr hook_nmr q ids new cpu_count s)
          (create (create_buffers al cpu_count new.entries new.sizes)) _ (put_contexts c s)
          (Returns-create CreatedHere (create_buffers al cpu_count new.entries new.sizes)
            (put_contexts c s)
            (Returns-run (Created al cpu_count new.entries new.sizes s.pool)
              (create_buffers al cpu_count new.entries new.sizes s.pool)
              (create_buffers-Created al cpu_count new.entries new.sizes s.pool)))
          (λ status u (b, h, (x, run), e).
            let undo =
              release-Created al cpu_count new.entries new.sizes s.pool status b h
                (zeroed status b h run) x in
            let t : EventState (Registration O) C R = record s {
              contexts = c;
              buffers = b;
              pool = h;
            } in
            rw e (elim x.1 [
              | inl (j, hi, k, rest, end) ↦ elim end [
                | inl (ok, all) ↦
                    register_exit_up nmr_client al info_nmr hook_nmr q ids new cpu_count s status t
                      ok up (inl (subst (λ m. HoldsBuffers s.pool.block b m h) all k, x.0))
                | inr bad ↦
                    register_exit-NothingLeft nmr_client al info_nmr hook_nmr q ids new cpu_count s
                      status t bad up.0 undo
              ]
              | inr missing ↦
                  register_exit-NothingLeft nmr_client al info_nmr hook_nmr q ids new cpu_count s
                    status t missing.0 up.0 undo
            ]))

    -- From the registration of the hook provider on.
    hooked-Registered :
        (status : ℕ) (c : Contexts (Registration O) C R)
        → HookDone
            (netevent_args nmr_client al info_nmr hook_nmr ids new)
            s.contexts
            q.hook_handle
            status
            c
        → Returns (Registered nmr_client al info_nmr hook_nmr q ids new cpu_count s) (
            (if status == 0
                then create (create_buffers al cpu_count new.entries new.sizes)
                  >>= register_exit nmr_client al info_nmr hook_nmr
                else register_exit nmr_client al info_nmr hook_nmr status)
              (put_contexts c s))
    hooked-Registered status c (k, r) = elim (Bool-cases (status == 0)) [
      | inl z ↦ elim r [
        | inl (ok, info, hook, up) ↦
            rw (z, if◌then◌else◌) (created-Registered c (k, info, hook, up))
        | inr bad ↦ absurd (ground (arith, z, bad))
      ]
      | inr nz ↦ elim r [
        | inl (ok, info, hook, up) ↦
            rw (nz, if◌then◌else◌)
              (register_exit_up nmr_client al info_nmr hook_nmr q ids new cpu_count s status
                (put_contexts c s) ok (k, info, hook, up) (inr (ground (arith, nz), refl, refl)))
        | inr bad ↦
            rw (nz, if◌then◌else◌)
              (register_exit-NothingLeft nmr_client al info_nmr hook_nmr q ids new cpu_count s
                status (put_contexts c s) bad k
                (release_nothing s.pool.block s.buffers s.pool (Owns-self s.pool) no_buffers
                  no_sizes))
      ]
    ]

    -- If no client comes or goes meanwhile, for addresses that are not in use, without buffers before, and unless
    -- the initialisation of the buffers fails behind the allocation of the first array and that array, which is not
    -- initialised, does not hold zeros, the registration of the netevent hook does not fault. It succeeds with both
    -- providers, the hook provider without clients, and a buffer of its own for each CPU, or without buffers if
    -- its status is not zero; or it fails and holds neither providers nor buffers, with the memory as before.
    pub register_netevent-Registered :
        Returns
          (Registered nmr_client al info_nmr hook_nmr q ids new cpu_count s)
          (register_netevent nmr_client al info_nmr hook_nmr ids new cpu_count s)
    unfolding register_netevent
    register_netevent-Registered =
        Returns-bind
          (Focused put_contexts s
            (InfoDone (netevent_args nmr_client al info_nmr hook_nmr ids new) s.contexts))
          (Registered nmr_client al info_nmr hook_nmr q ids new cpu_count s)
          (on_contexts (
            register_info info_nmr hook_nmr
              (netevent_args nmr_client al info_nmr hook_nmr ids new)))
          _ s
          (Returns-focus (λ u. u.contexts) put_contexts
            (InfoDone (netevent_args nmr_client al info_nmr hook_nmr ids new) s.contexts)
            (register_info info_nmr hook_nmr
              (netevent_args nmr_client al info_nmr hook_nmr ids new))
            s
            (register_info-InfoDone info_nmr hook_nmr q
              (netevent_args nmr_client al info_nmr hook_nmr ids new) s.contexts ready))
          (λ status t (c, (k, empty, same, r), e). elim r [
            | inr bad ↦
                rw (e, bad, if◌then◌else◌)
                  (register_exit-NothingLeft nmr_client al info_nmr hook_nmr q ids new cpu_count s
                    status (put_contexts c s) bad k
                    (release_nothing s.pool.block s.buffers s.pool (Owns-self s.pool) no_buffers
                      no_sizes))
            | inl (ok, here) ↦
                rw (e, ok, if◌then◌else◌)
                  (Returns-bind
                    (Focused put_contexts (put_contexts c s) (
                      HookDone (netevent_args nmr_client al info_nmr hook_nmr ids new) s.contexts
                        q.hook_handle))
                    (Registered nmr_client al info_nmr hook_nmr q ids new cpu_count s)
                    (on_contexts (
                      register_hook info_nmr hook_nmr
                        (netevent_args nmr_client al info_nmr hook_nmr ids new)))
                    _ (put_contexts c s)
                    (Returns-focus (λ u. u.contexts) put_contexts
                      (HookDone (netevent_args nmr_client al info_nmr hook_nmr ids new) s.contexts
                        q.hook_handle)
                      (register_hook info_nmr hook_nmr
                        (netevent_args nmr_client al info_nmr hook_nmr ids new))
                      (put_contexts c s)
                      (register_hook-HookDone info_nmr hook_nmr q
                        (netevent_args nmr_client al info_nmr hook_nmr ids new) s.contexts c ready k
                        here empty same))
                    (λ status' u (c', done, e'). rw e' (hooked-Registered status' c' done)))
          ])

    undo_after :
        (status : ℕ) (t : EventState (Registration O) C R)
        → Registered nmr_client al info_nmr hook_nmr q ids new cpu_count s status t
        → Holds s.contexts t.contexts
          × Returns (IsReleased s.pool.block) (release_buffers t.buffers t.pool)
    undo_after status t r = elim r [
      | inl (_, up, buffers) ↦ (
        up.0,
        elim buffers [
          | inl (k, count) ↦
              release_buffers-Released s.pool.block t.buffers cpu_count t.pool k
                (λ c le lt. absurd (omega (arith, le, lt, count))) (omega (arith, count))
          | inr (_, same, same') ↦
              rw (same, same')
                (release_nothing s.pool.block s.buffers s.pool (Owns-self s.pool) no_buffers
                  no_sizes)
        ],
      )
      | inr (_, (restored, (o, e, e'))) ↦ (
        Restored-Holds s.contexts t.contexts restored,
        release_nothing s.pool.block t.buffers t.pool o e e',
      )
    ]

    -- If no client comes or goes meanwhile, for addresses that are not in use, without buffers before, and unless
    -- the initialisation of the buffers fails behind the allocation of the first array and that array does not hold
    -- zeros, the registration of the netevent hook does not fault and holds both providers, and the buffers if its
    -- status is zero, or nothing; and the unregistration behind it, whether the registration succeeded or not,
    -- does not fault either, and leaves neither providers nor buffers, and the memory as before the registration.
    pub unregister_netevent-register_netevent :
        Returns
          (λ status t.
            Registered nmr_client al info_nmr hook_nmr q ids new cpu_count s status t
            × Returns
                (λ _ u. NothingLeft nmr_client al info_nmr hook_nmr q ids new cpu_count s u)
                (unregister_netevent nmr_client al info_nmr hook_nmr t))
          (register_netevent nmr_client al info_nmr hook_nmr ids new cpu_count s)
    unregister_netevent-register_netevent =
        Returns-mono (Registered nmr_client al info_nmr hook_nmr q ids new cpu_count s) _
          (register_netevent nmr_client al info_nmr hook_nmr ids new cpu_count s)
          register_netevent-Registered
          (λ status t r.
            let (k, undo) = undo_after status t r in
            (
              r,
              unregister-NothingLeft nmr_client al info_nmr hook_nmr q ids new cpu_count s t k undo,
            ))
