-- ===== src/Netevent/Providers/Exit.antt =====
-- How the registration of netevent_ebpf_ext_event.c ends: with what it holds, or with nothing.
use ntosebpfext.Base.{
  ℕ, ◌≡◌, ◌≢◌, refl, ◌⊎◌, inl, inr, true, false, Option, none, some, [], arith, ◌==◌, if◌then◌else◌,
}
use ntosebpfext.Kernel.Status.{nt_success}
use ntosebpfext.Kernel.Command.{
  Cmd, pure, ◌>>=◌, Returns, Focused, Returns-bind, Returns-mono, Returns-focus,
}
use ntosebpfext.Kernel.Pool.{Bytes, Pool, Allocator, free_unless_null}
use ntosebpfext.Kernel.Pool.Owns.{Owns}
use ntosebpfext.HookProvider.State.{Sys}
use ntosebpfext.HookProvider.Register.{Nmr}
use ntosebpfext.HookProvider.Register.Laws.{registered_as}
use ntosebpfext.HookProvider.Inv.{IsAttached}
use ntosebpfext.ProgramInfo.{InfoSys}
use ntosebpfext.Providers.{Contexts, ProviderArgs, unregister_contexts}
use ntosebpfext.Providers.Laws.{Holds, BothQuiet, Restored, unregister_contexts-Restored}
use ntosebpfext.Netevent.Push.{EventBuffers}
use ntosebpfext.Netevent.Buffers.{release_array, release_buffers}
use ntosebpfext.Netevent.Buffers.Holds.{HoldsBuffers}
use ntosebpfext.Netevent.Buffers.Undo.{IsReleased}
use ntosebpfext.Netevent.Registration.{Registration, NmrClient}
use ntosebpfext.Netevent.Providers.{
  EventState, EventIds, NewBlocks, put_contexts, on_contexts, create, netevent_args,
  unregister_netevent, register_exit,
}

pub release_nothing :
    (f : ℕ → Option Bytes) (b : EventBuffers) (h : Pool)
    → Owns f h []
    → b.event_buffers ≡ 0
    → b.event_buffer_sizes ≡ 0
    → Returns (IsReleased f) (release_buffers b h)
unfolding release_buffers release_array free_unless_null
release_nothing f b h o p q =
    let no_array : (b.event_buffers == 0) ≡ true = ground (arith, p) in
    let no_sizes : (b.event_buffer_sizes == 0) ≡ true = ground (arith, q) in
    rw (release_buffers, ◌>>=◌, no_sizes, no_array, if◌then◌else◌) (o, p, refl)

-- What a command that gives the new buffers leaves.
abbrev pub Made :
    {E C R A : Type 0}
    → (A × EventBuffers → Pool → Type 0)
    → EventState E C R
    → A
    → EventState E C R
    → Type 0
Made P s a t =
    (b : EventBuffers) × (h : Pool) × P (a, b) h × (t ≡ record s { buffers = b; pool = h })

pub Returns-create :
    {E C R A : Type 0} (P : A × EventBuffers → Pool → Type 0) (m : Cmd Pool (A × EventBuffers))
    (s : EventState E C R)
    → Returns P (m s.pool)
    → Returns (Made P s) (create m s)
Returns-create {E} {C} {R} {A} P m s r = step (m s.pool) r
  where
    step :
        (o : Option ((A × EventBuffers) × Pool))
        → Returns P o
        → Returns (Made P s) (elim o [
          | none ↦ none
          | some ((a, b), h) ↦ some (a, record s { buffers = b; pool = h })
        ])
    step none r' = r'
    step (some ((a, b), h)) r' = (b, h, r', refl)

module _ {O C R : Type 0} (nmr_client : NmrClient O) (al : Allocator) (info_nmr : Nmr InfoSys)
    (hook_nmr : Nmr (Sys (Registration O) C R)) (q : BothQuiet info_nmr hook_nmr) (ids : EventIds)
    (new : NewBlocks) (cpu_count : ℕ) (s : EventState (Registration O) C R) where
  abbrev pub args : ProviderArgs (Registration O) C R
  args = netevent_args nmr_client al info_nmr hook_nmr ids new

  -- Nothing is held, and the memory is as before.
  abbrev pub NothingLeft : EventState (Registration O) C R → Type 0
  NothingLeft t = Restored s.contexts t.contexts × IsReleased s.pool.block t.buffers t.pool

  -- Both providers are held, the hook provider without clients.
  abbrev pub ProvidersUp : Contexts (Registration O) C R → Type 0
  ProvidersUp t =
      Holds s.contexts t
      × (t.info_context ≡ new.info_block)
      × (t.hook_context ≡ new.hook_block)
      × IsAttached t.hook new.hook_block (registered_as args.hook_args q.hook_handle) []

  -- The buffers of all CPUs are held; or none, where the status is not zero.
  abbrev pub BuffersUp : ℕ → EventState (Registration O) C R → Type 0
  BuffersUp status t =
      (HoldsBuffers s.pool.block t.buffers cpu_count t.pool × (t.buffers.cpu_count ≡ cpu_count))
      ⊎ ((status ≢ 0) × (t.buffers ≡ s.buffers) × (t.pool ≡ s.pool))

  abbrev pub Registered : ℕ → EventState (Registration O) C R → Type 0
  Registered status t =
      ((nt_success status ≡ true) × ProvidersUp t.contexts × BuffersUp status t)
      ⊎ ((nt_success status ≡ false) × NothingLeft t)

  -- The release as the unregistration runs it.
  abbrev unbuffer : EventState (Registration O) C R → Cmd Pool (Unit {0} × EventBuffers)
  unbuffer t = release_buffers t.buffers >>= λ b. pure (tt, b)

  abbrev Released : Unit {0} × EventBuffers → Pool → Type 0
  Released (_, b) h = IsReleased s.pool.block b h

  pub unregister-NothingLeft :
      (t : EventState (Registration O) C R)
      → Holds s.contexts t.contexts
      → Returns (IsReleased s.pool.block) (release_buffers t.buffers t.pool)
      → Returns (λ _ u. NothingLeft u) (unregister_netevent nmr_client al info_nmr hook_nmr t)
  unfolding unregister_netevent
  unregister-NothingLeft t k r =
      Returns-bind (Focused put_contexts t (λ _ c. Restored s.contexts c)) _
        (on_contexts (unregister_contexts info_nmr hook_nmr)) _ t
        (Returns-focus (λ u. u.contexts) put_contexts (λ _ c. Restored s.contexts c)
          (unregister_contexts info_nmr hook_nmr) t
          (unregister_contexts-Restored info_nmr hook_nmr q s.contexts t.contexts k))
        (λ _ u (c, restored, e). rw e (
          Returns-mono (Made Released (put_contexts c t)) (λ _ u'. NothingLeft u')
            (create (unbuffer t) (put_contexts c t))
            (Returns-create Released (unbuffer t) (put_contexts c t) (
              Returns-bind (IsReleased s.pool.block) Released (release_buffers t.buffers) _ t.pool r
                (λ b h x. x)))
            (λ _ u' (b, h, x, e'). rw e' (restored, x))))

  pub register_exit-NothingLeft :
      (status : ℕ) (t : EventState (Registration O) C R)
      → nt_success status ≡ false
      → Holds s.contexts t.contexts
      → Returns (IsReleased s.pool.block) (release_buffers t.buffers t.pool)
      → Returns Registered (register_exit nmr_client al info_nmr hook_nmr status t)
  unfolding register_exit
  register_exit-NothingLeft status t bad k r =
      rw (bad, if◌then◌else◌)
        (Returns-bind _ _ (unregister_netevent nmr_client al info_nmr hook_nmr) _ t
          (unregister-NothingLeft t k r) (λ _ u left. inr (bad, left)))

  pub register_exit_up :
      (status : ℕ) (t : EventState (Registration O) C R)
      → nt_success status ≡ true
      → ProvidersUp t.contexts
      → BuffersUp status t
      → Returns Registered (register_exit nmr_client al info_nmr hook_nmr status t)
  unfolding register_exit
  register_exit_up status t ok up bufs = rw (ok, if◌then◌else◌) (inl (ok, up, bufs))
