-- ===== src/Netevent/Notify/Levels.antt =====
-- The push of an event as a whole, with the interrupt request level.
use ntosebpfext.Base.{
  ℕ, ◌-◌, ◌<◌, ◌≤◌, ◌≡◌, refl, ap, ◌∙◌, ◌||◌, inl, inr, false, Option, none, some, List, arith, leb,
  ltb, if◌then◌else◌, length, All, Bool-cases,
}
use ntosebpfext.Kernel.Command.{◌>>=◌, ◌>>◌, Returns, Returns-bind, Returns-mono}
use ntosebpfext.Kernel.Pool.{Bytes, Pool, Allocator}
use ntosebpfext.HookProvider.State.{Rundown, HookProvider}
use ntosebpfext.HookProvider.Inv.{IsAttached}
use ntosebpfext.Netevent.Context.{EventMd, pktmon_event_header_length}
use ntosebpfext.Netevent.Buffers.Holds.{HoldsBuffers}
use ntosebpfext.Netevent.Notify.{
  dispatch_level, IrqlFunctions, IrqlLaws, NeteventEvent, PushState, raise_irql, lower_irql,
  push_exit, deliver_event, push_event,
}
use ntosebpfext.Netevent.Notify.Pushed.{WritesEvent, Held, deliver_event-Held}

-- What an event promises: its bytes stand between its two pointers.
abbrev pub IsWhole : Option NeteventEvent → Type 0
IsWhole event = elim event [
  | none ↦ Unit {0}
  | some e ↦ length e.bytes ≡ e.event_end - e.event_start
]

module _ {E R I : Type 0} (irql : IrqlFunctions I) (laws : IrqlLaws irql) where
  -- The exit leads back to the old level.
  abbrev Lowered : ℕ → PushState E R I → Unit {0} → PushState E R I → Type 0
  Lowered old u _ t = (t ≡ record u { level = t.level }) × (irql.current t.level ≡ old)

  push_exit-Lowered :
      (old : ℕ) (u : PushState E R I)
      → old ≤ irql.current u.level
      → (ltb old dispatch_level ≡ false → irql.current u.level ≡ old)
      → Returns (Lowered old u) (push_exit irql old u)
  unfolding push_exit lower_irql
  push_exit-Lowered old u le same = elim (Bool-cases (ltb old dispatch_level)) [
    | inl t ↦
        let (j, run, there) = laws.lowers old u.level le in
        rw (t, if◌then◌else◌, lower_irql, run) (refl, there)
    | inr t ↦ rw (t, if◌then◌else◌) (refl, same t)
  ]

  module _ (rd : Rundown R) (al : Allocator) (event_id : Bytes → ℕ) (f : ℕ → Option Bytes)
      (provider : ℕ) (hp : HookProvider E (EventMd × Pool) R) (xs : List ℕ) (fuel cpu : ℕ)
      (s : PushState E R I) where
    abbrev n : ℕ
    n = s.buffers.cpu_count

    -- The ring is as before, the CPUs have their buffers, and the level is that of before.
    abbrev pub Pushed : Unit {0} → PushState E R I → Type 0
    Pushed _ t =
        IsAttached t.hook provider hp xs
        × HoldsBuffers f t.buffers n t.pool
        × (t.buffers.cpu_count ≡ n)
        × (irql.current t.level ≡ irql.current s.level)

    abbrev old : ℕ
    old = irql.current s.level

    exits :
        (u : PushState E R I)
        → IsAttached u.hook provider hp xs
        → HoldsBuffers f u.buffers n u.pool
        → u.buffers.cpu_count ≡ n
        → old ≤ irql.current u.level
        → (ltb old dispatch_level ≡ false → irql.current u.level ≡ old)
        → Returns Pushed (push_exit irql old u)
    exits u inv holds count le same =
        Returns-mono (Lowered old u) Pushed (push_exit irql old u) (push_exit-Lowered old u le same)
          (λ _ t (e, there). rw e (inv, holds, count, there))

    delivers :
        (e : NeteventEvent) (i : I)
        → length e.bytes ≡ e.event_end - e.event_start
        → IsAttached s.hook provider hp xs
        → All (WritesEvent s.hook.client) xs
        → length xs < fuel
        → HoldsBuffers f s.buffers n s.pool
        → old ≤ irql.current i
        → (ltb old dispatch_level ≡ false → irql.current i ≡ old)
        → Returns Pushed (
            (do deliver_event rd al event_id fuel provider cpu e; push_exit irql old)
              (record s { level = i }))
    delivers e i whole inv writes enough holds le same =
        Returns-bind (λ _ t. Held rd f provider hp xs fuel n i t) Pushed
          (deliver_event rd al event_id fuel provider cpu e) _ (record s { level = i })
          (deliver_event-Held rd f provider hp xs fuel n al event_id cpu e (record s { level = i })
            whole inv writes enough refl holds)
          (λ _ t (inv', holds', count, e').
            exits t inv' holds' count (rw e' le) (λ h. ap irql.current e' ∙ same h))

    -- If the ring of the provider holds `xs`, each with a program that writes to the block of its event only, then
    -- with fuel beyond their number the push of an event, NULL included, does not fault. It keeps the ring and for
    -- each CPU a live buffer of its own, and it ends at the interrupt request level at which it began.
    pub push_event-Pushed :
        (event : Option NeteventEvent)
        → IsWhole event
        → IsAttached s.hook provider hp xs
        → All (WritesEvent s.hook.client) xs
        → length xs < fuel
        → HoldsBuffers f s.buffers s.buffers.cpu_count s.pool
        → Returns Pushed (push_event rd al event_id irql fuel provider cpu event s)
    unfolding push_event
    push_event-Pushed none whole inv writes enough holds = (inv, holds, refl, refl)
    push_event-Pushed (some e) whole inv writes enough holds =
        elim (Bool-cases (
          leb e.event_end e.event_start
          || ltb (e.event_end - e.event_start) pktmon_event_header_length)) [
            | inl t ↦
                rw (◌>>=◌, t, if◌then◌else◌) (exits s inv holds refl (omega arith) (λ _. refl))
            | inr t ↦ elim (Bool-cases (ltb old dispatch_level)) [
              | inl low ↦
                  let (back, raised) = laws.raises s.level (ground (arith, low)) in
                  rw (◌>>=◌, t, if◌then◌else◌, low)
                    (Returns-bind
                      (λ before u.
                        (before ≡ old) × (u ≡ record s { level = (irql.raise s.level).1 }))
                      Pushed (raise_irql irql)
                      (λ before. do
                        deliver_event rd al event_id fuel provider cpu e
                        push_exit irql before)
                      s (back, refl)
                      (λ before u (e', e'').
                        rw (e', e'')
                          (delivers e (irql.raise s.level).1 whole inv writes enough holds
                            (ground (arith, low, raised)) (λ h. absurd (ground (arith, low, h))))))
              | inr high ↦
                  rw (◌>>=◌, t, if◌then◌else◌, high)
                    (delivers e s.level whole inv writes enough holds (omega arith) (λ _. refl))
            ]
          ]
