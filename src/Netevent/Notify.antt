-- ===== src/Netevent/Notify.antt =====
-- `_ebpf_netevent_push_event` of netevent_ebpf_ext_event.c as a whole: the interrupt request level is raised, the
-- event is copied into the buffer of the current CPU, the hook is called, and the level is lowered again. The
-- three functions of the kernel on the level are parameters.
pub mod Pushed
pub mod Levels
use ntosebpfext.Base.{
  ℕ, ◌-◌, ◌≡◌, ◌<◌, ◌≤◌, ◌||◌, Bool, false, Option, none, some, leb, ltb, if◌then◌else◌,
}
use ntosebpfext.Kernel.Command.{Cmd, pure, ◌>>=◌, ◌>>◌}
use ntosebpfext.Kernel.Pool.{Bytes, Pool, Allocator}
use ntosebpfext.HookProvider.State.{Rundown, Sys}
use ntosebpfext.HookProvider.Calls.{call_hook}
use ntosebpfext.Netevent.Context.{EventMd, pktmon_event_header_length}
use ntosebpfext.Netevent.Push.{EventBuffers, prepare_event}

-- `DISPATCH_LEVEL`
abbrev pub dispatch_level : ℕ
dispatch_level = 2

-- `KeGetCurrentIrql`, `KeRaiseIrqlToDpcLevel`, which returns the level of before, and `KeLowerIrql`, which may
-- fault.
pub record IrqlFunctions (I : Type 0) : Type 0 where
  pub current : I → ℕ
  pub raise : I → ℕ × I
  pub lower : ℕ → I → Option I

-- A raise goes from at most the dispatch level to it; a lowering to at most the current level leads there.
pub record IrqlLaws {I : Type 0} (irql : IrqlFunctions I) : Type 0 where
  pub raises :
      (i : I)
      → irql.current i ≤ dispatch_level
      → ((irql.raise i).0 ≡ irql.current i) × (irql.current (irql.raise i).1 ≡ dispatch_level)
  pub lowers :
      (n : ℕ) (i : I)
      → n ≤ irql.current i
      → (j : I) × (irql.lower n i ≡ some j) × (irql.current j ≡ n)

-- `netevent_event_t`, with the bytes between its two pointers.
pub record NeteventEvent : Type 0 where
  pub event_start : ℕ
  pub event_end : ℕ
  pub bytes : Bytes

pub record PushState (E R I : Type 0) : Type 0 where
  pub hook : Sys E (EventMd × Pool) R
  pub pool : Pool
  pub buffers : EventBuffers
  pub level : I

module _ {E R I : Type 0} (irql : IrqlFunctions I) where
  abbrev pub current_irql : Cmd (PushState E R I) ℕ
  current_irql s = some (irql.current s.level, s)

  abbrev pub raise_irql : Cmd (PushState E R I) ℕ
  raise_irql s = some ((irql.raise s.level).0, record s { level = (irql.raise s.level).1 })

  unfoldable pub lower_irql : ℕ → Cmd (PushState E R I) (Unit {0})
  lower_irql n s = elim (irql.lower n s.level) [
    | none ↦ none
    | some j ↦ some (tt, record s { level = j })
  ]

  -- The exit of the function.
  unfoldable pub push_exit : ℕ → Cmd (PushState E R I) (Unit {0})
  push_exit old = if ltb old dispatch_level then lower_irql old else pure tt

module _ {E R I : Type 0} (rd : Rundown R) where
  -- The call of the hook with the context of the event, if it was not lost. A failure does not end the calls.
  unfoldable pub notify_event :
      (fuel provider : ℕ) → Option EventMd → Cmd (PushState E R I) (Unit {0})
  notify_event fuel provider none s = some (tt, s)
  notify_event fuel provider (some md) s =
      elim (call_hook rd fuel false provider (md, s.pool) s.hook) [
        | none ↦ none
        | some (((md', pool'), verdict), hook') ↦ some (tt, record s { hook = hook'; pool = pool' })
      ]

  module _ (al : Allocator) (event_id : Bytes → ℕ) where
    -- From the choice of the CPU to the end of the calls.
    unfoldable pub deliver_event :
        (fuel provider cpu : ℕ) → NeteventEvent → Cmd (PushState E R I) (Unit {0})
    deliver_event fuel provider cpu e s =
        elim (prepare_event al event_id cpu e.event_start e.event_end e.bytes s.buffers s.pool) [
          | none ↦ none
          | some ((out, buffers'), pool') ↦
              notify_event fuel provider out (record s { buffers = buffers'; pool = pool' })
        ]

    -- `_ebpf_netevent_push_event`. `deliver_event` repeats the test of the event, which comes before the raise.
    unfoldable pub push_event :
        IrqlFunctions I
        → (fuel provider cpu : ℕ) → Option NeteventEvent
        → Cmd (PushState E R I) (Unit {0})
    push_event irql fuel provider cpu none = pure tt
    push_event irql fuel provider cpu (some e) = do
      old ← current_irql irql
      if leb e.event_end e.event_start
            || ltb (e.event_end - e.event_start) pktmon_event_header_length
          then push_exit irql old
          else (do
            before ← (if ltb old dispatch_level then raise_irql irql else pure old)
            deliver_event fuel provider cpu e
            push_exit irql before)
