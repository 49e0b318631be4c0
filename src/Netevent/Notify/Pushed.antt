-- ===== src/Netevent/Notify/Pushed.antt =====
-- The delivery of an event: the ring and the buffers of the CPUs.
use ntosebpfext.Base.{
  ℕ, ◌-◌, ◌<◌, ◌≡◌, refl, sym, subst, ◌∙◌, ◌||◌, ◌⊎◌, inl, inr, true, false, Option, none, some,
  List, [], ◌∷◌, arith, leb, ltb, ◌==◌, if◌then◌else◌, length, All, Bool-cases,
}
use ntosebpfext.Kernel.Command.{Returns, Returns-mono, Returns-both}
use ntosebpfext.Kernel.Pool.{Bytes, Pool, Allocator}
use ntosebpfext.HookProvider.State.{Rundown, Invoke, HookClient, HookProvider, Sys}
use ntosebpfext.HookProvider.Inv.{IsAttached}
use ntosebpfext.HookProvider.Calls.{call_hook}
use ntosebpfext.HookProvider.Calls.Verdict.{verdict}
use ntosebpfext.HookProvider.Calls.Order.{Called, call_hook-Called}
use ntosebpfext.HookProvider.Calls.Kept.{HasKeeper, All-HasProgram, verdict-keeps}
use ntosebpfext.Netevent.Context.{EventMd, pktmon_event_header_length}
use ntosebpfext.Netevent.Push.{EventBuffers, prepare_event}
use ntosebpfext.Netevent.Push.Bounds.{HasSize, Only, prepare_event-Prepared}
use ntosebpfext.Netevent.Buffers.Holds.{HoldsBuffers}
use ntosebpfext.Netevent.Buffers.Grow.{Only-HoldsBuffers}
use ntosebpfext.Netevent.Buffers.Pushes.{prepare_event-HoldsBuffers}
use ntosebpfext.Netevent.Notify.{NeteventEvent, PushState, notify_event, deliver_event}

-- A live client whose program keeps the start of its context, and of the pool changes the bytes of the block that
-- it starts.
abbrev pub WritesEvent : {R : Type 0} → (ℕ → Option (HookClient (EventMd × Pool) R)) → ℕ → Type 0
WritesEvent {R} clients x =
    (client : HookClient (EventMd × Pool) R) × (g : Invoke (EventMd × Pool)) × (clients x
      ≡ some client)
    × (client.invoke_program ≡ some g)
    × ((binding : ℕ) (md : EventMd) (h : Pool) (result : ℕ)
        → let (code, status, after) = g binding (md, h) result in
          (after.0.data_meta ≡ md.data_meta)
          × ((n : ℕ) → HasSize md.data_meta n h → Only md.data_meta n h after.1))

module _ (f : ℕ → Option Bytes) (b : EventBuffers) (n cpu : ℕ) (lt : cpu < n) where
  -- The context is in the buffer of the CPU, and each CPU has its own.
  abbrev InBuffer : EventMd × Pool → Type 0
  InBuffer (md, h) = (md.data_meta ≡ b.buffer cpu) × HoldsBuffers f b n h

  keepers :
      {R : Type 0} (clients : ℕ → Option (HookClient (EventMd × Pool) R)) (xs : List ℕ)
      → All (WritesEvent clients) xs
      → All (HasKeeper InBuffer clients) xs
  keepers clients [] k = tt
  keepers clients (x ∷ xs) ((client, g, live, program, writes), k) = (
    (
      client,
      g,
      live,
      program,
      λ binding (md, h) result (start, holds).
          let (same, only) = writes binding md h result in
          (
            same ∙ start,
            Only-HoldsBuffers f b n cpu h (g binding (md, h) result).2.1 lt holds (
                subst (λ p. Only p (b.size cpu) h (g binding (md, h) result).2.1) start
                  (only (b.size cpu)
                    (subst (λ p. HasSize p (b.size cpu) h) (sym start) (holds.sized cpu lt)))),
          ),
    ),
    keepers clients xs k,
  )

-- An event that is prepared stands in the buffer of its CPU.
abbrev Ready : (ℕ → Option Bytes) → EventBuffers → ℕ → Option EventMd × EventBuffers → Pool → Type 0
Ready f b cpu (out, b') h' =
    HoldsBuffers f b' b.cpu_count h'
    × (b'.cpu_count ≡ b.cpu_count)
    × ((out ≡ none)
        ⊎ ((md : EventMd) × (out ≡ some md) × (md.data_meta ≡ b'.buffer cpu) × (cpu < b.cpu_count)))

prepare_event-Ready :
    (al : Allocator) (f : ℕ → Option Bytes) (event_id : Bytes → ℕ) (cpu event_start event_end : ℕ)
    (bytes : Bytes) (b : EventBuffers) (h : Pool)
    → length bytes ≡ event_end - event_start
    → HoldsBuffers f b b.cpu_count h
    → Returns (Ready f b cpu) (prepare_event al event_id cpu event_start event_end bytes b h)
unfolding prepare_event
prepare_event-Ready al f event_id cpu event_start event_end bytes b h whole k =
    elim (Bool-cases (leb b.cpu_count cpu)) [
      | inl t ↦
          let lost : (leb event_end event_start
                || ltb (event_end - event_start) pktmon_event_header_length
                || (b.event_buffers == 0 || b.event_buffer_sizes == 0)
                || leb b.cpu_count cpu)
              ≡ true =
            ground (arith, t) in
          rw (lost, if◌then◌else◌) (k, refl, inl refl)
      | inr t ↦
          let lt : cpu < b.cpu_count = ground (arith, t) in
          Returns-mono _ _ (prepare_event al event_id cpu event_start event_end bytes b h)
            (Returns-both _ _ (prepare_event al event_id cpu event_start event_end bytes b h)
              (prepare_event-HoldsBuffers al f event_id cpu event_start event_end bytes b h whole k)
              (prepare_event-Prepared al event_id cpu event_start event_end bytes b h
                (k.sized cpu lt) (k.new cpu lt).ne_null whole))
            (λ (out, b') h' ((holds, count), (_, place)). (
              holds,
              count,
              elim place [ inl e ↦ inl e | inr (md, e, start, _, _, _) ↦ inr (md, e, start, lt) ],
            ))
    ]

module _ {E R I : Type 0} (rd : Rundown R) (f : ℕ → Option Bytes) (provider : ℕ)
    (hp : HookProvider E (EventMd × Pool) R) (xs : List ℕ) (fuel n : ℕ) where
  -- The ring is as before, the buffers are owned, and the level is `i`.
  abbrev pub Held : I → PushState E R I → Type 0
  Held i t =
      IsAttached t.hook provider hp xs
      × HoldsBuffers f t.buffers n t.pool
      × (t.buffers.cpu_count ≡ n)
      × (t.level ≡ i)

  notify_event-Held :
      (cpu : ℕ) (md : EventMd) (s : PushState E R I)
      → cpu < n
      → IsAttached s.hook provider hp xs
      → All (WritesEvent s.hook.client) xs
      → length xs < fuel
      → s.buffers.cpu_count ≡ n
      → md.data_meta ≡ s.buffers.buffer cpu
      → HoldsBuffers f s.buffers n s.pool
      → Returns (λ _ t. Held s.level t) (notify_event rd fuel provider (some md) s)
  unfolding notify_event
  notify_event-Held cpu md s lt inv writes enough count start holds =
      step (call_hook rd fuel false provider (md, s.pool) s.hook) (
        call_hook-Called rd false provider hp xs fuel (md, s.pool) s.hook inv
          (All-HasProgram (InBuffer f s.buffers n cpu lt) s.hook.client xs all) enough)
    where
      all : All (HasKeeper (InBuffer f s.buffers n cpu lt) s.hook.client) xs
      all = keepers f s.buffers n cpu lt s.hook.client xs writes

      step :
          (o : Option (((EventMd × Pool) × Option ℕ) × Sys E (EventMd × Pool) R))
          → Returns
              (Called rd s.hook provider hp xs (verdict rd false s.hook.client xs (md, s.pool)))
              o
          → Returns
              (λ _ t. Held s.level t)
              (elim o [
                | none ↦ none
                | some (((md', pool'), v), hook') ↦
                    some (tt, record s { hook = hook'; pool = pool' })
              ])
      step none r = r
      step (some (((md', pool'), v), hook')) (e, inv', _, _, _) =
          let kept : InBuffer f s.buffers n cpu lt (md', pool') =
            subst (λ (r : (EventMd × Pool) × Option ℕ). InBuffer f s.buffers n cpu lt r.0) (sym e)
              (verdict-keeps (InBuffer f s.buffers n cpu lt) rd false s.hook.client xs (md, s.pool)
                all (start, holds)) in
          (inv', kept.1, count, refl)

  module _ (al : Allocator) (event_id : Bytes → ℕ) where
    pub deliver_event-Held :
        (cpu : ℕ) (e : NeteventEvent) (s : PushState E R I)
        → length e.bytes ≡ e.event_end - e.event_start
        → IsAttached s.hook provider hp xs
        → All (WritesEvent s.hook.client) xs
        → length xs < fuel
        → s.buffers.cpu_count ≡ n
        → HoldsBuffers f s.buffers n s.pool
        → Returns (λ _ t. Held s.level t) (deliver_event rd al event_id fuel provider cpu e s)
    unfolding deliver_event notify_event
    deliver_event-Held cpu e s whole inv writes enough count holds =
        step (prepare_event al event_id cpu e.event_start e.event_end e.bytes s.buffers s.pool) (
          prepare_event-Ready al f event_id cpu e.event_start e.event_end e.bytes s.buffers s.pool
            whole (subst (λ m. HoldsBuffers f s.buffers m s.pool) (sym count) holds))
      where
        step :
            (o : Option ((Option EventMd × EventBuffers) × Pool))
            → Returns (Ready f s.buffers cpu) o
            → Returns
                (λ _ t. Held s.level t)
                (elim o [
                  | none ↦ none
                  | some ((out, b'), h') ↦
                      notify_event rd fuel provider out (record s { buffers = b'; pool = h' })
                ])
        step none r = r
        step (some ((out, b'), h')) (holds', count', place) =
            let holds'' : HoldsBuffers f b' n h' =
              subst (λ m. HoldsBuffers f b' m h') count holds' in
            elim place [
              | inl lost ↦ rw lost (inv, holds'', count' ∙ count, refl)
              | inr (md, here, start, lt) ↦ rw here (
                  notify_event-Held cpu md (record s { buffers = b'; pool = h' })
                    (subst (λ m. cpu < m) count lt) inv writes enough (count' ∙ count) start
                    holds'')
            ]
