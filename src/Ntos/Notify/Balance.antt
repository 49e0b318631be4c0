-- ===== src/Ntos/Notify/Balance.antt =====
-- The notify routine of the process hook as a whole.
use ntosebpfext.Base.{
  ℕ, ◌≡◌, ◌<◌, refl, sym, subst, ap, ◌∙◌, ◌⊎◌, inl, inr, true, false, Option, none, some, List, [],
  ◌∷◌, length, All,
}
use ntosebpfext.Kernel.Status.{nt_success}
use ntosebpfext.Kernel.Command.{
  Returns, Returns-bind, Returns-mono, Returns-run, Focused, Returns-focus,
}
use ntosebpfext.Kernel.Pool.{Bytes, Pool, Allocator}
use ntosebpfext.Kernel.Pool.Owns.{Owns, Owns-move}
use ntosebpfext.HookProvider.State.{Rundown, Invoke, HookClient, HookProvider, Sys}
use ntosebpfext.HookProvider.Inv.{IsAttached}
use ntosebpfext.HookProvider.Calls.{call_hook}
use ntosebpfext.HookProvider.Calls.Verdict.{verdict}
use ntosebpfext.HookProvider.Calls.Order.{Called, call_hook-Called}
use ntosebpfext.HookProvider.Calls.Kept.{
  HasKeeper, All-HasProgram, verdict-keeps, verdict-IsVerdict,
}
use ntosebpfext.Ntos.Types.{UnicodeString, NotifyContext}
use ntosebpfext.Ntos.Account.{SidFunctions}
use ntosebpfext.Ntos.Account.Buffers.{KeepsBuffers}
use ntosebpfext.Ntos.Notify.{
  CreateInfo, ProcessFunctions, initial_context, fill_context, release_account, NotifyState,
  is_some, notify_clients, put_pool, on_pool, create_process_notify_routine,
}
use ntosebpfext.Ntos.Notify.Filled.{AllocatesUser, Filled, Leaks, fill_context-Filled}
use ntosebpfext.Ntos.Notify.Helpers.{Helpers, IsLooked, Helpers-IsLooked, release_account-Owns}

-- A live client whose program does nothing to its context and to the pool but call helpers and write to its
-- metadata.
abbrev pub RunsHelpers :
    {R : Type 0}
    → SidFunctions
    → Allocator
    → (ℕ → Option (HookClient (NotifyContext × Pool) R))
    → ℕ
    → Type 0
RunsHelpers {R} sid al clients x =
    (client : HookClient (NotifyContext × Pool) R) × (f : Invoke (NotifyContext × Pool)) × (clients
        x
      ≡ some client)
    × (client.invoke_program ≡ some f)
    × ((binding : ℕ) (c : NotifyContext) (h : Pool) (result : ℕ)
        → let (code, status, after) = f binding (c, h) result in Helpers sid al c h after.0 after.1)

-- The context and the pool while the programs run.
abbrev Looked :
    (ℕ → Option Bytes) → (name_stack domain_stack : ℕ) → List ℕ → NotifyContext × Pool → Type 0
Looked f name_stack domain_stack ps (c, h) = IsLooked f name_stack domain_stack ps c h

keepers :
    {R : Type 0} (sid : SidFunctions) (keeps : KeepsBuffers sid) (al : Allocator)
    (f : ℕ → Option Bytes) (name_stack domain_stack : ℕ) (ps : List ℕ)
    (clients : ℕ → Option (HookClient (NotifyContext × Pool) R)) (xs : List ℕ)
    → All (RunsHelpers sid al clients) xs
    → All (HasKeeper (Looked f name_stack domain_stack ps) clients) xs
keepers sid keeps al f name_stack domain_stack ps clients [] k = tt
keepers sid keeps al f name_stack domain_stack ps clients (x ∷ xs)
      ((client, g, live, program, helpers), k) =
    (
      (
        client,
        g,
        live,
        program,
        λ binding (c, h) result q.
            Helpers-IsLooked f name_stack domain_stack ps sid keeps al q
              (helpers binding c h result),
      ),
      keepers sid keeps al f name_stack domain_stack ps clients xs k,
    )

module _ {E R : Type 0} (rd : Rundown R) (pf : ProcessFunctions) (user : AllocatesUser pf)
    (sid : SidFunctions) (keeps : KeepsBuffers sid) (al : Allocator) (f : ℕ → Option Bytes)
    (provider : ℕ) (hp : HookProvider E (NotifyContext × Pool) R) (xs : List ℕ) (fuel : ℕ)
    (process process_id create_info : ℕ) (info : Option CreateInfo) (name_stack domain_stack : ℕ)
    (s : NotifyState E R) where
  -- The status that the calls of the clients, from the context `c` and the pool `h` on, leave.
  abbrev pub answered : NotifyContext → Pool → ℕ
  answered c h = elim (verdict rd (is_some info) s.hook.client xs (c, h)).1 [
    | none ↦ s.creation_status
    | some status ↦ status
  ]

  abbrev initial : NotifyContext
  initial = initial_context pf process process_id create_info name_stack domain_stack

  -- The ring is as before, of the pool the two arrays and the block of a SID that is not valid are left, and the
  -- creation status is what the clients, one after the other, answer to the context that was filled.
  abbrev pub Notified : Unit {0} → NotifyState E R → Type 0
  Notified _ t =
      IsAttached t.hook provider hp xs
      × ((leaked : ℕ) × Owns f t.pool (name_stack ∷ domain_stack ∷ leaked ∷ [])
          × ((leaked ≡ 0) ⊎ (pf.valid_sid (pf.sid leaked) ≡ false)))
      × ((t.creation_status ≡ s.creation_status)
          ⊎ ((nt_success t.creation_status ≡ false) × (is_some info ≡ true)))
      × ((c : NotifyContext) × (h : Pool) × (fill_context pf info initial s.pool ≡ some (c, h))
          × (t.creation_status ≡ answered c h))

  -- What the three parts of the routine leave.
  abbrev FilledHere : NotifyContext → Pool → Type 0
  FilledHere c h =
      Filled pf user f (name_stack ∷ domain_stack ∷ []) process process_id create_info name_stack
        domain_stack info c
      × Leaks pf user f (name_stack ∷ domain_stack ∷ []) h

  abbrev FilledRun : NotifyContext → Pool → Type 0
  FilledRun c h = FilledHere c h × (fill_context pf info initial s.pool ≡ some (c, h))

  abbrev LookedHere : List ℕ → NotifyContext → Pool → NotifyContext → NotifyState E R → Type 0
  LookedHere ps c h c' u =
      IsLooked f name_stack domain_stack ps c' u.pool
      × IsAttached u.hook provider hp xs
      × ((u.creation_status ≡ s.creation_status)
          ⊎ ((nt_success u.creation_status ≡ false) × (is_some info ≡ true)))
      × (u.creation_status ≡ answered c h)

  abbrev LeftHere : ℕ → Unit {0} → Pool → Type 0
  LeftHere leaked _ h = Owns f h (name_stack ∷ domain_stack ∷ leaked ∷ [])

  notify_clients-Looked :
      (ps : List ℕ) (c : NotifyContext) (t : NotifyState E R)
      → t.hook ≡ s.hook
      → t.creation_status ≡ s.creation_status
      → IsAttached s.hook provider hp xs
      → All (RunsHelpers sid al s.hook.client) xs
      → length xs < fuel
      → IsLooked f name_stack domain_stack ps c t.pool
      → Returns (LookedHere ps c t.pool) (notify_clients rd pf fuel (is_some info) provider c t)
  unfolding notify_clients
  notify_clients-Looked ps c t same status inv runs enough k =
      rw (notify_clients, same)
        (step (call_hook rd fuel (is_some info) provider (c, t.pool) s.hook) (
          call_hook-Called rd (is_some info) provider hp xs fuel (c, t.pool) s.hook inv
            (All-HasProgram (Looked f name_stack domain_stack ps) s.hook.client xs all) enough))
    where
      all : All (HasKeeper (Looked f name_stack domain_stack ps) s.hook.client) xs
      all = keepers sid keeps al f name_stack domain_stack ps s.hook.client xs runs

      step :
          (o : Option (((NotifyContext × Pool) × Option ℕ) × Sys E (NotifyContext × Pool) R))
          → Returns
              (Called rd s.hook provider hp xs
                (verdict rd (is_some info) s.hook.client xs (c, t.pool)))
              o
          → Returns (LookedHere ps c t.pool) (elim o [
            | none ↦ none
            | some (((c', pool'), v), hook') ↦ some (
              c',
              record t {
                hook = hook';
                pool = pool';
                creation_status = elim v [ none ↦ t.creation_status | some x ↦ x ];
              },
            )
          ])
      step none r = r
      step (some (((c', pool'), v), hook')) (e, inv', _, _, _) = (
        subst (λ (r : (NotifyContext × Pool) × Option ℕ). Looked f name_stack domain_stack ps r.0)
            (sym e)
            (verdict-keeps (Looked f name_stack domain_stack ps) rd (is_some info) s.hook.client xs
              (c, t.pool) all k),
        inv',
        elim (verdict-IsVerdict (Looked f name_stack domain_stack ps) rd (is_some info)
            s.hook.client xs (c, t.pool) all) [
              | inl none_left ↦
                  rw (ap (λ (r : (NotifyContext × Pool) × Option ℕ). r.1) e ∙ none_left)
                    (inl status)
              | inr (st, failed, bad, stops) ↦
                  rw (ap (λ (r : (NotifyContext × Pool) × Option ℕ). r.1) e ∙ failed)
                    (inr (bad, stops))
            ],
        ap (λ n. elim v [ none ↦ n | some x ↦ x ]) status
            ∙ ap
                (λ (r : (NotifyContext × Pool) × Option ℕ). elim r.1 [
                  | none ↦ s.creation_status
                  | some x ↦ x
                ])
                e,
      )

  -- If the ring of the provider holds `xs`, each with a program that does nothing but call helpers, in calls that
  -- return, and write to its metadata, then with fuel beyond their number the notify routine does not fault. It
  -- keeps the ring; of the pool it leaves what was there before, the two arrays on the stack, and at most the block
  -- of a token's SID that is not valid. The creation status is then the failure of the first client that fails, with
  -- the clients asked in the order of the ring about the context that was filled, and on a creation only; if there
  -- is none, it is as before.
  pub create_process_notify_routine-Notified :
      IsAttached s.hook provider hp xs
      → All (RunsHelpers sid al s.hook.client) xs
      → length xs < fuel
      → Owns f s.pool (name_stack ∷ domain_stack ∷ [])
      → Returns Notified (
          create_process_notify_routine rd pf fuel provider process process_id create_info info
            name_stack domain_stack s)
  unfolding create_process_notify_routine
  create_process_notify_routine-Notified inv runs enough o =
      Returns-bind (Focused put_pool s FilledRun) Notified (on_pool (fill_context pf info initial))
        _ s
        (Returns-focus (λ u. u.pool) put_pool FilledRun (fill_context pf info initial) s
          (Returns-run FilledHere (fill_context pf info initial s.pool) (
            fill_context-Filled pf user f (name_stack ∷ domain_stack ∷ []) process process_id
              create_info name_stack domain_stack info s.pool o)))
        (λ c t (h, ((filled, (leaked, o', why)), run), e). rw e (
          Returns-bind (LookedHere (leaked ∷ []) c h) Notified
            (notify_clients rd pf fuel (is_some info) provider c) _ (put_pool h s)
            (notify_clients-Looked (leaked ∷ []) c (put_pool h s) refl refl inv runs enough (
              inl (
                filled.2,
                ap (λ (u : UnicodeString). u.buffer) filled.0,
                ap (λ (u : UnicodeString). u.buffer) filled.1,
                Owns-move name_stack (domain_stack ∷ leaked ∷ []) []
                    (Owns-move domain_stack (leaked ∷ name_stack ∷ []) [] o'),
              )))
            (λ c' u (k, inv', status, exact).
              Returns-mono (Focused put_pool u (LeftHere leaked)) Notified
                (on_pool (release_account name_stack domain_stack c') u)
                (Returns-focus (λ v. v.pool) put_pool (LeftHere leaked)
                  (release_account name_stack domain_stack c') u
                  (release_account-Owns f name_stack domain_stack (leaked ∷ []) c' u.pool k))
                (λ _ v (h', o'', e').
                  rw e' (inv', (leaked, o'', why), status, (c, h, run, exact))))))
