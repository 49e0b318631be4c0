-- ===== src/HookProvider/Calls/Order.antt =====
-- The hook calls the attached clients in the order of attachment.
use ntosebpfext.Base.{
  ℕ, zero, suc, ◌<◌, ◌≡◌, refl, ◌∙◌, Bool, false, not, ◌&&◌, Option, some, List, [], ◌∷◌, ◌++◌,
  arith, ◌==◌, if◌then◌else◌, length, All, All-map, All_of_mem, ◌∈◌, head?, Bool-cases, inl, inr,
}
use ntosebpfext.Kernel.Status.{nt_success}
use ntosebpfext.Kernel.Command.{◌>>=◌, Returns, Returns-mono}
use ntosebpfext.HookProvider.Links.Ring.{next?, to_entry}
use ntosebpfext.HookProvider.State.{
  Rundown, Invoke, HookClient, HookProvider, Sys, update, update_self, update-update,
}
use ntosebpfext.HookProvider.Query.{client_enter_rundown, client_leave_rundown, invoke_program}
use ntosebpfext.HookProvider.Calls.{call_client, call_clients, call_hook}
use ntosebpfext.HookProvider.Inv.{IsClient, IsAttached}
use ntosebpfext.HookProvider.Inv.Walk.{get_next-first, get_next-next}
use ntosebpfext.HookProvider.Calls.Verdict.{
  answer, called, verdict, verdict-update, step_run, next?-split, split-Distinct, split_again,
  mem-middle, HasProgram, called-HasProgram,
}

module _ {E C R : Type 0} (rd : Rundown R) where
  enter_run :
      (s : Sys E C R) (x : ℕ) (c : HookClient C R)
      → s.client x ≡ some c
      → client_enter_rundown rd x s
        ≡ some (
          (rd.enter c.rundown).0,
          record s {
            client = update s.client x (some (record c { rundown = (rd.enter c.rundown).1 }));
          },
        )
  unfolding client_enter_rundown
  enter_run s x c live = rw (◌>>=◌, live) refl

  leave_run :
      (s : Sys E C R) (x : ℕ) (c : HookClient C R)
      → s.client x ≡ some c
      → client_leave_rundown rd x s
        ≡ some (
          tt,
          record s {
            client = update s.client x (some (record c { rundown = rd.leave c.rundown }));
          },
        )
  unfolding client_leave_rundown
  leave_run s x c live = rw (◌>>=◌, live) refl

  invoke_run :
      (s : Sys E C R) (x : ℕ) (c : HookClient C R) (f : Invoke C) (context : C) (result : ℕ)
      → s.client x ≡ some c
      → c.invoke_program ≡ some f
      → invoke_program x context result s ≡ some (f c.client_binding_context context result, s)
  unfolding invoke_program
  invoke_run s x c f context result live program = rw (◌>>=◌, live, program) refl

  call_client_run :
      (s : Sys E C R) (x : ℕ) (c : HookClient C R) (f : Invoke C) (context : C)
      → s.client x ≡ some c
      → c.invoke_program ≡ some f
      → call_client rd x context s
        ≡ some (answer rd c f context, record s { client = update s.client x (some (called rd c)) })
  unfolding call_client
  call_client_run s x c f context live program =
      let c₁ : HookClient C R = record c { rundown = (rd.enter c.rundown).1 } in
      let s₁ : Sys E C R = record s { client = update s.client x (some c₁) } in
      let at_x : s₁.client x ≡ some c₁ = update_self s.client x (some c₁) in
      elim (Bool-cases (rd.enter c.rundown).0) [
        | inl t ↦
            rw
              (
                ◌>>=◌,
                enter_run s x c live,
                t,
                if◌then◌else◌,
                invoke_run s₁ x c₁ f context 0 at_x program,
                leave_run s₁ x c₁ at_x,
                update-update s.client x (some c₁)
                    (some (record c { rundown = rd.leave (rd.enter c.rundown).1 })),
              )
              refl
        | inr t ↦ rw (◌>>=◌, enter_run s x c live, t, if◌then◌else◌) refl
      ]

  -- The calls change of a client but its rundown.
  called-IsAttached :
      (s : Sys E C R) (provider : ℕ) (h : HookProvider E C R) (xs : List ℕ) (x : ℕ)
      (c : HookClient C R)
      → s.client x ≡ some c
      → IsAttached s provider h xs
      → IsAttached (record s { client = update s.client x (some (called rd c)) }) provider h xs
  called-IsAttached s provider h xs x c live inv = record {
    ne_null = inv.ne_null;
    holds = inv.holds;
    ring = inv.ring;
    clients =
        All-map _ _ xs
          (λ y k. elim (Bool-cases (x == y)) [
            | inl e ↦ (
              k.0,
              called rd c,
              ground (arith, e),
              ground (arith, e, k.2, k.3, live),
              ground (arith, e, k.2, k.4, live),
            )
            | inr e ↦ (k.0, k.1, ground (arith, e, k.2), k.3, k.4)
          ])
          inv.clients;
  }

  -- The end of the calls: the result, with the ring and the extension's state as they were.
  abbrev pub Called :
      Sys E C R → ℕ → HookProvider E C R → List ℕ → C × Option ℕ → C × Option ℕ → Sys E C R → Type 0
  Called s provider h xs expected r s' =
      (r ≡ expected)
      × IsAttached s' provider h xs
      × (s'.ext ≡ s.ext)
      × (s'.work_item ≡ s.work_item)
      × (s'.queued ≡ s.queued)

  calls_from :
      (stops : Bool) (provider : ℕ) (h : HookProvider E C R) (xs ys zs : List ℕ) (fuel : ℕ)
      (context : C) (s : Sys E C R)
      → length zs < fuel
      → xs ≡ ys ++ zs
      → IsAttached s provider h xs
      → All (HasProgram s.client) xs
      → Returns
          (Called s provider h xs (verdict rd stops s.client zs context))
          (call_clients rd fuel stops provider (to_entry 0 (head? zs)) context s)
  unfolding call_clients verdict
  calls_from stops provider h xs ys zs zero context s enough e inv programs =
      absurd (omega (arith, enough))
  calls_from stops provider h xs ys [] (suc fuel) context s enough e inv programs =
      (refl, inv, refl, refl, refl)
  calls_from stops provider h xs ys (x ∷ zs) (suc fuel) context s enough e inv programs =
      let member : x ∈ xs = rw e (mem-middle x ys zs) in
      let (c, f, live, program) = All_of_mem (HasProgram s.client) x xs programs member in
      let nz : (x == 0) ≡ false =
        ground (arith, (All_of_mem (IsClient s provider) x xs inv.clients member).0) in
      let status : ℕ = (answer rd c f context).0 in
      let context' : C = (answer rd c f context).1 in
      let s₁ : Sys E C R = record s { client = update s.client x (some (called rd c)) } in
      let inv₁ : IsAttached s₁ provider h xs = called-IsAttached s provider h xs x c live inv in
      let (before, behind) = split-Distinct x ys zs (rw e at inv.ring.distinct.1) in
      let following : next? x xs ≡ head? zs = rw e (next?-split x ys zs before) in
      let rest : C → C × Option ℕ = verdict rd stops s.client zs in
      elim (Bool-cases (not (nt_success status) && stops)) [
        | inl t ↦
            rw
              (
                step_run rd stops (s.client x) c f rest context live program,
                nz,
                if◌then◌else◌,
                ◌>>=◌,
                call_client_run s x c f context live program,
                t,
              )
              (refl, inv₁, refl, refl, refl)
        | inr t ↦
            rw
              (
                step_run rd stops (s.client x) c f rest context live program,
                nz,
                if◌then◌else◌,
                ◌>>=◌,
                call_client_run s x c f context live program,
                t,
                get_next-next s₁ provider h xs x inv₁ member,
                following,
              )
              (Returns-mono (Called s₁ provider h xs (verdict rd stops s₁.client zs context')) _ _
                (calls_from stops provider h xs (ys ++ x ∷ []) zs fuel context' s₁
                  (omega (arith, enough)) (e ∙ split_again x ys zs) inv₁
                  (All-map _ _ xs (λ y k. called-HasProgram rd s.client x c y live k) programs))
                (λ r s₂ (k, i, a, b, d). (
                  k ∙ verdict-update rd stops s.client x (some (called rd c)) zs context' behind,
                  i,
                  a,
                  b,
                  d,
                )))
      ]

  -- For a provider whose ring holds `xs`, all with a program, and fuel beyond their number, the call of the hook
  -- does not fault. It calls the clients in the order of attachment, passes over those that are going away, ends
  -- at the first failure if `stops` says so, and keeps the ring and the extension's state.
  pub call_hook-Called :
      (stops : Bool) (provider : ℕ) (h : HookProvider E C R) (xs : List ℕ) (fuel : ℕ) (context : C)
      (s : Sys E C R)
      → IsAttached s provider h xs
      → All (HasProgram s.client) xs
      → length xs < fuel
      → Returns
          (Called s provider h xs (verdict rd stops s.client xs context))
          (call_hook rd fuel stops provider context s)
  unfolding call_hook
  call_hook-Called stops provider h xs fuel context s inv programs enough =
      rw (◌>>=◌, get_next-first s provider h xs inv)
        (calls_from stops provider h xs [] xs fuel context s enough refl inv programs)
