-- ===== src/Ntos/Notify/Filled.antt =====
-- The context that the notify routine of the process hook hands to the programs.
use ntosebpfext.Base.{
  ℕ, ◌+◌, ◌≡◌, ◌≤◌, refl, sym, ap, ◌∙◌, ◌⊎◌, inl, inr, false, not, ◌&&◌, Option, none, some, List,
  ◌∷◌, arith, ◌==◌, if◌then◌else◌, Bool-cases,
}
use ntosebpfext.Kernel.Status.{nt_success}
use ntosebpfext.Kernel.Command.{Returns, Returns-bind}
use ntosebpfext.Kernel.Pool.{Bytes, Pool, free}
use ntosebpfext.Kernel.Pool.Owns.{Owns, free_ne-Owns}
use ntosebpfext.Ntos.Types.{Operation, ProcessMd, token_sid_max_size, null_string, NotifyContext}
use ntosebpfext.Ntos.Strings.Copied.{Owns-null}
use ntosebpfext.Ntos.Notify.{
  CreateInfo, ProcessFunctions, inline_string, string_or_null, copy_token_sid, read_token_sid,
  initial_context, fill_create, fill_delete, fill_context,
}

-- A query of a token allocates the block that it returns and no other, and returns none if it fails.
pub record AllocatesUser (pf : ProcessFunctions) : Type 0 where
  pub allocates :
      (token : ℕ) (h : Pool)
      → Returns
          (λ (status, user) h'.
            ((f : ℕ → Option Bytes) (ps : List ℕ) → Owns f h ps → Owns f h' (user ∷ ps))
            × (nt_success status ≡ false → user ≡ 0))
          (pf.query_user token h)

module _ (pf : ProcessFunctions) where
  copy_token_sid-bound :
      (sid : Bytes) (md : ProcessMd)
      → md.token_sid_size ≤ token_sid_max_size
      → (copy_token_sid pf sid md).token_sid_size ≤ token_sid_max_size
  unfolding copy_token_sid
  copy_token_sid-bound sid md le = ground arith

  -- A copy of a SID changes the SID and its size only.
  abbrev SidOnly : ProcessMd → ProcessMd → Type 0
  SidOnly md md' =
      md' ≡ record md { token_sid = md'.token_sid; token_sid_size = md'.token_sid_size }

  copy_token_sid-SidOnly : (sid : Bytes) (md : ProcessMd) → SidOnly md (copy_token_sid pf sid md)
  unfolding copy_token_sid
  copy_token_sid-SidOnly sid md = ground arith

  module _ (user : AllocatesUser pf) (f : ℕ → Option Bytes) (ps : List ℕ) where
    -- The memory of before and, besides, a block whose SID is not valid, or nothing.
    abbrev pub Leaks : Pool → Type 0
    Leaks h =
        (leaked : ℕ) × Owns f h (leaked ∷ ps)
        × ((leaked ≡ 0) ⊎ (pf.valid_sid (pf.sid leaked) ≡ false))

    read_token_sid-Read :
        (process : ℕ) (md : ProcessMd) (h : Pool)
        → md.token_sid_size ≤ token_sid_max_size
        → Owns f h ps
        → Returns
            (λ md' h'. SidOnly md md' × (md'.token_sid_size ≤ token_sid_max_size) × Leaks h')
            (read_token_sid pf process md h)
    unfolding read_token_sid
    read_token_sid-Read process md h small o = elim (Bool-cases (pf.primary_token process == 0)) [
      | inl z ↦ rw (z, if◌then◌else◌) (refl, small, (0, Owns-null o, inl refl))
      | inr nz ↦
          rw (nz, if◌then◌else◌)
            (Returns-bind _ _ (pf.query_user (pf.primary_token process)) _ h
              (user.allocates (pf.primary_token process) h)
              (λ (status, p) h₁ (own, failed).
                elim (Bool-cases (nt_success status && not (p == 0) && pf.valid_sid (pf.sid p))) [
                  | inl t ↦
                      rw (t, if◌then◌else◌)
                        (Returns-bind _ _ (free p) _ h₁
                          (free_ne-Owns f h₁ p ps (ground (arith, t)) (own f ps o))
                          (λ _ h₂ o₂. (
                            copy_token_sid-SidOnly (pf.sid p) md,
                            copy_token_sid-bound (pf.sid p) md small,
                            (0, Owns-null o₂, inl refl),
                          )))
                  | inr t ↦
                      rw (t, if◌then◌else◌)
                        (refl, small, (p, own f ps o, ground (arith, t, failed)))
                ]))
    ]

    module _ (process process_id create_info name_stack domain_stack : ℕ) where
      abbrev initial : NotifyContext
      initial = initial_context pf process process_id create_info name_stack domain_stack

      -- The metadata of a process that is created, before its SID is read.
      abbrev created_md : CreateInfo → ProcessMd
      created_md i = record initial.process_md {
        operation = Operation.create;
        parent_process_id = i.parent_process_id;
        creating_process_id = i.creating_process_id;
        creating_thread_id = i.creating_thread_id;
        command_start = (string_or_null i.command_line).buffer;
        command_end =
            (string_or_null i.command_line).buffer + (string_or_null i.command_line).length;
      }

      -- The context of an event.
      abbrev pub Filled : Option CreateInfo → NotifyContext → Type 0
      Filled info c =
          (c.account_name ≡ inline_string name_stack)
          × (c.account_domain ≡ inline_string domain_stack)
          × (c.account_lookup_done ≡ false)
          × (c.process_md.process_id ≡ process_id)
          × (c.process_md.creation_time ≡ pf.create_time process)
          × (c.process_md.token_sid_size ≤ token_sid_max_size)
          × elim info [
            | none ↦
                (c.process_md.operation ≡ Operation.delete)
                × (c.process_md.exit_time ≡ pf.exit_time)
                × (c.process_md.process_exit_code ≡ pf.exit_status process)
                × (c.process_md.token_sid_size ≡ 0)
                × (c.command_line ≡ null_string)
                × (c.image_file_name ≡ null_string)
            | some i ↦
                (c.process_md.operation ≡ Operation.create)
                × (c.process_md.parent_process_id ≡ i.parent_process_id)
                × (c.process_md.creating_process_id ≡ i.creating_process_id)
                × (c.process_md.creating_thread_id ≡ i.creating_thread_id)
                × (c.command_line ≡ string_or_null i.command_line)
                × (c.image_file_name ≡ string_or_null i.image_file_name)
                × (c.process_md.command_start ≡ c.command_line.buffer)
                × (c.process_md.command_end ≡ c.process_md.command_start + c.command_line.length)
          ]

      -- The filling of the context does not fault. The SID has at most 68 bytes, the account strings are the empty
      -- strings of the two arrays on the stack, the command line stands between its two pointers, a process that
      -- ends has its exit time and code and neither SID nor strings; and no block of the pool is freed that the
      -- query of the token did not allocate, and none is left but that of a SID that is not valid.
      pub fill_context-Filled :
          (info : Option CreateInfo) (h : Pool)
          → Owns f h ps
          → Returns (λ c h'. Filled info c × Leaks h') (fill_context pf info initial h)
      unfolding fill_context fill_create fill_delete
      fill_context-Filled none h o = (
        (refl, refl, refl, refl, refl, omega arith, (refl, refl, refl, refl, refl, refl)),
        (0, Owns-null o, inl refl),
      )
      fill_context-Filled (some i) h o =
          Returns-bind _ _ (read_token_sid pf process (created_md i)) _ h
            (read_token_sid-Read process (created_md i) h (omega arith) o)
            (λ md h₁ (e, small, leaks).
              let start = ap (λ (m : ProcessMd). m.command_start) e in
              (
                (
                  refl,
                  refl,
                  refl,
                  ap (λ (m : ProcessMd). m.process_id) e,
                  ap (λ (m : ProcessMd). m.creation_time) e,
                  small,
                  (
                    ap (λ (m : ProcessMd). m.operation) e,
                    ap (λ (m : ProcessMd). m.parent_process_id) e,
                    ap (λ (m : ProcessMd). m.creating_process_id) e,
                    ap (λ (m : ProcessMd). m.creating_thread_id) e,
                    refl,
                    refl,
                    start,
                    ap (λ (m : ProcessMd). m.command_end) e
                        ∙ ap (λ n. n + (string_or_null i.command_line).length) (sym start),
                  ),
                ),
                leaks,
              ))
