-- ===== src/Ntos/Notify/Helpers.antt =====
-- The helpers that a program calls while the notify routine of the process hook runs.
use ntosebpfext.Base.{
  ℕ, ◌≡◌, refl, subst, ◌⊎◌, inl, inr, true, false, not, ◌&&◌, Option, some, List, ◌∷◌, arith, ◌==◌,
  if◌then◌else◌, Bool-cases,
}
use ntosebpfext.Kernel.Status.{nt_success}
use ntosebpfext.Kernel.Command.{
  Returns, Returns-bind, Returns-mono, Yields, Yields-bind, Yields-of_Returns, of_Yields,
}
use ntosebpfext.Kernel.Pool.{Bytes, Pool, Allocator, read}
use ntosebpfext.Kernel.Pool.Owns.{Owns, free_ne-Owns}
use ntosebpfext.Ntos.Types.{ProcessMd, UnicodeString, NotifyContext}
use ntosebpfext.Ntos.Strings.{HelperResult, copy_unicode_string_to_buffer}
use ntosebpfext.Ntos.Strings.Copied.{Owns-null}
use ntosebpfext.Ntos.Account.{
  SidFunctions, resolve_account, get_account_name, get_account_domain, get_image_path,
}
use ntosebpfext.Ntos.Account.Buffers.{KeepsBuffers, fresh}
use ntosebpfext.Ntos.Account.Ownership.{Resolved, resolve_account-Resolved}
use ntosebpfext.Ntos.Notify.{free_unless_inline, release_account}

module _ (sid : SidFunctions) (al : Allocator) where
  -- A helper that returns, or a write of the program to its metadata.
  pub data Called (c : NotifyContext) (h : Pool) (c' : NotifyContext) (h' : Pool) : Type 0 where
    account_name :
        (n : ℕ) (r : HelperResult × Bytes)
        → get_account_name sid al c n h ≡ some ((r, c'), h')
        → Called c h c' h'
    account_domain :
        (n : ℕ) (r : HelperResult × Bytes)
        → get_account_domain sid al c n h ≡ some ((r, c'), h')
        → Called c h c' h'
    image_path :
        (n : ℕ) (r : HelperResult × Bytes)
        → get_image_path c n h ≡ some (r, h')
        → c' ≡ c
        → Called c h c' h'
    write_metadata :
        (md : ProcessMd) → c' ≡ record c { process_md = md } → h' ≡ h → Called c h c' h'

  -- The run of a program: any helpers and writes, one after the other.
  pub data Helpers (c : NotifyContext) (h : Pool) : NotifyContext → Pool → Type 0 where
    finished : Helpers c h c h
    call :
        {c₁ c₂ : NotifyContext} {h₁ h₂ : Pool}
        → Helpers c h c₁ h₁
        → Called c₁ h₁ c₂ h₂
        → Helpers c h c₂ h₂

fresh_self : (p : ℕ) → fresh p p ≡ 0
fresh_self p = ground arith

module _ (f : ℕ → Option Bytes) (name_stack domain_stack : ℕ) (ps : List ℕ) where
  -- The two arrays on the stack are there, and so are the buffers that took their place, if any did.
  abbrev pub IsLooked : NotifyContext → Pool → Type 0
  IsLooked c h =
      ((c.account_lookup_done ≡ false)
        × (c.account_name.buffer ≡ name_stack)
        × (c.account_domain.buffer ≡ domain_stack)
        × Owns f h (name_stack ∷ domain_stack ∷ ps))
      ⊎ ((c.account_lookup_done ≡ true)
          × Owns f h (
              fresh name_stack c.account_name.buffer
              ∷ fresh domain_stack c.account_domain.buffer
              ∷ name_stack
              ∷ domain_stack
              ∷ ps))

  -- A copy to the program reads the pool only.
  copy-Yields :
      (s : UnicodeString) (n : ℕ) (h : Pool)
      → Yields (λ _ h'. h' ≡ h) (copy_unicode_string_to_buffer s n h)
  unfolding copy_unicode_string_to_buffer read
  copy-Yields s n h = ground arith

  module _ (sid : SidFunctions) (keeps : KeepsBuffers sid) (al : Allocator) where
    pub resolve_account-IsLooked :
        (c : NotifyContext) (h : Pool)
        → IsLooked c h
        → Returns (λ (status, c') h'. IsLooked c' h') (resolve_account sid al c h)
    unfolding resolve_account
    resolve_account-IsLooked c h (inl (first, name, domain, o)) =
        Returns-mono (Resolved f c ps) _ (resolve_account sid al c h)
          (resolve_account-Resolved f c ps sid keeps al h (rw (name, domain) o) first)
          (λ (status, c') h' (done, o', _). inr (done, rw⁻¹ (name, domain) o'))
    resolve_account-IsLooked c h (inr (again, o)) =
        rw (resolve_account, again, if◌then◌else◌) (inr (refl, o))

    resolve_account-Yields :
        (c : NotifyContext) (h : Pool)
        → IsLooked c h
        → Yields (λ (status, c') h'. IsLooked c' h') (resolve_account sid al c h)
    resolve_account-Yields c h k =
        Yields-of_Returns (λ (status, c') h'. IsLooked c' h') (resolve_account sid al c h)
          (resolve_account-IsLooked c h k)

    get_account_name-IsLooked :
        (c : NotifyContext) (n : ℕ) (h : Pool)
        → IsLooked c h
        → Yields (λ (_, c') h'. IsLooked c' h') (get_account_name sid al c n h)
    unfolding get_account_name
    get_account_name-IsLooked c n h k =
        Yields-bind (λ (_, c') h'. IsLooked c' h') (λ (_, c') h'. IsLooked c' h')
          (resolve_account sid al c) _ h (resolve_account-Yields c h k)
          (λ (status, c₁) h₁ k₁. elim (Bool-cases (not (nt_success status))) [
            | inl t ↦ rw (t, if◌then◌else◌) k₁
            | inr t ↦
                rw (t, if◌then◌else◌)
                  (Yields-bind (λ _ h₂. h₂ ≡ h₁) (λ (_, c') h'. IsLooked c' h')
                    (copy_unicode_string_to_buffer c₁.account_name n) _ h₁
                    (copy-Yields c₁.account_name n h₁) (λ r h₂ e. rw e k₁))
          ])

    get_account_domain-IsLooked :
        (c : NotifyContext) (n : ℕ) (h : Pool)
        → IsLooked c h
        → Yields (λ (_, c') h'. IsLooked c' h') (get_account_domain sid al c n h)
    unfolding get_account_domain
    get_account_domain-IsLooked c n h k =
        Yields-bind (λ (_, c') h'. IsLooked c' h') (λ (_, c') h'. IsLooked c' h')
          (resolve_account sid al c) _ h (resolve_account-Yields c h k)
          (λ (status, c₁) h₁ k₁. elim (Bool-cases (not (nt_success status))) [
            | inl t ↦ rw (t, if◌then◌else◌) k₁
            | inr t ↦
                rw (t, if◌then◌else◌)
                  (Yields-bind (λ _ h₂. h₂ ≡ h₁) (λ (_, c') h'. IsLooked c' h')
                    (copy_unicode_string_to_buffer c₁.account_domain n) _ h₁
                    (copy-Yields c₁.account_domain n h₁) (λ r h₂ e. rw e k₁))
          ])

    Called-IsLooked :
        (c c' : NotifyContext) (h h' : Pool)
        → IsLooked c h
        → Called sid al c h c' h'
        → IsLooked c' h'
    unfolding get_image_path
    Called-IsLooked c c' h h' k (account_name n r e) =
        of_Yields (λ (_, c₁) h₁. IsLooked c₁ h₁) _ (r, c') h' (get_account_name-IsLooked c n h k) e
    Called-IsLooked c c' h h' k (account_domain n r e) =
        of_Yields (λ (_, c₁) h₁. IsLooked c₁ h₁) _ (r, c') h' (get_account_domain-IsLooked c n h k)
          e
    Called-IsLooked c c' h h' k (image_path n r e same) =
        rw (same, of_Yields (λ _ h₁. h₁ ≡ h) _ r h' (copy-Yields c.image_file_name n h) e) k
    Called-IsLooked c c' h h' k (write_metadata md e same) = rw (e, same) k

    pub Helpers-IsLooked :
        {c : NotifyContext} {h : Pool}
        → IsLooked c h
        → {c' : NotifyContext} {h' : Pool} → Helpers sid al c h c' h'
        → IsLooked c' h'
    Helpers-IsLooked k finished = k
    Helpers-IsLooked k (call {c₁} {c₂} {h₁} {h₂} before last) =
        Called-IsLooked c₁ c₂ h₁ h₂ (Helpers-IsLooked k before) last

  free_unless_inline-Owns :
      (stack p : ℕ) (h : Pool) (qs : List ℕ)
      → Owns f h (fresh stack p ∷ qs)
      → Returns (λ _ h'. Owns f h' qs) (free_unless_inline stack p h)
  unfolding free_unless_inline
  free_unless_inline-Owns stack p h qs o = elim (Bool-cases (not (p == 0) && not (p == stack))) [
    | inl t ↦
        let other : fresh stack p ≡ p = ground (arith, t) in
        rw (t, if◌then◌else◌) (free_ne-Owns f h p qs (ground (arith, t)) (rw⁻¹ other o))
    | inr t ↦
        let same : fresh stack p ≡ 0 = ground (arith, t) in
        rw (t, if◌then◌else◌) (without_null (subst (λ q. Owns f h (q ∷ qs)) same o))
  ]
    where
      without_null : Owns f h (0 ∷ qs) → Owns f h qs
      without_null o' = record {
        ours = o'.ours.1;
        apart = o'.apart.1;
        frame = λ b e. o'.frame b (ground (arith, e));
      }

  -- The end of the notify routine frees the buffers that took the place of the two arrays on the stack, and
  -- nothing else.
  pub release_account-Owns :
      (c : NotifyContext) (h : Pool)
      → IsLooked c h
      → Returns
          (λ _ h'. Owns f h' (name_stack ∷ domain_stack ∷ ps))
          (release_account name_stack domain_stack c h)
  unfolding release_account
  release_account-Owns c h k =
      Returns-bind _ _ (free_unless_inline name_stack c.account_name.buffer) _ h
        (free_unless_inline-Owns name_stack c.account_name.buffer h _ (looked k))
        (λ _ h₁ o₁.
          free_unless_inline-Owns domain_stack c.account_domain.buffer h₁
            (name_stack ∷ domain_stack ∷ ps) o₁)
    where
      looked :
          IsLooked c h
          → Owns f h (
              fresh name_stack c.account_name.buffer
              ∷ fresh domain_stack c.account_domain.buffer
              ∷ name_stack
              ∷ domain_stack
              ∷ ps)
      looked (inl (first, name, domain, o)) =
          rw (name, domain, fresh_self name_stack, fresh_self domain_stack)
            (Owns-null (Owns-null o))
      looked (inr (again, o)) = o
