-- ===== src/Ntos/Account/Ownership.antt =====
-- The account lookup neither loses a buffer nor frees one that it did not allocate.
use ntosebpfext.Base.{
  ℕ, ◌-◌, ◌^◌, ap, ◌≡◌, refl, ◌∙◌, ◌⊎◌, inl, inr, Bool, true, false, not, ◌||◌, Option, List, [],
  ◌∷◌, arith, ltb, ◌==◌, if◌then◌else◌, Bool-cases,
}
use ntosebpfext.Kernel.Status.{
  nt_success, status_unsuccessful, status_buffer_too_small, status_buffer_overflow,
}
use ntosebpfext.Kernel.Command.{Returns, Returns-bind}
use ntosebpfext.Kernel.Pool.{Bytes, Pool, Allocator}
use ntosebpfext.Kernel.Pool.Owns.{Owns, Owns-move}
use ntosebpfext.Ntos.Types.{UnicodeString, null_string, NotifyContext}
use ntosebpfext.Ntos.Strings.Copied.{Owns-null}
use ntosebpfext.Ntos.Account.{
  SidFunctions, grow, free_if, resolve_exit, resolve_again, resolve_account,
}
use ntosebpfext.Ntos.Account.Buffers.{KeepsBuffers, fresh, new_pointer, grow-Owns, free_if-Owns}

module _ (f : ℕ → Option Bytes) where
  -- What a lookup leaves, for a context whose two buffers are owned: they still are, besides any that took
  -- their place. On failure both strings are empty.
  abbrev pub Resolved : NotifyContext → List ℕ → ℕ × NotifyContext → Pool → Type 0
  Resolved c ps (status, c') h' =
      (c'.account_lookup_done ≡ true)
      × Owns f h' (
          fresh c.account_name.buffer c'.account_name.buffer
          ∷ fresh c.account_domain.buffer c'.account_domain.buffer
          ∷ c.account_name.buffer
          ∷ c.account_domain.buffer
          ∷ ps)
      × (nt_success status ≡ false
          → (c'.account_name ≡ null_string) × (c'.account_domain ≡ null_string))

  fresh-null : (a : ℕ) → fresh a 0 ≡ 0
  fresh-null a = ground arith

  module _ (c : NotifyContext) (ps : List ℕ) (status : ℕ) (name domain : UnicodeString)
      (nh dh : Bool) (h : Pool)
      (o : Owns f h (
        new_pointer nh name.buffer
        ∷ new_pointer dh domain.buffer
        ∷ c.account_name.buffer
        ∷ c.account_domain.buffer
        ∷ ps))
      (name_new : nh ≡ true → (name.buffer == 0) ≡ false)
      (domain_new : dh ≡ true → (domain.buffer == 0) ≡ false)
      (name_old : nh ≡ false → name.buffer ≡ c.account_name.buffer)
      (domain_old : dh ≡ false → domain.buffer ≡ c.account_domain.buffer) where
    name_fresh : new_pointer nh name.buffer ≡ fresh c.account_name.buffer name.buffer
    name_fresh = elim (Bool-cases nh) [
      | inl t ↦ ground (arith, t, name_new t, o.apart)
      | inr t ↦ ground (arith, t, name_old t)
    ]

    domain_fresh : new_pointer dh domain.buffer ≡ fresh c.account_domain.buffer domain.buffer
    domain_fresh = elim (Bool-cases dh) [
      | inl t ↦ ground (arith, t, domain_new t, o.apart)
      | inr t ↦ ground (arith, t, domain_old t)
    ]

    exit-Resolved : Returns (Resolved c ps) (resolve_exit c status name domain nh dh h)
    unfolding resolve_exit
    exit-Resolved = elim (Bool-cases (nt_success status)) [
      | inl ok ↦
          rw (ok, if◌then◌else◌)
            (refl, rw⁻¹ (name_fresh, domain_fresh) o, λ k. absurd (ground (arith, ok, k)))
      | inr bad ↦
          rw (bad, if◌then◌else◌)
            (Returns-bind _ _ (free_if nh name.buffer) _ h
              (free_if-Owns f nh name.buffer h _ name_new o)
              (λ _ h₁ o₁.
                Returns-bind _ _ (free_if dh domain.buffer) _ h₁
                  (free_if-Owns f dh domain.buffer h₁ _ domain_new o₁)
                  (λ _ h₂ o₂. (
                    refl,
                    rw (fresh-null c.account_name.buffer, fresh-null c.account_domain.buffer)
                        (Owns-null (Owns-null o₂)),
                    λ _. (refl, refl),
                  ))))
    ]

  old_buffer :
      (new : Bool) (s s' : UnicodeString) (p : ℕ)
      → (new ≡ true) ⊎ (s' ≡ s)
      → s.buffer ≡ p
      → new ≡ false
      → s'.buffer ≡ p
  old_buffer new s s' p was e k = elim was [
    | inl t ↦ absurd (ground (arith, t, k))
    | inr w ↦ ap (λ (u : UnicodeString). u.buffer) w ∙ e
  ]

  never : {A : Type 0} → false ≡ true → A
  never e = absurd (ground (arith, e))

  module _ (c : NotifyContext) (ps : List ℕ) where
    -- The exit before anything was allocated.
    plain_exit :
        (status : ℕ) (name domain : UnicodeString) (h : Pool)
        → Owns f h (c.account_name.buffer ∷ c.account_domain.buffer ∷ ps)
        → name.buffer ≡ c.account_name.buffer
        → domain.buffer ≡ c.account_domain.buffer
        → Returns (Resolved c ps) (resolve_exit c status name domain false false h)
    plain_exit status name domain h o e₁ e₂ =
        exit-Resolved c ps status name domain false false h (Owns-null (Owns-null o)) never never
          (λ _. e₁) (λ _. e₂)

    module _ (sid : SidFunctions) (quiet : KeepsBuffers sid) (al : Allocator) where
      again-Resolved :
          (m : ℕ) (name : UnicodeString) (n : ℕ) (domain : UnicodeString) (h : Pool)
          → Owns f h (c.account_name.buffer ∷ c.account_domain.buffer ∷ ps)
          → name.buffer ≡ c.account_name.buffer
          → domain.buffer ≡ c.account_domain.buffer
          → Returns (Resolved c ps) (resolve_again sid al c m name n domain h)
      unfolding resolve_again
      again-Resolved m name n domain h o e₁ e₂ =
          elim (Bool-cases (ltb (2 ^ 16 - 1) m || ltb (2 ^ 16 - 1) n)) [
            | inl t ↦
                rw (t, if◌then◌else◌) (plain_exit status_buffer_overflow name domain h o e₁ e₂)
            | inr t ↦
                rw (t, if◌then◌else◌)
                  (Returns-bind _ (Resolved c ps) (grow al m name) _ h (grow-Owns f al m name h _ o)
                    (λ (st₁, name₁, nh) h₁ (o₁, was₁, new₁).
                      elim (Bool-cases (not (nt_success st₁))) [
                        | inl u ↦
                            rw (u, if◌then◌else◌)
                              (exit-Resolved c ps st₁ name₁ domain nh false h₁
                                (Owns-move (new_pointer nh name₁.buffer) (0 ∷ [])
                                  (c.account_name.buffer ∷ c.account_domain.buffer ∷ ps)
                                  (Owns-null o₁))
                                new₁ never (old_buffer nh name name₁ c.account_name.buffer was₁ e₁)
                                (λ _. e₂))
                        | inr u ↦
                            rw (u, if◌then◌else◌)
                              (Returns-bind _ (Resolved c ps) (grow al n domain) _ h₁
                                (grow-Owns f al n domain h₁ _ o₁)
                                (λ (st₂, domain₂, dh) h₂ (o₂, was₂, new₂).
                                  elim (Bool-cases (not (nt_success st₂))) [
                                    | inl v ↦
                                        rw (v, if◌then◌else◌)
                                          (exit-Resolved c ps st₂ name₁ domain₂ nh dh h₂
                                            (Owns-move (new_pointer nh name₁.buffer)
                                              (new_pointer dh domain₂.buffer ∷ [])
                                              (c.account_name.buffer ∷ c.account_domain.buffer ∷ ps)
                                              o₂)
                                            new₁ new₂
                                            (old_buffer nh name name₁ c.account_name.buffer was₁ e₁)
                                            (old_buffer dh domain domain₂ c.account_domain.buffer
                                              was₂ e₂))
                                    | inr v ↦
                                        rw (v, if◌then◌else◌)
                                          (Returns-bind _ (Resolved c ps)
                                            (sid.lookup c.process_md.token_sid m name₁ n domain₂) _
                                            h₂
                                            (quiet.keeps c.process_md.token_sid m name₁ n domain₂
                                              h₂)
                                            (λ (st₃, m₃, name₃, n₃, domain₃) h₃ (k₁, k₂, same).
                                              exit-Resolved c ps st₃ name₃ domain₃ nh dh h₃
                                                (rw (k₁, k₂)
                                                  (same f _ (
                                                    Owns-move (new_pointer nh name₁.buffer)
                                                      (new_pointer dh domain₂.buffer ∷ [])
                                                      (c.account_name.buffer
                                                        ∷ c.account_domain.buffer ∷ ps)
                                                      o₂)))
                                                (rw k₁ new₁) (rw k₂ new₂)
                                                (λ z.
                                                  k₁
                                                  ∙ old_buffer nh name name₁ c.account_name.buffer
                                                      was₁ e₁ z)
                                                (λ z.
                                                  k₂
                                                  ∙ old_buffer dh domain domain₂
                                                      c.account_domain.buffer was₂ e₂ z)))
                                  ]))
                      ]))
          ]

      -- For a lookup that keeps the buffers, and a context that owns its two account buffers and whose lookup is not
      -- done, the resolution does not fault. It marks the lookup as done, frees neither initial buffer, and owns a
      -- buffer for each that took the place of one; if it fails, both strings are empty and nothing new is owned.
      pub resolve_account-Resolved :
          (h : Pool)
          → Owns f h (c.account_name.buffer ∷ c.account_domain.buffer ∷ ps)
          → c.account_lookup_done ≡ false
          → Returns (Resolved c ps) (resolve_account sid al c h)
      unfolding resolve_account resolve_exit resolve_again
      resolve_account-Resolved h o first =
          elim (Bool-cases
            (c.process_md.token_sid_size == 0 || not (sid.valid c.process_md.token_sid))) [
              | inl t ↦
                  rw (first, t, if◌then◌else◌)
                    (plain_exit status_unsuccessful c.account_name c.account_domain h o refl refl)
              | inr t ↦
                  rw (first, t, if◌then◌else◌)
                    (Returns-bind _ (Resolved c ps)
                      (sid.lookup c.process_md.token_sid c.account_name.maximum_length
                        c.account_name c.account_domain.maximum_length c.account_domain)
                      _ h
                      (quiet.keeps c.process_md.token_sid c.account_name.maximum_length
                        c.account_name c.account_domain.maximum_length c.account_domain h)
                      (λ (st, m, name, n, domain) h₁ (k₁, k₂, same).
                        elim (Bool-cases (st == status_buffer_too_small)) [
                          | inl u ↦
                              rw (u, if◌then◌else◌)
                                (again-Resolved m name n domain h₁ (same f _ o) k₁ k₂)
                          | inr u ↦
                              rw (u, if◌then◌else◌)
                                (plain_exit st name domain h₁ (same f _ o) k₁ k₂)
                        ]))
            ]
