-- ===== src/Ntos/Context/Steps.antt =====
-- The single copies of `_ebpf_process_context_create`, from the last to the second.
use ntosebpfext.Base.{
  ℕ, ◌+◌, ◌≡◌, ◌≤◌, refl, sym, subst, ◌⊎◌, inl, inr, true, false, Option, List, ◌∷◌, arith,
  if◌then◌else◌, length, take, drop, length-drop, Bool-cases,
}
use ntosebpfext.Kernel.Status.{EbpfResult, is_success}
use ntosebpfext.Kernel.Command.{Cmd, pure, ◌>>=◌, Returns, Returns-bind, Returns-mono}
use ntosebpfext.Kernel.Pool.{Bytes, Pool, Allocator}
use ntosebpfext.Kernel.Pool.Owns.{Owns}
use ntosebpfext.Ntos.Types.{UnicodeString, NotifyContext}
use ntosebpfext.Ntos.Strings.{deep_copy_unicode_string_from_data}
use ntosebpfext.Ntos.Strings.Copied.{Keeps, Holds, Holds-Keeps, Failed, Owns-null, deep_copy-Copied}
use ntosebpfext.Ntos.Context.{copy_domain, copy_name, copy_image}

-- A copy, and what follows if it succeeds.
module _ (f : ℕ → Option Bytes) (al : Allocator) (h : Pool) (ps : List ℕ) (dest src : UnicodeString)
    (rest : Bytes) (o : Owns f h ps) (fits : src.length ≤ src.maximum_length)
    (enough : src.length ≤ length rest)
    (next : UnicodeString → Bytes → Cmd Pool (EbpfResult × NotifyContext))
    (stop : UnicodeString → NotifyContext) (Q : EbpfResult × NotifyContext → Pool → Type 0) where
  pub copy_then :
      ((s : UnicodeString) (h₁ : Pool)
        → Owns f h₁ (s.buffer ∷ ps)
        → Keeps h h₁
        → Holds h₁ s (take src.length rest)
        → Returns Q (next s (drop src.length rest) h₁))
      → ((s : UnicodeString) (h₁ : Pool) (r : EbpfResult)
          → Owns f h₁ (s.buffer ∷ ps)
          → Keeps h h₁
          → is_success r ≡ false
          → Failed al r
          → Q (r, stop s) h₁)
      → Returns Q (
          (deep_copy_unicode_string_from_data al dest src rest >>= λ (r, s, rest').
          if is_success r then next s rest' else pure (r, stop s))
            h)
  copy_then proceed ended =
      Returns-bind _ Q (deep_copy_unicode_string_from_data al dest src rest) _ h
        (deep_copy-Copied f al h ps dest src rest o fits enough)
        (λ (r, s, rest') h₁ d. elim (Bool-cases (is_success r)) [
          | inl ok ↦
              rw (ok, if◌then◌else◌, (d.copied ok).1) (proceed s h₁ d.owns d.keeps (d.copied ok).0)
          | inr bad ↦ rw (bad, if◌then◌else◌) (ended s h₁ r d.owns d.keeps bad (d.failed bad))
        ])

module _ (f : ℕ → Option Bytes) (al : Allocator) (input : NotifyContext) where
  abbrev pub DomainPost :
      Pool → List ℕ → NotifyContext → Bytes → EbpfResult × NotifyContext → Pool → Type 0
  DomainPost h ps c rest (r, c') h' =
      (s : UnicodeString) × (c' ≡ record c { account_domain = s })
      × Owns f h' (s.buffer ∷ ps)
      × Keeps h h'
      × (is_success r ≡ true → Holds h' s (take input.account_domain.length rest))
      × (is_success r ≡ false → Failed al r)

  pub copy_domain-post :
      (h : Pool) (ps : List ℕ) (c : NotifyContext) (rest : Bytes)
      → Owns f h ps
      → input.account_domain.length ≤ input.account_domain.maximum_length
      → input.account_domain.length ≤ length rest
      → Returns (DomainPost h ps c rest) (copy_domain al input c rest h)
  copy_domain-post h ps c rest o fits enough =
      Returns-bind _ _
        (deep_copy_unicode_string_from_data al c.account_domain input.account_domain rest) _ h
        (deep_copy-Copied f al h ps c.account_domain input.account_domain rest o fits enough)
        (λ (r, s, rest') h' d. (s, refl, d.owns, d.keeps, (λ e. (d.copied e).0), d.failed))

  abbrev pub NamePost :
      Pool → List ℕ → NotifyContext → Bytes → EbpfResult × NotifyContext → Pool → Type 0
  NamePost h ps c rest (r, c') h' =
      (s t : UnicodeString) × (c' ≡ record c { account_name = s; account_domain = t })
      × ((is_success r ≡ true) ⊎ (c.account_domain.buffer ≡ 0)
          → Owns f h' (t.buffer ∷ s.buffer ∷ ps))
      × Keeps h h'
      × (is_success r ≡ true
          → Holds h' s (take input.account_name.length rest)
            × Holds h' t (take input.account_domain.length (drop input.account_name.length rest)))
      × (is_success r ≡ false → Failed al r)

  pub copy_name-post :
      (h : Pool) (ps : List ℕ) (c : NotifyContext) (rest : Bytes)
      → Owns f h ps
      → input.account_name.length ≤ input.account_name.maximum_length
      → input.account_domain.length ≤ input.account_domain.maximum_length
      → input.account_name.length + input.account_domain.length ≤ length rest
      → Returns (NamePost h ps c rest) (copy_name al input c rest h)
  copy_name-post h ps c rest o fits₁ fits₂ enough =
      copy_then f al h ps c.account_name input.account_name rest o fits₁ (omega arith) _
        (λ s. record c { account_name = s }) (NamePost h ps c rest)
        (λ s h₁ o₁ k₁ hold₁.
          Returns-mono
            (DomainPost h₁ (s.buffer ∷ ps) (record c { account_name = s })
              (drop input.account_name.length rest))
            (NamePost h ps c rest) _
            (copy_domain-post h₁ (s.buffer ∷ ps) (record c { account_name = s }) _ o₁ fits₂
              (omega (arith, enough, length-drop input.account_name.length rest)))
            (λ _ h₂ (t, e, o₂, k₂, hold₂, failed). (
              s,
              t,
              e,
              (λ _. o₂),
              (λ q b live. k₂ q b (k₁ q b live)),
              (λ ok. (Holds-Keeps k₂ hold₁, hold₂ ok)),
              failed,
            )))
        (λ s h₁ r o₁ k₁ bad failed. (
          s,
          c.account_domain,
          refl,
          (λ v. elim v [
            | inl ok ↦ absurd (ground (arith, ok, bad))
            | inr z ↦ subst (λ q. Owns f h₁ (q ∷ s.buffer ∷ ps)) (sym z) (Owns-null o₁)
          ]),
          k₁,
          (λ ok. absurd (ground (arith, ok, bad))),
          (λ _. failed),
        ))

  abbrev pub ImagePost :
      Pool → List ℕ → NotifyContext → Bytes → EbpfResult × NotifyContext → Pool → Type 0
  ImagePost h ps c rest (r, c') h' =
      (s t u : UnicodeString) × (c'
        ≡ record c { image_file_name = s; account_name = t; account_domain = u })
      × ((is_success r ≡ true) ⊎ ((c.account_name.buffer ≡ 0) × (c.account_domain.buffer ≡ 0))
          → Owns f h' (u.buffer ∷ t.buffer ∷ s.buffer ∷ ps))
      × Keeps h h'
      × (is_success r ≡ true
          → Holds h' s (take input.image_file_name.length rest)
            × Holds h' t (take input.account_name.length (drop input.image_file_name.length rest))
            × Holds h' u (
                take input.account_domain.length
                  (drop input.account_name.length (drop input.image_file_name.length rest))))
      × (is_success r ≡ false → Failed al r)

  pub copy_image-post :
      (h : Pool) (ps : List ℕ) (c : NotifyContext) (rest : Bytes)
      → Owns f h ps
      → input.image_file_name.length ≤ input.image_file_name.maximum_length
      → input.account_name.length ≤ input.account_name.maximum_length
      → input.account_domain.length ≤ input.account_domain.maximum_length
      → input.image_file_name.length + input.account_name.length + input.account_domain.length
        ≤ length rest
      → Returns (ImagePost h ps c rest) (copy_image al input c rest h)
  copy_image-post h ps c rest o fits₁ fits₂ fits₃ enough =
      copy_then f al h ps c.image_file_name input.image_file_name rest o fits₁ (omega arith) _
        (λ s. record c { image_file_name = s }) (ImagePost h ps c rest)
        (λ s h₁ o₁ k₁ hold₁.
          Returns-mono
            (NamePost h₁ (s.buffer ∷ ps) (record c { image_file_name = s })
              (drop input.image_file_name.length rest))
            (ImagePost h ps c rest) _
            (copy_name-post h₁ (s.buffer ∷ ps) (record c { image_file_name = s }) _ o₁ fits₂ fits₃
              (omega (arith, enough, length-drop input.image_file_name.length rest)))
            (λ _ h₂ (t, u, e, o₂, k₂, hold₂, failed). (
              s,
              t,
              u,
              e,
              (λ v. o₂ (elim v [ inl ok ↦ inl ok | inr z ↦ inr (z.1) ])),
              (λ q b live. k₂ q b (k₁ q b live)),
              (λ ok. (Holds-Keeps k₂ hold₁, (hold₂ ok).0, (hold₂ ok).1)),
              failed,
            )))
        (λ s h₁ r o₁ k₁ bad failed. (
          s,
          c.account_name,
          c.account_domain,
          refl,
          (λ v. elim v [
            | inl ok ↦ absurd (ground (arith, ok, bad))
            | inr z ↦
                subst (λ q. Owns f h₁ (q ∷ c.account_name.buffer ∷ s.buffer ∷ ps)) (sym z.1)
                  (Owns-null (subst (λ q. Owns f h₁ (q ∷ s.buffer ∷ ps)) (sym z.0) (Owns-null o₁)))
          ]),
          k₁,
          (λ ok. absurd (ground (arith, ok, bad))),
          (λ _. failed),
        ))
