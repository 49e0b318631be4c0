-- ===== src/Ntos/Context/Copies.antt =====
-- The row of the four copies of `_ebpf_process_context_create`, and what it leaves.
use mathlib.Core.List.{◌++◌}
use ntosebpfext.Base.{
  ℕ, ◌≡◌, ◌≤◌, refl, sym, subst, ◌⊎◌, inl, inr, true, false, Option, List, [], ◌∷◌, arith, length,
  take, drop, length-drop,
}
use ntosebpfext.Kernel.Status.{EbpfResult, is_success}
use ntosebpfext.Kernel.Command.{Returns, Returns-mono}
use ntosebpfext.Kernel.Pool.{Bytes, Pool, Allocator}
use ntosebpfext.Kernel.Pool.Owns.{Owns}
use ntosebpfext.Ntos.Types.{NotifyContext}
use ntosebpfext.Ntos.Strings.Copied.{Keeps, Holds, Holds-Keeps, Failed, Owns-null}
use ntosebpfext.Ntos.Context.{copy_strings, total_length, some_too_long}
use ntosebpfext.Ntos.Context.Steps.{copy_then, ImagePost, copy_image-post}

-- No buffer of a context.
abbrev pub NoBuffers : NotifyContext → Type 0
NoBuffers c =
    (c.command_line.buffer ≡ 0)
    × (c.image_file_name.buffer ≡ 0)
    × (c.account_name.buffer ≡ 0)
    × (c.account_domain.buffer ≡ 0)

-- The strings of `c` stand for consecutive pieces of the data.
abbrev pub Pieces : NotifyContext → Pool → NotifyContext → Bytes → Type 0
Pieces input h c rest =
    let rest₁ = drop input.command_line.length rest in
    let rest₂ = drop input.image_file_name.length rest₁ in
    Holds h c.command_line (take input.command_line.length rest)
    × Holds h c.image_file_name (take input.image_file_name.length rest₁)
    × Holds h c.account_name (take input.account_name.length rest₂)
    × Holds h c.account_domain
        (take input.account_domain.length (drop input.account_name.length rest₂))

-- The buffers of a context, the last copied first.
abbrev pub buffers : NotifyContext → List ℕ
buffers c =
    c.account_domain.buffer ∷ c.account_name.buffer ∷ c.image_file_name.buffer
    ∷ c.command_line.buffer ∷ []

-- The contexts agree but for their strings.
abbrev pub SameFields : NotifyContext → NotifyContext → Type 0
SameFields c c' = c' ≡ record c {
  command_line = c'.command_line;
  image_file_name = c'.image_file_name;
  account_name = c'.account_name;
  account_domain = c'.account_domain;
}

module _ (f : ℕ → Option Bytes) (al : Allocator) (input : NotifyContext) where
  pub record CopiesPost (h : Pool) (ps : List ℕ) (c : NotifyContext) (rest : Bytes)
      (r : EbpfResult × NotifyContext) (h' : Pool) : Type 0 where
    pub same : SameFields c r.1
    pub owns : (is_success r.0 ≡ true) ⊎ NoBuffers c → Owns f h' (buffers r.1 ++ ps)
    pub keeps : Keeps h h'
    pub failed : is_success r.0 ≡ false → Failed al r.0
    pub pieces : is_success r.0 ≡ true → Pieces input h' r.1 rest

  pub copy_strings-post :
      (h : Pool) (ps : List ℕ) (c : NotifyContext) (rest : Bytes)
      → Owns f h ps
      → some_too_long input ≡ false
      → total_length input ≤ length rest
      → Returns (CopiesPost h ps c rest) (copy_strings al input c rest h)
  unfolding copy_strings
  copy_strings-post h ps c rest o fits enough =
      copy_then f al h ps c.command_line input.command_line rest o (fits₀ fits) (omega arith) _
        (λ s. record c { command_line = s }) (CopiesPost h ps c rest)
        (λ s h₁ o₁ k₁ hold₁.
          Returns-mono
            (ImagePost f al input h₁ (s.buffer ∷ ps) (record c { command_line = s })
              (drop input.command_line.length rest))
            (CopiesPost h ps c rest) _
            (copy_image-post f al input h₁ (s.buffer ∷ ps) (record c { command_line = s }) _ o₁
              (fits₁ fits) (fits₂ fits) (fits₃ fits)
              (omega (arith, enough, length-drop input.command_line.length rest)))
            (λ (r, c') h₂ (t, u, v, e, o₂, k₂, hold₂, failed). rw e (record {
              same = refl;
              owns = λ w. o₂ (elim w [ inl ok ↦ inl ok | inr z ↦ inr (z.2, z.3) ]);
              keeps = λ q b live. k₂ q b (k₁ q b live);
              failed = failed;
              pieces = λ ok. (Holds-Keeps k₂ hold₁, (hold₂ ok).0, (hold₂ ok).1, (hold₂ ok).2);
            })))
        (λ s h₁ r o₁ k₁ bad failed. record {
          same = refl;
          owns = λ w. elim w [
            | inl ok ↦ absurd (ground (arith, ok, bad))
            | inr z ↦
                subst
                  (λ q.
                    Owns f h₁
                      (q ∷ c.account_name.buffer ∷ c.image_file_name.buffer ∷ s.buffer ∷ ps))
                  (sym z.3)
                  (Owns-null (
                    subst (λ q. Owns f h₁ (q ∷ c.image_file_name.buffer ∷ s.buffer ∷ ps)) (sym z.2)
                      (Owns-null
                        (subst (λ q. Owns f h₁ (q ∷ s.buffer ∷ ps)) (sym z.1) (Owns-null o₁)))))
          ];
          keeps = k₁;
          failed = λ _. failed;
          pieces = λ ok. absurd (ground (arith, ok, bad));
        })
    where
      fits₀ :
          some_too_long input ≡ false
          → input.command_line.length ≤ input.command_line.maximum_length
      fits₀ e = ground arith

      fits₁ :
          some_too_long input ≡ false
          → input.image_file_name.length ≤ input.image_file_name.maximum_length
      fits₁ e = ground arith

      fits₂ :
          some_too_long input ≡ false
          → input.account_name.length ≤ input.account_name.maximum_length
      fits₂ e = ground arith

      fits₃ :
          some_too_long input ≡ false
          → input.account_domain.length ≤ input.account_domain.maximum_length
      fits₃ e = ground arith
