-- ===== src/Ntos/Account/Fits.antt =====
-- The strings of a context after the account lookup: what their lengths promise, their blocks hold.
use ntosebpfext.Base.{
  ℕ, ◌-◌, ◌^◌, ◌≡◌, ◌≤◌, refl, ◌⊎◌, inl, inr, Bool, true, false, not, ◌||◌, Option, none, some,
  arith, ltb, ◌==◌, if◌then◌else◌, length, Bool-cases,
}
use ntosebpfext.Kernel.Status.{nt_success, status_unsuccessful, status_buffer_too_small}
use ntosebpfext.Kernel.Command.{◌>>=◌, Yields, Yields-bind}
use ntosebpfext.Kernel.Pool.{Bytes, Pool, Allocator, allocate}
use ntosebpfext.Ntos.Types.{UnicodeString, NotifyContext}
use ntosebpfext.Ntos.Account.{
  SidFunctions, grow, free_if, resolve_exit, resolve_again, resolve_account,
}

-- The block at `p` has `n` bytes.
abbrev pub HasBytes : Pool → ℕ → ℕ → Type 0
HasBytes h p n = (c : Bytes) × (h.block p ≡ some c) × (length c ≡ n)

-- A string without a buffer, or with a buffer that has room for its maximum length.
abbrev pub Fits : Pool → UnicodeString → Type 0
Fits h s = (s.length ≤ s.maximum_length) × (n : ℕ) × HasBytes h s.buffer n × (s.maximum_length ≤ n)

abbrev pub IsReadable : Pool → UnicodeString → Type 0
IsReadable h s = (s.buffer ≡ 0) ⊎ Fits h s

-- No block changes its size.
abbrev pub KeepsBytes : Pool → Pool → Type 0
KeepsBytes h h' = (p n : ℕ) → HasBytes h p n → HasBytes h' p n

-- A lookup writes to the buffers that it is given and sets the lengths of the strings within their maximum lengths.
pub record KeepsSizes (sid : SidFunctions) : Type 0 where
  pub keeps :
      (bytes : Bytes) (m : ℕ) (name : UnicodeString) (n : ℕ) (domain : UnicodeString) (h : Pool)
      → name.length ≤ name.maximum_length
      → domain.length ≤ domain.maximum_length
      → Yields
          (λ (status, m', name', n', domain') h'.
            (name'.buffer ≡ name.buffer)
            × (name'.maximum_length ≡ name.maximum_length)
            × (name'.length ≤ name.maximum_length)
            × (domain'.buffer ≡ domain.buffer)
            × (domain'.maximum_length ≡ domain.maximum_length)
            × (domain'.length ≤ domain.maximum_length)
            × KeepsBytes h h')
          (sid.lookup bytes m name n domain h)

-- A string after a lookup fits where it did before.
Fits-lookup :
    (h h' : Pool) (s s' : UnicodeString)
    → s'.buffer ≡ s.buffer
    → s'.maximum_length ≡ s.maximum_length
    → s'.length ≤ s.maximum_length
    → KeepsBytes h h'
    → Fits h s
    → Fits h' s'
Fits-lookup h h' s s' b m l k (_, n, has, room) = rw (b, m) (l, n, k s.buffer n has, room)

Fits-keeps : (h h' : Pool) (s : UnicodeString) → KeepsBytes h h' → Fits h s → Fits h' s
Fits-keeps h h' s k (l, n, has, room) = (l, n, k s.buffer n has, room)

grow-Fits :
    (al : Allocator) (size : ℕ) (s : UnicodeString) (h : Pool)
    → size ≤ 2 ^ 16 - 1
    → Fits h s
    → Yields (λ (status, s', new) h'. Fits h' s' × KeepsBytes h h') (grow al size s h)
unfolding grow allocate
grow-Fits al size s h small (l, n, has, room) = elim (Bool-cases (ltb s.maximum_length size)) [
  | inr t ↦ rw (t, if◌then◌else◌) ((l, n, has, room), λ p m x. x)
  | inl t ↦ elim (Bool-cases (al.address h size == 0)) [
    | inl z ↦ rw (t, if◌then◌else◌, ◌>>=◌, allocate, z) ((l, n, has, room), λ p m x. x)
    | inr nz ↦
        rw (t, if◌then◌else◌, ◌>>=◌, allocate, nz)
          (
            (
              ground (arith, t, l, small),
              size,
              (al.junk h size, ground arith, al.junk_size h size),
              ground (arith, small),
            ),
            λ p m (c, live, e). (c, ground (arith, live, al.address_new h size, nz), e),
          )
  ]
]

-- The account strings of a context: with room before the lookup, and readable after it.
abbrev pub IsPrepared : NotifyContext → Pool → Type 0
IsPrepared c h =
    ((c.account_lookup_done ≡ false) × Fits h c.account_name × Fits h c.account_domain)
    ⊎ ((c.account_lookup_done ≡ true) × IsReadable h c.account_name × IsReadable h c.account_domain)

module _ (sid : SidFunctions) (keeps : KeepsSizes sid) (al : Allocator) (c₀ : NotifyContext) where
  -- The account strings of a context can be read, and its image path is that of `c₀`.
  abbrev pub Readable : ℕ × NotifyContext → Pool → Type 0
  Readable (status, c) h =
      IsReadable h c.account_name
      × IsReadable h c.account_domain
      × (c.image_file_name ≡ c₀.image_file_name)
      × (c.account_lookup_done ≡ true)

  resolve_exit-Readable :
      (status : ℕ) (name domain : UnicodeString) (new_name new_domain : Bool) (h : Pool)
      → Fits h name
      → Fits h domain
      → Yields Readable (resolve_exit c₀ status name domain new_name new_domain h)
  unfolding resolve_exit
  resolve_exit-Readable status name domain new_name new_domain h a b =
      elim (Bool-cases (nt_success status)) [
        | inl t ↦ rw (t, if◌then◌else◌) (inr a, inr b, refl, refl)
        | inr t ↦
            rw (t, if◌then◌else◌)
              (Yields-bind (λ _ h'. Unit {0}) Readable (free_if new_name name.buffer) _ h
                (anything (free_if new_name name.buffer h))
                (λ _ h₁ _.
                  Yields-bind (λ _ h'. Unit {0}) Readable (free_if new_domain domain.buffer) _ h₁
                    (anything (free_if new_domain domain.buffer h₁))
                    (λ _ h₂ _. (inl refl, inl refl, refl, refl))))
      ]
    where
      anything : (o : Option (Unit {0} × Pool)) → Yields (λ _ h'. Unit {0}) o
      anything none = tt
      anything (some (a, s)) = tt

  resolve_again-Readable :
      (m : ℕ) (name : UnicodeString) (n : ℕ) (domain : UnicodeString) (h : Pool)
      → Fits h name
      → Fits h domain
      → Yields Readable (resolve_again sid al c₀ m name n domain h)
  unfolding resolve_again
  resolve_again-Readable m name n domain h a b =
      elim (Bool-cases (ltb (2 ^ 16 - 1) m || ltb (2 ^ 16 - 1) n)) [
        | inl t ↦ rw (t, if◌then◌else◌) (resolve_exit-Readable _ name domain false false h a b)
        | inr t ↦
            rw (t, if◌then◌else◌)
              (Yields-bind _ Readable (grow al m name) _ h
                (grow-Fits al m name h (ground (arith, t)) a)
                (λ (st₁, name₁, new_name) h₁ (a₁, k₁).
                  let b₁ : Fits h₁ domain = Fits-keeps h h₁ domain k₁ b in
                  elim (Bool-cases (not (nt_success st₁))) [
                    | inl bad ↦
                        rw (bad, if◌then◌else◌)
                          (resolve_exit-Readable st₁ name₁ domain new_name false h₁ a₁ b₁)
                    | inr ok ↦
                        rw (ok, if◌then◌else◌)
                          (Yields-bind _ Readable (grow al n domain) _ h₁
                            (grow-Fits al n domain h₁ (ground (arith, t)) b₁)
                            (λ (st₂, domain₂, new_domain) h₂ (b₂, k₂).
                              with_both st₂ name₁ domain₂ new_name new_domain h₂
                                (Fits-keeps h₁ h₂ name₁ k₂ a₁) b₂))
                  ]))
      ]
    where
      with_both :
          (st : ℕ) (name₁ domain₁ : UnicodeString) (new_name new_domain : Bool) (h₁ : Pool)
          → Fits h₁ name₁
          → Fits h₁ domain₁
          → Yields Readable (
              (if not (nt_success st)
                  then resolve_exit c₀ st name₁ domain₁ new_name new_domain
                  else do
                    (status, ns, name₃, ds, domain₃) ←
                        sid.lookup c₀.process_md.token_sid m name₁ n domain₁
                    resolve_exit c₀ status name₃ domain₃ new_name new_domain)
                h₁)
      with_both st name₁ domain₁ new_name new_domain h₁ a₁ b₁ =
          elim (Bool-cases (not (nt_success st))) [
            | inl bad ↦
                rw (bad, if◌then◌else◌)
                  (resolve_exit-Readable st name₁ domain₁ new_name new_domain h₁ a₁ b₁)
            | inr ok ↦
                rw (ok, if◌then◌else◌)
                  (Yields-bind _ Readable (sid.lookup c₀.process_md.token_sid m name₁ n domain₁) _
                    h₁ (keeps.keeps c₀.process_md.token_sid m name₁ n domain₁ h₁ a₁.0 b₁.0)
                    (λ (st', m', name₃, n', domain₃) h₂ (p, q, l, p', q', l', k).
                      resolve_exit-Readable st' name₃ domain₃ new_name new_domain h₂
                        (Fits-lookup h₁ h₂ name₁ name₃ p q l k a₁)
                        (Fits-lookup h₁ h₂ domain₁ domain₃ p' q' l' k b₁)))
          ]

  pub resolve_account-Readable :
      (h : Pool) → IsPrepared c₀ h → Yields Readable (resolve_account sid al c₀ h)
  unfolding resolve_account
  resolve_account-Readable h (inr (again, a, b)) = simp (again, if◌then◌else◌) (a, b, refl, refl)
  resolve_account-Readable h (inl (first, a, b)) =
      let md = c₀.process_md in
      elim (Bool-cases (md.token_sid_size == 0 || not (sid.valid md.token_sid))) [
        | inl t ↦
            simp (first, t, if◌then◌else◌)
              (resolve_exit-Readable status_unsuccessful c₀.account_name c₀.account_domain false
                false h a b)
        | inr t ↦
            simp (first, t, if◌then◌else◌)
              (Yields-bind _ Readable
                (sid.lookup md.token_sid c₀.account_name.maximum_length c₀.account_name
                  c₀.account_domain.maximum_length c₀.account_domain)
                _ h
                (keeps.keeps md.token_sid c₀.account_name.maximum_length c₀.account_name
                  c₀.account_domain.maximum_length c₀.account_domain h a.0 b.0)
                (λ (st, m, name, n, domain) h₁ (p, q, l, p', q', l', k).
                  let a₁ : Fits h₁ name = Fits-lookup h h₁ c₀.account_name name p q l k a in
                  let b₁ : Fits h₁ domain =
                    Fits-lookup h h₁ c₀.account_domain domain p' q' l' k b in
                  elim (Bool-cases (st == status_buffer_too_small)) [
                    | inl e ↦
                        rw (e, if◌then◌else◌) (resolve_again-Readable m name n domain h₁ a₁ b₁)
                    | inr e ↦
                        rw (e, if◌then◌else◌)
                          (resolve_exit-Readable st name domain false false h₁ a₁ b₁)
                  ]))
      ]
