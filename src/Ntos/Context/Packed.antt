-- ===== src/Ntos/Context/Packed.antt =====
-- What the destruction of a context writes to the caller's data.
use mathlib.Core.List.{◌++◌}
use ntosebpfext.Base.{
  ℕ, ◌+◌, ◌≡◌, refl, sym, ◌∙◌, inl, inr, Bool, ◌&&◌, none, some, [], ◌∷◌, arith, ltb, leb, le→leb,
  if◌then◌else◌, length, take, drop, Bool-cases, zero, suc,
}
use ntosebpfext.Kernel.Command.{◌>>=◌}
use ntosebpfext.Kernel.Pool.{Bytes, Pool, read}
use ntosebpfext.Ntos.Types.{UnicodeString, NotifyContext}
use ntosebpfext.Ntos.Strings.Copied.{Holds}
use ntosebpfext.Ntos.Context.{pack, pack_strings, total_length}

plus_suc : (a b : ℕ) → suc a + b ≡ suc (a + b)
plus_suc a b = omega arith

pub take-add : (a b : ℕ) (xs : Bytes) → take (a + b) xs ≡ take a xs ++ take b (drop a xs)
take-add zero b xs = ground arith
take-add (suc a) b [] = ground (arith, take-nil b, take-nil (suc a + b))
  where
    take-nil : (n : ℕ) → take {A = ℕ} n [] ≡ []
    take-nil zero = refl
    take-nil (suc n) = refl
take-add (suc a) b (x ∷ xs) = ground (arith, take-add a b xs, plus_suc a b)

nil_of_length : (bytes : Bytes) → length bytes ≡ 0 → bytes ≡ []
nil_of_length [] e = refl
nil_of_length (x ∷ xs) e = absurd (omega (arith, e))

-- A string that stands for some bytes is packed as those.
pub pack-Holds :
    (h : Pool) (s : UnicodeString) (bytes : Bytes) → Holds h s bytes → pack s h ≡ some (bytes, h)
unfolding read
pack-Holds h s bytes x = elim x.content [
  | inl z ↦ ground (arith, z, nil_of_length bytes (sym x.size ∙ z))
  | inr (c, ne, live, fits, e) ↦ elim (Bool-cases (ltb 0 s.length)) [
    | inl pos ↦ ground (arith, pos, ne, live, le→leb s.length (length c) fits, e)
    | inr z ↦ ground (arith, z, nil_of_length bytes (sym x.size ∙ ground (arith, z)))
  ]
]

module _ (h : Pool) (c : NotifyContext) (line image name domain : Bytes)
    (l : Holds h c.command_line line) (i : Holds h c.image_file_name image)
    (n : Holds h c.account_name name) (d : Holds h c.account_domain domain) where
  -- The output is the bytes of the four strings, if it is wanted and large enough.
  pub pack_strings_lem :
      (data_out : Bool) (size : ℕ)
      → pack_strings c data_out size h
        ≡ some (
          if data_out && leb (total_length c) size
              then some (line ++ (image ++ (name ++ domain)))
              else none,
          h,
        )
  unfolding pack_strings
  pack_strings_lem data_out size = elim (Bool-cases (data_out && leb (total_length c) size)) [
    | inl t ↦
        rw
          (
            t,
            if◌then◌else◌,
            ◌>>=◌,
            pack-Holds h c.command_line line l,
            pack-Holds h c.image_file_name image i,
            pack-Holds h c.account_name name n,
            pack-Holds h c.account_domain domain d,
          )
          refl
    | inr t ↦ rw (t, if◌then◌else◌) refl
  ]
