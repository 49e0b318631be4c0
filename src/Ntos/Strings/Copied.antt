-- ===== src/Ntos/Strings/Copied.antt =====
-- What a deep copy of a string leaves in the pool.
use mathlib.Core.List.{◌++◌}
use ntosebpfext.Base.{
  ℕ, ◌+◌, ◌≡◌, ◌≢◌, ◌≤◌, refl, sym, subst, ap, ◌⊎◌, inl, inr, true, false, Option, some, List, [],
  ◌∷◌, arith, ◌==◌, ==_iff, if◌then◌else◌, length, take, drop, length-take, length-append,
  Bool-cases,
}
use ntosebpfext.Kernel.Status.{EbpfResult, success, no_memory, is_success}
use ntosebpfext.Kernel.Command.{Returns}
use ntosebpfext.Kernel.Pool.{Bytes, Pool, Allocator, Exhausted, write_block, allocate, write}
use ntosebpfext.Kernel.Pool.Owns.{Owns, allocate-Owns, write-Owns}
use ntosebpfext.Ntos.Types.{UnicodeString, null_string}
use ntosebpfext.Ntos.Strings.{deep_copy_unicode_string_from_data}

-- The blocks that are live stay as they are.
abbrev pub Keeps : Pool → Pool → Type 0
Keeps h h' = (q : ℕ) (c : Bytes) → h.block q ≡ some c → h'.block q ≡ some c

-- The string `s` stands for `bytes`.
pub record Holds (h : Pool) (s : UnicodeString) (bytes : Bytes) : Type 0 where
  pub size : s.length ≡ length bytes
  pub content :
      (s.length ≡ 0)
      ⊎ ((c : Bytes) × (s.buffer ≢ 0)
          × (h.block s.buffer ≡ some c)
          × (s.length ≤ length c)
          × (take s.length c ≡ bytes))

pub Holds-Keeps :
    {h h' : Pool} {s : UnicodeString} {bytes : Bytes}
    → Keeps h h'
    → Holds h s bytes
    → Holds h' s bytes
Holds-Keeps {s} k x = record {
  size = x.size;
  content = elim x.content [
    | inl e ↦ inl e
    | inr (c, ne, live, fits, e) ↦ inr (c, ne, k s.buffer c live, fits, e)
  ];
}

-- The code of a failure, which stands for a request that was not met.
abbrev pub Failed : Allocator → EbpfResult → Type 0
Failed al r = (r ≡ no_memory) × Exhausted al

pub record Copied (al : Allocator) (f : ℕ → Option Bytes) (h : Pool) (ps : List ℕ)
    (src : UnicodeString) (rest : Bytes) (r : EbpfResult × UnicodeString × Bytes) (h' : Pool)
    : Type 0 where
  pub owns : Owns f h' (r.1.buffer ∷ ps)
  pub keeps : Keeps h h'
  pub copied :
      is_success r.0 ≡ true → Holds h' r.1 (take src.length rest) × (r.2 ≡ drop src.length rest)
  pub failed : is_success r.0 ≡ false → Failed al r.0

pub Owns-null : {f : ℕ → Option Bytes} {h : Pool} {ps : List ℕ} → Owns f h ps → Owns f h (0 ∷ ps)
Owns-null o = record {
  ours = (refl, o.ours);
  apart = (refl, o.apart);
  frame = λ b e. o.frame b (ground (arith, e));
}

take-append_exact : (a b : Bytes) (n : ℕ) → n ≡ length a → take n (a ++ b) ≡ a
take-append_exact [] b n e = rw e
take-append_exact (x ∷ a) b n e = rw e (ap (λ t. x ∷ t) (take-append_exact a b (length a) refl))

module _ (f : ℕ → Option Bytes) (al : Allocator) (h : Pool) (ps : List ℕ) (dest src : UnicodeString)
    (rest : Bytes) (o : Owns f h ps) (fits : src.length ≤ src.maximum_length)
    (enough : src.length ≤ length rest) where
  abbrev p : ℕ
  p = al.address h src.maximum_length

  abbrev grown : Pool
  grown = record {
    block = if p == 0 then h.block else write_block h.block p (some (al.junk h src.maximum_length));
    requests = h.requests + 1;
  }

  grown-Keeps : Keeps h grown
  grown-Keeps q c e = ground (arith, al.address_new h src.maximum_length, e)

  grown-Owns : Owns f grown (p ∷ ps)
  unfolding allocate
  grown-Owns = (allocate-Owns f h ps o al src.maximum_length).1

  abbrev part : Bytes
  part = take src.length rest

  length-part : length part ≡ src.length
  length-part = omega (arith, length-take src.length rest)

  abbrev content : Bytes
  content = part ++ drop (length part) (al.junk h src.maximum_length)

  abbrev written : Pool
  written = record grown { block = write_block grown.block p (some content) }

  module _ (new : (p == 0) ≡ false) where
    grown_live : grown.block p ≡ some (al.junk h src.maximum_length)
    grown_live = ground arith

    write-part : (write p part grown ≡ some (tt, written)) × Owns f written (p ∷ ps)
    write-part =
        write-Owns f grown p part (al.junk h src.maximum_length) (p ∷ ps) grown-Owns
          (ground (arith, new)) grown_live
          (omega (arith, length-part, al.junk_size h src.maximum_length))

    full_copy :
        (src.length == 0) ≡ false
        → deep_copy_unicode_string_from_data al dest src rest h
          ≡ some (
            (
              success,
              record { length = src.length; maximum_length = src.maximum_length; buffer = p },
              drop src.length rest,
            ),
            written,
          )
    unfolding deep_copy_unicode_string_from_data allocate
    full_copy nz = ground (arith, nz, new, write-part.0)

    written-Keeps : Keeps h written
    written-Keeps q c e = ground (arith, al.address_new h src.maximum_length, e, new)

    part_held :
        Holds written
          (record { length = src.length; maximum_length = src.maximum_length; buffer = p })
          part
    part_held = record {
      size = sym length-part;
      content = inr (
        content,
        ground (arith, new),
        ground arith,
        omega (
          arith,
          length-part,
          length-append part (drop (length part) (al.junk h src.maximum_length)),
        ),
        take-append_exact part (drop (length part) (al.junk h src.maximum_length)) src.length
            (sym length-part),
      );
    }

  empty_copy :
      (src.length == 0) ≡ true
      → deep_copy_unicode_string_from_data al dest src rest h
        ≡ some ((success, null_string, rest), h)
  unfolding deep_copy_unicode_string_from_data
  empty_copy z = rw z

  failed_copy :
      (src.length == 0) ≡ false
      → (p == 0) ≡ true
      → deep_copy_unicode_string_from_data al dest src rest h
        ≡ some ((no_memory, record dest { buffer = 0 }, rest), grown)
  unfolding deep_copy_unicode_string_from_data allocate
  failed_copy nz z = rw (nz, z)

  pub deep_copy-Copied :
      Returns (Copied al f h ps src rest) (deep_copy_unicode_string_from_data al dest src rest h)
  deep_copy-Copied = elim (Bool-cases (src.length == 0)) [
    | inl z ↦ rw (empty_copy z) (record {
      owns = Owns-null o;
      keeps = λ q c e. e;
      copied =
          λ _. rw ((==_iff src.length 0).0 z) (record { size = refl; content = inl refl }, refl);
      failed = λ e. cc;
    })
    | inr nz ↦ elim (Bool-cases (p == 0)) [
      | inl z ↦ rw (failed_copy nz z) (record {
        owns = subst (λ q. Owns f grown (q ∷ ps)) ((==_iff p 0).0 z) grown-Owns;
        keeps = grown-Keeps;
        copied = λ e. cc;
        failed = λ _. (refl, (h, src.maximum_length, (==_iff p 0).0 z));
      })
      | inr new ↦ rw (full_copy new nz) (record {
        owns = (write-part new).1;
        keeps = written-Keeps new;
        copied = λ _. (part_held new, refl);
        failed = λ e. cc;
      })
    ]
  ]
