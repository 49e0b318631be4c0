-- ===== src/Ntos/Context/Ownership.antt =====
-- The life of a context: what its creation makes, its destruction gives back.
use mathlib.Core.List.{◌++◌}
use ntosebpfext.Base.{
  ℕ, ◌≡◌, refl, sym, subst, Bool, false, ◌&&◌, Option, none, some, List, [], ◌∷◌, leb, ◌==◌,
  if◌then◌else◌,
}
use ntosebpfext.Kernel.Command.{Cmd, pure, ◌>>=◌, ◌>>◌, Returns, Returns-bind, Returns-mono}
use ntosebpfext.Kernel.Pool.{Bytes, Pool, free_unless_null, free}
use ntosebpfext.Kernel.Pool.Owns.{Owns, Owns-move, free-Owns, block_of_nothing}
use ntosebpfext.Ntos.Types.{NotifyContext, TestContext}
use ntosebpfext.Ntos.Strings.Copied.{Holds}
use ntosebpfext.Ntos.Context.{
  total_length, create_exit, context_for_caller, replaced, destroy_frees, context_destroy,
}
use ntosebpfext.Ntos.Context.Copies.{buffers}
use ntosebpfext.Ntos.Context.Packed.{pack_strings_lem}

-- The pointers that the destruction of a context frees, in its order.
abbrev pub pointers : ℕ → TestContext → List ℕ
pointers p t =
    t.base.command_line.buffer
    ∷ t.base.image_file_name.buffer
    ∷ replaced t.account_name_initial_buffer t.base.account_name.buffer
    ∷ replaced t.account_domain_initial_buffer t.base.account_domain.buffer
    ∷ t.base.account_name.buffer
    ∷ t.base.account_domain.buffer
    ∷ p
    ∷ []

-- A context at `p` in the pool `h`, in the memory `f` that was there before.
pub record IsContext (f : ℕ → Option Bytes) (h : Pool) (p : ℕ) (t : TestContext)
    (line image name domain : Bytes) : Type 0 where
  pub owns : Owns f h (pointers p t)
  pub command_line : Holds h t.base.command_line line
  pub image_file_name : Holds h t.base.image_file_name image
  pub account_name : Holds h t.base.account_name name
  pub account_domain : Holds h t.base.account_domain domain

-- Freeing one owned pointer and going on.
free_then :
    (f : ℕ → Option Bytes) (h : Pool) (p : ℕ) (ps : List ℕ) (rest : Cmd Pool (Unit {0}))
    (Q : Unit {0} → Pool → Type 0)
    → Owns f h (p ∷ ps)
    → ((h' : Pool) → Owns f h' ps → Returns Q (rest h'))
    → Returns Q ((free_unless_null p >> rest) h)
free_then f h p ps rest Q o next =
    Returns-bind _ Q (free_unless_null p) _ h (free-Owns f h p ps o) (λ _ h' o'. next h' o')

pub free-last :
    (f : ℕ → Option Bytes) (h : Pool) (p : ℕ)
    → (p == 0) ≡ false
    → Owns f h (p ∷ [])
    → Returns (λ _ h'. (b : ℕ) → h'.block b ≡ f b) (free p h)
unfolding free_unless_null
free-last f h p nz o =
    Returns-mono _ _ (free p h) (freed (free-Owns f h p [] o)) (λ _ h' o'. block_of_nothing o')
  where
    freed :
        Returns (λ _ h'. Owns f h' []) (free_unless_null p h)
        → Returns (λ _ h'. Owns f h' []) (free p h)
    freed =
        subst
          (λ b.
            Returns (λ _ h'. Owns f h' []) ((if b then pure tt else free p) h)
            → Returns (λ _ h'. Owns f h' []) (free p h))
          (sym nz) (λ r. r)

-- What the destruction of `t` hands to the caller, and the memory it leaves.
abbrev pub Destroyed :
    (f : ℕ → Option Bytes) (context_size data_size_out context_size_out : ℕ)
    (data_out context_out : Bool) (t : TestContext) (line image name domain : Bytes)
    → Option (Option NotifyContext × Option Bytes)
    → Pool
    → Type 0
Destroyed f context_size data_size_out context_size_out data_out context_out t line image name
      domain out h' =
    (out
      ≡ some (
        if context_out && leb context_size context_size_out
            then some (context_for_caller t.base)
            else none,
        if data_out && leb (total_length t.base) data_size_out
            then some (line ++ (image ++ (name ++ domain)))
            else none,
      ))
    × ((b : ℕ) → h'.block b ≡ f b)

module _ (f : ℕ → Option Bytes) (h : Pool) (p : ℕ) (nz : (p == 0) ≡ false) where
  -- The frees of the destruction give back all that a context owns.
  pub destroy_frees-Owns :
      (t : TestContext)
      → Owns f h (pointers p t)
      → Returns (λ _ h'. (b : ℕ) → h'.block b ≡ f b) (destroy_frees p t h)
  unfolding destroy_frees
  destroy_frees-Owns t o = free_then f h _ _ _ _ o λ h₁ o₁. free_then f h₁ _ _ _ _ o₁ λ h₂ o₂.
      free_then f h₂ _ _ _ _ o₂ λ h₃ o₃. free_then f h₃ _ _ _ _ o₃ λ h₄ o₄.
        free_then f h₄ _ _ _ _ o₄ λ h₅ o₅. free_then f h₅ _ _ _ _ o₅ λ h₆ o₆. free-last f h₆ p nz o₆

  -- So do the frees at the label `Exit` of the creation.
  pub create_exit-Owns :
      (c : NotifyContext)
      → Owns f h (buffers c ++ p ∷ [])
      → Returns (λ _ h'. (b : ℕ) → h'.block b ≡ f b) (create_exit p c h)
  unfolding create_exit
  create_exit-Owns c o = free_then f h _ _ _ _ (in_order o) λ h₁ o₁.
      free_then f h₁ _ _ _ _ o₁ λ h₂ o₂.
        free_then f h₂ _ _ _ _ o₂ λ h₃ o₃. free_then f h₃ _ _ _ _ o₃ λ h₄ o₄. free-last f h₄ p nz o₄
    where
      domain : ℕ
      domain = c.account_domain.buffer

      name : ℕ
      name = c.account_name.buffer

      image : ℕ
      image = c.image_file_name.buffer

      line : ℕ
      line = c.command_line.buffer

      in_order : Owns f h (buffers c ++ p ∷ []) → Owns f h (line ∷ image ∷ name ∷ domain ∷ p ∷ [])
      in_order w = Owns-move line (image ∷ name ∷ domain ∷ []) (p ∷ []) (
          Owns-move image (name ∷ domain ∷ []) (line ∷ p ∷ [])
            (Owns-move name (domain ∷ []) (image ∷ line ∷ p ∷ []) w))

  -- The destruction of a context at an address that is not NULL does not fault, frees all blocks that belong to
  -- the context and no other, and hands out the context with the pointers of its metadata and of its strings reset, and the
  -- bytes of the four strings, each if the caller's buffer is large enough. The pointers `process` and
  -- `create_info` stay in it.
  pub context_destroy-IsContext :
      (t : TestContext) (line image name domain : Bytes)
      → IsContext f h p t line image name domain
      → (context_size data_size_out context_size_out : ℕ) (data_out context_out : Bool)
      → Returns
          (Destroyed f context_size data_size_out context_size_out data_out context_out t line image
            name domain)
          (context_destroy context_size
            (some (p, t))
            data_out
            data_size_out
            context_out
            context_size_out
            h)
  unfolding context_destroy
  context_destroy-IsContext t line image name domain x context_size data_size_out context_size_out
        data_out context_out =
      rw
        (
          ◌>>=◌,
          pack_strings_lem h t.base line image name domain x.command_line x.image_file_name
              x.account_name x.account_domain data_out data_size_out,
        )
        (Returns-bind _ _ (destroy_frees p t) _ h (destroy_frees-Owns t x.owns)
          (λ _ h' e. (refl, e)))
