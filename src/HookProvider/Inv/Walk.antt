-- ===== src/HookProvider/Inv/Walk.antt =====
-- The walk over the attached clients meets each of them once, in the order of attachment.
use ntosebpfext.Base.{
  ℕ, ◌≡◌, false, some, List, [], ◌∷◌, arith, ◌==◌, All_of_mem, ◌∈◌, ◌∉◌, head?, Option-cases, inl,
  inr,
}
use ntosebpfext.HookProvider.Links.Ring.{
  is_list_empty-nil, is_list_empty-cons, next?, to_entry, flink-next, flink-head,
}
use ntosebpfext.HookProvider.State.{HookProvider, Sys}
use ntosebpfext.HookProvider.Query.{get_attached_client, get_next_attached_client}
use ntosebpfext.HookProvider.Inv.{IsClient, IsAttached}

module _ {E C R : Type 0} (s : Sys E C R) (provider : ℕ) (h : HookProvider E C R) where
  -- For a provider whose ring holds `xs`, the client after NULL is the first of `xs`, or NULL if there is none.
  pub get_next-first :
      (xs : List ℕ)
      → IsAttached s provider h xs
      → get_next_attached_client provider 0 s ≡ some (to_entry 0 (head? xs), s)
  unfolding get_next_attached_client
  get_next-first [] inv = ground (arith, inv.holds, is_list_empty-nil provider inv.ring)
  get_next-first (x ∷ xs) inv =
      ground (arith, inv.holds, is_list_empty-cons provider x xs inv.ring, flink-head inv.ring)

  -- For a provider whose ring holds `xs`, the attached client is the first of `xs`, or NULL if there is none.
  pub get_attached-first :
      (xs : List ℕ)
      → IsAttached s provider h xs
      → get_attached_client provider s ≡ some (to_entry 0 (head? xs), s)
  unfolding get_attached_client
  get_attached-first [] inv = ground (arith, inv.holds, is_list_empty-nil provider inv.ring)
  get_attached-first (x ∷ xs) inv =
      ground (arith, inv.holds, is_list_empty-cons provider x xs inv.ring, flink-head inv.ring)

  next-mem : (a : ℕ) (xs : List ℕ) (y : ℕ) → next? a xs ≡ some y → y ∈ xs
  next-mem a [] y e = cc
  next-mem a (x ∷ []) y e = ground arith
  next-mem a (x ∷ z ∷ xs) y e = ground (arith, next-mem a (z ∷ xs) y)

  ne_of_mem : (xs : List ℕ) (y : ℕ) → provider ∉ xs → y ∈ xs → (y == provider) ≡ false
  ne_of_mem [] y n m = cc
  ne_of_mem (x ∷ xs) y n m = ground (arith, ne_of_mem xs y)

  -- For a provider whose ring holds `xs`, the client after the member `x` is the one behind it in `xs`, or NULL
  -- behind the last one.
  pub get_next-next :
      (xs : List ℕ) (x : ℕ)
      → IsAttached s provider h xs
      → x ∈ xs
      → get_next_attached_client provider x s ≡ some (to_entry 0 (next? x xs), s)
  unfolding get_next_attached_client
  get_next-next xs x inv m =
      let (ne, c, live, _, _) = All_of_mem (IsClient s provider) x xs inv.clients m in
      elim (Option-cases (next? x xs)) [
        | inl e ↦ rw e (ground (arith, inv.holds, live, flink-next x inv.ring m, e))
        | inr (y, e) ↦ rw e (
            ground (
              arith,
              inv.holds,
              live,
              flink-next x inv.ring m,
              ne_of_mem xs y inv.ring.distinct.0 (next-mem x xs y e),
            ))
      ]
