-- ===== src/HookProvider/Inv/Parameters.antt =====
-- The check of an attach parameter against an abstract description of it: which parameters the attached clients
-- leave to a new one.
use ntosebpfext.Base.{
  ℕ, zero, suc, ◌<◌, ◌≡◌, ◌≢◌, refl, sym, ap, ◌∙◌, ◌⊎◌, inl, inr, true, false, some, List, [], ◌∷◌,
  ◌++◌, arith, ◌==◌, if◌then◌else◌, length, All, All_of_mem, ◌∈◌, ◌∉◌, head?, Bool-cases,
}
use ntosebpfext.Kernel.Status.{EbpfResult, success, access_denied}
use ntosebpfext.Kernel.Command.{pure, ◌>>=◌, Returns, Returns-mono}
use ntosebpfext.HookProvider.Links.Ring.{
  IsRing, is_list_empty-nil, is_list_empty-cons, next?, to_entry, flink-next, flink-head,
}
use ntosebpfext.HookProvider.Links.{is_list_empty}
use ntosebpfext.HookProvider.State.{ExtensionData, HookClient, HookProvider, Sys}
use ntosebpfext.HookProvider.Query.{
  memcmp_eq, parameter_of, compare_bytes, conflicts, check_loop, check_attach_parameter,
}
use ntosebpfext.HookProvider.Inv.{IsAttached}
use ntosebpfext.HookProvider.Calls.Verdict.{next?-split, split-Distinct, split_again, mem-middle}

memcmp_eq-equal :
    (n : ℕ) (a b : List ℕ)
    → length a ≡ n
    → length b ≡ n
    → ((memcmp_eq n a b ≡ some true) × (a ≡ b)) ⊎ ((memcmp_eq n a b ≡ some false) × (a ≢ b))
unfolding memcmp_eq
memcmp_eq-equal zero [] [] la lb = inl (refl, refl)
memcmp_eq-equal zero [] (y ∷ b) la lb = absurd (omega (arith, lb))
memcmp_eq-equal zero (x ∷ a) b la lb = absurd (omega (arith, la))
memcmp_eq-equal (suc n) [] b la lb = absurd (omega (arith, la))
memcmp_eq-equal (suc n) (x ∷ a) [] la lb = absurd (omega (arith, lb))
memcmp_eq-equal (suc n) (x ∷ a) (y ∷ b) la lb = elim (Bool-cases (x == y)) [
  | inl t ↦
      let same : x ≡ y = ground (arith, t) in
      elim (memcmp_eq-equal n a b (omega (arith, la)) (omega (arith, lb))) [
        | inl (run, e) ↦ rw (t, if◌then◌else◌) (inl (run, cc))
        | inr (run, ne) ↦ rw (t, if◌then◌else◌) (inr (run, λ e. ne cc))
      ]
  | inr t ↦ rw (t, if◌then◌else◌) (inr (refl, λ e. ground (arith, t, e)))
]

module _ (parameter wild_card : List ℕ) (parameters : ℕ → List ℕ) where
  -- A client that stands in the way of no other parameter but its own.
  abbrev pub LeavesRoom : ℕ → Type 0
  LeavesRoom x = (parameters x ≢ wild_card) × (parameters x ≢ parameter)

  -- The wild card wants to be alone; any other parameter wants neither the wild card nor itself.
  abbrev pub Admits : List ℕ → Type 0
  Admits xs = ((parameter ≡ wild_card) × (xs ≡ [])) ⊎ ((parameter ≢ wild_card) × All LeavesRoom xs)

module _ {E C R : Type 0} (n : ℕ) (parameter wild_card : List ℕ) (parameters : ℕ → List ℕ) where
  -- A live client with attach data whose parameter has the size that is compared.
  abbrev pub HasParameter : Sys E C R → ℕ → Type 0
  HasParameter s x =
      (c : HookClient C R) × (d : ExtensionData) × (s.client x ≡ some c)
      × (c.client_data ≡ some d)
      × (parameter_of wild_card d ≡ parameters x)
      × (length (parameters x) ≡ n)

  -- The answer tells whether the clients admit the parameter, and the state is as before.
  abbrev pub Answered : Sys E C R → Type 0 → EbpfResult → Sys E C R → Type 0
  Answered s Admitted r t =
      (t ≡ s) × (((r ≡ success) × Admitted) ⊎ ((r ≡ access_denied) × ¬ Admitted))

  module _ (small : length parameter ≡ n) (small_wild : length wild_card ≡ n) where
    conflicts_run :
        (s : Sys E C R) (x : ℕ)
        → HasParameter s x
        → ((conflicts n parameter wild_card x s ≡ some (false, s))
            × LeavesRoom parameter wild_card parameters x)
          ⊎ ((conflicts n parameter wild_card x s ≡ some (true, s))
              × (¬ LeavesRoom parameter wild_card parameters x))
    unfolding conflicts
    conflicts_run s x (c, d, live, given, p, size) =
        elim (memcmp_eq-equal n wild_card (parameters x) small_wild size) [
          | inl (run, e) ↦ inr (rw (◌>>=◌, live, given, p, run) refl, λ (k, _). k (sym e))
          | inr (run, ne) ↦ elim (memcmp_eq-equal n parameter (parameters x) small size) [
            | inl (run', e) ↦ inr (
              rw (◌>>=◌, live, given, p, run, if◌then◌else◌, compare_bytes, p, run') refl,
              λ (_, k). k (sym e),
            )
            | inr (run', ne') ↦ inl (
              rw (◌>>=◌, live, given, p, run, if◌then◌else◌, compare_bytes, p, run') refl,
              (λ e. ne (sym e), λ e. ne' (sym e)),
            )
          ]
        ]

    check_from :
        (s : Sys E C R) (provider : ℕ) (h : HookProvider E C R) (xs ys zs : List ℕ) (fuel : ℕ)
        → IsAttached s provider h xs
        → All (HasParameter s) xs
        → xs ≡ ys ++ zs
        → length zs < fuel
        → Returns
            (Answered s (All (LeavesRoom parameter wild_card parameters) zs))
            (check_loop fuel n parameter wild_card provider (to_entry provider (head? zs)) s)
    unfolding check_loop
    check_from s provider h xs ys zs zero inv ps e enough = absurd (omega (arith, enough))
    check_from s provider h xs ys [] (suc fuel) inv ps e enough =
        let here : (provider == provider) ≡ true = ground arith in
        rw (here, if◌then◌else◌) (refl, inl (refl, tt))
    check_from s provider h xs ys (x ∷ zs) (suc fuel) inv ps e enough =
        let member : x ∈ xs = rw e (mem-middle x ys zs) in
        let away : (x == provider) ≡ false = ne_head xs x inv.ring.distinct.0 member in
        let (before, behind) = split-Distinct x ys zs (rw e at inv.ring.distinct.1) in
        let following : next? x xs ≡ head? zs = rw e (next?-split x ys zs before) in
        let forward : s.links.flink x ≡ to_entry provider (head? zs) =
          flink-next x inv.ring member ∙ ap (to_entry provider) following in
        elim (conflicts_run s x (All_of_mem (HasParameter s) x xs ps member)) [
          | inl (run, room) ↦
              rw (away, if◌then◌else◌, ◌>>=◌, run, forward)
                (Returns-mono (Answered s (All (LeavesRoom parameter wild_card parameters) zs)) _ _
                  (check_from s provider h xs (ys ++ x ∷ []) zs fuel inv ps
                    (e ∙ split_again x ys zs) (omega (arith, enough)))
                  (λ r t (same, answer). (
                    same,
                    elim answer [
                      | inl (granted, k) ↦ inl (granted, (room, k))
                      | inr (denied, k) ↦ inr (denied, λ (_, q). k q)
                    ],
                  )))
          | inr (run, full) ↦
              rw (away, if◌then◌else◌, ◌>>=◌, run) (refl, inr (refl, λ (k, _). full k))
        ]
      where
        ne_head : (us : List ℕ) (y : ℕ) → provider ∉ us → y ∈ us → (y == provider) ≡ false
        ne_head [] y k m = cc
        ne_head (u ∷ us) y k m = ground (arith, ne_head us y)

    -- For a provider whose ring holds `xs`, if the attach data of each of them and the two arguments have the size
    -- that is compared, then with fuel beyond their number the check of an attach parameter ends without a fault
    -- and changes nothing. It grants the parameter exactly if there is no client, or it is not the wild card and
    -- no client has it or the wild card; else it denies access.
    pub check_attach_parameter-Answered :
        (s : Sys E C R) (provider : ℕ) (h : HookProvider E C R) (xs : List ℕ) (fuel : ℕ)
        → IsAttached s provider h xs
        → All (HasParameter s) xs
        → length xs < fuel
        → Returns
            (Answered s (Admits parameter wild_card parameters xs))
            (check_attach_parameter fuel n parameter wild_card provider s)
    unfolding check_attach_parameter
    check_attach_parameter-Answered s provider h xs fuel inv ps enough =
        elim (memcmp_eq-equal n parameter wild_card small small_wild) [
          | inl (run, e) ↦ rw (◌>>=◌, run, inv.holds, if◌then◌else◌) (alone xs inv.ring e)
          | inr (run, ne) ↦
              rw (◌>>=◌, run, inv.holds, if◌then◌else◌, flink-head inv.ring)
                (Returns-mono (Answered s (All (LeavesRoom parameter wild_card parameters) xs)) _ _
                  (check_from s provider h xs [] xs fuel inv ps refl enough)
                  (λ r t (same, answer). (
                    same,
                    elim answer [
                      | inl (granted, k) ↦ inl (granted, inr (ne, k))
                      | inr (denied, k) ↦
                          inr (denied, λ q. elim q [ inl (w, _) ↦ ne w | inr (_, k') ↦ k k' ])
                    ],
                  )))
        ]
      where
        alone :
            (us : List ℕ)
            → IsRing s.links provider us
            → parameter ≡ wild_card
            → Returns
                (Answered s (Admits parameter wild_card parameters us))
                ((if is_list_empty provider s.links then pure success else pure access_denied) s)
        alone [] ring e =
            rw (is_list_empty-nil provider ring, if◌then◌else◌) (refl, inl (refl, inl (e, refl)))
        alone (u ∷ us) ring e =
            rw (is_list_empty-cons provider u us ring, if◌then◌else◌)
              (refl, inr (refl, λ q. elim q [ inl (_, k) ↦ cc | inr (k, _) ↦ k e ]))
