-- ===== src/HookProvider/Lifecycle.antt =====
-- The life of a provider as NMR drives it: clients attach and detach in any order. NMR keeps the
-- binding contexts that it was given, and detaches only those.
use ntosebpfext.Base.{
  ℕ, ◌+◌, ◌^◌, ◌<◌, ◌≡◌, refl, inl, inr, true, false, none, some, List, [], ◌∷◌, ◌++◌, arith,
  length, length-append, length-erase, ◌∈◌, erase,
}
use ntosebpfext.Kernel.Status.{is_success, nt_success}
use ntosebpfext.Kernel.Command.{of_Returns}
use ntosebpfext.HookProvider.State.{Rundown, HookClient, HookProvider, Sys}
use ntosebpfext.HookProvider.Attach.{AttachArgs, AttachReply, attach_client}
use ntosebpfext.HookProvider.Detach.{detach_client}
use ntosebpfext.HookProvider.Inv.{IsAttached}
use ntosebpfext.HookProvider.Inv.Attached.{
  IsFresh, Accepted, Rejected, Refused, attach_client-Outcome,
}
use ntosebpfext.HookProvider.Inv.Detached.{Detached, detach_client-Detached}

-- What the callbacks of an extension promise of a number that its state keeps: `Counts e n` says that
-- `e` counts `n` clients.
pub record IsCounter {E C R : Type 0} (h : HookProvider E C R) (Counts : E → ℕ → Type 0)
    : Type 0 where
  pub agrees :
      (c : HookClient C R) (provider : ℕ) (e : E) (n : ℕ)
      → Counts e n
      → n + 1 < 2 ^ 64
      → is_success (h.attach_callback c provider e).0 ≡ true
      → Counts (h.attach_callback c provider e).1 (n + 1)
  pub refuses :
      (c : HookClient C R) (provider : ℕ) (e : E) (n : ℕ)
      → Counts e n
      → is_success (h.attach_callback c provider e).0 ≡ false
      → Counts (h.attach_callback c provider e).1 n
  pub detaches :
      (c : HookClient C R) (e : E) (n : ℕ)
      → Counts e (n + 1)
      → n + 1 < 2 ^ 64
      → Counts (h.detach_callback c e) n

-- The binding contexts that NMR keeps after an attach.
abbrev pub bind : AttachReply → List ℕ → List ℕ
bind (status, none, _) xs = xs
bind (status, some p, _) xs = elim (nt_success status) [ true ↦ xs ++ p ∷ [] | false ↦ xs ]

bind-rejected : (r : AttachReply) (xs : List ℕ) → nt_success r.0 ≡ false → bind r xs ≡ xs
bind-rejected (status, none, _) xs h = refl
bind-rejected (status, some p, _) xs h = ground arith

module _ {E C R : Type 0} (rd : Rundown R) (provider : ℕ) where
  pub data Step (s : Sys E C R) (xs : List ℕ) (s' : Sys E C R) (ys : List ℕ) : Type 0 where
    attach :
        (block item : ℕ) (a : AttachArgs C) (r : AttachReply)
        → a.provider_context ≡ provider
        → IsFresh s provider block item
        → length xs + 1 < 2 ^ 64
        → attach_client rd block item a s ≡ some (r, s')
        → ys ≡ bind r xs
        → Step s xs s' ys
    detach :
        (x status : ℕ)
        → x ∈ xs
        → detach_client x s ≡ some (status, s')
        → ys ≡ erase x xs
        → Step s xs s' ys

  pub data Reach (s : Sys E C R) (xs : List ℕ) : Sys E C R → List ℕ → Type 0 where
    here : Reach s xs s xs
    next : {t u : Sys E C R} {ys zs : List ℕ} → Reach s xs t ys → Step t ys u zs → Reach s xs u zs

-- The ring holds the clients that NMR keeps, and the extension counts them.
pub record IsTracked {E C R : Type 0} (provider : ℕ) (h : HookProvider E C R)
    (Counts : E → ℕ → Type 0) (s : Sys E C R) (xs : List ℕ) : Type 0 where
  pub attached : IsAttached s provider h xs
  pub counted : Counts s.ext (length xs)
  pub small : length xs < 2 ^ 64

module _ {E C R : Type 0} (rd : Rundown R) (provider : ℕ) (h : HookProvider E C R)
    (Counts : E → ℕ → Type 0) (counter : IsCounter h Counts) where
  Accepted-IsTracked :
      (s s' : Sys E C R) (xs : List ℕ) (block : ℕ) (r : AttachReply)
      → IsTracked provider h Counts s xs
      → length xs + 1 < 2 ^ 64
      → Accepted s provider h xs block r s'
      → IsTracked provider h Counts s' (bind r xs)
  Accepted-IsTracked s s' xs block r t small (e, inv, (c, ok, ext)) =
      let more : length (xs ++ block ∷ []) ≡ length xs + 1 =
        omega (arith, length-append xs (block ∷ [])) in
      rw e (record {
        attached = inv;
        counted = rw (more, ext) (counter.agrees c provider s.ext (length xs) t.counted small ok);
        small = omega (arith, more);
      })

  Refused-Counts :
      (s s' : Sys E C R) (n : ℕ) → Counts s.ext n → Refused s provider h s' → Counts s'.ext n
  Refused-Counts s s' n k (inl e) = rw e k
  Refused-Counts s s' n k (inr (c, bad, e)) = rw e (counter.refuses c provider s.ext n k bad)

  Rejected-IsTracked :
      (s s' : Sys E C R) (xs : List ℕ) (r : AttachReply)
      → IsTracked provider h Counts s xs
      → Rejected s provider h xs r s'
      → IsTracked provider h Counts s' (bind r xs)
  Rejected-IsTracked s s' xs r t (bad, _, links, client, items, providers, ext) =
      rw (bind-rejected r xs bad) (record {
        attached = record {
          ne_null = t.attached.ne_null;
          holds = rw providers t.attached.holds;
          ring = rw links t.attached.ring;
          clients = rw (client, items) t.attached.clients;
        };
        counted = Refused-Counts s s' (length xs) t.counted ext;
        small = t.small;
      })

  Detached-IsTracked :
      (s s' : Sys E C R) (xs : List ℕ) (x status : ℕ)
      → IsTracked provider h Counts s xs
      → x ∈ xs
      → Detached s provider h xs x status s'
      → IsTracked provider h Counts s' (erase x xs)
  Detached-IsTracked s s' xs x status t m (_, inv, _, _, c, _, _, ext) =
      let fewer : length (erase x xs) + 1 ≡ length xs = length-erase x xs m in
      record {
        attached = inv;
        counted = rw ext (
            counter.detaches c s.ext (length (erase x xs)) (rw fewer t.counted)
              (omega (arith, fewer, t.small)));
        small = omega (arith, fewer, t.small);
      }

  Step-IsTracked :
      {s s' : Sys E C R} {xs ys : List ℕ}
      → Step rd provider s xs s' ys
      → IsTracked provider h Counts s xs
      → IsTracked provider h Counts s' ys
  Step-IsTracked {s} {s'} {xs} (attach block item a r p fresh small run e) t =
      rw e
        (elim (of_Returns _ _ r s'
          (attach_client-Outcome rd s block item a h xs (rw p t.attached) (rw p fresh)) run) [
            | inl k ↦ Accepted-IsTracked s s' xs block r t small (rw p at k)
            | inr k ↦ Rejected-IsTracked s s' xs r t (rw p at k)
          ])
  Step-IsTracked {s} {s'} {xs} (detach x status m run e) t = rw e (
      Detached-IsTracked s s' xs x status t m
        (of_Returns _ _ status s' (detach_client-Detached s provider h xs x t.attached m) run))

  -- For callbacks that keep a count of clients, every sequence of attaches and detaches keeps the ring equal to
  -- the list of binding contexts that NMR holds, and the count equal to its length.
  pub Reach-IsTracked :
      {s : Sys E C R} {xs : List ℕ} {s' : Sys E C R} {ys : List ℕ}
      → IsTracked provider h Counts s xs
      → Reach rd provider s xs s' ys
      → IsTracked provider h Counts s' ys
  Reach-IsTracked t here = t
  Reach-IsTracked t (next r st) = Step-IsTracked st (Reach-IsTracked t r)
