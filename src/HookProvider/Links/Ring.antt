-- ===== src/HookProvider/Links/Ring.antt =====
-- What a `LIST_ENTRY` ring stands for: the entries from its head on, in order.
use ntosebpfext.Base.{
  ℕ, ◌≡◌, refl, sym, ◌≢◌, ◌∙◌, subst, inl, inr, true, false, List, [], ◌∷◌, ◌++◌, arith, ◌==◌,
  ==_iff, if◌then◌else◌, Bool-cases, Option, none, some, ◌∈◌, ◌∉◌, Distinct, erase, head?,
  not-mem-append, not-mem-erase, erase-Distinct,
}
use ntosebpfext.HookProvider.Links.{
  Links, initialize_list_head, is_list_empty, insert_tail_list, remove_entry_list,
}

-- From `a` the forward links lead through `xs` to `b`, and the backward links lead back.
abbrev pub Chain : Links → ℕ → List ℕ → ℕ → Type 0
Chain l a [] b = (l.flink a ≡ b) × (l.blink b ≡ a)
Chain l a (x ∷ xs) b = (l.flink a ≡ x) × (l.blink x ≡ a) × Chain l x xs b

-- The ring at `head` holds the distinct entries `xs`.
pub record IsRing (l : Links) (head : ℕ) (xs : List ℕ) : Type 0 where
  pub chain : Chain l head xs head
  pub distinct : Distinct (head ∷ xs)

-- The last entry of a chain from `a`.
abbrev pub last : ℕ → List ℕ → ℕ
last a [] = a
last a (x ∷ xs) = last x xs

last-mem : (a : ℕ) (xs : List ℕ) → last a xs ∈ (a ∷ xs)
last-mem a [] = ground arith
last-mem a (x ∷ xs) = ground (arith, last-mem x xs)

Chain-frame :
    (l m : Links) (a : ℕ) (xs : List ℕ) (b : ℕ)
    → Chain l a xs b
    → ((k : ℕ) → k ∈ (a ∷ xs) → m.flink k ≡ l.flink k)
    → ((k : ℕ) → k ∈ (b ∷ xs) → m.blink k ≡ l.blink k)
    → Chain m a xs b
Chain-frame l m a [] b c f g = (f a (ground arith) ∙ c.0, g b (ground arith) ∙ c.1)
Chain-frame l m a (x ∷ xs) b c f g = (
  f a (ground arith) ∙ c.0,
  g x (ground arith) ∙ c.1,
  Chain-frame l m x xs b c.2 (λ k h. f k (ground arith)) (λ k h. g k (ground arith)),
)

Chain-last : (l : Links) (a : ℕ) (xs : List ℕ) (b : ℕ) → Chain l a xs b → l.blink b ≡ last a xs
Chain-last l a [] b c = c.1
Chain-last l a (x ∷ xs) b c = Chain-last l x xs b c.2

Chain-append :
    (l : Links) (a : ℕ) (xs : List ℕ) (b e : ℕ)
    → Chain l a xs e
    → Chain l e [] b
    → Chain l a (xs ++ e ∷ []) b
Chain-append l a [] b e c d = (c.0, c.1, d)
Chain-append l a (x ∷ xs) b e c d = (c.0, c.1, Chain-append l x xs b e c.2 d)

-- A chain whose last link alone is redirected to `e`.
Chain-retarget :
    (l m : Links) (a : ℕ) (xs : List ℕ) (b e : ℕ)
    → Chain l a xs b
    → Distinct (a ∷ xs)
    → ((k : ℕ) → k ∈ (a ∷ xs) → k ≢ last a xs → m.flink k ≡ l.flink k)
    → ((k : ℕ) → k ∈ xs → m.blink k ≡ l.blink k)
    → m.flink (last a xs) ≡ e
    → m.blink e ≡ last a xs
    → Chain m a xs e
Chain-retarget l m a [] b e c d f g p q = (p, q)
Chain-retarget l m a (x ∷ xs) b e c d f g p q = (
  f a (ground arith) (λ h. ground (arith, last-mem x xs, h)) ∙ c.0,
  g x (ground arith) ∙ c.1,
  Chain-retarget l m x xs b e c.2 d.1 (λ k h. f k (ground arith)) (λ k h. g k (ground arith)) p q,
)

-- A new head is an empty ring.
pub initialize-IsRing : (head : ℕ) (l : Links) → IsRing (initialize_list_head head l) head []
unfolding initialize_list_head
initialize-IsRing head l = record { chain = ground arith; distinct = (refl, tt) }

-- `IsListEmpty` tells whether there are entries.
pub is_list_empty-nil : {l : Links} (head : ℕ) → IsRing l head [] → is_list_empty head l ≡ true
unfolding is_list_empty
is_list_empty-nil head r = ground (arith, r.chain)

pub is_list_empty-cons :
    {l : Links} (head x : ℕ) (xs : List ℕ) → IsRing l head (x ∷ xs) → is_list_empty head l ≡ false
unfolding is_list_empty
is_list_empty-cons head x xs r = ground (arith, r.chain, r.distinct)

snoc-Distinct : (xs : List ℕ) (e : ℕ) → Distinct xs → e ∉ xs → Distinct (xs ++ e ∷ [])
snoc-Distinct [] e d n = (refl, tt)
snoc-Distinct (x ∷ xs) e d n =
    (not-mem-append x xs (e ∷ []) d.0 (ground arith), snoc-Distinct xs e d.1 (ground arith))

-- `InsertTailList` puts a new entry behind the others.
pub insert_tail-IsRing :
    {l : Links} {head : ℕ} {xs : List ℕ} (e : ℕ)
    → IsRing l head xs
    → e ∉ (head ∷ xs)
    → IsRing (insert_tail_list head e l) head (xs ++ e ∷ [])
unfolding insert_tail_list
insert_tail-IsRing {l} {head} {xs} e r n =
    let end : l.blink head ≡ last head xs = Chain-last l head xs head r.chain in
    record {
      chain =
          Chain-append _ head xs head e
            (Chain-retarget l _ head xs head e r.chain r.distinct (λ k h ne. ground arith)
              (λ k h. ground (arith, r.distinct)) (ground arith) (ground arith))
            (ground (arith, last-mem head xs), ground arith);
      distinct = snoc-Distinct (head ∷ xs) e r.distinct n;
    }

-- The entry before a member of a chain, and the one behind it.
blink-mem :
    (l : Links) (a : ℕ) (xs : List ℕ) (b e : ℕ) → Chain l a xs b → e ∈ xs → l.blink e ∈ (a ∷ xs)
blink-mem l a [] b e c m = cc
blink-mem l a (x ∷ xs) b e c m = ground (arith, blink-mem l x xs b e c.2)

flink-mem :
    (l : Links) (a : ℕ) (xs : List ℕ) (b e : ℕ) → Chain l a xs b → e ∈ xs → l.flink e ∈ (b ∷ xs)
flink-mem l a [] b e c m = cc
flink-mem l a (x ∷ []) b e c m = ground arith
flink-mem l a (x ∷ y ∷ xs) b e c m = ground (arith, flink-mem l x (y ∷ xs) b e c.2)

Chain-remove_first :
    (l : Links) (a x : ℕ) (xs : List ℕ) (b : ℕ)
    → Chain l a (x ∷ xs) b
    → Distinct (a ∷ x ∷ xs)
    → b ∉ (x ∷ xs)
    → Chain (remove_entry_list x l) a xs b
unfolding remove_entry_list
Chain-remove_first l a x [] b c d n = (ground arith, ground arith)
Chain-remove_first l a x (y ∷ ys) b c d n = (
  ground arith,
  ground arith,
  Chain-frame l _ y ys b c.2.2 (λ k h. ground arith) (λ k h. ground arith),
)

Chain-remove :
    (l : Links) (a : ℕ) (xs : List ℕ) (b e : ℕ)
    → Chain l a xs b
    → Distinct (a ∷ xs)
    → b ∉ xs
    → e ∈ xs
    → Chain (remove_entry_list e l) a (erase e xs) b
unfolding remove_entry_list
Chain-remove l a [] b e c d n m = cc
Chain-remove l a (x ∷ xs) b e c d n m = elim (Bool-cases (e == x)) [
  | inl h ↦ rw h (
      subst (λ k. Chain (remove_entry_list k l) a xs b) (sym ((==_iff e x).0 h))
        (Chain-remove_first l a x xs b c d n))
  | inr h ↦ rw h (
    ground (arith, blink-mem l x xs b e c.2),
    ground (arith, flink-mem l x xs b e c.2),
    Chain-remove l x xs b e c.2 d.1 (ground arith) (ground arith),
  )
]

-- `RemoveEntryList` takes one entry out and keeps the order of the others.
pub remove_entry-IsRing :
    {l : Links} {head : ℕ} {xs : List ℕ} (e : ℕ)
    → IsRing l head xs
    → e ∈ xs
    → IsRing (remove_entry_list e l) head (erase e xs)
remove_entry-IsRing {l} {head} {xs} e r m = record {
  chain = Chain-remove l head xs head e r.chain r.distinct r.distinct.0 m;
  distinct = (not-mem-erase head e xs r.distinct.0, erase-Distinct e xs r.distinct.1);
}

-- The entry behind `a` in `xs`, if there is one.
abbrev pub next? : ℕ → List ℕ → Option ℕ
next? a [] = none
next? a (x ∷ xs) = if a == x then head? xs else next? a xs

-- The forward link of an entry leads to the next one, or back to the head.
abbrev pub to_entry : ℕ → Option ℕ → ℕ
to_entry head none = head
to_entry head (some x) = x

Chain-flink :
    (l : Links) (a : ℕ) (xs : List ℕ) (b e : ℕ)
    → Chain l a xs b
    → e ∈ xs
    → l.flink e ≡ to_entry b (next? e xs)
Chain-flink l a [] b e c m = cc
Chain-flink l a (x ∷ []) b e c m = ground arith
Chain-flink l a (x ∷ y ∷ xs) b e c m = ground (arith, Chain-flink l x (y ∷ xs) b e c.2)

pub flink-next :
    {l : Links} {head : ℕ} {xs : List ℕ} (e : ℕ)
    → IsRing l head xs
    → e ∈ xs
    → l.flink e ≡ to_entry head (next? e xs)
flink-next {l} {head} {xs} e r m = Chain-flink l head xs head e r.chain m

Chain-first :
    (l : Links) (a : ℕ) (xs : List ℕ) (b : ℕ) → Chain l a xs b → l.flink a ≡ to_entry b (head? xs)
Chain-first l a [] b c = c.0
Chain-first l a (x ∷ xs) b c = c.0

pub flink-head :
    {l : Links} {head : ℕ} {xs : List ℕ}
    → IsRing l head xs
    → l.flink head ≡ to_entry head (head? xs)
flink-head {l} {head} {xs} r = Chain-first l head xs head r.chain
