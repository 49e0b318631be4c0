-- ===== src/HookProvider/State.antt =====
-- The structures of ebpf_ext_hook_provider.c and the memory that its functions work on. `E` is the
-- global state of the extension whose callbacks a provider holds, `C` the context that a program is run
-- on, `R` the rundown object of the shared header ebpf_ext_rundown.h.
use ntosebpfext.Base.{
  ℕ, ◌≡◌, arith, ==_refl, Bool, true, false, Option, none, some, List, [], ◌∷◌, ◌++◌, ◌==◌,
  if◌then◌else◌,
}
use mathlib.Core.Path.{fun_ext}
use ntosebpfext.Kernel.Status.{EbpfResult}
use ntosebpfext.Kernel.Command.{Cmd}
use ntosebpfext.HookProvider.Links.{Links}

-- The fields of `ebpf_extension_data_t` that the drivers read; `data` may be NULL.
pub record ExtensionData : Type 0 where
  pub version : ℕ
  pub data_size : ℕ
  pub payload : Option (List ℕ)

-- The rundown functions of ebpf_ext_rundown.h; `zeroed` is an object of zero bytes.
pub record Rundown (R : Type 0) : Type 0 where
  pub zeroed : R
  pub init : R
  pub enter : R → Bool × R
  pub leave : R → R
  pub wait : R → R

-- `ebpf_program_invoke_function_t`: the client's context, the program's context and `*result` before
-- the call give the code returned, `*result` and the program's context after it.
abbrev pub Invoke : Type 0 → Type 0
Invoke C = ℕ → C → ℕ → EbpfResult × ℕ × C

-- `struct _ebpf_extension_hook_client`, but for `link`, which stands in `Links`. A NULL
-- function pointer is `none`.
pub record HookClient (C R : Type 0) : Type 0 where
  pub nmr_binding_handle : ℕ
  pub client_module_id : ℕ
  pub client_binding_context : ℕ
  pub client_data : Option ExtensionData
  pub invoke_program : Option (Invoke C)
  pub provider_data : ℕ
  pub provider_context : ℕ
  pub detach_work_item : ℕ
  pub rundown : R

-- `struct _ebpf_extension_hook_provider`. Of `characteristics` the two fields that vary.
pub record HookProvider (E C R : Type 0) : Type 0 where
  pub npi_specific_characteristics : ℕ
  pub module_id : ℕ
  pub nmr_provider_handle : ℕ
  pub attach_callback : HookClient C R → ℕ → E → EbpfResult × E
  pub detach_callback : HookClient C R → E → E
  pub custom_data : ℕ

-- Live structures by address, the allocated work items, and the work items queued with their contexts.
pub record Sys (E C R : Type 0) : Type 0 where
  pub ext : E
  pub links : Links
  pub client : ℕ → Option (HookClient C R)
  pub provider : ℕ → Option (HookProvider E C R)
  pub work_item : ℕ → Bool
  pub queued : List (ℕ × ℕ)

abbrev pub update {ℓ} : {A : Type ℓ} → (ℕ → A) → ℕ → A → ℕ → A
update f a v b = if a == b then v else f b

module _ {ℓ} {A : Type ℓ} where
  pub update_self : (f : ℕ → A) (a : ℕ) (v : A) → update f a v a ≡ v
  update_self f a v = rw (==_refl a)

  pub update-update : (f : ℕ → A) (a : ℕ) (u v : A) → update (update f a u) a v ≡ update f a v
  update-update f a u v = fun_ext λ b. ground arith

  pub update_restore : (f : ℕ → A) (a : ℕ) (u v : A) → f a ≡ v → update (update f a u) a v ≡ f
  update_restore f a u v e = fun_ext λ b. ground (arith, e)

module _ {E C R : Type 0} where
  -- An access through a pointer: nothing stands at NULL or at a freed address.
  abbrev pub load_client : ℕ → Cmd (Sys E C R) (HookClient C R)
  load_client p s = elim (s.client p) [ none ↦ none | some c ↦ some (c, s) ]

  abbrev pub load_provider : ℕ → Cmd (Sys E C R) (HookProvider E C R)
  load_provider p s = elim (s.provider p) [ none ↦ none | some c ↦ some (c, s) ]

  -- The first write to a block, and any later one.
  abbrev pub store_client : ℕ → HookClient C R → Cmd (Sys E C R) (Unit {0})
  store_client p c s = some (tt, record s { client = update s.client p (some c) })

  abbrev pub store_provider : ℕ → HookProvider E C R → Cmd (Sys E C R) (Unit {0})
  store_provider p c s = some (tt, record s { provider = update s.provider p (some c) })

  -- `ExFreePool` of a client or a provider, `IoFreeWorkItem`: freeing what is not allocated faults.
  abbrev pub free_client : ℕ → Cmd (Sys E C R) (Unit {0})
  free_client p s = elim (s.client p) [
    | none ↦ none
    | some c ↦ some (tt, record s { client = update s.client p none })
  ]

  abbrev pub free_provider : ℕ → Cmd (Sys E C R) (Unit {0})
  free_provider p s = elim (s.provider p) [
    | none ↦ none
    | some c ↦ some (tt, record s { provider = update s.provider p none })
  ]

  abbrev pub free_work_item : ℕ → Cmd (Sys E C R) (Unit {0})
  free_work_item p s = elim (s.work_item p) [
    | true ↦ some (tt, record s { work_item = update s.work_item p false })
    | false ↦ none
  ]

  abbrev pub queue_work_item : ℕ → ℕ → Cmd (Sys E C R) (Unit {0})
  queue_work_item item context s =
      some (tt, record s { queued = s.queued ++ ((item, context) ∷ []) })

  abbrev pub relink : (Links → Links) → Cmd (Sys E C R) (Unit {0})
  relink f s = some (tt, record s { links = f s.links })
