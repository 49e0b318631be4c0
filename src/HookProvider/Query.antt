-- ===== src/HookProvider/Query.antt =====
-- The accessors of ebpf_ext_hook_provider.c, the walk over the attached clients, the invocation of a
-- client's program and the check of an attach parameter. None of them changes the ring.
use ntosebpfext.Base.{
  ℕ, zero, suc, Bool, true, false, Option, none, some, List, [], ◌∷◌, ◌==◌, if◌then◌else◌,
}
use ntosebpfext.Kernel.Status.{EbpfResult, success, access_denied}
use ntosebpfext.Kernel.Command.{Cmd, pure, fault, ◌>>=◌, ◌>>◌}
use ntosebpfext.HookProvider.Links.{is_list_empty}
use ntosebpfext.HookProvider.State.{
  ExtensionData, Rundown, HookClient, Sys, load_client, load_provider, store_client,
}

-- `memcmp(a, b, n) == 0`; `none` if it reads past the end of an operand.
unfoldable pub memcmp_eq : ℕ → List ℕ → List ℕ → Option Bool
memcmp_eq zero a b = some true
memcmp_eq (suc n) [] b = none
memcmp_eq (suc n) (x ∷ a) [] = none
memcmp_eq (suc n) (x ∷ a) (y ∷ b) = if x == y then memcmp_eq n a b else some false

-- The attach parameter of an attached client, with the wild card for NULL.
abbrev pub parameter_of : List ℕ → ExtensionData → List ℕ
parameter_of wild_card d = elim d.payload [ none ↦ wild_card | some bytes ↦ bytes ]

module _ {C R : Type 0} where
  -- `ebpf_extension_hook_client_get_client_data`
  unfoldable pub client_get_client_data : HookClient C R → Option ExtensionData
  client_get_client_data c = c.client_data

  -- `ebpf_extension_hook_provider_get_client_module_id`
  unfoldable pub get_client_module_id : HookClient C R → ℕ
  get_client_module_id c = c.client_module_id

module _ {E C R : Type 0} where
  -- `memcmp` as a command.
  abbrev pub compare_bytes : ℕ → List ℕ → List ℕ → Cmd (Sys E C R) Bool
  compare_bytes n a b s = elim (memcmp_eq n a b) [ none ↦ none | some r ↦ some (r, s) ]

  -- `ebpf_extension_hook_client_enter_rundown`
  unfoldable pub client_enter_rundown : Rundown R → ℕ → Cmd (Sys E C R) Bool
  client_enter_rundown rd p = do
    c ← load_client p
    let (entered, r) = rd.enter c.rundown
    store_client p (record c { rundown = r })
    pure entered

  -- `ebpf_extension_hook_client_leave_rundown`
  unfoldable pub client_leave_rundown : Rundown R → ℕ → Cmd (Sys E C R) (Unit {0})
  client_leave_rundown rd p = do
    c ← load_client p
    store_client p (record c { rundown = rd.leave c.rundown })

  -- `ebpf_extension_hook_client_set_provider_data` and `ebpf_extension_hook_client_get_provider_data`
  unfoldable pub client_set_provider_data : ℕ → ℕ → Cmd (Sys E C R) (Unit {0})
  client_set_provider_data p v = do
    c ← load_client p
    store_client p (record c { provider_data = v })

  unfoldable pub client_get_provider_data : ℕ → Cmd (Sys E C R) ℕ
  client_get_provider_data p = do c ← load_client p; pure c.provider_data

  -- `ebpf_extension_hook_invoke_program`: the code, `*result` and the program's context.
  unfoldable pub invoke_program : ℕ → C → ℕ → Cmd (Sys E C R) (EbpfResult × ℕ × C)
  invoke_program p context result = do
    c ← load_client p
    elim c.invoke_program [
      | none ↦ fault
      | some invoke ↦ pure (invoke c.client_binding_context context result)
    ]

  -- `ebpf_extension_hook_provider_get_custom_data`
  unfoldable pub provider_get_custom_data : ℕ → Cmd (Sys E C R) ℕ
  provider_get_custom_data p = do c ← load_provider p; pure c.custom_data

  -- `ebpf_extension_hook_get_attached_client`; 0 is NULL.
  unfoldable pub get_attached_client : ℕ → Cmd (Sys E C R) ℕ
  get_attached_client provider s =
      (do
        _ ← load_provider provider
        if is_list_empty provider s.links then pure 0 else pure (s.links.flink provider))
        s

  -- `ebpf_extension_hook_get_next_attached_client`
  unfoldable pub get_next_attached_client : ℕ → ℕ → Cmd (Sys E C R) ℕ
  get_next_attached_client provider client s =
      (do
        _ ← load_provider provider
        if client == 0
            then (if is_list_empty provider s.links then pure 0 else pure (s.links.flink provider))
            else (do
              _ ← load_client client
              if s.links.flink client == provider then pure 0 else pure (s.links.flink client)))
        s

  -- One round of the loop of the check: whether the client at `link` stands in the way.
  unfoldable pub conflicts : ℕ → (parameter wild_card : List ℕ) → ℕ → Cmd (Sys E C R) Bool
  conflicts n parameter wild_card link = do
    c ← load_client link
    elim c.client_data [
      | none ↦ fault
      | some d ↦ do
        wild ← compare_bytes n wild_card (parameter_of wild_card d)
        if wild then pure true else compare_bytes n parameter (parameter_of wild_card d)
    ]

  -- The loop, with fuel for the entries of the ring.
  unfoldable pub check_loop :
      ℕ → ℕ → (parameter wild_card : List ℕ) → (provider link : ℕ) → Cmd (Sys E C R) EbpfResult
  check_loop zero n parameter wild_card provider link s = none
  check_loop (suc fuel) n parameter wild_card provider link s =
      let rest : Cmd (Sys E C R) EbpfResult =
        check_loop fuel n parameter wild_card provider (s.links.flink link) in
      (if link == provider then pure success else do
        conflict ← conflicts n parameter wild_card link
        if conflict then pure access_denied else rest)
        s

  -- `ebpf_extension_hook_check_attach_parameter`
  unfoldable pub check_attach_parameter :
      (fuel size : ℕ) (parameter wild_card : List ℕ) (provider : ℕ) → Cmd (Sys E C R) EbpfResult
  unfolding check_loop conflicts
  check_attach_parameter fuel n parameter wild_card provider s =
      (do
        using_wild_card ← compare_bytes n parameter wild_card
        _ ← load_provider provider
        if using_wild_card
            then (if is_list_empty provider s.links then pure success else pure access_denied)
            else check_loop fuel n parameter wild_card provider (s.links.flink provider))
        s
