-- ===== src/Netevent/Registration.antt =====
-- The attach and detach callbacks of the netevent hook: the extension registers with NetEvent for the
-- first client and deregisters with the last one. `O` is the state of the Network Module Registrar.
pub mod Laws
use ntosebpfext.Base.{
  ℕ, ◌+◌, ◌*◌, ◌-◌, ◌%◌, ◌^◌, Bool, true, false, ◌&&◌, ◌||◌, not, Option, none, some, List, [], ◌∷◌,
  ltb, leb, ◌==◌, if◌then◌else◌,
}
use ntosebpfext.Kernel.Status.{
  EbpfResult, success, invalid_argument, operation_not_supported, nt_success,
}
use ntosebpfext.HookProvider.State.{ExtensionData, HookClient}
use ntosebpfext.HookProvider.Query.{client_get_client_data}

-- `_ebpf_netevent_event_hook_provider_registered`, `_ebpf_netevent_event_hook_provider_registration_count`
-- and `_netevent_client_dispatch.capture_type`.
pub record Registration (O : Type 0) : Type 0 where
  pub registered : Bool
  pub registration_count : ℕ
  pub capture_type : ℕ
  pub os : O

-- `NmrRegisterClient` and `NmrDeregisterClient` of this driver's one client module.
pub record NmrClient (O : Type 0) : Type 0 where
  pub register : O → ℕ × O
  pub deregister : O → ℕ × O

-- `netevent_capture_type_t`
abbrev pub capture_all : ℕ
capture_all = 1

abbrev pub capture_none : ℕ
capture_none = 4

-- `sizeof(netevent_attach_opts_t)`, one enumeration.
abbrev pub sizeof_attach_opts : ℕ
sizeof_attach_opts = 4

-- The `capture_type` of attach options, a little-endian word. Options that end before it are no
-- capture type.
unfoldable pub read_capture_type : List ℕ → ℕ
read_capture_type (a ∷ b ∷ c ∷ d ∷ _) = a + 256 * (b + 256 * (c + 256 * d))
read_capture_type _ = 0

abbrev pub increment : ℕ → ℕ
increment n = (n + 1) % 2 ^ 64

abbrev pub decrement : ℕ → ℕ
decrement n = (n + 2 ^ 64 - 1) % 2 ^ 64

-- The attach options of a client, if its data passes the first test. `current_version` is
-- `EBPF_ATTACH_CLIENT_DATA_CURRENT_VERSION`.
unfoldable pub valid_options : (current_version : ℕ) → Option ExtensionData → Option (List ℕ)
valid_options current_version none = none
valid_options current_version (some d) =
    if ltb d.version current_version || not (d.data_size == sizeof_attach_opts)
    then none
    else d.payload

module _ {O : Type 0} (nmr : NmrClient O) where
  -- The part under the push lock.
  unfoldable pub register_and_count : Registration O → EbpfResult × Registration O
  register_and_count r =
      if r.registered
      then (success, record r { registration_count = increment r.registration_count })
      else (let (status, os') = nmr.register r.os in
          if nt_success status
          then (
            success,
            record r {
              registered = true;
              registration_count = increment r.registration_count;
              os = os';
            },
          )
          else (operation_not_supported, record r { os = os' }))

  -- `_netevent_ebpf_extension_netevent_on_client_attach`
  unfoldable pub on_client_attach :
      {C R : Type 0}
      → (current_version : ℕ) → HookClient C R
      → Registration O
      → EbpfResult × Registration O
  on_client_attach current_version client r =
      elim (valid_options current_version (client_get_client_data client)) [
        | none ↦ (invalid_argument, r)
        | some options ↦
            let capture = read_capture_type options in
            if leb capture_all capture && leb capture capture_none
            then register_and_count (record r { capture_type = capture })
            else (operation_not_supported, r)
      ]

  -- `_netevent_ebpf_extension_netevent_on_client_detach`. The status is only logged.
  unfoldable pub on_client_detach : Registration O → Registration O
  on_client_detach r =
      let left = decrement r.registration_count in
      if r.registered && left == 0
      then record r { registered = false; registration_count = left; os = (nmr.deregister r.os).1 }
      else record r { registration_count = left }

  -- The callbacks as the hook provider calls them; they do not read the provider.
  abbrev pub attach_callback :
      {C R : Type 0}
      → (current_version : ℕ) → HookClient C R
      → ℕ
      → Registration O
      → EbpfResult × Registration O
  attach_callback current_version c provider = on_client_attach current_version c

  abbrev pub detach_callback : {C R : Type 0} → HookClient C R → Registration O → Registration O
  detach_callback c = on_client_detach
