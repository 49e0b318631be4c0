-- ===== src/Examples/Account.antt =====
-- The account lookup and the registration of providers: a context whose two account buffers are the blocks 500 and 600, and a lookup that asks for more room.
use ntosebpfext.Base.{
  ℕ, zero, suc, ◌+◌, ◌≡◌, refl, true, false, Option, none, some, [], ◌∷◌, arith, length, ◌==◌,
  if◌then◌else◌, ltb,
}
use ntosebpfext.Kernel.Status.{status_success, status_buffer_too_small}
use ntosebpfext.Kernel.Command.{Returns}
use ntosebpfext.Kernel.Pool.{Bytes, Pool, Allocator}
use ntosebpfext.Kernel.Pool.Owns.{Owns}
use ntosebpfext.Ntos.Types.{Operation, null_string, NotifyContext}
use ntosebpfext.Ntos.Account.{SidFunctions, resolve_account}
use ntosebpfext.Ntos.Account.Buffers.{KeepsBuffers}
use ntosebpfext.Ntos.Account.Ownership.{Resolved, resolve_account-Resolved}
use ntosebpfext.Driver.{
  register_providers, unregister_providers, unregister_providers-register_providers,
}

pub zeros : ℕ → Bytes
zeros zero = []
zeros (suc n) = 0 ∷ zeros n

pub length-zeros : (n : ℕ) → length (zeros n) ≡ n
unfolding zeros
length-zeros zero = refl
length-zeros (suc n) = omega (arith, length-zeros n)

abbrev next_block : Pool → ℕ → ℕ
next_block h n = elim (h.block (h.requests + 1000)) [ none ↦ h.requests + 1000 | some c ↦ 0 ]

pub allocator : Allocator
allocator = record {
  address = next_block;
  junk = λ h n. zeros n;
  address_new = λ h n ne. ground arith;
  junk_size = λ h n. length-zeros n;
}

-- A lookup that wants eight bytes for the name and for the domain.
abbrev pub sid : SidFunctions
sid = record {
  valid = λ bytes. true;
  lookup = λ bytes m name n domain h.
      some ((if ltb m 8 then status_buffer_too_small else status_success, 8, name, 8, domain), h);
}

pub sid-KeepsBuffers : KeepsBuffers sid
sid-KeepsBuffers = record { keeps = λ bytes m name n domain h. (refl, refl, λ f ps o. o) }

abbrev context : NotifyContext
context = record {
  process_md = record {
    command_start = 0;
    command_end = 0;
    process_id = 4;
    parent_process_id = 3;
    creating_process_id = 3;
    creating_thread_id = 30;
    creation_time = 0;
    exit_time = 0;
    process_exit_code = 0;
    operation = Operation.create;
    token_sid_size = 2;
    token_sid = 1 ∷ 1 ∷ [];
  };
  process = 0;
  create_info = 0;
  command_line = null_string;
  image_file_name = null_string;
  account_name = record { length = 0; maximum_length = 4; buffer = 500 };
  account_domain = record { length = 0; maximum_length = 4; buffer = 600 };
  account_lookup_done = false;
}

abbrev pub nothing : ℕ → Option Bytes
nothing a = none

abbrev pub two_blocks : Pool
two_blocks = record {
  block = λ a. if 500 == a then some (zeros 4) else if 600 == a then some (zeros 4) else none;
  requests = 2;
}

pub two_blocks-Owns : Owns nothing two_blocks (500 ∷ 600 ∷ [])
two_blocks-Owns = record {
  ours = (refl, (refl, tt));
  apart = (refl, (refl, tt));
  frame = λ b e. ground arith;
}

resolve_account-Resolved_example :
    Returns (Resolved nothing context []) (resolve_account sid allocator context two_blocks)
resolve_account-Resolved_example =
    resolve_account-Resolved nothing context [] sid sid-KeepsBuffers allocator two_blocks
      two_blocks-Owns refl

-- A registration that fails after its first half.
unregister_providers-register_providers_example :
    unregister_providers
      (λ n. (0xC0000001, n + 1))
      (λ n. 0)
      (register_providers
        (λ n. (0xC0000001, n + 1))
        (λ n. 0)
        (record { providers_registered = false; own = 7 })).1
    ≡ record { providers_registered = false; own = 0 }
unregister_providers-register_providers_example =
    unregister_providers-register_providers (λ n. (0xC0000001, n + 1)) (λ n. 0)
      (record { providers_registered = false; own = 7 }) refl
