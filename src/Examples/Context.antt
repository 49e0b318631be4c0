-- ===== src/Examples/Context.antt =====
-- A context with the command line `ls` and the image file `sh`, in an empty pool.
use ntosebpfext.Base.{
  ℕ, zero, suc, ◌+◌, refl, inl, inr, true, false, none, some, [], ◌∷◌, arith, length, ◌==◌,
  if◌then◌else◌,
}
use ntosebpfext.Kernel.Command.{Returns}
use ntosebpfext.Kernel.Pool.{Bytes, Pool}
use ntosebpfext.Ntos.Types.{Operation, null_string, NotifyContext, TestContext}
use ntosebpfext.Ntos.Strings.Copied.{Copied}
use ntosebpfext.Ntos.Context.{context_destroy}
use ntosebpfext.Ntos.Context.Ownership.{IsContext, Destroyed, context_destroy-IsContext}

-- A bump allocator that tests that its next block is free, and fills it with zeros.
zeros : ℕ → Bytes
zeros zero = []
zeros (suc n) = 0 ∷ zeros n

abbrev next_block : Pool → ℕ → ℕ
next_block h n = elim (h.block (h.requests + 1000)) [ none ↦ h.requests + 1000 | some c ↦ 0 ]

abbrev empty : Pool
empty = record { block = λ a. none; requests = 0 }

abbrev input : NotifyContext
input = record {
  process_md = record {
    command_start = 0;
    command_end = 0;
    process_id = 4;
    parent_process_id = 3;
    creating_process_id = 3;
    creating_thread_id = 30;
    creation_time = 0;
    exit_time = 0;
    process_exit_code = 0;
    operation = Operation.create;
    token_sid_size = 0;
    token_sid = [];
  };
  process = 1;
  create_info = 1;
  command_line = record { length = 2; maximum_length = 2; buffer = 0 };
  image_file_name = record { length = 2; maximum_length = 2; buffer = 0 };
  account_name = null_string;
  account_domain = null_string;
  account_lookup_done = false;
}

abbrev bytes : Bytes
bytes = 108 ∷ 115 ∷ 115 ∷ 104 ∷ []

-- A context with a command line and an account name at 2000 and 4000; the name took the place of the buffer at
-- 3000, as after a lookup.
abbrev full_context : TestContext
full_context = record {
  base = record input {
    command_line = record { length = 2; maximum_length = 2; buffer = 2000 };
    image_file_name = null_string;
    account_name = record { length = 3; maximum_length = 3; buffer = 4000 };
  };
  account_name_initial_buffer = 3000;
  account_domain_initial_buffer = 0;
}

abbrev four_blocks : Pool
four_blocks = record {
  block = λ a.
      if 1000 == a
      then some (zeros 224)
      else if 2000 == a
      then some (108 ∷ 115 ∷ [])
      else if 3000 == a
      then some (zeros 1)
      else if 4000 == a
      then some (97 ∷ 98 ∷ 99 ∷ [])
      else none;
  requests = 4;
}

full_context-IsContext :
    IsContext empty.block four_blocks 1000 full_context (108 ∷ 115 ∷ []) [] (97 ∷ 98 ∷ 99 ∷ []) []
full_context-IsContext = record {
  owns = record {
    ours = (refl, (refl, (refl, (refl, (refl, (refl, (refl, tt)))))));
    apart = (refl, (refl, (refl, (refl, (refl, (refl, (refl, tt)))))));
    frame = λ b e. ground arith;
  };
  command_line = record {
    size = refl;
    content = inr (108 ∷ 115 ∷ [], ground arith, refl, omega arith, refl);
  };
  image_file_name = record { size = refl; content = inl refl };
  account_name = record {
    size = refl;
    content = inr (97 ∷ 98 ∷ 99 ∷ [], ground arith, refl, omega arith, refl);
  };
  account_domain = record { size = refl; content = inl refl };
}

context_destroy-IsContext_example :
    Returns
      (Destroyed empty.block 208 5 208 true true full_context
        (108 ∷ 115 ∷ [])
        []
        (97 ∷ 98 ∷ 99 ∷ [])
        [])
      (context_destroy 208 (some (1000, full_context)) true 5 true 208 four_blocks)
context_destroy-IsContext_example =
    context_destroy-IsContext empty.block four_blocks 1000 refl full_context (108 ∷ 115 ∷ []) []
      (97 ∷ 98 ∷ 99 ∷ []) [] full_context-IsContext 208 5 208 true true
