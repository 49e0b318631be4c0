-- ===== src/Examples/Notify.antt =====
-- The notify routine of the process hook: one client, whose program asks for an account name that does not fit
-- into the arrays on the stack at 500 and 600.
use ntosebpfext.Base.{
  ℕ, ◌+◌, ◌≡◌, refl, true, false, Option, none, some, [], ◌∷◌, arith, length, ltb, leb, ◌==◌,
  if◌then◌else◌,
}
use ntosebpfext.Kernel.Status.{
  success, status_success, status_unsuccessful, status_buffer_too_small,
}
use ntosebpfext.Kernel.Command.{pure, ◌>>=◌, Returns}
use ntosebpfext.Kernel.Pool.{Bytes, Pool, allocate}
use ntosebpfext.Kernel.Pool.Owns.{Owns, allocate-Owns}
use ntosebpfext.HookProvider.Links.{initialize_list_head, insert_tail_list}
use ntosebpfext.HookProvider.Links.Ring.{initialize-IsRing, insert_tail-IsRing}
use ntosebpfext.HookProvider.State.{Invoke, HookClient, HookProvider, Sys, update}
use ntosebpfext.HookProvider.Inv.{IsAttached}
use ntosebpfext.Ntos.Types.{UnicodeString, NotifyContext}
use ntosebpfext.Ntos.Strings.{HelperResult}
use ntosebpfext.Ntos.Account.{SidFunctions, get_account_name}
use ntosebpfext.Ntos.Account.Buffers.{KeepsBuffers}
use ntosebpfext.Ntos.Notify.{
  CreateInfo, ProcessFunctions, no_metadata, initial_context, fill_context, NotifyState,
  create_process_notify_routine,
}
use ntosebpfext.Ntos.Notify.Filled.{AllocatesUser, Filled, Leaks, fill_context-Filled}
use ntosebpfext.Ntos.Notify.Helpers.{Called, Helpers}
use ntosebpfext.Ntos.Notify.Balance.{Notified, create_process_notify_routine-Notified}
use ntosebpfext.Examples.Provider.{rundown, no_links}
use ntosebpfext.Examples.Account.{allocator, zeros, nothing}

-- Every process has a user, whose SID stands in a block of the pool.
abbrev functions : ProcessFunctions
functions = record {
  create_time = λ p. 10;
  exit_time = 20;
  exit_status = λ p. 3;
  primary_token = λ p. 5;
  query_user = λ token. allocate allocator 2 >>= λ p.
      pure (if p == 0 then status_unsuccessful else status_success, p);
  sid = λ p. 1 ∷ 1 ∷ [];
  valid_sid = λ s. true;
  length_sid = λ s. length s;
  copy_sid = λ room d s. (status_success, s);
}

functions-AllocatesUser : AllocatesUser functions
unfolding allocate
functions-AllocatesUser = record {
  allocates = λ token h. (λ f ps o. (allocate-Owns f h ps o allocator 2).1, λ e. ground (arith, e));
}

-- A string with a name of six bytes, if there is room for it.
abbrev long_name : UnicodeString → UnicodeString
long_name s = record s { length = if leb 6 s.maximum_length then 6 else s.length }

-- A lookup that wants 100 bytes for the name and for the domain, more than the arrays on the stack have.
abbrev long_sid : SidFunctions
long_sid = record {
  valid = λ bytes. true;
  lookup = λ bytes m name n domain h. some (
    (
      if ltb m 100 then status_buffer_too_small else status_success,
      100,
      long_name name,
      100,
      long_name domain,
    ),
    h,
  );
}

long_sid-KeepsBuffers : KeepsBuffers long_sid
long_sid-KeepsBuffers = record { keeps = λ bytes m name n domain h. (refl, refl, λ f ps o. o) }

abbrev stack : Pool
stack = record {
  block = λ a. if 500 == a then some (zeros 80) else if 600 == a then some (zeros 80) else none;
  requests = 2;
}

stack-Owns : Owns nothing stack (500 ∷ 600 ∷ [])
stack-Owns = record {
  ours = (refl, (refl, tt));
  apart = (refl, (refl, tt));
  frame = λ b e. ground arith;
}

-- The program calls the helper for the account name.
abbrev after_name :
    NotifyContext
    → Pool
    → Option (((HelperResult × Bytes) × NotifyContext) × Pool)
    → NotifyContext × Pool
after_name c h none = (c, h)
after_name c h (some ((r, c'), h')) = (c', h')

abbrev ask_name : Invoke (NotifyContext × Pool)
ask_name binding (c, h) result =
    (success, status_success, after_name c h (get_account_name long_sid allocator c 100 h))

ask_name-Helpers :
    (c : NotifyContext) (h : Pool)
    → let (c', h') = after_name c h (get_account_name long_sid allocator c 100 h) in
      Helpers long_sid allocator c h c' h'
ask_name-Helpers c h = by_result (get_account_name long_sid allocator c 100 h) refl
  where
    by_result :
        (o : Option (((HelperResult × Bytes) × NotifyContext) × Pool))
        → get_account_name long_sid allocator c 100 h ≡ o
        → let (c', h') = after_name c h o in Helpers long_sid allocator c h c' h'
    by_result none e = Helpers.finished
    by_result (some ((r, c'), h')) e = Helpers.call Helpers.finished (Called.account_name 100 r e)

abbrev client : HookClient (NotifyContext × Pool) ℕ
client = record {
  nmr_binding_handle = 7;
  client_module_id = 8;
  client_binding_context = 9;
  client_data = none;
  invoke_program = some ask_name;
  provider_data = 0;
  provider_context = 100;
  detach_work_item = 300;
  rundown = 1;
}

abbrev provider : HookProvider ℕ (NotifyContext × Pool) ℕ
provider = record {
  npi_specific_characteristics = 1;
  module_id = 2;
  nmr_provider_handle = 3;
  attach_callback = λ c p n. (success, n + 1);
  detach_callback = λ c n. n;
  custom_data = 0;
}

abbrev hook : Sys ℕ (NotifyContext × Pool) ℕ
hook = record {
  ext = 1;
  links = insert_tail_list 100 200 (initialize_list_head 100 no_links);
  client = update (λ a. none) 200 (some client);
  provider = update (λ a. none) 100 (some provider);
  work_item = update (λ a. false) 300 true;
  queued = [];
}

hook-IsAttached : IsAttached hook 100 provider (200 ∷ [])
hook-IsAttached = record {
  ne_null = ground arith;
  holds = refl;
  ring = insert_tail-IsRing 200 (initialize-IsRing 100 no_links) refl;
  clients = ((ground arith, client, refl, refl, refl), tt);
}

abbrev state : NotifyState ℕ ℕ
state = record { hook = hook; pool = stack; creation_status = status_success }

abbrev created : Option CreateInfo
created = some (record {
  command_line = some (record { length = 6; maximum_length = 6; buffer = 700 });
  image_file_name = none;
  parent_process_id = 3;
  creating_process_id = 3;
  creating_thread_id = 30;
})

fill_context-Filled_example :
    Returns
      (λ c h.
        Filled functions functions-AllocatesUser nothing (500 ∷ 600 ∷ []) 40 4 50 500 600 created c
        × Leaks functions functions-AllocatesUser nothing (500 ∷ 600 ∷ []) h)
      (fill_context functions created (initial_context functions 40 4 50 500 600) stack)
fill_context-Filled_example =
    fill_context-Filled functions functions-AllocatesUser nothing (500 ∷ 600 ∷ []) 40 4 50 500 600
      created stack stack-Owns

create_process_notify_routine-Notified_example :
    Returns
      (Notified rundown functions functions-AllocatesUser long_sid long_sid-KeepsBuffers allocator
        nothing 100 provider
        (200 ∷ [])
        2
        40
        4
        50
        created
        500
        600
        state)
      (create_process_notify_routine rundown functions 2 100 40 4 50 created 500 600 state)
create_process_notify_routine-Notified_example =
    create_process_notify_routine-Notified rundown functions functions-AllocatesUser long_sid
      long_sid-KeepsBuffers allocator nothing 100 provider (200 ∷ []) 2 40 4 50 created 500 600
      state hook-IsAttached
      ((client, ask_name, refl, refl, λ binding c h result. ask_name-Helpers c h), tt) (omega arith)
      stack-Owns

-- The memory with an image path at 700, the context of a process with a SID, and what it is after the program asked
-- for the account name.
abbrev memory : ℕ → Option Bytes
memory a = if 700 == a then some (115 ∷ 104 ∷ []) else none

abbrev memory_and_stack : Pool
memory_and_stack = record {
  block = λ a. if 500 == a then some (zeros 80) else if 600 == a then some (zeros 80) else memory a;
  requests = 2;
}

abbrev image : UnicodeString
image = record { length = 2; maximum_length = 2; buffer = 700 }

abbrev asked : NotifyContext
asked = record (initial_context functions 40 4 50 500 600) {
  process_md = record no_metadata { token_sid = 1 ∷ 1 ∷ []; token_sid_size = 2 };
  image_file_name = image;
}

abbrev answered : NotifyContext × Pool
answered =
    after_name asked memory_and_stack
      (get_account_name long_sid allocator asked 100 memory_and_stack)
