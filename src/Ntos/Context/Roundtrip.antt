-- ===== src/Ntos/Context/Roundtrip.antt =====
-- Creation and then destruction of a context, as a test run of the bpf tool does them.
use ntosebpfext.Base.{ℕ, Bool, Option, some}
use ntosebpfext.Kernel.Command.{Cmd, ◌>>=◌}
use ntosebpfext.Kernel.Pool.{Bytes, Pool, Allocator}
use ntosebpfext.Ntos.Types.{NotifyContext}
use ntosebpfext.Ntos.Context.{context_create, context_destroy}

module _ (al : Allocator) (context_size test_context_size : ℕ) (h : Pool) (input : NotifyContext)
    (bytes : Bytes) (context_size_in data_size_out context_size_out : ℕ)
    (data_out context_out : Bool) where
  -- The two calls in a row.
  abbrev pub create_and_destroy : Cmd Pool (Option (Option NotifyContext × Option Bytes))
  create_and_destroy = do
    (result, made) ←
        context_create al context_size test_context_size (some bytes) (some input) context_size_in
    context_destroy context_size made data_out data_size_out context_out context_size_out
