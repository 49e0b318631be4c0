-- ===== src/HookProvider/Links.antt =====
-- The `LIST_ENTRY` rings of libs/ebpf_ext/ebpf_ext_hook_provider.c. An entry is named by the address of
-- the structure that holds it; a list head by the address of its provider. `insert_tail` and
-- `remove_entry` are the documented effects of `InsertTailList` and `RemoveEntryList`.
pub mod Ring
use ntosebpfext.Base.{ℕ, Bool, ◌==◌, if◌then◌else◌}

pub record Links : Type 0 where
  pub flink : ℕ → ℕ
  pub blink : ℕ → ℕ

abbrev pub put : (ℕ → ℕ) → ℕ → ℕ → ℕ → ℕ
put f a v b = if a == b then v else f b

-- `InitializeListHead`
unfoldable pub initialize_list_head : ℕ → Links → Links
initialize_list_head head l = record {
  flink = put l.flink head head;
  blink = put l.blink head head;
}

-- `IsListEmpty`
unfoldable pub is_list_empty : ℕ → Links → Bool
is_list_empty head l = l.flink head == head

-- `InsertTailList`
unfoldable pub insert_tail_list : ℕ → ℕ → Links → Links
insert_tail_list head entry l = record {
  flink = put (put l.flink entry head) (l.blink head) entry;
  blink = put (put l.blink entry (l.blink head)) head entry;
}

-- `RemoveEntryList`. The removed entry keeps its own two pointers.
unfoldable pub remove_entry_list : ℕ → Links → Links
remove_entry_list entry l = record {
  flink = put l.flink (l.blink entry) (l.flink entry);
  blink = put l.blink (l.flink entry) (l.blink entry);
}
