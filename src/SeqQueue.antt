-- ===== src/SeqQueue.antt =====
-- The queues that deliver buffers in the order of their sequence numbers: the `seq_queue_*`
-- functions of squashfs-tools/caches-queues-lists.c, with the hash table macros of
-- squashfs-tools/caches-queues-lists.h. Each function below is one critical section.
pub mod Delivery
mod Tests
use external_squashfs_tools.Common.{
  ℕ, ◌+◌, ◌-◌, ◌%◌, ◌^◌, Bool, Option, none, some, List, [], ◌∷◌, ◌==◌, if◌then◌else◌,
}

-- `struct file_buffer`: `block` stands for what is in the buffer.
pub record FileBuffer : Type 0 where
  pub sequence : ℕ
  pub fragment : Bool
  pub block : ℕ

-- A chain is the list of the entries on the links `seq_next`.
pub record SeqQueue : Type 0 where
  pub fragment_count : ℕ
  pub block_count : ℕ
  pub hash_table : ℕ → List FileBuffer

-- CALCULATE_SEQ_HASH.
abbrev pub seq_hash : ℕ → ℕ
seq_hash n = n % 2 ^ 16

pub seq_queue_init : SeqQueue
seq_queue_init = record { fragment_count = 0; block_count = 0; hash_table = λ h. [] }

abbrev pub set_chain : (ℕ → List FileBuffer) → ℕ → List FileBuffer → ℕ → List FileBuffer
set_chain table hash chain h = if h == hash then chain else table h

pub insert_seq_hash_table : FileBuffer → (ℕ → List FileBuffer) → ℕ → List FileBuffer
insert_seq_hash_table entry table =
    set_chain table (seq_hash entry.sequence) (entry ∷ table (seq_hash entry.sequence))

-- The loop over a chain.
abbrev pub find_seq : ℕ → List FileBuffer → Option FileBuffer
find_seq sequence [] = none
find_seq sequence (entry ∷ chain) =
    if entry.sequence == sequence then some entry else find_seq sequence chain

-- The chain without the entry that the loop finds.
abbrev pub remove_seq : ℕ → List FileBuffer → List FileBuffer
remove_seq sequence [] = []
remove_seq sequence (entry ∷ chain) =
    if entry.sequence == sequence then chain else entry ∷ remove_seq sequence chain

pub seq_queue_put : SeqQueue → FileBuffer → SeqQueue
seq_queue_put queue entry = record {
  fragment_count = if entry.fragment then queue.fragment_count + 1 else queue.fragment_count;
  block_count = if entry.fragment then queue.block_count else queue.block_count + 1;
  hash_table = insert_seq_hash_table entry queue.hash_table;
}

pub take_entry : SeqQueue → FileBuffer → ℕ → SeqQueue
take_entry queue entry sequence = record {
  fragment_count = if entry.fragment then queue.fragment_count - 1 else queue.fragment_count;
  block_count = if entry.fragment then queue.block_count else queue.block_count - 1;
  hash_table =
      set_chain queue.hash_table (seq_hash sequence)
        (remove_seq sequence (queue.hash_table (seq_hash sequence)));
}

-- With the static `sequence`, an unsigned int, before the call and behind it; `none`: the caller
-- waits.
pub seq_queue_get : (sequence : ℕ) → SeqQueue → Option (FileBuffer × (ℕ × SeqQueue))
seq_queue_get sequence queue = elim (find_seq sequence (queue.hash_table (seq_hash sequence))) [
  | none ↦ none
  | some entry ↦ some (entry, ((sequence + 1) % 2 ^ 32, take_entry queue entry sequence))
]

pub seq_queue_flush : SeqQueue → SeqQueue
seq_queue_flush queue = record { fragment_count = 0; block_count = 0; hash_table = λ h. [] }
