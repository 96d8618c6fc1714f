-- ===== src/SeqQueue/Delivery.antt =====
-- Which buffers are delivered, and when.
use external_squashfs_tools.Common.{
  ℕ, ◌+◌, ◌%◌, ◌^◌, ◌≤◌, ◌<◌, ◌≡◌, refl, sym, ap, ◌∙◌, inl, inr, false, Option, none, some, List,
  [], ◌∷◌, arith, ◌==◌, if◌then◌else◌, Bool-cases, Option-cases, length,
}
use external_squashfs_tools.SeqQueue.{
  FileBuffer, SeqQueue, seq_hash, seq_queue_init, insert_seq_hash_table, find_seq, remove_seq,
  seq_queue_put, take_entry, seq_queue_get,
}

-- A turn of a thread that puts a buffer, or of the thread that gets.
pub data Turn : Type 0 where
  put : FileBuffer → Turn
  get : Turn

-- The buffers delivered; a turn that has to wait changes nothing.
pub run : List Turn → ℕ → SeqQueue → List FileBuffer
run [] sequence queue = []
run (put entry ∷ turns) sequence queue = run turns sequence (seq_queue_put queue entry)
run (get ∷ turns) sequence queue = elim (seq_queue_get sequence queue) [
  | none ↦ run turns sequence queue
  | some (entry, (sequence', queue')) ↦ entry ∷ run turns sequence' queue'
]

-- The same over all the buffers put so far, the last one first, from which none is removed.
pub deliver : List Turn → ℕ → List FileBuffer → List FileBuffer
deliver [] sequence entries = []
deliver (put entry ∷ turns) sequence entries = deliver turns sequence (entry ∷ entries)
deliver (get ∷ turns) sequence entries = elim (find_seq sequence entries) [
  | none ↦ deliver turns sequence entries
  | some entry ↦ entry ∷ deliver turns (sequence + 1) entries
]

abbrev lookup : ℕ → SeqQueue → Option FileBuffer
lookup n queue = find_seq n (queue.hash_table (seq_hash n))

lookup-put :
    (n : ℕ) (queue : SeqQueue) (entry : FileBuffer)
    → lookup n (seq_queue_put queue entry)
      ≡ (if entry.sequence == n then some entry else lookup n queue)
unfolding seq_queue_put insert_seq_hash_table
lookup-put n queue entry = elim (Bool-cases (seq_hash n == seq_hash entry.sequence)) [
  | inl e ↦ let same : seq_hash n ≡ seq_hash entry.sequence = ground (arith, e) in rw (e, same) refl
  | inr e ↦ let other : (entry.sequence == n) ≡ false = ground (arith, e) in rw (e, other) refl
]

find-remove :
    (m n : ℕ) (chain : List FileBuffer) → n < m → find_seq m (remove_seq n chain) ≡ find_seq m chain
find-remove m n [] h = refl
find-remove m n (entry ∷ chain) h = elim (Bool-cases (entry.sequence == n)) [
  | inl e ↦ let other : (entry.sequence == m) ≡ false = ground (arith, e) in rw (e, other) refl
  | inr e ↦ rw (e, find-remove m n chain h) refl
]

lookup-take :
    (m n : ℕ) (queue : SeqQueue) (entry : FileBuffer)
    → n < m
    → lookup m (take_entry queue entry n) ≡ lookup m queue
unfolding take_entry
lookup-take m n queue entry h = elim (Bool-cases (seq_hash m == seq_hash n)) [
  | inl e ↦
      let same : seq_hash m ≡ seq_hash n = ground (arith, e) in
      rw (e, sym same) (find-remove m n (queue.hash_table (seq_hash m)) h)
  | inr e ↦ rw e refl
]

-- From `sequence` on, the table holds what was put.
abbrev Holds : ℕ → SeqQueue → List FileBuffer → Type 0
Holds sequence queue entries = (n : ℕ) → sequence ≤ n → lookup n queue ≡ find_seq n entries

get-none :
    (sequence : ℕ) (queue : SeqQueue)
    → lookup sequence queue ≡ none
    → seq_queue_get sequence queue ≡ none
unfolding seq_queue_get
get-none sequence queue e = rw (e, seq_queue_get) refl

get-some :
    (sequence : ℕ) (queue : SeqQueue) (entry : FileBuffer)
    → lookup sequence queue ≡ some entry
    → seq_queue_get sequence queue
      ≡ some (entry, ((sequence + 1) % 2 ^ 32, take_entry queue entry sequence))
unfolding seq_queue_get
get-some sequence queue entry e = rw (e, seq_queue_get) refl

Holds-put :
    (sequence : ℕ) (queue : SeqQueue) (entries : List FileBuffer) (entry : FileBuffer)
    → Holds sequence queue entries
    → Holds sequence (seq_queue_put queue entry) (entry ∷ entries)
Holds-put sequence queue entries entry h = λ n l.
    lookup-put n queue entry ∙ ap (λ o. if entry.sequence == n then some entry else o) (h n l)

Holds-take :
    (sequence : ℕ) (queue : SeqQueue) (entries : List FileBuffer) (entry : FileBuffer)
    → Holds sequence queue entries
    → Holds (sequence + 1) (take_entry queue entry sequence) entries
Holds-take sequence queue entries entry h =
    λ n l. lookup-take n sequence queue entry (omega arith) ∙ h n (omega arith)

run-Holds :
    (turns : List Turn) (sequence : ℕ) (queue : SeqQueue) (entries : List FileBuffer)
    → sequence + length turns < 2 ^ 32
    → Holds sequence queue entries
    → run turns sequence queue ≡ deliver turns sequence entries
unfolding run deliver
run-Holds [] sequence queue entries b h = refl
run-Holds (put entry ∷ turns) sequence queue entries b h =
    run-Holds turns sequence (seq_queue_put queue entry) (entry ∷ entries) (omega (arith, b))
      (Holds-put sequence queue entries entry h)
run-Holds (get ∷ turns) sequence queue entries b h =
    elim (Option-cases (find_seq sequence entries)) [
      | inl e ↦
          let waits = get-none sequence queue (h sequence (omega arith) ∙ e) in
          rw (waits, e, run, deliver) (run-Holds turns sequence queue entries (omega (arith, b)) h)
      | inr (entry, e) ↦
          let gets = get-some sequence queue entry (h sequence (omega arith) ∙ e) in
          let next : (sequence + 1) % 2 ^ 32 ≡ sequence + 1 = omega (arith, b) in
          rw (gets, e, run, deliver, next)
            (ap (λ r. entry ∷ r)
              (run-Holds turns (sequence + 1) (take_entry queue entry sequence) entries
                (omega (arith, b)) (Holds-take sequence queue entries entry h)))
    ]

-- For any turns of the threads on a new queue, from a sequence number on that cannot reach 2^32
-- in that many turns: each get delivers the buffer that was put last with the next number, in
-- whatever order the buffers came, and waits exactly when none was put. The next number is one
-- above that of the buffer delivered before.
pub run-deliver :
    (turns : List Turn) (sequence : ℕ)
    → sequence + length turns < 2 ^ 32
    → run turns sequence seq_queue_init ≡ deliver turns sequence []
unfolding seq_queue_init
run-deliver turns sequence b = run-Holds turns sequence seq_queue_init [] b (λ n l. refl)
