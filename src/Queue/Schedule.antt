-- ===== src/Queue/Schedule.antt =====
-- Any interleaving of the threads' critical sections, from `queue_init` on.
use native.Mathlib.Decide.{dec_lt}
use external_squashfs_tools.Common.{
  ℕ, ◌+◌, ◌≤◌, ◌≡◌, sym, ap, ◌∙◌, ◌↔◌, true, Option, none, some, List, [], ◌∷◌, ◌++◌, append_assoc,
  arith, Bool-cases, length, get_or,
}
use external_squashfs_tools.Queue.{
  Queue, add_overflow, multiply_overflow, queue_init, made, queue_put, queue_get, queue_empty,
  queue_flush, dump_queue, empty_mark, full_mark,
}
use external_squashfs_tools.Queue.Refine.{
  IsValid, fill, contents, length-contents, put-full, put-room, get-empty, get-some, fill_facts,
  stored-IsValid, loaded-IsValid, contents-stored, contents-loaded, put_waits_iff, mod_cases, live,
  loaded, live,
}

-- One turn of one thread. A turn whose call has to wait changes nothing.
pub data Turn : Type 0 where
  producer : ℕ → Turn
  consumer : Turn

-- The queue, what was accepted so far and what was delivered so far, each in order.
pub record Trace : Type 0 where
  pub queue : Queue
  pub accepted : List ℕ
  pub delivered : List ℕ

produced : ℕ → Trace → Option Queue → Trace
produced x t none = t
produced x t (some q) = record t { queue = q; accepted = t.accepted ++ (x ∷ []) }

consumed : Trace → Option (ℕ × Queue) → Trace
consumed t none = t
consumed t (some (x, q)) = record t { queue = q; delivered = t.delivered ++ (x ∷ []) }

unfoldable pub turn : Trace → Turn → Trace
unfolding produced consumed
turn t (producer x) = produced x t (queue_put t.queue x)
turn t consumer = consumed t (queue_get t.queue)

unfoldable pub run : Trace → List Turn → Trace
unfolding turn
run t [] = t
run t (o ∷ os) = run (turn t o) os

pub record InOrder (t : Trace) : Type 0 where
  pub valid : IsValid t.queue
  pub order : t.delivered ++ contents t.queue ≡ t.accepted

put-InOrder : (t : Trace) (x : ℕ) → InOrder t → InOrder (turn t (producer x))
unfolding turn
put-InOrder t x i = elim (dec_lt (fill t.queue + 1) t.queue.size) [
  | yes h ↦ rw (put-room i.valid x h) (record {
    valid = stored-IsValid i.valid x;
    order =
        ap (λ l. t.delivered ++ l) (contents-stored i.valid x h)
        ∙ sym (append_assoc t.delivered (contents t.queue) (x ∷ []))
        ∙ ap (λ l. l ++ (x ∷ [])) i.order;
  })
  | no h ↦ rw (put-full i.valid x (omega (arith, fill_facts i.valid))) i
]

get-InOrder : (t : Trace) → InOrder t → InOrder (turn t consumer)
unfolding turn
get-InOrder t i = elim (dec_lt 0 (fill t.queue)) [
  | yes h ↦ rw (get-some i.valid h) (record {
    valid = loaded-IsValid i.valid;
    order =
        append_assoc t.delivered (first ∷ []) (contents (loaded t.queue))
        ∙ ap (λ l. t.delivered ++ l) (sym (contents-loaded i.valid h))
        ∙ i.order;
  })
  | no h ↦ rw (get-empty i.valid (omega arith)) i
]
  where
    first : ℕ
    first = get_or t.queue.slots t.queue.readp 0

run-InOrder : (os : List Turn) (t : Trace) → InOrder t → InOrder (run t os)
unfolding run
run-InOrder [] t i = i
run-InOrder (producer x ∷ os) t i = run-InOrder os (turn t (producer x)) (put-InOrder t x i)
run-InOrder (consumer ∷ os) t i = run-InOrder os (turn t consumer) (get-InOrder t i)

abbrev pub start : Queue → Trace
start q = record { queue = q; accepted = []; delivered = [] }

contents-nil : (q : Queue) → fill q ≡ 0 → contents q ≡ []
contents-nil q e = ap (live q.slots q.size q.readp) e

-- If `queue_init` succeeds and `malloc` gave the array that it was asked for, the queue is valid,
-- empty and of the requested size.
pub init_lem :
    (storage : List ℕ) (size : ℕ) {q : Queue}
    → length storage ≡ size + 1
    → queue_init true (some storage) size ≡ made q
    → IsValid q × (contents q ≡ []) × (q.size ≡ size + 1)
unfolding queue_init
init_lem storage size {q} l e =
    ground (arith, Bool-cases (add_overflow size 1), Bool-cases (multiply_overflow (size + 1) 8))

-- Whatever the interleaving of producers and consumers of a fresh queue: what was delivered,
-- followed by what is still queued, is exactly what was accepted, in order.
pub run_fifo :
    (storage : List ℕ) (size : ℕ) (os : List Turn) {q : Queue}
    → length storage ≡ size + 1
    → queue_init true (some storage) size ≡ made q
    → let t = run (start q) os in t.delivered ++ contents t.queue ≡ t.accepted
run_fifo storage size os {q} l e =
    let (v, c, s) = init_lem storage size l e in
    (run-InOrder os (start q) (record { valid = v; order = c })).order

-- `queue_flush` drops everything that is queued and `queue_empty` then holds; `queue_empty` holds
-- of a valid queue exactly when its list is empty.
pub flush_empty :
    {q : Queue}
    → IsValid q
    → IsValid (queue_flush q)
      × (contents (queue_flush q) ≡ [])
      × (queue_empty (queue_flush q) ≡ true)
      × ((queue_empty q ≡ true) ↔ (contents q ≡ []))
unfolding queue_flush queue_empty
flush_empty {q} v = (
  record { read_in = v.write_in; write_in = v.write_in; storage = v.storage },
  contents-nil (queue_flush q) (ground arith),
  ground arith,
  (
    (λ e. contents-nil q (ground (arith, v.read_in, v.write_in))),
    (λ e. ground (arith, v.read_in, v.write_in, ap length e, length-contents q)),
  ),
)

-- `dump_queue` prints the capacity, the number of queued pointers, "(EMPTY)" exactly for an empty
-- list and "(FULL)" exactly when a producer would wait, in a queue made for at least one pointer.
pub dump_lem :
    {q : Queue} (x : ℕ)
    → IsValid q
    → 2 ≤ q.size
    → let (capacity, n, mark) = dump_queue q in
      (capacity + 1 ≡ q.size)
      × (n ≡ length (contents q))
      × ((mark ≡ empty_mark) ↔ (contents q ≡ []))
      × ((mark ≡ full_mark) ↔ (queue_put q x ≡ none))
unfolding dump_queue
dump_lem {q} x v two = (
  omega arith,
  sym (length-contents q),
  (
    (λ e. contents-nil q (ground (arith, v.read_in, v.write_in))),
    (λ e. ground (arith, v.read_in, v.write_in, ap length e, length-contents q)),
  ),
  (
    (λ e. (put_waits_iff v x).1 (ground (arith, mod_cases q.size (q.writep + 1)))),
    (λ e. ground (arith, mod_cases q.size (q.writep + 1), (put_waits_iff v x).0 e)),
  ),
)
