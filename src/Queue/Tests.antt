-- ===== src/Queue/Tests.antt =====
-- The theorems on queues at concrete inputs.
use external_squashfs_tools.Common.{
  ◌-◌, ◌^◌, ◌≡◌, refl, true, none, some, List, [], ◌∷◌, ◌++◌, arith,
}
use external_squashfs_tools.Queue.{Queue, queue_init, made, queue_put, queue_get, bad_error}
use external_squashfs_tools.Queue.Fifo
use external_squashfs_tools.Queue.Refine.{
  IsValid, contents, view, view_pair, put_refines, get_refines,
}
use external_squashfs_tools.Queue.Schedule.{producer, consumer, Turn, start, run, run_fifo}

-- Pointers 8 and 9, round the end of an array of three slots: full.
abbrev wrapped : Queue
wrapped = record { size = 3; readp = 2; writep = 1; slots = 9 ∷ 7 ∷ 8 ∷ [] }

wrapped-IsValid : IsValid wrapped
wrapped-IsValid = omega arith

abbrev fresh : Queue
fresh = record { size = 3; readp = 0; writep = 0; slots = 0 ∷ 0 ∷ 0 ∷ [] }

-- The third producer has to wait, and so has the last consumer.
abbrev turns : List Turn
turns =
    producer 1
    ∷ producer 2
    ∷ producer 3
    ∷ consumer
    ∷ producer 4
    ∷ consumer
    ∷ consumer
    ∷ consumer
    ∷ []

init_fresh : queue_init true (some (0 ∷ 0 ∷ 0 ∷ [])) 2 ≡ made fresh
unfolding queue_init
init_fresh = refl

init_too_large : queue_init true none (2 ^ 31 - 1) ≡ bad_error
unfolding queue_init
init_too_large = refl

turns_delivered : (run (start fresh) turns).delivered ≡ 1 ∷ 2 ∷ 4 ∷ []
unfolding run queue_put queue_get
turns_delivered = refl

put_refines_example : view (queue_put wrapped 5) ≡ Fifo.put 2 (8 ∷ 9 ∷ []) 5
put_refines_example = put_refines wrapped-IsValid 5

get_refines_example : view_pair (queue_get wrapped) ≡ Fifo.get (8 ∷ 9 ∷ [])
get_refines_example = get_refines wrapped-IsValid

run_fifo_example : let t = run (start fresh) turns in t.delivered ++ contents t.queue ≡ t.accepted
run_fifo_example = run_fifo (0 ∷ 0 ∷ 0 ∷ []) 2 turns refl init_fresh
