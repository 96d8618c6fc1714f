-- ===== src/Queue.antt =====
-- The bounded queues that pass pointers between threads: the `queue_*` functions of
-- squashfs-tools/caches-queues-lists.c. Each function below is one critical section.
pub mod Fifo
pub mod Refine
pub mod Schedule
mod Tests
use external_squashfs_tools.Common.{
  ℕ, ◌+◌, ◌-◌, ◌/◌, ◌%◌, ◌^◌, Bool, true, false, Option, none, some, List, ltb, leb, ◌==◌,
  if◌then◌else◌, set, get_or,
}

-- `data[]` holds `void *`, here an address. The mutex and the conditions are the schedule's.
pub record Queue : Type 0 where
  pub size : ℕ
  pub readp : ℕ
  pub writep : ℕ
  pub slots : List ℕ

abbrev pub int_max : ℕ
int_max = 2 ^ 31 - 1

-- `add_overflow` and `multiply_overflow` of mksquashfs.c, over non-negative ints.
pub add_overflow : ℕ → ℕ → Bool
add_overflow a b = ltb (int_max - a) b

pub multiply_overflow : ℕ → ℕ → Bool
multiply_overflow a multiplier = ltb (int_max / multiplier) a

-- How `queue_init` ends: MEM_ERROR and BAD_ERROR exit the program.
pub data Init : Type 0 where
  mem_error bad_error : Init
  made : Queue → Init

-- The arguments are what the two calls of `malloc` return; the second is the new array, uninitialised.
pub queue_init : (got_struct : Bool) (storage : Option (List ℕ)) (size : ℕ) → Init
unfolding add_overflow multiply_overflow
queue_init false storage size = mem_error
queue_init true storage size =
    if add_overflow size 1
    then bad_error
    else if multiply_overflow (size + 1) 8
    then bad_error
    else elim storage [
      | none ↦ mem_error
      | some slots ↦ made (record { size = size + 1; readp = 0; writep = 0; slots = slots })
    ]

-- `none`: the caller waits on `full`, and tests again when it is woken.
pub queue_put : Queue → ℕ → Option Queue
queue_put q x =
    let nextp = (q.writep + 1) % q.size in
    if nextp == q.readp
    then none
    else some (record q { slots = set q.slots q.writep x; writep = nextp })

-- `none`: the caller waits on `empty`.
pub queue_get : Queue → Option (ℕ × Queue)
queue_get q =
    if q.readp == q.writep
    then none
    else some (get_or q.slots q.readp 0, record q { readp = (q.readp + 1) % q.size })

pub queue_empty : Queue → Bool
queue_empty q = q.readp == q.writep

pub queue_flush : Queue → Queue
queue_flush q = record q { readp = q.writep }

-- What `dump_queue` prints: the capacity, the fill, and the marks "(EMPTY)" and "(FULL)".
pub data Mark : Type 0 where
  empty_mark full_mark no_mark : Mark

pub dump_queue : Queue → ℕ × ℕ × Mark
dump_queue q = (
  q.size - 1,
  (if leb q.readp q.writep then q.writep - q.readp else q.size - q.readp + q.writep),
  (if q.readp == q.writep
      then empty_mark
      else if (q.writep + 1) % q.size == q.readp
      then full_mark
      else no_mark),
)
