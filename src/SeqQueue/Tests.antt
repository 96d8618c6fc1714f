-- ===== src/SeqQueue/Tests.antt =====
-- Buffers that come out of order.
use external_squashfs_tools.Common.{ℕ, ◌+◌, ◌≡◌, List, [], ◌∷◌, arith, ◌==◌}
use external_squashfs_tools.SeqQueue.{FileBuffer, seq_queue_init}
use external_squashfs_tools.SeqQueue.Delivery.{Turn, put, get, run, deliver, run-deliver}

abbrev buffer : ℕ → FileBuffer
buffer n = record { sequence = n; fragment = n == 8; block = 100 + n }

-- The second get waits; 65543 has the hash of 7.
abbrev turns : List Turn
turns =
    put (buffer 65543)
    ∷ (put (buffer 7) ∷ (get ∷ (get ∷ (put (buffer 9) ∷ (put (buffer 8) ∷ (get ∷ (get ∷ [])))))))

run-deliver_example : run turns 7 seq_queue_init ≡ deliver turns 7 []
run-deliver_example = run-deliver turns 7 (omega arith)
