-- ===== src/Queue/Fifo.antt =====
-- What a queue promises: a first-in first-out list of bounded length.
use external_squashfs_tools.Common.{
  ℕ, Option, none, some, List, [], ◌∷◌, ◌++◌, length, leb, if◌then◌else◌,
}

abbrev pub Fifo : Type 0
Fifo = List ℕ

unfoldable pub get : Fifo → Option (ℕ × Fifo)
get [] = none
get (x ∷ xs) = some (x, xs)

unfoldable pub put : ℕ → Fifo → ℕ → Option Fifo
put capacity xs x = if leb capacity (length xs) then none else some (xs ++ (x ∷ []))
