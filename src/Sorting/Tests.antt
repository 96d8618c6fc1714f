-- ===== src/Sorting/Tests.antt =====
-- A directory of five entries.
use external_squashfs_tools.Common.{ℕ, List, [], ◌∷◌}
use external_squashfs_tools.Sorting.{DirEntry, sort_directory}
use external_squashfs_tools.Sorting.Strcmp.{IsSorted}
use external_squashfs_tools.Sorting.Sorted.{sort_directory-IsSorted}
use mathlib.Core.List.{Permᴰ}

abbrev entry : ℕ → ℕ → ℕ → DirEntry ℕ
entry c d n = record { name = c ∷ d ∷ []; rest = n }

abbrev sample : List (DirEntry ℕ)
sample =
    entry b'l' b'n' 0
    ∷ (entry b'a' b'r' 1 ∷ (entry b's' b'h' 2 ∷ (entry b'a' b'r' 3 ∷ (entry b'c' b'p' 4 ∷ []))))

sort_directory-IsSorted_example :
    IsSorted (sort_directory 5 sample) × Permᴰ (sort_directory 5 sample) sample
sort_directory-IsSorted_example = sort_directory-IsSorted sample
