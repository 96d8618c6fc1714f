-- ===== src/Metadata/Tests.antt =====
-- A run-length compressor, and inodes of several blocks.
use mathlib.Core.Option.{some-injective}
use external_squashfs_tools.Common.{
  ℕ, suc, ◌+◌, ◌*◌, ◌/◌, ◌%◌, ◌<◌, ◌≡◌, refl, sym, ap, inl, inr, Bool, true, false, ◌&&◌, Option,
  none, some, List, [], ◌∷◌, arith, ◌==◌, if◌then◌else◌, Bool-cases, length, replicate,
}
use external_squashfs_tools.Directory.Write.{metadata_size}
use external_squashfs_tools.Metadata.Stored.{IsInverse}
use external_squashfs_tools.Metadata.Placed.{AllNonempty}
use external_squashfs_tools.Metadata.References.{Saved, write_inodes-read_inode_table}

abbrev same : ℕ → List ℕ → Bool
same b [] = true
same b (c ∷ s) = (c == b) && same b s

-- A block of one byte repeated is stored as the byte and its count; others are not compressed.
abbrev packed : ℕ → List ℕ → List ℕ
packed b s = if same b s then b ∷ suc (length s) % 256 ∷ suc (length s) / 256 ∷ [] else []

abbrev pub run_length : List ℕ → ℕ → Option (List ℕ)
run_length [] n = some []
run_length (b ∷ s) n = some (packed b s)

abbrev pub expand : List ℕ → ℕ → Option (List ℕ)
expand (b ∷ lo ∷ hi ∷ []) n = some (replicate (lo + 256 * hi) b)
expand _ n = none

pub run_length_works : (s : List ℕ) → (c : List ℕ) × (run_length s metadata_size ≡ some c)
run_length_works [] = ([], refl)
run_length_works (b ∷ s) = (packed b s, refl)

replicate-same : (b : ℕ) (s : List ℕ) → same b s ≡ true → replicate (length s) b ≡ s
replicate-same b [] h = refl
replicate-same b (c ∷ s) h = ground (arith, replicate-same b s)

expand-packed :
    (b : ℕ) (s : List ℕ)
    → 0 < length (packed b s)
    → expand (packed b s) metadata_size ≡ some (b ∷ s)
expand-packed b s h = elim (Bool-cases (same b s)) [
  | inl e ↦
      let n : suc (length s) % 256 + 256 * (suc (length s) / 256) ≡ suc (length s) = omega arith in
      rw (e, n) (ap (λ r. some (b ∷ r)) (replicate-same b s e))
  | inr e ↦ let none_left : length (packed b s) ≡ 0 = rw e refl in absurd (omega arith)
]

pub run_length_inverse : IsInverse run_length 0 expand
run_length_inverse [] c h p = absurd (omega (arith, ap length (some-injective c [] (sym h))))
run_length_inverse (b ∷ s) c h p =
    let e = some-injective (packed b s) c h in
    rw (sym e) (expand-packed b s (omega (arith, ap length e)))

abbrev inodes : List (List ℕ)
inodes = replicate 9000 7 ∷ (1 ∷ 2 ∷ 3 ∷ []) ∷ replicate 32 5 ∷ []

inodes_nonempty : AllNonempty inodes
inodes_nonempty = (omega arith, (omega arith, (omega arith, tt)))

write_inodes-read_inode_table_example : Saved run_length 0 false expand inodes (104 ∷ 115 ∷ [])
write_inodes-read_inode_table_example =
    write_inodes-read_inode_table run_length 0 false expand run_length_works run_length_inverse
      inodes (104 ∷ 115 ∷ []) inodes_nonempty
