-- ===== src/Sorting.antt =====
-- `sort_directory` of squashfs-tools/mksquashfs.c: the bottom-up merge sort of a directory's
-- linked list by name.
pub mod Strcmp
pub mod Merge
pub mod Pass
pub mod Runs
pub mod Sorted
mod Tests
use external_squashfs_tools.Common.{
  ℕ, zero, suc, ◌*◌, Bool, true, false, ◌&&◌, ◌||◌, List, [], ◌∷◌, ◌++◌, ltb, ◌==◌, if◌then◌else◌,
  length, take, drop,
}

-- `strcmp(s, t) <= 0`, over the bytes before the terminators.
abbrev pub strcmp_le : List ℕ → List ℕ → Bool
strcmp_le [] t = true
strcmp_le (c ∷ s) [] = false
strcmp_le (c ∷ s) (d ∷ t) = ltb c d || ((c == d) && strcmp_le s t)

-- `struct dir_ent`: the name, and the rest of the entry.
pub record DirEntry {ℓ} (A : Type ℓ) : Type ℓ where
  pub name : List ℕ
  pub rest : A

module _ {ℓ} {A : Type ℓ} where
  -- The merge of `l1` and the next `len2` entries of `l2`: the output, and where `l2` is left.
  -- The first function goes on with `l1` behind its head `a`.
  pub merge_into :
      (a : DirEntry A)
      → ((len2 : ℕ) → List (DirEntry A) → List (DirEntry A) × List (DirEntry A))
      → (l1 : List (DirEntry A)) → (len2 : ℕ) → (l2 : List (DirEntry A))
      → List (DirEntry A) × List (DirEntry A)
  merge_into a after l1 zero l2 = (a ∷ l1, l2)
  merge_into a after l1 (suc len2) [] = (a ∷ l1, [])
  merge_into a after l1 (suc len2) (b ∷ l2) = elim (strcmp_le a.name b.name) [
    | true ↦ (let r = after (suc len2) (b ∷ l2) in (a ∷ r.0, r.1))
    | false ↦ (let r = merge_into a after l1 len2 l2 in (b ∷ r.0, r.1))
  ]

  pub merge :
      (l1 : List (DirEntry A)) (len2 : ℕ) (l2 : List (DirEntry A))
      → List (DirEntry A) × List (DirEntry A)
  unfolding merge_into
  merge [] len2 l2 = (take len2 l2, drop len2 l2)
  merge (a ∷ l1) len2 l2 = merge_into a (merge l1) l1 len2 l2

  -- One round: `while(l2)`, on fuel.
  pub merge_pass : (fuel stride : ℕ) → List (DirEntry A) → List (DirEntry A)
  merge_pass zero stride l2 = l2
  merge_pass (suc fuel) stride [] = []
  merge_pass (suc fuel) stride (a ∷ l2) =
      let r = merge (take stride (a ∷ l2)) stride (drop stride (a ∷ l2)) in
      r.0 ++ merge_pass fuel stride r.1

  -- `do … while(stride < count)`, on fuel.
  pub sort_loop : (fuel stride count : ℕ) → List (DirEntry A) → List (DirEntry A)
  sort_loop zero stride count list = list
  sort_loop (suc fuel) stride count list =
      let next = merge_pass (length list) stride list in
      elim (ltb (stride * 2) count) [ true ↦ sort_loop fuel (stride * 2) count next | false ↦ next ]

  pub sort_directory : (count : ℕ) → List (DirEntry A) → List (DirEntry A)
  sort_directory count [] = []
  sort_directory count (a ∷ list) =
      if ltb count 2 then a ∷ list else sort_loop count 1 count (a ∷ list)
