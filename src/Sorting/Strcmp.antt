-- ===== src/Sorting/Strcmp.antt =====
-- `strcmp` orders the names, and what it is for a list to be in this order.
use external_squashfs_tools.Common.{ℕ, ◌≡◌, refl, true, false, List, [], ◌∷◌, arith}
use external_squashfs_tools.Sorting.{strcmp_le, DirEntry}

pub strcmp_le_total : (s t : List ℕ) → strcmp_le s t ≡ false → strcmp_le t s ≡ true
strcmp_le_total [] t h = ground arith
strcmp_le_total (c ∷ s) [] h = refl
strcmp_le_total (c ∷ s) (d ∷ t) h = ground (arith, strcmp_le_total s t)

pub strcmp_le_trans :
    (s t u : List ℕ) → strcmp_le s t ≡ true → strcmp_le t u ≡ true → strcmp_le s u ≡ true
strcmp_le_trans [] t u h k = refl
strcmp_le_trans (c ∷ s) [] u h k = ground arith
strcmp_le_trans (c ∷ s) (d ∷ t) [] h k = ground arith
strcmp_le_trans (c ∷ s) (d ∷ t) (e ∷ u) h k = ground (arith, strcmp_le_trans s t u)

module _ {ℓ} {A : Type ℓ} where
  abbrev pub AllGe : DirEntry A → List (DirEntry A) → Type 0
  AllGe a [] = Unit
  AllGe a (b ∷ l) = (strcmp_le a.name b.name ≡ true) × AllGe a l

  abbrev pub IsSorted : List (DirEntry A) → Type 0
  IsSorted [] = Unit
  IsSorted (a ∷ l) = AllGe a l × IsSorted l

  pub AllGe-trans :
      (a b : DirEntry A) (l : List (DirEntry A))
      → strcmp_le a.name b.name ≡ true
      → AllGe b l
      → AllGe a l
  AllGe-trans a b [] h k = tt
  AllGe-trans a b (c ∷ l) h k =
      (strcmp_le_trans a.name b.name c.name h k.0, AllGe-trans a b l h k.1)
