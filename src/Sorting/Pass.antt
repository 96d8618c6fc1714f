-- ===== src/Sorting/Pass.antt =====
-- The rounds keep the entries, and double the length of the stretches in order.
use external_squashfs_tools.Common.{
  ℕ, zero, suc, ◌*◌, refl, inl, inr, List, [], ◌∷◌, ◌++◌, ltb, Bool-cases, length, take, drop,
  take-append-drop,
}
use external_squashfs_tools.Sorting.{
  strcmp_le, DirEntry, merge, merge_into, merge_pass, sort_loop, sort_directory,
}
use external_squashfs_tools.Sorting.Merge.{merge-left, merge-right}
use mathlib.Core.Path.{subst}
use mathlib.Core.List.{Permᴰ}
use mathlib.Core.List.Permᴰ

module _ {ℓ} {A : Type ℓ} where
  merge-Perm :
      (x : List (DirEntry A)) (n : ℕ) (l2 : List (DirEntry A))
      → Permᴰ ((merge x n l2).0 ++ (merge x n l2).1) (x ++ l2)
  unfolding merge merge_into
  merge-Perm [] n l2 = rw (take-append-drop n l2) (Permᴰ.refl l2)
  merge-Perm (a ∷ x) zero l2 = Permᴰ.refl ((a ∷ x) ++ l2)
  merge-Perm (a ∷ x) (suc n) [] = Permᴰ.refl ((a ∷ x) ++ [])
  merge-Perm (a ∷ x) (suc n) (b ∷ l2) = elim (Bool-cases (strcmp_le a.name b.name)) [
    | inl e ↦ rw (merge-left a b x n l2 e) (Permᴰ.cons refl (merge-Perm x (suc n) (b ∷ l2)))
    | inr e ↦ rw (merge-right a b x n l2 e) (
        Permᴰ.trans (Permᴰ.cons refl (merge-Perm (a ∷ x) n l2))
          (Permᴰ.symm (Permᴰ.middle b (a ∷ x) l2)))
  ]

  pub merge_pass-Perm :
      (fuel stride : ℕ) (l : List (DirEntry A)) → Permᴰ (merge_pass fuel stride l) l
  unfolding merge_pass
  merge_pass-Perm zero stride l = Permᴰ.refl l
  merge_pass-Perm (suc fuel) stride [] = Permᴰ.refl []
  merge_pass-Perm (suc fuel) stride (a ∷ l) =
      let r = merge (take stride (a ∷ l)) stride (drop stride (a ∷ l)) in
      Permᴰ.trans (Permᴰ.append_left r.0 (merge_pass-Perm fuel stride r.1)) (
        subst (λ t. Permᴰ (r.0 ++ r.1) t) (take-append-drop stride (a ∷ l))
          (merge-Perm (take stride (a ∷ l)) stride (drop stride (a ∷ l))))

  sort_loop-Perm :
      (fuel stride count : ℕ) (l : List (DirEntry A)) → Permᴰ (sort_loop fuel stride count l) l
  unfolding sort_loop
  sort_loop-Perm zero stride count l = Permᴰ.refl l
  sort_loop-Perm (suc fuel) stride count l =
      let p = merge_pass-Perm (length l) stride l in
      elim (Bool-cases (ltb (stride * 2) count)) [
        | inl e ↦
            rw (e, sort_loop)
              (Permᴰ.trans (sort_loop-Perm fuel (stride * 2) count (merge_pass (length l) stride l))
                p)
        | inr e ↦ rw (e, sort_loop) p
      ]

  -- Nothing is lost or added.
  pub sort_directory-Perm : (count : ℕ) (l : List (DirEntry A)) → Permᴰ (sort_directory count l) l
  unfolding sort_directory
  sort_directory-Perm count [] = Permᴰ.refl []
  sort_directory-Perm count (a ∷ l) = elim (Bool-cases (ltb count 2)) [
    | inl e ↦ rw e (Permᴰ.refl (a ∷ l))
    | inr e ↦ rw e (sort_loop-Perm count 1 count (a ∷ l))
  ]
