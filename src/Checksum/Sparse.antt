-- ===== src/Checksum/Sparse.antt =====
-- The combined loop over a buffer computes what the two separate functions compute.
use external_squashfs_tools.Common.{
  ℕ, zero, suc, ◌+◌, ◌*◌, ◌/◌, ◌%◌, ◌^◌, ◌<◌, ◌≡◌, refl, sym, inl, inr, Bool, true, false, ◌&&◌,
  List, [], ◌∷◌, arith, ◌==◌, Bool-cases, length, take, drop, drop-drop,
}
use external_squashfs_tools.Checksum.{
  rotate, get_checksum, sparse_loop, checksum_sparse, zero_bytes, zero_longs, all_zero,
}

rotate-lt : (c : ℕ) → c < 2 ^ 16 → rotate c < 2 ^ 16
rotate-lt c h = ground arith

rotate-zero : (c : ℕ) → c < 2 ^ 16 → (rotate c + 0) % 2 ^ 16 ≡ rotate c
rotate-zero c h = let l = rotate-lt c h in omega arith

sparse_loop_lem :
    (buff : List ℕ) (c : ℕ) (sparse : Bool)
    → c < 2 ^ 16
    → sparse_loop buff c sparse ≡ (get_checksum buff c, sparse && zero_bytes buff)
unfolding sparse_loop get_checksum
sparse_loop_lem [] c sparse h = ground arith
sparse_loop_lem (b ∷ buff) c sparse h = elim (Bool-cases (b == 0)) [
  | inl e ↦
      let z : b ≡ 0 = ground (arith, e) in
      rw (e, sparse_loop_lem buff (rotate c) sparse (rotate-lt c h), z, rotate-zero c h) refl
  | inr e ↦
      rw (e, sparse_loop_lem buff ((rotate c + b) % 2 ^ 16) false (omega arith)) (ground arith)
]

zero_bytes-split :
    (n : ℕ) (bs : List ℕ) → zero_bytes bs ≡ (zero_bytes (take n bs) && zero_bytes (drop n bs))
zero_bytes-split zero bs = refl
zero_bytes-split (suc n) [] = refl
zero_bytes-split (suc n) (b ∷ bs) = ground (arith, zero_bytes-split n bs)

zero_longs-split :
    (n : ℕ) (bs : List ℕ) → (zero_longs n bs && zero_bytes (drop (8 * n) bs)) ≡ zero_bytes bs
zero_longs-split zero bs = refl
zero_longs-split (suc n) bs =
    let r : 8 * suc n ≡ 8 + 8 * n = omega arith in
    rw (r, drop-drop 8 (8 * n) bs, zero_bytes-split 8 bs, sym (zero_longs-split n (drop 8 bs)))
      (ground arith)

all_zero-bytes : (bs : List ℕ) → all_zero bs ≡ zero_bytes bs
unfolding all_zero
all_zero-bytes bs = rw (sym (zero_longs-split (length bs / 8) bs)) (ground arith)

-- `checksum_sparse` gives the checksum that `get_checksum` gives from 0, and says that the
-- buffer is sparse exactly when `all_zero` does.
pub checksum_sparse-get_checksum :
    (buff : List ℕ) → checksum_sparse buff ≡ (get_checksum buff 0, all_zero buff)
unfolding checksum_sparse
checksum_sparse-get_checksum buff =
    rw (all_zero-bytes buff) (sparse_loop_lem buff 0 true (omega arith))
