-- ===== src/Directory/Bytes.antt =====
-- The little-endian fields of the disk structures: the SQUASHFS_SWAP macros of
-- squashfs-tools/squashfs_swap.h over the functions of squashfs-tools/swap.c.
use external_squashfs_tools.Common.{
  ℕ, zero, suc, ◌+◌, ◌*◌, ◌/◌, ◌%◌, ◌^◌, ◌<◌, ◌≡◌, refl, ap, List, [], ◌∷◌, arith, length,
}

-- `n` bytes, the least significant first.
abbrev pub swap_le : ℕ → ℕ → List ℕ
swap_le zero x = []
swap_le (suc n) x = x % 256 ∷ swap_le n (x / 256)

abbrev pub unswap_le : List ℕ → ℕ
unswap_le [] = 0
unswap_le (b ∷ bs) = b + 256 * unswap_le bs

pub length-swap_le : (n x : ℕ) → length (swap_le n x) ≡ n
length-swap_le zero x = refl
length-swap_le (suc n) x = ap suc (length-swap_le n (x / 256))

-- A field that fits comes back.
pub unswap_le-swap_le : (n x : ℕ) → x < 256 ^ n → unswap_le (swap_le n x) ≡ x
unswap_le-swap_le zero x h = omega arith
unswap_le-swap_le (suc n) x h = let e = unswap_le-swap_le n (x / 256) (omega arith) in omega arith
