-- ===== src/Checksum/Disk.antt =====
-- The checksum of a file that is on the disk.
use external_squashfs_tools.Common.{
  ℕ, zero, suc, ◌+◌, ◌-◌, ◌≡◌, refl, sym, ap, inl, inr, Option, none, some, List, [], ◌∷◌, ◌++◌,
  ltb, ◌==◌, Bool-cases, Option-cases,
}
use external_squashfs_tools.Checksum.{
  map_option, get_checksum_mem, get_checksum, disk_loop, get_checksum_disk, stored, block_data,
  compressed_size_block,
}

get_checksum-append :
    (xs ys : List ℕ) (c : ℕ) → get_checksum (xs ++ ys) c ≡ get_checksum ys (get_checksum xs c)
unfolding get_checksum
get_checksum-append [] ys c = refl
get_checksum-append (x ∷ xs) ys c = get_checksum-append xs ys _

map_append :
    (content : List ℕ) (c : ℕ) (o : Option (List ℕ))
    → map_option (λ bs. get_checksum bs (get_checksum content c)) o
      ≡ map_option (λ bs. get_checksum bs c) (map_option (λ rest. content ++ rest) o)
map_append content c none = refl
map_append content c (some rest) = ap some (sym (get_checksum-append content rest c))

module _ (cache_lookup : ℕ → Option (List ℕ)) (read_from_disk : ℕ → ℕ → Option (List ℕ)) where
  disk_loop-stored :
      (start l : ℕ) (blocks : List ℕ) (c : ℕ)
      → disk_loop cache_lookup read_from_disk start l blocks c
        ≡ map_option (λ bs. get_checksum bs c) (stored cache_lookup read_from_disk start l blocks)
  unfolding disk_loop get_checksum
  disk_loop-stored start zero blocks c = refl
  disk_loop-stored start (suc l) [] c = refl
  disk_loop-stored start (suc l) (b ∷ blocks) c =
      let n = compressed_size_block b in
      elim (Bool-cases (n == 0)) [
        | inl e ↦ rw (e, disk_loop, stored) (disk_loop-stored start (suc l) blocks c)
        | inr e ↦ elim (Option-cases (block_data cache_lookup read_from_disk start n)) [
          | inl none_read ↦ rw (e, disk_loop, stored, none_read) refl
          | inr (content, has) ↦ elim (Bool-cases (ltb (suc l) n)) [
            | inl over ↦ rw (e, disk_loop, stored, has, over) refl
            | inr fits ↦
                rw
                  (
                    e,
                    disk_loop,
                    stored,
                    has,
                    fits,
                    disk_loop-stored (start + n) (suc l - n) blocks (get_checksum content c),
                  )
                  (map_append content c
                    (stored cache_lookup read_from_disk (start + n) (suc l - n) blocks))
          ]
        ]
      ]

  -- Over any cache, disk and list of blocks: the checksum that is computed block by block is
  -- that of the blocks' bytes put together, and there is one when these can all be read and
  -- the sizes add up.
  pub get_checksum_disk-stored :
      (start l : ℕ) (blocks : List ℕ)
      → get_checksum_disk cache_lookup read_from_disk start l blocks
        ≡ map_option get_checksum_mem (stored cache_lookup read_from_disk start l blocks)
  unfolding get_checksum_disk get_checksum_mem
  get_checksum_disk-stored start l blocks = disk_loop-stored start l blocks 0
