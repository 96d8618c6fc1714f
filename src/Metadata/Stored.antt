-- ===== src/Metadata/Stored.antt =====
-- A block that is stored is read back.
use external_squashfs_tools.Common.{
  ℕ, ◌+◌, ◌-◌, ◌*◌, ◌%◌, ◌^◌, ◌≤◌, ◌<◌, ◌≡◌, refl, sym, ap, ◌∙◌, ◌⊎◌, inl, inr, Bool, true, false,
  ◌||◌, Option, none, some, List, [], ◌++◌, append_assoc, arith, ltb, leb, ◌==◌, if◌then◌else◌,
  Bool-cases, Option-cases, length, length-append, take, take_exact, drop_exact, take_all,
}
use mathlib.Core.Option.{some-injective}
use mathlib.Core.Path.{subst}
use external_squashfs_tools.Directory.Bytes.{swap_le, unswap_le-swap_le}
use external_squashfs_tools.Directory.Write.{metadata_size}
use external_squashfs_tools.Metadata.{
  compressed_bit, is_compressed, compressed_size, choose, mangle2, read_fs_bytes, read_content,
  read_block,
}

-- The bytes at a position behind others.
pub read_at :
    (pre xs post : List ℕ) (p n : ℕ)
    → p ≡ length pre
    → n ≡ length xs
    → read_fs_bytes (pre ++ (xs ++ post)) p n ≡ some xs
unfolding read_fs_bytes
read_at pre xs post p n hp hn =
    let whole = length-append pre (xs ++ post) in
    let part = length-append xs post in
    let fits : leb (p + n) (length (pre ++ (xs ++ post))) ≡ true =
      ground (arith, whole, part, hp, hn) in
    rw (fits, drop_exact pre (xs ++ post) p (sym hp), take_exact xs post n (sym hn)) refl

module _ (compress : List ℕ → ℕ → Option (List ℕ)) (compress_thresh_per : ℕ)
    (uncompress : List ℕ → ℕ → Option (List ℕ)) where
  -- The decompressor undoes the compressor on a block that was compressed to something.
  abbrev pub IsInverse : Type 0
  IsInverse =
      (s c : List ℕ)
      → compress s metadata_size ≡ some c
      → 0 < length c
      → uncompress c metadata_size ≡ some s

  -- A block and what it is stored as.
  abbrev pub IsStored : Bool → List ℕ → List ℕ → Type 0
  IsStored noI raw enc =
      (c_byte : ℕ) × (d : List ℕ) × (mangle2 compress compress_thresh_per noI false metadata_size
          raw
        ≡ some (c_byte, d))
      × (enc ≡ swap_le 2 c_byte ++ take (compressed_size (c_byte % 2 ^ 16)) d)

  -- The two ways to store a block.
  abbrev pub Coded : List ℕ → ℕ → List ℕ → Type 0
  Coded raw c_byte d =
      ((c_byte ≡ length raw + compressed_bit) × (d ≡ raw))
      ⊎ ((c_byte ≡ length d)
          × (0 < length d)
          × (length d < length raw)
          × (compress raw metadata_size ≡ some d))

  choose-Coded :
      (raw c : List ℕ)
      → (length c ≡ 0) ⊎ (compress raw metadata_size ≡ some c)
      → Coded raw
          (choose compress compress_thresh_per compressed_bit raw c).0
          (choose compress compress_thresh_per compressed_bit raw c).1
  unfolding choose
  choose-Coded raw c h =
      elim (Bool-cases (
        (length c == 0)
        || (leb (length raw) (length c)
            || ltb (length raw * (100 - compress_thresh_per)) (length c * 100)))) [
              | inl e ↦ rw e (inl (refl, refl))
              | inr e ↦
                  rw e (inr (refl, ground (arith, e), ground (arith, e), ground (arith, e, h)))
            ]

  mangle2-choose :
      (noI : Bool) (raw : List ℕ) (c_byte : ℕ) (d c : List ℕ)
      → (if noI then some [] else compress raw metadata_size) ≡ some c
      → mangle2 compress compress_thresh_per noI false metadata_size raw ≡ some (c_byte, d)
      → choose compress compress_thresh_per compressed_bit raw c ≡ (c_byte, d)
  unfolding mangle2
  mangle2-choose noI raw c_byte d c e h =
      let made : mangle2 compress compress_thresh_per noI false metadata_size raw
          ≡ some (choose compress compress_thresh_per compressed_bit raw c) =
        rw (e, mangle2) refl in
      some-injective (choose compress compress_thresh_per compressed_bit raw c) (c_byte, d)
        (sym made ∙ h)

  mangle2-none :
      (noI : Bool) (raw : List ℕ) (c_byte : ℕ) (d : List ℕ)
      → (if noI then some [] else compress raw metadata_size) ≡ none
      → mangle2 compress compress_thresh_per noI false metadata_size raw ≡ some (c_byte, d)
      → ⊥
  unfolding mangle2
  mangle2-none noI raw c_byte d e h =
      let made : mangle2 compress compress_thresh_per noI false metadata_size raw ≡ none =
        rw (e, mangle2) refl in
      cc (made, h)

  room_kept :
      (noI : Bool) (raw c : List ℕ)
      → (if noI then some [] else compress raw metadata_size) ≡ some c
      → (length c ≡ 0) ⊎ (compress raw metadata_size ≡ some c)
  room_kept true raw c e = inl (ap length (some-injective c [] (sym e)))
  room_kept false raw c e = inr e

  mangle2-Coded :
      (noI : Bool) (raw : List ℕ) (c_byte : ℕ) (d : List ℕ)
      → mangle2 compress compress_thresh_per noI false metadata_size raw ≡ some (c_byte, d)
      → Coded raw c_byte d
  mangle2-Coded noI raw c_byte d h =
      elim (Option-cases (if noI then some [] else compress raw metadata_size)) [
        | inl e ↦ absurd (mangle2-none noI raw c_byte d e h)
        | inr (c, e) ↦
            subst (λ p. Coded raw p.0 p.1) (mangle2-choose noI raw c_byte d c e h)
              (choose-Coded raw c (room_kept noI raw c e))
      ]

  -- What is stored of a block: the number and the bytes, whose count the number gives.
  size_of_code :
      (raw : List ℕ) (c_byte : ℕ) (d : List ℕ)
      → 0 < length raw
      → length raw ≤ metadata_size
      → Coded raw c_byte d
      → (c_byte < 2 ^ 16) × (compressed_size c_byte ≡ length d)
  size_of_code raw c_byte d hp hl (inl (e, f)) = let g = ap length f in ground arith
  size_of_code raw c_byte d hp hl (inr (e, f, g, h)) = ground arith

  module _ (inverse : IsInverse) where
    read_content-Coded :
        (pre post raw : List ℕ) (start c_byte : ℕ) (d : List ℕ) (compressed : Bool)
        → start + 2 ≡ length pre
        → 0 < length raw
        → length raw ≤ metadata_size
        → compressed ≡ is_compressed c_byte
        → Coded raw c_byte d
        → read_content uncompress false false (pre ++ (d ++ post)) start 2 0 (length d) compressed
          ≡ some (raw, start + 2 + length d)
    unfolding read_content
    read_content-Coded pre post raw start c_byte d compressed hs hp hl hc (inl (e, f)) =
        let plain : compressed ≡ false = ground arith in
        let g = ap length f in
        let small : ltb metadata_size (length d) ≡ false = ground arith in
        rw (small, read_at pre d post (start + 2) (length d) hs refl, read_content, plain)
          (ap (λ s. some (s, start + 2 + length d)) f)
    read_content-Coded pre post raw start c_byte d compressed hs hp hl hc (inr (e, f, g, h)) =
        let packed : compressed ≡ true = ground arith in
        let small : ltb metadata_size (length d) ≡ false = ground arith in
        rw
          (
            small,
            read_at pre d post (start + 2) (length d) hs refl,
            read_content,
            packed,
            inverse raw d h f,
          )
          refl

    read_block-Coded :
        (pre raw d post : List ℕ) (start c_byte : ℕ)
        → start ≡ length pre
        → 0 < length raw
        → length raw ≤ metadata_size
        → Coded raw c_byte d
        → read_block uncompress false false (pre ++ (swap_le 2 c_byte ++ (d ++ post))) start 0
          ≡ some (raw, start + 2 + length d)
    unfolding read_block
    read_block-Coded pre raw d post start c_byte hs hp hl coded =
        let bs = swap_le 2 c_byte in
        let size = size_of_code raw c_byte d hp hl coded in
        let number = unswap_le-swap_le 2 c_byte size.0 in
        rw (read_at pre bs (d ++ post) start 2 hs refl, read_block, number, size.1)
          (subst
            (λ image.
              read_content uncompress false false image start 2 0 (length d) (is_compressed c_byte)
              ≡ some (raw, start + 2 + length d))
            (append_assoc pre bs (d ++ post))
            (read_content-Coded (pre ++ bs) post raw start c_byte d (is_compressed c_byte)
              (omega (arith, length-append pre bs, hs)) hp hl refl coded))

    -- The block comes back, with the position behind it.
    pub read_block-Stored :
        (noI : Bool) (pre raw enc post : List ℕ) (start : ℕ)
        → start ≡ length pre
        → 0 < length raw
        → length raw ≤ metadata_size
        → IsStored noI raw enc
        → read_block uncompress false false (pre ++ (enc ++ post)) start 0
          ≡ some (raw, start + length enc)
    read_block-Stored noI pre raw enc post start hs hp hl (c_byte, d, m, e) =
        let coded = mangle2-Coded noI raw c_byte d m in
        let size = size_of_code raw c_byte d hp hl coded in
        let short : c_byte % 2 ^ 16 ≡ c_byte = omega (arith, size) in
        let bs = swap_le 2 c_byte in
        let kept : enc ≡ bs ++ d = e ∙ rw (short, size.1, take_all d) refl in
        rw (kept, append_assoc bs d post)
          (read_block-Coded pre raw d post start c_byte hs hp hl coded
            ∙ ap (λ n. some (raw, n)) (omega arith))
