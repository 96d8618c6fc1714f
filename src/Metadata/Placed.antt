-- ===== src/Metadata/Placed.antt =====
-- Where the inodes stand in the blocks, and how `block_ptr` finds them there.
use mathlib.Core.Path.{subst}
use external_squashfs_tools.Common.{
  ℕ, ◌+◌, ◌*◌, ◌/◌, ◌%◌, ◌^◌, ◌<◌, ◌≡◌, refl, sym, ap, ◌∙◌, some, List, [], ◌∷◌, ◌++◌, append-nil,
  append_assoc, arith, length, length-append, drop_exact,
}
use external_squashfs_tools.Directory.Write.{metadata_size}
use external_squashfs_tools.Metadata.{HashTableEntry, lookup_entry, block_ptr}
use external_squashfs_tools.Metadata.Loaded.{Block, raws, encs, Indexed}

abbrev pub concat : List (List ℕ) → List ℕ
concat [] = []
concat (x ∷ xs) = x ++ concat xs

abbrev pub AllNonempty : List (List ℕ) → Type 0
AllNonempty [] = Unit
AllNonempty (x ∷ xs) = (0 < length x) × AllNonempty xs

-- An inode is at a position in the blocks, and its number says where.
pub record Placed (blocks : List Block) (number pos : ℕ) : Type 0 where
  pub before : List Block
  pub behind : List Block
  pub offset : ℕ
  pub split : blocks ≡ before ++ behind
  pub small : offset < metadata_size
  pub numbered : number ≡ length (encs before) * 2 ^ 16 + offset
  pub placed : pos ≡ length (raws before) + offset

pub Placed-more :
    (blocks more : List Block) (number pos : ℕ)
    → Placed blocks number pos
    → Placed (blocks ++ more) number pos
Placed-more blocks more number pos p = record {
  before = p.before;
  behind = p.behind ++ more;
  offset = p.offset;
  split = ap (λ l. l ++ more) p.split ∙ append_assoc p.before p.behind more;
  small = p.small;
  numbered = p.numbered;
  placed = p.placed;
}

abbrev pub ArePlaced : List Block → (pos : ℕ) → List ℕ → List (List ℕ) → Type 0
ArePlaced blocks pos [] [] = Unit
ArePlaced blocks pos [] (x ∷ xs) = ⊥
ArePlaced blocks pos (n ∷ ns) [] = ⊥
ArePlaced blocks pos (n ∷ ns) (x ∷ xs) =
    Placed blocks n pos × ArePlaced blocks (pos + length x) ns xs

raws-append : (bs cs : List Block) → raws (bs ++ cs) ≡ raws bs ++ raws cs
raws-append [] cs = refl
raws-append (b ∷ bs) cs = rw (raws-append bs cs) (sym (append_assoc b.0 (raws bs) (raws cs)))

pub Indexed-lookup :
    (t : ℕ → List HashTableEntry) (before behind : List Block) (b : Block) (start bytes : ℕ)
    → Indexed start bytes (before ++ (b ∷ behind)) t
    → lookup_entry t (start + length (encs before)) ≡ some (bytes + length (raws before))
Indexed-lookup t [] behind b start bytes h =
    let e : start + 0 ≡ start = omega arith in
    let f : bytes + 0 ≡ bytes = omega arith in rw (e, f) h.0
Indexed-lookup t (c ∷ before) behind b start bytes h =
    let e : start + length (encs (c ∷ before)) ≡ start + length c.1 + length (encs before) =
      omega (arith, length-append c.1 (encs before)) in
    let f : bytes + length (raws (c ∷ before)) ≡ bytes + length c.0 + length (raws before) =
      omega (arith, length-append c.0 (raws before)) in
    rw (e, f) (Indexed-lookup t before behind b (start + length c.1) (bytes + length c.0) h.1)

module _ (t : ℕ → List HashTableEntry) (start : ℕ) (table : List ℕ) where
  -- The inodes are found at their numbers.
  abbrev pub AreFound : List ℕ → List (List ℕ) → Type 0
  AreFound [] [] = Unit
  AreFound [] (x ∷ xs) = ⊥
  AreFound (n ∷ ns) [] = ⊥
  AreFound (n ∷ ns) (x ∷ xs) =
      ((rest : List ℕ) × (block_ptr t table start n ≡ some (x ++ rest))) × AreFound ns xs

  block_ptr-split :
      (number : ℕ) (pre x rest : List ℕ) (before behind : List Block) (offset : ℕ)
      → Indexed start 0 (before ++ behind) t
      → table ≡ raws (before ++ behind)
      → table ≡ pre ++ (x ++ rest)
      → 0 < length x
      → offset < metadata_size
      → number ≡ length (encs before) * 2 ^ 16 + offset
      → length pre ≡ length (raws before) + offset
      → block_ptr t table start number ≡ some (x ++ rest)
  unfolding block_ptr
  block_ptr-split number pre x rest before [] offset h hb ht hx ho hn hp = absurd (
      omega (
        arith,
        ap length hb,
        ap length ht,
        ap length (ap raws (append-nil before)),
        length-append pre (x ++ rest),
        length-append x rest,
      ))
  block_ptr-split number pre x rest before (b ∷ behind) offset h hb ht hx ho hn hp =
      let block : number / 2 ^ 16 ≡ length (encs before) = omega (arith, hn, ho) in
      let place : 0 + length (raws before) + number % 2 ^ 16 ≡ length pre =
        omega (arith, hn, ho, hp) in
      rw
        (
          block,
          Indexed-lookup t before behind b start 0 h,
          block_ptr,
          place,
          ht,
          drop_exact pre (x ++ rest) (length pre) refl,
        )
        refl

  block_ptr-Placed :
      (blocks : List Block) (number : ℕ) (pre x rest : List ℕ)
      → Indexed start 0 blocks t
      → table ≡ raws blocks
      → table ≡ pre ++ (x ++ rest)
      → 0 < length x
      → Placed blocks number (length pre)
      → block_ptr t table start number ≡ some (x ++ rest)
  block_ptr-Placed blocks number pre x rest h hb ht hx p =
      block_ptr-split number pre x rest p.before p.behind p.offset
        (subst (λ l. Indexed start 0 l t) p.split h) (hb ∙ ap raws p.split) ht hx p.small p.numbered
        p.placed

  pub AreFound-Placed :
      (blocks : List Block) (pre : List ℕ) (ns : List ℕ) (xs : List (List ℕ))
      → Indexed start 0 blocks t
      → table ≡ raws blocks
      → table ≡ pre ++ concat xs
      → AllNonempty xs
      → ArePlaced blocks (length pre) ns xs
      → AreFound ns xs
  AreFound-Placed blocks pre [] [] h hb ht hx p = tt
  AreFound-Placed blocks pre [] (x ∷ xs) h hb ht hx p = absurd p
  AreFound-Placed blocks pre (n ∷ ns) [] h hb ht hx p = absurd p
  AreFound-Placed blocks pre (n ∷ ns) (x ∷ xs) h hb ht hx p = (
    (concat xs, block_ptr-Placed blocks n pre x (concat xs) h hb ht hx.0 p.0),
    AreFound-Placed blocks (pre ++ x) ns xs h hb (ht ∙ sym (append_assoc pre x (concat xs))) hx.1
        (subst (λ k. ArePlaced blocks k ns xs) (sym (length-append pre x)) p.1),
  )
