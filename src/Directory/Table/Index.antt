-- ===== src/Directory/Table/Index.antt =====
-- The index of a directory points into the blocks that hold its listing.
use mathlib.Core.Path.{subst}
use external_squashfs_tools.Common.{
  ℕ, ◌+◌, ◌-◌, ◌≤◌, ◌<◌, ◌≡◌, refl, sym, ap, ◌∙◌, some, List, [], ◌∷◌, ◌++◌, append-nil,
  append_assoc, arith, length, length-append, take, drop, take-append-drop, length-take, drop_exact,
}
use external_squashfs_tools.Directory.Write.{metadata_size, DirIndex, write_dir}
use external_squashfs_tools.Directory.Write.Ascending.{Ascending, add_dirs-Ascending}
use external_squashfs_tools.Metadata.{HashTableEntry, lookup_entry}
use external_squashfs_tools.Metadata.Loaded.{Block, raws, encs, Indexed}
use external_squashfs_tools.Metadata.Placed.{Indexed-lookup}
use external_squashfs_tools.Inode.Create.{CachedDirIndex}
use external_squashfs_tools.Directory.Table.{PutListing, with_block}
use external_squashfs_tools.Directory.Table.Marks.{AreMarked}
use external_squashfs_tools.Directory.Table.Listed.{
  Source, directory_of, listings, IsShort, AllInBlock,
}

abbrev pub AreShort : List Source → Type 0
AreShort [] = Unit
AreShort (s ∷ ss) = IsShort s × AreShort ss

module _ (t : ℕ → List HashTableEntry) (table : List ℕ) (start : ℕ) where
  -- The entry of the index has its fields, and leads to the listing from `index` on.
  pub record Pointed (listing : List ℕ) (d : DirIndex) (m : CachedDirIndex) : Type 0 where
    pub bytes : ℕ
    pub skip : ℕ
    pub rest : List ℕ
    pub same : m ≡ with_block m.start_block d
    pub block : lookup_entry t (start + m.start_block) ≡ some bytes
    pub near : skip < metadata_size
    pub there : drop (bytes + skip) table ≡ drop d.index listing ++ rest

  abbrev pub ArePointed : List ℕ → List DirIndex → List CachedDirIndex → Type 0
  ArePointed listing [] [] = Unit
  ArePointed listing [] (m ∷ ms) = ⊥
  ArePointed listing (d ∷ ds) [] = ⊥
  ArePointed listing (d ∷ ds) (m ∷ ms) = Pointed listing d m × ArePointed listing ds ms

  abbrev pub AllPointed : List PutListing → List Source → Type 0
  AllPointed [] [] = Unit
  AllPointed [] (s ∷ ss) = ⊥
  AllPointed (p ∷ ps) [] = ⊥
  AllPointed (p ∷ ps) (s ∷ ss) =
      ArePointed (write_dir (directory_of s)) (directory_of s).index p.index × AllPointed ps ss

  drop_within :
      (pre listing rest : List ℕ) (n : ℕ)
      → n < length listing
      → drop (length pre + n) (pre ++ (listing ++ rest)) ≡ drop n listing ++ rest
  drop_within pre listing rest n h =
      let whole = take-append-drop n listing in
      let front = pre ++ take n listing in
      let size : length front ≡ length pre + n =
        omega (arith, length-append pre (take n listing), length-take n listing, h) in
      ap (λ l. drop (length pre + n) (pre ++ (l ++ rest))) (sym whole)
      ∙ ap (λ l. drop (length pre + n) (pre ++ l))
          (append_assoc (take n listing) (drop n listing) rest)
      ∙ ap (drop (length pre + n))
          (sym (append_assoc pre (take n listing) (drop n listing ++ rest)))
      ∙ drop_exact front (drop n listing ++ rest) (length pre + n) size

  block_of_index :
      (pre listing rest : List ℕ) (d : DirIndex) (before behind : List Block)
      → Indexed start 0 (before ++ behind) t
      → table ≡ raws (before ++ behind)
      → table ≡ pre ++ (listing ++ rest)
      → d.index < length listing
      → length (raws before) ≤ length pre + d.index
      → length pre + d.index < length (raws before) + metadata_size
      → Pointed listing d (with_block (length (encs before)) d)
  block_of_index pre listing rest d before [] h hb ht hd low high = absurd (
      omega (
        arith,
        ap length hb,
        ap length ht,
        ap length (ap raws (append-nil before)),
        length-append pre (listing ++ rest),
        length-append listing rest,
        hd,
        low,
      ))
  block_of_index pre listing rest d before (b ∷ behind) h hb ht hd low high =
      let bytes = 0 + length (raws before) in
      let skip = length pre + d.index - length (raws before) in
      let place : bytes + skip ≡ length pre + d.index = omega (arith, low) in
      record {
        bytes = bytes;
        skip = skip;
        rest = rest;
        same = refl;
        block = Indexed-lookup t before behind b start 0 h;
        near = omega (arith, low, high);
        there =
            ap (λ n. drop n table) place
            ∙ ap (drop (length pre + d.index)) ht
            ∙ drop_within pre listing rest d.index hd;
      }

  ArePointed-AreMarked :
      (blocks : List Block) (pre listing rest : List ℕ) (lo : ℕ) (ds : List DirIndex)
      (ms : List CachedDirIndex)
      → Indexed start 0 blocks t
      → table ≡ raws blocks
      → table ≡ pre ++ (listing ++ rest)
      → Ascending lo (length listing) ds
      → AreMarked blocks (length pre) ds ms
      → ArePointed listing ds ms
  ArePointed-AreMarked blocks pre listing rest lo [] [] h hb ht ha k = tt
  ArePointed-AreMarked blocks pre listing rest lo [] (m ∷ ms) h hb ht ha k = absurd k
  ArePointed-AreMarked blocks pre listing rest lo (d ∷ ds) [] h hb ht ha k = absurd k
  ArePointed-AreMarked blocks pre listing rest lo (d ∷ ds) (m ∷ ms) h hb ht ha k =
      let here = k.0 in
      (
        subst (Pointed listing d) (sym here.made) (
            block_of_index pre listing rest d here.before here.behind
              (subst (λ l. Indexed start 0 l t) here.split h) (hb ∙ ap raws here.split) ht ha.1
              here.low here.high),
        ArePointed-AreMarked blocks pre listing rest d.index ds ms h hb ht ha.2 k.1,
      )

  pub AllPointed-AllInBlock :
      (blocks : List Block) (ps : List PutListing) (ss : List Source) (pre : List ℕ)
      → Indexed start 0 blocks t
      → table ≡ raws blocks
      → table ≡ pre ++ listings ss
      → AreShort ss
      → AllInBlock blocks (length pre) ps ss
      → AllPointed ps ss
  AllPointed-AllInBlock blocks [] [] pre h hb ht hs k = tt
  AllPointed-AllInBlock blocks [] (s ∷ ss) pre h hb ht hs k = absurd k
  AllPointed-AllInBlock blocks (p ∷ ps) [] pre h hb ht hs k = absurd k
  AllPointed-AllInBlock blocks (p ∷ ps) (s ∷ ss) pre h hb ht hs k =
      let listing = write_dir (directory_of s) in
      (
        ArePointed-AreMarked blocks pre listing (listings ss) 0 (directory_of s).index p.index h hb
            ht (add_dirs-Ascending s.entries s.start_block s.inode_number) (k.0.marked hs.0),
        AllPointed-AllInBlock blocks ps ss (pre ++ listing) h hb
            (ht ∙ sym (append_assoc pre listing (listings ss))) hs.1
            (subst (λ n. AllInBlock blocks n ps ss) (sym (length-append pre listing)) k.1),
      )
