-- ===== src/Directory/Table/Listed.antt =====
-- Directories written in turn are found in the table again.
use mathlib.Core.Path.{subst}
use native.Mathlib.Decide.{dec_lt}
use external_squashfs_tools.Common.{
  ℕ, ◌+◌, ◌^◌, ◌<◌, ◌≡◌, refl, sym, ap, ◌∙◌, true, false, some, List, [], ◌∷◌, ◌++◌, map,
  append-nil, append_assoc, arith, ◌==◌, length, length-append, drop, drop_exact, length-zero,
}
use external_squashfs_tools.Directory.Write.{metadata_size, Directory, scan7_init_dir, write_dir}
use external_squashfs_tools.Directory.Write.Listing.{
  Entry, AreEntries, add_dirs, listed, squashfs_opendir-write_dir,
}
use external_squashfs_tools.Directory.Read.{read, squashfs_opendir}
use external_squashfs_tools.Metadata.{HashTableEntry, lookup_entry}
use external_squashfs_tools.Metadata.Loaded.{Block, raws, encs, Indexed}
use external_squashfs_tools.Metadata.Placed.{Indexed-lookup}
use external_squashfs_tools.Directory.Table.Marks.{AreMarked, AreMarked-more}
use external_squashfs_tools.Inode.Read.{Inode}
use external_squashfs_tools.Directory.Table.{PutListing, open_listing}

-- The entries of a directory, and what `scan7_init_dir` leaves in its structure.
pub record Source : Type 0 where
  pub entries : List Entry
  pub start_block : ℕ
  pub inode_number : ℕ

abbrev pub directory_of : Source → Directory
directory_of s = add_dirs s.entries (scan7_init_dir s.start_block s.inode_number)

abbrev pub AreSources : List Source → Type 0
AreSources [] = Unit
AreSources (s ∷ ss) = AreEntries s.entries × AreSources ss

abbrev pub listings : List Source → List ℕ
listings [] = []
listings (s ∷ ss) = write_dir (directory_of s) ++ listings ss

-- The inode of a directory leads to its listing.
abbrev pub with_listing : Inode → Source → PutListing → Inode
with_listing i s p = record i {
  data_size = length (write_dir (directory_of s)) + 3;
  start = p.directory_block;
  offset = p.directory_offset;
}

-- A listing that the loop's unsigned int can count; create_inode takes none of 2 ^ 27 bytes.
abbrev pub IsShort : Source → Type 0
IsShort s = length (write_dir (directory_of s)) + metadata_size < 2 ^ 32

-- A block of the table, and the place in it.
pub record InBlock (blocks : List Block) (p : PutListing) (s : Source) (pos : ℕ) : Type 0 where
  pub before : List Block
  pub behind : List Block
  pub split : blocks ≡ before ++ behind
  pub small : p.directory_offset < metadata_size
  pub block : p.directory_block ≡ length (encs before)
  pub placed : pos ≡ length (raws before) + p.directory_offset
  pub marked : IsShort s → AreMarked blocks pos (directory_of s).index p.index

pub InBlock-more :
    (blocks more : List Block) (p : PutListing) (s : Source) (pos : ℕ)
    → InBlock blocks p s pos
    → InBlock (blocks ++ more) p s pos
InBlock-more blocks more p s pos h = record {
  before = h.before;
  behind = h.behind ++ more;
  split = ap (λ l. l ++ more) h.split ∙ append_assoc h.before h.behind more;
  small = h.small;
  block = h.block;
  placed = h.placed;
  marked = λ k. AreMarked-more blocks more pos (directory_of s).index p.index (h.marked k);
}

abbrev pub AllInBlock : List Block → (pos : ℕ) → List PutListing → List Source → Type 0
AllInBlock blocks pos [] [] = Unit
AllInBlock blocks pos [] (s ∷ ss) = ⊥
AllInBlock blocks pos (p ∷ ps) [] = ⊥
AllInBlock blocks pos (p ∷ ps) (s ∷ ss) =
    InBlock blocks p s pos × AllInBlock blocks (pos + length (write_dir (directory_of s))) ps ss

pub AllInBlock-more :
    (blocks more : List Block) (pos : ℕ) (ps : List PutListing) (ss : List Source)
    → AllInBlock blocks pos ps ss
    → AllInBlock (blocks ++ more) pos ps ss
AllInBlock-more blocks more pos [] [] h = tt
AllInBlock-more blocks more pos [] (s ∷ ss) h = absurd h
AllInBlock-more blocks more pos (p ∷ ps) [] h = absurd h
AllInBlock-more blocks more pos (p ∷ ps) (s ∷ ss) h = (
  InBlock-more blocks more p s pos h.0,
  AllInBlock-more blocks more (pos + length (write_dir (directory_of s))) ps ss h.1,
)

module _ (t : ℕ → List HashTableEntry) (table : List ℕ) (start : ℕ) where
  -- Each directory's inode opens its entries, in the order of the calls of add_dir.
  abbrev pub AreListed : List PutListing → List Source → Type 0
  AreListed [] [] = Unit
  AreListed [] (s ∷ ss) = ⊥
  AreListed (p ∷ ps) [] = ⊥
  AreListed (p ∷ ps) (s ∷ ss) =
      ((i : Inode)
        → open_listing t table start (with_listing i s p) ≡ some (read (map listed s.entries)))
      × AreListed ps ss

  open_listing-some :
      (i : Inode) (bytes : ℕ)
      → (i.data_size == 3) ≡ false
      → lookup_entry t (start + i.start) ≡ some bytes
      → open_listing t table start i
        ≡ some (
            squashfs_opendir i.data_size
              (record { bytes = bytes + i.offset; rest = drop (bytes + i.offset) table }))
  unfolding open_listing
  open_listing-some i bytes h e = rw (h, open_listing, e) refl

  open_listing-empty : (i : Inode) → i.data_size ≡ 3 → open_listing t table start i ≡ some (read [])
  unfolding open_listing
  open_listing-empty i h =
      let e : (i.data_size == 3) ≡ true = ground arith in rw (e, open_listing) refl

  open_listing-here :
      (blocks : List Block) (p : PutListing) (s : Source) (pre rest : List ℕ) (i : Inode)
      (before behind : List Block)
      → Indexed start 0 (before ++ behind) t
      → table ≡ raws (before ++ behind)
      → table ≡ pre ++ (write_dir (directory_of s) ++ rest)
      → AreEntries s.entries
      → 0 < length (write_dir (directory_of s))
      → p.directory_block ≡ length (encs before)
      → length pre ≡ length (raws before) + p.directory_offset
      → open_listing t table start (with_listing i s p) ≡ some (read (map listed s.entries))
  open_listing-here blocks p s pre rest i before [] h hb ht he hl kb kp = absurd (
      omega (
        arith,
        ap length hb,
        ap length ht,
        ap length (ap raws (append-nil before)),
        length-append pre (write_dir (directory_of s) ++ rest),
        length-append (write_dir (directory_of s)) rest,
        kp,
        hl,
      ))
  open_listing-here blocks p s pre rest i before (b ∷ behind) h hb ht he hl kb kp =
      let listing = write_dir (directory_of s) in
      let bytes = 0 + length (raws before) in
      let found : lookup_entry t (start + p.directory_block) ≡ some bytes =
        ap (λ n. lookup_entry t (start + n)) kb ∙ Indexed-lookup t before behind b start 0 h in
      let place : bytes + p.directory_offset ≡ length pre = omega (arith, kp) in
      let nonempty : (length listing + 3 == 3) ≡ false = ground arith in
      open_listing-some (with_listing i s p) bytes nonempty found
      ∙ ap
          (λ n.
            some
              (squashfs_opendir (length listing + 3) (record { bytes = n; rest = drop n table })))
          place
      ∙ ap
          (λ l.
            some (squashfs_opendir (length listing + 3) (record { bytes = length pre; rest = l })))
          (ap (drop (length pre)) ht ∙ drop_exact pre (listing ++ rest) (length pre) refl)
      ∙ ap some
          (squashfs_opendir-write_dir s.entries s.start_block s.inode_number (length pre) rest he)

  -- No listing, no entries.
  entries_empty :
      (s : Source)
      → AreEntries s.entries
      → length (write_dir (directory_of s)) ≡ 0
      → read (map listed s.entries) ≡ read []
  unfolding squashfs_opendir
  entries_empty s he hl =
      let e = length-zero (write_dir (directory_of s)) hl in
      sym (squashfs_opendir-write_dir s.entries s.start_block s.inode_number 0 [] he)
      ∙ ap (λ l. squashfs_opendir (length l + 3) (record { bytes = 0; rest = l ++ [] })) e

  open_listing-InBlock :
      (blocks : List Block) (p : PutListing) (s : Source) (pre rest : List ℕ) (i : Inode)
      → Indexed start 0 blocks t
      → table ≡ raws blocks
      → table ≡ pre ++ (write_dir (directory_of s) ++ rest)
      → AreEntries s.entries
      → InBlock blocks p s (length pre)
      → open_listing t table start (with_listing i s p) ≡ some (read (map listed s.entries))
  open_listing-InBlock blocks p s pre rest i h hb ht he k =
      elim (dec_lt 0 (length (write_dir (directory_of s)))) [
        | yes l ↦
            open_listing-here blocks p s pre rest i k.before k.behind
              (subst (λ c. Indexed start 0 c t) k.split h) (hb ∙ ap raws k.split) ht he l k.block
              k.placed
        | no l ↦
            let none_left : length (write_dir (directory_of s)) ≡ 0 = omega (arith, l) in
            open_listing-empty (with_listing i s p) (ap (λ n. n + 3) none_left)
            ∙ ap some (sym (entries_empty s he none_left))
      ]

  pub AreListed-AllInBlock :
      (blocks : List Block) (ps : List PutListing) (ss : List Source) (pre : List ℕ)
      → Indexed start 0 blocks t
      → table ≡ raws blocks
      → table ≡ pre ++ listings ss
      → AreSources ss
      → AllInBlock blocks (length pre) ps ss
      → AreListed ps ss
  AreListed-AllInBlock blocks [] [] pre h hb ht he k = tt
  AreListed-AllInBlock blocks [] (s ∷ ss) pre h hb ht he k = absurd k
  AreListed-AllInBlock blocks (p ∷ ps) [] pre h hb ht he k = absurd k
  AreListed-AllInBlock blocks (p ∷ ps) (s ∷ ss) pre h hb ht he k =
      let listing = write_dir (directory_of s) in
      (
        λ i. open_listing-InBlock blocks p s pre (listings ss) i h hb ht he.0 k.0,
        AreListed-AllInBlock blocks ps ss (pre ++ listing) h hb
            (ht ∙ sym (append_assoc pre listing (listings ss))) he.1
            (subst (λ n. AllInBlock blocks n ps ss) (sym (length-append pre listing)) k.1),
      )
