-- ===== src/Directory/Table/Saved.antt =====
-- `write_dir` for directories in turn, `write_directories`, and on the other side
-- `read_directory_table` and `squashfs_opendir`.
use mathlib.Core.Path.{subst}
use external_squashfs_tools.Common.{
  ℕ, ◌<◌, ◌≡◌, refl, sym, ap, ◌∙◌, Bool, false, Option, none, some, List, [], ◌∷◌, ◌++◌, append-nil,
  append_assoc, arith, length, length-append,
}
use external_squashfs_tools.Directory.Write.{metadata_size, write_dir}
use external_squashfs_tools.Directory.Write.Ascending.{add_dirs-Ascending}
use external_squashfs_tools.Metadata.{HashTableEntry}
use external_squashfs_tools.Metadata.Stored.{IsInverse}
use external_squashfs_tools.Metadata.Loaded.{Block, raws, encs, read_inode_table-Load}
use external_squashfs_tools.Metadata.Written.{Writes}
use external_squashfs_tools.Directory.Table.{
  Listings, no_listings, PutListing, put_listing, write_directories, read_directory_table,
}
use external_squashfs_tools.Directory.Table.Blocks.{view}
use external_squashfs_tools.Directory.Table.Put.{put_listing-PutAt}
use external_squashfs_tools.Directory.Table.Ended.{write_directories-Ended}
use external_squashfs_tools.Directory.Table.Listed.{
  Source, directory_of, AreSources, listings, InBlock, InBlock-more, AllInBlock, AllInBlock-more,
  AreListed, AreListed-AllInBlock,
}
use external_squashfs_tools.Metadata.Loaded.{Indexed}
use external_squashfs_tools.Directory.Table.Index.{AreShort, AllPointed, AllPointed-AllInBlock}

module _ (compress : List ℕ → ℕ → Option (List ℕ)) (compress_thresh_per : ℕ) (noI : Bool) where
  -- The directories one after the other, and where their listings are.
  pub put_listings : List Source → Listings → Option (List PutListing × Listings)
  put_listings [] st = some ([], st)
  put_listings (s ∷ ss) st =
      let d = directory_of s in
      elim (put_listing compress compress_thresh_per noI (write_dir d) d.index st) [
        | none ↦ none
        | some p ↦ elim (put_listings ss p.after) [
          | none ↦ none
          | some (ps, st') ↦ some (p ∷ ps, st')
        ]
      ]

  put_listings-step :
      (s : Source) (ss : List Source) (st st' : Listings) (p : PutListing) (ps : List PutListing)
      → put_listing compress compress_thresh_per noI
          (write_dir (directory_of s))
          (directory_of s).index
          st
        ≡ some p
      → put_listings ss p.after ≡ some (ps, st')
      → put_listings (s ∷ ss) st ≡ some (p ∷ ps, st')
  unfolding put_listings
  put_listings-step s ss st st' p ps h k = rw (h, k, put_listings) refl

  -- The table of directories is written, and read back.
  pub record TableSaved (uncompress : List ℕ → ℕ → Option (List ℕ)) (ss : List Source)
      (image : List ℕ) : Type 0 where
    pub places : List PutListing
    pub written : Listings
    pub image' : List ℕ
    pub hash_table : ℕ → List HashTableEntry
    pub table : List ℕ
    pub put : put_listings ss no_listings ≡ some (places, written)
    pub saved :
        write_directories compress compress_thresh_per noI written image
        ≡ some (length image, image')
    pub loaded :
        read_directory_table uncompress false false image' (length image) (length image')
        ≡ some (hash_table, table)

  -- The directories are opened.
  pub record DirectoriesSaved (uncompress : List ℕ → ℕ → Option (List ℕ)) (ss : List Source)
      (image : List ℕ) : Type 0 where
    pub table_saved : TableSaved uncompress ss image
    pub opened :
        AreListed table_saved.hash_table table_saved.table (length image) table_saved.places ss

  -- The entries of their indexes lead into their listings.
  pub record IndexesSaved (uncompress : List ℕ → ℕ → Option (List ℕ)) (ss : List Source)
      (image : List ℕ) : Type 0 where
    pub table_saved : TableSaved uncompress ss image
    pub pointed :
        AllPointed table_saved.hash_table table_saved.table (length image) table_saved.places ss

  module _ (uncompress : List ℕ → ℕ → Option (List ℕ))
      (works : (s : List ℕ) → (c : List ℕ) × (compress s metadata_size ≡ some c))
      (inverse : IsInverse compress compress_thresh_per uncompress) where
    record AllPut (ss : List Source) (st : Listings) (bs : List Block) (whole : List ℕ)
        : Type 0 where
      places : List PutListing
      after : Listings
      more : List Block
      ran : put_listings ss st ≡ some (places, after)
      writes :
          Writes compress compress_thresh_per uncompress noI works
            (view after)
            (bs ++ more)
            (whole ++ listings ss)
      small : length after.directory_data_cache < metadata_size
      in_block : AllInBlock (bs ++ more) (length whole) places ss

    put_listings-AllPut :
        (ss : List Source) (st : Listings) (bs : List Block) (whole : List ℕ)
        → Writes compress compress_thresh_per uncompress noI works (view st) bs whole
        → length st.directory_data_cache < metadata_size
        → AllPut ss st bs whole
    unfolding put_listings
    put_listings-AllPut [] st bs whole k h = record {
      places = [];
      after = st;
      more = [];
      ran = refl;
      writes = rw (append-nil bs, append-nil whole) k;
      small = h;
      in_block = tt;
    }
    put_listings-AllPut (s ∷ ss) st bs whole k h =
        let listing = write_dir (directory_of s) in
        let p =
          put_listing-PutAt compress compress_thresh_per uncompress noI works listing
            (directory_of s).index st bs whole k h in
        let r =
          put_listings-AllPut ss p.put.after (bs ++ p.more) (whole ++ listing) p.writes p.small in
        let regroup = append_assoc bs p.more r.more in
        let here : InBlock (bs ++ p.more) p.put s (length whole) = record {
          before = bs;
          behind = p.more;
          split = refl;
          small = omega (arith, p.offset, h);
          block = p.block;
          placed = p.placed;
          marked = p.marked (add_dirs-Ascending s.entries s.start_block s.inode_number);
        } in
        record {
          places = p.put ∷ r.places;
          after = r.after;
          more = p.more ++ r.more;
          ran = put_listings-step s ss st r.after p.put r.places p.ran r.ran;
          writes = rw⁻¹ (regroup, append_assoc whole listing (listings ss)) r.writes;
          small = r.small;
          in_block = (
            subst (λ l. InBlock l p.put s (length whole)) regroup
                (InBlock-more (bs ++ p.more) r.more p.put s (length whole) here),
            subst (λ m. AllInBlock (bs ++ (p.more ++ r.more)) m r.places ss)
                (length-append whole listing)
                (subst (λ l. AllInBlock l (length (whole ++ listing)) r.places ss) regroup
                  r.in_block),
          );
        }

    -- The table, and its blocks.
    record SavedBlocks (ss : List Source) (image : List ℕ) : Type 0 where
      table_saved : TableSaved uncompress ss image
      blocks : List Block
      is_table : table_saved.table ≡ raws blocks
      indexed : Indexed (length image) 0 blocks table_saved.hash_table
      contents : raws blocks ≡ listings ss
      in_block : AllInBlock blocks 0 table_saved.places ss

    write_directories-SavedBlocks : (ss : List Source) (image : List ℕ) → SavedBlocks ss image
    write_directories-SavedBlocks ss image =
        let start : Writes compress compress_thresh_per uncompress noI works (view no_listings) []
            [] =
          record { full = tt; in_table = refl; contents = refl } in
        let p = put_listings-AllPut ss no_listings [] [] start (omega arith) in
        let f =
          write_directories-Ended compress compress_thresh_per uncompress noI works p.after p.more
            (listings ss) image p.small p.writes in
        let blocks = p.more ++ f.more in
        let image' = image ++ encs blocks in
        let l =
          read_inode_table-Load compress compress_thresh_per uncompress noI inverse image' blocks
            image [] (ap (λ r. image ++ r) (sym (append-nil (encs blocks)))) f.stored in
        record {
          table_saved = record {
            places = p.places;
            written = p.after;
            image' = image';
            hash_table = l.hash_table;
            table = raws blocks;
            put = p.ran;
            saved = f.ran;
            loaded = rw (length-append image (encs blocks)) l.loaded;
          };
          blocks = blocks;
          is_table = refl;
          indexed = l.indexed;
          contents = f.contents;
          in_block = AllInBlock-more p.more f.more 0 p.places ss p.in_block;
        }

    -- With a compressor that makes something of every block, or nothing, and a decompressor that
    -- undoes it: directories with any entries of names that fit are all put in the cache and the
    -- table, write_directories writes the table behind any image, read_directory_table reads it
    -- from there, and an inode that has a directory's directory_block, directory_offset and size
    -- opens that directory's entries, in the order in which they were added.
    pub write_directories-open_listing :
        (ss : List Source) (image : List ℕ) → AreSources ss → DirectoriesSaved uncompress ss image
    write_directories-open_listing ss image hs =
        let s = write_directories-SavedBlocks ss image in
        let t = s.table_saved in
        record {
          table_saved = t;
          opened =
              AreListed-AllInBlock t.hash_table t.table (length image) s.blocks t.places ss []
                s.indexed s.is_table (s.is_table ∙ s.contents) hs s.in_block;
        }

    -- With such a compressor and decompressor: for directories whose listings, and 8192 bytes
    -- more, an unsigned int can count, put, written and read back in the same way, the index of
    -- each directory keeps its entries, and each entry's start_block is the position of a block
    -- of the table in which, less than 8192 bytes on, the directory's listing from byte `index`
    -- on begins.
    pub write_directories-mark_index :
        (ss : List Source) (image : List ℕ) → AreShort ss → IndexesSaved uncompress ss image
    write_directories-mark_index ss image hs =
        let s = write_directories-SavedBlocks ss image in
        let t = s.table_saved in
        record {
          table_saved = t;
          pointed =
              AllPointed-AllInBlock t.hash_table t.table (length image) s.blocks t.places ss []
                s.indexed s.is_table (s.is_table ∙ s.contents) hs s.in_block;
        }
