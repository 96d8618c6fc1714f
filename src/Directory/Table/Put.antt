-- ===== src/Directory/Table/Put.antt =====
-- A listing is put behind the others: its position, its blocks and its index.
use external_squashfs_tools.Common.{
  ℕ, ◌+◌, ◌-◌, ◌%◌, ◌^◌, ◌<◌, ◌≡◌, refl, sym, ap, ◌∙◌, Bool, Option, some, List, [], ◌++◌,
  append_assoc, arith, length, length-append,
}
use external_squashfs_tools.Directory.Write.{metadata_size, DirIndex}
use external_squashfs_tools.Metadata.Loaded.{Block, raws, encs}
use external_squashfs_tools.Metadata.Written.{Writes}
use mathlib.Core.Path.{subst}
use external_squashfs_tools.Directory.Write.Ascending.{Ascending}
use external_squashfs_tools.Directory.Table.Marks.{AreMarked}
use external_squashfs_tools.Directory.Table.{Listings, append_listing, PutListing, put_listing}
use external_squashfs_tools.Directory.Table.Blocks.{view, write_dir_blocks-Rounds}

module _ (compress : List ℕ → ℕ → Option (List ℕ)) (compress_thresh_per : ℕ)
    (uncompress : List ℕ → ℕ → Option (List ℕ)) (noI : Bool)
    (works : (s : List ℕ) → (c : List ℕ) × (compress s metadata_size ≡ some c)) where
  -- A listing is put behind what is there; its position is that of the end before.
  pub record PutAt (listing : List ℕ) (index : List DirIndex) (st : Listings) (bs : List Block)
      (whole : List ℕ) : Type 0 where
    pub put : PutListing
    pub more : List Block
    pub ran : put_listing compress compress_thresh_per noI listing index st ≡ some put
    pub writes :
        Writes compress compress_thresh_per uncompress noI works
          (view put.after)
          (bs ++ more)
          (whole ++ listing)
    pub small : length put.after.directory_data_cache < metadata_size
    pub block : put.directory_block ≡ length (encs bs)
    pub placed : length whole ≡ length (raws bs) + put.directory_offset
    pub offset : put.directory_offset ≡ length st.directory_data_cache
    pub marked :
        Ascending 0 (length listing) index
        → length listing + metadata_size < 2 ^ 32
        → AreMarked (bs ++ more) (length whole) index put.index

  pub put_listing-PutAt :
      (listing : List ℕ) (index : List DirIndex) (st : Listings) (bs : List Block) (whole : List ℕ)
      → Writes compress compress_thresh_per uncompress noI works (view st) bs whole
      → length st.directory_data_cache < metadata_size
      → PutAt listing index st bs whole
  unfolding put_listing
  put_listing-PutAt listing index st bs whole k hc =
      let cache = st.directory_data_cache in
      let b =
        write_dir_blocks-Rounds compress compress_thresh_per uncompress noI works
          (length (cache ++ listing) + 1) ((metadata_size + 2 ^ 32 - length cache) % 2 ^ 32) index
          [] (append_listing listing st) bs (whole ++ listing) (omega arith)
          (record {
            full = k.full;
            in_table = k.in_table;
            contents =
                sym (append_assoc (raws bs) cache listing) ∙ ap (λ l. l ++ listing) k.contents;
          }) in
      record {
        put = record {
          directory_block = length st.directory_table;
          directory_offset = length cache;
          index = b.marks;
          after = b.after;
        };
        more = b.more;
        ran = rw (b.ran, put_listing) refl;
        writes = b.writes;
        small = b.small;
        block = ap length k.in_table;
        placed = omega (arith, ap length k.contents, length-append (raws bs) cache);
        offset = refl;
        marked = λ a h.
            let (new, e, m) =
              b.marked_at (length whole) 0 (length listing) a
                (omega (arith, ap length k.contents, length-append (raws bs) cache))
                (omega (arith, ap length k.contents, length-append (raws bs) cache, hc))
                (length-append whole listing) h in
            subst (AreMarked (bs ++ b.more) (length whole) index) (sym e) m;
      }
