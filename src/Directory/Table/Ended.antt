-- ===== src/Directory/Table/Ended.antt =====
-- `write_directories`: what is left in the cache is written.
use native.Mathlib.Decide.{dec_lt}
use external_squashfs_tools.Common.{
  ℕ, zero, suc, ◌+◌, ◌-◌, ◌*◌, ◌%◌, ◌^◌, ◌≤◌, ◌<◌, min, ◌≡◌, refl, sym, ap, ◌∙◌, Bool, true, false,
  Option, some, List, [], ◌∷◌, ◌++◌, append-nil, arith, ltb, ◌==◌, if◌then◌else◌, length, take,
  take_all, drop_all, length-zero,
}
use external_squashfs_tools.Directory.Bytes.{swap_le}
use external_squashfs_tools.Directory.Write.{metadata_size}
use external_squashfs_tools.Metadata.{compressed_size, mangle2}
use external_squashfs_tools.Metadata.Loaded.{Block, raws, encs, AreStored}
use external_squashfs_tools.Metadata.Written.{
  Writes, mangle2-works, AreStored-full, AreStored-last, encs-append, raws-append,
}
use external_squashfs_tools.Directory.Table.{
  Listings, stored_block, flush_directories, write_directories,
}
use external_squashfs_tools.Directory.Table.Blocks.{view}

module _ (compress : List ℕ → ℕ → Option (List ℕ)) (compress_thresh_per : ℕ)
    (uncompress : List ℕ → ℕ → Option (List ℕ)) (noI : Bool)
    (works : (s : List ℕ) → (c : List ℕ) × (compress s metadata_size ≡ some c)) where
  -- The last block is written, when something is left in the cache.
  pub record Ended (st : Listings) (bs : List Block) (whole image : List ℕ) : Type 0 where
    pub more : List Block
    pub ran :
        write_directories compress compress_thresh_per noI st image
        ≡ some (length image, image ++ encs (bs ++ more))
    pub stored : AreStored compress compress_thresh_per uncompress noI (bs ++ more)
    pub contents : raws (bs ++ more) ≡ whole

  flush_directories-stop :
      (fuel : ℕ) (st : Listings)
      → st.directory_data_cache ≡ []
      → flush_directories compress compress_thresh_per noI fuel st ≡ some st
  unfolding flush_directories
  flush_directories-stop zero st h = refl
  flush_directories-stop (suc fuel) st h =
      let none_left : (length st.directory_data_cache == 0) ≡ true =
        let l = ap length h in ground arith in
      rw (none_left, flush_directories) refl

  flush_directories-round :
      (fuel : ℕ) (st : Listings) (c : ℕ × List ℕ)
      → 0 < length st.directory_data_cache
      → length st.directory_data_cache ≤ metadata_size
      → mangle2 compress compress_thresh_per noI false metadata_size st.directory_data_cache
        ≡ some c
      → (size : ℕ) × (flush_directories compress compress_thresh_per noI (suc fuel) st
          ≡ flush_directories compress compress_thresh_per noI fuel
              (stored_block (length st.directory_data_cache) size st c))
  unfolding flush_directories
  flush_directories-round fuel st c p h e =
      let some_left : (length st.directory_data_cache == 0) ≡ false = ground arith in
      let n : min (length st.directory_data_cache) metadata_size ≡ length st.directory_data_cache =
        omega (arith, h) in
      (
        if ltb (st.directory_size - length st.directory_table) (2 * metadata_size + 2)
            then st.directory_size + 2 * metadata_size + 2
            else st.directory_size,
        rw (some_left, flush_directories, n, take_all st.directory_data_cache, e)
            (ap
              (λ m. flush_directories compress compress_thresh_per noI fuel (
                stored_block m
                  (if ltb (st.directory_size - length st.directory_table) (2 * metadata_size + 2)
                    then st.directory_size + 2 * metadata_size + 2
                    else st.directory_size)
                  st c))
              n),
      )

  -- `while(directory_cache_bytes)` ends with the cache empty.
  record Flushed (fuel : ℕ) (st : Listings) (bs : List Block) (whole : List ℕ) : Type 0 where
    after : Listings
    more : List Block
    ran : flush_directories compress compress_thresh_per noI fuel st ≡ some after
    in_table : after.directory_table ≡ encs (bs ++ more)
    stored : AreStored compress compress_thresh_per uncompress noI (bs ++ more)
    contents : raws (bs ++ more) ≡ whole

  nothing_left :
      (fuel : ℕ) (st : Listings) (bs : List Block) (whole : List ℕ)
      → length st.directory_data_cache ≡ 0
      → Writes compress compress_thresh_per uncompress noI works (view st) bs whole
      → Flushed fuel st bs whole
  nothing_left fuel st bs whole h k =
      let e = length-zero st.directory_data_cache h in
      record {
        after = st;
        more = [];
        ran = flush_directories-stop fuel st e;
        in_table = rw (append-nil bs) k.in_table;
        stored =
            rw (append-nil bs)
              (AreStored-full compress compress_thresh_per uncompress noI works bs k.full);
        contents =
            rw (append-nil bs)
              (sym (append-nil (raws bs)) ∙ ap (λ l. raws bs ++ l) (sym e) ∙ k.contents);
      }

  flush_directories-Flushed :
      (fuel : ℕ) (st : Listings) (bs : List Block) (whole : List ℕ)
      → length st.directory_data_cache ≤ fuel
      → length st.directory_data_cache < metadata_size
      → Writes compress compress_thresh_per uncompress noI works (view st) bs whole
      → Flushed fuel st bs whole
  flush_directories-Flushed zero st bs whole h l k =
      nothing_left zero st bs whole (omega (arith, h)) k
  flush_directories-Flushed (suc fuel) st bs whole h l k =
      elim (dec_lt 0 (length st.directory_data_cache)) [
        | no e ↦ nothing_left (suc fuel) st bs whole (omega (arith, e)) k
        | yes p ↦
            let cache = st.directory_data_cache in
            let (c_byte, d, e) =
              mangle2-works compress compress_thresh_per uncompress noI works cache in
            let enc = swap_le 2 c_byte ++ take (compressed_size (c_byte % 2 ^ 16)) d in
            let (size, round) =
              flush_directories-round fuel st (c_byte, d) p (omega (arith, l)) e in
            record {
              after = stored_block (length cache) size st (c_byte, d);
              more = (cache, enc) ∷ [];
              ran =
                  round
                  ∙ flush_directories-stop fuel (stored_block (length cache) size st (c_byte, d))
                      (drop_all (length cache) cache (omega arith));
              in_table = ap (λ t. t ++ enc) k.in_table ∙ sym (encs-append bs (cache, enc));
              stored =
                  AreStored-last compress compress_thresh_per uncompress noI works bs (cache, enc)
                    k.full p (omega (arith, l)) (c_byte, d, e, refl);
              contents = raws-append bs (cache, enc) ∙ k.contents;
            }
      ]

  pub write_directories-Ended :
      (st : Listings) (bs : List Block) (whole image : List ℕ)
      → length st.directory_data_cache < metadata_size
      → Writes compress compress_thresh_per uncompress noI works (view st) bs whole
      → Ended st bs whole image
  unfolding write_directories
  write_directories-Ended st bs whole image h k =
      let r =
        flush_directories-Flushed (length st.directory_data_cache) st bs whole (omega arith) h k in
      record {
        more = r.more;
        ran = rw (r.ran, write_directories, r.in_table) refl;
        stored = r.stored;
        contents = r.contents;
      }
