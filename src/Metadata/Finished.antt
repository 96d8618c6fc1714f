-- ===== src/Metadata/Finished.antt =====
-- `while(cache_bytes)` of `write_inodes`: the cache is emptied into the table.
use mathlib.Core.Path.{subst}
use native.Mathlib.Decide.{dec_lt}
use external_squashfs_tools.Common.{
  ℕ, zero, suc, ◌≤◌, ◌<◌, min, ◌≡◌, refl, sym, ap, ◌∙◌, Bool, true, false, Option, some, List, [],
  ◌∷◌, ◌++◌, append-nil, append_assoc, arith, ◌==◌, length, take, length-drop, take_all, drop_all,
  length-zero,
}
use external_squashfs_tools.Directory.Write.{metadata_size}
use external_squashfs_tools.Metadata.{Inodes, write_block, flush_all, write_inodes}
use external_squashfs_tools.Metadata.Loaded.{Block, raws, encs, AreStored}
use external_squashfs_tools.Metadata.Written.{
  Writes, Wrote, write_block-Wrote, Writes-block, raws-append, encs-append, AreStored-full,
  AreStored-last,
}

module _ (compress : List ℕ → ℕ → Option (List ℕ)) (compress_thresh_per : ℕ)
    (uncompress : List ℕ → ℕ → Option (List ℕ)) (noI : Bool)
    (works : (s : List ℕ) → (c : List ℕ) × (compress s metadata_size ≡ some c)) where
  -- The last block, when something is left.
  pub record Finished (st : Inodes) (bs : List Block) (whole image : List ℕ) : Type 0 where
    pub more : List Block
    pub ran :
        write_inodes compress compress_thresh_per noI st image
        ≡ some (length image, image ++ encs (bs ++ more))
    pub stored : AreStored compress compress_thresh_per uncompress noI (bs ++ more)
    pub contents : raws (bs ++ more) ≡ whole

  -- `while(cache_bytes)` ends with the cache empty.
  record Emptied (fuel : ℕ) (st : Inodes) (bs : List Block) (whole : List ℕ) : Type 0 where
    after : Inodes
    more : List Block
    ran : flush_all compress compress_thresh_per noI fuel st ≡ some after
    in_table : after.inode_table ≡ encs (bs ++ more)
    stored : AreStored compress compress_thresh_per uncompress noI (bs ++ more)
    contents : raws (bs ++ more) ≡ whole

  flush_all-stop :
      (fuel : ℕ) (st : Inodes)
      → st.data_cache ≡ []
      → flush_all compress compress_thresh_per noI fuel st ≡ some st
  unfolding flush_all
  flush_all-stop zero st h = refl
  flush_all-stop (suc fuel) st h =
      let none_left : (length st.data_cache == 0) ≡ true = let l = ap length h in ground arith in
      rw (none_left, flush_all) refl

  -- The two kinds of round: a full block, and the last one.
  flush_all-round :
      (fuel : ℕ) (st : Inodes) (n : ℕ)
      (w : Wrote compress compress_thresh_per uncompress noI works n st)
      → 0 < length st.data_cache
      → n ≡ min (length st.data_cache) metadata_size
      → flush_all compress compress_thresh_per noI (suc fuel) st
        ≡ flush_all compress compress_thresh_per noI fuel w.after
  unfolding flush_all
  flush_all-round fuel st n w p e =
      let some_left : (length st.data_cache == 0) ≡ false = ground arith in
      let here : write_block compress compress_thresh_per noI
            (min (length st.data_cache) metadata_size) st
          ≡ some w.after =
        ap (λ m. write_block compress compress_thresh_per noI m st) (sym e) ∙ w.wrote in
      rw (some_left, flush_all, here) refl

  flush_all-last :
      (fuel : ℕ) (st : Inodes) (bs : List Block) (whole : List ℕ)
      → length st.data_cache ≤ metadata_size
      → 0 < length st.data_cache
      → Writes compress compress_thresh_per uncompress noI works st bs whole
      → Emptied (suc fuel) st bs whole
  flush_all-last fuel st bs whole h p k =
      let n = length st.data_cache in
      let w = write_block-Wrote compress compress_thresh_per uncompress noI works n st in
      let b : Block = (take n st.data_cache, w.enc) in
      let all : take n st.data_cache ≡ st.data_cache = take_all st.data_cache in
      let size = ap length all in
      record {
        after = w.after;
        more = b ∷ [];
        ran =
            flush_all-round fuel st n w p (omega (arith, h))
            ∙ flush_all-stop fuel w.after (w.cache ∙ drop_all n st.data_cache (omega arith));
        in_table = w.table ∙ ap (λ l. l ++ w.enc) k.in_table ∙ sym (encs-append bs b);
        stored =
            AreStored-last compress compress_thresh_per uncompress noI works bs b k.full
              (omega (arith, size, p)) (omega (arith, size, h)) w.stored;
        contents = raws-append bs b ∙ ap (λ l. raws bs ++ l) all ∙ k.contents;
      }

  nothing_left :
      (fuel : ℕ) (st : Inodes) (bs : List Block) (whole : List ℕ)
      → length st.data_cache ≡ 0
      → Writes compress compress_thresh_per uncompress noI works st bs whole
      → Emptied fuel st bs whole
  nothing_left fuel st bs whole h k =
      let e = length-zero st.data_cache h in
      record {
        after = st;
        more = [];
        ran = flush_all-stop fuel st e;
        in_table = rw (append-nil bs) k.in_table;
        stored =
            rw (append-nil bs)
              (AreStored-full compress compress_thresh_per uncompress noI works bs k.full);
        contents =
            rw (append-nil bs)
              (sym (append-nil (raws bs)) ∙ ap (λ l. raws bs ++ l) (sym e) ∙ k.contents);
      }

  flush_all-Emptied :
      (fuel : ℕ) (st : Inodes) (bs : List Block) (whole : List ℕ)
      → length st.data_cache ≤ fuel
      → Writes compress compress_thresh_per uncompress noI works st bs whole
      → Emptied fuel st bs whole
  flush_all-Emptied zero st bs whole h k = nothing_left zero st bs whole (omega (arith, h)) k
  flush_all-Emptied (suc fuel) st bs whole h k = elim (dec_lt 0 (length st.data_cache)) [
    | no e ↦ nothing_left (suc fuel) st bs whole (omega (arith, e)) k
    | yes p ↦ elim (dec_lt metadata_size (length st.data_cache)) [
      | no e ↦ flush_all-last fuel st bs whole (omega (arith, e)) p k
      | yes l ↦
          let w =
            write_block-Wrote compress compress_thresh_per uncompress noI works metadata_size st in
          let b : Block = (take metadata_size st.data_cache, w.enc) in
          let left = ap length w.cache in
          let r =
            flush_all-Emptied fuel w.after (bs ++ (b ∷ [])) whole
              (omega (arith, left, length-drop metadata_size st.data_cache, h, l))
              (Writes-block compress compress_thresh_per uncompress noI works st bs whole w
                (omega (arith, l)) k) in
          let regroup = append_assoc bs (b ∷ []) r.more in
          record {
            after = r.after;
            more = b ∷ r.more;
            ran = flush_all-round fuel st metadata_size w p (omega (arith, l)) ∙ r.ran;
            in_table = r.in_table ∙ ap encs regroup;
            stored = subst (AreStored compress compress_thresh_per uncompress noI) regroup r.stored;
            contents = ap raws (sym regroup) ∙ r.contents;
          }
    ]
  ]

  pub write_inodes-Finished :
      (st : Inodes) (bs : List Block) (whole image : List ℕ)
      → Writes compress compress_thresh_per uncompress noI works st bs whole
      → Finished st bs whole image
  unfolding write_inodes
  write_inodes-Finished st bs whole image k =
      let r = flush_all-Emptied (length st.data_cache) st bs whole (omega arith) k in
      record {
        more = r.more;
        ran = rw (r.ran, write_inodes, r.in_table) refl;
        stored = r.stored;
        contents = r.contents;
      }
