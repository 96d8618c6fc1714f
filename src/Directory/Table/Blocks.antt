-- ===== src/Directory/Table/Blocks.antt =====
-- The metadata blocks of the listings: what the loops of `write_dir` and `write_directories` make.
use external_squashfs_tools.Common.{
  ℕ, zero, suc, ◌+◌, ◌-◌, ◌*◌, ◌%◌, ◌^◌, ◌≤◌, ◌<◌, ◌≡◌, refl, sym, ap, ◌∙◌, inl, inr, Bool, Option,
  some, List, [], ◌∷◌, ◌++◌, map, append-nil, append_assoc, arith, ltb, if◌then◌else◌, Bool-cases,
  length, length-append, take, drop, length-drop,
}
use external_squashfs_tools.Directory.Bytes.{swap_le}
use external_squashfs_tools.Directory.Write.{metadata_size, DirIndex}
use external_squashfs_tools.Metadata.{Inodes, compressed_size}
use external_squashfs_tools.Metadata.Stored.{IsStored}
use external_squashfs_tools.Metadata.Loaded.{Block, raws}
use external_squashfs_tools.Metadata.Written.{Writes, Writes-stored, mangle2-works}
use external_squashfs_tools.Inode.Create.{CachedDirIndex}
use mathlib.Core.Path.{subst}
use external_squashfs_tools.Directory.Write.Ascending.{Ascending}
use external_squashfs_tools.Directory.Table.Marks.{
  ends, Ascending-none, length-raws_block, round_marks, AreMarked, mark_index-Round,
}
use external_squashfs_tools.Directory.Table.{
  Listings, with_block, mark_index, stored_block, write_dir_block, write_dir_blocks,
}

-- The cache and the table, as those of the inodes.
abbrev pub view : Listings → Inodes
view st = record {
  data_cache = st.directory_data_cache;
  cache_size = 0;
  inode_table = st.directory_table;
  inode_size = 0;
  total_inode_bytes = 0;
}

module _ (compress : List ℕ → ℕ → Option (List ℕ)) (compress_thresh_per : ℕ)
    (uncompress : List ℕ → ℕ → Option (List ℕ)) (noI : Bool)
    (works : (s : List ℕ) → (c : List ℕ) × (compress s metadata_size ≡ some c)) where
  -- A round of the loop.
  record Flushes (st : Listings) : Type 0 where
    after : Listings
    enc : List ℕ
    ran : write_dir_block compress compress_thresh_per noI st ≡ some after
    stored :
        IsStored compress compress_thresh_per uncompress noI
          (take metadata_size st.directory_data_cache)
          enc
    cache : after.directory_data_cache ≡ drop metadata_size st.directory_data_cache
    table : after.directory_table ≡ st.directory_table ++ enc

  write_dir_block-Flushes : (st : Listings) → Flushes st
  unfolding write_dir_block
  write_dir_block-Flushes st =
      let (c_byte, d, e) =
        mangle2-works compress compress_thresh_per uncompress noI works
          (take metadata_size st.directory_data_cache) in
      record {
        after =
            stored_block metadata_size
              (if ltb (st.directory_size - length st.directory_table) (2 * metadata_size + 2)
                then st.directory_size + 2 * metadata_size
                else st.directory_size)
              st (c_byte, d);
        enc = swap_le 2 c_byte ++ take (compressed_size (c_byte % 2 ^ 16)) d;
        ran = rw (e, write_dir_block) refl;
        stored = (c_byte, d, e, refl);
        cache = refl;
        table = refl;
      }

  pub record Rounds (fuel index : ℕ) (pending : List DirIndex) (marked : List CachedDirIndex)
      (st : Listings) (bs : List Block) (whole : List ℕ) : Type 0 where
    pub after : Listings
    pub marks : List CachedDirIndex
    pub more : List Block
    pub ran :
        write_dir_blocks compress compress_thresh_per noI fuel index pending marked st
        ≡ some (marks, after)
    pub writes :
        Writes compress compress_thresh_per uncompress noI works (view after) (bs ++ more) whole
    pub small : length after.directory_data_cache < metadata_size
    pub marked_at :
        (pos lo hi : ℕ)
        → Ascending lo hi pending
        → length (raws bs) ≤ pos + lo
        → index + pos ≡ length (raws bs) + metadata_size
        → length whole ≡ pos + hi
        → hi + metadata_size < 2 ^ 32
        → (new : List CachedDirIndex) × (marks ≡ marked ++ new)
          × AreMarked (bs ++ more) pos pending new

  -- The last round leaves no entry.
  last_marks :
      (pos index lo hi : ℕ) (pending : List DirIndex) (st : Listings) (bs : List Block)
      (whole : List ℕ)
      → Writes compress compress_thresh_per uncompress noI works (view st) bs whole
      → length st.directory_data_cache < metadata_size
      → Ascending lo hi pending
      → length (raws bs) ≤ pos + lo
      → index + pos ≡ length (raws bs) + metadata_size
      → length whole ≡ pos + hi
      → AreMarked bs pos pending (ends (mark_index index (length st.directory_table) pending))
  last_marks pos index lo hi pending st bs whole k s a hl hi' hw =
      let r = mark_index-Round bs pos index lo hi pending a hl hi' in
      let here = ap (λ t. mark_index index (length t) pending) k.in_table ∙ r.ran in
      let past : hi ≤ index = omega (
        arith,
        hi',
        hw,
        s,
        ap length k.contents,
        length-append (raws bs) st.directory_data_cache,
      ) in
      let none_left = Ascending-none index hi r.later past r.rest in
      let all : r.first ≡ pending =
        sym (append-nil r.first) ∙ ap (λ l. r.first ++ l) (sym none_left) ∙ sym r.whole in
      let marks : r.marks ≡ ends (mark_index index (length st.directory_table) pending) =
        sym (append-nil r.marks)
        ∙ ap (λ l. r.marks ++ map (with_block 0) l) (sym none_left)
        ∙ ap ends (sym here) in
      subst (AreMarked bs pos pending) marks
        (subst (λ l. AreMarked bs pos l r.marks) all r.are_marked)

  pub write_dir_blocks-Rounds :
      (fuel index : ℕ) (pending : List DirIndex) (marked : List CachedDirIndex) (st : Listings)
      (bs : List Block) (whole : List ℕ)
      → length st.directory_data_cache < fuel
      → Writes compress compress_thresh_per uncompress noI works (view st) bs whole
      → Rounds fuel index pending marked st bs whole
  unfolding write_dir_blocks
  write_dir_blocks-Rounds zero index pending marked st bs whole h k = absurd (omega (arith, h))
  write_dir_blocks-Rounds (suc fuel) index pending marked st bs whole h k =
      let (now, later) = mark_index index (length st.directory_table) pending in
      elim (Bool-cases (ltb (length st.directory_data_cache) metadata_size)) [
        | inl e ↦ record {
          after = st;
          marks = marked ++ (now ++ map (with_block 0) later);
          more = [];
          ran = rw (e, write_dir_blocks) refl;
          writes = rw (append-nil bs) k;
          small = ground arith;
          marked_at = λ pos lo hi a hl hi' hw hs. (
            now ++ map (with_block 0) later,
            refl,
            rw (append-nil bs)
                (last_marks pos index lo hi pending st bs whole k (ground arith) a hl hi' hw),
          );
        }
        | inr e ↦
            let w = write_dir_block-Flushes st in
            let b : Block = (take metadata_size st.directory_data_cache, w.enc) in
            let large : metadata_size ≤ length st.directory_data_cache = ground arith in
            let left = ap length w.cache in
            let r =
              write_dir_blocks-Rounds fuel ((index + metadata_size) % 2 ^ 32) later (marked ++ now)
                w.after (bs ++ (b ∷ [])) whole
                (omega (arith, left, length-drop metadata_size st.directory_data_cache, h, large))
                (Writes-stored compress compress_thresh_per uncompress noI works (view st)
                  (view w.after) w.enc bs whole w.stored w.cache w.table large k) in
            record {
              after = r.after;
              marks = r.marks;
              more = b ∷ r.more;
              ran = rw (e, w.ran, write_dir_blocks) r.ran;
              writes = rw⁻¹ (append_assoc bs (b ∷ []) r.more) r.writes;
              small = r.small;
              marked_at = λ pos lo hi a hl hi' hw hs.
                  let m = mark_index-Round bs pos index lo hi pending a hl hi' in
                  let here : mark_index index (length st.directory_table) pending
                      ≡ (m.marks, m.later) =
                    ap (λ t. mark_index index (length t) pending) k.in_table ∙ m.ran in
                  let more_raws : length (raws (bs ++ (b ∷ [])))
                      ≡ length (raws bs) + metadata_size =
                    length-raws_block bs st.directory_data_cache w.enc large in
                  let fits : index ≤ hi = omega (
                    arith,
                    hi',
                    hw,
                    large,
                    ap length k.contents,
                    length-append (raws bs) st.directory_data_cache,
                  ) in
                  let (new, e', am) =
                    r.marked_at pos index hi
                      (subst (Ascending index hi) (sym (ap (λ q. q.1) here)) m.rest)
                      (omega (arith, more_raws, hi')) (omega (arith, more_raws, hi', fits, hs)) hw
                      hs in
                  (
                    now ++ new,
                    e' ∙ append_assoc marked now new,
                    round_marks pos pending bs b r.more later now new m here am,
                  );
            }
      ]
