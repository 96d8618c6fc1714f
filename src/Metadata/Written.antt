-- ===== src/Metadata/Written.antt =====
-- What the writer has made of the inodes: full blocks, and the rest in the cache.
use external_squashfs_tools.Common.{
  ℕ, zero, suc, ◌+◌, ◌-◌, ◌*◌, ◌%◌, ◌^◌, ◌≤◌, ◌<◌, ◌≡◌, refl, sym, ap, ◌∙◌, inl, inr, Bool, false,
  Option, some, List, [], ◌∷◌, ◌++◌, append-nil, append_assoc, arith, ltb, leb, if◌then◌else◌,
  Bool-cases, length, length-append, take, drop, replicate, take-append-drop, length-take,
  length-drop, length-replicate, take_exact, store, drop_all,
}
use external_squashfs_tools.Directory.Bytes.{swap_le}
use external_squashfs_tools.Directory.Write.{metadata_size}
use external_squashfs_tools.Metadata.{
  Inodes, compressed_size, compressed_bit, choose, mangle2, write_block, flush_full, reserve,
  get_inode, put_inode,
}
use external_squashfs_tools.Metadata.Stored.{IsStored}
use external_squashfs_tools.Metadata.Loaded.{Block, raws, encs, AreStored}

pub raws-append : (bs : List Block) (b : Block) → raws (bs ++ (b ∷ [])) ≡ raws bs ++ b.0
raws-append [] b = append-nil b.0
raws-append (c ∷ bs) b = rw (raws-append bs b) (sym (append_assoc c.0 (raws bs) b.0))

pub encs-append : (bs : List Block) (b : Block) → encs (bs ++ (b ∷ [])) ≡ encs bs ++ b.1
encs-append [] b = append-nil b.1
encs-append (c ∷ bs) b = rw (encs-append bs b) (sym (append_assoc c.1 (encs bs) b.1))

module _ (compress : List ℕ → ℕ → Option (List ℕ)) (compress_thresh_per : ℕ)
    (uncompress : List ℕ → ℕ → Option (List ℕ)) (noI : Bool)
    (works : (s : List ℕ) → (c : List ℕ) × (compress s metadata_size ≡ some c)) where
  -- Full blocks.
  abbrev pub AreFull : List Block → Type 0
  AreFull [] = Unit
  AreFull (b ∷ bs) =
      (length b.0 ≡ metadata_size)
      × IsStored compress compress_thresh_per uncompress noI b.0 b.1
      × AreFull bs

  AreFull-append :
      (bs : List Block) (b : Block)
      → AreFull bs
      → length b.0 ≡ metadata_size
      → IsStored compress compress_thresh_per uncompress noI b.0 b.1
      → AreFull (bs ++ (b ∷ []))
  AreFull-append [] b h l st = (l, st, tt)
  AreFull-append (c ∷ bs) b h l st = (h.0, h.1, AreFull-append bs b h.2 l st)

  -- A last block may be shorter.
  pub AreStored-full :
      (bs : List Block) → AreFull bs → AreStored compress compress_thresh_per uncompress noI bs
  AreStored-full [] h = tt
  AreStored-full (b ∷ []) h = (omega (arith, h.0), omega (arith, h.0), h.1)
  AreStored-full (b ∷ c ∷ bs) h = (h.0, h.1, AreStored-full (c ∷ bs) h.2)

  pub AreStored-last :
      (bs : List Block) (b : Block)
      → AreFull bs
      → 0 < length b.0
      → length b.0 ≤ metadata_size
      → IsStored compress compress_thresh_per uncompress noI b.0 b.1
      → AreStored compress compress_thresh_per uncompress noI (bs ++ (b ∷ []))
  AreStored-last [] b h p l st = (p, l, st)
  AreStored-last (c ∷ []) b h p l st = (h.0, h.1, (p, l, st))
  AreStored-last (c ∷ d ∷ bs) b h p l st = (h.0, h.1, AreStored-last (d ∷ bs) b h.2 p l st)

  pub mangle2-works :
      (raw : List ℕ)
      → (c_byte : ℕ) × (d : List ℕ) × (mangle2 compress compress_thresh_per noI false metadata_size
            raw
          ≡ some (c_byte, d))
  unfolding mangle2
  mangle2-works raw =
      let chosen = λ (c : List ℕ). choose compress compress_thresh_per compressed_bit raw c in
      elim (Bool-cases noI) [
        | inl e ↦ ((chosen []).0, (chosen []).1, rw (e, mangle2) refl)
        | inr e ↦ let (c, w) = works raw in ((chosen c).0, (chosen c).1, rw (e, w, mangle2) refl)
      ]

  -- What one block does.
  pub record Wrote (n : ℕ) (st : Inodes) : Type 0 where
    pub after : Inodes
    pub enc : List ℕ
    pub wrote : write_block compress compress_thresh_per noI n st ≡ some after
    pub stored : IsStored compress compress_thresh_per uncompress noI (take n st.data_cache) enc
    pub cache : after.data_cache ≡ drop n st.data_cache
    pub table : after.inode_table ≡ st.inode_table ++ enc

  pub write_block-Wrote : (n : ℕ) (st : Inodes) → Wrote n st
  unfolding write_block
  write_block-Wrote n st =
      let (c_byte, d, e) = mangle2-works (take n st.data_cache) in
      record {
        after = record st {
          data_cache = drop n st.data_cache;
          inode_table =
              st.inode_table ++ (swap_le 2 c_byte ++ take (compressed_size (c_byte % 2 ^ 16)) d);
          inode_size =
              if ltb (st.inode_size - length st.inode_table) (2 * metadata_size + 2)
              then st.inode_size + 2 * metadata_size + 2
              else st.inode_size;
          total_inode_bytes = st.total_inode_bytes + n + 2;
        };
        enc = swap_le 2 c_byte ++ take (compressed_size (c_byte % 2 ^ 16)) d;
        wrote = rw (e, write_block) refl;
        stored = (c_byte, d, e, refl);
        cache = refl;
        table = refl;
      }

  -- The blocks in the table, and all the bytes so far.
  pub record Writes (st : Inodes) (bs : List Block) (whole : List ℕ) : Type 0 where
    pub full : AreFull bs
    pub in_table : st.inode_table ≡ encs bs
    pub contents : raws bs ++ st.data_cache ≡ whole

  -- A full block moves from the cache to the table.
  pub Writes-stored :
      (st st' : Inodes) (enc : List ℕ) (bs : List Block) (whole : List ℕ)
      → IsStored compress compress_thresh_per uncompress noI (take metadata_size st.data_cache) enc
      → st'.data_cache ≡ drop metadata_size st.data_cache
      → st'.inode_table ≡ st.inode_table ++ enc
      → metadata_size ≤ length st.data_cache
      → Writes st bs whole
      → Writes st' (bs ++ ((take metadata_size st.data_cache, enc) ∷ [])) whole
  Writes-stored st st' enc bs whole s c t h k =
      let raw = take metadata_size st.data_cache in
      record {
        full =
            AreFull-append bs (raw, enc) k.full
              (omega (arith, length-take metadata_size st.data_cache, h)) s;
        in_table = t ∙ rw k.in_table (sym (encs-append bs (raw, enc)));
        contents =
            rw
              (
                raws-append bs (raw, enc),
                c,
                append_assoc (raws bs) raw (drop metadata_size st.data_cache),
                take-append-drop metadata_size st.data_cache,
              )
              k.contents;
      }

  pub Writes-block :
      (st : Inodes) (bs : List Block) (whole : List ℕ) (w : Wrote metadata_size st)
      → metadata_size ≤ length st.data_cache
      → Writes st bs whole
      → Writes w.after (bs ++ ((take metadata_size st.data_cache, w.enc) ∷ [])) whole
  Writes-block st bs whole w = Writes-stored st w.after w.enc bs whole w.stored w.cache w.table

  pub record Flushed (fuel : ℕ) (st : Inodes) (bs : List Block) (whole : List ℕ) : Type 0 where
    pub after : Inodes
    pub more : List Block
    pub ran : flush_full compress compress_thresh_per noI fuel st ≡ some after
    pub writes : Writes after (bs ++ more) whole
    pub small : length st.data_cache ≤ fuel → length after.data_cache < metadata_size

  flush_full-Flushed :
      (fuel : ℕ) (st : Inodes) (bs : List Block) (whole : List ℕ)
      → Writes st bs whole
      → Flushed fuel st bs whole
  unfolding flush_full
  flush_full-Flushed zero st bs whole k = record {
    after = st;
    more = [];
    ran = refl;
    writes = rw (append-nil bs) k;
    small = λ h. omega (arith, h);
  }
  flush_full-Flushed (suc fuel) st bs whole k =
      elim (Bool-cases (leb metadata_size (length st.data_cache))) [
        | inr e ↦ record {
          after = st;
          more = [];
          ran = rw (e, flush_full) refl;
          writes = rw (append-nil bs) k;
          small = λ h. ground arith;
        }
        | inl e ↦
            let w = write_block-Wrote metadata_size st in
            let b : Block = (take metadata_size st.data_cache, w.enc) in
            let large : metadata_size ≤ length st.data_cache = ground arith in
            let f =
              flush_full-Flushed fuel w.after (bs ++ (b ∷ [])) whole
                (Writes-block st bs whole w large k) in
            let left = ap length w.cache in
            record {
              after = f.after;
              more = b ∷ f.more;
              ran = rw (e, w.wrote, flush_full) f.ran;
              writes = rw⁻¹ (append_assoc bs (b ∷ []) f.more) f.writes;
              small = λ h.
                  f.small (omega (arith, left, length-drop metadata_size st.data_cache, h, large));
            }
      ]

  store-reserved :
      (cache x : List ℕ) → store (length cache) x (cache ++ replicate (length x) 0) ≡ cache ++ x
  store-reserved cache x =
      let zeros : List ℕ = replicate (length x) 0 in
      let n = length-replicate {A = ℕ} (length x) 0 in
      rw
        (
          take_exact cache zeros (length cache) refl,
          drop_all (length cache + length x) (cache ++ zeros)
              (omega (arith, length-append cache zeros, n)),
          append-nil x,
        )
        refl

  -- An inode that is put: its number gives the position of its block, and where it stands in it.
  pub record Numbered (x : List ℕ) (st : Inodes) (bs : List Block) (whole : List ℕ) : Type 0 where
    pub number : ℕ
    pub after : Inodes
    pub more : List Block
    pub ran : put_inode compress compress_thresh_per noI x st ≡ some (number, after)
    pub writes : Writes after (bs ++ more) (whole ++ x)
    pub offset : ℕ
    pub small : offset < metadata_size
    pub numbered : number ≡ length (encs (bs ++ more)) * 2 ^ 16 + offset
    pub placed : length whole ≡ length (raws (bs ++ more)) + offset

  pub put_inode-Numbered :
      (x : List ℕ) (st : Inodes) (bs : List Block) (whole : List ℕ)
      → Writes st bs whole
      → Numbered x st bs whole
  unfolding put_inode get_inode reserve
  put_inode-Numbered x st bs whole k =
      let f = flush_full-Flushed (length st.data_cache) st bs whole k in
      let r = (reserve compress compress_thresh_per noI (length x) f.after).1 in
      let w = f.writes in
      record {
        number = length f.after.inode_table * 2 ^ 16 + length f.after.data_cache;
        after = record r { data_cache = store (length f.after.data_cache) x r.data_cache };
        more = f.more;
        ran = rw (f.ran, put_inode, get_inode) refl;
        writes = record {
          full = w.full;
          in_table = w.in_table;
          contents =
              rw
                (
                  store-reserved f.after.data_cache x,
                  sym (append_assoc (raws (bs ++ f.more)) f.after.data_cache x),
                )
                (ap (λ l. l ++ x) w.contents);
        };
        offset = length f.after.data_cache;
        small = f.small (omega arith);
        numbered = ap (λ l. length l * 2 ^ 16 + length f.after.data_cache) w.in_table;
        placed =
            omega
              (arith, ap length w.contents, length-append (raws (bs ++ f.more)) f.after.data_cache);
      }
