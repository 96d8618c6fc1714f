-- ===== src/Metadata/References.antt =====
-- The numbers that the writer gives to inodes lead the reader to them.
use mathlib.Core.Path.{subst}
use external_squashfs_tools.Common.{
  ℕ, ◌+◌, ◌≡◌, refl, sym, ap, ◌∙◌, Bool, false, Option, none, some, List, [], ◌∷◌, ◌++◌, append-nil,
  append_assoc, length, length-append,
}
use external_squashfs_tools.Directory.Write.{metadata_size}
use external_squashfs_tools.Metadata.{
  Inodes, no_inodes, put_inode, write_inodes, HashTableEntry, read_inode_table,
}
use external_squashfs_tools.Metadata.Stored.{IsInverse}
use external_squashfs_tools.Metadata.Loaded.{Block, encs, read_inode_table-Load}
use external_squashfs_tools.Metadata.Written.{Writes, put_inode-Numbered}
use external_squashfs_tools.Metadata.Finished.{write_inodes-Finished}
use external_squashfs_tools.Metadata.Placed.{
  concat, AllNonempty, Placed, Placed-more, ArePlaced, AreFound, AreFound-Placed,
}

module _ (compress : List ℕ → ℕ → Option (List ℕ)) (compress_thresh_per : ℕ) (noI : Bool) where
  -- The inodes one after the other, and their numbers.
  unfoldable pub put_all : List (List ℕ) → Inodes → Option (List ℕ × Inodes)
  put_all [] st = some ([], st)
  put_all (x ∷ xs) st = elim (put_inode compress compress_thresh_per noI x st) [
    | none ↦ none
    | some (number, st') ↦ elim (put_all xs st') [
      | none ↦ none
      | some (numbers, st'') ↦ some (number ∷ numbers, st'')
    ]
  ]

  put_all-step :
      (x : List ℕ) (xs : List (List ℕ)) (st st' st'' : Inodes) (number : ℕ) (numbers : List ℕ)
      → put_inode compress compress_thresh_per noI x st ≡ some (number, st')
      → put_all xs st' ≡ some (numbers, st'')
      → put_all (x ∷ xs) st ≡ some (number ∷ numbers, st'')
  unfolding put_all
  put_all-step x xs st st' st'' number numbers h k = rw (h, k, put_all) refl

  -- The inodes are written and read back: each at its number, the table whole.
  pub record Saved (uncompress : List ℕ → ℕ → Option (List ℕ)) (xs : List (List ℕ)) (image : List ℕ)
      : Type 0 where
    pub numbers : List ℕ
    pub written : Inodes
    pub image' : List ℕ
    pub hash_table : ℕ → List HashTableEntry
    pub put : put_all xs no_inodes ≡ some (numbers, written)
    pub saved :
        write_inodes compress compress_thresh_per noI written image ≡ some (length image, image')
    pub loaded :
        read_inode_table uncompress false false image' (length image) (length image')
        ≡ some (hash_table, concat xs)
    pub found : AreFound hash_table (length image) (concat xs) numbers xs

  module _ (uncompress : List ℕ → ℕ → Option (List ℕ))
      (works : (s : List ℕ) → (c : List ℕ) × (compress s metadata_size ≡ some c))
      (inverse : IsInverse compress compress_thresh_per uncompress) where
    record AllNumbered (xs : List (List ℕ)) (st : Inodes) (bs : List Block) (whole : List ℕ)
        : Type 0 where
      numbers : List ℕ
      after : Inodes
      more : List Block
      ran : put_all xs st ≡ some (numbers, after)
      writes :
          Writes compress compress_thresh_per uncompress noI works after
            (bs ++ more)
            (whole ++ concat xs)
      are_placed : ArePlaced (bs ++ more) (length whole) numbers xs

    put_all-AllNumbered :
        (xs : List (List ℕ)) (st : Inodes) (bs : List Block) (whole : List ℕ)
        → Writes compress compress_thresh_per uncompress noI works st bs whole
        → AllNumbered xs st bs whole
    unfolding put_all
    put_all-AllNumbered [] st bs whole k = record {
      numbers = [];
      after = st;
      more = [];
      ran = refl;
      writes = rw (append-nil bs, append-nil whole) k;
      are_placed = tt;
    }
    put_all-AllNumbered (x ∷ xs) st bs whole k =
        let p =
          put_inode-Numbered compress compress_thresh_per uncompress noI works x st bs whole k in
        let r = put_all-AllNumbered xs p.after (bs ++ p.more) (whole ++ x) p.writes in
        let regroup = append_assoc bs p.more r.more in
        let here : Placed (bs ++ p.more) p.number (length whole) = record {
          before = bs ++ p.more;
          behind = [];
          offset = p.offset;
          split = sym (append-nil (bs ++ p.more));
          small = p.small;
          numbered = p.numbered;
          placed = p.placed;
        } in
        record {
          numbers = p.number ∷ r.numbers;
          after = r.after;
          more = p.more ++ r.more;
          ran = put_all-step x xs st p.after r.after p.number r.numbers p.ran r.ran;
          writes = rw⁻¹ (regroup, append_assoc whole x (concat xs)) r.writes;
          are_placed = (
            subst (λ l. Placed l p.number (length whole)) regroup
                (Placed-more (bs ++ p.more) r.more p.number (length whole) here),
            subst (λ m. ArePlaced (bs ++ (p.more ++ r.more)) m r.numbers xs) (length-append whole x)
                (subst (λ l. ArePlaced l (length (whole ++ x)) r.numbers xs) regroup r.are_placed),
          );
        }

    ArePlaced-more :
        (blocks more : List Block) (pos : ℕ) (ns : List ℕ) (xs : List (List ℕ))
        → ArePlaced blocks pos ns xs
        → ArePlaced (blocks ++ more) pos ns xs
    ArePlaced-more blocks more pos [] [] h = tt
    ArePlaced-more blocks more pos [] (x ∷ xs) h = absurd h
    ArePlaced-more blocks more pos (n ∷ ns) [] h = absurd h
    ArePlaced-more blocks more pos (n ∷ ns) (x ∷ xs) h =
        (Placed-more blocks more n pos h.0, ArePlaced-more blocks more (pos + length x) ns xs h.1)

    -- With a compressor that makes something of every block, or nothing, and a decompressor that
    -- undoes it: inodes of one byte or more are all put, the table is written behind any image,
    -- read_inode_table gives back their bytes in order, and block_ptr finds each inode at the
    -- number that it was given.
    pub write_inodes-read_inode_table :
        (xs : List (List ℕ)) (image : List ℕ) → AllNonempty xs → Saved uncompress xs image
    write_inodes-read_inode_table xs image hx =
        let start : Writes compress compress_thresh_per uncompress noI works no_inodes [] [] =
          record { full = tt; in_table = refl; contents = refl } in
        let p = put_all-AllNumbered xs no_inodes [] [] start in
        let f =
          write_inodes-Finished compress compress_thresh_per uncompress noI works p.after p.more
            (concat xs) image p.writes in
        let blocks = p.more ++ f.more in
        let image' = image ++ encs blocks in
        let l =
          read_inode_table-Load compress compress_thresh_per uncompress noI inverse image' blocks
            image [] (ap (λ r. image ++ r) (sym (append-nil (encs blocks)))) f.stored in
        record {
          numbers = p.numbers;
          written = p.after;
          image' = image';
          hash_table = l.hash_table;
          put = p.ran;
          saved = f.ran;
          loaded =
              rw (length-append image (encs blocks))
                (l.loaded ∙ ap (λ r. some (l.hash_table, r)) f.contents);
          found =
              AreFound-Placed l.hash_table (length image) (concat xs) blocks [] p.numbers xs
                l.indexed (sym f.contents) refl hx
                (ArePlaced-more p.more f.more 0 p.numbers xs p.are_placed);
        }
