-- ===== src/Metadata/Loaded.antt =====
-- A table of stored blocks is read back, with an index of the blocks.
use mathlib.Core.Path.{subst}
use external_squashfs_tools.Common.{
  ℕ, zero, suc, ◌+◌, ◌-◌, ◌≤◌, ◌<◌, ◌≡◌, refl, sym, ap, ◌∙◌, ◌⊎◌, inl, inr, Bool, true, false, not,
  ◌&&◌, ◌||◌, Option, some, List, [], ◌∷◌, ◌++◌, append-nil, append_assoc, arith, ltb, ◌==◌,
  if◌then◌else◌, ==_refl, Bool-cases, length, length-append,
}
use external_squashfs_tools.Directory.Write.{metadata_size}
use external_squashfs_tools.Metadata.{
  HashTableEntry, calculate_hash, add_entry, lookup_entry, read_block, read_table, read_inode_table,
}
use external_squashfs_tools.Metadata.Stored.{IsInverse, IsStored, read_block-Stored}

-- A block: its bytes, and what it is stored as.
abbrev pub Block : Type 0
Block = List ℕ × List ℕ

abbrev pub raws : List Block → List ℕ
raws [] = []
raws (b ∷ bs) = b.0 ++ raws bs

abbrev pub encs : List Block → List ℕ
encs [] = []
encs (b ∷ bs) = b.1 ++ encs bs

lookup_entry-add_entry :
    (t : ℕ → List HashTableEntry) (start bytes n : ℕ)
    → lookup_entry (add_entry t start bytes) n
      ≡ (if start == n then some bytes else lookup_entry t n)
unfolding lookup_entry add_entry
lookup_entry-add_entry t start bytes n =
    elim (Bool-cases (calculate_hash n == calculate_hash start)) [
      | inl e ↦ rw e refl
      | inr e ↦ let other : (start == n) ≡ false = ground (arith, e) in rw (e, other) refl
    ]

-- Each block is found at the position where it is stored.
abbrev pub Indexed : (start bytes : ℕ) → List Block → (ℕ → List HashTableEntry) → Type 0
Indexed start bytes [] t = Unit
Indexed start bytes (b ∷ bs) t =
    (lookup_entry t start ≡ some bytes) × Indexed (start + length b.1) (bytes + length b.0) bs t

module _ (compress : List ℕ → ℕ → Option (List ℕ)) (compress_thresh_per : ℕ)
    (uncompress : List ℕ → ℕ → Option (List ℕ)) (noI : Bool) where
  -- Stored blocks, of 8192 bytes but for the last.
  abbrev pub AreStored : List Block → Type 0
  AreStored [] = Unit
  AreStored (b ∷ []) =
      (0 < length b.0)
      × (length b.0 ≤ metadata_size)
      × IsStored compress compress_thresh_per uncompress noI b.0 b.1
  AreStored (b ∷ c ∷ bs) =
      (length b.0 ≡ metadata_size)
      × IsStored compress compress_thresh_per uncompress noI b.0 b.1
      × AreStored (c ∷ bs)

  module _ (inverse : IsInverse compress compress_thresh_per uncompress) (image : List ℕ) where
    -- One round of the loop.
    read_table-step :
        (fuel start end : ℕ) (t : ℕ → List HashTableEntry) (table raw : List ℕ) (next : ℕ)
        → start < end
        → read_block uncompress false false image start 0 ≡ some (raw, next)
        → 0 < length raw
        → (next ≡ end) ⊎ (length raw ≡ metadata_size)
        → read_table uncompress false false image (suc fuel) start end t table
          ≡ read_table uncompress false false image fuel next end
              (add_entry t start (length table))
              (table ++ raw)
    unfolding read_table
    read_table-step fuel start end t table raw next h r p o =
        let more : ltb start end ≡ true = ground arith in
        let good : ((length raw == 0) || (not (next == end) && not (length raw == metadata_size)))
            ≡ false =
          ground (arith, o) in
        rw (more, r, read_table, good) refl

    read_table-end :
        (fuel start : ℕ) (t : ℕ → List HashTableEntry) (table : List ℕ)
        → read_table uncompress false false image (suc fuel) start start t table ≡ some (t, table)
    unfolding read_table
    read_table-end fuel start t table =
        let done : ltb start start ≡ false = ground arith in rw (done, read_table) refl

    pub record Load (start : ℕ) (bs : List Block) (t : ℕ → List HashTableEntry) (table : List ℕ)
        (result : Option ((ℕ → List HashTableEntry) × List ℕ)) : Type 0 where
      pub hash_table : ℕ → List HashTableEntry
      pub loaded : result ≡ some (hash_table, table ++ raws bs)
      pub indexed : Indexed start (length table) bs hash_table
      pub kept : (n : ℕ) → n < start → lookup_entry hash_table n ≡ lookup_entry t n

    AreStored-head :
        (b : Block) (bs : List Block)
        → AreStored (b ∷ bs)
        → (0 < length b.0)
          × (length b.0 ≤ metadata_size)
          × IsStored compress compress_thresh_per uncompress noI b.0 b.1
          × AreStored bs
          × ((bs ≡ []) ⊎ (length b.0 ≡ metadata_size))
    AreStored-head b [] h = (h.0, h.1, h.2, tt, inl refl)
    AreStored-head b (c ∷ bs) h = (omega (arith, h.0), omega (arith, h.0), h.1, h.2, inr h.0)

    length-IsStored :
        (raw enc : List ℕ)
        → IsStored compress compress_thresh_per uncompress noI raw enc
        → 0 < length enc
    length-IsStored raw enc (c_byte, d, m, e) = omega (arith, ap length e)

    length_blocks : (bs : List Block) → AreStored bs → length bs ≤ length (encs bs)
    length_blocks [] h = omega arith
    length_blocks (b ∷ bs) h =
        let (hp, hl, st, rest, full) = AreStored-head b bs h in
        omega
          (arith, length-append b.1 (encs bs), length-IsStored b.0 b.1 st, length_blocks bs rest)

    read_table-Load :
        (bs : List Block) (fuel : ℕ) (pre post : List ℕ) (start end : ℕ)
        (t : ℕ → List HashTableEntry) (table : List ℕ)
        → image ≡ pre ++ (encs bs ++ post)
        → start ≡ length pre
        → end ≡ start + length (encs bs)
        → length bs < fuel
        → AreStored bs
        → Load start bs t table (read_table uncompress false false image fuel start end t table)
    read_table-Load bs zero pre post start end t table hi hs he hf h = absurd (omega arith)
    read_table-Load [] (suc fuel) pre post start end t table hi hs he hf h =
        let stop : end ≡ start = omega (arith, he) in
        record {
          hash_table = t;
          loaded = rw (stop, append-nil table) (read_table-end fuel start t table);
          indexed = tt;
          kept = λ n k. refl;
        }
    read_table-Load (b ∷ bs) (suc fuel) pre post start end t table hi hs he hf h =
        let (hp, hl, st, rest, full) = AreStored-head b bs h in
        let le = length-append b.1 (encs bs) in
        let la = length-append pre b.1 in
        let lt = length-append table b.0 in
        let pos = length-IsStored b.0 b.1 st in
        let next = start + length b.1 in
        let t' = add_entry t start (length table) in
        let here : image ≡ pre ++ (b.1 ++ (encs bs ++ post)) =
          hi ∙ ap (λ r. pre ++ r) (append_assoc b.1 (encs bs) post) in
        let block : read_block uncompress false false image start 0 ≡ some (b.0, next) = rw here (
          read_block-Stored compress compress_thresh_per uncompress inverse noI pre b.0 b.1
            (encs bs ++ post) start hs hp hl st) in
        let last : (next ≡ end) ⊎ (length b.0 ≡ metadata_size) = elim full [
          | inl e ↦ inl (omega (arith, he, le, ap (λ r. length (encs r)) e))
          | inr e ↦ inr e
        ] in
        let step =
          read_table-step fuel start end t table b.0 next (omega (arith, he, le, pos)) block hp
            last in
        let r =
          read_table-Load bs fuel (pre ++ b.1) post next end t' (table ++ b.0)
            (here ∙ sym (append_assoc pre b.1 (encs bs ++ post))) (omega (arith, la, hs))
            (omega (arith, he, le)) (omega (arith, hf)) rest in
        let same = lookup_entry-add_entry t start (length table) in
        let own : (start == start) ≡ true = ==_refl start in
        record {
          hash_table = r.hash_table;
          loaded =
              step ∙ r.loaded ∙ ap (λ l. some (r.hash_table, l)) (append_assoc table b.0 (raws bs));
          indexed = (
            r.kept start (omega (arith, pos)) ∙ same start ∙ rw own refl,
            subst (λ m. Indexed next m bs r.hash_table) lt r.indexed,
          );
          kept = λ n k.
              let other : (start == n) ≡ false = ground arith in
              r.kept n (omega (arith, k)) ∙ same n ∙ rw other refl;
        }

    -- The whole table.
    pub read_inode_table-Load :
        (bs : List Block) (pre post : List ℕ)
        → image ≡ pre ++ (encs bs ++ post)
        → AreStored bs
        → Load
            (length pre)
            bs
            (λ h. [])
            []
            (read_inode_table uncompress false false image
              (length pre)
              (length pre + length (encs bs)))
    unfolding read_inode_table
    read_inode_table-Load bs pre post hi h =
        read_table-Load bs (length pre + length (encs bs) - length pre + 1) pre post (length pre)
          (length pre + length (encs bs)) (λ h. []) [] hi refl refl
          (omega (arith, length_blocks bs h)) h
