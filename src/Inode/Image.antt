-- ===== src/Inode/Image.antt =====
-- Inodes all the way: `create_inode` for each, `write_inodes`, and on the other side
-- `read_inode_table` and `read_inode_4` at the numbers that were given.
use external_squashfs_tools.Common.{
  ℕ, ◌^◌, ◌≤◌, ◌<◌, ◌≡◌, refl, ◌∙◌, inl, inr, Bool, false, Option, none, some, List, [], ◌∷◌,
  Option-cases, length, get_elem?,
}
use external_squashfs_tools.Directory.Write.{metadata_size}
use external_squashfs_tools.Metadata.{
  Inodes, no_inodes, HashTableEntry, write_inodes, read_inode_table, put_inode,
}
use external_squashfs_tools.Metadata.Stored.{IsInverse}
use external_squashfs_tools.Metadata.Placed.{concat, AllNonempty, AreFound}
use external_squashfs_tools.Metadata.References.{put_all, write_inodes-read_inode_table}
use external_squashfs_tools.Inode.Create.{Request, inode_bytes, create_inode}
use external_squashfs_tools.Inode.Read.{Inode, found, read_inode}
use external_squashfs_tools.Inode.Requests.{IsRequest, inode_of}
use external_squashfs_tools.Inode.RoundTrip.{read_inode_at-inode_bytes}

-- A request whose owner and group are in the table of ids.
pub record IsOwned (id_table : List ℕ) (r : Request) : Type 0 where
  pub request : IsRequest r
  pub uid : ℕ
  pub gid : ℕ
  pub owner : get_elem? id_table r.uid ≡ some uid
  pub group : get_elem? id_table r.guid ≡ some gid

abbrev pub AreOwned : List ℕ → List Request → Type 0
AreOwned id_table [] = Unit
AreOwned id_table (r ∷ rs) = IsOwned id_table r × AreOwned id_table rs

-- The requests make these bytes.
abbrev AreMade : List Request → List (List ℕ) → Type 0
AreMade [] [] = Unit
AreMade [] (x ∷ xs) = ⊥
AreMade (r ∷ rs) [] = ⊥
AreMade (r ∷ rs) (x ∷ xs) = (inode_bytes r ≡ some x) × AreMade rs xs

module _ (compress : List ℕ → ℕ → Option (List ℕ)) (compress_thresh_per : ℕ) (noI : Bool) where
  -- The inodes one after the other, and their numbers.
  pub create_all : List Request → Inodes → Option (List ℕ × Inodes)
  create_all [] st = some ([], st)
  create_all (r ∷ rs) st = elim (create_inode compress compress_thresh_per noI r st) [
    | none ↦ none
    | some (number, st') ↦ elim (create_all rs st') [
      | none ↦ none
      | some (numbers, st'') ↦ some (number ∷ numbers, st'')
    ]
  ]

  create_all-put_all :
      (rs : List Request) (xs : List (List ℕ)) (st : Inodes)
      → AreMade rs xs
      → create_all rs st ≡ put_all compress compress_thresh_per noI xs st
  unfolding create_all put_all create_inode
  create_all-put_all [] [] st h = refl
  create_all-put_all [] (x ∷ xs) st h = absurd h
  create_all-put_all (r ∷ rs) [] st h = absurd h
  create_all-put_all (r ∷ rs) (x ∷ xs) st h =
      elim (Option-cases (put_inode compress compress_thresh_per noI x st)) [
        | inl e ↦ rw (h.0, e, create_all, put_all) refl
        | inr p ↦
            let (q, e) = p in
            rw (h.0, e, create_all, put_all, create_all-put_all rs xs q.1 h.1) refl
      ]

module _ (block_size block_log : ℕ) (some_size : 0 < block_size) (an_int : block_size ≤ 2 ^ 32)
    (id_table : List ℕ) where
  abbrev bytes_of : (r : Request) → IsOwned id_table r → List ℕ
  bytes_of r o =
      (read_inode_at-inode_bytes block_size block_log some_size an_int r o.request id_table o.uid
        o.gid o.owner o.group).0

  abbrev all_bytes : (rs : List Request) → AreOwned id_table rs → List (List ℕ)
  all_bytes [] o = []
  all_bytes (r ∷ rs) o = bytes_of r o.0 ∷ all_bytes rs o.1

  all_bytes-AreMade : (rs : List Request) (o : AreOwned id_table rs) → AreMade rs (all_bytes rs o)
  all_bytes-AreMade [] o = tt
  all_bytes-AreMade (r ∷ rs) o =
      let m =
        read_inode_at-inode_bytes block_size block_log some_size an_int r o.0.request id_table
          o.0.uid o.0.gid o.0.owner o.0.group in
      (m.1, all_bytes-AreMade rs o.1)

  all_bytes-AllNonempty :
      (rs : List Request) (o : AreOwned id_table rs) → AllNonempty (all_bytes rs o)
  all_bytes-AllNonempty [] o = tt
  all_bytes-AllNonempty (r ∷ rs) o =
      let m =
        read_inode_at-inode_bytes block_size block_log some_size an_int r o.0.request id_table
          o.0.uid o.0.gid o.0.owner o.0.group in
      (m.2, all_bytes-AllNonempty rs o.1)

  module _ (t : ℕ → List HashTableEntry) (table : List ℕ) (start : ℕ) where
    -- The inodes read at the numbers are those asked for, whatever was read before.
    abbrev pub AreRead : (rs : List Request) → AreOwned id_table rs → List ℕ → Type 0
    AreRead [] o [] = Unit
    AreRead [] o (n ∷ ns) = ⊥
    AreRead (r ∷ rs) o [] = ⊥
    AreRead (r ∷ rs) o (n ∷ ns) =
        ((rest : List ℕ) × ((prev : Inode)
            → read_inode block_size block_log t table id_table prev start n
              ≡ found (inode_of block_size block_log r o.0.uid o.0.gid prev rest)))
        × AreRead rs o.1 ns

    read_inode-AreRead :
        (rs : List Request) (o : AreOwned id_table rs) (ns : List ℕ)
        → AreFound t start table ns (all_bytes rs o)
        → AreRead rs o ns
    unfolding read_inode
    read_inode-AreRead [] o [] f = tt
    read_inode-AreRead [] o (n ∷ ns) f = absurd f
    read_inode-AreRead (r ∷ rs) o [] f = absurd f
    read_inode-AreRead (r ∷ rs) o (n ∷ ns) f =
        let m =
          read_inode_at-inode_bytes block_size block_log some_size an_int r o.0.request id_table
            o.0.uid o.0.gid o.0.owner o.0.group in
        let (rest, e) = f.0 in
        ((rest, λ prev. rw (e, read_inode) (m.3 rest prev)), read_inode-AreRead rs o.1 ns f.1)

  -- The image with the inodes, and what is read from it.
  pub record Imaged (compress : List ℕ → ℕ → Option (List ℕ)) (compress_thresh_per : ℕ) (noI : Bool)
      (uncompress : List ℕ → ℕ → Option (List ℕ)) (rs : List Request) (o : AreOwned id_table rs)
      (image : List ℕ) : Type 0 where
    pub numbers : List ℕ
    pub written : Inodes
    pub image' : List ℕ
    pub hash_table : ℕ → List HashTableEntry
    pub table : List ℕ
    pub created : create_all compress compress_thresh_per noI rs no_inodes ≡ some (numbers, written)
    pub saved :
        write_inodes compress compress_thresh_per noI written image ≡ some (length image, image')
    pub loaded :
        read_inode_table uncompress false false image' (length image) (length image')
        ≡ some (hash_table, table)
    pub read : AreRead hash_table table (length image) rs o numbers

  -- With a compressor that makes something of every block, or nothing, a decompressor that undoes
  -- it, block sizes of an int and above 0, and requests whose fields fit the disk's and whose
  -- owners and groups are in the table of ids: every inode is created, the table is written behind
  -- any image and read back from there, and read_inode_4 finds at each inode's number the inode
  -- that was asked for.
  pub create_inode-read_inode :
      (compress : List ℕ → ℕ → Option (List ℕ)) (compress_thresh_per : ℕ) (noI : Bool)
      (uncompress : List ℕ → ℕ → Option (List ℕ))
      → ((s : List ℕ) → (c : List ℕ) × (compress s metadata_size ≡ some c))
      → IsInverse compress compress_thresh_per uncompress
      → (rs : List Request) (o : AreOwned id_table rs) (image : List ℕ)
      → Imaged compress compress_thresh_per noI uncompress rs o image
  create_inode-read_inode compress compress_thresh_per noI uncompress works inverse rs o image =
      let xs = all_bytes rs o in
      let s =
        write_inodes-read_inode_table compress compress_thresh_per noI uncompress works inverse xs
          image (all_bytes-AllNonempty rs o) in
      record {
        numbers = s.numbers;
        written = s.written;
        image' = s.image';
        hash_table = s.hash_table;
        table = concat xs;
        created =
            create_all-put_all compress compress_thresh_per noI rs xs no_inodes
              (all_bytes-AreMade rs o)
            ∙ s.put;
        saved = s.saved;
        loaded = s.loaded;
        read = read_inode-AreRead s.hash_table (concat xs) (length image) rs o s.numbers s.found;
      }
