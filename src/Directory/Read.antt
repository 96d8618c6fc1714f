-- ===== src/Directory/Read.antt =====
-- `squashfs_opendir_4` of squashfs-tools/unsquash-4.c and `squashfs_readdir` of
-- squashfs-tools/unsquashfs.c.
pub mod Encoded
use external_squashfs_tools.Common.{
  ℕ, zero, suc, ◌+◌, ◌-◌, ◌%◌, ◌^◌, true, false, ◌&&◌, Option, none, some, List, [], ◌∷◌, ◌++◌, ltb,
  ◌==◌, if◌then◌else◌, length, get_elem?, take, drop,
}
use external_squashfs_tools.Directory.Bytes.{unswap_le}

-- `struct dir_ent` of unsquashfs.h.
pub record DirEnt : Type 0 where
  pub name : List ℕ
  pub start_block : ℕ
  pub offset : ℕ
  pub type : ℕ

-- `overrun`: the code reads past the end of the directory table.
pub data Read {ℓ} (A : Type ℓ) : Type ℓ where
  corrupted overrun : Read A
  read : A → Read A

pub and_then {ℓ ℓ'} : {A : Type ℓ} {B : Type ℓ'} → Read A → (A → Read B) → Read B
and_then corrupted k = corrupted
and_then overrun k = overrun
and_then (read a) k = k a

-- The position `bytes` in the table, and the table from there on.
pub record Cursor : Type 0 where
  pub bytes : ℕ
  pub rest : List ℕ

pub fetch : ℕ → Cursor → Read (List ℕ × Cursor)
fetch n c =
    if ltb (length c.rest) n
    then overrun
    else read (take n c.rest, record { bytes = c.bytes + n; rest = drop n c.rest })

-- The field of `width` bytes at an offset of a structure.
abbrev pub field : (offset width : ℕ) → List ℕ → ℕ
field offset width bs = unswap_le (take width (drop offset bs))

-- `strcpy`: the bytes before the first zero.
pub strcpy : List ℕ → List ℕ
strcpy [] = []
strcpy (c ∷ s) = if c == 0 then [] else c ∷ strcpy s

-- The name that follows an entry; its length is stored less one.
pub read_name : (start_block : ℕ) → List ℕ × Cursor → Read (DirEnt × Cursor)
unfolding and_then fetch
read_name start_block (e, c) =
    if ltb 256 (field 6 2 e)
    then corrupted
    else and_then (fetch (field 6 2 e + 1) c) (λ q. read (
      record {
        name = strcpy q.0;
        start_block = start_block;
        offset = field 0 2 e;
        type = field 4 2 e;
      },
      q.1,
    ))

pub read_entry : (start_block : ℕ) → Cursor → Read (DirEnt × Cursor)
read_entry start_block c = and_then (fetch 8 c) (read_name start_block)

-- `while(dir_count--)`.
pub read_entries : (dir_count start_block : ℕ) → Cursor → Read (List DirEnt × Cursor)
read_entries zero start_block c = read ([], c)
read_entries (suc n) start_block c =
    and_then (read_entry start_block c)
      (λ p. and_then (read_entries n start_block p.1) (λ q. read (p.0 ∷ q.0, q.1)))

-- `dir_count` is an int that wraps: a negative one is not above 256.
pub read_group : Cursor → Read (List DirEnt × Cursor)
read_group c = and_then (fetch 12 c) (λ p.
    let dir_count = (field 0 4 p.0 + 1) % 2 ^ 32 in
    if ltb 256 dir_count && ltb dir_count (2 ^ 31)
    then corrupted
    else read_entries dir_count (field 4 4 p.0) p.1)

-- `while(bytes < size)`, on fuel: each group moves `bytes` on.
pub read_groups : ℕ → (size : ℕ) → Cursor → Read (List DirEnt)
read_groups zero size c = overrun
read_groups (suc fuel) size c = elim (ltb c.bytes size) [
  | false ↦ read []
  | true ↦
      and_then (read_group c) (λ p. and_then (read_groups fuel size p.1) (λ ds. read (p.0 ++ ds)))
]

-- `data` is the size in the inode, 3 above the listing's; the cursor stands at the listing.
unfoldable pub squashfs_opendir : (data_size : ℕ) → Cursor → Read (List DirEnt)
squashfs_opendir data_size c =
    if data_size == 3 then read [] else read_groups (data_size + 1) (data_size + c.bytes - 3) c

-- The entries left from `cur_entry` on: `none` is FALSE.
pub squashfs_readdir : List DirEnt → ℕ → Option (DirEnt × ℕ)
squashfs_readdir dirs cur_entry =
    if cur_entry == length dirs
    then none
    else elim (get_elem? dirs cur_entry) [ none ↦ none | some d ↦ some (d, cur_entry + 1) ]
