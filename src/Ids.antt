-- ===== src/Ids.antt =====
-- The table of uids and gids: `get_id`, `create_id`, `resolve_child_ugid`, `get_uid` and
-- `get_guid` of squashfs-tools/mksquashfs.c.
pub mod Table
pub mod Answer
mod Tests
use external_squashfs_tools.Common.{
  ℕ, ◌+◌, ◌-◌, ◌%◌, ◌^◌, Bool, true, false, ◌&&◌, Option, none, some, List, [], ◌∷◌, ◌++◌, ltb, leb,
  ◌==◌, if◌then◌else◌, length, set, get_or,
}

-- `struct id`: `index` is the entry's place in `id_table`, `flags` its two bits.
pub record IdEntry : Type 0 where
  pub id : ℕ
  pub isa_uid : Bool
  pub isa_gid : Bool

-- `struct ugid_map_entry`.
pub record UgidMapEntry : Type 0 where
  pub child_id : ℕ
  pub parent_id : ℕ
  pub length_of : ℕ

-- `id_table` up to `id_count`; a pointer to an entry is its index, in the hash chains too.
pub record Ids : Type 0 where
  pub id_table : List IdEntry
  pub id_hash_table : ℕ → List ℕ
  pub uid_count : ℕ
  pub guid_count : ℕ

-- SQUASHFS_IDS, ID_HASH.
abbrev pub squashfs_ids : ℕ
squashfs_ids = 65536

abbrev pub id_hash : ℕ → ℕ
id_hash id = id % 256

abbrev pub nobody : IdEntry
nobody = record { id = 0; isa_uid = false; isa_gid = false }

abbrev pub entry_at : List IdEntry → ℕ → IdEntry
entry_at table p = get_or table p nobody

pub find_id : List IdEntry → List ℕ → ℕ → Option ℕ
find_id table [] id = none
find_id table (p ∷ chain) id =
    if (entry_at table p).id == id then some p else find_id table chain id

pub get_id : ℕ → Ids → Option ℕ
get_id id s = find_id s.id_table (s.id_hash_table (id_hash id)) id

abbrev pub push_chain : (ℕ → List ℕ) → ℕ → ℕ → ℕ → List ℕ
push_chain hash_table hash p h = if h == hash then p ∷ hash_table h else hash_table h

pub create_id : ℕ → Ids → Ids
create_id id s = record s {
  id_table = s.id_table ++ (record { id = id; isa_uid = false; isa_gid = false } ∷ []);
  id_hash_table = push_chain s.id_hash_table (id_hash id) (length s.id_table);
}

-- unsigned arithmetic wraps; `none` is the result 0.
pub resolve_child_ugid : List UgidMapEntry → ℕ → Option ℕ
resolve_child_ugid [] ugid = none
resolve_child_ugid (e ∷ ugid_mapping) ugid =
    if leb e.parent_id ugid && ltb ugid ((e.parent_id + e.length_of) % 2 ^ 32)
    then some ((e.child_id + ugid - e.parent_id) % 2 ^ 32)
    else resolve_child_ugid ugid_mapping ugid

-- How the two functions end: both errors are BAD_ERROR, which exits.
pub data Got : Type 0 where
  not_in_mapping out_of_ids : Got
  got : (index : ℕ) → Ids → Got

abbrev pub resolved : (resolve : Bool) → List UgidMapEntry → ℕ → Option ℕ
resolved false mapping id = some id
resolved true mapping id = resolve_child_ugid mapping id

-- The entry, which is created when there is none and room for it.
pub entry_for : ℕ → Ids → Option (ℕ × Ids)
entry_for id s = elim (get_id id s) [
  | some p ↦ some (p, s)
  | none ↦
      if length s.id_table == squashfs_ids then none else some (length s.id_table, create_id id s)
]

pub mark_uid : ℕ → Ids → Ids
mark_uid p s =
    let e = entry_at s.id_table p in
    if e.isa_uid then s else record s {
      id_table = set s.id_table p (record e { isa_uid = true });
      uid_count = s.uid_count + 1;
    }

pub mark_gid : ℕ → Ids → Ids
mark_gid p s =
    let e = entry_at s.id_table p in
    if e.isa_gid then s else record s {
      id_table = set s.id_table p (record e { isa_gid = true });
      guid_count = s.guid_count + 1;
    }

abbrev pub finish : (ℕ → Ids → Ids) → Option (ℕ × Ids) → Got
finish mark none = out_of_ids
finish mark (some (p, s)) = got p (mark p s)

abbrev pub get_marked : (ℕ → Ids → Ids) → Option ℕ → Ids → Got
get_marked mark none s = not_in_mapping
get_marked mark (some id) s = finish mark (entry_for id s)

pub get_uid : (resolve : Bool) (uid_mapping : List UgidMapEntry) → ℕ → Ids → Got
get_uid resolve uid_mapping uid s = get_marked mark_uid (resolved resolve uid_mapping uid) s

pub get_guid : (resolve : Bool) (gid_mapping : List UgidMapEntry) → ℕ → Ids → Got
get_guid resolve gid_mapping guid s = get_marked mark_gid (resolved resolve gid_mapping guid) s
