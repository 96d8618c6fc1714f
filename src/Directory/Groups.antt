-- ===== src/Directory/Groups.antt =====
-- What a listing is: groups of entries, each a header and its entries.
use external_squashfs_tools.Common.{ℕ, ◌-◌, ◌^◌, ◌≤◌, ◌<◌, List, [], ◌∷◌, ◌++◌, map, length}
use external_squashfs_tools.Directory.Write.{dir_header, dir_entry}
use external_squashfs_tools.Directory.Read.{DirEnt}

-- An entry as it is stored; `delta` is the inode number relative to the group's.
pub record Item : Type 0 where
  pub offset : ℕ
  pub delta : ℕ
  pub type : ℕ
  pub name : List ℕ

pub record Group : Type 0 where
  pub start_block : ℕ
  pub inode_number : ℕ
  pub items : List Item

abbrev pub encode_item : Item → List ℕ
encode_item it = dir_entry it.offset it.delta it.type (length it.name - 1) ++ it.name

abbrev pub encode_items : List Item → List ℕ
encode_items [] = []
encode_items (it ∷ its) = encode_item it ++ encode_items its

abbrev pub encode_group : Group → List ℕ
encode_group g =
    dir_header (length g.items - 1) g.start_block g.inode_number ++ encode_items g.items

abbrev pub encode_groups : List Group → List ℕ
encode_groups [] = []
encode_groups (g ∷ gs) = encode_group g ++ encode_groups gs

abbrev pub item_ent : ℕ → Item → DirEnt
item_ent start_block it = record {
  name = it.name;
  start_block = start_block;
  offset = it.offset;
  type = it.type;
}

abbrev pub group_ents : Group → List DirEnt
group_ents g = map (item_ent g.start_block) g.items

abbrev pub groups_ents : List Group → List DirEnt
groups_ents [] = []
groups_ents (g ∷ gs) = group_ents g ++ groups_ents gs

-- No zero byte.
abbrev pub IsText : List ℕ → Type 0
IsText [] = Unit
IsText (c ∷ s) = (0 < c) × IsText s

abbrev pub IsName : List ℕ → Type 0
IsName name = (0 < length name) × ((length name ≤ 256) × IsText name)

abbrev pub IsItem : Item → Type 0
IsItem it = (it.offset < 2 ^ 16) × ((it.type < 2 ^ 16) × IsName it.name)

abbrev pub AreItems : List Item → Type 0
AreItems [] = Unit
AreItems (it ∷ its) = IsItem it × AreItems its

abbrev pub IsGroup : Group → Type 0
IsGroup g =
    (g.start_block < 2 ^ 32) × ((0 < length g.items) × ((length g.items ≤ 256) × AreItems g.items))

abbrev pub AreGroups : List Group → Type 0
AreGroups [] = Unit
AreGroups (g ∷ gs) = IsGroup g × AreGroups gs
