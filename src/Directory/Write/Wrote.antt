-- ===== src/Directory/Write/Wrote.antt =====
-- The entries that the writer has stored.
use external_squashfs_tools.Common.{
  ℕ, ◌^◌, ◌<◌, ◌≡◌, refl, sym, ◌≢◌, true, false, none, List, [], ◌∷◌, ◌++◌, map, append-nil,
  append_assoc, arith, length, length-append,
}
use external_squashfs_tools.Directory.Write.{Directory, put_entry, start_group, needs_header}
use external_squashfs_tools.Directory.Write.Append.{AreGroups-append, ents-append}
use external_squashfs_tools.Directory.Write.Encoded.{
  IsOpen, open_group, new_item, put_entry-IsOpen, start_group-IsOpen,
}
use external_squashfs_tools.Directory.Read.{DirEnt}
use external_squashfs_tools.Directory.Groups.{
  Item, Group, encode_groups, item_ent, groups_ents, IsName, IsGroup, AreGroups,
}

-- Nothing is written yet.
abbrev pub IsFresh : Directory → Type 0
IsFresh d = (d.buff ≡ []) × ((d.entry_count ≡ 256) × (d.entry_count_p ≡ none))

-- The entries written so far.
pub record Wrote (d : Directory) (es : List DirEnt) : Type 0 where
  pub groups : List Group
  pub items : List Item
  pub is_open : IsOpen d groups items
  pub some_item : 0 < length items
  pub listing : groups_ents groups ++ map (item_ent d.start_block) items ≡ es

-- An open group that has an entry is a group.
IsGroup-open :
    (d : Directory) (gs : List Group) (its : List Item)
    → IsOpen d gs its
    → 0 < length its
    → IsGroup (open_group d its)
IsGroup-open d gs its o h = (o.block, (h, (o.below, o.current)))

pub AreGroups-open :
    (d : Directory) (gs : List Group) (its : List Item)
    → IsOpen d gs its
    → 0 < length its
    → AreGroups (gs ++ (open_group d its ∷ []))
AreGroups-open d gs its o h =
    AreGroups-append gs (open_group d its) o.closed (IsGroup-open d gs its o h)

pub needs_header-false :
    (start_block inode_number size : ℕ) (d : Directory)
    → needs_header start_block inode_number size d ≡ false
    → (d.entry_count ≢ 256) × (start_block ≡ d.start_block)
unfolding needs_header
needs_header-false start_block inode_number size d h = ground arith

pub needs_header-full :
    (start_block inode_number size : ℕ) (d : Directory)
    → d.entry_count ≡ 256
    → needs_header start_block inode_number size d ≡ true
unfolding needs_header
needs_header-full start_block inode_number size d h = ground arith

module _ (offset start_block inode_number : ℕ) (name : List ℕ) (type : ℕ) (ho : offset < 2 ^ 16)
    (hs : start_block < 2 ^ 32) (ht : type < 2 ^ 16) (hn : IsName name) where
  abbrev ent : DirEnt
  ent = record { name = name; start_block = start_block; offset = offset; type = type }

  -- Into the open group.
  pub put_entry-Wrote :
      (d : Directory) (gs : List Group) (its : List Item) (es : List DirEnt)
      → IsOpen d gs its
      → length its < 256
      → start_block ≡ d.start_block
      → groups_ents gs ++ map (item_ent d.start_block) its ≡ es
      → Wrote (put_entry offset inode_number name type (length name) d) (es ++ (ent ∷ []))
  unfolding put_entry
  put_entry-Wrote d gs its es o h eb l =
      let it = new_item offset inode_number name type d in
      record {
        groups = gs;
        items = its ++ (it ∷ []);
        is_open = put_entry-IsOpen offset inode_number name type ho ht hn d gs its o h;
        some_item = omega (arith, length-append its (it ∷ []));
        listing =
            rw
              (
                ents-append d.start_block its it,
                sym l,
                eb,
                append_assoc (groups_ents gs) (map (item_ent d.start_block) its)
                    (item_ent d.start_block it ∷ []),
              )
              refl;
      }

  -- Into a group opened behind complete groups.
  pub start_group-Wrote :
      (d : Directory) (gs : List Group)
      → d.buff ≡ encode_groups gs
      → AreGroups gs
      → Wrote
          (put_entry offset inode_number name type
            (length name)
            (start_group start_block inode_number d))
          (groups_ents gs ++ (ent ∷ []))
  unfolding start_group
  start_group-Wrote d gs e h =
      put_entry-Wrote (start_group start_block inode_number d) gs [] (groups_ents gs)
        (start_group-IsOpen start_block inode_number hs d gs e h) (omega arith) refl
        (append-nil (groups_ents gs))
