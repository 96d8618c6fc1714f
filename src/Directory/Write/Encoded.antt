-- ===== src/Directory/Write/Encoded.antt =====
-- What the writer has stored is a list of groups.
use external_squashfs_tools.Common.{
  ℕ, ◌+◌, ◌-◌, ◌%◌, ◌^◌, ◌≤◌, ◌<◌, ◌≡◌, refl, inl, inr, some, List, [], ◌∷◌, ◌++◌, append-nil,
  append_assoc, arith, leb, Bool-cases, length, length-append, replicate, take_all,
}
use external_squashfs_tools.Directory.Write.{
  Directory, dir_header, close_group, put_entry, start_group, add_room,
}
use external_squashfs_tools.Directory.Write.Append.{
  encode_groups-append, encode_items-append, AreItems-append, store_header,
}
use external_squashfs_tools.Directory.Groups.{
  Item, Group, encode_item, encode_items, encode_groups, IsName, AreItems, AreGroups,
}

-- The last group is open: its header's bytes are not stored yet.
pub record IsOpen (d : Directory) (gs : List Group) (its : List Item) : Type 0 where
  pub closed : AreGroups gs
  pub current : AreItems its
  pub below : length its ≤ 256
  pub counted : d.entry_count ≡ length its
  pub block : d.start_block < 2 ^ 32
  pub pointer : d.entry_count_p ≡ some (length (encode_groups gs))
  pub header : List ℕ
  pub header_size : length header ≡ 12
  pub layout : d.buff ≡ encode_groups gs ++ (header ++ encode_items its)

abbrev pub open_group : Directory → List Item → Group
open_group d its = record {
  start_block = d.start_block;
  inode_number = d.inode_number;
  items = its;
}

-- The header completes the open group.
pub close_group-encode :
    (d : Directory) (gs : List Group) (its : List Item)
    → IsOpen d gs its
    → close_group d ≡ encode_groups (gs ++ (open_group d its ∷ []))
unfolding close_group
close_group-encode d gs its o =
    let hdr = dir_header (length its - 1) d.start_block d.inode_number in
    rw
      (
        o.pointer,
        o.layout,
        o.counted,
        encode_groups-append gs (open_group d its),
        store_header (encode_groups gs) o.header hdr (encode_items its) o.header_size,
      )
      refl

abbrev pub new_item : (offset inode_number : ℕ) → List ℕ → ℕ → Directory → Item
new_item offset inode_number name type d = record {
  offset = offset;
  delta = (inode_number + 2 ^ 32 - d.inode_number) % 2 ^ 16;
  type = type;
  name = name;
}

module _ (offset inode_number : ℕ) (name : List ℕ) (type : ℕ) (ho : offset < 2 ^ 16)
    (ht : type < 2 ^ 16) (hn : IsName name) where
  pub put_entry-IsOpen :
      (d : Directory) (gs : List Group) (its : List Item)
      → IsOpen d gs its
      → length its < 256
      → IsOpen
          (put_entry offset inode_number name type (length name) d)
          gs
          (its ++ (new_item offset inode_number name type d ∷ []))
  unfolding put_entry
  put_entry-IsOpen d gs its o h =
      let it = new_item offset inode_number name type d in
      let size : (length name + 2 ^ 16 - 1) % 2 ^ 16 ≡ length name - 1 = omega arith in
      let more = length-append its (it ∷ []) in
      record {
        closed = o.closed;
        current = AreItems-append its it o.current (ho, (ht, hn));
        below = omega (arith, more);
        counted = omega (arith, more, o.counted);
        block = o.block;
        pointer = o.pointer;
        header = o.header;
        header_size = o.header_size;
        layout =
            rw
              (
                o.layout,
                take_all name,
                size,
                encode_items-append its it,
                append_assoc (encode_groups gs) (o.header ++ encode_items its) (encode_item it),
                append_assoc o.header (encode_items its) (encode_item it),
              )
              refl;
      }

module _ (start_block inode_number : ℕ) (hs : start_block < 2 ^ 32) where
  -- A group is opened behind a buffer of complete groups.
  pub start_group-IsOpen :
      (d : Directory) (gs : List Group)
      → d.buff ≡ encode_groups gs
      → AreGroups gs
      → IsOpen (start_group start_block inode_number d) gs []
  unfolding start_group
  start_group-IsOpen d gs e h = record {
    closed = h;
    current = tt;
    below = omega arith;
    counted = refl;
    block = hs;
    pointer = rw e refl;
    header = replicate 12 0;
    header_size = refl;
    layout = rw (e, append-nil {A = ℕ} (replicate 12 0)) refl;
  }

pub add_room-IsOpen :
    (size : ℕ) (d : Directory) (gs : List Group) (its : List Item)
    → IsOpen d gs its
    → IsOpen (add_room size d) gs its
unfolding add_room
add_room-IsOpen size d gs its o = elim (Bool-cases (leb d.size (length d.buff + 8 + size + 12))) [
  | inl e ↦ rw e (record {
    closed = o.closed;
    current = o.current;
    below = o.below;
    counted = o.counted;
    block = o.block;
    pointer = o.pointer;
    header = o.header;
    header_size = o.header_size;
    layout = o.layout;
  })
  | inr e ↦ rw e o
]
