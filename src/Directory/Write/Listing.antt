-- ===== src/Directory/Write/Listing.antt =====
-- The reader lists what the writer was given.
use external_squashfs_tools.Common.{
  ℕ, ◌+◌, ◌/◌, ◌%◌, ◌^◌, ◌<◌, ◌≡◌, refl, sym, ap, ◌∙◌, inl, inr, true, false, Option, none, some,
  List, [], ◌∷◌, ◌++◌, map, append-nil, append_assoc, arith, ltb, leb, ◌==◌, Bool-cases, length,
  length-append,
}
use external_squashfs_tools.Directory.Write.{
  add_index, Directory, start_group, end_group, add_room, place, add_dir, needs_header,
  scan7_init_dir, write_dir, close_group,
}
use external_squashfs_tools.Directory.Write.Append.{groups_ents-append}
use external_squashfs_tools.Directory.Write.Encoded.{
  close_group-encode, open_group, add_room-IsOpen,
}
use external_squashfs_tools.Directory.Write.Wrote.{
  Wrote, IsFresh, AreGroups-open, needs_header-false, needs_header-full, put_entry-Wrote,
  start_group-Wrote,
}
use external_squashfs_tools.Directory.Read.{DirEnt, read, squashfs_opendir}
use external_squashfs_tools.Directory.Read.Encoded.{squashfs_opendir-groups}
use external_squashfs_tools.Directory.Groups.{encode_items, encode_groups, IsName}

-- The arguments of one call of `add_dir`.
pub record Entry : Type 0 where
  pub inode : ℕ
  pub inode_number : ℕ
  pub name : List ℕ
  pub type : ℕ

abbrev pub add_dirs : List Entry → Directory → Directory
add_dirs [] d = d
add_dirs (e ∷ es) d = add_dirs es (add_dir e.inode e.inode_number e.name e.type d)

-- What the reader gives for an entry: the two halves of the inode reference.
abbrev pub listed : Entry → DirEnt
listed e = record {
  name = e.name;
  start_block = e.inode / 2 ^ 16 % 2 ^ 32;
  offset = e.inode % 2 ^ 16;
  type = e.type;
}

abbrev pub AreEntries : List Entry → Type 0
AreEntries [] = Unit
AreEntries (e ∷ es) = ((e.type < 2 ^ 16) × IsName e.name) × AreEntries es

end_group-buff :
    (size : ℕ) (name : List ℕ) (d : Directory) (p : ℕ)
    → d.entry_count_p ≡ some p
    → (end_group size name d).buff ≡ close_group d
unfolding end_group
end_group-buff size name d p h =
    let after : Option ℕ → Directory =
      λ o. elim o [ none ↦ d | some q ↦ record (add_index size name d) { buff = close_group d } ] in
    ap (λ o. (after o).buff) h

module _ (offset start_block inode_number : ℕ) (name : List ℕ) (type : ℕ) (ho : offset < 2 ^ 16)
    (hs : start_block < 2 ^ 32) (ht : type < 2 ^ 16) (hn : IsName name) where
  abbrev placed : Directory → Directory
  placed d = place offset start_block inode_number name type (length name) d

  abbrev ent : DirEnt
  ent = record { name = name; start_block = start_block; offset = offset; type = type }

  place-same :
      (d : Directory) (es : List DirEnt)
      → needs_header start_block inode_number (length name) d ≡ false
      → Wrote d es
      → Wrote (placed d) (es ++ (ent ∷ []))
  unfolding place
  place-same d es e w =
      let o = w.is_open in
      let f = needs_header-false start_block inode_number (length name) d e in
      let room : length w.items < 256 = ground (arith, o.below, o.counted, f) in
      rw e (
        put_entry-Wrote offset start_block inode_number name type ho hs ht hn d w.groups w.items es
          o room f.1 w.listing)

  place-next :
      (d : Directory) (es : List DirEnt)
      → needs_header start_block inode_number (length name) d ≡ true
      → Wrote d es
      → Wrote (placed d) (es ++ (ent ∷ []))
  unfolding place
  place-next d es e w =
      let o = w.is_open in
      let g = open_group d w.items in
      let l = groups_ents-append w.groups g ∙ w.listing in
      rw (e, sym l)
        (start_group-Wrote offset start_block inode_number name type ho hs ht hn
          (end_group (length name) name d) (w.groups ++ (g ∷ []))
          (end_group-buff (length name) name d (length (encode_groups w.groups)) o.pointer
            ∙ close_group-encode d w.groups w.items o)
          (AreGroups-open d w.groups w.items o w.some_item))

  place-first : (d : Directory) → IsFresh d → Wrote (placed d) (ent ∷ [])
  unfolding place end_group start_group
  place-first d (hb, (hc, hp)) =
      rw (needs_header-full start_block inode_number (length name) d hc, hp)
        (start_group-Wrote offset start_block inode_number name type ho hs ht hn d [] hb tt)

  place-Wrote :
      (d : Directory) (es : List DirEnt) → Wrote d es → Wrote (placed d) (es ++ (ent ∷ []))
  place-Wrote d es w = elim (Bool-cases (needs_header start_block inode_number (length name) d)) [
    | inl e ↦ place-next d es e w
    | inr e ↦ place-same d es e w
  ]

add_room-Wrote :
    (size : ℕ) (d : Directory) (es : List DirEnt) → Wrote d es → Wrote (add_room size d) es
unfolding add_room
add_room-Wrote size d es w =
    let same : (add_room size d).start_block ≡ d.start_block = ground arith in
    record {
      groups = w.groups;
      items = w.items;
      is_open = add_room-IsOpen size d w.groups w.items w.is_open;
      some_item = w.some_item;
      listing = rw same w.listing;
    }

add_room-IsFresh : (size : ℕ) (d : Directory) → IsFresh d → IsFresh (add_room size d)
unfolding add_room
add_room-IsFresh size d f = elim (Bool-cases (leb d.size (length d.buff + 8 + size + 12))) [
  | inl e ↦ rw e f
  | inr e ↦ rw e f
]

init_dir-IsFresh :
    (start_block inode_number : ℕ) → IsFresh (scan7_init_dir start_block inode_number)
unfolding scan7_init_dir
init_dir-IsFresh start_block inode_number = (refl, (refl, refl))

opendir_empty :
    (start_block inode_number b : ℕ) (rest : List ℕ)
    → let listing = write_dir (scan7_init_dir start_block inode_number) in
      squashfs_opendir (length listing + 3) (record { bytes = b; rest = listing ++ rest }) ≡ read []
unfolding write_dir scan7_init_dir
opendir_empty start_block inode_number b rest = squashfs_opendir-groups b [] rest tt

add_dir-Wrote :
    (e : Entry) (d : Directory) (es : List DirEnt)
    → e.type < 2 ^ 16
    → IsName e.name
    → Wrote d es
    → Wrote (add_dir e.inode e.inode_number e.name e.type d) (es ++ (listed e ∷ []))
unfolding add_dir
add_dir-Wrote e d es ht hn w =
    let short : ltb 256 (length e.name) ≡ false = ground (arith, hn.1.0) in
    rw short (
      place-Wrote (e.inode % 2 ^ 16) (e.inode / 2 ^ 16 % 2 ^ 32) e.inode_number e.name e.type
        (omega arith) (omega arith) ht hn (add_room (length e.name) d) es
        (add_room-Wrote (length e.name) d es w))

add_dir-first :
    (e : Entry) (d : Directory)
    → e.type < 2 ^ 16
    → IsName e.name
    → IsFresh d
    → Wrote (add_dir e.inode e.inode_number e.name e.type d) (listed e ∷ [])
unfolding add_dir
add_dir-first e d ht hn f =
    let short : ltb 256 (length e.name) ≡ false = ground (arith, hn.1.0) in
    rw short (
      place-first (e.inode % 2 ^ 16) (e.inode / 2 ^ 16 % 2 ^ 32) e.inode_number e.name e.type
        (omega arith) (omega arith) ht hn (add_room (length e.name) d)
        (add_room-IsFresh (length e.name) d f))

add_dirs-Wrote :
    (es : List Entry) (d : Directory) (before : List DirEnt)
    → AreEntries es
    → Wrote d before
    → Wrote (add_dirs es d) (before ++ map listed es)
add_dirs-Wrote [] d before h w = rw (append-nil before) w
add_dirs-Wrote (e ∷ es) d before h w = rw⁻¹ (append_assoc before (listed e ∷ []) (map listed es)) (
    add_dirs-Wrote es (add_dir e.inode e.inode_number e.name e.type d) (before ++ (listed e ∷ []))
      h.1 (add_dir-Wrote e d before h.0.0 h.0.1 w))

write_dir-encode :
    (d : Directory) (es : List DirEnt) (w : Wrote d es)
    → write_dir d ≡ encode_groups (w.groups ++ (open_group d w.items ∷ []))
unfolding write_dir
write_dir-encode d es w =
    let o = w.is_open in
    let whole = length-append (encode_groups w.groups) (o.header ++ encode_items w.items) in
    let more = length-append o.header (encode_items w.items) in
    let written : (length d.buff == 0) ≡ false =
      rw o.layout (ground (arith, whole, more, o.header_size)) in
    rw written (close_group-encode d w.groups w.items o)

-- Reading a listing that is written gives the entries, in order and with their names: however
-- they fall into groups, for names of 1 to 256 bytes with no zero byte and types of 16 bits,
-- when the cursor stands at the listing and the size is the listing's plus 3.
pub squashfs_opendir-write_dir :
    (es : List Entry) (start_block inode_number b : ℕ) (rest : List ℕ)
    → AreEntries es
    → let listing = write_dir (add_dirs es (scan7_init_dir start_block inode_number)) in
      squashfs_opendir (length listing + 3) (record { bytes = b; rest = listing ++ rest })
      ≡ read (map listed es)
squashfs_opendir-write_dir [] start_block inode_number b rest h =
    opendir_empty start_block inode_number b rest
squashfs_opendir-write_dir (e ∷ es) start_block inode_number b rest h =
    let d = scan7_init_dir start_block inode_number in
    let w =
      add_dirs-Wrote es (add_dir e.inode e.inode_number e.name e.type d) (listed e ∷ []) h.1
        (add_dir-first e d h.0.0 h.0.1 (init_dir-IsFresh start_block inode_number)) in
    let end = add_dirs (e ∷ es) d in
    let g = open_group end w.items in
    rw (write_dir-encode end (map listed (e ∷ es)) w) (
      squashfs_opendir-groups b (w.groups ++ (g ∷ [])) rest
        (AreGroups-open end w.groups w.items w.is_open w.some_item)
      ∙ ap read (groups_ents-append w.groups g ∙ w.listing))
