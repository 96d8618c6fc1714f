-- ===== src/Directory/Write/Ascending.antt =====
-- The index of a directory goes up through its listing.
use external_squashfs_tools.Common.{
  ℕ, ◌+◌, ◌-◌, ◌/◌, ◌%◌, ◌^◌, ◌≤◌, ◌<◌, inl, inr, none, some, List, [], ◌∷◌, ◌++◌, arith, ltb, leb,
  ◌==◌, if◌then◌else◌, Bool-cases, length, length-append, take, drop, replicate, length-take,
  length-drop, store,
}
use external_squashfs_tools.Directory.Write.{
  DirIndex, Directory, dir_header, dir_entry, close_group, put_entry, start_group, end_group,
  add_room, place, add_dir, needs_header, add_index, scan7_init_dir, write_dir, past_block,
}
use external_squashfs_tools.Directory.Write.Listing.{Entry, add_dirs}

-- From `lo` on, and below `hi`.
abbrev pub Ascending : (lo hi : ℕ) → List DirIndex → Type 0
Ascending lo hi [] = Unit
Ascending lo hi (d ∷ ds) = (lo ≤ d.index) × (d.index < hi) × Ascending d.index hi ds

pub Ascending-more :
    (lo hi hi' : ℕ) (ds : List DirIndex) → hi ≤ hi' → Ascending lo hi ds → Ascending lo hi' ds
Ascending-more lo hi hi' [] h a = tt
Ascending-more lo hi hi' (d ∷ ds) h a =
    (a.0, omega (arith, a.1, h), Ascending-more d.index hi hi' ds h a.2)

Ascending-append :
    (lo hi hi' : ℕ) (ds : List DirIndex) (d : DirIndex)
    → lo ≤ d.index
    → hi ≤ d.index
    → d.index < hi'
    → Ascending lo hi ds
    → Ascending lo hi' (ds ++ (d ∷ []))
Ascending-append lo hi hi' [] d hl h h' a = (hl, h', tt)
Ascending-append lo hi hi' (e ∷ ds) d hl h h' a = (
  a.0,
  omega (arith, a.1, h, h'),
  Ascending-append e.index hi hi' ds d (omega (arith, a.1, h)) h h' a.2,
)

-- The index lies within the buffer.
abbrev IsIndexed : Directory → Type 0
IsIndexed d = Ascending 0 (length d.buff) d.index

length-store_above : (p : ℕ) (bs buff : List ℕ) → length buff ≤ length (store p bs buff)
length-store_above p bs buff = omega (
  arith,
  length-append (take p buff) (bs ++ drop (p + length bs) buff),
  length-append bs (drop (p + length bs) buff),
  length-take p buff,
  length-drop (p + length bs) buff,
)

close_group_above : (d : Directory) → length d.buff ≤ length (close_group d)
unfolding close_group
close_group_above d =
    elim d.entry_count_p
      as (λ o.
        length d.buff
        ≤ length (elim o as (λ q. List ℕ) [
          | none ↦ d.buff
          | some p ↦ store p (dir_header (d.entry_count - 1) d.start_block d.inode_number) d.buff
        ])) [
          | none ↦ omega arith
          | some p ↦
              length-store_above p (dir_header (d.entry_count - 1) d.start_block d.inode_number)
                d.buff
        ]

add_index-Ascending :
    (size : ℕ) (name : List ℕ) (d : Directory)
    → IsIndexed d
    → Ascending 0 (length d.buff + 1) (add_index size name d).index
unfolding add_index
add_index-Ascending size name d h = elim (Bool-cases (past_block size d)) [
  | inl e ↦ rw e (
      Ascending-append 0 (length d.buff) (length d.buff + 1) d.index
        (record { index = length d.buff; size = size - 1; name = name }) (omega arith) (omega arith)
        (omega arith) h)
  | inr e ↦ rw e (Ascending-more 0 (length d.buff) (length d.buff + 1) d.index (omega arith) h)
]

-- What `place` builds on.
abbrev Ready : (n : ℕ) → Directory → Type 0
Ready n d = (n ≤ length d.buff) × Ascending 0 (n + 1) d.index

end_group-Ready :
    (size : ℕ) (name : List ℕ) (d : Directory)
    → IsIndexed d
    → Ready (length d.buff) (end_group size name d)
unfolding end_group
end_group-Ready size name d h =
    elim d.entry_count_p
      as (λ o. Ready (length d.buff) (elim o as (λ q. Directory) [
        | none ↦ d
        | some p ↦ record (add_index size name d) { buff = close_group d }
      ])) [
        | none ↦ (
          omega arith,
          Ascending-more 0 (length d.buff) (length d.buff + 1) d.index (omega arith) h,
        )
        | some p ↦ (close_group_above d, add_index-Ascending size name d h)
      ]

put_entry-IsIndexed :
    (offset inode_number : ℕ) (name : List ℕ) (type size n : ℕ) (d : Directory)
    → Ready n d
    → IsIndexed (put_entry offset inode_number name type size d)
unfolding put_entry
put_entry-IsIndexed offset inode_number name type size n d h =
    let entry =
      dir_entry offset ((inode_number + 2 ^ 32 - d.inode_number) % 2 ^ 16) type
        ((size + 2 ^ 16 - 1) % 2 ^ 16) in
    Ascending-more 0 (n + 1) (length (d.buff ++ (entry ++ take size name))) d.index
      (omega (arith, h.0, length-append d.buff (entry ++ take size name))) h.1

place-IsIndexed :
    (offset start_block inode_number : ℕ) (name : List ℕ) (type size : ℕ) (d : Directory)
    → IsIndexed d
    → IsIndexed (place offset start_block inode_number name type size d)
unfolding place start_group
place-IsIndexed offset start_block inode_number name type size d h =
    elim (Bool-cases (needs_header start_block inode_number size d)) [
      | inl e ↦
          let r = end_group-Ready size name d h in
          let g = end_group size name d in
          rw e (
            put_entry-IsIndexed offset inode_number name type size (length d.buff)
              (start_group start_block inode_number g)
              (omega (arith, r.0, length-append g.buff (replicate 12 0)), r.1))
      | inr e ↦ rw e (
          put_entry-IsIndexed offset inode_number name type size (length d.buff) d (
            omega arith,
            Ascending-more 0 (length d.buff) (length d.buff + 1) d.index (omega arith) h,
          ))
    ]

add_room-IsIndexed : (size : ℕ) (d : Directory) → IsIndexed d → IsIndexed (add_room size d)
unfolding add_room
add_room-IsIndexed size d h = elim (Bool-cases (leb d.size (length d.buff + 8 + size + 12))) [
  | inl e ↦ rw e h
  | inr e ↦ rw e h
]

add_dirs-IsIndexed : (es : List Entry) (d : Directory) → IsIndexed d → IsIndexed (add_dirs es d)
unfolding add_dir
add_dirs-IsIndexed [] d h = h
add_dirs-IsIndexed (e ∷ es) d h =
    let size = if ltb 256 (length e.name) then 256 else length e.name in
    add_dirs-IsIndexed es (add_dir e.inode e.inode_number e.name e.type d) (
      place-IsIndexed (e.inode % 2 ^ 16) (e.inode / 2 ^ 16 % 2 ^ 32) e.inode_number e.name e.type
        size (add_room size d) (add_room-IsIndexed size d h))

write_dir_above : (d : Directory) → length d.buff ≤ length (write_dir d)
unfolding write_dir close_group
write_dir_above d = elim (Bool-cases (length d.buff == 0)) [
  | inl e ↦ rw e (ground arith)
  | inr e ↦ rw e (close_group_above d)
]

-- The index of any directory, within its listing.
pub add_dirs-Ascending :
    (es : List Entry) (start_block inode_number : ℕ)
    → let d = add_dirs es (scan7_init_dir start_block inode_number) in
      Ascending 0 (length (write_dir d)) d.index
unfolding scan7_init_dir
add_dirs-Ascending es start_block inode_number =
    let d = add_dirs es (scan7_init_dir start_block inode_number) in
    Ascending-more 0 (length d.buff) (length (write_dir d)) d.index (write_dir_above d)
      (add_dirs-IsIndexed es (scan7_init_dir start_block inode_number) tt)
