-- ===== src/Directory/Write/Room.antt =====
-- The buffer of a listing is large enough for what is stored in it.
use external_squashfs_tools.Common.{
  ℕ, ◌+◌, ◌-◌, ◌/◌, ◌%◌, ◌^◌, ◌≤◌, ◌≡◌, refl, inl, inr, Option, none, some, List, [], ◌∷◌, ◌++◌,
  arith, ltb, leb, if◌then◌else◌, Bool-cases, length, length-append, take, drop, replicate,
  length-take, length-drop, store,
}
use external_squashfs_tools.Directory.Write.Listing.{Entry, add_dirs}
use external_squashfs_tools.Directory.Write.{
  Directory, dir_header, dir_entry, close_group, put_entry, start_group, end_group, add_room, place,
  add_dir, needs_header, add_index, scan7_init_dir,
}

-- A header's 12 bytes stand in the buffer.
abbrev pub InBuff : Option ℕ → ℕ → Type 0
InBuff none n = Unit
InBuff (some p) n = p + 12 ≤ n

-- What is stored ends within the allocation, with `k` bytes to spare.
abbrev pub Fits : ℕ → Directory → Type 0
Fits k d = (length d.buff + k ≤ d.size) × InBuff d.entry_count_p (length d.buff)

length-store :
    (p : ℕ) (bs buff : List ℕ)
    → p + length bs ≤ length buff
    → length (store p bs buff) ≡ length buff
length-store p bs buff h =
    let a = length-append (take p buff) (bs ++ drop (p + length bs) buff) in
    let b = length-append bs (drop (p + length bs) buff) in
    omega (arith, a, b, length-take p buff, length-drop (p + length bs) buff)

length-close_group :
    (d : Directory)
    → InBuff d.entry_count_p (length d.buff)
    → length (close_group d) ≡ length d.buff
unfolding close_group
length-close_group d h =
    elim d.entry_count_p
        as (λ o.
          InBuff o (length d.buff)
          → length (elim o as (λ q. List ℕ) [
            | none ↦ d.buff
            | some p ↦ store p (dir_header (d.entry_count - 1) d.start_block d.inode_number) d.buff
          ])
            ≡ length d.buff) [
              | none ↦ λ k. refl
              | some p ↦ λ k.
                  length-store p (dir_header (d.entry_count - 1) d.start_block d.inode_number)
                    d.buff k
            ]
      h

add_index-size : (size : ℕ) (name : List ℕ) (d : Directory) → (add_index size name d).size ≡ d.size
unfolding add_index
add_index-size size name d = ground arith

end_group-Fits :
    (k size : ℕ) (name : List ℕ) (d : Directory)
    → Fits k d
    → length (end_group size name d).buff + k ≤ (end_group size name d).size
unfolding end_group
end_group-Fits k size name d h =
    elim d.entry_count_p
      as (λ o.
        length
            (elim o as (λ q. Directory) [
              | none ↦ d
              | some p ↦ record (add_index size name d) { buff = close_group d }
            ]).buff
          + k
        ≤ (elim o as (λ q. Directory) [
          | none ↦ d
          | some p ↦ record (add_index size name d) { buff = close_group d }
        ]).size) [
          | none ↦ h.0
          | some p ↦ omega (arith, add_index-size size name d, length-close_group d h.1, h.0)
        ]

add_room-Fits :
    (size : ℕ) (d : Directory) → size ≤ 256 → Fits 0 d → Fits (size + 20) (add_room size d)
unfolding add_room
add_room-Fits size d hs h = elim (Bool-cases (leb d.size (length d.buff + 8 + size + 12))) [
  | inl e ↦ rw e (omega (arith, h.0), h.1)
  | inr e ↦ rw e (ground (arith, e, h.0), h.1)
]

InBuff-mono : (o : Option ℕ) (n m : ℕ) → n ≤ m → InBuff o n → InBuff o m
InBuff-mono none n m h i = tt
InBuff-mono (some p) n m h i = omega arith

module _ (offset inode_number : ℕ) (name : List ℕ) (type size : ℕ) where
  put_entry-Fits :
      (d : Directory) → Fits (size + 8) d → Fits 0 (put_entry offset inode_number name type size d)
  unfolding put_entry
  put_entry-Fits d h =
      let e =
        dir_entry offset ((inode_number + 2 ^ 32 - d.inode_number) % 2 ^ 16) type
          ((size + 2 ^ 16 - 1) % 2 ^ 16) in
      let l = length-append d.buff (e ++ take size name) in
      let t = length-take size name in
      (
        omega (arith, l, t, h.0),
        InBuff-mono d.entry_count_p (length d.buff) (length (d.buff ++ (e ++ take size name)))
            (omega (arith, l)) h.1,
      )

start_group-Fits :
    (start_block inode_number k : ℕ) (d : Directory)
    → length d.buff + (k + 12) ≤ d.size
    → Fits k (start_group start_block inode_number d)
unfolding start_group
start_group-Fits start_block inode_number k d h =
    let l = length-append d.buff (replicate 12 0) in (omega (arith, l, h), omega (arith, l))

place-Fits :
    (offset start_block inode_number : ℕ) (name : List ℕ) (type size : ℕ) (d : Directory)
    → Fits (size + 20) d
    → Fits 0 (place offset start_block inode_number name type size d)
unfolding place
place-Fits offset start_block inode_number name type size d h =
    elim (Bool-cases (needs_header start_block inode_number size d)) [
      | inl e ↦ rw e (
          put_entry-Fits offset inode_number name type size
            (start_group start_block inode_number (end_group size name d))
            (start_group-Fits start_block inode_number (size + 8) (end_group size name d)
              (omega (arith, end_group-Fits (size + 20) size name d h))))
      | inr e ↦ rw e (put_entry-Fits offset inode_number name type size d (omega (arith, h.0), h.1))
    ]

add_dir-Fits :
    (inode inode_number : ℕ) (name : List ℕ) (type : ℕ) (d : Directory)
    → Fits 0 d
    → Fits 0 (add_dir inode inode_number name type d)
unfolding add_dir
add_dir-Fits inode inode_number name type d h =
    let size = if ltb 256 (length name) then 256 else length name in
    let short : size ≤ 256 = ground arith in
    place-Fits (inode % 2 ^ 16) (inode / 2 ^ 16 % 2 ^ 32) inode_number name type size
      (add_room size d) (add_room-Fits size d short h)

adds-Fits : (es : List Entry) (d : Directory) → Fits 0 d → Fits 0 (add_dirs es d)
adds-Fits [] d h = h
adds-Fits (e ∷ es) d h =
    adds-Fits es (add_dir e.inode e.inode_number e.name e.type d)
      (add_dir-Fits e.inode e.inode_number e.name e.type d h)

-- After any calls of `add_dir` on a new directory, with names of any length, what is stored
-- ends within the allocated buffer and the header left open stands in what is stored.
pub add_dirs-Fits :
    (es : List Entry) (start_block inode_number : ℕ)
    → Fits 0 (add_dirs es (scan7_init_dir start_block inode_number))
unfolding scan7_init_dir
add_dirs-Fits es start_block inode_number =
    adds-Fits es (scan7_init_dir start_block inode_number) (omega arith, tt)
