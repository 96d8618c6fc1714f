-- ===== src/Directory/Read/Encoded.antt =====
-- The reader returns the entries of the groups it is given.
use external_squashfs_tools.Common.{
  ℕ, zero, suc, ◌+◌, ◌-◌, ◌%◌, ◌^◌, ◌≤◌, ◌<◌, ◌≡◌, refl, ap, ◌∙◌, true, false, List, [], ◌∷◌, ◌++◌,
  map, append_assoc, arith, ltb, ◌==◌, ==_ne, length, length-append, take_exact, drop_exact,
}
use external_squashfs_tools.Directory.Bytes.{unswap_le-swap_le}
use external_squashfs_tools.Directory.Write.{dir_header, dir_entry}
use external_squashfs_tools.Directory.Read.{
  Cursor, read, and_then, fetch, strcpy, read_name, read_entry, read_entries, read_group,
  read_groups, squashfs_opendir,
}
use external_squashfs_tools.Directory.Groups.{
  Item, Group, encode_item, encode_items, encode_group, encode_groups, item_ent, group_ents,
  groups_ents, IsText, IsItem, AreItems, IsGroup, AreGroups,
}

abbrev at : ℕ → List ℕ → Cursor
at bytes rest = record { bytes = bytes; rest = rest }

fetch_exact :
    (n b : ℕ) (xs r : List ℕ) → length xs ≡ n → fetch n (at b (xs ++ r)) ≡ read (xs, at (b + n) r)
unfolding fetch
fetch_exact n b xs r h =
    let e = length-append xs r in
    let f : ltb (length (xs ++ r)) n ≡ false = ground (arith, e, h) in
    rw (f, take_exact xs r n h, drop_exact xs r n h) refl

pub strcpy_text : (s : List ℕ) → IsText s → strcpy s ≡ s
unfolding strcpy
strcpy_text [] h = refl
strcpy_text (c ∷ s) (h, t) =
    rw (==_ne c 0 (λ e. absurd (omega arith))) (ap (λ r. c ∷ r) (strcpy_text s t))

read_name_item :
    (sb b : ℕ) (it : Item) (r : List ℕ)
    → IsItem it
    → read_name sb (dir_entry it.offset it.delta it.type (length it.name - 1), at b (it.name ++ r))
      ≡ read (item_ent sb it, at (b + length it.name) r)
unfolding read_name and_then
read_name_item sb b it r (ho, (ht, (hn, (hl, hx)))) =
    let es = unswap_le-swap_le 2 (length it.name - 1) (omega arith) in
    let eo = unswap_le-swap_le 2 it.offset ho in
    let et = unswap_le-swap_le 2 it.type ht in
    let f : ltb 256 (length it.name - 1) ≡ false = ground arith in
    let g : length it.name - 1 + 1 ≡ length it.name = omega arith in
    rw (es, eo, et, f, g, fetch_exact (length it.name) b it.name r refl)
      (ap
        (λ n. read (
          record { name = n; start_block = sb; offset = it.offset; type = it.type },
          at (b + length it.name) r,
        ))
        (strcpy_text it.name hx))

read_entry_item :
    (sb b : ℕ) (it : Item) (r : List ℕ)
    → IsItem it
    → read_entry sb (at b (encode_item it ++ r))
      ≡ read (item_ent sb it, at (b + length (encode_item it)) r)
unfolding read_entry and_then
read_entry_item sb b it r h =
    let bs = dir_entry it.offset it.delta it.type (length it.name - 1) in
    let e : b + 8 + length it.name ≡ b + length (bs ++ it.name) = omega arith in
    rw (append_assoc bs it.name r, fetch_exact 8 b bs (it.name ++ r) refl)
      (read_name_item sb (b + 8) it r h ∙ ap (λ n. read (item_ent sb it, at n r)) e)

read_entries_items :
    (sb b : ℕ) (its : List Item) (r : List ℕ)
    → AreItems its
    → read_entries (length its) sb (at b (encode_items its ++ r))
      ≡ read (map (item_ent sb) its, at (b + length (encode_items its)) r)
unfolding read_entries and_then
read_entries_items sb b [] r h = ap (λ n. read ([], at n r)) (omega arith)
read_entries_items sb b (it ∷ its) r h =
    let e = length-append (encode_item it) (encode_items its) in
    let f : b + length (encode_item it) + length (encode_items its)
        ≡ b + length (encode_items (it ∷ its)) =
      omega (arith, e) in
    rw
      (
        append_assoc (encode_item it) (encode_items its) r,
        read_entry_item sb b it (encode_items its ++ r) h.0,
        read_entries_items sb (b + length (encode_item it)) its r h.1,
        f,
      )
      refl

read_group_encode :
    (b : ℕ) (g : Group) (r : List ℕ)
    → IsGroup g
    → read_group (at b (encode_group g ++ r))
      ≡ read (group_ents g, at (b + length (encode_group g)) r)
unfolding read_group and_then
read_group_encode b g r (hs, (hn, (hm, hi))) =
    let n = length g.items - 1 in
    let bs = dir_header n g.start_block g.inode_number in
    let ec = unswap_le-swap_le 4 n (omega arith) in
    let es = unswap_le-swap_le 4 g.start_block hs in
    let count : (n + 1) % 2 ^ 32 ≡ length g.items = omega arith in
    let small : ltb 256 (length g.items) ≡ false = ground arith in
    let moved : b + 12 + length (encode_items g.items) ≡ b + length (encode_group g) =
      omega arith in
    rw
      (
        append_assoc bs (encode_items g.items) r,
        fetch_exact 12 b bs (encode_items g.items ++ r) refl,
        ec,
        es,
        count,
        small,
      )
      (read_entries_items g.start_block (b + 12) g.items r hi
        ∙ ap (λ k. read (group_ents g, at k r)) moved)

read_groups_encode :
    (fuel size b : ℕ) (gs : List Group) (r : List ℕ)
    → length gs < fuel
    → size ≡ b + length (encode_groups gs)
    → AreGroups gs
    → read_groups fuel size (at b (encode_groups gs ++ r)) ≡ read (groups_ents gs)
unfolding read_groups and_then
read_groups_encode zero size b gs r h e o = absurd (omega arith)
read_groups_encode (suc fuel) size b [] r h e o =
    let done : ltb b size ≡ false = ground arith in rw (done, read_groups) refl
read_groups_encode (suc fuel) size b (g ∷ gs) r h e o =
    let l = length-append (encode_group g) (encode_groups gs) in
    let more : ltb b size ≡ true = ground (arith, l) in
    rw
      (
        more,
        read_groups,
        append_assoc (encode_group g) (encode_groups gs) r,
        read_group_encode b g (encode_groups gs ++ r) o.0,
        read_groups_encode fuel size (b + length (encode_group g)) gs r (omega arith)
            (omega (arith, l)) o.1,
      )
      refl

length_groups : (gs : List Group) → length gs ≤ length (encode_groups gs)
length_groups [] = omega arith
length_groups (g ∷ gs) =
    omega (arith, length-append (encode_group g) (encode_groups gs), length_groups gs)

pub squashfs_opendir-groups :
    (b : ℕ) (gs : List Group) (r : List ℕ)
    → AreGroups gs
    → squashfs_opendir (length (encode_groups gs) + 3) (at b (encode_groups gs ++ r))
      ≡ read (groups_ents gs)
unfolding squashfs_opendir
squashfs_opendir-groups b [] r h = refl
squashfs_opendir-groups b (g ∷ gs) r h =
    let n = length (encode_groups (g ∷ gs)) in
    let l = length-append (encode_group g) (encode_groups gs) in
    let some_data : (n + 3 == 3) ≡ false = ground (arith, l) in
    rw some_data (
      read_groups_encode (n + 3 + 1) (n + 3 + b - 3) b (g ∷ gs) r
        (omega (arith, length_groups (g ∷ gs))) (omega arith) h)
