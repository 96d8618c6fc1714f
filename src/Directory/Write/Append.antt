-- ===== src/Directory/Write/Append.antt =====
-- Lists of groups and entries, and the header that is stored over a part of the buffer.
use external_squashfs_tools.Common.{
  ℕ, ◌+◌, ◌≡◌, refl, sym, ap, List, [], ◌∷◌, ◌++◌, map, append-nil, append_assoc, arith, length,
  length-append, take_exact, drop_exact,
}
use external_squashfs_tools.Directory.Write.{store}
use external_squashfs_tools.Directory.Groups.{
  Item, Group, encode_item, encode_items, encode_group, encode_groups, item_ent, group_ents,
  groups_ents, IsItem, AreItems, IsGroup, AreGroups,
}

pub encode_groups-append :
    (gs : List Group) (g : Group)
    → encode_groups (gs ++ (g ∷ [])) ≡ encode_groups gs ++ encode_group g
encode_groups-append [] g = append-nil (encode_group g)
encode_groups-append (h ∷ gs) g =
    rw (encode_groups-append gs g)
      (sym (append_assoc (encode_group h) (encode_groups gs) (encode_group g)))

pub encode_items-append :
    (its : List Item) (it : Item)
    → encode_items (its ++ (it ∷ [])) ≡ encode_items its ++ encode_item it
encode_items-append [] it = append-nil (encode_item it)
encode_items-append (h ∷ its) it =
    rw (encode_items-append its it)
      (sym (append_assoc (encode_item h) (encode_items its) (encode_item it)))

pub AreGroups-append :
    (gs : List Group) (g : Group) → AreGroups gs → IsGroup g → AreGroups (gs ++ (g ∷ []))
AreGroups-append [] g h hg = (hg, tt)
AreGroups-append (x ∷ gs) g h hg = (h.0, AreGroups-append gs g h.1 hg)

pub AreItems-append :
    (its : List Item) (it : Item) → AreItems its → IsItem it → AreItems (its ++ (it ∷ []))
AreItems-append [] it h hi = (hi, tt)
AreItems-append (x ∷ its) it h hi = (h.0, AreItems-append its it h.1 hi)

pub groups_ents-append :
    (gs : List Group) (g : Group) → groups_ents (gs ++ (g ∷ [])) ≡ groups_ents gs ++ group_ents g
groups_ents-append [] g = append-nil (group_ents g)
groups_ents-append (h ∷ gs) g =
    rw (groups_ents-append gs g) (sym (append_assoc (group_ents h) (groups_ents gs) (group_ents g)))

pub ents-append :
    (sb : ℕ) (its : List Item) (it : Item)
    → map (item_ent sb) (its ++ (it ∷ [])) ≡ map (item_ent sb) its ++ (item_ent sb it ∷ [])
ents-append sb [] it = refl
ents-append sb (h ∷ its) it = ap (λ r. item_ent sb h ∷ r) (ents-append sb its it)

pub store_header :
    (e h h' i : List ℕ)
    → length h ≡ length h'
    → store (length e) h' (e ++ (h ++ i)) ≡ e ++ (h' ++ i)
store_header e h h' i s =
    let whole : length (e ++ h) ≡ length e + length h' = omega (arith, length-append e h) in
    rw
      (
        take_exact e (h ++ i) (length e) refl,
        sym (append_assoc e h i),
        drop_exact (e ++ h) i (length e + length h') whole,
      )
      refl
