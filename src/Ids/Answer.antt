-- ===== src/Ids/Answer.antt =====
-- What `get_uid` and `get_guid` answer.
use external_squashfs_tools.Common.{
  ℕ, ◌<◌, ◌≡◌, refl, sym, ap, ◌∙◌, ◌≢◌, inl, inr, Bool, true, false, Option, none, some, List,
  arith, ◌==◌, Bool-cases, Option-cases, length, set, length-set, get_or-set_self, get_or-set_ne,
}
use mathlib.Core.Path.{subst}
use external_squashfs_tools.Ids.{
  IdEntry, UgidMapEntry, Ids, squashfs_ids, id_hash, entry_at, nobody, get_id, create_id, Got,
  not_in_mapping, out_of_ids, got, resolved, entry_for, mark_uid, mark_gid, finish, get_marked,
  get_uid, get_guid,
}
use external_squashfs_tools.Ids.Table.{
  In, IsTable, id_at, absent, present, length-create_id, create_id-old, create_id-new,
  create_id-IsTable,
}

-- The entries keep their ids, and the chains are as they were.
record Same (s s' : Ids) : Type 0 where
  same_length : length s'.id_table ≡ length s.id_table
  same_chains : (h : ℕ) → s'.id_hash_table h ≡ s.id_hash_table h
  same_ids : (i : ℕ) → id_at s' i ≡ id_at s i

Same-IsTable : (s s' : Ids) → Same s s' → IsTable s → IsTable s'
Same-IsTable s s' e t = record {
  hashed = λ i h.
      rw (e.same_chains (id_hash (id_at s' i)), e.same_ids i)
        (t.hashed i (omega (arith, e.same_length)));
  chained = λ h p i. rw e.same_length (t.chained h p (subst (In p) (e.same_chains h) i));
  distinct = λ i j hi hj q.
      t.distinct i j (omega (arith, e.same_length)) (omega (arith, e.same_length))
        (sym (e.same_ids i) ∙ (q ∙ e.same_ids j));
  bounded = omega (arith, e.same_length, t.bounded);
}

-- A write that keeps the id of the entry.
set-id :
    (table : List IdEntry) (p : ℕ) (e : IdEntry)
    → p < length table
    → e.id ≡ (entry_at table p).id
    → (i : ℕ) → (entry_at (set table p e) i).id ≡ (entry_at table i).id
set-id table p e h k i = elim (Bool-cases (p == i)) [
  | inl q ↦
      let same : p ≡ i = ground (arith, q) in
      rw⁻¹ same (ap (λ x. x.id) (get_or-set_self table p e nobody h) ∙ k)
  | inr q ↦ ap (λ x. x.id) (get_or-set_ne table e nobody (ground (arith, q)))
]

Same-refl : (s : Ids) → Same s s
Same-refl s = record { same_length = refl; same_chains = λ h. refl; same_ids = λ i. refl }

mark_uid-Same : (p : ℕ) (s : Ids) → p < length s.id_table → Same s (mark_uid p s)
unfolding mark_uid
mark_uid-Same p s h =
    let e = entry_at s.id_table p in
    elim (Bool-cases e.isa_uid) [
      | inl q ↦ rw q (Same-refl s)
      | inr q ↦ rw q (record {
        same_length = length-set s.id_table p (record e { isa_uid = true });
        same_chains = λ k. refl;
        same_ids = set-id s.id_table p (record e { isa_uid = true }) h refl;
      })
    ]

mark_gid-Same : (p : ℕ) (s : Ids) → p < length s.id_table → Same s (mark_gid p s)
unfolding mark_gid
mark_gid-Same p s h =
    let e = entry_at s.id_table p in
    elim (Bool-cases e.isa_gid) [
      | inl q ↦ rw q (Same-refl s)
      | inr q ↦ rw q (record {
        same_length = length-set s.id_table p (record e { isa_gid = true });
        same_chains = λ k. refl;
        same_ids = set-id s.id_table p (record e { isa_gid = true }) h refl;
      })
    ]

-- The index given holds the id, and the indices given before keep theirs.
pub record Answered (s : Ids) (id index : ℕ) (s' : Ids) : Type 0 where
  pub table : IsTable s'
  pub inside : index < length s'.id_table
  pub holds : id_at s' index ≡ id
  pub kept : (i : ℕ) → i < length s.id_table → id_at s' i ≡ id_at s i

-- The error for an id that has no mapping; the error for a full table without the id.
abbrev pub Answer : Ids → Option ℕ → Got → Type 0
Answer s none not_in_mapping = Unit
Answer s none out_of_ids = ⊥
Answer s none (got index s') = ⊥
Answer s (some id) not_in_mapping = ⊥
Answer s (some id) out_of_ids =
    (length s.id_table ≡ squashfs_ids) × ((i : ℕ) → i < length s.id_table → id_at s i ≢ id)
Answer s (some id) (got index s') = Answered s id index s'

entry_for-some : (s : Ids) (id p : ℕ) → get_id id s ≡ some p → entry_for id s ≡ some (p, s)
unfolding entry_for
entry_for-some s id p e = rw (e, entry_for) refl

entry_for-full :
    (s : Ids) (id : ℕ)
    → get_id id s ≡ none
    → (length s.id_table == squashfs_ids) ≡ true
    → entry_for id s ≡ none
unfolding entry_for
entry_for-full s id e h = rw (e, entry_for, h) refl

entry_for-new :
    (s : Ids) (id : ℕ)
    → get_id id s ≡ none
    → (length s.id_table == squashfs_ids) ≡ false
    → entry_for id s ≡ some (length s.id_table, create_id id s)
unfolding entry_for
entry_for-new s id e h = rw (e, entry_for, h) refl

module _ (mark : ℕ → Ids → Ids)
    (same : (p : ℕ) (s : Ids) → p < length s.id_table → Same s (mark p s)) where
  marked :
      (s s' : Ids) (id p : ℕ)
      → IsTable s'
      → p < length s'.id_table
      → id_at s' p ≡ id
      → ((i : ℕ) → i < length s.id_table → id_at s' i ≡ id_at s i)
      → Answered s id p (mark p s')
  marked s s' id p t h e k =
      let m = same p s' h in
      record {
        table = Same-IsTable s' (mark p s') m t;
        inside = omega (arith, m.same_length);
        holds = m.same_ids p ∙ e;
        kept = λ i hi. m.same_ids i ∙ k i hi;
      }

  finish-Answer : (s : Ids) (id : ℕ) → IsTable s → Answer s (some id) (finish mark (entry_for id s))
  finish-Answer s id t = elim (Option-cases (get_id id s)) [
    | inr (p, e) ↦
        let f = present s id p t e in
        rw (entry_for-some s id p e) (marked s s id p t f.0 f.1 (λ i h. refl))
    | inl e ↦
        let fresh = absent s id t e in
        elim (Bool-cases (length s.id_table == squashfs_ids)) [
          | inl full ↦ rw (entry_for-full s id e full) (ground (arith, full), fresh)
          | inr room ↦ rw (entry_for-new s id e room) (
              marked s (create_id id s) id (length s.id_table)
                (create_id-IsTable s id t fresh (ground (arith, room, t.bounded)))
                (omega (arith, length-create_id s id)) (create_id-new s id) (create_id-old s id))
        ]
  ]

  get_marked-Answer : (s : Ids) (o : Option ℕ) → IsTable s → Answer s o (get_marked mark o s)
  get_marked-Answer s none t = tt
  get_marked-Answer s (some id) t = finish-Answer s id t

-- On a table that holds each id once: the index given holds the uid that the mapping gives,
-- in a table that again holds each id once and where the earlier indices keep their ids.
-- The error `not_in_mapping` is given when the mapping gives no uid, `out_of_ids` only when
-- 65536 other ids fill the table.
pub get_uid-Answer :
    (s : Ids) (resolve : Bool) (uid_mapping : List UgidMapEntry) (uid : ℕ)
    → IsTable s
    → Answer s (resolved resolve uid_mapping uid) (get_uid resolve uid_mapping uid s)
unfolding get_uid
get_uid-Answer s resolve uid_mapping uid t =
    get_marked-Answer mark_uid mark_uid-Same s (resolved resolve uid_mapping uid) t

-- On a table that holds each id once: the index given holds the gid that the mapping gives,
-- in a table that again holds each id once and where the earlier indices keep their ids.
-- The error `not_in_mapping` is given when the mapping gives no gid, `out_of_ids` only when
-- 65536 other ids fill the table.
pub get_guid-Answer :
    (s : Ids) (resolve : Bool) (gid_mapping : List UgidMapEntry) (guid : ℕ)
    → IsTable s
    → Answer s (resolved resolve gid_mapping guid) (get_guid resolve gid_mapping guid s)
unfolding get_guid
get_guid-Answer s resolve gid_mapping guid t =
    get_marked-Answer mark_gid mark_gid-Same s (resolved resolve gid_mapping guid) t
