-- ===== src/Directory/Table/Marks.antt =====
-- The marks of the loop in `write_dir`: entries of the index and the blocks that they point to.
use mathlib.Core.Path.{subst}
use external_squashfs_tools.Metadata.Written.{raws-append}
use external_squashfs_tools.Common.{
  ℕ, ◌+◌, ◌≤◌, ◌<◌, ◌≡◌, refl, sym, ap, ◌∙◌, inl, inr, true, false, List, [], ◌∷◌, ◌++◌, map,
  append-nil, append_assoc, arith, ltb, Bool-cases, length, length-append, take, length-take,
}
use external_squashfs_tools.Directory.Write.{metadata_size, DirIndex}
use external_squashfs_tools.Directory.Write.Ascending.{Ascending}
use external_squashfs_tools.Metadata.Loaded.{Block, raws, encs}
use external_squashfs_tools.Inode.Create.{CachedDirIndex}
use external_squashfs_tools.Directory.Table.{with_block, mark_index}

-- The block in the table that holds a byte of the listing that starts at `pos`.
pub record Marked (blocks : List Block) (pos : ℕ) (d : DirIndex) (m : CachedDirIndex) : Type 0 where
  pub before : List Block
  pub behind : List Block
  pub split : blocks ≡ before ++ behind
  pub made : m ≡ with_block (length (encs before)) d
  pub low : length (raws before) ≤ pos + d.index
  pub high : pos + d.index < length (raws before) + metadata_size

abbrev pub AreMarked : List Block → ℕ → List DirIndex → List CachedDirIndex → Type 0
AreMarked blocks pos [] [] = Unit
AreMarked blocks pos [] (m ∷ ms) = ⊥
AreMarked blocks pos (d ∷ ds) [] = ⊥
AreMarked blocks pos (d ∷ ds) (m ∷ ms) = Marked blocks pos d m × AreMarked blocks pos ds ms

Marked-more :
    (blocks more : List Block) (pos : ℕ) (d : DirIndex) (m : CachedDirIndex)
    → Marked blocks pos d m
    → Marked (blocks ++ more) pos d m
Marked-more blocks more pos d m h = record {
  before = h.before;
  behind = h.behind ++ more;
  split = ap (λ l. l ++ more) h.split ∙ append_assoc h.before h.behind more;
  made = h.made;
  low = h.low;
  high = h.high;
}

pub AreMarked-more :
    (blocks more : List Block) (pos : ℕ) (ds : List DirIndex) (ms : List CachedDirIndex)
    → AreMarked blocks pos ds ms
    → AreMarked (blocks ++ more) pos ds ms
AreMarked-more blocks more pos [] [] h = tt
AreMarked-more blocks more pos [] (m ∷ ms) h = absurd h
AreMarked-more blocks more pos (d ∷ ds) [] h = absurd h
AreMarked-more blocks more pos (d ∷ ds) (m ∷ ms) h =
    (Marked-more blocks more pos d m h.0, AreMarked-more blocks more pos ds ms h.1)

pub AreMarked-append :
    (blocks : List Block) (pos : ℕ) (ds ds' : List DirIndex) (ms ms' : List CachedDirIndex)
    → AreMarked blocks pos ds ms
    → AreMarked blocks pos ds' ms'
    → AreMarked blocks pos (ds ++ ds') (ms ++ ms')
AreMarked-append blocks pos [] ds' [] ms' h h' = h'
AreMarked-append blocks pos [] ds' (m ∷ ms) ms' h h' = absurd h
AreMarked-append blocks pos (d ∷ ds) ds' [] ms' h h' = absurd h
AreMarked-append blocks pos (d ∷ ds) ds' (m ∷ ms) ms' h h' =
    (h.0, AreMarked-append blocks pos ds ds' ms ms' h.1 h')

-- One round: the entries up to `index` are in the block that is next.
pub record Round (blocks : List Block) (pos index hi : ℕ) (ds : List DirIndex) : Type 0 where
  pub first : List DirIndex
  pub later : List DirIndex
  pub marks : List CachedDirIndex
  pub ran : mark_index index (length (encs blocks)) ds ≡ (marks, later)
  pub whole : ds ≡ first ++ later
  pub are_marked : AreMarked blocks pos first marks
  pub rest : Ascending index hi later

mark_index-take :
    (index block : ℕ) (d : DirIndex) (ds later : List DirIndex) (marks : List CachedDirIndex)
    → ltb d.index index ≡ true
    → mark_index index block ds ≡ (marks, later)
    → mark_index index block (d ∷ ds) ≡ (with_block block d ∷ marks, later)
unfolding mark_index
mark_index-take index block d ds later marks e h = rw (e, h, mark_index) refl

mark_index-leave :
    (index block : ℕ) (d : DirIndex) (ds : List DirIndex)
    → ltb d.index index ≡ false
    → mark_index index block (d ∷ ds) ≡ ([], d ∷ ds)
unfolding mark_index
mark_index-leave index block d ds e = rw (e, mark_index) refl

pub mark_index-Round :
    (blocks : List Block) (pos index lo hi : ℕ) (ds : List DirIndex)
    → Ascending lo hi ds
    → length (raws blocks) ≤ pos + lo
    → index + pos ≡ length (raws blocks) + metadata_size
    → Round blocks pos index hi ds
unfolding mark_index
mark_index-Round blocks pos index lo hi [] a hl hi' = record {
  first = [];
  later = [];
  marks = [];
  ran = refl;
  whole = refl;
  are_marked = tt;
  rest = tt;
}
mark_index-Round blocks pos index lo hi (d ∷ ds) a hl hi' =
    let block = length (encs blocks) in
    elim (Bool-cases (ltb d.index index)) [
      | inl e ↦
          let r =
            mark_index-Round blocks pos index d.index hi ds a.2 (omega (arith, hl, a.0)) hi' in
          let here : Marked blocks pos d (with_block block d) = record {
            before = blocks;
            behind = [];
            split = sym (append-nil blocks);
            made = refl;
            low = omega (arith, hl, a.0);
            high = ground arith;
          } in
          record {
            first = d ∷ r.first;
            later = r.later;
            marks = with_block block d ∷ r.marks;
            ran = mark_index-take index block d ds r.later r.marks e r.ran;
            whole = ap (λ l. d ∷ l) r.whole;
            are_marked = (here, r.are_marked);
            rest = r.rest;
          }
      | inr e ↦ record {
        first = [];
        later = d ∷ ds;
        marks = [];
        ran = mark_index-leave index block d ds e;
        whole = refl;
        are_marked = tt;
        rest = (ground arith, a.1, a.2);
      }
    ]

-- What a last round adds to the marks.
abbrev pub ends : List CachedDirIndex × List DirIndex → List CachedDirIndex
ends (now, later) = now ++ map (with_block 0) later

pub Ascending-none : (lo hi : ℕ) (ds : List DirIndex) → hi ≤ lo → Ascending lo hi ds → ds ≡ []
Ascending-none lo hi [] h a = refl
Ascending-none lo hi (d ∷ ds) h a = absurd (omega (arith, h, a.0, a.1))

pub length-raws_block :
    (bs : List Block) (cache enc : List ℕ)
    → metadata_size ≤ length cache
    → length (raws (bs ++ ((take metadata_size cache, enc) ∷ [])))
      ≡ length (raws bs) + metadata_size
length-raws_block bs cache enc h =
    let raw = take metadata_size cache in
    omega (
      arith,
      h,
      ap length (raws-append bs (raw, enc)),
      length-append (raws bs) raw,
      length-take metadata_size cache,
    )

-- The marks of a round, and those of the rounds behind it.
pub round_marks :
    {index hi : ℕ} (pos : ℕ) (pending : List DirIndex) (bs : List Block) (b : Block)
    (more : List Block) (later : List DirIndex) (now new : List CachedDirIndex)
    (m : Round bs pos index hi pending)
    → ◌≡◌ {A = List CachedDirIndex × List DirIndex} (now, later) (m.marks, m.later)
    → AreMarked ((bs ++ (b ∷ [])) ++ more) pos later new
    → AreMarked (bs ++ (b ∷ more)) pos pending (now ++ new)
round_marks pos pending bs b more later now new m here am =
    let blocks = bs ++ (b ∷ more) in
    let rest =
      subst (λ l. AreMarked l pos m.later new) (append_assoc bs (b ∷ []) more)
        (subst (λ l. AreMarked ((bs ++ (b ∷ [])) ++ more) pos l new) (ap (λ q. q.1) here) am) in
    let both =
      AreMarked-append blocks pos m.first m.later m.marks new
        (AreMarked-more bs (b ∷ more) pos m.first m.marks m.are_marked) rest in
    subst (λ l. AreMarked blocks pos pending (l ++ new)) (sym (ap (λ q. q.0) here))
      (subst (λ l. AreMarked blocks pos l (m.marks ++ new)) (sym m.whole) both)
