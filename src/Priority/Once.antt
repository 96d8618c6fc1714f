-- ===== src/Priority/Once.antt =====
-- Which files are written, and how often.
use mathlib.Core.Path.{subst}
use native.Mathlib.Decide.{dec_lt}
use external_squashfs_tools.Common.{
  ℕ, zero, suc, ◌^◌, ◌≤◌, ◌<◌, ◌≡◌, refl, sym, ap, ◌∙◌, ◌⊎◌, inl, inr, true, false, List, [], ◌∷◌,
  ◌++◌, append_assoc, arith, if◌then◌else◌, ==_refl, Bool-cases,
}
use external_squashfs_tools.Priority.{
  SortFile, is_written, write_chain, write_down, sort_files_and_write,
}

abbrev pub AllOnce : List SortFile → Type 0
AllOnce [] = Unit
AllOnce (f ∷ fs) = (is_written f.inode fs ≡ false) × AllOnce fs

-- A file of the chain, by its inode.
abbrev pub AllWritten : List SortFile → List SortFile → Type 0
AllWritten [] written = Unit
AllWritten (f ∷ chain) written = (is_written f.inode written ≡ true) × AllWritten chain written

-- The next state of the loop.
abbrev visited : SortFile → List SortFile → List SortFile
visited f written = if is_written f.inode written then written else f ∷ written

visited-AllOnce : (f : SortFile) (w : List SortFile) → AllOnce w → AllOnce (visited f w)
visited-AllOnce f w h = elim (Bool-cases (is_written f.inode w)) [
  | inl e ↦ rw e h
  | inr e ↦ rw e (e, h)
]

visited_here : (f : SortFile) (w : List SortFile) → is_written f.inode (visited f w) ≡ true
visited_here f w = elim (Bool-cases (is_written f.inode w)) [
  | inl e ↦ rw e e
  | inr e ↦ rw (e, ==_refl f.inode) refl
]

visited_kept :
    (f : SortFile) (inode : ℕ) (w : List SortFile)
    → is_written inode w ≡ true
    → is_written inode (visited f w) ≡ true
visited_kept f inode w h = elim (Bool-cases (is_written f.inode w)) [
  | inl e ↦ rw e h
  | inr e ↦ rw e (ground (arith, h))
]

write_chain-AllOnce : (c w : List SortFile) → AllOnce w → AllOnce (write_chain c w)
unfolding write_chain
write_chain-AllOnce [] w h = h
write_chain-AllOnce (f ∷ c) w h = write_chain-AllOnce c (visited f w) (visited-AllOnce f w h)

write_chain_kept :
    (c : List SortFile) (inode : ℕ) (w : List SortFile)
    → is_written inode w ≡ true
    → is_written inode (write_chain c w) ≡ true
unfolding write_chain
write_chain_kept [] inode w h = h
write_chain_kept (f ∷ c) inode w h =
    write_chain_kept c inode (visited f w) (visited_kept f inode w h)

write_chain_lem : (c w : List SortFile) → AllWritten c (write_chain c w)
unfolding write_chain
write_chain_lem [] w = tt
write_chain_lem (f ∷ c) w =
    (write_chain_kept c f.inode (visited f w) (visited_here f w), write_chain_lem c (visited f w))

AllWritten-kept :
    (c w v : List SortFile)
    → ((inode : ℕ) → is_written inode w ≡ true → is_written inode v ≡ true)
    → AllWritten c w
    → AllWritten c v
AllWritten-kept [] w v k h = tt
AllWritten-kept (f ∷ c) w v k h = (k f.inode h.0, AllWritten-kept c w v k h.1)

abbrev AllBe : (SortFile → Type 0) → List SortFile → Type 0
AllBe P [] = Unit
AllBe P (f ∷ fs) = P f × AllBe P fs

AllBe-append :
    (P : SortFile → Type 0) (fs gs : List SortFile) → AllBe P fs → AllBe P gs → AllBe P (fs ++ gs)
AllBe-append P [] gs h k = k
AllBe-append P (f ∷ fs) gs h k = (h.0, AllBe-append P fs gs h.1 k)

-- The file stands in the list.
abbrev pub IsAmong : SortFile → List SortFile → Type 0
IsAmong f [] = ⊥
IsAmong f (g ∷ gs) = (f ≡ g) ⊎ IsAmong f gs

AllBe-IsAmong :
    (P : SortFile → Type 0) (fs : List SortFile)
    → ((f : SortFile) → IsAmong f fs → P f)
    → AllBe P fs
AllBe-IsAmong P [] h = tt
AllBe-IsAmong P (f ∷ fs) h = (h f (inl refl), AllBe-IsAmong P fs (λ g k. h g (inr k)))

IsAmong-AllBe :
    (P : SortFile → Type 0) (fs : List SortFile) (f : SortFile) → AllBe P fs → IsAmong f fs → P f
IsAmong-AllBe P [] f h k = absurd k
IsAmong-AllBe P (g ∷ fs) f h (inl e) = subst P (sym e) h.0
IsAmong-AllBe P (g ∷ fs) f h (inr k) = IsAmong-AllBe P fs f h.1 k

-- Files of the kind are written behind the others.
record Extends (P : SortFile → Type 0) (w v : List SortFile) : Type 0 where
  front : List SortFile
  split : v ≡ front ++ w
  origin : AllBe P front

write_chain-Extends :
    (P : SortFile → Type 0) (c w : List SortFile) → AllBe P c → Extends P w (write_chain c w)
unfolding write_chain
write_chain-Extends P [] w h = record { front = []; split = refl; origin = tt }
write_chain-Extends P (f ∷ c) w h =
    let r = write_chain-Extends P c (visited f w) h.1 in
    elim (Bool-cases (is_written f.inode w)) [
      | inl e ↦ record {
        front = r.front;
        split = r.split ∙ ap (λ b. r.front ++ (if b then w else f ∷ w)) e;
        origin = r.origin;
      }
      | inr e ↦ record {
        front = r.front ++ (f ∷ []);
        split =
            r.split
            ∙ ap (λ b. r.front ++ (if b then w else f ∷ w)) e
            ∙ sym (append_assoc r.front (f ∷ []) w);
        origin = AllBe-append P r.front (f ∷ []) r.origin (h.0, tt);
      }
    ]

module _ (l : ℕ → List SortFile) where
  write_down-Extends :
      (P : SortFile → Type 0) (n : ℕ) (w : List SortFile)
      → ((j : ℕ) → j < n → AllBe P (l j))
      → Extends P w (write_down n l w)
  unfolding write_down
  write_down-Extends P zero w h = record { front = []; split = refl; origin = tt }
  write_down-Extends P (suc n) w h =
      let c = write_chain-Extends P (l n) w (h n (omega arith)) in
      let d = write_down-Extends P n (write_chain (l n) w) (λ j k. h j (omega (arith, k))) in
      record {
        front = d.front ++ c.front;
        split = d.split ∙ ap (λ v. d.front ++ v) c.split ∙ sym (append_assoc d.front c.front w);
        origin = AllBe-append P d.front c.front d.origin c.origin;
      }

  write_down-AllOnce : (n : ℕ) (w : List SortFile) → AllOnce w → AllOnce (write_down n l w)
  unfolding write_down
  write_down-AllOnce zero w h = h
  write_down-AllOnce (suc n) w h =
      write_down-AllOnce n (write_chain (l n) w) (write_chain-AllOnce (l n) w h)

  -- Where the loop stands when it comes to a priority.
  record Reaches (P : SortFile → Type 0) (n i : ℕ) (w : List SortFile) : Type 0 where
    back : List SortFile
    left : write_down n l w ≡ write_down i l back
    kept : (inode : ℕ) → is_written inode w ≡ true → is_written inode back ≡ true
    done : (j : ℕ) → i ≤ j → j < n → AllWritten (l j) back
    origin : AllBe P back

  already_there :
      (P : SortFile → Type 0) (n i : ℕ) (w : List SortFile) → AllBe P w → n ≡ i → Reaches P n i w
  already_there P n i w o e = record {
    back = w;
    left = ap (λ m. write_down m l w) e;
    kept = λ x k. k;
    done = λ j p q. absurd (omega (arith, p, q, e));
    origin = o;
  }

  write_chain-AllBe :
      (P : SortFile → Type 0) (c w : List SortFile)
      → AllBe P c
      → AllBe P w
      → AllBe P (write_chain c w)
  write_chain-AllBe P c w h k =
      let e = write_chain-Extends P c w h in
      subst (AllBe P) (sym e.split) (AllBe-append P e.front w e.origin k)

  write_down-Reaches :
      (P : SortFile → Type 0) (n i : ℕ) (w : List SortFile)
      → i ≤ n
      → ((j : ℕ) → i ≤ j → j < n → AllBe P (l j))
      → AllBe P w
      → Reaches P n i w
  unfolding write_down
  write_down-Reaches P zero i w h k o = already_there P zero i w o (omega (arith, h))
  write_down-Reaches P (suc m) i w h k o = elim (dec_lt m i) [
    | yes p ↦ already_there P (suc m) i w o (omega (arith, p, h))
    | no p ↦
        let w' = write_chain (l m) w in
        let o' = write_chain-AllBe P (l m) w (k m (omega (arith, p)) (omega arith)) o in
        let r =
          write_down-Reaches P m i w' (omega (arith, p)) (λ j a b. k j a (omega (arith, b))) o' in
        record {
          back = r.back;
          left = r.left;
          kept = λ x c. r.kept x (write_chain_kept (l m) x w c);
          done = λ j a b. elim (dec_lt j m) [
            | yes q ↦ r.done j a q
            | no q ↦
                let same : m ≡ j = omega (arith, b, q) in
                subst (λ c. AllWritten (l c) r.back) same
                  (AllWritten-kept (l m) w' r.back r.kept (write_chain_lem (l m) w))
          ];
          origin = r.origin;
        }
  ]

  -- A file of the chains from one priority up to another, the second one left out.
  abbrev pub StandsIn : (low high : ℕ) → SortFile → Type 0
  StandsIn low high f = (j : ℕ) × (low ≤ j) × (j < high) × IsAmong f (l j)

  chain-StandsIn : (low high j : ℕ) → low ≤ j → j < high → AllBe (StandsIn low high) (l j)
  chain-StandsIn low high j p q = AllBe-IsAmong (StandsIn low high) (l j) (λ f k. (j, p, q, k))

  -- What is written, in two parts, the latest files in front.
  pub record InOrder (i : ℕ) : Type 0 where
    pub late : List SortFile
    pub early : List SortFile
    pub split : sort_files_and_write l ≡ late ++ early
    pub once : AllOnce (sort_files_and_write l)
    pub done : (j : ℕ) → i ≤ j → j < 2 ^ 16 → AllWritten (l j) early
    pub low : (f : SortFile) → IsAmong f late → StandsIn 0 i f
    pub high : (f : SortFile) → IsAmong f early → StandsIn i (2 ^ 16) f

  -- For a priority, an index in the table of 65536 or the one behind it: sort_files_and_write
  -- writes no inode twice, and what it writes is a first part, the latest files in front, and a
  -- second part written before it. Every file of that priority or a higher one has its inode in
  -- the second part, every file in the second part stands in the chain of that priority or a
  -- higher one, and every file in the first part in the chain of a lower one.
  pub sort_files_and_write-AllOnce : (i : ℕ) → i ≤ 2 ^ 16 → InOrder i
  unfolding sort_files_and_write
  sort_files_and_write-AllOnce i h =
      let r =
        write_down-Reaches (StandsIn i (2 ^ 16)) (2 ^ 16) i [] h (chain-StandsIn i (2 ^ 16)) tt in
      let e =
        write_down-Extends (StandsIn 0 i) i r.back (λ j k. chain-StandsIn 0 i j (omega arith) k) in
      record {
        late = e.front;
        early = r.back;
        split = r.left ∙ e.split;
        once = write_down-AllOnce (2 ^ 16) [] tt;
        done = r.done;
        low = λ f k. IsAmong-AllBe (StandsIn 0 i) e.front f e.origin k;
        high = λ f k. IsAmong-AllBe (StandsIn i (2 ^ 16)) r.back f r.origin k;
      }
