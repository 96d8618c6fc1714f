-- ===== src/Paths/Parts.antt =====
-- The components of a target.
use external_squashfs_tools.Common.{
  ℕ, ◌≤◌, ◌<◌, ◌≡◌, refl, sym, ap, ◌∙◌, ◌⊎◌, inl, inr, true, false, List, [], ◌∷◌, arith, ◌==◌,
  if◌then◌else◌, Bool-cases, length,
}
use external_squashfs_tools.Paths.{skip_slashes, until_slash, get_component}

-- What stands before the first slash, and the other pieces.
abbrev pub split : List ℕ → List ℕ × List (List ℕ)
split [] = ([], [])
split (c ∷ cs) =
    if c == b'/' then ([], (split cs).0 ∷ (split cs).1) else (c ∷ (split cs).0, (split cs).1)

abbrev pub nonempty : List (List ℕ) → List (List ℕ)
nonempty [] = []
nonempty (p ∷ ps) = if length p == 0 then nonempty ps else p ∷ nonempty ps

-- The pieces between slashes that have characters; a target without any is one empty component.
abbrev pub pieces : List ℕ → List (List ℕ)
pieces target = nonempty ((split target).0 ∷ (split target).1)

abbrev pub or_empty : List (List ℕ) → List (List ℕ)
or_empty [] = [] ∷ []
or_empty (p ∷ ps) = p ∷ ps

abbrev pub parts : List ℕ → List (List ℕ)
parts target = or_empty (pieces target)

nonempty-cons :
    (c : ℕ) (p : List ℕ) (ps : List (List ℕ)) → nonempty ((c ∷ p) ∷ ps) ≡ (c ∷ p) ∷ nonempty ps
nonempty-cons c p ps = let e : (length (c ∷ p) == 0) ≡ false = ground arith in rw e refl

skip_slashes-slash :
    (c : ℕ) (cs : List ℕ) → (c == b'/') ≡ true → skip_slashes (c ∷ cs) ≡ skip_slashes cs
skip_slashes-slash c cs e = rw e refl

skip_slashes-other : (c : ℕ) (cs : List ℕ) → (c == b'/') ≡ false → skip_slashes (c ∷ cs) ≡ c ∷ cs
skip_slashes-other c cs e = rw e refl

split-slash :
    (c : ℕ) (cs : List ℕ)
    → (c == b'/') ≡ true
    → ◌≡◌ {A = List ℕ × List (List ℕ)} (split (c ∷ cs)) ([], (split cs).0 ∷ (split cs).1)
split-slash c cs e = rw e refl

split-other :
    (c : ℕ) (cs : List ℕ)
    → (c == b'/') ≡ false
    → ◌≡◌ {A = List ℕ × List (List ℕ)} (split (c ∷ cs)) (c ∷ (split cs).0, (split cs).1)
split-other c cs e = rw e refl

-- The pieces that a split has.
abbrev pieces_of : List ℕ × List (List ℕ) → List (List ℕ)
pieces_of (p, ps) = nonempty (p ∷ ps)

pieces-slash : (c : ℕ) (cs : List ℕ) → (c == b'/') ≡ true → pieces (c ∷ cs) ≡ pieces cs
pieces-slash c cs e = ap pieces_of (split-slash c cs e)

pieces-other :
    (c : ℕ) (cs : List ℕ)
    → (c == b'/') ≡ false
    → pieces (c ∷ cs) ≡ (c ∷ (split cs).0) ∷ nonempty (split cs).1
pieces-other c cs e = ap pieces_of (split-other c cs e) ∙ nonempty-cons c (split cs).0 (split cs).1

pieces-skip_slashes : (t : List ℕ) → pieces (skip_slashes t) ≡ pieces t
pieces-skip_slashes [] = refl
pieces-skip_slashes (c ∷ cs) = elim (Bool-cases (c == b'/')) [
  | inl e ↦
      ap pieces (skip_slashes-slash c cs e) ∙ pieces-skip_slashes cs ∙ sym (pieces-slash c cs e)
  | inr e ↦ ap pieces (skip_slashes-other c cs e)
]

-- Skipped: nothing is left, or a character that is no slash stands in front.
pub skip_slashes-cases :
    (t : List ℕ)
    → (skip_slashes t ≡ [])
      ⊎ ((c : ℕ) × (cs : List ℕ) × (skip_slashes t ≡ c ∷ cs)
          × ((c == b'/') ≡ false)
          × (length cs < length t))
skip_slashes-cases [] = inl refl
skip_slashes-cases (c ∷ cs) = elim (Bool-cases (c == b'/')) [
  | inr e ↦ inr (c, cs, skip_slashes-other c cs e, e, omega arith)
  | inl e ↦ elim (skip_slashes-cases cs) [
    | inl h ↦ inl (skip_slashes-slash c cs e ∙ h)
    | inr (d, ds, h, n, l) ↦ inr (d, ds, skip_slashes-slash c cs e ∙ h, n, omega (arith, l))
  ]
]

skip_slashes_shorter : (t : List ℕ) → length (skip_slashes t) ≤ length t
skip_slashes_shorter t = elim (skip_slashes-cases t) [
  | inl h ↦ omega (arith, ap length h)
  | inr (d, ds, h, n, l) ↦ omega (arith, ap length h, l)
]

abbrev Halves : Type 0
Halves = List ℕ × List ℕ

until_slash-slash :
    (c : ℕ) (cs : List ℕ)
    → (c == b'/') ≡ true
    → ◌≡◌ {A = Halves} (until_slash (c ∷ cs)) ([], c ∷ cs)
until_slash-slash c cs e = rw e refl

until_slash-other :
    (c : ℕ) (cs : List ℕ)
    → (c == b'/') ≡ false
    → ◌≡◌ {A = Halves} (until_slash (c ∷ cs)) (c ∷ (until_slash cs).0, (until_slash cs).1)
until_slash-other c cs e = rw e refl

-- The first piece, and those that are left.
until_slash-split :
    (t : List ℕ)
    → ((until_slash t).0 ≡ (split t).0)
      × (nonempty (split t).1 ≡ pieces (until_slash t).1)
      × (length (until_slash t).1 ≤ length t)
until_slash-split [] = (refl, refl, omega arith)
until_slash-split (c ∷ cs) = elim (Bool-cases (c == b'/')) [
  | inl e ↦
      let u = until_slash-slash c cs e in
      let s = split-slash c cs e in
      (
        ap (λ q. q.0) u ∙ sym (ap (λ q. q.0) s),
        ap (λ q. nonempty q.1) s ∙ sym (pieces-slash c cs e) ∙ ap (λ q. pieces q.1) (sym u),
        omega (arith, ap (λ q. length q.1) u),
      )
  | inr e ↦
      let u = until_slash-other c cs e in
      let s = split-other c cs e in
      let h = until_slash-split cs in
      (
        ap (λ q. q.0) u ∙ ap (λ l. c ∷ l) h.0 ∙ sym (ap (λ q. q.0) s),
        ap (λ q. nonempty q.1) s ∙ h.1 ∙ ap (λ q. pieces q.1) (sym u),
        omega (arith, ap (λ q. length q.1) u, h.2),
      )
]

-- A component is taken off: the parts are its name and the parts that are left, of a shorter target.
pub record Component (target : List ℕ) (targname left : List ℕ) : Type 0 where
  pub taken : parts target ≡ targname ∷ pieces left
  pub more : (left ≡ []) ⊎ ((pieces left ≡ parts left) × (length left < length target))

pieces_left :
    (t : List ℕ) → (skip_slashes t ≡ []) ⊎ (pieces (skip_slashes t) ≡ parts (skip_slashes t))
pieces_left t = elim (skip_slashes-cases t) [
  | inl h ↦ inl h
  | inr (d, ds, h, n, l) ↦
      let p = ap pieces h ∙ pieces-other d ds n in inr (p ∙ ap or_empty (sym p))
]

pub get_component-Component :
    (target : List ℕ) → Component target (get_component target).0 (get_component target).1
unfolding get_component
get_component-Component target = elim (skip_slashes-cases target) [
  | inl h ↦
      let u = ap until_slash h in
      record {
        taken =
            ap or_empty (sym (pieces-skip_slashes target) ∙ ap pieces h)
            ∙ ap (λ (q : Halves). q.0 ∷ pieces (skip_slashes q.1)) (sym u);
        more = inl (ap (λ (q : Halves). skip_slashes q.1) u);
      }
  | inr (d, ds, h, n, l) ↦
      let u = ap until_slash h ∙ until_slash-other d ds n in
      let s = until_slash-split ds in
      let whole : pieces target ≡ (d ∷ (split ds).0) ∷ nonempty (split ds).1 =
        sym (pieces-skip_slashes target) ∙ ap pieces h ∙ pieces-other d ds n in
      let left = ap (λ (q : Halves). skip_slashes q.1) u in
      let shorter = skip_slashes_shorter (until_slash ds).1 in
      record {
        taken =
            ap or_empty whole
            ∙ ap (λ ps. (d ∷ (split ds).0) ∷ ps)
                (s.1 ∙ sym (pieces-skip_slashes (until_slash ds).1))
            ∙ ap (λ p. (d ∷ p) ∷ pieces (skip_slashes (until_slash ds).1)) (sym s.0)
            ∙ ap (λ (q : Halves). q.0 ∷ pieces (skip_slashes q.1)) (sym u);
        more = elim (pieces_left (until_slash ds).1) [
          | inl e ↦ inl (left ∙ e)
          | inr e ↦ inr (
            ap pieces left ∙ e ∙ ap parts (sym left),
            omega (arith, ap length left, shorter, s.2, l),
          )
        ];
      }
]

pub parts-cons : (t : List ℕ) → (p : List ℕ) × (ps : List (List ℕ)) × (parts t ≡ p ∷ ps)
parts-cons t =
    elim (pieces t) as (λ l. (p : List ℕ) × (ps : List (List ℕ)) × (or_empty l ≡ p ∷ ps)) [
      | [] ↦ ([], [], refl)
      | p ∷ ps ↦ (p, ps, refl)
    ]
