-- ===== src/Paths/Files/Lines.antt =====
-- Files with targets, comments and empty lines.
use external_squashfs_tools.Common.{
  ℕ, zero, suc, ◌-◌, ◌<◌, ◌≡◌, refl, sym, ap, ◌∙◌, inl, inr, true, false, ◌&&◌, Option, none, some,
  List, [], ◌∷◌, ◌++◌, append-nil, arith, ◌==◌, Option-cases, length, length-append, replicate,
}
use external_squashfs_tools.Paths.Files.{
  max_line, newline, fgets, c_string, ends_line, but_last, skip_spaces, line_target, read_line,
  process_lines, add_found,
}

-- A line behind some blanks: nothing, a comment, or a target with a backslash before it.
pub data FileLine : Type 0 where
  blank_line : (blanks : ℕ) → FileLine
  comment_line : (blanks : ℕ) → (text : List ℕ) → FileLine
  target_line : (blanks : ℕ) → (target : List ℕ) → FileLine

abbrev pub body : FileLine → List ℕ
body (blank_line n) = replicate n b' '
body (comment_line n text) = replicate n b' ' ++ (b'#' ∷ text)
body (target_line n target) = replicate n b' ' ++ (b'\\' ∷ target)

abbrev pub file_text : List FileLine → List ℕ
file_text [] = []
file_text (l ∷ ls) = body l ++ (newline ∷ file_text ls)

abbrev pub file_targets : List FileLine → List (List ℕ)
file_targets [] = []
file_targets (target_line n target ∷ ls) = target ∷ file_targets ls
file_targets (blank_line n ∷ ls) = file_targets ls
file_targets (comment_line n text ∷ ls) = file_targets ls

-- No newline and no NUL.
abbrev pub IsPlain : List ℕ → Type 0
IsPlain [] = Unit
IsPlain (c ∷ cs) = ((c == newline) ≡ false) × ((c == 0) ≡ false) × IsPlain cs

abbrev IsTarget : FileLine → Type 0
IsTarget (target_line n target) = 0 < length target
IsTarget l = Unit

-- Lines that fit, with targets that are not empty.
abbrev pub AreLines : List FileLine → Type 0
AreLines [] = Unit
AreLines (l ∷ ls) = IsPlain (body l) × (length (body l) < max_line) × IsTarget l × AreLines ls

fgets-line :
    (n : ℕ) (s rest : List ℕ)
    → IsPlain s
    → length s < n
    → ◌≡◌ {A = List ℕ × List ℕ} (fgets n (s ++ (newline ∷ rest))) (s ++ (newline ∷ []), rest)
unfolding fgets
fgets-line n [] rest h l = let some_room : (n == 0) ≡ false = ground arith in rw some_room refl
fgets-line n (c ∷ cs) rest h l =
    let some_room : (n == 0) ≡ false = ground arith in
    let r = fgets-line (n - 1) cs rest h.2 (omega (arith, l)) in rw (some_room, h.0, r) refl

c_string-line : (s : List ℕ) → IsPlain s → c_string (s ++ (newline ∷ [])) ≡ s ++ (newline ∷ [])
unfolding c_string
c_string-line [] h = refl
c_string-line (c ∷ cs) h = let r = c_string-line cs h.2 in rw (h.1, r) refl

ends_line-true : (s : List ℕ) → ends_line (s ++ (newline ∷ [])) ≡ true
unfolding ends_line
ends_line-true [] = refl
ends_line-true (c ∷ []) = refl
ends_line-true (c ∷ d ∷ cs) = ends_line-true (d ∷ cs)

but_last-line : (s : List ℕ) → but_last (s ++ (newline ∷ [])) ≡ s
unfolding but_last
but_last-line [] = refl
but_last-line (c ∷ []) = refl
but_last-line (c ∷ d ∷ cs) = ap (λ l. c ∷ l) (but_last-line (d ∷ cs))

read_line-line :
    (s : List ℕ) → IsPlain s → read_line (s ++ (newline ∷ [])) ≡ some (line_target (skip_spaces s))
unfolding read_line
read_line-line s h =
    let c = c_string-line s h in
    let e = ends_line-true s in
    let b = but_last-line s in
    let fits : ((length (s ++ (newline ∷ [])) == max_line) && false) ≡ false = ground arith in
    rw (c, e, fits, b) refl

skip_blanks : (n : ℕ) (s : List ℕ) → skip_spaces (replicate n b' ' ++ s) ≡ skip_spaces s
unfolding skip_spaces
skip_blanks zero s = refl
skip_blanks (suc n) s = skip_blanks n s

-- What the reader makes of a line.
abbrev found_target : FileLine → Option (List ℕ)
found_target (blank_line n) = none
found_target (comment_line n text) = none
found_target (target_line n target) = some target

body-found_target :
    (l : FileLine) → IsTarget l → line_target (skip_spaces (body l)) ≡ found_target l
unfolding skip_spaces line_target
body-found_target (blank_line n) h =
    ap (λ s. line_target (skip_spaces s)) (sym (append-nil (replicate n b' ')))
    ∙ ap line_target (skip_blanks n [])
body-found_target (comment_line n []) h = ap line_target (skip_blanks n (b'#' ∷ []))
body-found_target (comment_line n (c ∷ cs)) h = ap line_target (skip_blanks n (b'#' ∷ (c ∷ cs)))
body-found_target (target_line n []) h = absurd (omega (arith, h))
body-found_target (target_line n (c ∷ cs)) h = ap line_target (skip_blanks n (b'\\' ∷ (c ∷ cs)))

module _ {S : Type 0} (add : (target : List ℕ) → S → Option S) where
  -- One target after the other.
  unfoldable pub add_each : List (List ℕ) → S → Option S
  add_each [] st = some st
  add_each (t ∷ ts) st = elim (add t st) [ none ↦ none | some st' ↦ add_each ts st' ]

  -- Behind `fgets`, and behind `read_line`.
  abbrev then_lines : (fuel : ℕ) → List ℕ → S → Option (Option (List ℕ)) → Option S
  then_lines fuel rest st result = elim result [
    | none ↦ none
    | some found ↦ elim (add_found add found st) [
      | none ↦ none
      | some st' ↦ process_lines add fuel rest st'
    ]
  ]

  abbrev after : (fuel : ℕ) → S → List ℕ × List ℕ → Option S
  after fuel st (buffer, rest) = then_lines fuel rest st (read_line buffer)

  process_lines-line :
      (fuel : ℕ) (s rest : List ℕ) (st : S)
      → IsPlain s
      → length s < max_line
      → process_lines add (suc fuel) (s ++ (newline ∷ rest)) st
        ≡ elim (add_found add (line_target (skip_spaces s)) st) [
          | none ↦ none
          | some st' ↦ process_lines add fuel rest st'
        ]
  unfolding process_lines
  process_lines-line fuel [] rest st h l =
      ap (after fuel st) (fgets-line max_line [] rest h l)
      ∙ ap (then_lines fuel rest st) (read_line-line [] h)
  process_lines-line fuel (c ∷ cs) rest st h l =
      ap (after fuel st) (fgets-line max_line (c ∷ cs) rest h l)
      ∙ ap (then_lines fuel rest st) (read_line-line (c ∷ cs) h)

  process_lines-step :
      (fuel : ℕ) (l : FileLine) (rest : List ℕ) (st st' : S)
      → IsPlain (body l)
      → length (body l) < max_line
      → IsTarget l
      → add_found add (found_target l) st ≡ some st'
      → process_lines add (suc fuel) (body l ++ (newline ∷ rest)) st
        ≡ process_lines add fuel rest st'
  process_lines-step fuel l rest st st' hp hl ht e =
      process_lines-line fuel (body l) rest st hp hl ∙ rw (body-found_target l ht, e) refl

  process_lines-stop :
      (fuel : ℕ) (l : FileLine) (rest : List ℕ) (st : S)
      → IsPlain (body l)
      → length (body l) < max_line
      → IsTarget l
      → add_found add (found_target l) st ≡ none
      → process_lines add (suc fuel) (body l ++ (newline ∷ rest)) st ≡ none
  process_lines-stop fuel l rest st hp hl ht e =
      process_lines-line fuel (body l) rest st hp hl ∙ rw (body-found_target l ht, e) refl

  -- Fuel above the file's length is enough.
  pub process_lines-each :
      (fuel : ℕ) (ls : List FileLine) (st : S)
      → AreLines ls
      → length (file_text ls) < fuel
      → process_lines add fuel (file_text ls) st ≡ add_each (file_targets ls) st
  unfolding process_lines add_each
  process_lines-each zero ls st h f = absurd (omega (arith, f))
  process_lines-each (suc fuel) [] st h f = refl
  process_lines-each (suc fuel) (blank_line n ∷ ls) st h f =
      let l = blank_line n in
      process_lines-step fuel l (file_text ls) st st h.0 h.1 h.2 refl
      ∙ process_lines-each fuel ls st h.3
          (omega (arith, f, length-append (body l) (newline ∷ file_text ls)))
  process_lines-each (suc fuel) (comment_line n text ∷ ls) st h f =
      let l = comment_line n text in
      process_lines-step fuel l (file_text ls) st st h.0 h.1 h.2 refl
      ∙ process_lines-each fuel ls st h.3
          (omega (arith, f, length-append (body l) (newline ∷ file_text ls)))
  process_lines-each (suc fuel) (target_line n target ∷ ls) st h f =
      let l = target_line n target in
      elim (Option-cases (add target st)) [
        | inl e ↦ process_lines-stop fuel l (file_text ls) st h.0 h.1 h.2 e ∙ rw (e, add_each) refl
        | inr (st', e) ↦
            process_lines-step fuel l (file_text ls) st st' h.0 h.1 h.2 e
            ∙ process_lines-each fuel ls st' h.3
                (omega (arith, f, length-append (body l) (newline ∷ file_text ls)))
            ∙ rw (e, add_each) refl
      ]
