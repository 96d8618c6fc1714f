-- ===== src/Action/Lexer/Progress.antt =====
-- Every token but the end of the text uses up text.
use external_squashfs_tools.Common.{
  ℕ, ◌≤◌, ◌<◌, ◌≡◌, refl, ◌⊎◌, inl, inr, Bool, true, false, not, none, some, List, [], ◌∷◌, ◌++◌,
  arith, Bool-cases, Option-cases, length, drop, length-drop,
}
use external_squashfs_tools.Action.Lexer.{
  Str, Token, TokenEntry, eof, token_table, strncmp_eq, find_entry, find_token, is_white, stops,
  read_string, get_token,
}

AllSized : List TokenEntry → Type 0
AllSized [] = Unit {0}
AllSized (e ∷ es) = (1 ≤ e.size) × AllSized es

find_entry-size :
    (es : List TokenEntry) (s : Str) {e : TokenEntry}
    → AllSized es
    → find_entry es s ≡ some e
    → 1 ≤ e.size
unfolding find_entry AllSized
find_entry-size [] s a h = cc
find_entry-size (f ∷ es) s a h = elim (Bool-cases (strncmp_eq s f.text f.size)) [
  | inl m ↦ ground (arith, m, h, a)
  | inr m ↦ find_entry-size es s a.1 (rw m at h)
]

pub find_token-size : (s : Str) {e : TokenEntry} → find_token s ≡ some e → 1 ≤ e.size
unfolding find_token find_entry AllSized
find_token-size s h = find_entry-size token_table s (omega arith) h

pub read_string-le : (q x : Bool) (s cur : Str) → length (read_string q x s cur).1 ≤ length cur
unfolding read_string
read_string-le q true s [] = omega arith
read_string-le true false s [] = omega arith
read_string-le false false s [] = omega arith
read_string-le q true s (c ∷ cur) = omega (arith, read_string-le q false (s ++ (c ∷ [])) cur)
read_string-le q false s (c ∷ cur) = ground (
  arith,
  read_string-le (not q) false s cur,
  read_string-le q true s cur,
  read_string-le q false (s ++ (c ∷ [])) cur,
)

-- What a call of the lexer may do: end the text, or leave less of it.
abbrev Moved : Str → Token × Str → Type 0
Moved cur (t, rest) = (length rest ≤ length cur) × ((t ≡ eof) ⊎ (length rest < length cur))

read_string-first :
    (c : ℕ) (cur : Str)
    → find_token (c ∷ cur) ≡ none
    → length (read_string false false [] (c ∷ cur)).1 < length (c ∷ cur)
unfolding read_string stops
read_string-first c cur h = ground (
  arith,
  h,
  read_string-le true false [] cur,
  read_string-le false true [] cur,
  read_string-le false false (c ∷ []) cur,
)

pub get_token-Moved : (cur : Str) → Moved cur (get_token cur)
unfolding get_token
get_token-Moved [] = (omega arith, inl refl)
get_token-Moved (c ∷ cur) = elim (Option-cases (find_token (c ∷ cur))) [
  | inl h ↦
      rw (h, get_token) (let less = read_string-first c cur h in (omega (arith, less), inr less))
  | inr (e, h) ↦
      rw (h, get_token)
        (elim (Bool-cases (is_white e.token)) [
          | inl w ↦ rw w (
              let rest = get_token-Moved cur in
              (omega (arith, rest.0), inr (omega (arith, rest.0))))
          | inr b ↦ rw b (
              let less : length (drop e.size (c ∷ cur)) < length (c ∷ cur) =
                omega (arith, length-drop e.size (c ∷ cur), find_token-size (c ∷ cur) h) in
              (omega (arith, less), inr less))
        ])
]
