-- ===== src/Action/Lexer/Plain.antt =====
-- Strings that the lexer reads back as they stand: no byte of them is special.
use external_squashfs_tools.Common.{
  ℕ, ◌≤◌, ◌≡◌, refl, sym, ap, ◌∙◌, ◌⊎◌, inl, inr, Bool, true, false, not, ◌&&◌, none, [], ◌∷◌, ◌++◌,
  append-nil, append_assoc, arith, ◌==◌, ==_iff, Bool-cases, length,
}
use external_squashfs_tools.Action.Lexer.{
  Str, open_bracket, close_bracket, at, comma, not_op, and_op, or_op, string, find_entry,
  find_token, is_white, stops, read_string, get_token,
}

-- None of `( ) & | ! , @`, space, tab, the quote and the backslash.
abbrev plain_byte : ℕ → Bool
plain_byte c =
    not (c == b'(')
    && not (c == b')')
    && not (c == b'&')
    && not (c == b'|')
    && not (c == b'!')
    && not (c == b',')
    && not (c == b'@')
    && not (c == 32)
    && not (c == 9)
    && not (c == b'"')
    && not (c == 92)

abbrev pub AllPlain : Str → Type 0
AllPlain [] = Unit {0}
AllPlain (c ∷ s) = (plain_byte c ≡ true) × AllPlain s

-- A string that can be written without quotes.
abbrev pub IsPlain : Str → Type 0
IsPlain s = AllPlain s × (1 ≤ length s)

-- Where a string ends: at the end of the text or at a token.
abbrev pub Ends : Str → Type 0
Ends s = (s ≡ []) ⊎ (stops false s ≡ true)

plain-find_token : (c : ℕ) (s : Str) → plain_byte c ≡ true → find_token (c ∷ s) ≡ none
unfolding find_token find_entry
plain-find_token c s h = ground arith

plain-stops : (c : ℕ) (s : Str) → plain_byte c ≡ true → stops false (c ∷ s) ≡ false
unfolding stops
plain-stops c s h = rw (plain-find_token c s h, stops)

quote-stops : (s : Str) → stops false (b'"' ∷ s) ≡ false
unfolding stops find_token find_entry
quote-stops s = refl

read_string-Ends :
    (acc rest : Str) → Ends rest → read_string false false acc rest ≡ (string acc, rest)
unfolding read_string
read_string-Ends acc [] e = refl
read_string-Ends acc (c ∷ rest) (inl e) = cc
read_string-Ends acc (c ∷ rest) (inr e) = elim (Bool-cases (c == b'"')) [
  | inl q ↦ cc (e, sym (ap (λ d. stops false (d ∷ rest)) ((==_iff c b'"').0 q)), quote-stops rest)
  | inr q ↦ rw (q, read_string) (rw (e, read_string))
]

-- A plain string is read up to the token behind it.
read_string-plain :
    (s acc rest : Str)
    → AllPlain s
    → Ends rest
    → read_string false false acc (s ++ rest) ≡ (string (acc ++ s), rest)
unfolding read_string
read_string-plain [] acc rest p e =
    read_string-Ends acc rest e ∙ ap (λ t. (string t, rest)) (sym (append-nil acc))
read_string-plain (c ∷ s) acc rest p e = ground (
  arith,
  plain-stops c (s ++ rest) p.0,
  read_string-plain s (acc ++ (c ∷ [])) rest p.1 e,
  append_assoc acc (c ∷ []) s,
)

pub get_token-plain :
    (s rest : Str) → IsPlain s → Ends rest → get_token (s ++ rest) ≡ (string s, rest)
unfolding get_token
get_token-plain [] rest p e = absurd (omega (arith, p.1))
get_token-plain (c ∷ s) rest p e =
    rw (plain-find_token c (s ++ rest) p.0.0, get_token) (read_string-plain (c ∷ s) [] rest p.0 e)

-- The tokens that are not strings.
module _ (rest : Str) where
  pub get_token-open : get_token (b'(' ∷ rest) ≡ (open_bracket, rest)
  unfolding get_token find_token find_entry is_white
  get_token-open = refl

  pub get_token-close : get_token (b')' ∷ rest) ≡ (close_bracket, rest)
  unfolding get_token find_token find_entry is_white
  get_token-close = refl

  pub get_token-comma : get_token (b',' ∷ rest) ≡ (comma, rest)
  unfolding get_token find_token find_entry is_white
  get_token-comma = refl

  pub get_token-not : get_token (b'!' ∷ rest) ≡ (not_op, rest)
  unfolding get_token find_token find_entry is_white
  get_token-not = refl

  pub get_token-and : get_token (b'&' ∷ b'&' ∷ rest) ≡ (and_op, rest)
  unfolding get_token find_token find_entry is_white
  get_token-and = refl

  pub get_token-or : get_token (b'|' ∷ b'|' ∷ rest) ≡ (or_op, rest)
  unfolding get_token find_token find_entry is_white
  get_token-or = refl

  pub Ends-open : Ends (b'(' ∷ rest)
  unfolding stops find_token find_entry
  Ends-open = inr refl

  pub Ends-close : Ends (b')' ∷ rest)
  unfolding stops find_token find_entry
  Ends-close = inr refl

  pub Ends-comma : Ends (b',' ∷ rest)
  unfolding stops find_token find_entry
  Ends-comma = inr refl

  pub Ends-and : Ends (b'&' ∷ b'&' ∷ rest)
  unfolding stops find_token find_entry
  Ends-and = inr refl

  pub Ends-or : Ends (b'|' ∷ b'|' ∷ rest)
  unfolding stops find_token find_entry
  Ends-or = inr refl

  pub get_token-at : get_token (b'@' ∷ rest) ≡ (at, rest)
  unfolding get_token find_token find_entry is_white
  get_token-at = refl

  pub Ends-at : Ends (b'@' ∷ rest)
  unfolding stops find_token find_entry
  Ends-at = inr refl
