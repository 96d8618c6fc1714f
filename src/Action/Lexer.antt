-- ===== src/Action/Lexer.antt =====
-- The lexical analyser: `token_table`, `get_token` and `peek_token` of squashfs-tools/action.c.
pub mod Progress
pub mod Plain
use Prim.Native.Char.{code}
use Prim.Native.String.{String}
use external_squashfs_tools.Common.{
  ℕ, zero, suc, ◌≡◌, refl, Bool, true, false, not, ◌&&◌, Option, none, some, List, [], ◌∷◌, ◌++◌,
  ◌==◌, if◌then◌else◌, drop,
}

-- A C string without its terminator: bytes that are not 0.
abbrev pub Str : Type 0
Str = List ℕ

-- The `TOK_` numbers. TOK_STRING comes with the string that it leaves in `*string`.
pub data Token : Type 0 where
  open_bracket close_bracket and_op or_op not_op comma at white_space eof : Token
  string : Str → Token

pub record TokenEntry : Type 0 where
  pub text : Str
  pub token : Token
  pub size : ℕ

abbrev entry : Str → Token → ℕ → TokenEntry
entry s t n = record { text = s; token = t; size = n }

abbrev pub token_table : List TokenEntry
token_table =
    entry (b'(' ∷ []) open_bracket 1
    ∷ entry (b')' ∷ []) close_bracket 1
    ∷ entry (b'&' ∷ b'&' ∷ []) and_op 2
    ∷ entry (b'|' ∷ b'|' ∷ []) or_op 2
    ∷ entry (b'!' ∷ []) not_op 1
    ∷ entry (b',' ∷ []) comma 1
    ∷ entry (b'@' ∷ []) at 1
    ∷ entry (32 ∷ []) white_space 1
    ∷ entry (9 ∷ 32 ∷ []) white_space 1
    ∷ []

-- `strncmp(s, t, n) == 0`: stops at the first difference or at a common terminator.
abbrev pub strncmp_eq : Str → Str → ℕ → Bool
strncmp_eq s t zero = true
strncmp_eq [] [] (suc n) = true
strncmp_eq [] (d ∷ t) (suc n) = false
strncmp_eq (c ∷ s) [] (suc n) = false
strncmp_eq (c ∷ s) (d ∷ t) (suc n) = if c == d then strncmp_eq s t n else false

-- `for (i = 0; token_table[i].token != -1; i++) if (strncmp(…) == 0) break;`
unfoldable pub find_entry : List TokenEntry → Str → Option TokenEntry
find_entry [] cur = none
find_entry (e ∷ es) cur = if strncmp_eq cur e.text e.size then some e else find_entry es cur

unfoldable pub find_token : Str → Option TokenEntry
find_token = find_entry token_table

unfoldable pub is_white : Token → Bool
is_white white_space = true
is_white _ = false

-- `if(!quoted)` and some entry of the table matches.
unfoldable pub stops : (quoted : Bool) → Str → Bool
stops true cur = false
stops false cur = elim (find_token cur) [ none ↦ false | some e ↦ true ]

-- The loop that reads a string. `s` is what has been stored; `escaped` holds just behind a
-- backslash, where the next byte is stored whatever it is.
unfoldable pub read_string : (quoted escaped : Bool) (s cur : Str) → Token × Str
read_string quoted true s [] = (eof, [])
read_string true false s [] = (eof, [])
read_string false false s [] = (string s, [])
read_string quoted true s (c ∷ cur) = read_string quoted false (s ++ (c ∷ [])) cur
read_string quoted false s (c ∷ cur) = elim (c == b'"') [
  | true ↦ read_string (not quoted) false s cur
  | false ↦ elim (stops quoted (c ∷ cur)) [
    | true ↦ (string s, c ∷ cur)
    | false ↦ elim (c == 92) [
      | true ↦ read_string quoted true s cur
      | false ↦ read_string quoted false (s ++ (c ∷ [])) cur
    ]
  ]
]

-- The token and where `cur_ptr` stands after it.
unfoldable pub get_token : Str → Token × Str
get_token [] = (eof, [])
get_token (c ∷ cur) = elim (find_token (c ∷ cur)) [
  | none ↦ read_string false false [] (c ∷ cur)
  | some e ↦ elim (is_white e.token) [
    | true ↦ get_token cur
    | false ↦ (e.token, drop e.size (c ∷ cur))
  ]
]

-- `peek_token` puts `cur_ptr` back.
unfoldable pub peek_token : Str → Token
peek_token cur = (get_token cur).0

abbrev pub codes : String → Str
codes String.[] = []
codes (String.◌∷◌ c s) = code c ∷ codes s

lex_runs : get_token (codes " \"a b\"c\\(d)&&") ≡ (string (codes "a bc(d"), codes ")&&")
unfolding get_token peek_token find_token find_entry is_white stops read_string
lex_runs = refl
