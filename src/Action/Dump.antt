-- ===== src/Action/Dump.antt =====
-- The text of a parse tree: `dump_parse_tree` of squashfs-tools/action.c, which prints every
-- operation in brackets and every string as it stands.
use external_squashfs_tools.Common.{List, [], ◌∷◌, ◌++◌}
use external_squashfs_tools.Action.Lexer.{
  Str, Token, open_bracket, close_bracket, and_op, or_op, not_op, comma, at, white_space, eof,
  string,
}
use external_squashfs_tools.Action.Parser.{Expr, atom, unary_op, expr_op}

-- `token_table[op].string`: an operator's number is its index. TOK_STRING and TOK_EOF are past the
-- table's strings and are never operators.
unfoldable pub token_text : Token → Str
token_text open_bracket = b'(' ∷ []
token_text close_bracket = b')' ∷ []
token_text and_op = b'&' ∷ b'&' ∷ []
token_text or_op = b'|' ∷ b'|' ∷ []
token_text not_op = b'!' ∷ []
token_text comma = b',' ∷ []
token_text at = b'@' ∷ []
token_text white_space = 32 ∷ []
token_text eof = []
token_text (string s) = []

-- The loop over `argv`: a comma behind each argument but the last.
unfoldable pub dump_args : List Str → Str
dump_args [] = []
dump_args (a ∷ []) = a
dump_args (a ∷ b ∷ argv) = a ++ b',' ∷ dump_args (b ∷ argv)

unfoldable pub dump_argv : List Str → Str
dump_argv [] = []
dump_argv (a ∷ argv) = b'(' ∷ dump_args (a ∷ argv) ++ b')' ∷ []

unfoldable pub dump_parse_tree : {D : Type 0} → Expr D → Str
dump_parse_tree (atom a) = a.test.name ++ dump_argv a.argv
dump_parse_tree (unary_op e op) = token_text op ++ dump_parse_tree e
dump_parse_tree (expr_op l op r) =
    b'(' ∷ (dump_parse_tree l ++ (token_text op ++ (dump_parse_tree r ++ (b')' ∷ []))))
