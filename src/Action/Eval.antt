-- ===== src/Action/Eval.antt =====
-- Evaluation of expressions: `eval_expr` and `eval_expr_log` of squashfs-tools/action.c.
pub mod Agree
use external_squashfs_tools.Common.{Bool, true, false, not, ◌&&◌, ◌||◌, [], ◌∷◌, if◌then◌else◌}
use external_squashfs_tools.Action.Lexer.{Str, Token, and_op, or_op}
use external_squashfs_tools.Action.Parser.{Atom, Expr, atom, unary_op, expr_op}
use external_squashfs_tools.Action.Dump.{token_text}
use external_squashfs_tools.Action.Log.{Log, expr_log, expr_log_atom, expr_log_match}

-- A match, the log and what else an evaluation may change (`exec` runs a program).
abbrev pub Outcome : Type 0 → Type 0
Outcome S = Bool × Log × S

pub is_and : Token → Bool
is_and and_op = true
is_and _ = false

pub is_or : Token → Bool
is_or or_op = true
is_or _ = false

-- `(op == TOK_AND && match) || (op == TOK_OR && !match)`
pub needs_rhs : Token → Bool → Bool
needs_rhs op match = (is_and op && match) || (is_or op && not match)

-- `fn` is the call through the test's pointer, given the file through `S`.
module _ {D S : Type 0} (fn : Atom D → Log → S → Outcome S) where
  pub eval_expr : Expr D → Log → S → Outcome S
  eval_expr (atom a) l s = fn a l s
  eval_expr (unary_op e op) l s = let (match, l', s') = eval_expr e l s in (not match, l', s')
  eval_expr (expr_op lhs op rhs) l s =
      let (match, l', s') = eval_expr lhs l s in
      if needs_rhs op match then eval_expr rhs l' s' else (match, l', s')

  pub eval_expr_log : Expr D → Log → S → Outcome S
  eval_expr_log (atom a) l s =
      let (match, l', s') = fn a (expr_log_atom a l) s in (match, expr_log_match match l', s')
  eval_expr_log (unary_op e op) l s =
      let (match, l', s') = eval_expr_log e (expr_log (b'!' ∷ []) l) s in (not match, l', s')
  eval_expr_log (expr_op lhs op rhs) l s =
      let (match, l', s') = eval_expr_log lhs (expr_log (b'(' ∷ []) l) s in
      let (match'', l'', s'') =
        if needs_rhs op match
        then eval_expr_log rhs (expr_log (token_text op) l') s'
        else (match, l', s') in
      (match'', expr_log (b')' ∷ []) l'', s'')
