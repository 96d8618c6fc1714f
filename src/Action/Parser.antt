-- ===== src/Action/Parser.antt =====
-- The expression parser of squashfs-tools/action.c. Parse trees are values; `malloc` is taken to
-- succeed. The recursions run on fuel, and `Parser/Total` says how much is enough.
use external_squashfs_tools.Common.{
  ℕ, zero, suc, Bool, true, not, ◌&&◌, Option, none, some, List, [], ◌∷◌, ◌++◌, ◌==◌, if◌then◌else◌,
  str_eq, length,
}
pub mod Total
pub mod Roundtrip
use external_squashfs_tools.Action.Lexer.{
  Str, Token, open_bracket, close_bracket, and_op, or_op, not_op, comma, eof, string, get_token,
}

-- `struct test_entry` without its function pointers. `arity` is `none` for `args == -2`.
pub record TestEntry : Type 0 where
  pub name : Str
  pub arity : Option ℕ
  pub exclude_ok : Bool
  pub handle_logging : Bool

-- `struct atom`; `D` is what `data` points to.
pub record Atom (D : Type 0) : Type 0 where
  pub test : TestEntry
  pub argv : List Str
  pub payload : Option D

-- `struct expr` with its union.
pub data Expr (D : Type 0) : Type 0 where
  atom : Atom D → Expr D
  unary_op : Expr D → Token → Expr D
  expr_op : Expr D → Token → Expr D → Expr D

-- What a parser returns with `cur_ptr`; `null` is NULL, after a message.
pub data Parsed (A : Type 0) : Type 0 where
  parsed : A → Str → Parsed A
  null : Parsed A
  out_of_fuel : Parsed A

abbrev pub and_then : {A B : Type 0} → Parsed A → (A → Str → Parsed B) → Parsed B
and_then (parsed a cur) k = k a cur
and_then null k = null
and_then out_of_fuel k = out_of_fuel

-- The loop that reads arguments, in `parse_test` and in `parse_action`. `read_args` is at a token
-- that should be an argument, `after_arg` at the one behind it.
pub after_arg : (Token × Str → Parsed (List Str)) → List Str → Token × Str → Parsed (List Str)
after_arg more argv (close_bracket, cur) = parsed argv cur
after_arg more argv (comma, cur) = more (get_token cur)
after_arg more argv _ = null

pub read_args : ℕ → (argv : List Str) → Token × Str → Parsed (List Str)
unfolding after_arg
read_args zero argv _ = out_of_fuel
read_args (suc f) argv (string s, cur) =
    after_arg (read_args f (argv ++ (s ∷ []))) (argv ++ (s ∷ [])) (get_token cur)
read_args (suc f) argv _ = null

-- The token behind the bracket that opens the arguments.
pub start_args : ℕ → Token × Str → Parsed (List Str)
start_args f (close_bracket, cur) = parsed [] cur
start_args f t = read_args f [] t

-- A test's arguments, if a bracket follows its name.
pub test_args : ℕ → Str → Token × Str → Parsed (List Str)
test_args f cur (open_bracket, rest) = start_args f (get_token rest)
test_args f cur _ = parsed [] cur

unfoldable pub arity_fits : Option ℕ → ℕ → Bool
arity_fits none n = true
arity_fits (some k) n = n == k

unfoldable pub find_test : List TestEntry → Str → Option TestEntry
find_test [] name = none
find_test (t ∷ ts) name = if str_eq name t.name then some t else find_test ts name

-- `parse_args` is the call through the entry's pointer: it may fail, and may change the arguments
-- and set the data; without a pointer it is `λ t argv. some (argv, none)`. `exclude` says whether
-- the action being parsed is an exclude action.
module _ {D : Type 0} (test_table : List TestEntry)
    (parse_args : TestEntry → List Str → Option (List Str × Option D)) (exclude : Bool) where
  pub finish_test : TestEntry → List Str → Str → Parsed (Expr D)
  finish_test t argv cur =
      if arity_fits t.arity (length argv)
      then elim (parse_args t argv) [
        | none ↦ null
        | some (argv', d) ↦ parsed (atom (record { test = t; argv = argv'; payload = d })) cur
      ]
      else null

  pub parse_test : ℕ → Str → Str → Parsed (Expr D)
  parse_test f name cur = elim (find_test test_table name) [
    | none ↦ null
    | some t ↦
        if exclude && not t.exclude_ok
        then null
        else and_then (test_args f cur (get_token cur)) (finish_test t)
  ]

  -- `create_expr` and `create_unary_op`: a NULL operand gives NULL, and the left side is freed.
  pub create_expr : Expr D → Token → Parsed (Expr D) → Parsed (Expr D)
  create_expr lhs op p = and_then p (λ rhs. parsed (expr_op lhs op rhs))

  pub create_unary_op : Parsed (Expr D) → Token → Parsed (Expr D)
  create_unary_op p op = and_then p (λ e. parsed (unary_op e op))

  -- `get_atom` on its token, `next` and `sub` being the calls of `get_atom` and `parse_expr(1)`.
  pub atom_of : (next sub : Str → Parsed (Expr D)) → ℕ → Token × Str → Parsed (Expr D)
  atom_of next sub f (not_op, cur) = create_unary_op (next cur) not_op
  atom_of next sub f (open_bracket, cur) = sub cur
  atom_of next sub f (string s, cur) = parse_test f s cur
  atom_of next sub f _ = null

  -- The loop of `parse_expr` on the token behind `expr`: `more` is the rest of the loop.
  pub step_expr :
      (subexp : Bool) (next : Str → Parsed (Expr D)) (more : Expr D → Str → Parsed (Expr D))
      → Expr D
      → Token × Str
      → Parsed (Expr D)
  step_expr subexp next more expr (eof, cur) = if subexp then null else parsed expr cur
  step_expr subexp next more expr (close_bracket, cur) = if subexp then parsed expr cur else null
  step_expr subexp next more expr (and_op, cur) = and_then (create_expr expr and_op (next cur)) more
  step_expr subexp next more expr (or_op, cur) = and_then (create_expr expr or_op (next cur)) more
  step_expr subexp next more expr _ = null

  mutual
    pub get_atom : ℕ → Str → Parsed (Expr D)
    get_atom zero cur = out_of_fuel
    get_atom (suc f) cur = atom_of (get_atom f) (parse_expr f true) f (get_token cur)

    pub parse_expr : ℕ → Bool → Str → Parsed (Expr D)
    parse_expr zero subexp cur = out_of_fuel
    parse_expr (suc f) subexp cur = and_then (get_atom f cur) (expr_loop f subexp)

    pub expr_loop : ℕ → Bool → Expr D → Str → Parsed (Expr D)
    expr_loop zero subexp expr cur = out_of_fuel
    expr_loop (suc f) subexp expr cur =
        step_expr subexp (get_atom f) (expr_loop f subexp) expr (get_token cur)
