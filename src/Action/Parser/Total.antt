-- ===== src/Action/Parser/Total.antt =====
-- The parser ends: fuel of twice the text's length is enough.
use mathlib.Core.Path.{subst}
use external_squashfs_tools.Common.{
  ℕ, zero, suc, ◌+◌, ◌*◌, ◌≤◌, ◌<◌, sym, ◌≢◌, inl, inr, Bool, true, false, not, ◌&&◌, Option, List,
  [], ◌∷◌, ◌++◌, arith, Bool-cases, Option-cases, length,
}
use external_squashfs_tools.Action.Lexer.{
  Str, Token, open_bracket, close_bracket, and_op, or_op, not_op, comma, eof, string, get_token,
}
use external_squashfs_tools.Action.Lexer.Progress.{get_token-Moved}
use external_squashfs_tools.Action.Parser.{
  TestEntry, Expr, Parsed, expr_op, parsed, null, out_of_fuel, and_then, after_arg, read_args,
  start_args, test_args, arity_fits, find_test, finish_test, parse_test, create_expr,
  create_unary_op, atom_of, step_expr, get_atom, parse_expr, expr_loop,
}

-- The fuel sufficed, and at most `n` bytes are left.
abbrev pub Within : {A : Type 0} → ℕ → Parsed A → Type 0
Within n (parsed a cur) = length cur ≤ n
Within n null = Unit {0}
Within n out_of_fuel = ⊥

Within-and_then :
    {A B : Type 0} {n : ℕ} (m : ℕ) (p : Parsed A) (k : A → Str → Parsed B)
    → Within n p
    → ((a : A) (cur : Str) → length cur ≤ n → Within m (k a cur))
    → Within m (and_then p k)
Within-and_then m (parsed a cur) k h g = g a cur h
Within-and_then m null k h g = tt
Within-and_then m out_of_fuel k h g = elim h [ ]

Within-mono : {A : Type 0} {n m : ℕ} (p : Parsed A) → n ≤ m → Within n p → Within m p
Within-mono (parsed a cur) l h = omega arith
Within-mono null l h = tt
Within-mono out_of_fuel l h = elim h [ ]

-- A token that is not the end leaves less text than there was.
next-lt : (cur : Str) → (get_token cur).0 ≢ eof → length (get_token cur).1 < length cur
next-lt cur ne = ground (arith, get_token-Moved cur)

next-le : (cur : Str) → length (get_token cur).1 ≤ length cur
next-le cur = (get_token-Moved cur).0

after_arg-Within :
    (more : Token × Str → Parsed (List Str)) (argv : List Str) (n : ℕ) (t : Token) (rest : Str)
    → length rest ≤ n
    → (t ≢ eof → length rest < n)
    → ((u : Token × Str) → length u.1 < n → Within n (more u))
    → Within n (after_arg more argv (t, rest))
unfolding after_arg
after_arg-Within more argv n close_bracket rest le lt keep = le
after_arg-Within more argv n comma rest le lt keep =
    keep (get_token rest) (omega (arith, next-le rest, lt (λ e. cc)))
after_arg-Within more argv n _ rest le lt keep = tt

read_args-Within :
    (f : ℕ) (argv : List Str) (t : Token) (cur : Str)
    → length cur < f
    → Within (length cur) (read_args f argv (t, cur))
unfolding read_args
read_args-Within zero argv t cur h = elim h [ ]
read_args-Within (suc f) argv (string s) cur h =
    after_arg-Within (read_args f (argv ++ (s ∷ []))) (argv ++ (s ∷ [])) (length cur)
      (get_token cur).0 (get_token cur).1 (next-le cur) (next-lt cur)
      (λ u l.
        Within-mono (read_args f (argv ++ (s ∷ [])) u) (omega arith)
          (read_args-Within f (argv ++ (s ∷ [])) u.0 u.1 (omega arith)))
read_args-Within (suc f) argv _ cur h = tt

start_args-Within :
    (f : ℕ) (t : Token) (cur : Str) → length cur < f → Within (length cur) (start_args f (t, cur))
unfolding start_args
start_args-Within f close_bracket cur h = omega arith
start_args-Within f t cur h = read_args-Within f [] t cur h

test_args-Within :
    (f : ℕ) (cur : Str) (t : Token) (rest : Str)
    → length rest ≤ length cur
    → length cur < f
    → Within (length cur) (test_args f cur (t, rest))
unfolding test_args
test_args-Within f cur open_bracket rest le h =
    Within-mono (start_args f (get_token rest)) (omega (arith, next-le rest))
      (start_args-Within f (get_token rest).0 (get_token rest).1 (omega (arith, next-le rest)))
test_args-Within f cur _ rest le h = omega arith

module _ {D : Type 0} (test_table : List TestEntry)
    (parse_args : TestEntry → List Str → Option (List Str × Option D)) (exclude : Bool) where
  finish_test-Within :
      (t : TestEntry) (argv : List Str) (cur : Str)
      → Within (length cur) (finish_test test_table parse_args exclude t argv cur)
  unfolding finish_test
  finish_test-Within t argv cur = elim (Bool-cases (arity_fits t.arity (length argv))) [
    | inl y ↦ rw y (elim (Option-cases (parse_args t argv)) [
      | inl e ↦ rw e tt
      | inr (p, e) ↦ rw e (omega arith)
    ])
    | inr n ↦ rw n tt
  ]

  parse_test-Within :
      (f : ℕ) (name cur : Str)
      → length cur < f
      → Within (length cur) (parse_test test_table parse_args exclude f name cur)
  unfolding parse_test
  parse_test-Within f name cur h = elim (Option-cases (find_test test_table name)) [
    | inl e ↦ rw (e, parse_test) tt
    | inr (t, e) ↦
        rw (e, parse_test)
          (elim (Bool-cases (exclude && not t.exclude_ok)) [
            | inl y ↦ rw y tt
            | inr n ↦ rw n (
                Within-and_then (length cur) (test_args f cur (get_token cur)) _
                  (test_args-Within f cur (get_token cur).0 (get_token cur).1 (next-le cur) h)
                  (λ argv rest l.
                    Within-mono (finish_test test_table parse_args exclude t argv rest) l
                      (finish_test-Within t argv rest)))
          ])
  ]

  abbrev Next : ℕ → (Str → Parsed (Expr D)) → Type 0
  Next n p = (cur : Str) → length cur < n → Within (length cur) (p cur)

  unary-Within :
      (n : ℕ) (p : Parsed (Expr D)) (op : Token)
      → Within n p
      → Within n (create_unary_op test_table parse_args exclude p op)
  unfolding create_unary_op
  unary-Within n (parsed e cur) op h = h
  unary-Within n null op h = tt
  unary-Within n out_of_fuel op h = elim h [ ]

  atom_of-Within :
      (next sub : Str → Parsed (Expr D)) (f n : ℕ) (t : Token) (cur : Str)
      → n ≤ f
      → Next n next
      → Next n sub
      → length cur < n
      → Within (length cur) (atom_of test_table parse_args exclude next sub f (t, cur))
  unfolding atom_of
  atom_of-Within next sub f n not_op cur l hn hs h =
      unary-Within (length cur) (next cur) not_op (hn cur h)
  atom_of-Within next sub f n open_bracket cur l hn hs h = hs cur h
  atom_of-Within next sub f n (string s) cur l hn hs h = parse_test-Within f s cur (omega arith)
  atom_of-Within next sub f n _ cur l hn hs h = tt

  operand-Within :
      (op : Token) (next : Str → Parsed (Expr D)) (more : Expr D → Str → Parsed (Expr D))
      (e : Expr D) (n : ℕ) (cur : Str)
      → length cur < n
      → Next n next
      → ((e' : Expr D) (cur' : Str) → length cur' < n → Within (length cur') (more e' cur'))
      → Within n (and_then (create_expr test_table parse_args exclude e op (next cur)) more)
  unfolding create_expr
  operand-Within op next more e n cur lt hn hm =
      Within-and_then n (create_expr test_table parse_args exclude e op (next cur)) more
        (Within-and_then (length cur) (next cur) (λ rhs. parsed (expr_op e op rhs)) (hn cur lt)
          (λ a c l. l))
        (λ e' c l. Within-mono (more e' c) (omega arith) (hm e' c (omega arith)))

  atom_of-eof :
      (f : ℕ) (cur : Str)
      → Within (length cur) (
          atom_of test_table parse_args exclude
            (get_atom test_table parse_args exclude f)
            (parse_expr test_table parse_args exclude f true)
            f
            (eof, (get_token cur).1))
  unfolding atom_of
  atom_of-eof f cur = tt

  step_expr-Within :
      (subexp : Bool) (next : Str → Parsed (Expr D)) (more : Expr D → Str → Parsed (Expr D))
      (e : Expr D) (n : ℕ) (t : Token) (cur : Str)
      → length cur ≤ n
      → (t ≢ eof → length cur < n)
      → Next n next
      → ((e' : Expr D) (cur' : Str) → length cur' < n → Within (length cur') (more e' cur'))
      → Within n (step_expr test_table parse_args exclude subexp next more e (t, cur))
  unfolding step_expr create_expr
  step_expr-Within true next more e n eof cur le lt hn hm = tt
  step_expr-Within false next more e n eof cur le lt hn hm = le
  step_expr-Within true next more e n close_bracket cur le lt hn hm = le
  step_expr-Within false next more e n close_bracket cur le lt hn hm = tt
  step_expr-Within subexp next more e n and_op cur le lt hn hm =
      operand-Within and_op next more e n cur (lt (λ x. cc)) hn hm
  step_expr-Within subexp next more e n or_op cur le lt hn hm =
      operand-Within or_op next more e n cur (lt (λ x. cc)) hn hm
  step_expr-Within subexp next more e n _ cur le lt hn hm = tt

  mutual
    unfolding get_atom parse_expr expr_loop

    get_atom-Within :
        (f : ℕ) (cur : Str)
        → 2 * length cur + 1 ≤ f
        → Within (length cur) (get_atom test_table parse_args exclude f cur)
    get_atom-Within zero cur h = absurd (omega arith)
    get_atom-Within (suc f) cur h = elim (get_token-Moved cur).1 [
      | inl e ↦
          subst
            (λ t. Within (length cur) (
              atom_of test_table parse_args exclude (get_atom test_table parse_args exclude f)
                (parse_expr test_table parse_args exclude f true) f (t, (get_token cur).1)))
            (sym e) (atom_of-eof f cur)
      | inr lt ↦
          Within-mono
            (atom_of test_table parse_args exclude (get_atom test_table parse_args exclude f)
              (parse_expr test_table parse_args exclude f true) f (get_token cur))
            (next-le cur)
            (atom_of-Within (get_atom test_table parse_args exclude f)
              (parse_expr test_table parse_args exclude f true) f (length cur) (get_token cur).0
              (get_token cur).1 (omega arith) (λ c l. get_atom-Within f c (omega arith))
              (λ c l. parse_expr-Within f true c (omega arith)) lt)
    ]

    parse_expr-Within :
        (f : ℕ) (subexp : Bool) (cur : Str)
        → 2 * length cur + 2 ≤ f
        → Within (length cur) (parse_expr test_table parse_args exclude f subexp cur)
    parse_expr-Within zero subexp cur h = absurd (omega arith)
    parse_expr-Within (suc f) subexp cur h =
        Within-and_then (length cur) (get_atom test_table parse_args exclude f cur)
          (expr_loop test_table parse_args exclude f subexp) (get_atom-Within f cur (omega arith))
          (λ e c l.
            Within-mono (expr_loop test_table parse_args exclude f subexp e c) l
              (expr_loop-Within f subexp e c (omega arith)))

    expr_loop-Within :
        (f : ℕ) (subexp : Bool) (e : Expr D) (cur : Str)
        → 2 * length cur + 1 ≤ f
        → Within (length cur) (expr_loop test_table parse_args exclude f subexp e cur)
    expr_loop-Within zero subexp e cur h = absurd (omega arith)
    expr_loop-Within (suc f) subexp e cur h =
        step_expr-Within subexp (get_atom test_table parse_args exclude f)
          (expr_loop test_table parse_args exclude f subexp) e (length cur) (get_token cur).0
          (get_token cur).1 (next-le cur) (next-lt cur) (λ c l. get_atom-Within f c (omega arith))
          (λ e' c l. expr_loop-Within f subexp e' c (omega arith))

  -- With fuel of twice the text's length and two, `parse_expr` ends: it returns a tree or NULL, and
  -- what it leaves is no longer than what it was given.
  pub parse_expr-total :
      (f : ℕ) (subexp : Bool) (cur : Str)
      → 2 * length cur + 2 ≤ f
      → Within (length cur) (parse_expr test_table parse_args exclude f subexp cur)
  parse_expr-total = parse_expr-Within
