-- ===== src/Action/Parser/Roundtrip.antt =====
-- Parsing what `dump_parse_tree` prints gives the tree back.
use external_squashfs_tools.Common.{
  ℕ, zero, suc, ◌+◌, ◌*◌, ◌≤◌, ◌<◌, ◌≡◌, refl, sym, ap, ◌∙◌, ◌⊎◌, inl, inr, Bool, true, false, not,
  ◌&&◌, Option, some, List, [], ◌∷◌, ◌++◌, append-nil, append_assoc, arith, length, length-append,
}
use external_squashfs_tools.Action.Lexer.{Str, Token, and_op, or_op, not_op, string, get_token}
use external_squashfs_tools.Action.Lexer.Plain.{
  IsPlain, Ends, get_token-plain, get_token-open, get_token-close, get_token-comma, get_token-not,
  get_token-and, get_token-or, Ends-open, Ends-close, Ends-comma, Ends-and, Ends-or,
}
use external_squashfs_tools.Action.Parser.{
  TestEntry, Atom, Expr, atom, unary_op, expr_op, parsed, and_then, after_arg, read_args,
  start_args, test_args, arity_fits, find_test, finish_test, parse_test, create_expr,
  create_unary_op, atom_of, step_expr, get_atom, parse_expr, expr_loop,
}
use external_squashfs_tools.Action.Dump.{dump_parse_tree, dump_args, dump_argv, token_text}

abbrev pub AllArgs : List Str → Type 0
AllArgs [] = Unit {0}
AllArgs (a ∷ argv) = IsPlain a × AllArgs argv

-- What may stand behind a tree: the text ends there, and no argument list begins.
record After (rest : Str) : Type 0 where
  ends : Ends rest
  no_args : (f : ℕ) → test_args f rest (get_token rest) ≡ parsed [] rest

After-nil : After []
unfolding test_args get_token
After-nil = record { ends = inl refl; no_args = λ f. refl }

module _ (rest : Str) where
  After-close : After (b')' ∷ rest)
  unfolding test_args
  After-close = record { ends = Ends-close rest; no_args = λ f. rw (get_token-close rest) refl }

  After-and : After (b'&' ∷ b'&' ∷ rest)
  unfolding test_args
  After-and = record { ends = Ends-and rest; no_args = λ f. rw (get_token-and rest) refl }

  After-or : After (b'|' ∷ b'|' ∷ rest)
  unfolding test_args
  After-or = record { ends = Ends-or rest; no_args = λ f. rw (get_token-or rest) refl }

-- The loop reads back the arguments behind those that it has read.
read_args-dump :
    (f : ℕ) (done : List Str) (a : Str) (argv : List Str) (rest : Str)
    → length argv < f
    → IsPlain a
    → AllArgs argv
    → read_args f done (get_token (dump_args (a ∷ argv) ++ b')' ∷ rest))
      ≡ parsed (done ++ a ∷ argv) rest
unfolding read_args after_arg dump_args
read_args-dump zero done a argv rest h p q = elim h [ ]
read_args-dump (suc f) done a [] rest h p q =
    rw (get_token-plain a (b')' ∷ rest) p (Ends-close rest), read_args)
      (rw (get_token-close rest, after_arg) refl)
read_args-dump (suc f) done a (b ∷ argv) rest h p q =
    rw
      (
        append_assoc a (b',' ∷ dump_args (b ∷ argv)) (b')' ∷ rest),
        get_token-plain a (b',' ∷ dump_args (b ∷ argv) ++ b')' ∷ rest) p (Ends-comma _),
        read_args,
      )
      (rw (get_token-comma (dump_args (b ∷ argv) ++ b')' ∷ rest), after_arg)
        (read_args-dump f (done ++ (a ∷ [])) b argv rest (omega arith) q.0 q.1
          ∙ ap (λ l. parsed l rest) (append_assoc done (a ∷ []) (b ∷ argv))))

args-first :
    (a : Str) (argv : List Str) (rest : Str)
    → IsPlain a
    → (r : Str) × (get_token (dump_args (a ∷ argv) ++ b')' ∷ rest) ≡ (string a, r))
unfolding dump_args
args-first a [] rest p = (b')' ∷ rest, get_token-plain a (b')' ∷ rest) p (Ends-close rest))
args-first a (b ∷ argv) rest p = (
  b',' ∷ dump_args (b ∷ argv) ++ b')' ∷ rest,
  ap get_token (append_assoc a (b',' ∷ dump_args (b ∷ argv)) (b')' ∷ rest))
      ∙ get_token-plain a (b',' ∷ dump_args (b ∷ argv) ++ b')' ∷ rest) p (Ends-comma _),
)

-- The bracketed arguments, from behind the bracket.
pub start_args-dump :
    (f : ℕ) (a : Str) (argv : List Str) (rest : Str)
    → length argv < f
    → IsPlain a
    → AllArgs argv
    → start_args f (get_token (dump_args (a ∷ argv) ++ b')' ∷ rest)) ≡ parsed (a ∷ argv) rest
unfolding start_args
start_args-dump f a argv rest h p q =
    let (r, first) = args-first a argv rest p in
    ap (start_args f) first
    ∙ sym (ap (read_args f []) first)
    ∙ read_args-dump f [] a argv rest h p q

test_args-dump :
    (f : ℕ) (argv : List Str) (rest : Str)
    → length argv < f
    → AllArgs argv
    → After rest
    → test_args f (dump_argv argv ++ rest) (get_token (dump_argv argv ++ rest)) ≡ parsed argv rest
unfolding test_args dump_argv
test_args-dump f [] rest h p z = z.no_args f
test_args-dump f (a ∷ argv) rest h p z =
    rw
      (
        append_assoc (dump_args (a ∷ argv)) (b')' ∷ []) rest,
        get_token-open (dump_args (a ∷ argv) ++ b')' ∷ rest),
      )
      (start_args-dump f a argv rest (omega arith) p.0 p.1)

pub Ends-argv : (argv : List Str) (rest : Str) → Ends rest → Ends (dump_argv argv ++ rest)
unfolding dump_argv
Ends-argv [] rest e = e
Ends-argv (a ∷ argv) rest e = Ends-open _

length-dump_args :
    (a : Str) (argv : List Str)
    → IsPlain a
    → AllArgs argv
    → length argv + 1 ≤ length (dump_args (a ∷ argv))
unfolding dump_args
length-dump_args a [] p q = omega (arith, p.1)
length-dump_args a (b ∷ argv) p q =
    omega (arith, length-append a (b',' ∷ dump_args (b ∷ argv)), length-dump_args b argv q.0 q.1)

pub length-dump_argv : (argv : List Str) → AllArgs argv → length argv ≤ length (dump_argv argv)
unfolding dump_argv
length-dump_argv [] q = omega arith
length-dump_argv (a ∷ argv) q =
    omega (arith, length-append (dump_args (a ∷ argv)) (b')' ∷ []), length-dump_args a argv q.0 q.1)

module _ {D : Type 0} (test_table : List TestEntry)
    (parse_args : TestEntry → List Str → Option (List Str × Option D)) (exclude : Bool) where
  -- An atom that the parser can build, whose strings need no quotes, and whose arguments the
  -- entry's own function leaves as they are.
  pub record AtomFits (a : Atom D) : Type 0 where
    pub known : find_test test_table a.test.name ≡ some a.test
    pub allowed : (exclude && not a.test.exclude_ok) ≡ false
    pub arity : arity_fits a.test.arity (length a.argv) ≡ true
    pub args : parse_args a.test a.argv ≡ some (a.argv, a.payload)
    pub name : IsPlain a.test.name
    pub plain : AllArgs a.argv

  -- A tree of such atoms under `!`, `&&` and `||`.
  abbrev pub WellFormed : Expr D → Type 0
  WellFormed (atom a) = AtomFits a
  WellFormed (unary_op e op) = (op ≡ not_op) × WellFormed e
  WellFormed (expr_op l op r) = ((op ≡ and_op) ⊎ (op ≡ or_op)) × WellFormed l × WellFormed r

  parse_test-dump :
      (f : ℕ) (a : Atom D) (rest : Str)
      → length a.argv < f
      → AtomFits a
      → After rest
      → parse_test test_table parse_args exclude f a.test.name (dump_argv a.argv ++ rest)
        ≡ parsed (atom a) rest
  unfolding parse_test finish_test
  parse_test-dump f a rest h w z =
      rw (w.known, parse_test)
        (rw w.allowed (rw (test_args-dump f a.argv rest h w.plain z) (rw w.arity (rw w.args refl))))

  -- How much fuel `get_atom` needs for the text of a tree.
  cost : Expr D → ℕ
  cost (atom a) = length a.argv + 2
  cost (unary_op e op) = suc (cost e)
  cost (expr_op l op r) = 3 + cost l + cost r

  cost-pos : (e : Expr D) → 1 ≤ cost e
  unfolding cost
  cost-pos (atom a) = omega arith
  cost-pos (unary_op e op) = omega arith
  cost-pos (expr_op l op r) = omega arith

  -- The loop behind the left operand reads the operator, the right operand and the bracket.
  loop-dump :
      (f : ℕ) (l r : Expr D) (op : Token) (rest : Str)
      → (op ≡ and_op) ⊎ (op ≡ or_op)
      → get_atom test_table parse_args exclude (suc f) (dump_parse_tree r ++ b')' ∷ rest)
        ≡ parsed r (b')' ∷ rest)
      → expr_loop test_table parse_args exclude
          (suc (suc f))
          true
          l
          (token_text op ++ (dump_parse_tree r ++ b')' ∷ rest))
        ≡ parsed (expr_op l op r) rest
  unfolding expr_loop step_expr create_expr token_text
  loop-dump f l r op rest (inl e) ih = rw e (
      rw (get_token-and (dump_parse_tree r ++ b')' ∷ rest))
        (rw ih (rw (get_token-close rest) refl)))
  loop-dump f l r op rest (inr e) ih = rw e (
      rw (get_token-or (dump_parse_tree r ++ b')' ∷ rest)) (rw ih (rw (get_token-close rest) refl)))

  After-op :
      (op : Token) (rest : Str) → (op ≡ and_op) ⊎ (op ≡ or_op) → After (token_text op ++ rest)
  unfolding token_text
  After-op op rest (inl e) = rw e (After-and rest)
  After-op op rest (inr e) = rw e (After-or rest)

  regroup :
      (l op r rest : Str)
      → (l ++ (op ++ (r ++ b')' ∷ []))) ++ rest ≡ l ++ (op ++ (r ++ b')' ∷ rest))
  regroup l op r rest = simp append_assoc

  get_atom-dump :
      (e : Expr D) (f : ℕ) (rest : Str)
      → cost e ≤ f
      → WellFormed e
      → After rest
      → get_atom test_table parse_args exclude f (dump_parse_tree e ++ rest) ≡ parsed e rest
  unfolding get_atom parse_expr atom_of create_unary_op dump_parse_tree cost token_text
  get_atom-dump (atom a) zero rest h w z = absurd (omega arith)
  get_atom-dump (atom a) (suc f) rest h w z =
      rw
        (
          append_assoc a.test.name (dump_argv a.argv) rest,
          get_token-plain a.test.name (dump_argv a.argv ++ rest) w.name
              (Ends-argv a.argv rest z.ends),
        )
        (parse_test-dump f a rest (omega arith) w z)
  get_atom-dump (unary_op e op) zero rest h w z = absurd (omega arith)
  get_atom-dump (unary_op e op) (suc f) rest h w z = rw w.0 (
      rw (get_token-not (dump_parse_tree e ++ rest))
        (rw (get_atom-dump e f rest (omega arith) w.1 z) refl))
  get_atom-dump (expr_op l op r) zero rest h w z = absurd (omega arith)
  get_atom-dump (expr_op l op r) (suc zero) rest h w z = absurd (omega arith)
  get_atom-dump (expr_op l op r) (suc (suc zero)) rest h w z = absurd (omega arith)
  get_atom-dump (expr_op l op r) (suc (suc (suc zero))) rest h w z =
      absurd (omega (arith, cost-pos l))
  get_atom-dump (expr_op l op r) (suc (suc (suc (suc f)))) rest h w z =
      rw (regroup (dump_parse_tree l) (token_text op) (dump_parse_tree r) rest) (
        rw
          (get_token-open
            (dump_parse_tree l ++ (token_text op ++ (dump_parse_tree r ++ b')' ∷ rest))))
          (ap (λ p. and_then p (expr_loop test_table parse_args exclude (suc (suc f)) true))
              (get_atom-dump l (suc (suc f)) (token_text op ++ (dump_parse_tree r ++ b')' ∷ rest))
                (omega (arith, cost-pos r)) w.1 (After-op op _ w.0))
            ∙ loop-dump f l r op rest w.0 (
                get_atom-dump r (suc f) (b')' ∷ rest) (omega (arith, cost-pos l)) w.2
                  (After-close rest))))

  cost-le : (e : Expr D) → WellFormed e → cost e ≤ 2 * length (dump_parse_tree e)
  unfolding cost dump_parse_tree token_text
  cost-le (atom a) w = omega (
    arith,
    length-append a.test.name (dump_argv a.argv),
    length-dump_argv a.argv w.plain,
    w.name.1,
  )
  cost-le (unary_op e op) w = rw w.0 (omega (arith, cost-le e w.1))
  cost-le (expr_op l op r) w = omega (
    arith,
    cost-le l w.1,
    cost-le r w.2,
    length-append (dump_parse_tree l) (token_text op ++ (dump_parse_tree r ++ b')' ∷ [])),
    length-append (token_text op) (dump_parse_tree r ++ b')' ∷ []),
    length-append (dump_parse_tree r) (b')' ∷ []),
  )

  -- Parsing the text that `dump_parse_tree` prints for a tree of `!`, `&&` and `||` over known tests,
  -- whose names and arguments have no special byte, gives back that tree and reads the whole text.
  -- Fuel of twice the text's length and two is enough.
  pub parse_expr-dump :
      (e : Expr D) (f : ℕ)
      → 2 * length (dump_parse_tree e) + 2 ≤ f
      → WellFormed e
      → parse_expr test_table parse_args exclude f false (dump_parse_tree e) ≡ parsed e []
  unfolding parse_expr expr_loop step_expr get_token
  parse_expr-dump e zero h w = absurd (omega arith)
  parse_expr-dump e (suc zero) h w = absurd (omega arith)
  parse_expr-dump e (suc (suc f)) h w =
      ap (λ p. and_then p (expr_loop test_table parse_args exclude (suc f) false))
        (ap (get_atom test_table parse_args exclude (suc f)) (sym (append-nil (dump_parse_tree e)))
          ∙ get_atom-dump e (suc f) [] (omega (arith, cost-le e w)) w After-nil)
