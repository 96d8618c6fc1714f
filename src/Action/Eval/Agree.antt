-- ===== src/Action/Eval/Agree.antt =====
-- The evaluation that logs gives the answers of the one that does not, and both give the meaning.
use external_squashfs_tools.Common.{
  ◌≡◌, refl, sym, ap, ◌∙◌, inl, inr, Bool, true, false, not, ◌&&◌, ◌||◌, [], ◌∷◌, if◌then◌else◌,
  Bool-cases,
}
use external_squashfs_tools.Action.Lexer.{Token, and_op, or_op}
use external_squashfs_tools.Action.Parser.{Atom, Expr, atom, unary_op, expr_op}
use external_squashfs_tools.Action.Log.{Log, expr_log, expr_log_atom}
use external_squashfs_tools.Action.Log.Buffer.{
  Fits, expr_log-Fits, expr_log_atom-Fits, expr_log_match-Fits,
}
use external_squashfs_tools.Action.Dump.{token_text}
use external_squashfs_tools.Action.Eval.{
  Outcome, is_and, is_or, needs_rhs, eval_expr, eval_expr_log,
}

-- The meaning of a tree, if each test is a fact about the file.
pub denote : {D : Type 0} → (Atom D → Bool) → Expr D → Bool
denote p (atom a) = p a
denote p (unary_op e op) = not (denote p e)
denote p (expr_op l op r) =
    if is_and op
    then denote p l && denote p r
    else if is_or op
    then denote p l || denote p r
    else denote p l

join :
    {S : Type 0} (op : Token) (a b : Bool) (l : Log) (s : S)
    → ◌≡◌ {A = Outcome S}
        (if needs_rhs op a then (b, l, s) else (a, l, s))
        ((if is_and op then a && b else if is_or op then a || b else a), l, s)
unfolding needs_rhs is_and is_or
join and_op true b l s = refl
join and_op false b l s = refl
join or_op true b l s = refl
join or_op false b l s = refl
join _ a b l s = refl

join_match :
    (op : Token) (a b : Bool)
    → (if needs_rhs op a then b else a)
      ≡ (if is_and op then a && b else if is_or op then a || b else a)
unfolding needs_rhs is_and is_or
join_match and_op true b = refl
join_match and_op false b = refl
join_match or_op true b = refl
join_match or_op false b = refl
join_match _ a b = refl

module _ {D S : Type 0} (fn : Atom D → Log → S → Outcome S) where
  -- Tests do not read the log: with another log they give the same match and the same effects.
  abbrev pub IgnoresLog : Type 0
  IgnoresLog =
      (a : Atom D) (l l' : Log) (s : S)
      → ((fn a l s).0 ≡ (fn a l' s).0) × ((fn a l s).2 ≡ (fn a l' s).2)

  agree :
      IgnoresLog
      → (e : Expr D) (l l' : Log) (s : S)
      → ((eval_expr_log fn e l s).0 ≡ (eval_expr fn e l' s).0)
        × ((eval_expr_log fn e l s).2 ≡ (eval_expr fn e l' s).2)
  unfolding eval_expr eval_expr_log
  agree i (atom a) l l' s = i a _ l' s
  agree i (unary_op e op) l l' s = let h = agree i e _ l' s in (ap not h.0, h.1)
  agree i (expr_op x op y) l l' s =
      let hx = agree i x (expr_log (b'(' ∷ []) l) l' s in
      rw (hx.0, hx.1, eval_expr, eval_expr_log)
        (elim (Bool-cases (needs_rhs op (eval_expr fn x l' s).0)) [
          | inl r ↦ rw r (agree i y _ (eval_expr fn x l' s).1 (eval_expr fn x l' s).2)
          | inr k ↦ rw k (refl, refl)
        ])

  -- If no test reads the log, a verbose action decides as the same action does silently, and has the
  -- same effects, whatever the two logs hold.
  pub eval_expr_log-eval_expr :
      (e : Expr D) (l l' : Log) (s : S)
      → IgnoresLog
      → ((eval_expr_log fn e l s).0 ≡ (eval_expr fn e l' s).0)
        × ((eval_expr_log fn e l s).2 ≡ (eval_expr fn e l' s).2)
  eval_expr_log-eval_expr e l l' s i = agree i e l l' s

  -- If every test keeps the message inside its buffer, so does the evaluation that logs.
  pub eval_expr_log-Fits :
      (e : Expr D) (l : Log) (s : S)
      → ((a : Atom D) (m : Log) (s' : S) → Fits m → Fits (fn a m s').1)
      → Fits l
      → Fits (eval_expr_log fn e l s).1
  unfolding eval_expr_log
  eval_expr_log-Fits (atom a) l s k h =
      expr_log_match-Fits (fn a (expr_log_atom a l) s).0 _ (k a _ s (expr_log_atom-Fits a l h))
  eval_expr_log-Fits (unary_op e op) l s k h =
      eval_expr_log-Fits e _ s k (expr_log-Fits (b'!' ∷ []) l h)
  eval_expr_log-Fits (expr_op x op y) l s k h =
      let hx = eval_expr_log-Fits x _ s k (expr_log-Fits (b'(' ∷ []) l h) in
      elim (Bool-cases (needs_rhs op (eval_expr_log fn x (expr_log (b'(' ∷ []) l) s).0)) [
        | inl r ↦
            rw (r, eval_expr_log)
              (expr_log-Fits (b')' ∷ []) _ (
                eval_expr_log-Fits y _ (eval_expr_log fn x (expr_log (b'(' ∷ []) l) s).2 k
                  (expr_log-Fits (token_text op) _ hx)))
        | inr n ↦ rw (n, eval_expr_log) (expr_log-Fits (b')' ∷ []) _ hx)
      ]

  -- Where every test only states a fact about the file, an expression evaluates to its Boolean
  -- meaning, and changes neither the log nor the state.
  pub eval_expr-denote :
      (p : Atom D → Bool) (e : Expr D) (l : Log) (s : S)
      → ((a : Atom D) (m : Log) (s' : S) → fn a m s' ≡ (p a, m, s'))
      → eval_expr fn e l s ≡ (denote p e, l, s)
  unfolding eval_expr denote
  eval_expr-denote p (atom a) l s h = h a l s
  eval_expr-denote p (unary_op e op) l s h = rw (eval_expr-denote p e l s h) refl
  eval_expr-denote p (expr_op x op y) l s h =
      rw (eval_expr-denote p x l s h, eval_expr)
        (rw (eval_expr-denote p y l s h) (join op (denote p x) (denote p y) l s))

-- Every test answers as `p` does of the state, which it leaves as it is. It may write to the log.
abbrev pub Reads : {D S : Type 0} → (Atom D → Log → S → Outcome S) → (S → Atom D → Bool) → Type 0
Reads fn p = (a : Atom _) (l : Log) (s : _) → ((fn a l s).0 ≡ p s a) × ((fn a l s).2 ≡ s)

module _ {D S : Type 0} (fn : Atom D → Log → S → Outcome S) (p : S → Atom D → Bool)
    (facts : Reads fn p) where
  pub Reads→IgnoresLog : IgnoresLog fn
  Reads→IgnoresLog a l l' s =
      ((facts a l s).0 ∙ sym (facts a l' s).0, (facts a l s).1 ∙ sym (facts a l' s).1)

  pub eval_expr-Reads :
      (e : Expr D) (l : Log) (s : S)
      → ((eval_expr fn e l s).0 ≡ denote (p s) e) × ((eval_expr fn e l s).2 ≡ s)
  unfolding eval_expr denote
  eval_expr-Reads (atom a) l s = facts a l s
  eval_expr-Reads (unary_op e op) l s = let h = eval_expr-Reads e l s in (ap not h.0, h.1)
  eval_expr-Reads (expr_op x op y) l s =
      let h = eval_expr-Reads x l s in
      let l' = (eval_expr fn x l s).1 in
      let a = denote (p s) x in
      let b = denote (p s) y in
      let j = join_match op a b in
      rw (h.0, h.1, eval_expr)
        (elim (Bool-cases (needs_rhs op a)) [
          | inl r ↦
              let k = eval_expr-Reads y l' s in
              rw r (k.0 ∙ sym (ap (λ z. if z then b else a) r) ∙ j, k.1)
          | inr r ↦ rw r (sym (ap (λ z. if z then b else a) r) ∙ j, refl)
        ])
