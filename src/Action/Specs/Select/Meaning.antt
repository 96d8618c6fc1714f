-- ===== src/Action/Specs/Select/Meaning.antt =====
-- What the loops select, where every test is a question about the file's state.
use external_squashfs_tools.Common.{
  ℕ, zero, suc, ◌+◌, ◌<◌, ◌≡◌, refl, ap, ◌∙◌, inl, inr, Bool, true, false, not, ◌&&◌, ◌||◌, Option,
  none, some, List, [], ◌∷◌, arith, ◌==◌, if◌then◌else◌, Bool-cases,
}
use external_squashfs_tools.Action.Lexer.{Str}
use external_squashfs_tools.Action.Parser.{Atom}
use external_squashfs_tools.Action.Log.{Log}
use external_squashfs_tools.Action.Eval.{Outcome}
use external_squashfs_tools.Action.Eval.Agree.{
  denote, Reads, Reads→IgnoresLog, eval_expr-Reads, eval_expr_log-eval_expr,
}
use external_squashfs_tools.Action.Table.{FileType, file_type_match}
use external_squashfs_tools.Action.Specs.{Action}
use external_squashfs_tools.Action.Specs.Select.{
  World, EmptyVal, empty_all, empty_source, empty_excluded, wrong_cause, FragPtr, def_fragment,
  spec, get_frag_action, eval_expr_top, eval_until, eval_empty, eval_empty_actions, eval_frag,
  consider, eval_actions,
}

pub any_match : {D E : Type 0} → (Atom D → Bool) → List (Action D E) → Bool
any_match p [] = false
any_match p (a ∷ as_) = denote p a.expr || any_match p as_

pub first_match : {D E : Type 0} → (Atom D → Bool) → ℕ → List (Action D E) → FragPtr
first_match p i [] = def_fragment
first_match p i (a ∷ as_) = if denote p a.expr then spec i else first_match p (i + 1) as_

-- Whether an empty directory is empty for the cause that the action names: EMPTY_ALL any, EMPTY_SOURCE
-- that it was empty in the source, EMPTY_EXCLUDED that excluding files emptied it.
pub right_cause : EmptyVal → (excluded : Bool) → Bool
right_cause empty_all excluded = true
right_cause empty_source true = false
right_cause empty_source false = true
right_cause empty_excluded excluded = excluded

pub any_cause : {D E : Type 0} → (Atom D → Bool) → Bool → List (Action D E × EmptyVal) → Bool
any_cause p excluded [] = false
any_cause p excluded ((a, val) ∷ as_) =
    (right_cause val excluded && denote p a.expr) || any_cause p excluded as_

-- The file type decides first, then the expression.
pub applies : {D E : Type 0} → (Atom D → Bool) → FileType → Action D E → Bool
applies p ty a = file_type_match ty a.entry.file_types && denote p a.expr

-- Each action is decided in the state that the actions before it left.
pub run_matching :
    {D E S : Type 0}
    → (S → Atom D → Bool)
    → (Action D E → S → S)
    → FileType
    → List (Action D E)
    → S
    → S
run_matching p run ty [] s = s
run_matching p run ty (a ∷ as_) s =
    run_matching p run ty as_ (if applies (p s) ty a then run a s else s)

wrong-right :
    (val : EmptyVal) (excluded : Bool) → wrong_cause val excluded ≡ not (right_cause val excluded)
unfolding wrong_cause right_cause
wrong-right empty_all excluded = refl
wrong-right empty_source true = refl
wrong-right empty_source false = refl
wrong-right empty_excluded excluded = refl

ran :
    {S : Type 0} (f : S → S) (b c : Bool) (w : World S) (s : S)
    → b ≡ c
    → w.state ≡ s
    → (if b then record w { state = f w.state } else w).state ≡ (if c then f s else s)
ran f true c w s h e = ap f e ∙ ap (λ z. if z then f s else s) h
ran f false c w s h e = e ∙ ap (λ z. if z then f s else s) h

module _ {D E S : Type 0} (fn : Atom D → Log → S → Outcome S) (subpath : Option Str)
    (p : S → Atom D → Bool) (facts : Reads fn p) where
  top_match :
      (a : Action D E) (w : World S)
      → ((eval_expr_top fn subpath a w).0 ≡ denote (p w.state) a.expr)
        × ((eval_expr_top fn subpath a w).1.state ≡ w.state)
  unfolding eval_expr_top
  top_match a w =
      let r = eval_expr-Reads fn p facts a.expr w.log w.state in
      elim (Bool-cases (a.verbose.log_true || a.verbose.log_false)) [
        | inl y ↦
            let v =
              eval_expr_log-eval_expr fn a.expr _ w.log w.state (Reads→IgnoresLog fn p facts) in
            rw y (v.0 ∙ r.0, v.1 ∙ r.1)
        | inr n ↦ rw n r
      ]

  -- If every test answers from the state alone, whatever it logs, and leaves the state as it is:
  -- `eval_exclude_actions` and `eval_prune_actions` answer yes exactly when the expression of some
  -- action holds in the state, whether the actions are verbose or not.
  pub eval_until-any :
      (as_ : List (Action D E)) (w : World S)
      → (eval_until fn subpath as_ w).0 ≡ any_match (p w.state) as_
  unfolding eval_until any_match
  eval_until-any [] w = refl
  eval_until-any (a ∷ as_) w =
      let t = top_match a w in
      let r =
        eval_until-any as_ (eval_expr_top fn subpath a w).1 ∙ ap (λ s. any_match (p s) as_) t.1 in
      ground (arith, t.0, r)

  -- If every test answers from the state alone, whatever it logs, and leaves the state as it is:
  -- `eval_frag_actions` finds the first fragment action, if there is one, whose expression holds in
  -- the state.
  pub eval_frag-first :
      (i : ℕ) (as_ : List (Action D E)) (w : World S)
      → (eval_frag fn subpath i as_ w).0 ≡ first_match (p w.state) i as_
  unfolding eval_frag first_match
  eval_frag-first i [] w = refl
  eval_frag-first i (a ∷ as_) w =
      let t = top_match a w in
      let r =
        eval_frag-first (i + 1) as_ (eval_expr_top fn subpath a w).1
        ∙ ap (λ s. first_match (p s) (i + 1) as_) t.1 in
      ground (arith, t.0, r)

  empty_any :
      (excluded : Bool) (as_ : List (Action D E × EmptyVal)) (w : World S)
      → (eval_empty fn subpath excluded as_ w).0 ≡ any_cause (p w.state) excluded as_
  unfolding eval_empty any_cause
  empty_any excluded [] w = refl
  empty_any excluded ((a, val) ∷ as_) w =
      let e = wrong-right val excluded in
      elim (Bool-cases (right_cause val excluded)) [
        | inl y ↦
            let t = top_match a w in
            let r =
              empty_any excluded as_ (eval_expr_top fn subpath a w).1
              ∙ ap (λ s. any_cause (p s) excluded as_) t.1 in
            rw (e, y) (ground (arith, t.0, r))
        | inr n ↦ rw (e, n) (empty_any excluded as_ w)
      ]

  -- If every test answers from the state alone, whatever it logs, and leaves the state as it is:
  -- `eval_empty_actions` answers yes exactly for an empty directory of which some action holds whose
  -- cause fits: empty from the start for EMPTY_SOURCE, emptied by excluding for EMPTY_EXCLUDED, and
  -- either for EMPTY_ALL.
  pub eval_empty_actions-any :
      (count : ℕ) (excluded : Bool) (as_ : List (Action D E × EmptyVal)) (w : World S)
      → (eval_empty_actions fn subpath count excluded as_ w).0
        ≡ ((count == 0) && any_cause (p w.state) excluded as_)
  unfolding eval_empty_actions
  eval_empty_actions-any count excluded as_ w = ground (arith, empty_any excluded as_ w)

  consider_match :
      (ty : FileType) (a : Action D E) (w : World S)
      → ((consider fn subpath ty a w).0 ≡ applies (p w.state) ty a)
        × ((consider fn subpath ty a w).1.state ≡ w.state)
  unfolding consider applies
  consider_match ty a w = elim (Bool-cases (file_type_match ty a.entry.file_types)) [
    | inl y ↦ rw y (top_match a w)
    | inr n ↦ rw n (refl, refl)
  ]

  -- If every test answers from the state alone, whatever it logs, and leaves the state as it is:
  -- `eval_actions` runs, in the order of the list, exactly the actions that are for the file's type
  -- and whose expression holds in the state that the actions run before left.
  pub eval_actions-runs :
      (run : Action D E → S → S) (ty : FileType) (as_ : List (Action D E)) (w : World S)
      → (eval_actions fn subpath run ty as_ w).state ≡ run_matching p run ty as_ w.state
  unfolding eval_actions run_matching
  eval_actions-runs run ty [] w = refl
  eval_actions-runs run ty (a ∷ as_) w =
      let (m, e) = consider_match ty a w in
      eval_actions-runs run ty as_ _
      ∙ ap (run_matching p run ty as_) (ran (run a) _ _ (consider fn subpath ty a w).1 w.state m e)

-- Calling `get_frag_action` again and again, from NULL, gives the default fragment and then each
-- fragment action once, in order, and then NULL.
pub chain : (fragment_count fuel : ℕ) → Option FragPtr → List FragPtr
chain n zero q = []
chain n (suc fuel) q = elim (get_frag_action n q) [ none ↦ [] | some r ↦ r ∷ chain n fuel (some r) ]

pub specs_from : (i k : ℕ) → List FragPtr
specs_from i zero = []
specs_from i (suc k) = spec i ∷ specs_from (i + 1) k

get_frag_action-next :
    (n i : ℕ) → i + 1 < n → get_frag_action n (some (spec i)) ≡ some (spec (i + 1))
unfolding get_frag_action
get_frag_action-next n i h = ground arith

get_frag_action-last : (n i : ℕ) → i + 1 ≡ n → get_frag_action n (some (spec i)) ≡ none
unfolding get_frag_action
get_frag_action-last n i h = ground arith

chain-specs :
    (n i k fuel : ℕ)
    → i + 1 + k ≡ n
    → k < fuel
    → chain n fuel (some (spec i)) ≡ specs_from (i + 1) k
unfolding chain specs_from
chain-specs n i k zero e h = elim h [ ]
chain-specs n i zero (suc fuel) e h = rw (get_frag_action-last n i (omega arith), chain) refl
chain-specs n i (suc k) (suc fuel) e h =
    rw (get_frag_action-next n i (omega arith), chain)
      (ap (λ l. spec (i + 1) ∷ l) (chain-specs n (i + 1) k fuel (omega arith) (omega arith)))

get_frag_action-first : (n : ℕ) → 0 < n → get_frag_action n (some def_fragment) ≡ some (spec 0)
unfolding get_frag_action
get_frag_action-first n h = ground arith

get_frag_action-null : (n : ℕ) → get_frag_action n none ≡ some def_fragment
unfolding get_frag_action
get_frag_action-null n = refl

get_frag_action-empty : get_frag_action 0 (some def_fragment) ≡ none
unfolding get_frag_action
get_frag_action-empty = refl

-- Called again and again from NULL, with some rounds more than there are actions, `get_frag_action`
-- gives the default fragment and then each fragment action once, in order, and then ends.
pub get_frag_action-chain :
    (n fuel : ℕ) → n + 1 < fuel → chain n fuel none ≡ def_fragment ∷ specs_from 0 n
unfolding chain specs_from
get_frag_action-chain n zero h = absurd (omega arith)
get_frag_action-chain n (suc zero) h = absurd (omega arith)
get_frag_action-chain zero (suc (suc fuel)) h =
    rw (get_frag_action-null 0, chain) (rw (get_frag_action-empty, chain) refl)
get_frag_action-chain (suc n) (suc (suc fuel)) h =
    rw (get_frag_action-null (suc n), chain)
      (ap (λ l. def_fragment ∷ l)
        (rw (get_frag_action-first (suc n) (omega arith), chain)
          (ap (λ l. spec 0 ∷ l) (chain-specs (suc n) 0 n fuel (omega arith) (omega arith)))))
