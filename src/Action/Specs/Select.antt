-- ===== src/Action/Specs/Select.antt =====
-- Which actions apply to a file: `eval_expr_top` and the loops over the lists of actions in
-- squashfs-tools/action.c.
pub mod Meaning
use external_squashfs_tools.Common.{
  ℕ, ◌+◌, Bool, true, false, not, ◌&&◌, ◌||◌, Option, none, some, List, [], ◌∷◌, ◌++◌, ◌==◌,
  if◌then◌else◌,
}
use external_squashfs_tools.Action.Lexer.{Str}
use external_squashfs_tools.Action.Parser.{Atom}
use external_squashfs_tools.Action.Log.{Log, log_enable, log_disable, expr_log, log_argv}
use external_squashfs_tools.Action.Eval.{Outcome, eval_expr, eval_expr_log}
use external_squashfs_tools.Action.Table.{FileType, FileTypes, file_type_match}
use external_squashfs_tools.Action.Specs.{Action, Verbose}

-- The log, the file with all else that tests read and actions change, and the messages printed so
-- far.
pub record World (S : Type 0) : Type 0 where
  pub log : Log
  pub state : S
  pub printed : List (Option (List ℕ))

-- What an empty action asks for: EMPTY_ALL, EMPTY_SOURCE, EMPTY_EXCLUDED.
pub data EmptyVal : Type 0 where
  empty_all empty_source empty_excluded : EmptyVal

-- `(val == EMPTY_EXCLUDED && !dir->excluded) || (val == EMPTY_SOURCE && dir->excluded)`
pub wrong_cause : EmptyVal → (excluded : Bool) → Bool
wrong_cause empty_all excluded = false
wrong_cause empty_source excluded = excluded
wrong_cause empty_excluded excluded = not excluded

-- What `eval_frag_actions` and `get_frag_action` return: `&def_fragment` or `&fragment_spec[i].data`.
pub data FragPtr : Type 0 where
  def_fragment : FragPtr
  spec : ℕ → FragPtr

-- `get_frag_action`, with `fragment_count` and NULL as `none`.
pub get_frag_action : (fragment_count : ℕ) → Option FragPtr → Option FragPtr
get_frag_action n none = some def_fragment
get_frag_action n (some def_fragment) =
    if n == 0 then none else if 0 == n then none else some (spec 0)
get_frag_action n (some (spec i)) =
    if n == 0 then none else if i + 1 == n then none else some (spec (i + 1))

log_subpath : Option Str → Log → Log
log_subpath none l = l
log_subpath (some s) l = expr_log s l

-- The message up to `@`.
log_head : {D E : Type 0} → Option Str → Action D E → Log → Log
unfolding log_subpath
log_head subpath a l = expr_log (b'@' ∷ []) (
    log_argv a.argv
      (expr_log a.entry.name (expr_log (b'=' ∷ []) (log_subpath subpath (log_enable l)))))

is_shown : Verbose → Bool → Bool
is_shown v match = (match && v.log_true) || (not match && v.log_false)

module _ {D E S : Type 0} (fn : Atom D → Log → S → Outcome S) (subpath : Option Str) where
  pub eval_expr_top : Action D E → World S → Bool × World S
  unfolding is_shown log_head
  eval_expr_top a w =
      if a.verbose.log_true || a.verbose.log_false
      then (let (match, l, s) = eval_expr_log fn a.expr (log_head subpath a w.log) w.state in
          let out = expr_log [] l in
          (
            match,
            record {
              log = log_disable out;
              state = s;
              printed = if is_shown a.verbose match then w.printed ++ (out.msg ∷ []) else w.printed;
            },
          ))
      else (let (match, l, s) = eval_expr fn a.expr w.log w.state in
          (match, record w { log = l; state = s }))

  -- The loops of `eval_exclude_actions` and of `eval_prune_actions`: up to the first match.
  pub eval_until : List (Action D E) → World S → Bool × World S
  eval_until [] w = (false, w)
  eval_until (a ∷ as_) w =
      let (match, w') = eval_expr_top a w in if match then (true, w') else eval_until as_ w'

  pub eval_empty : (excluded : Bool) → List (Action D E × EmptyVal) → World S → Bool × World S
  eval_empty excluded [] w = (false, w)
  eval_empty excluded ((a, val) ∷ as_) w =
      let (match, w') = if wrong_cause val excluded then (false, w) else eval_expr_top a w in
      if match then (true, w') else eval_empty excluded as_ w'

  -- `count` is `dir->count`, `excluded` is `dir->excluded`.
  pub eval_empty_actions :
      (count : ℕ) (excluded : Bool) → List (Action D E × EmptyVal) → World S → Bool × World S
  eval_empty_actions count excluded as_ w =
      if count == 0 then eval_empty excluded as_ w else (false, w)

  -- `eval_frag_actions`, from action `i` on.
  pub eval_frag : ℕ → List (Action D E) → World S → FragPtr × World S
  eval_frag i [] w = (def_fragment, w)
  eval_frag i (a ∷ as_) w =
      let (match, w') = eval_expr_top a w in
      if match then (spec i, w') else eval_frag (i + 1) as_ w'

  -- `eval_actions`: every action that is for this type of file and matches is run, in order.
  pub consider : FileType → Action D E → World S → Bool × World S
  consider ty a w = if file_type_match ty a.entry.file_types then eval_expr_top a w else (false, w)

  -- `run_action` changes `dir_ent` and its inode's `buf`, which are the file's part of the state and
  -- which the later tests read through `action_data`.
  pub eval_actions :
      (run_action : Action D E → S → S) → FileType → List (Action D E) → World S → World S
  eval_actions run ty [] w = w
  eval_actions run ty (a ∷ as_) w =
      let (match, w') = consider ty a w in
      eval_actions run ty as_ (if match then record w' { state = run a w'.state } else w')
