-- ===== src/Action/Specs.antt =====
-- The actions that have been parsed, and the parser of one action: `parse_action` of
-- squashfs-tools/action.c.
pub mod Text
pub mod Select
use external_squashfs_tools.Common.{
  ℕ, Bool, true, false, Option, none, some, List, [], ◌∷◌, ◌++◌, if◌then◌else◌, str_eq, length,
}
use external_squashfs_tools.Action.Lexer.{Str, Token, open_bracket, at, string, get_token}
use external_squashfs_tools.Action.Parser.{
  TestEntry, Expr, Parsed, parsed, null, out_of_fuel, and_then, start_args, arity_fits, parse_expr,
}
use external_squashfs_tools.Action.Table.{
  ActionType, ActionEntry, fragment_action, exclude_action, empty_action, move_action, prune_action,
}

-- The bits ACTION_LOG_TRUE and ACTION_LOG_FALSE.
pub record Verbose : Type 0 where
  pub log_true : Bool
  pub log_false : Bool

-- `struct action`; `E` is what `data` points to.
pub record Action (D E : Type 0) : Type 0 where
  pub entry : ActionEntry
  pub argv : List Str
  pub expr : Expr D
  pub payload : Option E
  pub verbose : Verbose

-- The six arrays. Each count of the source is its array's length.
pub record Specs (D E : Type 0) : Type 0 where
  pub fragment_spec : List (Action D E)
  pub exclude_spec : List (Action D E)
  pub empty_spec : List (Action D E)
  pub move_spec : List (Action D E)
  pub prune_spec : List (Action D E)
  pub other_spec : List (Action D E)

module _ {D E : Type 0} where
  -- The choice of the list, and the write to its new last place.
  pub add_spec : ActionType → Action D E → Specs D E → Specs D E
  add_spec fragment_action a s = record s { fragment_spec = s.fragment_spec ++ (a ∷ []) }
  add_spec exclude_action a s = record s { exclude_spec = s.exclude_spec ++ (a ∷ []) }
  add_spec empty_action a s = record s { empty_spec = s.empty_spec ++ (a ∷ []) }
  add_spec move_action a s = record s { move_spec = s.move_spec ++ (a ∷ []) }
  add_spec prune_action a s = record s { prune_spec = s.prune_spec ++ (a ∷ []) }
  add_spec _ a s = record s { other_spec = s.other_spec ++ (a ∷ []) }

unfoldable pub find_action : List ActionEntry → Str → Option ActionEntry
find_action [] name = none
find_action (a ∷ as_) name = if str_eq name a.name then some a else find_action as_ name

-- `parsing_action->type == EXCLUDE_ACTION`.
unfoldable pub is_exclude : ActionType → Bool
is_exclude exclude_action = true
is_exclude _ = false

-- The arguments, and whether TOK_AT has been read already.
pub action_args : ℕ → Token × Str → Parsed (List Str × Bool)
action_args f (at, cur) = parsed ([], true) cur
action_args f (open_bracket, cur) =
    and_then (start_args f (get_token cur)) (λ argv rest. parsed (argv, false) rest)
action_args f _ = null

-- `if (token == TOK_CLOSE_BRACKET) token = get_token(…); if (token != TOK_AT) …`
pub expect_at : Token × Str → Parsed (Unit {0})
expect_at (at, cur) = parsed tt cur
expect_at _ = null

pub find_at : Bool → Str → Parsed (Unit {0})
find_at true cur = parsed tt cur
find_at false cur = expect_at (get_token cur)

-- `parse_args` is the call through the action's pointer; without one it is `λ a argv. some none`.
module _ {D E : Type 0} (action_table : List ActionEntry) (test_table : List TestEntry)
    (parse_test_args : TestEntry → List Str → Option (List Str × Option D))
    (parse_args : ActionEntry → List Str → Option (Option E)) where
  pub finish_action : ℕ → Verbose → ActionEntry → List Str × Bool → Str → Parsed (Action D E)
  finish_action f verbose a (argv, seen) cur =
      if arity_fits a.arity (length argv)
      then elim (parse_args a argv) [
        | none ↦ null
        | some d ↦ and_then (find_at seen cur) (λ _ rest.
            and_then (parse_expr test_table parse_test_args (is_exclude a.type) f false rest)
              (λ e end.
                parsed (record { entry = a; argv = argv; expr = e; payload = d; verbose = verbose })
                  end))
      ]
      else null

  pub named_action : ℕ → Verbose → Token × Str → Parsed (Action D E)
  named_action f verbose (string name, cur) = elim (find_action action_table name) [
    | none ↦ null
    | some a ↦ and_then (action_args f (get_token cur)) (finish_action f verbose a)
  ]
  named_action f verbose _ = null

  abbrev stored : Specs D E → Parsed (Action D E) → Option (Specs D E)
  stored s (parsed a cur) = some (add_spec a.entry.type a s)
  stored s null = none
  stored s out_of_fuel = none

  -- `none` is the return value 0; nothing is stored then.
  pub parse_action : ℕ → Str → Verbose → Specs D E → Option (Specs D E)
  parse_action f text verbose s = stored s (named_action f verbose (get_token text))
