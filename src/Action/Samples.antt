-- ===== src/Action/Samples.antt =====
-- Sample trees and actions for the tests.
use external_squashfs_tools.Common.{ℕ, true, false, Option, none, some, List, [], ◌∷◌}
use external_squashfs_tools.Action.Lexer.{Str, and_op, not_op, codes}
use external_squashfs_tools.Action.Parser.{TestEntry, Atom, Expr, atom, unary_op, expr_op}
use external_squashfs_tools.Action.Table.{ActionEntry, exclude_action, action_all_lnk}
use external_squashfs_tools.Action.Specs.{Action, Specs}

-- No entry of these tests has a function for its arguments.
abbrev pub plain_args : TestEntry → List Str → Option (List Str × Option ℕ)
plain_args t argv = some (argv, none)

abbrev pub name_entry : TestEntry
name_entry = record {
  name = codes "name";
  arity = some 1;
  exclude_ok = true;
  handle_logging = false;
}

abbrev pub true_entry : TestEntry
true_entry = record {
  name = codes "true";
  arity = some 0;
  exclude_ok = true;
  handle_logging = false;
}

abbrev pub name_atom : Atom ℕ
name_atom = record { test = name_entry; argv = codes "a.o" ∷ []; payload = none }

abbrev pub true_atom : Atom ℕ
true_atom = record { test = true_entry; argv = []; payload = none }

-- `(name(a.o)&&!true)`
abbrev pub tree : Expr ℕ
tree = expr_op (atom name_atom) and_op (unary_op (atom true_atom) not_op)

abbrev pub exclude_entry : ActionEntry
exclude_entry = record {
  name = codes "exclude";
  type = exclude_action;
  arity = some 0;
  file_types = action_all_lnk;
}

abbrev pub exclude : Action ℕ ℕ
exclude = record {
  entry = exclude_entry;
  argv = [];
  expr = tree;
  payload = none;
  verbose = record { log_true = true; log_false = false };
}

abbrev pub no_specs : Specs ℕ ℕ
no_specs = record {
  fragment_spec = [];
  exclude_spec = [];
  empty_spec = [];
  move_spec = [];
  prune_spec = [];
  other_spec = [];
}

abbrev pub no_args : ActionEntry → List Str → Option (Option ℕ)
no_args a argv = some none
