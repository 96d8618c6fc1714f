-- ===== src/Action/Tests.antt =====
-- Runs of the action language on concrete texts, and its theorems at concrete inputs.
use external_squashfs_tools.Common.{
  ℕ, ◌+◌, ◌≡◌, refl, inl, Bool, true, false, none, some, [], ◌∷◌, ◌++◌, arith, ◌==◌, if◌then◌else◌,
}
use external_squashfs_tools.Action.Lexer.{codes}
use external_squashfs_tools.Action.Parser.{arity_fits, find_test, Atom, parsed, parse_expr}
use external_squashfs_tools.Action.Parser.Total.{Within, parse_expr-total}
use external_squashfs_tools.Action.Parser.Roundtrip.{AtomFits, WellFormed, parse_expr-dump}
use external_squashfs_tools.Action.Dump.{dump_parse_tree, token_text, dump_argv, dump_args}
use external_squashfs_tools.Action.Samples.{
  plain_args, name_atom, true_atom, tree, exclude, no_specs, no_args,
}
use external_squashfs_tools.Action.Log.{Log, expr_log}
use external_squashfs_tools.Action.Log.Buffer.{Fits}
use external_squashfs_tools.Action.Eval.{Outcome, eval_expr, eval_expr_log}
use external_squashfs_tools.Action.Eval.Agree.{
  denote, eval_expr_log-eval_expr, eval_expr_log-Fits, eval_expr-denote,
}
use external_squashfs_tools.Action.Table.{test_table, action_table, regular, exclude_action}
use external_squashfs_tools.Action.Specs.{Specs, is_exclude, find_action, parse_action}
use external_squashfs_tools.Action.Specs.Text.{
  ArrayOf, array, array_of, array_eq, ActionFits, action_text, parse_action-text,
}
use external_squashfs_tools.Action.Specs.Select.{
  World, empty_source, eval_until, eval_frag, eval_empty_actions, eval_actions, def_fragment,
}
use external_squashfs_tools.Action.Specs.Select.Meaning.{
  any_match, first_match, any_cause, run_matching, chain, specs_from, eval_until-any,
  eval_frag-first, eval_empty_actions-any, eval_actions-runs, get_frag_action-chain,
}

-- The fact that each test states of one file: the name matches, and `true`.
abbrev holds : Atom ℕ → Bool
holds a = true

abbrev facts : Atom ℕ → Log → ℕ → Outcome ℕ
facts a l s = (holds a, l, s)

abbrev quiet : Log
quiet = record { msg = none; alloc_size = 0 }

abbrev verbose_log : Log
verbose_log = record { msg = some (b'=' ∷ []); alloc_size = 128 }

abbrev world : World ℕ
world = record { log = quiet; state = 0; printed = [] }

name_fits : AtomFits test_table plain_args true name_atom
unfolding find_test arity_fits
name_fits = record {
  known = refl;
  allowed = refl;
  arity = refl;
  args = refl;
  name = ground arith;
  plain = ground arith;
}

true_fits : AtomFits test_table plain_args true true_atom
unfolding find_test arity_fits
true_fits = record {
  known = refl;
  allowed = refl;
  arity = refl;
  args = refl;
  name = ground arith;
  plain = tt;
}

tree_fits : WellFormed test_table plain_args true tree
tree_fits = (inl refl, name_fits, (refl, true_fits))

dump_tree : dump_parse_tree tree ≡ codes "(name(a.o)&&!true)"
unfolding dump_parse_tree dump_argv dump_args token_text
dump_tree = refl

parse_expr-total_example :
    Within 5 (parse_expr test_table plain_args false 12 false (codes "!true"))
parse_expr-total_example =
    parse_expr-total test_table plain_args false 12 false (codes "!true") (omega arith)

parse_expr-dump_example :
    parse_expr test_table plain_args true 40 false (dump_parse_tree tree) ≡ parsed tree []
unfolding dump_parse_tree dump_argv dump_args token_text
parse_expr-dump_example = parse_expr-dump test_table plain_args true tree 40 (omega arith) tree_fits

exclude_fits : ActionFits action_table test_table plain_args no_args exclude
unfolding find_action is_exclude arity_fits
exclude_fits = record {
  known = refl;
  arity = refl;
  args = refl;
  name = ground arith;
  plain = tt;
  expr = tree_fits;
}

parse_action-text_example :
    (s' : Specs ℕ ℕ) × (parse_action action_table test_table plain_args no_args 60
        (action_text exclude)
        exclude.verbose
        no_specs
      ≡ some s')
    × ((t : ArrayOf)
        → array t s' ≡ (
            if array_eq t (array_of exclude_action)
            then array t no_specs ++ (exclude ∷ [])
            else array t no_specs))
unfolding action_text dump_parse_tree dump_argv dump_args token_text
parse_action-text_example =
    parse_action-text action_table test_table plain_args no_args exclude 60 no_specs (omega arith)
      exclude_fits

eval_expr_log-eval_expr_example :
    ((eval_expr_log facts tree verbose_log 7).0 ≡ (eval_expr facts tree quiet 7).0)
    × ((eval_expr_log facts tree verbose_log 7).2 ≡ (eval_expr facts tree quiet 7).2)
eval_expr_log-eval_expr_example =
    eval_expr_log-eval_expr facts tree verbose_log quiet 7 (λ a l l' s. (refl, refl))

eval_expr_log-Fits_example : Fits (eval_expr_log facts tree verbose_log 7).1
eval_expr_log-Fits_example =
    eval_expr_log-Fits facts tree verbose_log 7 (λ a m s h. h) (omega arith)

eval_expr-denote_example : eval_expr facts tree quiet 7 ≡ (denote holds tree, quiet, 7)
eval_expr-denote_example = eval_expr-denote facts holds tree quiet 7 (λ a m s. refl)

-- Every test asks whether the file is as it was at first, and logs that it was asked.
abbrev unchanged_holds : ℕ → Atom ℕ → Bool
unchanged_holds s a = s == 0

abbrev unchanged_facts : Atom ℕ → Log → ℕ → Outcome ℕ
unchanged_facts a l s = (s == 0, expr_log (b'0' ∷ []) l, s)

eval_until-any_example :
    (eval_until unchanged_facts none (exclude ∷ []) world).0
    ≡ any_match (unchanged_holds 0) (exclude ∷ [])
eval_until-any_example =
    eval_until-any unchanged_facts none unchanged_holds (λ a l s. (refl, refl)) (exclude ∷ []) world

eval_frag-first_example :
    (eval_frag unchanged_facts none 0 (exclude ∷ []) world).0
    ≡ first_match (unchanged_holds 0) 0 (exclude ∷ [])
eval_frag-first_example =
    eval_frag-first unchanged_facts none unchanged_holds (λ a l s. (refl, refl)) 0 (exclude ∷ [])
      world

eval_empty_actions-any_example :
    (eval_empty_actions unchanged_facts none 0 true ((exclude, empty_source) ∷ []) world).0
    ≡ any_cause (unchanged_holds 0) true ((exclude, empty_source) ∷ [])
eval_empty_actions-any_example =
    eval_empty_actions-any unchanged_facts none unchanged_holds (λ a l s. (refl, refl)) 0 true
      ((exclude, empty_source) ∷ []) world

eval_actions-runs_example :
    (eval_actions unchanged_facts none (λ a n. n + 1) regular (exclude ∷ exclude ∷ []) world).state
    ≡ run_matching unchanged_holds (λ a n. n + 1) regular (exclude ∷ exclude ∷ []) 0
eval_actions-runs_example =
    eval_actions-runs unchanged_facts none unchanged_holds (λ a l s. (refl, refl)) (λ a n. n + 1)
      regular (exclude ∷ exclude ∷ []) world

get_frag_action-chain_example : chain 2 9 none ≡ def_fragment ∷ specs_from 0 2
get_frag_action-chain_example = get_frag_action-chain 2 9 (omega arith)
