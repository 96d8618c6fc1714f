-- ===== src/Action/Specs/Text.antt =====
-- Reading back the text of an action.
use external_squashfs_tools.Common.{
  ℕ, ◌+◌, ◌*◌, ◌≤◌, ◌<◌, ◌≡◌, refl, Bool, true, false, Option, some, List, [], ◌∷◌, ◌++◌,
  append_assoc, arith, if◌then◌else◌, length, length-append,
}
use external_squashfs_tools.Action.Lexer.{Str, get_token}
use external_squashfs_tools.Action.Lexer.Plain.{
  IsPlain, get_token-plain, get_token-open, get_token-at, Ends-at,
}
use external_squashfs_tools.Action.Parser.{TestEntry, parsed, arity_fits}
use external_squashfs_tools.Action.Parser.Roundtrip.{
  AllArgs, WellFormed, start_args-dump, Ends-argv, length-dump_argv, parse_expr-dump,
}
use external_squashfs_tools.Action.Dump.{dump_parse_tree, dump_args, dump_argv}
use external_squashfs_tools.Action.Table.{
  ActionType, ActionEntry, fragment_action, exclude_action, empty_action, move_action, prune_action,
}
use external_squashfs_tools.Action.Specs.{
  Action, Specs, add_spec, find_action, is_exclude, action_args, expect_at, find_at, finish_action,
  named_action, parse_action,
}

-- `name(arg,…)@expression`.
unfoldable pub action_text : {D E : Type 0} → Action D E → Str
action_text a = a.entry.name ++ (dump_argv a.argv ++ b'@' ∷ dump_parse_tree a.expr)

-- The six arrays, and which of them `eval_frag_actions` and its fellows read for a type of action.
pub data ArrayOf : Type 0 where
  fragments excludes empties moves prunes others : ArrayOf

unfoldable pub array_of : ActionType → ArrayOf
array_of fragment_action = fragments
array_of exclude_action = excludes
array_of empty_action = empties
array_of move_action = moves
array_of prune_action = prunes
array_of _ = others

unfoldable pub array_eq : ArrayOf → ArrayOf → Bool
array_eq fragments fragments = true
array_eq excludes excludes = true
array_eq empties empties = true
array_eq moves moves = true
array_eq prunes prunes = true
array_eq others others = true
array_eq _ _ = false

unfoldable pub array : {D E : Type 0} → ArrayOf → Specs D E → List (Action D E)
array fragments s = s.fragment_spec
array excludes s = s.exclude_spec
array empties s = s.empty_spec
array moves s = s.move_spec
array prunes s = s.prune_spec
array others s = s.other_spec

add_spec-array :
    {D E : Type 0} (ty : ActionType) (a : Action D E) (s : Specs D E) (t : ArrayOf)
    → array t (add_spec ty a s)
      ≡ (if array_eq t (array_of ty) then array t s ++ (a ∷ []) else array t s)
unfolding add_spec array array_eq array_of
add_spec-array fragment_action a s fragments = refl
add_spec-array fragment_action a s excludes = refl
add_spec-array fragment_action a s empties = refl
add_spec-array fragment_action a s moves = refl
add_spec-array fragment_action a s prunes = refl
add_spec-array fragment_action a s others = refl
add_spec-array exclude_action a s fragments = refl
add_spec-array exclude_action a s excludes = refl
add_spec-array exclude_action a s empties = refl
add_spec-array exclude_action a s moves = refl
add_spec-array exclude_action a s prunes = refl
add_spec-array exclude_action a s others = refl
add_spec-array empty_action a s fragments = refl
add_spec-array empty_action a s excludes = refl
add_spec-array empty_action a s empties = refl
add_spec-array empty_action a s moves = refl
add_spec-array empty_action a s prunes = refl
add_spec-array empty_action a s others = refl
add_spec-array move_action a s fragments = refl
add_spec-array move_action a s excludes = refl
add_spec-array move_action a s empties = refl
add_spec-array move_action a s moves = refl
add_spec-array move_action a s prunes = refl
add_spec-array move_action a s others = refl
add_spec-array prune_action a s fragments = refl
add_spec-array prune_action a s excludes = refl
add_spec-array prune_action a s empties = refl
add_spec-array prune_action a s moves = refl
add_spec-array prune_action a s prunes = refl
add_spec-array prune_action a s others = refl
add_spec-array _ a s fragments = refl
add_spec-array _ a s excludes = refl
add_spec-array _ a s empties = refl
add_spec-array _ a s moves = refl
add_spec-array _ a s prunes = refl
add_spec-array _ a s others = refl

module _ (f : ℕ) (rest : Str) where
  -- What `action_args` returns, and that the `@` behind it is found.
  action_args-text :
      (argv : List Str)
      → length argv < f
      → AllArgs argv
      → (seen : Bool) × (cur : Str) × (action_args f (get_token (dump_argv argv ++ b'@' ∷ rest))
          ≡ parsed (argv, seen) cur)
        × (find_at seen cur ≡ parsed tt rest)
  unfolding action_args find_at expect_at dump_argv
  action_args-text [] h p = (true, rest, rw (get_token-at rest) refl, refl)
  action_args-text (a ∷ argv) h p = (
    false,
    b'@' ∷ rest,
    rw
        (
          append_assoc (dump_args (a ∷ argv)) (b')' ∷ []) (b'@' ∷ rest),
          get_token-open (dump_args (a ∷ argv) ++ b')' ∷ b'@' ∷ rest),
        )
        (rw (start_args-dump f a argv (b'@' ∷ rest) (omega arith) p.0 p.1) refl),
    rw (get_token-at rest) refl,
  )

enough :
    {D E : Type 0} (a : Action D E) (f : ℕ)
    → AllArgs a.argv
    → 2 * length (action_text a) + 2 ≤ f
    → (length a.argv < f) × (2 * length (dump_parse_tree a.expr) + 2 ≤ f)
unfolding action_text
enough a f p h =
    let whole = length-append a.entry.name (dump_argv a.argv ++ b'@' ∷ dump_parse_tree a.expr) in
    let back = length-append (dump_argv a.argv) (b'@' ∷ dump_parse_tree a.expr) in
    (omega (arith, whole, back, length-dump_argv a.argv p), omega (arith, whole, back))

module _ {D E : Type 0} (action_table : List ActionEntry) (test_table : List TestEntry)
    (parse_test_args : TestEntry → List Str → Option (List Str × Option D))
    (parse_args : ActionEntry → List Str → Option (Option E)) where
  -- An action that the parser can build.
  pub record ActionFits (a : Action D E) : Type 0 where
    pub known : find_action action_table a.entry.name ≡ some a.entry
    pub arity : arity_fits a.entry.arity (length a.argv) ≡ true
    pub args : parse_args a.entry a.argv ≡ some a.payload
    pub name : IsPlain a.entry.name
    pub plain : AllArgs a.argv
    pub expr : WellFormed test_table parse_test_args (is_exclude a.entry.type) a.expr

  parsed_text :
      (a : Action D E) (f : ℕ) (s : Specs D E)
      → 2 * length (action_text a) + 2 ≤ f
      → ActionFits a
      → parse_action action_table test_table parse_test_args parse_args f
          (action_text a)
          a.verbose
          s
        ≡ some (add_spec a.entry.type a s)
  unfolding parse_action named_action finish_action action_text
  parsed_text a f s h w =
      rw
        (get_token-plain a.entry.name (dump_argv a.argv ++ b'@' ∷ dump_parse_tree a.expr) w.name
          (Ends-argv a.argv (b'@' ∷ dump_parse_tree a.expr) (Ends-at _)))
        (rw (w.known, named_action)
          (let (small, fuel) = enough a f w.plain h in
            let (seen, cur, got, found) =
              action_args-text f (dump_parse_tree a.expr) a.argv small w.plain in
            rw got (
              rw w.arity (
                rw (w.args, finish_action)
                  (rw found (
                    rw
                      (parse_expr-dump test_table parse_test_args (is_exclude a.entry.type) a.expr f
                        fuel w.expr)
                      refl))))))

  -- Parsing the text of an action stores exactly that action, behind the others in the array for its
  -- type, and every array for another type stays as it was. Its strings have no special byte, and the
  -- fuel is twice the text's length and two.
  pub parse_action-text :
      (a : Action D E) (f : ℕ) (s : Specs D E)
      → 2 * length (action_text a) + 2 ≤ f
      → ActionFits a
      → (s' : Specs D E) × (parse_action action_table test_table parse_test_args parse_args f
            (action_text a)
            a.verbose
            s
          ≡ some s')
        × ((t : ArrayOf)
            → array t s'
              ≡ (if array_eq t (array_of a.entry.type) then array t s ++ (a ∷ []) else array t s))
  parse_action-text a f s h w =
      (add_spec a.entry.type a s, parsed_text a f s h w, add_spec-array a.entry.type a s)
