-- ===== src/Action/Table.antt =====
-- The tables of tests and actions, and which files an action is for: `test_table`, `action_table`
-- and `file_type_match` of squashfs-tools/action.c.
use Prim.Native.String.{String}
use external_squashfs_tools.Common.{ℕ, Bool, true, false, Option, none, some, List, [], ◌∷◌}
use external_squashfs_tools.Action.Lexer.{Str, codes}
use external_squashfs_tools.Action.Parser.{TestEntry}

-- A row without its function pointers; `args` is `none` for -2.
abbrev test : String → Option ℕ → Bool → Bool → TestEntry
test n a ok logs = record { name = codes n; arity = a; exclude_ok = ok; handle_logging = logs }

abbrev pub test_table : List TestEntry
test_table =
    test "name" (some 1) true false
    ∷ test "pathname" (some 1) true false
    ∷ test "subpathname" (some 1) true false
    ∷ test "filesize" (some 1) true false
    ∷ test "dirsize" (some 1) true false
    ∷ test "size" (some 1) true false
    ∷ test "inode" (some 1) true false
    ∷ test "nlink" (some 1) true false
    ∷ test "fileblocks" (some 1) true false
    ∷ test "dirblocks" (some 1) true false
    ∷ test "blocks" (some 1) true false
    ∷ test "gid" (some 1) true false
    ∷ test "uid" (some 1) true false
    ∷ test "depth" (some 1) true false
    ∷ test "dircount" (some 1) false false
    ∷ test "filesize_range" (some 2) true false
    ∷ test "dirsize_range" (some 2) true false
    ∷ test "size_range" (some 2) true false
    ∷ test "inode_range" (some 2) true false
    ∷ test "nlink_range" (some 2) true false
    ∷ test "fileblocks_range" (some 2) true false
    ∷ test "dirblocks_range" (some 2) true false
    ∷ test "blocks_range" (some 2) true false
    ∷ test "gid_range" (some 2) true false
    ∷ test "uid_range" (some 2) true false
    ∷ test "depth_range" (some 2) true false
    ∷ test "dircount_range" (some 2) false false
    ∷ test "type" (some 1) true false
    ∷ test "true" (some 0) true false
    ∷ test "false" (some 0) true false
    ∷ test "file" (some 1) true false
    ∷ test "exec" (some 1) true false
    ∷ test "exists" (some 0) false false
    ∷ test "absolute" (some 0) false false
    ∷ test "stat" (some 1) true true
    ∷ test "readlink" (some 1) false true
    ∷ test "eval" (some 2) false true
    ∷ test "perm" none true false
    ∷ []

pub data ActionType : Type 0 where
  fragment_action exclude_action fragments_action no_fragments_action always_frags_action :
      ActionType
  no_always_frags_action compressed_action uncompressed_action uid_action gid_action : ActionType
  guid_action mode_action empty_action move_action prune_action noop_action : ActionType

pub data FileTypes : Type 0 where
  action_dir action_reg action_all_lnk action_all action_lnk : FileTypes

-- `struct action_entry` without its function pointers.
pub record ActionEntry : Type 0 where
  pub name : Str
  pub type : ActionType
  pub arity : Option ℕ
  pub file_types : FileTypes

abbrev action : String → ActionType → Option ℕ → FileTypes → ActionEntry
action n ty a ft = record { name = codes n; type = ty; arity = a; file_types = ft }

abbrev pub action_table : List ActionEntry
action_table =
    action "fragment" fragment_action (some 1) action_reg
    ∷ action "exclude" exclude_action (some 0) action_all_lnk
    ∷ action "fragments" fragments_action (some 0) action_reg
    ∷ action "no-fragments" no_fragments_action (some 0) action_reg
    ∷ action "always-use-fragments" always_frags_action (some 0) action_reg
    ∷ action "dont-always-use-fragments" no_always_frags_action (some 0) action_reg
    ∷ action "compressed" compressed_action (some 0) action_reg
    ∷ action "uncompressed" uncompressed_action (some 0) action_reg
    ∷ action "uid" uid_action (some 1) action_all_lnk
    ∷ action "gid" gid_action (some 1) action_all_lnk
    ∷ action "guid" guid_action (some 2) action_all_lnk
    ∷ action "mode" mode_action none action_all
    ∷ action "empty" empty_action none action_dir
    ∷ action "move" move_action (some 1) action_all_lnk
    ∷ action "prune" prune_action (some 0) action_all_lnk
    ∷ action "chmod" mode_action none action_all
    ∷ action "noop" noop_action (some 0) action_all
    ∷ []

-- The type that `st_mode & S_IFMT` gives.
pub data FileType : Type 0 where
  directory regular char_device block_device fifo socket link unknown : FileType

pub file_type_match : FileType → FileTypes → Bool
file_type_match directory action_dir = true
file_type_match _ action_dir = false
file_type_match regular action_reg = true
file_type_match _ action_reg = false
file_type_match link action_all = false
file_type_match unknown action_all = false
file_type_match _ action_all = true
file_type_match link action_lnk = true
file_type_match _ action_lnk = false
file_type_match _ action_all_lnk = true
