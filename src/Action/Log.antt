-- ===== src/Action/Log.antt =====
-- The message that a verbose action builds: `_expr_log` and its callers in squashfs-tools/action.c.
pub mod Buffer
use external_squashfs_tools.Common.{
  ℕ, ◌+◌, ◌-◌, ◌*◌, ◌/◌, Bool, Option, none, some, List, [], ◌∷◌, ◌++◌, ltb, if◌then◌else◌, length,
}
use external_squashfs_tools.Action.Lexer.{Str}
use external_squashfs_tools.Action.Parser.{Atom}

-- The static variables of `_expr_log`. `msg` is `none` for NULL; `cur_size` is the number of bytes
-- written, so it is the list's length.
pub record Log : Type 0 where
  pub msg : Option (List ℕ)
  pub alloc_size : ℕ

abbrev pub alloc_sz : ℕ
alloc_sz = 128

-- LOG_ENABLE and LOG_DISABLE.
pub log_enable : Log → Log
log_enable l = record { msg = some []; alloc_size = alloc_sz }

pub log_disable : Log → Log
log_disable l = record { msg = none; alloc_size = 0 }

-- `if(alloc_size - cur_size < size)` the buffer grows to `(cur_size + size + 127) & ~127`.
pub grow : (alloc_size cur_size size : ℕ) → ℕ
grow alloc_size cur_size size =
    if ltb (alloc_size - cur_size) size
    then (cur_size + size + alloc_sz - 1) / alloc_sz * alloc_sz
    else alloc_size

-- `size = strlen(string) ? : 1`: an empty string appends its terminator.
pub appended : Str → List ℕ
appended [] = 0 ∷ []
appended (c ∷ s) = c ∷ s

pub log_print : Option (List ℕ) → ℕ → List ℕ → Log
log_print none alloc bytes = record { msg = none; alloc_size = alloc }
log_print (some m) alloc bytes = record {
  msg = some (m ++ bytes);
  alloc_size = grow alloc (length m) (length bytes);
}

-- LOG_PRINT.
pub expr_log : Str → Log → Log
expr_log s l = log_print l.msg l.alloc_size (appended s)

-- `expr_log` of each argument, and of a comma behind each but the last.
pub log_args : List Str → Log → Log
log_args [] l = l
log_args (a ∷ []) l = expr_log a l
log_args (a ∷ b ∷ argv) l = log_args (b ∷ argv) (expr_log (b',' ∷ []) (expr_log a l))

-- `if(atom->args)` the arguments stand in brackets.
pub log_argv : List Str → Log → Log
log_argv [] l = l
log_argv (a ∷ argv) l = expr_log (b')' ∷ []) (log_args (a ∷ argv) (expr_log (b'(' ∷ []) l))

pub expr_log_atom : {D : Type 0} → Atom D → Log → Log
expr_log_atom a l = if a.test.handle_logging then l else log_argv a.argv (expr_log a.test.name l)

abbrev pub true_text : Str
true_text = b'=' ∷ b'T' ∷ b'r' ∷ b'u' ∷ b'e' ∷ []

abbrev pub false_text : Str
false_text = b'=' ∷ b'F' ∷ b'a' ∷ b'l' ∷ b's' ∷ b'e' ∷ []

pub expr_log_match : Bool → Log → Log
expr_log_match match l = if match then expr_log true_text l else expr_log false_text l
