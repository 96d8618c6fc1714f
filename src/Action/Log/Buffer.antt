-- ===== src/Action/Log/Buffer.antt =====
-- The message stays inside its buffer.
use external_squashfs_tools.Common.{
  ℕ, ◌≤◌, inl, inr, Bool, true, false, Option, none, some, List, [], ◌∷◌, arith, Bool-cases, length,
  length-append,
}
use external_squashfs_tools.Action.Lexer.{Str}
use external_squashfs_tools.Action.Parser.{Atom}
use external_squashfs_tools.Action.Log.{
  Log, grow, appended, log_print, expr_log, log_args, log_argv, expr_log_atom, expr_log_match,
  true_text, false_text,
}

-- The bytes that `memcpy` has written fit the allocation.
abbrev FitsIn : Option (List ℕ) → ℕ → Type 0
FitsIn none n = Unit {0}
FitsIn (some m) n = length m ≤ n

abbrev pub Fits : Log → Type 0
Fits l = FitsIn l.msg l.alloc_size

log_print-Fits :
    (m : Option (List ℕ)) (n : ℕ) (bytes : List ℕ) → FitsIn m n → Fits (log_print m n bytes)
unfolding log_print grow
log_print-Fits none n bytes h = tt
log_print-Fits (some m) n bytes h = ground (arith, length-append m bytes)

pub expr_log-Fits : (s : Str) (l : Log) → Fits l → Fits (expr_log s l)
unfolding expr_log
expr_log-Fits s l h = log_print-Fits l.msg l.alloc_size (appended s) h

log_args-Fits : (argv : List Str) (l : Log) → Fits l → Fits (log_args argv l)
unfolding log_args
log_args-Fits [] l h = h
log_args-Fits (a ∷ []) l h = expr_log-Fits a l h
log_args-Fits (a ∷ b ∷ argv) l h =
    log_args-Fits (b ∷ argv) (expr_log (b',' ∷ []) (expr_log a l))
      (expr_log-Fits (b',' ∷ []) (expr_log a l) (expr_log-Fits a l h))

log_argv-Fits : (argv : List Str) (l : Log) → Fits l → Fits (log_argv argv l)
unfolding log_argv
log_argv-Fits [] l h = h
log_argv-Fits (a ∷ argv) l h =
    expr_log-Fits (b')' ∷ []) _ (log_args-Fits (a ∷ argv) _ (expr_log-Fits (b'(' ∷ []) l h))

pub expr_log_atom-Fits : {D : Type 0} (a : Atom D) (l : Log) → Fits l → Fits (expr_log_atom a l)
unfolding expr_log_atom
expr_log_atom-Fits a l h = elim (Bool-cases a.test.handle_logging) [
  | inl y ↦ rw y h
  | inr n ↦ rw n (log_argv-Fits a.argv _ (expr_log-Fits a.test.name l h))
]

pub expr_log_match-Fits : (match : Bool) (l : Log) → Fits l → Fits (expr_log_match match l)
unfolding expr_log_match
expr_log_match-Fits true l h = expr_log-Fits true_text l h
expr_log_match-Fits false l h = expr_log-Fits false_text l h
