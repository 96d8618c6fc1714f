-- ===== src/Numbers.antt =====
-- Numbers on the command line: `parse_numberll`, `parse_number`, `parse_num` and
-- `multiply_overflowll` of squashfs-tools/mksquashfs.c.
pub mod Exact
mod Tests
use external_squashfs_tools.Common.{
  ℕ, ◌-◌, ◌*◌, ◌/◌, ◌^◌, Bool, true, false, not, ◌&&◌, ◌||◌, Option, none, some, List, [], ◌∷◌, ltb,
  ◌==◌, if◌then◌else◌, str_eq,
}

abbrev pub llong_max : ℕ
llong_max = 2 ^ 63 - 1

abbrev pub int_max : ℕ
int_max = 2 ^ 31 - 1

-- A `long long`: `minus n` is - n - 1.
pub data Signed : Type 0 where
  plus minus : ℕ → Signed

-- What a call of `strtoll` leaves: the number, the text at `end`, whether `end` is past
-- `start`, and `errno`, which the code sets to 0 before.
pub record Strtoll : Type 0 where
  pub number : Signed
  pub rest : List ℕ
  pub moved : Bool
  pub errno : ℕ

pub multiply_overflowll : ℕ → ℕ → Bool
multiply_overflowll a multiplier = ltb (llong_max / multiplier) a

abbrev pub erange : ℕ
erange = 34

-- The test for conversion errors.
abbrev pub at_limit : Signed → Bool
at_limit (plus n) = n == llong_max
at_limit (minus n) = n == llong_max

abbrev pub is_zero : Signed → Bool
is_zero (plus n) = n == 0
is_zero (minus n) = false

pub conversion_failed : Strtoll → Bool
conversion_failed t =
    ((t.errno == erange) && at_limit t.number) || (not (t.errno == 0) && is_zero t.number)

-- "bytes".
abbrev pub bytes_text : List ℕ
bytes_text = b'b' ∷ b'y' ∷ b't' ∷ b'e' ∷ b's' ∷ []

-- What may stand behind a multiplier.
pub after_multiplier : List ℕ → Bool
after_multiplier [] = true
after_multiplier (c ∷ s) = str_eq (c ∷ s) bytes_text

pub multiply : (number multiplier : ℕ) → List ℕ → Option ℕ
multiply number multiplier rest =
    if multiply_overflowll number multiplier
    then none
    else if after_multiplier rest
    then some (number * multiplier)
    else none

pub multiplied : (number : ℕ) → List ℕ → Option ℕ
unfolding multiply
multiplied number [] = some number
multiplied number (c ∷ rest) =
    if (c == b'g') || (c == b'G')
    then multiply number 1073741824 rest
    else if (c == b'm') || (c == b'M')
    then multiply number 1048576 rest
    else if (c == b'k') || (c == b'K')
    then multiply number 1024 rest
    else none

-- Without multipliers nothing may follow the number.
abbrev pub alone : ℕ → List ℕ → Option ℕ
alone number [] = some number
alone number (c ∷ rest) = none

pub sized : (size : Bool) → Strtoll → ℕ → Option ℕ
sized false t number = alone number t.rest
sized true t number = if t.moved then multiplied number t.rest else none

pub signed : (size : Bool) → Strtoll → Signed → Option ℕ
signed size t (minus n) = none
signed size t (plus n) = sized size t n

module _ (strtoll : List ℕ → Strtoll) where
  -- `none` is the result 0.
  pub parse_numberll : List ℕ → (size : Bool) → Option ℕ
  parse_numberll start size =
      let t = strtoll start in if conversion_failed t then none else signed size t t.number

  pub parse_number : List ℕ → (size : Bool) → Option ℕ
  parse_number start size = elim (parse_numberll start size) [
    | none ↦ none
    | some number ↦ if ltb int_max number then none else some number
  ]

  pub parse_num : List ℕ → Option ℕ
  parse_num arg = parse_number arg false
