-- ===== src/Numbers/Exact.antt =====
-- A number is accepted with its exact value, or not at all.
use external_squashfs_tools.Common.{
  ℕ, ◌*◌, ◌^◌, ◌≤◌, ◌≡◌, refl, inl, inr, Bool, true, false, not, ◌||◌, Option, none, some, List, [],
  ◌∷◌, arith, ltb, leb, ◌==◌, if◌then◌else◌, Bool-cases,
}
use external_squashfs_tools.Numbers.{
  llong_max, int_max, Signed, plus, minus, Strtoll, multiply_overflowll, conversion_failed,
  after_multiplier, multiply, multiplied, alone, sized, signed, parse_numberll, parse_number,
}

-- The factor that the text behind a number stands for.
abbrev pub factor : List ℕ → Option ℕ
factor [] = some 1
factor (c ∷ rest) =
    if after_multiplier rest
    then if (c == b'g') || (c == b'G')
      then some (2 ^ 30)
      else if (c == b'm') || (c == b'M')
      then some (2 ^ 20)
      else if (c == b'k') || (c == b'K')
      then some (2 ^ 10)
      else none
    else none

abbrev pub sized_factor : (size : Bool) → Strtoll → Option ℕ
sized_factor false t = elim t.rest [ [] ↦ some 1 | c ∷ rest ↦ none ]
sized_factor true t = if t.moved then factor t.rest else none

-- The product, if it is within a limit.
abbrev pub within : (limit n : ℕ) → Option ℕ → Option ℕ
within limit n none = none
within limit n (some k) = if leb (n * k) limit then some (n * k) else none

abbrev pub exact : (limit : ℕ) (size : Bool) → Strtoll → Signed → Option ℕ
exact limit size t (minus n) = none
exact limit size t (plus n) = within limit n (sized_factor size t)

-- The division test is exact for the three multipliers.
overflow_giga : (n : ℕ) → multiply_overflowll n 1073741824 ≡ not (leb (n * 1073741824) llong_max)
unfolding multiply_overflowll
overflow_giga n = ground arith

overflow_mega : (n : ℕ) → multiply_overflowll n 1048576 ≡ not (leb (n * 1048576) llong_max)
unfolding multiply_overflowll
overflow_mega n = ground arith

overflow_kilo : (n : ℕ) → multiply_overflowll n 1024 ≡ not (leb (n * 1024) llong_max)
unfolding multiply_overflowll
overflow_kilo n = ground arith

multiply-within :
    (n m : ℕ) (rest : List ℕ)
    → multiply_overflowll n m ≡ not (leb (n * m) llong_max)
    → multiply n m rest ≡ (if after_multiplier rest then within llong_max n (some m) else none)
unfolding multiply
multiply-within n m rest h = rw h (ground arith)

multiplied-within :
    (n : ℕ) (s : List ℕ) → n ≤ llong_max → multiplied n s ≡ within llong_max n (factor s)
unfolding multiplied
multiplied-within n [] h = ground arith
multiplied-within n (c ∷ rest) h =
    rw
      (
        multiply-within n 1073741824 rest (overflow_giga n),
        multiply-within n 1048576 rest (overflow_mega n),
        multiply-within n 1024 rest (overflow_kilo n),
      )
      (ground arith)

alone-within :
    (n : ℕ) (s : List ℕ)
    → n ≤ llong_max
    → alone n s ≡ within llong_max n (elim s as (λ q. Option ℕ) [ [] ↦ some 1 | c ∷ rest ↦ none ])
alone-within n [] h = ground arith
alone-within n (c ∷ s) h = refl

sized-within :
    (size : Bool) (t : Strtoll) (n : ℕ)
    → n ≤ llong_max
    → sized size t n ≡ within llong_max n (sized_factor size t)
unfolding sized
sized-within true t n h = rw (multiplied-within n t.rest h) (ground arith)
sized-within false t n h = alone-within n t.rest h

-- The documented range of a `long long`.
abbrev pub InRange : Signed → Type 0
InRange (plus n) = n ≤ llong_max
InRange (minus n) = n ≤ llong_max

signed-exact :
    (size : Bool) (t : Strtoll) (x : Signed)
    → InRange x
    → signed size t x ≡ exact llong_max size t x
unfolding signed
signed-exact size t (minus n) h = refl
signed-exact size t (plus n) h = sized-within size t n h

narrow_factor :
    (n : ℕ) (o : Option ℕ)
    → (elim (within llong_max n o) as (λ q. Option ℕ) [
      | none ↦ none
      | some number ↦ if ltb int_max number then none else some number
    ])
      ≡ within int_max n o
narrow_factor n none = refl
narrow_factor n (some k) = ground arith

narrow :
    (size : Bool) (t : Strtoll) (x : Signed) (o : Option ℕ)
    → o ≡ exact llong_max size t x
    → (elim o as (λ q. Option ℕ) [
      | none ↦ none
      | some number ↦ if ltb int_max number then none else some number
    ])
      ≡ exact int_max size t x
narrow size t (minus n) o h = rw h refl
narrow size t (plus n) o h = rw h (narrow_factor n (sized_factor size t))

abbrev pub expected : (List ℕ → Strtoll) → (limit : ℕ) → List ℕ → (size : Bool) → Option ℕ
expected strtoll limit start size =
    if conversion_failed (strtoll start)
    then none
    else exact limit size (strtoll start) (strtoll start).number

module _ (strtoll : List ℕ → Strtoll) (range : (s : List ℕ) → InRange (strtoll s).number) where
  -- When `strtoll` gives numbers in its range, the result is the number times the factor of its
  -- suffix when that is a long long, and an error for a failed conversion, a negative number,
  -- another suffix, or a larger product.
  pub parse_numberll-exact :
      (start : List ℕ) (size : Bool)
      → parse_numberll strtoll start size ≡ expected strtoll llong_max start size
  unfolding parse_numberll
  parse_numberll-exact start size =
      rw (signed-exact size (strtoll start) (strtoll start).number (range start)) refl

  -- When `strtoll` gives numbers in its range, the result is the number times the factor of its
  -- suffix when that is an int, and an error for a failed conversion, a negative number,
  -- another suffix, or a larger product.
  pub parse_number-exact :
      (start : List ℕ) (size : Bool)
      → parse_number strtoll start size ≡ expected strtoll int_max start size
  unfolding parse_number
  parse_number-exact start size =
      let e = parse_numberll-exact start size in
      elim (Bool-cases (conversion_failed (strtoll start))) [
        | inl f ↦
            let gone : parse_numberll strtoll start size ≡ none = rw (e, f) refl in
            rw (gone, parse_number, f) refl
        | inr f ↦ rw f (
            narrow size (strtoll start) (strtoll start).number (parse_numberll strtoll start size)
              (rw (e, f) refl))
      ]
