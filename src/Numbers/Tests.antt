-- ===== src/Numbers/Tests.antt =====
-- Runs with a decimal reader.
use external_squashfs_tools.Common.{
  ℕ, ◌+◌, ◌-◌, ◌*◌, min, ◌≡◌, true, not, ◌&&◌, List, [], ◌∷◌, arith, leb, ◌==◌, if◌then◌else◌,
  length,
}
use external_squashfs_tools.Numbers.{
  llong_max, int_max, plus, Strtoll, parse_numberll, parse_number,
}
use external_squashfs_tools.Numbers.Exact.{
  InRange, expected, parse_numberll-exact, parse_number-exact,
}

abbrev digits : ℕ → List ℕ → ℕ × List ℕ
digits n [] = (n, [])
digits n (c ∷ s) = if leb b'0' c && leb c b'9' then digits (10 * n + c - b'0') s else (n, c ∷ s)

-- Numbers without sign, held at the limit.
abbrev decimal : List ℕ → Strtoll
decimal s =
    let d = digits 0 s in
    record {
      number = plus (min (d.0) llong_max);
      rest = d.1;
      moved = not (length d.1 == length s);
      errno = if leb d.0 llong_max then 0 else 34;
    }

decimal-InRange : (s : List ℕ) → InRange (decimal s).number
decimal-InRange s = omega arith

parse_numberll-exact_example :
    parse_numberll decimal (b'3' ∷ b'2' ∷ b'G' ∷ []) true
    ≡ expected decimal llong_max (b'3' ∷ b'2' ∷ b'G' ∷ []) true
parse_numberll-exact_example =
    parse_numberll-exact decimal decimal-InRange (b'3' ∷ b'2' ∷ b'G' ∷ []) true

parse_number-exact_example :
    parse_number decimal (b'1' ∷ b'2' ∷ b'k' ∷ []) true
    ≡ expected decimal int_max (b'1' ∷ b'2' ∷ b'k' ∷ []) true
parse_number-exact_example =
    parse_number-exact decimal decimal-InRange (b'1' ∷ b'2' ∷ b'k' ∷ []) true
