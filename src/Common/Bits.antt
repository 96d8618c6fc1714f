-- ===== src/Common/Bits.antt =====
-- `|` of a number whose low bits are clear with one that has only low bits is their sum.
use Prim.Native.Nat.{
  ℕ, zero, suc, ◌+◌, ◌*◌, ◌/◌, ◌%◌, ◌≤◌, ◌<◌, max, bit_or, digits, bit_or-bitwise,
}
use mathlib.Core.Path.{◌≡◌, refl, sym, ap, ◌∙◌}
use native.Mathlib.Omega.{arith}

-- The fuel of the recursion on digits does not matter, when there is enough.
digits_enough :
    (n m a b : ℕ) → a ≤ n → a ≤ m → digits (λ y. y) max n a b ≡ digits (λ y. y) max m a b
digits_enough zero zero zero b p q = refl
digits_enough zero (suc m) zero b p q = refl
digits_enough (suc n) zero zero b p q = refl
digits_enough (suc n) (suc m) zero b p q = refl
digits_enough zero m (suc a) b p q = absurd (omega arith)
digits_enough (suc n) zero (suc a) b p q = absurd (omega arith)
digits_enough (suc n) (suc m) (suc a) b p q =
    ap (λ k. k * 2 + max (suc a % 2) (b % 2))
      (digits_enough n m (suc a / 2) (b / 2) (omega arith) (omega arith))

lowest_digit : (a b : ℕ) → 0 < a → bit_or a b ≡ bit_or (a / 2) (b / 2) * 2 + max (a % 2) (b % 2)
lowest_digit zero b h = absurd (omega arith)
lowest_digit (suc a) b h = omega (
  arith,
  bit_or-bitwise (suc a) b,
  bit_or-bitwise (suc a / 2) (b / 2),
  digits_enough a (suc a / 2) (suc a / 2) (b / 2) (omega arith) (omega arith),
)

bit_or_none : (n t : ℕ) → t ≤ n → bit_or t 0 ≡ t
bit_or_none n zero h = bit_or-bitwise 0 0
bit_or_none zero (suc t) h = absurd (omega arith)
bit_or_none (suc n) (suc t) h =
    let e = bit_or_none n (suc t / 2) (omega arith) in
    omega (arith, lowest_digit (suc t) 0 (omega arith), e)

none_bit_or : (b : ℕ) → bit_or 0 b ≡ b
none_bit_or b = bit_or-bitwise 0 b

pub bit_or_comm : (n a b : ℕ) → a ≤ n → bit_or a b ≡ bit_or b a
bit_or_comm n zero b h = none_bit_or b ∙ sym (bit_or_none b b (omega arith))
bit_or_comm n (suc a) zero h = bit_or_none (suc a) (suc a) (omega arith) ∙ sym (none_bit_or (suc a))
bit_or_comm zero (suc a) (suc b) h = absurd (omega arith)
bit_or_comm (suc n) (suc a) (suc b) h = omega (
  arith,
  lowest_digit (suc a) (suc b) (omega arith),
  lowest_digit (suc b) (suc a) (omega arith),
  bit_or_comm n (suc a / 2) (suc b / 2) (omega arith),
)

-- `t` with `k` clear bits below it.
abbrev pub shifted : (k t : ℕ) → ℕ
shifted zero t = t
shifted (suc k) t = 2 * shifted k t

shifted_none : (k : ℕ) → shifted k 0 ≡ 0
shifted_none zero = refl
shifted_none (suc k) = let e = shifted_none k in omega arith

shifted_pos : (k t : ℕ) → 0 < t → 0 < shifted k t
shifted_pos zero t h = h
shifted_pos (suc k) t h = let p = shifted_pos k t h in omega arith

some_high : (k t m : ℕ) → 0 < t → m < shifted k 1 → bit_or (shifted k t) m ≡ shifted k t + m
some_high zero t m p h =
    let e : m ≡ 0 = omega (arith, h) in rw e (bit_or_none t t (omega arith) ∙ omega arith)
some_high (suc k) t m p h =
    let half : 2 * shifted k t / 2 ≡ shifted k t = omega arith in
    let r = some_high k t (m / 2) p (omega (arith, h)) in
    let s = lowest_digit (2 * shifted k t) m (omega (arith, shifted_pos k t p)) in
    omega (arith, r, s ∙ ap (λ x. bit_or x (m / 2) * 2 + max (2 * shifted k t % 2) (m % 2)) half)

pub bit_or_sum : (k t m : ℕ) → m < shifted k 1 → bit_or (shifted k t) m ≡ shifted k t + m
bit_or_sum k zero m h = rw (shifted_none k) (none_bit_or m ∙ omega arith)
bit_or_sum k (suc t) m h = some_high k (suc t) m (omega arith) h

pub bit_or_apart : (k t a b : ℕ) → a ≡ shifted k t → b < shifted k 1 → bit_or a b ≡ a + b
bit_or_apart k t a b e h = ap (λ x. bit_or x b) e ∙ bit_or_sum k t b h ∙ ap (λ x. x + b) (sym e)
