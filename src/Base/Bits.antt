-- ===== src/Base/Bits.antt =====
-- The laws of `&` and `|` with masks at variables. The native operations compute at numerals only;
-- a law starts from the digit recursion that they stand for.
use Prim.Native.Nat.{
  ℕ, zero, suc, ◌+◌, ◌*◌, ◌/◌, ◌%◌, ◌^◌, ◌≤◌, ◌<◌, min, max, bit_and, bit_or, digits,
  bit_and-bitwise, bit_or-bitwise,
}
use mathlib.Core.Path.{◌≡◌, refl, ap, subst, sym, ◌∙◌}
use native.Mathlib.Omega.{arith}
use native.Mathlib.Nat.{pow-suc}
use native.Mathlib.Decide.{ℕ_discrete}

-- An operation on digits needs as many rounds as its first number, and more change nothing.
module _ (z : ℕ → ℕ) (f : ℕ → ℕ → ℕ) where
  extra_round : (rounds a b : ℕ) → a ≤ rounds → digits z f (suc rounds) a b ≡ digits z f rounds a b
  extra_round zero zero b h = refl
  extra_round (suc r) zero b h = refl
  extra_round zero (suc a) b h = absurd (omega arith)
  extra_round (suc r) (suc a) b h =
      ap (λ d. d * 2 + f (suc a % 2) (b % 2)) (extra_round r (suc a / 2) (b / 2) (omega arith))

  least_rounds : (rounds a b : ℕ) → a ≤ rounds → digits z f rounds a b ≡ digits z f a a b
  least_rounds zero a b h = ap (λ n. digits z f n a b) {x = 0} (omega arith)
  least_rounds (suc r) a b h = elim (ℕ_discrete a (suc r)) [
    | yes e ↦ ap (λ n. digits z f n a b) (sym e)
    | no ne ↦ extra_round r a b (omega arith) ∙ least_rounds r a b (omega arith)
  ]

  lowest_digit :
      (a b : ℕ)
      → digits z f (suc a) (suc a) b
        ≡ digits z f (suc a / 2) (suc a / 2) (b / 2) * 2 + f (suc a % 2) (b % 2)
  lowest_digit a b =
      ap (λ d. d * 2 + f (suc a % 2) (b % 2)) (least_rounds a (suc a / 2) (b / 2) (omega arith))

-- The lowest digit, and the rest.
bit_and_step : (a b : ℕ) → bit_and a b ≡ bit_and (a / 2) (b / 2) * 2 + min (a % 2) (b % 2)
bit_and_step zero b = rw (bit_and-bitwise 0 b, bit_and-bitwise 0 (b / 2)) (omega arith)
bit_and_step (suc a) b =
    bit_and-bitwise (suc a) b
    ∙ lowest_digit (λ b. zero) min a b
    ∙ rw (bit_and-bitwise (suc a / 2) (b / 2)) refl

pub zero-bit_or : (b : ℕ) → bit_or 0 b ≡ b
zero-bit_or b = bit_or-bitwise 0 b

bit_or_step : (a b : ℕ) → bit_or a b ≡ bit_or (a / 2) (b / 2) * 2 + max (a % 2) (b % 2)
bit_or_step zero b = omega (arith, zero-bit_or b, zero-bit_or (b / 2))
bit_or_step (suc a) b =
    bit_or-bitwise (suc a) b
    ∙ lowest_digit (λ b. b) max a b
    ∙ rw (bit_or-bitwise (suc a / 2) (b / 2)) refl

and_nothing : (rounds a : ℕ) → digits (λ b. zero) min rounds a 0 ≡ 0
and_nothing zero a = refl
and_nothing (suc r) zero = refl
and_nothing (suc r) (suc a) = omega (arith, and_nothing r (suc a / 2))

or_nothing : (rounds a : ℕ) → a ≤ rounds → digits (λ b. b) max rounds a 0 ≡ a
or_nothing zero a h = omega arith
or_nothing (suc r) zero h = refl
or_nothing (suc r) (suc a) h = omega (arith, or_nothing r (suc a / 2) (omega arith))

pub bit_and-zero : (a : ℕ) → bit_and a 0 ≡ 0
bit_and-zero a = bit_and-bitwise a 0 ∙ and_nothing a a

pub bit_or-zero : (a : ℕ) → bit_or a 0 ≡ a
bit_or-zero a = bit_or-bitwise a 0 ∙ or_nothing a a (omega arith)

pub bit_and-one : (a : ℕ) → bit_and a 1 ≡ a % 2
bit_and-one a = omega (arith, bit_and_step a 1, bit_and-zero (a / 2))

-- The next three go down the powers of two by halving both sides.
pow-double : (q k : ℕ) → q * 2 ^ suc k ≡ q * 2 ^ k * 2
pow-double q k = rw (pow-suc 2 k) (omega arith)

-- `(q << k) | r` is a sum if `r` has `k` digits at most.
pub bit_or_shift : (k q r : ℕ) → r < 2 ^ k → bit_or (q * 2 ^ k) r ≡ q * 2 ^ k + r
bit_or_shift zero q zero h = bit_or-zero (q * 1) ∙ omega arith
bit_or_shift zero q (suc r) h = absurd (omega arith)
bit_or_shift (suc k) q r h =
    let e : q * 2 ^ suc k ≡ q * 2 ^ k * 2 = pow-double q k in
    let half : q * 2 ^ suc k / 2 ≡ q * 2 ^ k = omega arith in
    let small : r < 2 ^ k * 2 = subst (λ p. r < p) (pow-suc 2 k) h in
    bit_or_step (q * 2 ^ suc k) r ∙ rw half (omega (arith, bit_or_shift k q (r / 2) (omega arith)))

-- The same with the sides exchanged.
pub bit_or_under : (k q r : ℕ) → r < 2 ^ k → bit_or r (q * 2 ^ k) ≡ q * 2 ^ k + r
bit_or_under zero q zero h = zero-bit_or (q * 1) ∙ omega arith
bit_or_under zero q (suc r) h = absurd (omega arith)
bit_or_under (suc k) q r h =
    let e : q * 2 ^ suc k ≡ q * 2 ^ k * 2 = pow-double q k in
    let half : q * 2 ^ suc k / 2 ≡ q * 2 ^ k = omega arith in
    let small : r < 2 ^ k * 2 = subst (λ p. r < p) (pow-suc 2 k) h in
    bit_or_step r (q * 2 ^ suc k) ∙ rw half (omega (arith, bit_or_under k q (r / 2) (omega arith)))

mod_double : (k a : ℕ) → a % 2 ^ suc k ≡ a / 2 % 2 ^ k * 2 + a % 2
mod_double k a = rw (pow-suc 2 k) (grind arith)

-- `a & (2^k - 1)` keeps the lowest `k` digits.
pub bit_and_mask : (k a m : ℕ) → m + 1 ≡ 2 ^ k → bit_and a m ≡ a % 2 ^ k
bit_and_mask zero a zero h = bit_and-zero a ∙ omega arith
bit_and_mask zero a (suc m) h = absurd (omega arith)
bit_and_mask (suc k) a m h =
    let e : m + 1 ≡ 2 ^ k * 2 = h ∙ pow-suc 2 k in
    bit_and_step a m ∙ omega (arith, bit_and_mask k (a / 2) (m / 2) (omega arith), mod_double k a)

-- `x & (m << k)` looks only at the digits of `x` from the `k`-th on.
pub bit_and_high :
    (k q r m : ℕ) → r < 2 ^ k → bit_and (q * 2 ^ k + r) (m * 2 ^ k) ≡ bit_and q m * 2 ^ k
bit_and_high zero q zero m h =
    let eq : q * 1 + 0 ≡ q = omega arith in
    let em : m * 1 ≡ m = omega arith in rw (eq, em) (omega arith)
bit_and_high zero q (suc r) m h = absurd (omega arith)
bit_and_high (suc k) q r m h =
    let e : q * 2 ^ suc k ≡ q * 2 ^ k * 2 = pow-double q k in
    let e' : m * 2 ^ suc k ≡ m * 2 ^ k * 2 = pow-double m k in
    let small : r < 2 ^ k * 2 = subst (λ p. r < p) (pow-suc 2 k) h in
    let half : (q * 2 ^ suc k + r) / 2 ≡ q * 2 ^ k + r / 2 = omega arith in
    let half' : m * 2 ^ suc k / 2 ≡ m * 2 ^ k = omega arith in
    let d : bit_and q m * 2 ^ suc k ≡ bit_and q m * 2 ^ k * 2 = pow-double (bit_and q m) k in
    bit_and_step (q * 2 ^ suc k + r) (m * 2 ^ suc k)
    ∙ rw (half, half') (omega (arith, bit_and_high k q (r / 2) m (omega arith)))

-- `((q << k) | r) | s` changes the lowest `k` digits alone, if `s` has `k` digits at most.
pub bit_or_low :
    (k q r s : ℕ) → r < 2 ^ k → s < 2 ^ k → bit_or (q * 2 ^ k + r) s ≡ q * 2 ^ k + bit_or r s
bit_or_low zero q zero zero h h' = bit_or-zero (q * 1 + 0) ∙ omega arith
bit_or_low zero q zero (suc s) h h' = absurd (omega arith)
bit_or_low zero q (suc r) s h h' = absurd (omega arith)
bit_or_low (suc k) q r s h h' =
    let e : q * 2 ^ suc k ≡ q * 2 ^ k * 2 = pow-double q k in
    let small : r < 2 ^ k * 2 = subst (λ p. r < p) (pow-suc 2 k) h in
    let small' : s < 2 ^ k * 2 = subst (λ p. s < p) (pow-suc 2 k) h' in
    let half : (q * 2 ^ suc k + r) / 2 ≡ q * 2 ^ k + r / 2 = omega arith in
    bit_or_step (q * 2 ^ suc k + r) s
    ∙ rw half
        (omega (arith, bit_or_step r s, bit_or_low k q (r / 2) (s / 2) (omega arith) (omega arith)))

pub bit_or-lt : (k r s : ℕ) → r < 2 ^ k → s < 2 ^ k → bit_or r s < 2 ^ k
bit_or-lt zero zero zero h h' = omega arith
bit_or-lt zero zero (suc s) h h' = absurd (omega arith)
bit_or-lt zero (suc r) s h h' = absurd (omega arith)
bit_or-lt (suc k) r s h h' =
    let small : r < 2 ^ k * 2 = subst (λ p. r < p) (pow-suc 2 k) h in
    let small' : s < 2 ^ k * 2 = subst (λ p. s < p) (pow-suc 2 k) h' in
    let rest = bit_or-lt k (r / 2) (s / 2) (omega arith) (omega arith) in
    let step = bit_or_step r s in rw (pow-suc 2 k) (omega arith)

-- What `& 0xfffff000` leaves of a 32-bit word: the address of the page.
pub bit_and_page : (e : ℕ) → bit_and e 0xfffff000 ≡ e / 4096 % 2 ^ 20 * 4096
bit_and_page e =
    let split : e ≡ e / 4096 * 2 ^ 12 + e % 4096 = omega arith in
    ap (λ x. bit_and x 0xfffff000) split
    ∙ bit_and_high 12 (e / 4096) (e % 4096) 0xfffff (omega arith)
    ∙ ap (λ x. x * 4096) (bit_and_mask 20 (e / 4096) 0xfffff refl)
