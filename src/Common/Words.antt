-- ===== src/Common/Words.antt =====
-- The bits of a word: `v & (1 << k)`, and how `&`, `|`, `^` and `~` act on it.
use Prim.Native.Nat.{digits, bitwise, differ, bit_and-bitwise, bit_or-bitwise, bit_xor-bitwise}
use Prim.Native.Nat.{bit_and, bit_or, bit_xor, min, max}
use Prim.Native.Nat.{ℕ, zero, suc, ◌+◌, ◌*◌, ◌/◌, ◌%◌, ◌^◌, ◌≤◌, ◌<◌}
use mathlib.Core.Path.{◌≡◌, refl}
use mathlib.Core.Bool.{Bool, not, ◌&&◌, ◌||◌, xor}
use native.Mathlib.Nat.{pow-suc, le_refl}
use native.Mathlib.Omega.{arith}
use testing.Common.Tests.{◌==◌}

-- The digits of a native operation do not depend on the fuel, if there is enough; `rest` answers when
-- the first operand has run out of digits.
module _ (rest : ℕ → ℕ) (op : ℕ → ℕ → ℕ) where
  more_digits : (a b n m : ℕ) → a ≤ m → a ≤ n → digits rest op n a b ≡ digits rest op m a b
  more_digits (suc a) b (suc n) (suc m) p q =
      let ih = more_digits (suc a / 2) (b / 2) n m (omega arith) (omega arith) in omega (arith, ih)
  more_digits (suc a) b (suc n) zero p q = absurd (omega arith)
  more_digits (suc a) b zero m p q = absurd (omega arith)
  more_digits zero b (suc n) (suc m) p q = refl
  more_digits zero b (suc n) zero p q = refl
  more_digits zero b zero (suc m) p q = refl
  more_digits zero b zero zero p q = refl

  lowest_digit :
      (b a : ℕ)
      → bitwise rest op (suc a) b ≡ bitwise rest op (suc a / 2) (b / 2) * 2 + op (suc a % 2) (b % 2)
  lowest_digit b a =
      omega (arith, more_digits (suc a / 2) (b / 2) a (suc a / 2) (le_refl _) (omega arith))

pub and_digit : (a b : ℕ) → bit_and a b ≡ bit_and (a / 2) (b / 2) * 2 + min (a % 2) (b % 2)
and_digit zero b = simp bit_and-bitwise (omega arith)
and_digit (suc a) b = simp bit_and-bitwise (lowest_digit (λ _. 0) min b a)

pub or_digit : (a b : ℕ) → bit_or a b ≡ bit_or (a / 2) (b / 2) * 2 + max (a % 2) (b % 2)
or_digit zero b = simp bit_or-bitwise (omega arith)
or_digit (suc a) b = simp bit_or-bitwise (lowest_digit (λ c. c) max b a)

pub xor_digit : (a b : ℕ) → bit_xor a b ≡ bit_xor (a / 2) (b / 2) * 2 + differ (a % 2) (b % 2)
xor_digit zero b = simp bit_xor-bitwise (omega arith)
xor_digit (suc a) b = simp bit_xor-bitwise (lowest_digit (λ c. c) differ b a)

-- `v & (0x01 << k)`, read as a condition.
unfoldable pub test_bit : ℕ → ℕ → Bool
test_bit v k = not (bit_and v (2 ^ k) == 0)

zero-bit_and : (n a : ℕ) → a ≤ n → bit_and a 0 ≡ 0
zero-bit_and zero zero h = refl
zero-bit_and zero (suc a) h = absurd (omega arith)
zero-bit_and (suc n) a h = omega (arith, and_digit a 0, zero-bit_and n (a / 2) (omega arith))

test_bit_zero : (v : ℕ) → test_bit v 0 ≡ (v % 2 == 1)
unfolding test_bit
test_bit_zero v = ground (arith, and_digit v 1, zero-bit_and (v / 2) (v / 2) (le_refl _))

test_bit-suc : (v k : ℕ) → test_bit v (suc k) ≡ test_bit (v / 2) k
unfolding test_bit
test_bit-suc v k = ground (arith, pow-suc 2 k, and_digit v (2 ^ suc k))

differ-lt : (x y : ℕ) → x < 2 → y < 2 → differ x y < 2
differ-lt x y hx hy = grind arith

-- The three operations act on each bit alone.
pub test_bit-and : (k a b : ℕ) → test_bit (bit_and a b) k ≡ (test_bit a k && test_bit b k)
test_bit-and zero a b =
    ground (arith, test_bit_zero (bit_and a b), test_bit_zero a, test_bit_zero b, and_digit a b)
test_bit-and (suc k) a b =
    let half : bit_and a b / 2 ≡ bit_and (a / 2) (b / 2) = omega (arith, and_digit a b) in
    rw (test_bit-suc, half, test_bit-suc a k, test_bit-suc b k) (test_bit-and k (a / 2) (b / 2))

pub test_bit-or : (k a b : ℕ) → test_bit (bit_or a b) k ≡ (test_bit a k || test_bit b k)
test_bit-or zero a b =
    ground (arith, test_bit_zero (bit_or a b), test_bit_zero a, test_bit_zero b, or_digit a b)
test_bit-or (suc k) a b =
    let half : bit_or a b / 2 ≡ bit_or (a / 2) (b / 2) = omega (arith, or_digit a b) in
    rw (test_bit-suc, half, test_bit-suc a k, test_bit-suc b k) (test_bit-or k (a / 2) (b / 2))

pub test_bit-xor : (k a b : ℕ) → test_bit (bit_xor a b) k ≡ xor (test_bit a k) (test_bit b k)
unfolding xor
test_bit-xor zero a b =
    ground (arith, test_bit_zero (bit_xor a b), test_bit_zero a, test_bit_zero b, xor_digit a b)
test_bit-xor (suc k) a b =
    let half : bit_xor a b / 2 ≡ bit_xor (a / 2) (b / 2) =
      omega (arith, xor_digit a b, differ-lt (a % 2) (b % 2) (omega arith) (omega arith)) in
    rw (test_bit-suc, half, test_bit-suc a k, test_bit-suc b k) (test_bit-xor k (a / 2) (b / 2))

and-le_left : (n a b : ℕ) → a ≤ n → bit_and a b ≤ a
and-le_left zero zero b h = simp bit_and-bitwise (omega arith)
and-le_left zero (suc a) b h = absurd (omega arith)
and-le_left (suc n) a b h =
    omega (arith, and_digit a b, and-le_left n (a / 2) (b / 2) (omega arith))

and-le_right : (n a b : ℕ) → a ≤ n → bit_and a b ≤ b
and-le_right zero zero b h = simp bit_and-bitwise (omega arith)
and-le_right zero (suc a) b h = absurd (omega arith)
and-le_right (suc n) a b h =
    omega (arith, and_digit a b, and-le_right n (a / 2) (b / 2) (omega arith))

pub bit_and-le_left : (a b : ℕ) → bit_and a b ≤ a
bit_and-le_left a b = and-le_left a a b (le_refl _)

pub bit_and-le_right : (a b : ℕ) → bit_and a b ≤ b
bit_and-le_right a b = and-le_right a a b (le_refl _)

or-ge : (n a b : ℕ) → a ≤ n → (a ≤ bit_or a b) × (b ≤ bit_or a b)
or-ge zero zero b h = simp bit_or-bitwise (omega arith)
or-ge zero (suc a) b h = absurd (omega arith)
or-ge (suc n) a b h = omega (arith, or_digit a b, or-ge n (a / 2) (b / 2) (omega arith))

pub bit_or-ge : (a b : ℕ) → (a ≤ bit_or a b) × (b ≤ bit_or a b)
bit_or-ge a b = or-ge a a b (le_refl _)

-- `|` and `^` stay within the width of their operands.
pub bit_or-lt : (w a b : ℕ) → a < 2 ^ w → b < 2 ^ w → bit_or a b < 2 ^ w
bit_or-lt zero a b ha hb = let e : a ≡ 0 = omega arith in rw e (simp bit_or-bitwise (omega arith))
bit_or-lt (suc w) a b ha hb = omega (
  arith,
  or_digit a b,
  pow-suc 2 w,
  bit_or-lt w (a / 2) (b / 2) (omega (arith, pow-suc 2 w)) (omega (arith, pow-suc 2 w)),
)

pub bit_xor-lt : (w a b : ℕ) → a < 2 ^ w → b < 2 ^ w → bit_xor a b < 2 ^ w
bit_xor-lt zero a b ha hb = let e : a ≡ 0 = omega arith in rw e (simp bit_xor-bitwise (omega arith))
bit_xor-lt (suc w) a b ha hb = omega (
  arith,
  xor_digit a b,
  differ-lt (a % 2) (b % 2) (omega arith) (omega arith),
  pow-suc 2 w,
  bit_xor-lt w (a / 2) (b / 2) (omega (arith, pow-suc 2 w)) (omega (arith, pow-suc 2 w)),
)
