-- ===== src/Bitset/Bytes.antt =====
-- What the byte operations of util/bitset.cc do to each bit, by tables over all bytes.
use Prim.Native.Nat.{bit_and, bit_or}
use testing.Common.{
  ℕ, zero, suc, ◌-◌, ◌*◌, ◌/◌, ◌%◌, ◌^◌, ◌<◌, ◌≡◌, ◌∙◌, refl, Bool, true, false, not, ◌&&◌, arith,
  ◌==◌, ==→eq, ltb, ltb→lt, if◌then◌else◌, holds_below, holds_below_sound,
}
use testing.Common.Words.{test_bit, test_bit-and, test_bit-or}
use testing.Bitset.{popcount, bit, mask_out}

iff_bool : Bool → Bool → Bool
iff_bool true b = b
iff_bool false b = not b

iff_bool_eq : (a b : Bool) → iff_bool a b ≡ true → a ≡ b
unfolding iff_bool
iff_bool_eq true b h = ground arith
iff_bool_eq false b h = ground arith

-- One table of two arguments.
table :
    (n m : ℕ) (f g : ℕ → ℕ → Bool)
    → holds_below n (λ x. holds_below m (λ y. iff_bool (f x y) (g x y))) ≡ true
    → (x y : ℕ) → x < n
    → y < m
    → f x y ≡ g x y
table n m f g t x y hx hy = iff_bool_eq (f x y) (g x y) (
    holds_below_sound m _ y
      (holds_below_sound n (λ x. holds_below m (λ y. iff_bool (f x y) (g x y))) x t hx) hy)

pub test_bit-bit : (k j : ℕ) → k < 8 → j < 8 → test_bit (bit k) j ≡ (k == j)
unfolding holds_below iff_bool test_bit
test_bit-bit = table 8 8 (λ k j. test_bit (bit k) j) (λ k j. k == j) refl

pub test_bit-mask_out : (k j : ℕ) → k < 8 → j < 8 → test_bit (mask_out k) j ≡ not (k == j)
unfolding holds_below iff_bool test_bit
test_bit-mask_out = table 8 8 (λ k j. test_bit (mask_out k) j) (λ k j. not (k == j)) refl

pub test_bit-negate : (v j : ℕ) → v < 256 → j < 8 → test_bit (255 - v) j ≡ not (test_bit v j)
unfolding holds_below iff_bool test_bit
test_bit-negate = table 256 8 (λ v j. test_bit (255 - v) j) (λ v j. not (test_bit v j)) refl

-- The mask of the last byte has its `8 - s` low bits.
pub test_bit-tail : (s j : ℕ) → s < 8 → j < 8 → test_bit (255 / 2 ^ s) j ≡ ltb j (8 - s)
unfolding holds_below iff_bool test_bit
test_bit-tail = table 8 8 (λ s j. test_bit (255 / 2 ^ s) j) (λ s j. ltb j (8 - s)) refl

-- The mask of `all` has the others.
pub test_bit-head : (s j : ℕ) → s < 9 → j < 8 → test_bit (255 * 2 ^ s % 256) j ≡ not (ltb j s)
unfolding holds_below iff_bool test_bit
test_bit-head = table 9 8 (λ s j. test_bit (255 * 2 ^ s % 256) j) (λ s j. not (ltb j s)) refl

pub test_bit_ones : (j : ℕ) → j < 8 → test_bit 255 j ≡ true
test_bit_ones j h = test_bit-tail 0 j (omega arith) h ∙ ground arith

pub test_bit-zero_byte : (j : ℕ) → j < 8 → test_bit 0 j ≡ false
test_bit-zero_byte j h = ground (arith, test_bit-negate 255 j (omega arith) h, test_bit_ones j h)

-- Bits of a byte, from the lowest; `popcount` counts them.
unfoldable pub count_bits : ℕ → ℕ → ℕ
count_bits zero v = 0
count_bits (suc n) v = if test_bit v n then suc (count_bits n v) else count_bits n v

popcount_table : holds_below 256 (λ v. popcount v == count_bits 8 v) ≡ true
unfolding holds_below popcount count_bits test_bit
popcount_table = refl

pub popcount-count_bits : (v : ℕ) → v < 256 → popcount v ≡ count_bits 8 v
popcount-count_bits v h =
    ==→eq _ _ (holds_below_sound 256 (λ v. popcount v == count_bits 8 v) v popcount_table h)

popcount_zero_table : holds_below 256 (λ v. iff_bool (popcount v == 0) (v == 0)) ≡ true
unfolding holds_below popcount iff_bool
popcount_zero_table = refl

pub popcount-eq_zero : (v : ℕ) → v < 256 → (popcount v == 0) ≡ (v == 0)
popcount-eq_zero v h =
    iff_bool_eq _ _
      (holds_below_sound 256 (λ v. iff_bool (popcount v == 0) (v == 0)) v popcount_zero_table h)

-- A byte whose bits are all set, or all clear, is known.
ones_below : ℕ → ℕ → Bool
ones_below zero v = true
ones_below (suc n) v = test_bit v n && ones_below n v

none_below : ℕ → ℕ → Bool
none_below zero v = true
none_below (suc n) v = not (test_bit v n) && none_below n v

ones_table : holds_below 256 (λ v. iff_bool (ones_below 8 v) (v == 255)) ≡ true
unfolding holds_below iff_bool ones_below test_bit
ones_table = refl

none_table : holds_below 256 (λ v. iff_bool (none_below 8 v) (v == 0)) ≡ true
unfolding holds_below iff_bool none_below test_bit
none_table = refl

ones_below_of : (n v : ℕ) → ((j : ℕ) → j < n → test_bit v j ≡ true) → ones_below n v ≡ true
unfolding ones_below
ones_below_of zero v h = refl
ones_below_of (suc n) v h =
    ground (arith, h n (omega arith), ones_below_of n v (λ j l. h j (omega arith)))

none_below_of : (n v : ℕ) → ((j : ℕ) → j < n → test_bit v j ≡ false) → none_below n v ≡ true
unfolding none_below
none_below_of zero v h = refl
none_below_of (suc n) v h =
    ground (arith, h n (omega arith), none_below_of n v (λ j l. h j (omega arith)))

pub eq-ones : (v : ℕ) → v < 256 → ((j : ℕ) → j < 8 → test_bit v j ≡ true) → v ≡ 255
eq-ones v lt h = ground (
  arith,
  ones_below_of 8 v h,
  iff_bool_eq _ _
      (holds_below_sound 256 (λ v. iff_bool (ones_below 8 v) (v == 255)) v ones_table lt),
)

pub eq-zero : (v : ℕ) → v < 256 → ((j : ℕ) → j < 8 → test_bit v j ≡ false) → v ≡ 0
eq-zero v lt h = ground (
  arith,
  none_below_of 8 v h,
  iff_bool_eq _ _ (holds_below_sound 256 (λ v. iff_bool (none_below 8 v) (v == 0)) v none_table lt),
)

-- A single bit and its complement are bytes.
bit_table : holds_below 8 (λ k. ltb (bit k) 256) ≡ true
unfolding holds_below
bit_table = refl

pub bit-lt : (k : ℕ) → k < 8 → bit k < 256
bit-lt k h = ltb→lt _ _ (holds_below_sound 8 (λ k. ltb (bit k) 256) k bit_table h)

-- Clearing and setting one bit leaves the other bits.
pub test_bit-clear :
    (v k j : ℕ)
    → k < 8
    → j < 8
    → test_bit (bit_and v (mask_out k)) j ≡ (if k == j then false else test_bit v j)
test_bit-clear v k j hk hj =
    ground (arith, test_bit-and j v (mask_out k), test_bit-mask_out k j hk hj)

pub test_bit-fill :
    (v k j : ℕ)
    → k < 8
    → j < 8
    → test_bit (bit_or v (bit k)) j ≡ (if k == j then true else test_bit v j)
test_bit-fill v k j hk hj = ground (arith, test_bit-or j v (bit k), test_bit-bit k j hk hj)
