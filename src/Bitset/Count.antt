-- ===== src/Bitset/Count.antt =====
-- `count`, `none`, `any` and `all` against the bits that a bitset holds.
use Prim.Native.Nat.{bit_or}
use testing.Common.{
  ℕ, zero, suc, ◌+◌, ◌-◌, ◌*◌, ◌/◌, ◌%◌, ◌≤◌, ◌<◌, ◌≡◌, ◌∙◌, refl, ap, Bool, false, not, ◌&&◌, List,
  [], ◌∷◌, arith, length, get_or, All, ◌==◌, if◌then◌else◌,
}
use testing.Common.Words.{test_bit, bit_or-ge}
use testing.Bitset.{Bitset, test, count, sum_popcount, is_none, or_bytes, any}
use testing.Bitset.Bytes.{count_bits, popcount-count_bits, popcount-eq_zero}
use testing.Bitset.Valid.{IsValid, IsByte}

-- How many of the indices below `n` satisfy `f`.
unfoldable pub count_below : ℕ → (ℕ → Bool) → ℕ
count_below zero f = 0
count_below (suc n) f = if f n then suc (count_below n f) else count_below n f

pub count_below-cong :
    (n : ℕ) (f g : ℕ → Bool) → ((i : ℕ) → i < n → f i ≡ g i) → count_below n f ≡ count_below n g
unfolding count_below
count_below-cong zero f g h = refl
count_below-cong (suc n) f g h =
    ground (arith, h n (omega arith), count_below-cong n f g (λ i l. h i (omega arith)))

-- Indices beyond the last hit add nothing.
pub count_below-beyond :
    (k n m : ℕ) (f : ℕ → Bool)
    → n + k ≡ m
    → ((i : ℕ) → n ≤ i → f i ≡ false)
    → count_below m f ≡ count_below n f
unfolding count_below
count_below-beyond zero n m f e h = ap (λ t. count_below t f) (omega arith)
count_below-beyond (suc k) n zero f e h = absurd (omega arith)
count_below-beyond (suc k) n (suc m) f e h =
    ground (arith, h m (omega arith), count_below-beyond k n m f (omega arith) h)

pub count_below-split :
    (n a m : ℕ) (f : ℕ → Bool)
    → a + n ≡ m
    → count_below m f ≡ count_below a f + count_below n (λ i. f (a + i))
unfolding count_below
count_below-split zero a m f e = let q : m ≡ a = omega arith in rw q (omega arith)
count_below-split (suc n) a zero f e = absurd (omega arith)
count_below-split (suc n) a (suc m) f e =
    let q : m ≡ a + n = omega arith in
    ground (arith, count_below-split n a m f (omega arith), ap f q)

count_below-le : (n : ℕ) (f : ℕ → Bool) → count_below n f ≤ n
unfolding count_below
count_below-le zero f = omega arith
count_below-le (suc n) f = ground (arith, count_below-le n f)

-- The bits of a list of bytes, in one row.
abbrev bit_at : List ℕ → ℕ → Bool
bit_at vs i = test_bit (get_or vs (i / 8) 0) (i % 8)

count_bits-count_below :
    (n v : ℕ) (vs : List ℕ) → n ≤ 8 → count_bits n v ≡ count_below n (bit_at (v ∷ vs))
unfolding count_bits count_below
count_bits-count_below zero v vs h = refl
count_bits-count_below (suc n) v vs h =
    let byte : n / 8 ≡ 0 = omega arith in
    let at : n % 8 ≡ n = omega arith in
    rw (byte, at) (ground (arith, count_bits-count_below n v vs (omega arith)))

next_byte : (v : ℕ) (vs : List ℕ) (i : ℕ) → bit_at (v ∷ vs) (8 + i) ≡ bit_at vs i
next_byte v vs i =
    let byte : (8 + i) / 8 ≡ suc (i / 8) = omega arith in
    let at : (8 + i) % 8 ≡ i % 8 = omega arith in rw (byte, at)

count_none : 0 ≡ count_below 0 (bit_at [])
unfolding count_below
count_none = refl

sum_popcount-count_below :
    (vs : List ℕ) → All IsByte vs → sum_popcount vs ≡ count_below (8 * length vs) (bit_at vs)
unfolding sum_popcount
sum_popcount-count_below [] h = count_none
sum_popcount-count_below (v ∷ vs) h = omega (
  arith,
  popcount-count_bits v h.0,
  count_bits-count_below 8 v vs (omega arith),
  sum_popcount-count_below vs h.1,
  count_below-split (8 * length vs) 8 (8 * length (v ∷ vs)) (bit_at (v ∷ vs)) (omega arith),
  count_below-cong (8 * length vs) _ (bit_at vs) (λ i _. next_byte v vs i),
)

-- On a valid bitset `count` is the number of indices within the size whose bit is set.
pub count_lem : (b : Bitset) → IsValid b → count b ≡ count_below b.data_size (test b)
unfolding count test
count_lem b v =
    sum_popcount-count_below b.bytes v.shape.byte
    ∙ count_below-beyond (8 * length b.bytes - b.data_size) b.data_size (8 * length b.bytes)
        (test b) (omega (arith, v.shape)) v.padding

pub count-le_size : (b : Bitset) → IsValid b → count b ≤ b.data_size
count-le_size b v = rw (count_lem b v) (count_below-le b.data_size (test b))

zero_or : (a b : ℕ) → a ≡ 0 → b ≡ 0 → bit_or a b ≡ 0
zero_or a b p q = rw (p, q)

or_zero : (a b : ℕ) → (bit_or a b == 0) ≡ ((a == 0) && (b == 0))
or_zero a b = ground (arith, bit_or-ge a b, zero_or a b)

or_bytes-sum_popcount :
    (vs : List ℕ) (ret : ℕ)
    → All IsByte vs
    → (or_bytes ret vs == 0) ≡ ((ret == 0) && (sum_popcount vs == 0))
unfolding or_bytes sum_popcount
or_bytes-sum_popcount [] ret h = ground arith
or_bytes-sum_popcount (v ∷ vs) ret h =
    ground
      (arith, or_bytes-sum_popcount vs (bit_or ret v) h.1, or_zero ret v, popcount-eq_zero v h.0)

-- On a valid bitset `none` holds exactly if `count` is 0.
pub is_none-count : (b : Bitset) → IsValid b → is_none b ≡ (count b == 0)
unfolding is_none count
is_none-count b v = or_bytes-sum_popcount b.bytes 0 v.shape.byte

pub any-count : (b : Bitset) → IsValid b → any b ≡ not (count b == 0)
unfolding any
any-count b v = ap not (is_none-count b v)
