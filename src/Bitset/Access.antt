-- ===== src/Bitset/Access.antt =====
-- `set(idx, value)`, `reset(idx)` and `flip(idx)` change the bit at `idx` and no other.
use Prim.Native.Nat.{bit_and}
use testing.Common.{
  ℕ, ◌-◌, ◌/◌, ◌%◌, ◌^◌, ◌<◌, ◌≡◌, ◌∙◌, refl, sym, Bool, true, false, not, List, arith, length,
  length-set, get_or, get_or-set, set, All-set, ◌==◌, ==→eq, if◌then◌else◌, Bool-cases, inl, inr,
}
use testing.Common.Words.{test_bit, test_bit-or, test_bit-and, bit_and-le_left, bit_or-lt}
use testing.Bitset.{Bitset, test, set_at, reset_at, flip_at, bit, mask_out}
use testing.Bitset.Bytes.{bit-lt, test_bit-clear, test_bit-fill, test_bit-negate, test_bit-bit}
use testing.Bitset.Valid.{HasShape, IsValid, IsByte, get_or-IsByte, in_bounds}

-- Two indices are one if they agree in byte and bit.
same_index : (i j : ℕ) → i / 8 ≡ j / 8 → (i == j) ≡ (i % 8 == j % 8)
same_index i j h = ground arith

other_byte : (i j : ℕ) → (i / 8 == j / 8) ≡ false → (i == j) ≡ false
other_byte i j h = ground arith

-- Reading a bit after byte `i / 8` has been replaced by `w`.
test-set_byte :
    (bs : List ℕ) (i j w : ℕ)
    → i / 8 < length bs
    → test_bit (get_or (set bs (i / 8) w) (j / 8) 0) (j % 8)
      ≡ (if i / 8 == j / 8 then test_bit w (j % 8) else test_bit (get_or bs (j / 8) 0) (j % 8))
test-set_byte bs i j w h = ground (arith, get_or-set bs (i / 8) (j / 8) w 0 h)

-- A byte that gives bit `i` the value `x` and keeps its other bits does so for the whole bitset.
test-set_bit :
    (bs : List ℕ) (i j w : ℕ) (x : Bool)
    → i / 8 < length bs
    → ((k : ℕ)
        → k < 8
        → test_bit w k ≡ (if i % 8 == k then x else test_bit (get_or bs (i / 8) 0) k))
    → test_bit (get_or (set bs (i / 8) w) (j / 8) 0) (j % 8)
      ≡ (if i == j then x else test_bit (get_or bs (j / 8) 0) (j % 8))
test-set_bit bs i j w x h hw = elim (Bool-cases (i / 8 == j / 8)) [
  | inl e ↦
      let same : i / 8 ≡ j / 8 = ==→eq _ _ e in
      test-set_byte bs i j w h ∙ rw (e, hw (j % 8) (omega arith), same_index i j same, same)
  | inr e ↦ test-set_byte bs i j w h ∙ rw (e, other_byte i j e)
]

-- For an index within the allocation, `reset(i)` clears bit `i` and keeps every other bit.
pub test-reset_at :
    (b : Bitset) (i j : ℕ)
    → i / 8 < length b.bytes
    → test (reset_at b i) j ≡ (if i == j then false else test b j)
unfolding test reset_at
test-reset_at b i j h =
    test-set_bit b.bytes i j _ false h
      λ k hk. test_bit-clear (get_or b.bytes (i / 8) 0) (i % 8) k (omega arith) hk

-- For an index within the allocation, `set(i, value)` gives bit `i` the value and keeps every
-- other bit.
pub test-set_at :
    (b : Bitset) (i j : ℕ) (value : Bool)
    → i / 8 < length b.bytes
    → test (set_at b i value) j ≡ (if i == j then value else test b j)
unfolding test set_at reset_at
test-set_at b i j false h =
    test-set_bit b.bytes i j _ false h
      λ k hk. test_bit-clear (get_or b.bytes (i / 8) 0) (i % 8) k (omega arith) hk
test-set_at b i j true h =
    let kept = test-reset_at b i j h in
    let w = bit_and (get_or b.bytes (i / 8) 0) (mask_out (i % 8)) in
    let cleared = set b.bytes (i / 8) w in
    let filled =
      test-set_bit cleared i j _ true (omega (arith, length-set b.bytes (i / 8) w))
        (λ k hk. test_bit-fill (get_or cleared (i / 8) 0) (i % 8) k (omega arith) hk) in
    ground (arith, kept, filled)

-- For an index within the allocation whose byte is a byte, `flip(i)` negates bit `i` and keeps
-- every other bit.
pub test-flip_at :
    (b : Bitset) (i j : ℕ)
    → IsByte (get_or b.bytes (i / 8) 0)
    → i / 8 < length b.bytes
    → test (flip_at b i) j ≡ (if i == j then not (test b i) else test b j)
unfolding test flip_at
test-flip_at b i j lt h = test-set_bit b.bytes i j _ _ h λ k hk. ground (
  arith,
  test_bit-or k (bit_and (255 - get_or b.bytes (i / 8) 0) (bit (i % 8)))
      (bit_and (get_or b.bytes (i / 8) 0) (mask_out (i % 8))),
  test_bit-and k (255 - get_or b.bytes (i / 8) 0) (bit (i % 8)),
  test_bit-negate (get_or b.bytes (i / 8) 0) k lt hk,
  test_bit-bit (i % 8) k (omega arith) hk,
  test_bit-clear (get_or b.bytes (i / 8) 0) (i % 8) k (omega arith) hk,
)

-- A byte replaced by a byte keeps the shape.
set_byte-HasShape :
    (b : Bitset) (i w : ℕ) → HasShape b → IsByte w → HasShape (record b { bytes = set b.bytes i w })
set_byte-HasShape b i w s h = record {
  byte = All-set IsByte b.bytes i w s.byte h;
  allocated = s.allocated ∙ sym (length-set b.bytes i w);
  fits = s.fits;
  word = s.word;
}

-- The three operations keep the invariant.
module _ (b : Bitset) (v : IsValid b) (i : ℕ) (h : i < b.data_size) where
  reset_at-HasShape : HasShape (reset_at b i)
  unfolding reset_at
  reset_at-HasShape = set_byte-HasShape b (i / 8) _ v.shape (
      omega (
        arith,
        bit_and-le_left (get_or b.bytes (i / 8) 0) (mask_out (i % 8)),
        get_or-IsByte b.bytes (i / 8) v.shape.byte,
      ))

  pub reset_at-IsValid : IsValid (reset_at b i)
  unfolding reset_at
  reset_at-IsValid = record {
    shape = reset_at-HasShape;
    padding = λ j le. test-reset_at b i j (in_bounds i v.shape h) ∙ ground (arith, v.padding j le);
  }

  set_at-HasShape : (value : Bool) → HasShape (set_at b i value)
  unfolding set_at reset_at
  set_at-HasShape false = reset_at-HasShape
  set_at-HasShape true = set_byte-HasShape _ (i / 8) _ reset_at-HasShape (
      bit_or-lt 8 _ (2 ^ (i % 8)) (get_or-IsByte _ (i / 8) reset_at-HasShape.byte)
        (bit-lt (i % 8) (omega arith)))

  -- On a valid bitset, for an index within the size, `set(i, value)` keeps the bitset valid: its
  -- bytes are bytes and its unused bits are clear.
  pub set_at-IsValid : (value : Bool) → IsValid (set_at b i value)
  unfolding set_at
  set_at-IsValid value = record {
    shape = set_at-HasShape value;
    padding =
        λ j le. test-set_at b i j value (in_bounds i v.shape h) ∙ ground (arith, v.padding j le);
  }

  flip_at-HasShape : HasShape (flip_at b i)
  unfolding flip_at
  flip_at-HasShape =
      let old = get_or b.bytes (i / 8) 0 in
      let lt : old < 256 = get_or-IsByte b.bytes (i / 8) v.shape.byte in
      set_byte-HasShape b (i / 8) _ v.shape (
        bit_or-lt 8 _ _ (omega (arith, bit_and-le_left (255 - old) (bit (i % 8))))
          (omega (arith, bit_and-le_left old (mask_out (i % 8)))))

  pub flip_at-IsValid : IsValid (flip_at b i)
  unfolding flip_at
  flip_at-IsValid = record {
    shape = flip_at-HasShape;
    padding = λ j le.
        test-flip_at b i j (get_or-IsByte b.bytes (i / 8) v.shape.byte) (in_bounds i v.shape h)
        ∙ ground (arith, v.padding j le);
  }

pub data_size-set_at :
    (b : Bitset) (i : ℕ) (value : Bool) → (set_at b i value).data_size ≡ b.data_size
unfolding set_at
data_size-set_at b i value = refl

pub data_size-reset_at : (b : Bitset) (i : ℕ) → (reset_at b i).data_size ≡ b.data_size
unfolding reset_at
data_size-reset_at b i = refl
