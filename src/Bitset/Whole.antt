-- ===== src/Bitset/Whole.antt =====
-- The operations on a whole bitset: `set()` and `reset()`.
use testing.Common.{
  ℕ, zero, suc, ◌*◌, ◌/◌, ◌%◌, ◌^◌, ◌≤◌, ◌<◌, ◌≡◌, ◌∙◌, refl, sym, ap, false, List, [], ◌∷◌, map,
  arith, length, length-map, get_or, get_or-beyond, All, ◌==◌, ==→eq, if◌then◌else◌, Bool-cases,
  inl, inr, ltb, ltb→lt,
}
use testing.Common.Words.{test_bit}
use testing.Bitset.{Bitset, test, set_all, reset_all, fill, tail_mask, sub32}
use testing.Bitset.Bytes.{test_bit-tail, test_bit_ones, test_bit-zero_byte}
use testing.Bitset.Valid.{HasShape, IsValid, IsByte}

-- `reset()`.
abbrev zeros : List ℕ → List ℕ
zeros = map (λ _. 0)

get_or-zeros : (vs : List ℕ) (i : ℕ) → get_or (zeros vs) i 0 ≡ 0
get_or-zeros [] i = refl
get_or-zeros (v ∷ vs) zero = refl
get_or-zeros (v ∷ vs) (suc i) = get_or-zeros vs i

pub test-reset_all : (b : Bitset) (i : ℕ) → test (reset_all b) i ≡ false
unfolding test reset_all
test-reset_all b i =
    ground (arith, get_or-zeros b.bytes (i / 8), test_bit-zero_byte (i % 8) (omega arith))

map_zero-IsByte : (vs : List ℕ) → All IsByte (map (λ _. 0) vs)
map_zero-IsByte [] = tt
map_zero-IsByte (v ∷ vs) = (omega arith, map_zero-IsByte vs)

pub reset_all-IsValid : (b : Bitset) → HasShape b → IsValid (reset_all b)
unfolding reset_all
reset_all-IsValid b s = record {
  shape = record {
    byte = map_zero-IsByte b.bytes;
    allocated = s.allocated ∙ sym (length-map _ b.bytes);
    fits = s.fits;
    word = s.word;
  };
  padding = λ i _. test-reset_all b i;
}

-- `set()`: the bytes, the last of them apart.
get_or-fill :
    (v last : ℕ) (vs : List ℕ) (i : ℕ)
    → i < length vs
    → get_or (fill v last vs) i 0 ≡ (if suc i == length vs then last else v)
unfolding fill
get_or-fill v last [] i h = absurd (omega arith)
get_or-fill v last (x ∷ []) zero h = refl
get_or-fill v last (x ∷ []) (suc i) h = absurd (omega arith)
get_or-fill v last (x ∷ y ∷ vs) zero h = ground arith
get_or-fill v last (x ∷ y ∷ vs) (suc i) h =
    ground (arith, get_or-fill v last (y ∷ vs) i (omega arith))

length-fill : (v last : ℕ) (vs : List ℕ) → length (fill v last vs) ≡ length vs
unfolding fill
length-fill v last [] = refl
length-fill v last (x ∷ []) = refl
length-fill v last (x ∷ y ∷ vs) = ap suc (length-fill v last (y ∷ vs))

fill-IsByte : (v last : ℕ) (vs : List ℕ) → v < 256 → last < 256 → All IsByte (fill v last vs)
unfolding fill
fill-IsByte v last [] h k = tt
fill-IsByte v last (x ∷ []) h k = (k, tt)
fill-IsByte v last (x ∷ y ∷ vs) h k = (h, fill-IsByte v last (y ∷ vs) h k)

div_le : (a k : ℕ) → a / k ≤ a
div_le a k = grind arith

-- The last byte holds the bits below the size, and the mask has just those.
module _ (b : Bitset) (s : HasShape b) where
  pub test_bit-tail_mask :
      (i : ℕ) → suc (i / 8) ≡ length b.bytes → test_bit (tail_mask b) (i % 8) ≡ ltb i b.data_size
  test_bit-tail_mask i h =
      test_bit-tail (sub32 (b.alloc_size * 8) b.data_size) (i % 8) (omega (arith, s)) (omega arith)
      ∙ ground (arith, s)

  pub beyond :
      (vs : List ℕ) (i : ℕ) → length vs ≤ i / 8 → test_bit (get_or vs (i / 8) 0) (i % 8) ≡ false
  beyond vs i h = rw (get_or-beyond vs (i / 8) 0 h) (test_bit-zero_byte (i % 8) (omega arith))

  pub outside : (i : ℕ) → ltb (i / 8) (length b.bytes) ≡ false → ltb i b.data_size ≡ false
  outside i h = ground (arith, s)

  -- On a bitset of the right shape `set()` sets the bits below the size and clears the unused
  -- ones.
  pub test-set_all : (i : ℕ) → test (set_all b) i ≡ ltb i b.data_size
  unfolding test set_all
  test-set_all i = elim (Bool-cases (ltb (i / 8) (length b.bytes))) [
    | inl lt ↦
        let byte = get_or-fill 255 (tail_mask b) b.bytes (i / 8) (ltb→lt _ _ lt) in
        elim (Bool-cases (suc (i / 8) == length b.bytes)) [
          | inl e ↦ rw (byte, e) (test_bit-tail_mask i (==→eq _ _ e))
          | inr e ↦ rw (byte, e) (test_bit_ones (i % 8) (omega arith) ∙ ground (arith, s))
        ]
    | inr ge ↦
        let len = length-fill 255 (tail_mask b) b.bytes in
        beyond (fill 255 (tail_mask b) b.bytes) i (ground arith) ∙ sym (outside i ge)
  ]

  tail_mask-lt : tail_mask b < 256
  tail_mask-lt = omega (arith, div_le 255 (2 ^ sub32 (b.alloc_size * 8) b.data_size))

  pub set_all-IsValid : IsValid (set_all b)
  unfolding set_all
  set_all-IsValid = record {
    shape = record {
      byte = fill-IsByte 255 (tail_mask b) b.bytes (omega arith) tail_mask-lt;
      allocated = s.allocated ∙ sym (length-fill 255 (tail_mask b) b.bytes);
      fits = s.fits;
      word = s.word;
    };
    padding = λ i le. test-set_all i ∙ ground arith;
  }
