-- ===== src/Bitset/Valid.antt =====
-- The representation invariant of a bitset: what the constructor of util/bitset.cc establishes.
use testing.Common.{
  ℕ, zero, suc, ◌+◌, ◌/◌, ◌%◌, ◌^◌, ◌≤◌, ◌<◌, ◌≡◌, refl, sym, false, List, [], ◌∷◌, arith, length,
  length-replicate, get_or, replicate, All, All-replicate, ◌==◌, Bool-cases, inl, inr,
}
use testing.Bitset.{Bitset, of_size, test, div_ceil}
use testing.Bitset.Bytes.{test_bit-zero_byte}

abbrev pub IsByte : ℕ → Type 0
IsByte v = v < 256

-- The bytes are bytes, and as many as the size needs.
pub record HasShape (b : Bitset) : Type 0 where
  pub byte : All IsByte b.bytes
  pub allocated : b.alloc_size ≡ length b.bytes
  pub fits : b.alloc_size ≡ (b.data_size + 7) / 8
  pub word : b.data_size < 2 ^ 32

-- Besides, the unused bits of the last byte are clear.
pub record IsValid (b : Bitset) : Type 0 where
  pub shape : HasShape b
  pub padding : (i : ℕ) → b.data_size ≤ i → test b i ≡ false

pub get_or-IsByte : (vs : List ℕ) (i : ℕ) → All IsByte vs → get_or vs i 0 < 256
get_or-IsByte [] i h = omega arith
get_or-IsByte (v ∷ vs) zero h = omega arith
get_or-IsByte (v ∷ vs) (suc i) h = get_or-IsByte vs i h.1

-- An index within the size is within the allocation.
pub in_bounds : {b : Bitset} (i : ℕ) → HasShape b → i < b.data_size → i / 8 < length b.bytes
in_bounds i s h = omega arith

pub get_or-zeros : (n i : ℕ) → get_or {A = ℕ} (replicate n 0) i 0 ≡ 0
get_or-zeros zero i = refl
get_or-zeros (suc n) zero = refl
get_or-zeros (suc n) (suc i) = get_or-zeros n i

pub test-of_size : (n i : ℕ) → test (of_size n) i ≡ false
unfolding test of_size
test-of_size n i =
    ground (arith, get_or-zeros (div_ceil n 8) (i / 8), test_bit-zero_byte (i % 8) (omega arith))

of_size-HasShape : (n : ℕ) → n < 2 ^ 32 → HasShape (of_size n)
unfolding of_size
of_size-HasShape n h = elim (Bool-cases (n == 0)) [
  | inl e ↦
      rw (e, of_size) (record { byte = tt; allocated = refl; fits = refl; word = omega arith })
  | inr e ↦
      rw (e, of_size)
        (record {
          byte = All-replicate IsByte (div_ceil n 8) 0 (omega arith);
          allocated = sym (length-replicate {A = ℕ} (div_ceil n 8) 0);
          fits = ground arith;
          word = h;
        })
]

pub of_size-IsValid : (n : ℕ) → n < 2 ^ 32 → IsValid (of_size n)
of_size-IsValid n h = record { shape = of_size-HasShape n h; padding = λ i _. test-of_size n i }
