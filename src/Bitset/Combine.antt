-- ===== src/Bitset/Combine.antt =====
-- `flip()`, `~`, and the assignments `&=`, `|=` and `^=`, bit by bit.
use Prim.Native.Nat.{bit_and, bit_or, bit_xor}
use testing.Common.{
  ℕ, zero, suc, ◌-◌, ◌/◌, ◌%◌, ◌≤◌, ◌<◌, ◌≡◌, ◌∙◌, refl, sym, ap, Bool, false, not, ◌&&◌, ◌||◌, xor,
  List, [], ◌∷◌, arith, length, get_or, All, ◌==◌, ==→eq, if◌then◌else◌, Bool-cases, inl, inr, ltb,
  ltb→lt, ok,
}
use testing.Common.Words.{
  test_bit, test_bit-and, test_bit-or, test_bit-xor, bit_and-le_left, bit_or-lt, bit_xor-lt,
}
use testing.Bitset.{
  Bitset, test, flip_all, flip_bytes, tail_mask, zip_bytes, combine, and_assign, or_assign,
  xor_assign, complement,
}
use testing.Bitset.Bytes.{test_bit-negate}
use testing.Bitset.Valid.{HasShape, IsValid, IsByte, get_or-IsByte}
use testing.Bitset.Whole.{test_bit-tail_mask, beyond, outside}

get_or-flip_bytes :
    (mask : ℕ) (vs : List ℕ) (i : ℕ)
    → i < length vs
    → get_or (flip_bytes mask vs) i 0
      ≡ (if suc i == length vs then bit_and (255 - get_or vs i 0) mask else 255 - get_or vs i 0)
unfolding flip_bytes
get_or-flip_bytes mask [] i h = absurd (omega arith)
get_or-flip_bytes mask (x ∷ []) zero h = refl
get_or-flip_bytes mask (x ∷ []) (suc i) h = absurd (omega arith)
get_or-flip_bytes mask (x ∷ y ∷ vs) zero h = ground arith
get_or-flip_bytes mask (x ∷ y ∷ vs) (suc i) h =
    ground (arith, get_or-flip_bytes mask (y ∷ vs) i (omega arith))

length-flip_bytes : (mask : ℕ) (vs : List ℕ) → length (flip_bytes mask vs) ≡ length vs
unfolding flip_bytes
length-flip_bytes mask [] = refl
length-flip_bytes mask (x ∷ []) = refl
length-flip_bytes mask (x ∷ y ∷ vs) = ap suc (length-flip_bytes mask (y ∷ vs))

flip_bytes-IsByte : (mask : ℕ) (vs : List ℕ) → All IsByte (flip_bytes mask vs)
unfolding flip_bytes
flip_bytes-IsByte mask [] = tt
flip_bytes-IsByte mask (x ∷ []) = (omega (arith, bit_and-le_left (255 - x) mask), tt)
flip_bytes-IsByte mask (x ∷ y ∷ vs) = (omega arith, flip_bytes-IsByte mask (y ∷ vs))

-- On a bitset of the right shape `flip()` negates the bits below the size and leaves the unused
-- ones clear.
pub test-flip_all :
    (b : Bitset)
    → HasShape b
    → (i : ℕ) → test (flip_all b) i ≡ (ltb i b.data_size && not (test b i))
unfolding test flip_all
test-flip_all b s i = elim (Bool-cases (ltb (i / 8) (length b.bytes))) [
  | inl lt ↦
      let old = get_or b.bytes (i / 8) 0 in
      let byte = get_or-flip_bytes (tail_mask b) b.bytes (i / 8) (ltb→lt _ _ lt) in
      let negated =
        test_bit-negate old (i % 8) (get_or-IsByte b.bytes (i / 8) s.byte) (omega arith) in
      elim (Bool-cases (suc (i / 8) == length b.bytes)) [
        | inl e ↦
            rw (byte, e)
              (ground (
                arith,
                test_bit-and (i % 8) (255 - old) (tail_mask b),
                negated,
                test_bit-tail_mask b s i (==→eq _ _ e),
              ))
        | inr e ↦ rw (byte, e) (ground (arith, negated, s))
      ]
  | inr ge ↦
      let len = length-flip_bytes (tail_mask b) b.bytes in
      beyond b s (flip_bytes (tail_mask b) b.bytes) i (ground arith)
      ∙ ground (arith, outside b s i ge)
]

pub flip_all-IsValid : (b : Bitset) → HasShape b → IsValid (flip_all b)
unfolding flip_all
flip_all-IsValid b s = record {
  shape = record {
    byte = flip_bytes-IsByte (tail_mask b) b.bytes;
    allocated = s.allocated ∙ sym (length-flip_bytes (tail_mask b) b.bytes);
    fits = s.fits;
    word = s.word;
  };
  padding = λ i le. test-flip_all b s i ∙ ground arith;
}

pub test-complement :
    (b : Bitset)
    → HasShape b
    → (i : ℕ) → test (complement b) i ≡ (ltb i b.data_size && not (test b i))
unfolding complement
test-complement = test-flip_all

pub complement-IsValid : (b : Bitset) → HasShape b → IsValid (complement b)
unfolding complement
complement-IsValid = flip_all-IsValid

-- The assignments.
get_or-zip_bytes :
    (op : ℕ → ℕ → ℕ) (vs ws : List ℕ) (i : ℕ)
    → i < length vs
    → get_or (zip_bytes op vs ws) i 0 ≡ op (get_or vs i 0) (get_or ws i 0)
unfolding zip_bytes
get_or-zip_bytes op [] ws i h = absurd (omega arith)
get_or-zip_bytes op (v ∷ vs) [] zero h = refl
get_or-zip_bytes op (v ∷ vs) [] (suc i) h = get_or-zip_bytes op vs [] i (omega arith)
get_or-zip_bytes op (v ∷ vs) (w ∷ ws) zero h = refl
get_or-zip_bytes op (v ∷ vs) (w ∷ ws) (suc i) h = get_or-zip_bytes op vs ws i (omega arith)

length-zip_bytes : (op : ℕ → ℕ → ℕ) (vs ws : List ℕ) → length (zip_bytes op vs ws) ≡ length vs
unfolding zip_bytes
length-zip_bytes op [] ws = refl
length-zip_bytes op (v ∷ vs) [] = ap suc (length-zip_bytes op vs [])
length-zip_bytes op (v ∷ vs) (w ∷ ws) = ap suc (length-zip_bytes op vs ws)

zip_bytes-IsByte :
    (op : ℕ → ℕ → ℕ)
    → ((v w : ℕ) → v < 256 → w < 256 → op v w < 256)
    → (vs ws : List ℕ) → All IsByte vs
    → All IsByte ws
    → All IsByte (zip_bytes op vs ws)
unfolding zip_bytes
zip_bytes-IsByte op h [] ws p q = tt
zip_bytes-IsByte op h (v ∷ vs) [] p q = (h v 0 p.0 (omega arith), zip_bytes-IsByte op h vs [] p.1 q)
zip_bytes-IsByte op h (v ∷ vs) (w ∷ ws) p q = (h v w p.0 q.0, zip_bytes-IsByte op h vs ws p.1 q.1)

-- What an assignment yields, for the operation `f` on bits that `op` performs on bytes.
pub record Combines (f : Bool → Bool → Bool) (a b c : Bitset) : Type 0 where
  pub valid : IsValid c
  pub same_size : c.data_size ≡ a.data_size
  pub bits : (i : ℕ) → test c i ≡ f (test a i) (test b i)

module _ (op : ℕ → ℕ → ℕ) (f : Bool → Bool → Bool)
    (small : (v w : ℕ) → v < 256 → w < 256 → op v w < 256)
    (acts : (k v w : ℕ) → test_bit (op v w) k ≡ f (test_bit v k) (test_bit w k))
    (still : f false false ≡ false) (a b : Bitset) (va : IsValid a) (vb : IsValid b)
    (e : a.data_size ≡ b.data_size) where
  zipped : Bitset
  zipped = record a { bytes = zip_bytes op a.bytes b.bytes }

  zipped-bits : (i : ℕ) → test zipped i ≡ f (test a i) (test b i)
  unfolding zipped test
  zipped-bits i = elim (Bool-cases (ltb (i / 8) (length a.bytes))) [
    | inl lt ↦ rw (get_or-zip_bytes op a.bytes b.bytes (i / 8) (ltb→lt _ _ lt)) (acts (i % 8) _ _)
    | inr ge ↦
        let out : length a.bytes ≤ i / 8 = ground arith in
        let len = length-zip_bytes op a.bytes b.bytes in
        cc (
          beyond a va.shape a.bytes i out,
          beyond a va.shape b.bytes i (omega (arith, va.shape, vb.shape)),
          beyond a va.shape (zip_bytes op a.bytes b.bytes) i (omega arith),
          still,
        )
  ]

  zipped-Combines : Combines f a b zipped
  unfolding zipped
  zipped-Combines = record {
    valid = record {
      shape = record {
        byte = zip_bytes-IsByte op small a.bytes b.bytes va.shape.byte vb.shape.byte;
        allocated = va.shape.allocated ∙ sym (length-zip_bytes op a.bytes b.bytes);
        fits = va.shape.fits;
        word = va.shape.word;
      };
      padding = λ i le. zipped-bits i ∙ cc (va.padding i le, vb.padding i (omega arith), still);
    };
    same_size = refl;
    bits = zipped-bits;
  }

  combined : (c : Bitset) × (combine op a b ≡ ok c) × Combines f a b c
  unfolding combine zipped
  combined = (zipped, ground arith, zipped-Combines)

-- On two valid bitsets of one size `&=` succeeds and yields the valid bitset of that size that has
-- the bits set in both.
pub and_assign_lem :
    (a b : Bitset)
    → IsValid a
    → IsValid b
    → a.data_size ≡ b.data_size
    → (c : Bitset) × (and_assign a b ≡ ok c) × Combines ◌&&◌ a b c
unfolding and_assign
and_assign_lem =
    combined bit_and ◌&&◌ (λ v w hv _. omega (arith, bit_and-le_left v w)) test_bit-and refl

-- On two valid bitsets of one size `|=` succeeds and yields the valid bitset of that size that has
-- the bits set in either.
pub or_assign_lem :
    (a b : Bitset)
    → IsValid a
    → IsValid b
    → a.data_size ≡ b.data_size
    → (c : Bitset) × (or_assign a b ≡ ok c) × Combines ◌||◌ a b c
unfolding or_assign
or_assign_lem = combined bit_or ◌||◌ (bit_or-lt 8) test_bit-or refl

-- On two valid bitsets of one size `^=` succeeds and yields the valid bitset of that size that has
-- the bits set in just one of them.
xor_assign_lem :
    (a b : Bitset)
    → IsValid a
    → IsValid b
    → a.data_size ≡ b.data_size
    → (c : Bitset) × (xor_assign a b ≡ ok c) × Combines xor a b c
unfolding xor_assign xor
xor_assign_lem = combined bit_xor xor (bit_xor-lt 8) test_bit-xor refl

pub data_size-complement : (b : Bitset) → (complement b).data_size ≡ b.data_size
unfolding complement
data_size-complement b = refl
