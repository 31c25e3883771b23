-- ===== src/Bitset/Every.antt =====
-- `all` holds exactly if every bit below the size is set.
use Prim.Native.Nat.{bit_and, bit_or}
use mathlib.Core.Path.{subst₂}
use testing.Common.{
  ℕ, zero, suc, ◌+◌, ◌*◌, ◌/◌, ◌%◌, ◌^◌, ◌<◌, ◌≡◌, ◌∙◌, refl, true, not, List, [], ◌∷◌, arith,
  length, get_or, All, ◌==◌, ==→eq, if◌then◌else◌, Bool-cases, inl, inr, ltb, ltb→lt, ◌↔◌, subst,
}
use testing.Common.Words.{test_bit, test_bit-or, bit_and-le_left, bit_and-le_right, bit_or-lt}
use testing.Bitset.{Bitset, test, all, all_bytes, sub32}
use testing.Bitset.Bytes.{test_bit-head, test_bit_ones, eq-ones}
use testing.Bitset.Valid.{HasShape, IsByte, get_or-IsByte}

-- What the loop of `all` asks of each byte: the last one may lack the bits of the mask.
pub AllOnes : ℕ → List ℕ → Type 0
AllOnes mask [] = Unit
AllOnes mask (v ∷ []) = bit_or v mask ≡ 255
AllOnes mask (v ∷ w ∷ vs) = (v ≡ 255) × AllOnes mask (w ∷ vs)

and_ones : (a b : ℕ) → a < 256 → b < 256 → bit_and a b ≡ 255 → (a ≡ 255) × (b ≡ 255)
and_ones a b ha hb h = omega (arith, bit_and-le_left a b, bit_and-le_right a b)

all_bytes-AllOnes :
    (mask ret : ℕ) (vs : List ℕ)
    → mask < 256
    → ret < 256
    → All IsByte vs
    → all_bytes mask ret vs ≡ 255
    → (ret ≡ 255) × AllOnes mask vs
unfolding all_bytes AllOnes
all_bytes-AllOnes mask ret [] hm hr h e = (e, tt)
all_bytes-AllOnes mask ret (v ∷ []) hm hr h e =
    and_ones ret (bit_or v mask) hr (bit_or-lt 8 v mask h.0 hm) e
all_bytes-AllOnes mask ret (v ∷ w ∷ vs) hm hr h e =
    let small : bit_and ret v < 256 = omega (arith, bit_and-le_left ret v) in
    let rest = all_bytes-AllOnes mask (bit_and ret v) (w ∷ vs) hm small h.1 e in
    let both = and_ones ret v hr h.0 rest.0 in (both.0, (both.1, rest.1))

AllOnes-all_bytes : (mask : ℕ) (vs : List ℕ) → AllOnes mask vs → all_bytes mask 255 vs ≡ 255
unfolding all_bytes AllOnes
AllOnes-all_bytes mask [] h = refl
AllOnes-all_bytes mask (v ∷ []) h = rw h
AllOnes-all_bytes mask (v ∷ w ∷ vs) h = rw (h.0) (AllOnes-all_bytes mask (w ∷ vs) h.1)

-- Each byte of `AllOnes`, by its index.
AllOnes-get_or :
    (mask : ℕ) (vs : List ℕ) (i : ℕ)
    → AllOnes mask vs
    → i < length vs
    → (if suc i == length vs then bit_or (get_or vs i 0) mask else get_or vs i 0) ≡ 255
unfolding AllOnes
AllOnes-get_or mask [] i h lt = absurd (omega arith)
AllOnes-get_or mask (v ∷ []) zero h lt = h
AllOnes-get_or mask (v ∷ []) (suc i) h lt = absurd (omega arith)
AllOnes-get_or mask (v ∷ w ∷ vs) zero h lt = ground arith
AllOnes-get_or mask (v ∷ w ∷ vs) (suc i) h lt =
    ground (arith, AllOnes-get_or mask (w ∷ vs) i h.1 (omega arith))

AllOnes-of :
    (mask : ℕ) (vs : List ℕ)
    → ((i : ℕ)
        → i < length vs
        → (if suc i == length vs then bit_or (get_or vs i 0) mask else get_or vs i 0) ≡ 255)
    → AllOnes mask vs
unfolding AllOnes
AllOnes-of mask [] h = tt
AllOnes-of mask (v ∷ []) h = h 0 (omega arith)
AllOnes-of mask (v ∷ w ∷ vs) h = (
  ground (arith, h 0 (omega arith)),
  AllOnes-of mask (w ∷ vs) (λ i lt. ground (arith, h (suc i) (omega arith))),
)

module _ (b : Bitset) (s : HasShape b) where
  abbrev head_mask : ℕ
  head_mask = 255 * 2 ^ sub32 (b.data_size + 8) (b.alloc_size * 8) % 256

  -- In the last byte the mask has the bits from the size on.
  test_bit-head_mask :
      (i : ℕ) → suc (i / 8) ≡ length b.bytes → test_bit head_mask (i % 8) ≡ not (ltb i b.data_size)
  test_bit-head_mask i h =
      test_bit-head (sub32 (b.data_size + 8) (b.alloc_size * 8)) (i % 8) (omega (arith, s))
        (omega arith)
      ∙ ground (arith, s)

  head_mask-lt : head_mask < 256
  head_mask-lt = omega arith

  all-test : all b ≡ true → (i : ℕ) → i < b.data_size → test b i ≡ true
  unfolding all test
  all-test h i lt =
      let ones =
        (all_bytes-AllOnes head_mask 255 b.bytes head_mask-lt (omega arith) s.byte
          (==→eq _ _ h)).1 in
      let byte = AllOnes-get_or head_mask b.bytes (i / 8) ones (omega (arith, s)) in
      ground (
        arith,
        byte,
        test_bit_ones (i % 8) (omega arith),
        test_bit-or (i % 8) (get_or b.bytes (i / 8) 0) head_mask,
        test_bit-head_mask i,
      )

  module _ (h : (i : ℕ) → i < b.data_size → test b i ≡ true) where
    -- Bit `j` of byte `k`.
    at : (k j : ℕ) → j < 8 → 8 * k + j < b.data_size → test_bit (get_or b.bytes k 0) j ≡ true
    unfolding test
    at k j hj lt =
        let byte : (8 * k + j) / 8 ≡ k = omega arith in
        let bit : (8 * k + j) % 8 ≡ j = omega arith in
        subst₂ (λ x y. test_bit (get_or b.bytes x 0) y ≡ true) byte bit (h (8 * k + j) lt)

    full_byte : (k : ℕ) → suc k < length b.bytes → get_or b.bytes k 0 ≡ 255
    full_byte k lt =
        eq-ones _ (get_or-IsByte b.bytes k s.byte) (λ j hj. at k j hj (omega (arith, s)))

    last_byte : (k : ℕ) → suc k ≡ length b.bytes → bit_or (get_or b.bytes k 0) head_mask ≡ 255
    last_byte k e =
        eq-ones _ (bit_or-lt 8 _ head_mask (get_or-IsByte b.bytes k s.byte) head_mask-lt) each
      where
        each : (j : ℕ) → j < 8 → test_bit (bit_or (get_or b.bytes k 0) head_mask) j ≡ true
        each j hj =
            let byte : (8 * k + j) / 8 ≡ k = omega arith in
            let bit : (8 * k + j) % 8 ≡ j = omega arith in
            let mask =
              subst (λ y. test_bit head_mask y ≡ not (ltb (8 * k + j) b.data_size)) bit
                (test_bit-head_mask (8 * k + j) (omega arith)) in
            elim (Bool-cases (ltb (8 * k + j) b.data_size)) [
              | inl lt ↦ rw (test_bit-or j _ head_mask, at k j hj (ltb→lt _ _ lt))
              | inr ge ↦ rw (test_bit-or j _ head_mask, mask, ge) (ground (arith, mask))
            ]

    test-all : all b ≡ true
    unfolding all
    test-all =
        let ones =
          AllOnes-of head_mask b.bytes (λ k lt. ground (arith, full_byte k, last_byte k)) in
        ground (arith, AllOnes-all_bytes head_mask b.bytes ones)

-- On a bitset of the right shape `all` holds exactly if every bit below the size is set.
pub all_iff :
    (b : Bitset) → HasShape b → (all b ≡ true) ↔ ((i : ℕ) → i < b.data_size → test b i ≡ true)
all_iff b s = (all-test b s, test-all b s)
