-- ===== src/Util/Base64/Roundtrip.antt =====
-- util/b64.cc: what `decode` makes of the output of `encode`.
use testing.Common.{
  ℕ, zero, suc, ◌+◌, ◌-◌, ◌*◌, ◌/◌, ◌%◌, ◌^◌, ◌<◌, ◌≤◌, List, [], ◌∷◌, ◌++◌, length, false, ok,
  ◌==◌, ltb, if◌then◌else◌, ◌≡◌, refl, sym, ap, ◌∙◌, arith,
}
use testing.Util.Base64.{encode, unmap, decode_group, decode_groups, is_padding, decode}
use testing.Util.Base64.Chars.{
  chars, field0, field1, field2, unmap-char, unmap_padding, char-ne, IsBytes, encode-chars,
}

-- A group of four characters whose fields are those of the bytes `a`, `b` and `c`.
decode_group-fields :
    (p q r s f g h i a b c : ℕ)
    → unmap p ≡ ok f
    → unmap q ≡ ok g
    → unmap r ≡ ok h
    → unmap s ≡ ok i
    → (f < 64) × (g < 64) × (h < 64) × (i < 64)
    → (f * 4 + g / 16 ≡ a) × (g % 16 * 16 + h / 4 ≡ b) × (h % 4 * 64 + i ≡ c)
    → decode_group p q r s ≡ ok (a ∷ b ∷ c ∷ [])
unfolding decode_group
decode_group-fields p q r s f g h i a b c ep eq er es small bytes =
    let in32 = f * 2 ^ 18 + g * 2 ^ 12 + h * 2 ^ 6 + i in
    let ea : in32 / 2 ^ 16 % 256 ≡ a = omega arith in
    let eb : in32 / 2 ^ 8 % 256 ≡ b = omega arith in
    let ec : in32 % 256 ≡ c = omega arith in rw (ep, eq, er, es, ea, eb, ec) refl

decode_groups-cons :
    (p q r s : ℕ) (rest bytes more : List ℕ)
    → decode_group p q r s ≡ ok bytes
    → decode_groups rest ≡ ok more
    → decode_groups (p ∷ q ∷ r ∷ s ∷ rest) ≡ ok (bytes ++ more)
unfolding decode_groups
decode_groups-cons p q r s rest bytes more e f = rw (e, f) refl

decode_groups_end : decode_groups [] ≡ ok []
unfolding decode_groups
decode_groups_end = refl

-- The buffer of `decode`: the bytes, and then what the padding leaves.
leftover : List ℕ → List ℕ
leftover [] = []
leftover (a ∷ []) = 15 ∷ 255 ∷ []
leftover (a ∷ b ∷ []) = 63 ∷ []
leftover (a ∷ b ∷ c ∷ rest) = leftover rest

decode_groups-chars :
    (input : List ℕ) → IsBytes input → decode_groups (chars input) ≡ ok (input ++ leftover input)
unfolding chars leftover
decode_groups-chars [] h = decode_groups_end
decode_groups-chars (a ∷ []) h =
    decode_groups-cons _ _ _ _ [] (a ∷ 15 ∷ 255 ∷ []) []
      (decode_group-fields _ _ _ _ (field0 a) (field1 a 0) 63 63 a 15 255
        (unmap-char _ (omega arith)) (unmap-char _ (omega arith)) unmap_padding unmap_padding
        (omega arith) (omega arith))
      decode_groups_end
decode_groups-chars (a ∷ b ∷ []) h =
    decode_groups-cons _ _ _ _ [] (a ∷ b ∷ 63 ∷ []) []
      (decode_group-fields _ _ _ _ (field0 a) (field1 a b) (field2 b 0) 63 a b 63
        (unmap-char _ (omega arith)) (unmap-char _ (omega arith)) (unmap-char _ (omega arith))
        unmap_padding (omega arith) (omega arith))
      decode_groups_end
decode_groups-chars (a ∷ b ∷ c ∷ rest) h =
    decode_groups-cons _ _ _ _ (chars rest) (a ∷ b ∷ c ∷ []) (rest ++ leftover rest)
      (decode_group-fields _ _ _ _ (field0 a) (field1 a b) (field2 b c) (c % 64) a b c
        (unmap-char _ (omega arith)) (unmap-char _ (omega arith)) (unmap-char _ (omega arith))
        (unmap-char _ (omega arith)) (omega arith) (omega arith))
      (decode_groups-chars rest h.1.1.1)

pub length-chars : (input : List ℕ) → length (chars input) ≡ (length input + 2) / 3 * 4
unfolding chars
length-chars [] = refl
length-chars (a ∷ []) = refl
length-chars (a ∷ b ∷ []) = refl
length-chars (a ∷ b ∷ c ∷ rest) = omega (arith, length-chars rest)

is_padding-back :
    (back x y z w : ℕ) (rest : List ℕ)
    → back ≤ length rest
    → 1 ≤ back
    → is_padding (x ∷ y ∷ z ∷ w ∷ rest) back ≡ is_padding rest back
unfolding is_padding
is_padding-back back x y z w rest h pos =
    let e : suc (suc (suc (suc (length rest)))) - back
        ≡ suc (suc (suc (suc (length rest - back)))) =
      omega arith in
    rw e (ground arith)

is_padding-last :
    (x y z w back : ℕ)
    → (w == 61) ≡ false
    → (z == 61) ≡ false
    → 1 ≤ back
    → back ≤ 2
    → is_padding (x ∷ y ∷ z ∷ w ∷ []) back ≡ ok 0
unfolding is_padding
is_padding-last x y z w zero hw hz lo hi = absurd (omega arith)
is_padding-last x y z w (suc zero) hw hz lo hi = rw hw refl
is_padding-last x y z w (suc (suc zero)) hw hz lo hi = rw hz refl
is_padding-last x y z w (suc (suc (suc n))) hw hz lo hi = absurd (omega arith)

-- How many of the last `back` bytes of the last group are missing.
missing : ℕ → ℕ → ℕ
missing n back = if n % 3 == 0 then 0 else if ltb (n % 3 + back) 4 then 1 else 0

is_padding-one :
    (x y back : ℕ) → 1 ≤ back → back ≤ 2 → is_padding (x ∷ y ∷ 61 ∷ 61 ∷ []) back ≡ ok 1
unfolding is_padding
is_padding-one x y zero lo hi = absurd (omega arith)
is_padding-one x y (suc zero) lo hi = refl
is_padding-one x y (suc (suc zero)) lo hi = refl
is_padding-one x y (suc (suc (suc n))) lo hi = absurd (omega arith)

is_padding-two :
    (x y z back : ℕ)
    → (z == 61) ≡ false
    → 1 ≤ back
    → back ≤ 2
    → is_padding (x ∷ y ∷ z ∷ 61 ∷ []) back ≡ ok (missing 2 back)
unfolding is_padding missing
is_padding-two x y z zero hz lo hi = absurd (omega arith)
is_padding-two x y z (suc zero) hz lo hi = refl
is_padding-two x y z (suc (suc zero)) hz lo hi = rw hz refl
is_padding-two x y z (suc (suc (suc n))) hz lo hi = absurd (omega arith)

missing-three : (n back : ℕ) → missing (suc (suc (suc n))) back ≡ missing n back
unfolding missing
missing-three n back = ground arith

missing_none : (back : ℕ) → missing 0 back ≡ 0
unfolding missing
missing_none back = refl

missing_one : (back : ℕ) → back ≤ 2 → missing 1 back ≡ 1
unfolding missing
missing_one back h = ground arith

is_padding-chars :
    (input : List ℕ) (back : ℕ)
    → IsBytes input
    → 1 ≤ length input
    → 1 ≤ back
    → back ≤ 2
    → is_padding (chars input) back ≡ ok (missing (length input) back)
unfolding chars
is_padding-chars [] back h pos lo hi = absurd (omega arith)
is_padding-chars (a ∷ []) back h pos lo hi =
    is_padding-one _ _ back lo hi ∙ ap ok (sym (missing_one back hi))
is_padding-chars (a ∷ b ∷ []) back h pos lo hi =
    is_padding-two _ _ _ back (char-ne (field2 b 0) (omega arith)) lo hi
is_padding-chars (a ∷ b ∷ c ∷ []) back h pos lo hi =
    is_padding-last _ _ _ _ back (char-ne (c % 64) (omega arith))
      (char-ne (field2 b c) (omega arith)) lo hi
    ∙ ap ok (sym (missing-three 0 back ∙ missing_none back))
is_padding-chars (a ∷ b ∷ c ∷ d ∷ rest) back h pos lo hi =
    is_padding-back back _ _ _ _ (chars (d ∷ rest)) (omega (arith, length-chars (d ∷ rest))) lo
    ∙ is_padding-chars (d ∷ rest) back h.1.1.1 (omega arith) lo hi
    ∙ ap ok (sym (missing-three (suc (length rest)) back))

rounds :
    (n : ℕ)
    → 1 ≤ n
    → n < 2 ^ 62
    → ((n + 2) / 3 * 4 / 4 * 3 + 2 ^ 64 - missing n 1 - missing n 2) % 2 ^ 64 ≡ n
unfolding missing
rounds n pos small = ground arith

-- For one byte or more, and fewer than 2^62, `decode` succeeds on the output of `encode` and
-- reports the length of the input, and its buffer starts with the input.
pub decode-encode :
    (input : List ℕ)
    → IsBytes input
    → 1 ≤ length input
    → length input < 2 ^ 62
    → (rest : List ℕ) × (decode (encode input).0 ≡ ok (input ++ rest, length input))
unfolding decode
decode-encode input h pos small =
    let e : (encode input).0 ≡ chars input = ap (λ r. r.0) (encode-chars input h small) in
    (
      leftover input,
      rw
          (
            e,
            decode_groups-chars input h,
            is_padding-chars input 1 h pos (omega arith) (omega arith),
            is_padding-chars input 2 h pos (omega arith) (omega arith),
            length-chars input,
            rounds (length input) pos small,
          )
          refl,
    )

-- For fewer than 2^62 bytes, `encode` reports four characters for every three bytes begun, and
-- fills a buffer of exactly that size.
pub encode_lem :
    (input : List ℕ)
    → IsBytes input
    → length input < 2 ^ 62
    → ((encode input).1 ≡ (length input + 2) / 3 * 4) × (length (encode input).0 ≡ (encode input).1)
encode_lem input h small = rw (encode-chars input h small) (refl, length-chars input)
