-- ===== src/Util/Base64/Chars.antt =====
-- The characters of util/b64.cc and the buffer of `encode`, described without the loops.
use testing.Common.{
  ℕ, zero, suc, ◌+◌, ◌-◌, ◌*◌, ◌/◌, ◌%◌, ◌^◌, ◌<◌, ◌≤◌, List, [], ◌∷◌, ◌++◌, length, get_or, All,
  Bool, true, false, Result, ok, panic, ◌==◌, ◌≡◌, refl, ap, ap₂, ◌∙◌, arith, holds_below,
  holds_below_sound, ==→eq, set,
}
use testing.Util.Base64.{
  b64map, run_from, b64unmap, encode_group, encode_groups, pad_output, padding, encode, unmap,
}

abbrev pub char : ℕ → ℕ
char field = get_or b64map field 0

answers : Result ℕ → ℕ → Bool
answers (ok v) f = v == f
answers (panic e) f = false

answers_sound : (r : Result ℕ) (f : ℕ) → answers r f ≡ true → r ≡ ok f
unfolding answers
answers_sound (ok v) f h = ap ok (==→eq v f h)
answers_sound (panic e) f h = cc

pub unmap-char : (f : ℕ) → f < 64 → unmap (char f) ≡ ok f
unfolding b64map b64unmap run_from unmap answers holds_below
unmap-char f h = answers_sound _ f (holds_below_sound 64 (λ g. answers (unmap (char g)) g) f refl h)

pub unmap_padding : unmap 61 ≡ ok 63
unfolding b64unmap run_from unmap
unmap_padding = refl

is_letter : ℕ → Bool
unfolding b64map
is_letter f = elim (char f == 61) [ true ↦ false | false ↦ true ]

pub char-ne : (f : ℕ) → f < 64 → (char f == 61) ≡ false
unfolding b64map holds_below is_letter
char-ne f h = ground (arith, holds_below_sound 64 is_letter f refl h)

abbrev pub field0 : ℕ → ℕ
field0 a = a / 4

abbrev pub field1 : ℕ → ℕ → ℕ
field1 a b = a % 4 * 16 + b / 16

abbrev pub field2 : ℕ → ℕ → ℕ
field2 b c = b % 16 * 4 + c / 64

-- The output with its padding, a group at a time.
unfoldable pub chars : List ℕ → List ℕ
unfolding b64map
chars [] = []
chars (a ∷ []) = char (field0 a) ∷ char (field1 a 0) ∷ 61 ∷ 61 ∷ []
chars (a ∷ b ∷ []) = char (field0 a) ∷ char (field1 a b) ∷ char (field2 b 0) ∷ 61 ∷ []
chars (a ∷ b ∷ c ∷ rest) =
    char (field0 a) ∷ char (field1 a b) ∷ char (field2 b c) ∷ char (c % 64) ∷ chars rest

abbrev pub IsBytes : List ℕ → Type 0
IsBytes = All (λ b. b < 256)

pub encode_group-fields :
    (a b c : ℕ)
    → a < 256
    → b < 256
    → c < 256
    → encode_group a b c
      ≡ char (field0 a) ∷ char (field1 a b) ∷ char (field2 b c) ∷ char (c % 64) ∷ []
unfolding encode_group
encode_group-fields a b c ha hb hc =
    let in32 = a * 2 ^ 16 + b * 2 ^ 8 + c in
    let e0 : in32 / 2 ^ 18 % 64 ≡ field0 a = omega arith in
    let e1 : in32 / 2 ^ 12 % 64 ≡ field1 a b = omega arith in
    let e2 : in32 / 2 ^ 6 % 64 ≡ field2 b c = omega arith in
    let e3 : in32 % 64 ≡ c % 64 = omega arith in rw (e0, e1, e2, e3) refl

pad_output-cons :
    (n size x y z w : ℕ) (xs : List ℕ)
    → n ≤ size
    → pad_output n (suc (suc (suc (suc size)))) (x ∷ y ∷ z ∷ w ∷ xs)
      ≡ x ∷ y ∷ z ∷ w ∷ pad_output n size xs
unfolding pad_output
pad_output-cons zero size x y z w xs h = refl
pad_output-cons (suc n) size x y z w xs h =
    let e : suc (suc (suc (suc size))) - 1 - n ≡ suc (suc (suc (suc (size - 1 - n)))) =
      omega arith in
    rw e (pad_output-cons n size x y z w (set xs (size - 1 - n) 61) (omega arith))

padding-le : (rest : List ℕ) → padding (length rest) ≤ length (encode_groups rest)
unfolding padding encode_groups
padding-le [] = omega arith
padding-le (a ∷ []) = omega arith
padding-le (a ∷ b ∷ []) = omega arith
padding-le (a ∷ b ∷ c ∷ rest) = ground (arith, padding-le rest)

length-encode_groups :
    (input : List ℕ)
    → length (encode_groups input) ≡ (length input + padding (length input)) / 3 * 4
unfolding padding encode_groups encode_group
length-encode_groups [] = refl
length-encode_groups (a ∷ []) = refl
length-encode_groups (a ∷ b ∷ []) = refl
length-encode_groups (a ∷ b ∷ c ∷ rest) = ground (arith, length-encode_groups rest)

encode_groups_one :
    (a : ℕ)
    → a < 256
    → encode_groups (a ∷ []) ≡ char (field0 a) ∷ char (field1 a 0) ∷ char 0 ∷ char 0 ∷ []
unfolding encode_groups
encode_groups_one a h = encode_group-fields a 0 0 h (omega arith) (omega arith)

encode_groups_two :
    (a b : ℕ)
    → a < 256
    → b < 256
    → encode_groups (a ∷ b ∷ [])
      ≡ char (field0 a) ∷ char (field1 a b) ∷ char (field2 b 0) ∷ char 0 ∷ []
unfolding encode_groups
encode_groups_two a b ha hb = encode_group-fields a b 0 ha hb (omega arith)

encode_groups_three :
    (a b c : ℕ) (rest : List ℕ)
    → a < 256
    → b < 256
    → c < 256
    → encode_groups (a ∷ b ∷ c ∷ rest)
      ≡ char (field0 a) ∷ char (field1 a b) ∷ char (field2 b c) ∷ char (c % 64) ∷ encode_groups rest
unfolding encode_groups
encode_groups_three a b c rest ha hb hc =
    ap (λ g. g ++ encode_groups rest) (encode_group-fields a b c ha hb hc)

padding-three : (n : ℕ) → padding (suc (suc (suc n))) ≡ padding n
unfolding padding
padding-three n = ground arith

pad_none : pad_output (padding 0) (length (encode_groups [])) (encode_groups []) ≡ []
unfolding pad_output padding encode_groups
pad_none = refl

pad_one : (x y z w : ℕ) → pad_output (padding 1) 4 (x ∷ y ∷ z ∷ w ∷ []) ≡ x ∷ y ∷ 61 ∷ 61 ∷ []
unfolding pad_output padding
pad_one x y z w = refl

pad_two : (x y z w : ℕ) → pad_output (padding 2) 4 (x ∷ y ∷ z ∷ w ∷ []) ≡ x ∷ y ∷ z ∷ 61 ∷ []
unfolding pad_output padding
pad_two x y z w = refl

padded :
    (input : List ℕ)
    → IsBytes input
    → pad_output (padding (length input)) (length (encode_groups input)) (encode_groups input)
      ≡ chars input
unfolding chars
padded [] h = pad_none
padded (a ∷ []) h = rw (encode_groups_one a h.0) (pad_one _ _ _ _)
padded (a ∷ b ∷ []) h = rw (encode_groups_two a b h.0 h.1.0) (pad_two _ _ _ _)
padded (a ∷ b ∷ c ∷ rest) h =
    rw (encode_groups_three a b c rest h.0 h.1.0 h.1.1.0, padding-three (length rest))
      (pad_output-cons _ _ _ _ _ _ (encode_groups rest) (padding-le rest)
        ∙ ap (λ l. char (field0 a) ∷ char (field1 a b) ∷ char (field2 b c) ∷ char (c % 64) ∷ l)
            (padded rest h.1.1.1))

padding_rounds : (n : ℕ) → (n + padding n) / 3 ≡ (n + 2) / 3
unfolding padding
padding_rounds n = ground arith

-- The size that `encode` reports, with the buffer of that size.
pub encode-chars :
    (input : List ℕ)
    → IsBytes input
    → length input < 2 ^ 62
    → encode input ≡ (chars input, (length input + 2) / 3 * 4)
unfolding encode
encode-chars input h small =
    let n = length input in
    let round : (n + padding n) / 3 ≡ (n + 2) / 3 = padding_rounds n in
    let size : (n + padding n) / 3 * 4 % 2 ^ 64 ≡ length (encode_groups input) =
      omega (arith, length-encode_groups input, round) in
    let out : pad_output (padding n) ((n + padding n) / 3 * 4 % 2 ^ 64) (encode_groups input)
        ≡ chars input =
      rw size (padded input h) in
    ap₂ (λ o s. (o, s)) out (omega (arith, size, round, length-encode_groups input))
