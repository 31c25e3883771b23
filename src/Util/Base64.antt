-- ===== src/Util/Base64.antt =====
-- `encode` and `decode` of util/b64.cc. Bytes are numbers below 256; the union `B64_t` is read on a
-- little-endian host.
pub mod Chars
pub mod Roundtrip
mod Tests
use testing.Common.{
  ℕ, zero, suc, ◌+◌, ◌-◌, ◌*◌, ◌/◌, ◌%◌, ◌^◌, List, [], ◌∷◌, ◌++◌, length, get_elem?, get_or, set,
  replicate, none, Result, ok, or_panic, ◌>>=◌, out_of_range, if◌then◌else◌, ltb, ◌==◌,
}

-- `B64MAP`: A-Z, a-z, 0-9, '+' and '/'.
unfoldable pub b64map : List ℕ
b64map =
    65 ∷ 66 ∷ 67 ∷ 68 ∷ 69 ∷ 70 ∷ 71 ∷ 72 ∷ 73 ∷ 74 ∷ 75 ∷ 76 ∷ 77 ∷ 78 ∷ 79 ∷ 80 ∷ 81 ∷ 82 ∷ 83
    ∷ 84 ∷ 85 ∷ 86 ∷ 87 ∷ 88 ∷ 89 ∷ 90 ∷ 97 ∷ 98 ∷ 99 ∷ 100 ∷ 101 ∷ 102 ∷ 103 ∷ 104 ∷ 105 ∷ 106
    ∷ 107 ∷ 108 ∷ 109 ∷ 110 ∷ 111 ∷ 112 ∷ 113 ∷ 114 ∷ 115 ∷ 116 ∷ 117 ∷ 118 ∷ 119 ∷ 120 ∷ 121 ∷ 122
    ∷ 48 ∷ 49 ∷ 50 ∷ 51 ∷ 52 ∷ 53 ∷ 54 ∷ 55 ∷ 56 ∷ 57 ∷ 43 ∷ 47 ∷ []

-- `count` consecutive values from `first`.
unfoldable pub run_from : ℕ → ℕ → List ℕ
run_from zero first = []
run_from (suc count) first = first ∷ run_from count (suc first)

-- `B64UNMAP`: it ends with 'z', at 122.
unfoldable pub b64unmap : List ℕ
unfolding run_from
b64unmap =
    replicate 43 255
    ++ (62 ∷ [])
    ++ replicate 3 255
    ++ (63 ∷ [])
    ++ run_from 10 52
    ++ replicate 7 255
    ++ run_from 26 0
    ++ replicate 6 255
    ++ run_from 26 26

-- The four characters of a group: the six-bit fields of `in32`, the highest first.
unfoldable pub encode_group : ℕ → ℕ → ℕ → List ℕ
unfolding b64map
encode_group a b c =
    let in32 = a * 2 ^ 16 + b * 2 ^ 8 + c in
    get_or b64map (in32 / 2 ^ 18 % 64) 0
    ∷ get_or b64map (in32 / 2 ^ 12 % 64) 0
    ∷ get_or b64map (in32 / 2 ^ 6 % 64) 0
    ∷ get_or b64map (in32 % 64) 0
    ∷ []

-- The loop over groups: a byte past the end counts as 0.
unfoldable pub encode_groups : List ℕ → List ℕ
unfolding encode_group
encode_groups [] = []
encode_groups (a ∷ []) = encode_group a 0 0
encode_groups (a ∷ b ∷ []) = encode_group a b 0
encode_groups (a ∷ b ∷ c ∷ rest) = encode_group a b c ++ encode_groups rest

-- The loop that writes '=' from the end.
unfoldable pub pad_output : ℕ → ℕ → List ℕ → List ℕ
pad_output zero size out = out
pad_output (suc count) size out = pad_output count size (set out (size - 1 - count) 61)

unfoldable pub padding : ℕ → ℕ
padding isz = let trailing = isz % 3 in if trailing == 0 then 0 else 3 - trailing

-- `encode`: the buffer and `*osz`.
unfoldable pub encode : List ℕ → List ℕ × ℕ
unfolding padding encode_groups pad_output
encode input =
    let isz = length input in
    let pad = padding isz in
    let size = (isz + pad) / 3 * 4 % 2 ^ 64 in (pad_output pad size (encode_groups input), size)

-- `B64UNMAP[(uint8_t)c] & 0x3F`; the table has no entry past 'z'.
unfoldable pub unmap : ℕ → Result ℕ
unfolding b64unmap
unmap char = or_panic (get_elem? b64unmap char) out_of_range >>= λ field. ok (field % 64)

unfoldable pub decode_group : ℕ → ℕ → ℕ → ℕ → Result (List ℕ)
unfolding unmap
decode_group p q r s = do
  f ← unmap p
  g ← unmap q
  h ← unmap r
  i ← unmap s
  let in32 = f * 2 ^ 18 + g * 2 ^ 12 + h * 2 ^ 6 + i
  ok (in32 / 2 ^ 16 % 256 ∷ in32 / 2 ^ 8 % 256 ∷ in32 % 256 ∷ [])

-- The loop over groups of four; what is left after the last group is not read.
unfoldable pub decode_groups : List ℕ → Result (List ℕ)
unfolding decode_group
decode_groups (p ∷ q ∷ r ∷ s ∷ rest) = do
  bytes ← decode_group p q r s
  more ← decode_groups rest
  ok (bytes ++ more)
decode_groups _ = ok []

-- `!!(in[isz - back] == '=')`; fewer than `back` characters is a read before the buffer.
unfoldable pub is_padding : List ℕ → ℕ → Result ℕ
is_padding input back = do
  char ←
      or_panic (if ltb (length input) back then none else get_elem? input (length input - back))
        out_of_range
  ok (if char == 61 then 1 else 0)

-- `decode`: the buffer and `*osz`, which wraps around.
unfoldable pub decode : List ℕ → Result (List ℕ × ℕ)
unfolding decode_groups is_padding
decode input = do
  out ← decode_groups input
  last ← is_padding input 1
  next_to_last ← is_padding input 2
  ok (out, (length input / 4 * 3 + 2 ^ 64 - last - next_to_last) % 2 ^ 64)
