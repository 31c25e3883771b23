-- ===== src/Util/Base64/Tests.antt =====
-- Runs of util/b64.cc.
use testing.Common.{ℕ, ◌+◌, ◌*◌, ◌/◌, List, [], ◌∷◌, ◌++◌, length, ok, ◌≡◌, refl, arith}
use testing.Util.Base64.{encode, decode}
use testing.Util.Base64.Roundtrip.{decode-encode, encode_lem}

abbrev input : List ℕ
input = 104 ∷ 101 ∷ 121 ∷ 33 ∷ []

encodes : encode input ≡ (97 ∷ 71 ∷ 86 ∷ 53 ∷ 73 ∷ 81 ∷ 61 ∷ 61 ∷ [], 8)
unfolding encode
encodes = refl

decode-encode_example : (rest : List ℕ) × (decode (encode input).0 ≡ ok (input ++ rest, 4))
decode-encode_example = decode-encode input (omega arith) (omega arith) (omega arith)

encode_example : ((encode input).1 ≡ (4 + 2) / 3 * 4) × (length (encode input).0 ≡ (encode input).1)
encode_example = encode_lem input (omega arith) (omega arith)
