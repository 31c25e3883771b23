-- ===== src/Bitset.antt =====
-- util/bitset.cc and util/bitset.hh, with DIVCEIL and `popcount<uint8_t>` of util/algorithm.hh.
-- `data` is the list of its bytes; `data_size` and `alloc_size` are the two uint32_t fields. An
-- access outside the allocation, which C++ leaves undefined, reads 0 and writes nothing here.
-- Copies and moves are the value itself. Operations on a whole bitset follow the loops of the
-- source; `IsValid` of the child `Valid` is what the constructor establishes.
pub mod Bytes
pub mod Valid
pub mod Access
pub mod Count
pub mod Whole
pub mod Combine
pub mod Every
mod Tests
use Prim.Native.Nat.{bit_and, bit_or, bit_xor}
use testing.Common.{
  ℕ, ◌+◌, ◌-◌, ◌*◌, ◌/◌, ◌%◌, ◌^◌, Bool, true, false, not, List, [], ◌∷◌, map, Result, ok, panic,
  size_mismatch, ◌==◌, if◌then◌else◌, get_or, set, replicate,
}
use testing.Common.Words.{test_bit}

pub record Bitset : Type 0 where
  pub bytes : List ℕ
  pub data_size : ℕ
  pub alloc_size : ℕ

-- uint32_t a - b.
abbrev pub sub32 : ℕ → ℕ → ℕ
sub32 a b = (a + 2 ^ 32 - b) % 2 ^ 32

abbrev pub div_ceil : ℕ → ℕ → ℕ
div_ceil x y = (x - 1) / y + 1

-- `popcount<uint8_t>`: every step is done in int and cut to a byte by the assignment.
pub popcount : ℕ → ℕ
popcount v =
    let v₁ = (v + 256 - bit_and (v / 2) 85) % 256 in
    let v₂ = (bit_and v₁ 51 + bit_and (v₁ / 4) 51) % 256 in
    let v₃ = bit_and (v₂ + v₂ / 16) 15 in v₃ * 1 % 256

-- `0x01 << k`, and `~` of it cut to a byte.
abbrev pub bit : ℕ → ℕ
bit k = 2 ^ k

abbrev pub mask_out : ℕ → ℕ
mask_out k = 255 - 2 ^ k

abbrev pub empty : Bitset
empty = record { bytes = []; data_size = 0; alloc_size = 0 }

-- `Bitset(uint32_t)`; calloc clears the bytes.
unfoldable pub of_size : ℕ → Bitset
of_size n =
    let alloc = div_ceil n 8 in
    if n == 0
    then empty
    else record { bytes = replicate alloc 0; data_size = n; alloc_size = alloc }

unfoldable pub test : Bitset → ℕ → Bool
unfolding test_bit
test b idx = test_bit (get_or b.bytes (idx / 8) 0) (idx % 8)

-- The loop of `all` over all bytes but the last, then the last with the unused bits filled in.
pub all_bytes : ℕ → ℕ → List ℕ → ℕ
all_bytes mask ret [] = ret
all_bytes mask ret (v ∷ []) = bit_and ret (bit_or v mask)
all_bytes mask ret (v ∷ w ∷ vs) = all_bytes mask (bit_and ret v) (w ∷ vs)

unfoldable pub all : Bitset → Bool
unfolding all_bytes
all b =
    let mask = 255 * 2 ^ sub32 (b.data_size + 8) (b.alloc_size * 8) % 256 in
    all_bytes mask 255 b.bytes == 255

pub or_bytes : ℕ → List ℕ → ℕ
or_bytes ret [] = ret
or_bytes ret (v ∷ vs) = or_bytes (bit_or ret v) vs

unfoldable pub is_none : Bitset → Bool
unfolding or_bytes
is_none b = or_bytes 0 b.bytes == 0

unfoldable pub any : Bitset → Bool
unfolding is_none
any b = not (is_none b)

pub sum_popcount : List ℕ → ℕ
sum_popcount [] = 0
sum_popcount (v ∷ vs) = popcount v + sum_popcount vs

-- The sum stays far below 2 ^ 32: a byte counts 8 at most.
unfoldable pub count : Bitset → ℕ
unfolding sum_popcount popcount
count b = sum_popcount b.bytes

abbrev pub size : Bitset → ℕ
size b = b.data_size

-- All bytes but the last become `v`, and the last one `last`.
pub fill : ℕ → ℕ → List ℕ → List ℕ
fill v last [] = []
fill v last (x ∷ []) = last ∷ []
fill v last (x ∷ y ∷ xs) = v ∷ fill v last (y ∷ xs)

-- `0xFF >> (allocSize * 8 - dataSize)`.
abbrev pub tail_mask : Bitset → ℕ
tail_mask b = 255 / 2 ^ sub32 (b.alloc_size * 8) b.data_size

-- `set()`.
unfoldable pub set_all : Bitset → Bitset
unfolding fill
set_all b = record b { bytes = fill 255 (tail_mask b) b.bytes }

-- `set(idx, value)`: the bit is cleared first.
unfoldable pub set_at : Bitset → ℕ → Bool → Bitset
set_at b idx value =
    let cleared =
      set b.bytes (idx / 8) (bit_and (get_or b.bytes (idx / 8) 0) (mask_out (idx % 8))) in
    let filled = set cleared (idx / 8) (bit_or (get_or cleared (idx / 8) 0) (bit (idx % 8))) in
    record b { bytes = if value then filled else cleared }

-- `reset()`.
unfoldable pub reset_all : Bitset → Bitset
reset_all b = record b { bytes = map (λ _. 0) b.bytes }

-- `reset(idx)`.
unfoldable pub reset_at : Bitset → ℕ → Bitset
reset_at b idx = record b {
  bytes = set b.bytes (idx / 8) (bit_and (get_or b.bytes (idx / 8) 0) (mask_out (idx % 8)));
}

-- `flip()`: every byte is negated, then the unused bits of the last are cleared.
pub flip_bytes : ℕ → List ℕ → List ℕ
flip_bytes mask [] = []
flip_bytes mask (v ∷ []) = bit_and (255 - v) mask ∷ []
flip_bytes mask (v ∷ w ∷ vs) = (255 - v) ∷ flip_bytes mask (w ∷ vs)

unfoldable pub flip_all : Bitset → Bitset
unfolding flip_bytes
flip_all b = record b { bytes = flip_bytes (tail_mask b) b.bytes }

-- `flip(idx)`.
unfoldable pub flip_at : Bitset → ℕ → Bitset
flip_at b idx =
    let v = get_or b.bytes (idx / 8) 0 in
    record b {
      bytes =
          set b.bytes (idx / 8)
            (bit_or (bit_and (255 - v) (bit (idx % 8))) (bit_and v (mask_out (idx % 8))));
    }

-- Byte by byte, over the bytes of the left operand.
pub zip_bytes : (ℕ → ℕ → ℕ) → List ℕ → List ℕ → List ℕ
zip_bytes op [] ws = []
zip_bytes op (v ∷ vs) [] = op v 0 ∷ zip_bytes op vs []
zip_bytes op (v ∷ vs) (w ∷ ws) = op v w ∷ zip_bytes op vs ws

combine : (ℕ → ℕ → ℕ) → Bitset → Bitset → Result Bitset
combine op a b =
    if a.data_size == b.data_size
    then ok (record a { bytes = zip_bytes op a.bytes b.bytes })
    else panic size_mismatch

-- `operator&=`, `operator|=`, `operator^=`; `a & b` is the first on a copy.
unfoldable pub and_assign : Bitset → Bitset → Result Bitset
unfolding combine zip_bytes
and_assign = combine bit_and

unfoldable pub or_assign : Bitset → Bitset → Result Bitset
unfolding combine zip_bytes
or_assign = combine bit_or

unfoldable pub xor_assign : Bitset → Bitset → Result Bitset
unfolding combine zip_bytes
xor_assign = combine bit_xor

-- `operator~`: `flip` on a copy.
unfoldable pub complement : Bitset → Bitset
unfolding flip_all
complement b = flip_all b
