-- ===== src/Block/Sequence.antt =====
-- `getNextWritePageIndex()` of ftl/common/block.cc is the largest of the units' next pages.
use testing.Common.{
  ℕ, zero, suc, ◌≤◌, ◌<◌, List, [], ◌∷◌, arith, if◌then◌else◌, ltb, length, get_or,
}
use testing.Block.{Block, get_next_write_page_index, max_from}
use testing.Block.Slots.{next_of}
use testing.Block.Valid.{IsValid}

max_from-ge : (xs : List ℕ) (m : ℕ) → m ≤ max_from m xs
unfolding max_from
max_from-ge [] m = omega arith
max_from-ge (x ∷ xs) m = ground (arith, max_from-ge xs (if ltb m x then x else m))

get_or-le_max : (xs : List ℕ) (m i : ℕ) → get_or xs i 0 ≤ max_from m xs
unfolding max_from
get_or-le_max [] m i = omega arith
get_or-le_max (x ∷ xs) m zero = ground (arith, max_from-ge xs (if ltb m x then x else m))
get_or-le_max (x ∷ xs) m (suc i) = get_or-le_max xs (if ltb m x then x else m) i

max_from-le :
    (xs : List ℕ) (m n : ℕ)
    → m ≤ n
    → ((i : ℕ) → i < length xs → get_or xs i 0 ≤ n)
    → max_from m xs ≤ n
unfolding max_from
max_from-le [] m n h each = h
max_from-le (x ∷ xs) m n h each =
    max_from-le xs (if ltb m x then x else m) n (ground (arith, each 0 (omega arith)))
      (λ i lt. each (suc i) (omega arith))

pub next_of-le_max : (b : Block) (i : ℕ) → next_of b i ≤ get_next_write_page_index b
unfolding get_next_write_page_index
next_of-le_max b i = get_or-le_max b.next_write_page_index 0 i

pub max-le : (b : Block) → IsValid b → get_next_write_page_index b ≤ b.page_count
unfolding get_next_write_page_index
max-le b v =
    max_from-le b.next_write_page_index 0 b.page_count (omega arith)
      (λ i lt. v.next_in i (omega (arith, lt, v.next_units)))
