-- ===== src/Ftl/Pool.antt =====
-- The pool of free blocks: `getFreeBlock`, `getLastFreeBlock` and `eraseInternal`.
use mathlib.Core.List.{reverse}
use testing.Common.{
  ℕ, ◌+◌, ◌-◌, ◌%◌, ◌^◌, Bool, true, false, List, [], ◌∷◌, Option, none, some, Result, ok, panic,
  ◌>>=◌, ◌>>◌, require, or_panic, ◌==◌, ltb, leb, if◌then◌else◌, get_elem?, set, index_out_of_range,
  no_free_block, corrupted, dangling, out_of_range, no_such_block, valid_pages_in_victim,
}
use testing.Common.Maps.{lookup, insert, erase}
use testing.Bitset
use testing.Bitset.{Bitset}
use testing.Block
use testing.Block.{Block}
use testing.Ftl.State.{Ftl, Devices, PalRequest, issue, pal_erase, compute, cpu_erase_internal}

-- `convertBlockIdx`.
unfoldable pub convert_block_idx : Ftl → ℕ → ℕ
convert_block_idx s block_idx = block_idx % s.page_count_to_max_perf

abbrev pub is_absent : Option Block → Bool
is_absent none = true
is_absent (some b) = false

-- The first free block of the channel `idx`, with the list without it.
unfoldable pub take_matching : ℕ → ℕ → List Block → Option (Block × List Block)
take_matching channels idx [] = none
take_matching channels idx (b ∷ bs) =
    if b.idx % channels == idx
    then some (b, bs)
    else elim (take_matching channels idx bs) [ none ↦ none | some (c, cs) ↦ some (c, b ∷ cs) ]

take_first : List Block → Result (Block × List Block)
take_first [] = panic dangling
take_first (b ∷ bs) = ok (b, bs)

-- "Just use first one" where the search found none.
unfoldable pub take_free : ℕ → ℕ → List Block → Result (Block × List Block)
unfolding take_matching take_first
take_free channels idx bs = elim (take_matching channels idx bs) [
  | some found ↦ ok found
  | none ↦ take_first bs
]

-- `getFreeBlock`.
unfoldable pub get_free_block : Ftl → ℕ → Result (ℕ × Ftl)
get_free_block s idx = do
  require (ltb idx s.page_count_to_max_perf) index_out_of_range
  require (ltb 0 s.n_free_blocks) no_free_block
  (b, rest) ← take_free s.page_count_to_max_perf idx s.free_blocks
  require (is_absent (lookup b.idx s.blocks)) corrupted
  ok (
    b.idx,
    record s {
      blocks = insert b.idx b s.blocks;
      free_blocks = rest;
      n_free_blocks = s.n_free_blocks - 1;
    },
  )

-- Whether the I/O map of the last writes overlaps `iomap`.
unfoldable pub overlaps : Ftl → Bitset → Result Bool
overlaps s iomap =
    if s.random_tweak
    then (Bitset.and_assign s.last_free_block_io_map iomap >>= λ both. ok (Bitset.any both))
    else ok true

unfoldable pub next_index : Ftl → ℕ
next_index s =
    if s.last_free_block_index + 1 == s.page_count_to_max_perf
    then 0
    else s.last_free_block_index + 1

-- The channel and the I/O map for the next write.
unfoldable pub advance : Ftl → Bitset → Result Ftl
unfolding overlaps next_index
advance s iomap = overlaps s iomap >>= λ overlap.
    if overlap
    then ok (record s { last_free_block_index = next_index s; last_free_block_io_map = iomap })
    else (Bitset.or_assign s.last_free_block_io_map iomap >>= λ merged.
        ok (record s { last_free_block_io_map = merged }))

-- A full block is replaced by a free one.
unfoldable pub refill : Ftl → Block → Result Ftl
refill s b =
    if Block.get_next_write_page_index b == s.pages_in_block
    then (get_free_block s s.last_free_block_index >>= λ r. ok (record r.1 {
      last_free_block = set r.1.last_free_block r.1.last_free_block_index r.0;
      reclaim_more = true;
    }))
    else ok s

-- `getLastFreeBlock`.
unfoldable pub get_last_free_block : Ftl → Bitset → Result (ℕ × Ftl)
unfolding advance refill
get_last_free_block s iomap = do
  t ← advance s iomap
  last ← or_panic (get_elem? t.last_free_block t.last_free_block_index) out_of_range
  b ← or_panic (lookup last t.blocks) corrupted
  u ← refill t b
  chosen ← or_panic (get_elem? u.last_free_block u.last_free_block_index) out_of_range
  ok (chosen, u)

-- From the back: before the first block that is erased at most as often, seen from there.
unfoldable pub place_back : Block → List Block → List Block
place_back b [] = b ∷ []
place_back b (x ∷ xs) = if leb x.erase_count b.erase_count then b ∷ x ∷ xs else x ∷ place_back b xs

-- The reverse search of `eraseInternal`, which steps back from `end()` before it looks.
unfoldable pub insert_free : Block → List Block → Result (List Block)
unfolding place_back
insert_free b [] = panic dangling
insert_free b (x ∷ xs) = ok (reverse (place_back b (reverse (x ∷ xs))))

-- A block erased `bad_block_threshold` times is dropped.
retire_or_free : Devices → Ftl → Block → Result Ftl
retire_or_free d s b =
    if ltb b.erase_count d.bad_block_threshold
    then (insert_free b s.free_blocks >>= λ free.
        ok (record s { free_blocks = free; n_free_blocks = (s.n_free_blocks + 1) % 2 ^ 32 }))
    else ok s

-- `eraseInternal`.
unfoldable pub erase_internal : Devices → Ftl → PalRequest → ℕ → Result (ℕ × Ftl)
unfolding retire_or_free
erase_internal d s req tick = do
  b ← or_panic (lookup req.block_index s.blocks) no_such_block
  require (Block.get_valid_page_count b == 0) valid_pages_in_victim
  let (t₁, s₁) = issue d s (pal_erase req) tick
  s₂ ← retire_or_free d s₁ (Block.erase b)
  ok (
      issue d (record s₂ { blocks = erase req.block_index s₂.blocks }) (compute cpu_erase_internal)
        t₁)
