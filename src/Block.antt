-- ===== src/Block.antt =====
-- ftl/common/block.cc and ftl/common/block.hh: one flash block of the FTL.
-- A block of one I/O unit per page keeps a bitset over its pages; one of several units keeps a bitset
-- for each page. The pointers that a mode leaves null are empty bitsets and lists here. An access by a
-- raw pointer out of range, undefined in C++, reads 0; `at` out of range is the panic `out_of_range`.
-- Copies, moves and the destructor are the value itself.
pub mod Slots
pub mod Valid
pub mod Write
pub mod Invalidate
pub mod Program
pub mod Erase
pub mod Counts
pub mod Dirty
pub mod Info
pub mod Sequence
mod Tests
use testing.Common.{
  ℕ, zero, suc, ◌+◌, ◌%◌, ◌^◌, Bool, true, false, not, ◌&&◌, List, [], ◌∷◌, map, Result, ok, panic,
  ◌>>=◌, ◌>>◌, or_panic, require, out_of_range, io_map_mismatch, write_not_sequential,
  write_not_erased, invalid_io_unit, ◌==◌, ltb, leb, if◌then◌else◌, get_elem?, get_or, set,
  replicate,
}
use testing.Bitset
use testing.Bitset.{Bitset}

pub record Block : Type 0 where
  pub idx : ℕ
  pub page_count : ℕ
  pub io_unit_in_page : ℕ
  pub next_write_page_index : List ℕ
  pub p_valid_bits : Bitset
  pub p_erased_bits : Bitset
  pub p_lpns : List ℕ
  pub valid_bits : List Bitset
  pub erased_bits : List Bitset
  pub pp_lpns : List (List ℕ)
  pub last_accessed : ℕ
  pub erase_count : ℕ

-- `erase`. The last access time stays, as in the source.
unfoldable pub erase : Block → Block
erase b =
    let cleared =
      if b.io_unit_in_page == 1
      then record b {
        p_valid_bits = Bitset.reset_all b.p_valid_bits;
        p_erased_bits = Bitset.set_all b.p_erased_bits;
      }
      else record b {
        valid_bits = map Bitset.reset_all b.valid_bits;
        erased_bits = map Bitset.set_all b.erased_bits;
      } in
    record cleared {
      next_write_page_index = replicate b.io_unit_in_page 0;
      erase_count = (b.erase_count + 1) % 2 ^ 32;
    }

-- The fields as the constructor leaves them before it calls `erase`.
allocate : ℕ → ℕ → ℕ → Block
allocate block_idx count io_unit = record {
  idx = block_idx;
  page_count = count;
  io_unit_in_page = io_unit;
  next_write_page_index = replicate io_unit 0;
  p_valid_bits = if io_unit == 1 then Bitset.of_size count else Bitset.empty;
  p_erased_bits = if io_unit == 1 then Bitset.of_size count else Bitset.empty;
  p_lpns = if io_unit == 1 then replicate count 0 else [];
  valid_bits = if io_unit == 1 then [] else replicate count (Bitset.of_size io_unit);
  erased_bits = if io_unit == 1 then [] else replicate count (Bitset.of_size io_unit);
  pp_lpns = if io_unit == 1 then [] else replicate count (replicate io_unit 0);
  last_accessed = 0;
  erase_count = 0;
}

-- `Block(blockIdx, count, ioUnit)`.
unfoldable pub create : ℕ → ℕ → ℕ → Result Block
unfolding allocate
create block_idx count io_unit = do
  require (ltb 0 io_unit) invalid_io_unit
  ok (record (erase (allocate block_idx count io_unit)) { erase_count = 0 })

pub count_any : List Bitset → ℕ
count_any [] = 0
count_any (b ∷ bs) = if Bitset.any b then suc (count_any bs) else count_any bs

pub sum_count : List Bitset → ℕ
sum_count [] = 0
sum_count (b ∷ bs) = Bitset.count b + sum_count bs

unfoldable pub get_valid_page_count : Block → ℕ
unfolding count_any
get_valid_page_count b =
    if b.io_unit_in_page == 1 then Bitset.count b.p_valid_bits else count_any b.valid_bits

unfoldable pub get_valid_page_count_raw : Block → ℕ
unfolding sum_count
get_valid_page_count_raw b =
    if b.io_unit_in_page == 1 then Bitset.count b.p_valid_bits else sum_count b.valid_bits

-- Neither valid nor erased: `~(valid | erased)`.
pub dirty_bits : Bitset → Bitset → Result Bitset
dirty_bits v e = do both ← Bitset.or_assign v e; ok (Bitset.complement both)

-- The loop over the first `n` pages from page `i`.
pub count_dirty : Block → ℕ → ℕ → Result ℕ
unfolding dirty_bits
count_dirty b zero i = ok 0
count_dirty b (suc n) i = do
  v ← or_panic (get_elem? b.valid_bits i) out_of_range
  e ← or_panic (get_elem? b.erased_bits i) out_of_range
  d ← dirty_bits v e
  rest ← count_dirty b n (suc i)
  ok (if Bitset.any d then suc rest else rest)

unfoldable pub get_dirty_page_count : Block → Result ℕ
unfolding count_dirty dirty_bits
get_dirty_page_count b =
    if b.io_unit_in_page == 1
    then (dirty_bits b.p_valid_bits b.p_erased_bits >>= λ d. ok (Bitset.count d))
    else count_dirty b b.page_count 0

-- `getNextWritePageIndex()`: the largest of the units.
pub max_from : ℕ → List ℕ → ℕ
max_from idx [] = idx
max_from idx (x ∷ xs) = max_from (if ltb idx x then x else idx) xs

unfoldable pub get_next_write_page_index : Block → ℕ
unfolding max_from
get_next_write_page_index b = max_from 0 b.next_write_page_index

-- `getNextWritePageIndex(idx)`.
unfoldable pub get_next_write_page_index_of : Block → ℕ → ℕ
get_next_write_page_index_of b i = get_or b.next_write_page_index i 0

info_of_page : Block → ℕ → Bitset → Bool × List ℕ × Bitset
info_of_page b page_index full = (Bitset.any full, get_or b.p_lpns page_index 0 ∷ [], full)

info_of_units : Block → ℕ → Result (Bool × List ℕ × Bitset)
info_of_units b page_index = do
  v ← or_panic (get_elem? b.valid_bits page_index) out_of_range
  ok (Bitset.any v, get_or b.pp_lpns page_index [], v)

-- `getPageInfo`: its result, and what it leaves in `lpn` and `map`.
unfoldable pub get_page_info : Block → ℕ → Bitset → Result (Bool × List ℕ × Bitset)
unfolding info_of_page info_of_units
get_page_info b page_index m =
    if b.io_unit_in_page == 1 && Bitset.size m == 1
    then ok (info_of_page b page_index (Bitset.set_all m))
    else if Bitset.size m == b.io_unit_in_page
    then info_of_units b page_index
    else panic io_map_mismatch

-- A bit of a page in either mode, with the checks that `read` and `write` share.
bit_of_page : List Bitset → ℕ → ℕ → Result Bool
bit_of_page many page_index i = do
  v ← or_panic (get_elem? many page_index) out_of_range
  ok (Bitset.test v i)

pub unit_bit : Block → Bitset → List Bitset → ℕ → ℕ → Result Bool
unfolding bit_of_page
unit_bit b one many page_index i =
    if b.io_unit_in_page == 1 && i == 0
    then ok (Bitset.test one page_index)
    else if ltb i b.io_unit_in_page
    then bit_of_page many page_index i
    else panic io_map_mismatch

unfoldable pub read : Block → ℕ → ℕ → ℕ → Result (Bool × Block)
unfolding unit_bit
read b page_index i tick = do
  done ← unit_bit b b.p_valid_bits b.valid_bits page_index i
  ok (done, if done then record b { last_accessed = tick } else b)

program_unit : Block → ℕ → ℕ → ℕ → Result Block
program_unit b page_index lpn i = do
  e ← or_panic (get_elem? b.erased_bits page_index) out_of_range
  v ← or_panic (get_elem? b.valid_bits page_index) out_of_range
  ok (record b {
    erased_bits = set b.erased_bits page_index (Bitset.reset_at e i);
    valid_bits = set b.valid_bits page_index (Bitset.set_at v i true);
    pp_lpns = set b.pp_lpns page_index (set (get_or b.pp_lpns page_index []) i lpn);
  })

-- The slot becomes valid, no longer erased, and holds `lpn`.
pub program : Block → ℕ → ℕ → ℕ → Result Block
unfolding program_unit
program b page_index lpn i =
    if b.io_unit_in_page == 1
    then ok (record b {
      p_erased_bits = Bitset.reset_at b.p_erased_bits page_index;
      p_valid_bits = Bitset.set_at b.p_valid_bits page_index true;
      p_lpns = set b.p_lpns page_index lpn;
    })
    else program_unit b page_index lpn i

-- `write(pageIndex, lpn, idx, tick)`.
unfoldable pub write : Block → ℕ → ℕ → ℕ → ℕ → Result (Bool × Block)
unfolding unit_bit program
write b page_index lpn i tick = do
  erased ← unit_bit b b.p_erased_bits b.erased_bits page_index i
  require erased write_not_erased
  require (leb (get_or b.next_write_page_index i 0) page_index) write_not_sequential
  p ← program (record b { last_accessed = tick }) page_index lpn i
  ok (
    true,
    record p { next_write_page_index = set p.next_write_page_index i ((page_index + 1) % 2 ^ 32) },
  )

invalidate_unit : Block → ℕ → ℕ → Result Block
invalidate_unit b page_index i = do
  v ← or_panic (get_elem? b.valid_bits page_index) out_of_range
  ok (record b { valid_bits = set b.valid_bits page_index (Bitset.reset_at v i) })

unfoldable pub invalidate : Block → ℕ → ℕ → Result Block
unfolding invalidate_unit
invalidate b page_index i =
    if b.io_unit_in_page == 1
    then ok (record b { p_valid_bits = Bitset.reset_at b.p_valid_bits page_index })
    else invalidate_unit b page_index i
