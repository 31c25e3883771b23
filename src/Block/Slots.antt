-- ===== src/Block/Slots.antt =====
-- One view of both modes of ftl/common/block.cc: a slot is one I/O unit of one page.
use testing.Common.{
  ℕ, ◌<◌, ◌≡◌, ◌⊎◌, inl, inr, Bool, List, [], arith, ◌==◌, if◌then◌else◌, length, get_or,
  get_elem?-eq-get_or, All, ok,
}
use testing.Bitset
use testing.Bitset.{Bitset}
use testing.Bitset.Valid
use testing.Block.{Block, unit_bit}

abbrev pub page_of : List Bitset → ℕ → Bitset
page_of bs p = get_or bs p Bitset.empty

unfoldable pub valid_at : Block → ℕ → ℕ → Bool
valid_at b p i =
    if b.io_unit_in_page == 1
    then Bitset.test b.p_valid_bits p
    else Bitset.test (page_of b.valid_bits p) i

unfoldable pub erased_at : Block → ℕ → ℕ → Bool
erased_at b p i =
    if b.io_unit_in_page == 1
    then Bitset.test b.p_erased_bits p
    else Bitset.test (page_of b.erased_bits p) i

unfoldable pub lpn_at : Block → ℕ → ℕ → ℕ
lpn_at b p i =
    if b.io_unit_in_page == 1 then get_or b.p_lpns p 0 else get_or (get_or b.pp_lpns p []) i 0

abbrev pub next_of : Block → ℕ → ℕ
next_of b i = get_or b.next_write_page_index i 0

-- A bitset of `n` bits.
pub record Sized (n : ℕ) (v : Bitset) : Type 0 where
  pub sound : Valid.IsValid v
  pub size : v.data_size ≡ n

-- The fields that the two modes use.
pub record Single (b : Block) : Type 0 where
  pub unit : b.io_unit_in_page ≡ 1
  pub valid : Sized b.page_count b.p_valid_bits
  pub erased : Sized b.page_count b.p_erased_bits
  pub lpns : length b.p_lpns ≡ b.page_count

pub record Multi (b : Block) : Type 0 where
  pub units : 1 < b.io_unit_in_page
  pub valid : All (Sized b.io_unit_in_page) b.valid_bits
  pub erased : All (Sized b.io_unit_in_page) b.erased_bits
  pub lpns : All (λ l. length l ≡ b.io_unit_in_page) b.pp_lpns
  pub valid_pages : length b.valid_bits ≡ b.page_count
  pub erased_pages : length b.erased_bits ≡ b.page_count
  pub lpn_pages : length b.pp_lpns ≡ b.page_count

abbrev pub IsLaidOut : Block → Type 0
IsLaidOut b = Single b ⊎ Multi b

-- A slot of the block.
pub record InRange (b : Block) (p i : ℕ) : Type 0 where
  pub page : p < b.page_count
  pub unit : i < b.io_unit_in_page

-- The checks of `read` and `write` pass for a slot of the block, and hand over its bit.
pub unit_bit-valid :
    (b : Block) (p i : ℕ)
    → IsLaidOut b
    → InRange b p i
    → unit_bit b b.p_valid_bits b.valid_bits p i ≡ ok (valid_at b p i)
unfolding unit_bit valid_at
unit_bit-valid b p i (inl s) r = ground (arith, s, r)
unit_bit-valid b p i (inr m) r =
    ground (arith, m, r, get_elem?-eq-get_or b.valid_bits p Bitset.empty (omega (arith, m, r)))

pub unit_bit-erased :
    (b : Block) (p i : ℕ)
    → IsLaidOut b
    → InRange b p i
    → unit_bit b b.p_erased_bits b.erased_bits p i ≡ ok (erased_at b p i)
unfolding unit_bit erased_at
unit_bit-erased b p i (inl s) r = ground (arith, s, r)
unit_bit-erased b p i (inr m) r =
    ground (arith, m, r, get_elem?-eq-get_or b.erased_bits p Bitset.empty (omega (arith, m, r)))

-- The access time and the next pages are no part of the layout.
abbrev pub retime : Block → ℕ → List ℕ → Block
retime b tick next = record b { last_accessed = tick; next_write_page_index = next }

pub retime-IsLaidOut :
    (b : Block) (tick : ℕ) (next : List ℕ) → IsLaidOut b → IsLaidOut (retime b tick next)
retime-IsLaidOut b tick next (inl s) =
    inl (record { unit = s.unit; valid = s.valid; erased = s.erased; lpns = s.lpns })
retime-IsLaidOut b tick next (inr m) = inr (record {
  units = m.units;
  valid = m.valid;
  erased = m.erased;
  lpns = m.lpns;
  valid_pages = m.valid_pages;
  erased_pages = m.erased_pages;
  lpn_pages = m.lpn_pages;
})
