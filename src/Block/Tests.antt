-- ===== src/Block/Tests.antt =====
-- The theorems about ftl/common/block.cc at work on a block of two pages of two units.
use testing.Common.{
  ℕ, ◌<◌, ◌≤◌, ◌≡◌, ◌∙◌, refl, sym, ap, subst, inl, inr, Bool, true, false, [], ◌∷◌, arith, Result,
  ok, panic, if◌then◌else◌,
}
use testing.Bitset
use testing.Bitset.{Bitset}
use testing.Bitset.Valid.{of_size-IsValid}
use testing.Block
use testing.Block.{
  Block, create, erase, write, invalidate, read, get_valid_page_count, get_valid_page_count_raw,
  get_dirty_page_count, get_page_info,
}
use testing.Block.Valid.{IsValid}
use testing.Block.Slots.{valid_at, erased_at, next_of, Multi, InRange}
use testing.Block.Write.{Written, write_lem}
use testing.Block.Invalidate.{Invalidated, invalidate_lem, read_lem}
use testing.Block.Erase.{Erased, erase_lem, create_lem}
use testing.Block.Counts.{pages_from, valid_page_count_lem}
use testing.Block.Dirty.{dirty_at, dirty_page_count_lem}
use testing.Block.Info.{Informs, get_page_info_lem}

-- The value of a result.
abbrev or_else : {A : Type 0} → Result A → A → A
or_else (ok x) y = x
or_else (panic f) y = y

abbrev some_block : Block
some_block = Block.allocate 7 2 2

abbrev new_block : Block
new_block = or_else (create 7 2 2) some_block

create_example :
    (b : Block) × (create 7 2 2 ≡ ok b)
    × IsValid b
    × (b.idx ≡ 7)
    × (b.erase_count ≡ 0)
    × (b.page_count ≡ 2)
    × (b.io_unit_in_page ≡ 2)
    × ((i : ℕ) → next_of b i ≡ 0)
    × ((p i : ℕ) → p < 2 → i < 2 → erased_at b p i ≡ true)
create_example = create_lem 7 2 2 (omega arith) (omega arith) (omega arith)

is_new : create_example.0 ≡ new_block
is_new = sym (ap (λ r. or_else r some_block) create_example.1)

new_block-IsValid : IsValid new_block
new_block-IsValid = subst IsValid is_new create_example.2

new_counts : (new_block.page_count ≡ 2) × (new_block.io_unit_in_page ≡ 2)
new_counts =
    subst (λ (b : Block). (b.page_count ≡ 2) × (b.io_unit_in_page ≡ 2)) is_new
      (create_example.5, create_example.6)

slot : InRange new_block 1 0
slot = record { page = omega (arith, new_counts); unit = omega (arith, new_counts) }

new-erased : erased_at new_block 1 0 ≡ true
new-erased =
    subst (λ b. erased_at b 1 0 ≡ true) is_new (create_example.8 1 0 (omega arith) (omega arith))

new-next : next_of new_block 0 ≤ 1
new-next = omega (arith, subst (λ b. next_of b 0 ≡ 0) is_new (create_example.7 0))

write_example :
    (c : Block) × (write new_block 1 42 0 9 ≡ ok (true, c))
    × IsValid c
    × Written new_block 1 0 42 9 c
write_example = write_lem new_block new_block-IsValid 1 0 42 9 slot new-erased new-next

abbrev written : Block
written = (or_else {A = Bool × Block} (write new_block 1 42 0 9) (false, some_block)).1

is_written : write_example.0 ≡ written
is_written = sym (ap (λ r. (or_else {A = Bool × Block} r (false, some_block)).1) write_example.1)

written_lem : IsValid written × Written new_block 1 0 42 9 written
written_lem =
    subst (λ b. IsValid b × Written new_block 1 0 42 9 b) is_written
      (write_example.2, write_example.3)

written_slot : (p i : ℕ) → p < 2 → i < 2 → InRange written p i
written_slot p i hp hi = record {
  page = omega (arith, new_counts, written_lem.1);
  unit = omega (arith, new_counts, written_lem.1);
}

not_erased : erased_at written 1 0 ≡ false
not_erased = written_lem.1.erased 1 0 slot

-- Page 0 is still erased, but the next page is 2.
first_erased : erased_at written 0 0 ≡ true
first_erased =
    written_lem.1.erased 0 0
      (record { page = omega (arith, new_counts); unit = omega (arith, new_counts) })
    ∙ subst (λ b. erased_at b 0 0 ≡ true) is_new (create_example.8 0 0 (omega arith) (omega arith))

next_is : next_of written 0 ≡ 2
next_is = written_lem.1.next 0

invalidate_example :
    (c : Block) × (invalidate written 1 0 ≡ ok c) × IsValid c × Invalidated written 1 0 c
invalidate_example =
    invalidate_lem written 1 0 (written_slot 1 0 (omega arith) (omega arith)) written_lem.0

read_example :
    read written 1 0 11
    ≡ ok (
      valid_at written 1 0,
      if valid_at written 1 0 then record written { last_accessed = 11 } else written,
    )
read_example = read_lem written 1 0 (written_slot 1 0 (omega arith) (omega arith)) 11 written_lem.0

erase_example : IsValid (erase written) × Erased written (erase written)
erase_example = erase_lem written written_lem.0.laid_out written_lem.0.small

valid_page_count_example :
    get_valid_page_count written
    ≡ pages_from written.io_unit_in_page 0 written.page_count (valid_at written)
valid_page_count_example = valid_page_count_lem written written_lem.0.laid_out

dirty_page_count_example :
    get_dirty_page_count written
    ≡ ok (pages_from written.io_unit_in_page 0 written.page_count (dirty_at written))
dirty_page_count_example = dirty_page_count_lem written written_lem.0.laid_out

written-Multi : Multi written
written-Multi = elim written_lem.0.laid_out [
  | inr m ↦ m
  | inl s ↦ absurd (omega (arith, s, new_counts, written_lem.1.units))
]

-- A new block whose pages have one unit.
plain : (b : Block) × (create 3 2 1 ≡ ok b) × IsValid b × (b.io_unit_in_page ≡ 1)
plain =
    let (b, run, valid, _, _, _, units, _, _) =
      create_lem 3 2 1 (omega arith) (omega arith) (omega arith) in
    (b, run, valid, units)

abbrev plain_block : Block
plain_block = or_else (create 3 2 1) some_block

plain_lem : IsValid plain_block × (plain_block.io_unit_in_page ≡ 1)
plain_lem =
    subst (λ (b : Block). IsValid b × (b.io_unit_in_page ≡ 1))
      (sym (ap (λ r. or_else r some_block) plain.1)) (plain.2, plain.3)

plain_pages : plain_block.page_count ≡ 2
unfolding create Block.allocate erase
plain_pages = refl

-- Nothing was ever written to the block, and yet page 1 is reported to hold valid data.
reports_blank_page :
    get_page_info plain_block 1 (Bitset.of_size 1)
    ≡ ok (true, 0 ∷ [], Bitset.set_all (Bitset.of_size 1))
unfolding get_page_info create erase Bitset.set_all Bitset.of_size Bitset.any
reports_blank_page = refl

get_page_info_example :
    Informs plain_block 1 (Bitset.of_size 1) (get_page_info plain_block 1 (Bitset.of_size 1))
get_page_info_example =
    get_page_info_lem plain_block 1 (Bitset.of_size 1) plain_lem.0.laid_out
      (omega (arith, plain_pages)) (of_size-IsValid 1 (omega arith))
