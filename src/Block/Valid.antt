-- ===== src/Block/Valid.antt =====
-- The invariant of a flash block between the operations of ftl/common/block.cc.
use testing.Common.{ℕ, ◌≤◌, ◌<◌, ◌^◌, ◌≡◌, true, false, length}
use testing.Block.{Block}
use testing.Block.Slots.{valid_at, erased_at, next_of, IsLaidOut, InRange}

pub record IsValid (b : Block) : Type 0 where
  pub laid_out : IsLaidOut b
  pub next_units : length b.next_write_page_index ≡ b.io_unit_in_page
  pub small : b.page_count < 2 ^ 32
  pub next_in : (i : ℕ) → i < b.io_unit_in_page → next_of b i ≤ b.page_count
  -- A valid slot is not erased, and the slots from the next write on are.
  pub exclusive : (p i : ℕ) → InRange b p i → valid_at b p i ≡ true → erased_at b p i ≡ false
  pub ahead : (p i : ℕ) → InRange b p i → next_of b i ≤ p → erased_at b p i ≡ true
