-- ===== src/Block/Dirty.antt =====
-- `getDirtyPageCount` of ftl/common/block.cc: the pages with a slot that is neither valid nor erased.
use native.Mathlib.Nat.{zero-add}
use testing.Common.{
  ℕ, zero, suc, ◌+◌, ◌≤◌, ◌<◌, ◌≡◌, ◌∙◌, inl, inr, refl, Bool, not, ◌||◌, arith, lt→ltb,
  get_elem?-eq-get_or, All-get_or, ok,
}
use testing.Bitset
use testing.Bitset.{Bitset}
use testing.Bitset.Count.{any-count}
use testing.Bitset.Combine.{
  or_assign_lem, test-complement, complement-IsValid, data_size-complement,
}
use testing.Block.{Block, get_dirty_page_count, count_dirty, dirty_bits}
use testing.Block.Slots.{valid_at, erased_at, Sized, Multi, IsLaidOut}
use testing.Block.Counts.{pages_from, count-Sized, one_unit}

pub dirty_at : Block → ℕ → ℕ → Bool
dirty_at b p i = not (valid_at b p i || erased_at b p i)

-- `~(v | e)` on bitsets of one size never panics.
dirty_bits_lem :
    (n : ℕ) (v e : Bitset)
    → Sized n v
    → Sized n e
    → (d : Bitset) × (dirty_bits v e ≡ ok d)
      × Sized n d
      × ((j : ℕ) → j < n → Bitset.test d j ≡ not (Bitset.test v j || Bitset.test e j))
unfolding dirty_bits
dirty_bits_lem n v e sv se =
    let (c, run, g) = or_assign_lem v e sv.sound se.sound (omega (arith, sv, se)) in
    (
      Bitset.complement c,
      rw run,
      record {
        sound = complement-IsValid c g.valid.shape;
        size = data_size-complement c ∙ g.same_size ∙ sv.size;
      },
      λ j hj. ground (
        arith,
        test-complement c g.valid.shape j,
        g.bits j,
        lt→ltb j c.data_size (omega (arith, g.same_size, sv.size)),
      ),
    )

count_dirty_lem :
    (b : Block) (k i : ℕ)
    → Multi b
    → i + k ≤ b.page_count
    → count_dirty b k i ≡ ok (pages_from b.io_unit_in_page i k (dirty_at b))
unfolding count_dirty pages_from
count_dirty_lem b zero i m h = refl
count_dirty_lem b (suc k) i m h =
    let v = get_elem?-eq-get_or b.valid_bits i Bitset.empty (omega (arith, m)) in
    let e = get_elem?-eq-get_or b.erased_bits i Bitset.empty (omega (arith, m)) in
    let sv =
      All-get_or (Sized b.io_unit_in_page) b.valid_bits i Bitset.empty m.valid (omega (arith, m)) in
    let se =
      All-get_or (Sized b.io_unit_in_page) b.erased_bits i Bitset.empty m.erased
        (omega (arith, m)) in
    let (d, run, sd, bits) = dirty_bits_lem b.io_unit_in_page _ _ sv se in
    let counted =
      count-Sized b.io_unit_in_page d (dirty_at b i) sd
        (λ j hj. unfold dirty_at valid_at erased_at in ground (arith, m, bits j hj)) in
    rw (v, e, run, count_dirty_lem b k (suc i) m (omega arith))
      (ground (arith, any-count d sd.sound, counted))

-- On a block that is laid out for its mode, `getDirtyPageCount` succeeds and is the number of
-- pages with a slot that is neither valid nor erased.
pub dirty_page_count_lem :
    (b : Block)
    → IsLaidOut b
    → get_dirty_page_count b ≡ ok (pages_from b.io_unit_in_page 0 b.page_count (dirty_at b))
unfolding get_dirty_page_count
dirty_page_count_lem b (inr m) = ground (arith, m, count_dirty_lem b b.page_count 0 m (omega arith))
dirty_page_count_lem b (inl s) =
    let (d, run, sd, bits) = dirty_bits_lem b.page_count _ _ s.valid s.erased in
    let counted =
      count-Sized b.page_count d (λ q. dirty_at b (0 + q) 0) sd
        (λ q hq. unfold dirty_at valid_at erased_at in ground (arith, s, bits q hq, zero-add q)) in
    ground (arith, s, run, counted, one_unit b.page_count 0 (dirty_at b))
