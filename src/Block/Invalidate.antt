-- ===== src/Block/Invalidate.antt =====
-- `invalidate` and `read` of ftl/common/block.cc.
use testing.Common.{
  ℕ, ◌≡◌, ◌∙◌, ap, sym, inl, inr, refl, false, arith, ◌==◌, ◌&&◌, if◌then◌else◌, length, length-set,
  set, get_elem?-eq-get_or, All-get_or, All-set, ok,
}
use testing.Bitset
use testing.Block.{Block, invalidate, read}
use testing.Block.Slots.{
  valid_at, erased_at, lpn_at, page_of, Sized, Single, Multi, IsLaidOut, InRange, unit_bit-valid,
}
use testing.Block.Valid.{IsValid}
use testing.Block.Program.{reset_at-Sized, Sized-reset, test-page_set}

-- Slot `(p, i)` of `c` is no longer valid, and all else is as in `b`.
pub record Invalidated (b : Block) (p i : ℕ) (c : Block) : Type 0 where
  pub laid_out : IsLaidOut c
  pub valid :
      (q j : ℕ)
      → InRange b q j
      → valid_at c q j ≡ (if p == q && i == j then false else valid_at b q j)
  pub erased : (q j : ℕ) → erased_at c q j ≡ erased_at b q j
  pub lpns : (q j : ℕ) → lpn_at c q j ≡ lpn_at b q j
  pub next : c.next_write_page_index ≡ b.next_write_page_index
  pub idx : c.idx ≡ b.idx
  pub page_count : c.page_count ≡ b.page_count
  pub units : c.io_unit_in_page ≡ b.io_unit_in_page
  pub accessed : c.last_accessed ≡ b.last_accessed
  pub erases : c.erase_count ≡ b.erase_count

module _ (b : Block) (p i : ℕ) (r : InRange b p i) where
  invalidate-Single : Single b → (c : Block) × (invalidate b p i ≡ ok c) × Invalidated b p i c
  unfolding invalidate erased_at lpn_at
  invalidate-Single s = (
    record b { p_valid_bits = Bitset.reset_at b.p_valid_bits p },
    ground (arith, s),
    record {
      laid_out = inl (record {
        unit = s.unit;
        valid = reset_at-Sized b.page_count b.p_valid_bits p s.valid r.page;
        erased = s.erased;
        lpns = s.lpns;
      });
      valid = λ q j rq.
          unfold valid_at in
          ground (arith, s, r, rq, Sized-reset b.page_count b.p_valid_bits p q s.valid r.page);
      erased = λ q j. refl;
      lpns = λ q j. refl;
      next = refl;
      idx = refl;
      page_count = refl;
      units = refl;
      accessed = refl;
      erases = refl;
    },
  )

  invalidate-Multi : Multi b → (c : Block) × (invalidate b p i ≡ ok c) × Invalidated b p i c
  unfolding invalidate erased_at lpn_at
  invalidate-Multi m =
      let old =
        All-get_or (Sized b.io_unit_in_page) b.valid_bits p Bitset.empty m.valid
          (omega (arith, m, r)) in
      let found = get_elem?-eq-get_or b.valid_bits p Bitset.empty (omega (arith, m, r)) in
      let cleared = Bitset.reset_at (page_of b.valid_bits p) i in
      (
        record b { valid_bits = set b.valid_bits p cleared },
        ground (arith, m, found),
        record {
          laid_out = inr (record {
            units = m.units;
            valid =
                All-set (Sized b.io_unit_in_page) b.valid_bits p cleared m.valid
                  (reset_at-Sized b.io_unit_in_page _ i old r.unit);
            erased = m.erased;
            lpns = m.lpns;
            valid_pages = length-set b.valid_bits p cleared ∙ m.valid_pages;
            erased_pages = m.erased_pages;
            lpn_pages = m.lpn_pages;
          });
          valid = λ q j rq.
              unfold valid_at in
              ground (
                arith,
                m,
                test-page_set b p i r b.valid_bits cleared q j false m.valid_pages
                    (λ k. Sized-reset b.io_unit_in_page (page_of b.valid_bits p) i k old r.unit),
              );
          erased = λ q j. refl;
          lpns = λ q j. refl;
          next = refl;
          idx = refl;
          page_count = refl;
          units = refl;
          accessed = refl;
          erases = refl;
        },
      )

  invalidate_slot : IsLaidOut b → (c : Block) × (invalidate b p i ≡ ok c) × Invalidated b p i c
  invalidate_slot (inl s) = invalidate-Single s
  invalidate_slot (inr m) = invalidate-Multi m

  invalidated-IsValid : (c : Block) → IsValid b → Invalidated b p i c → IsValid c
  invalidated-IsValid c v g = record {
    laid_out = g.laid_out;
    next_units = ap length g.next ∙ v.next_units ∙ sym g.units;
    small = omega (arith, v.small, g);
    next_in = λ j h. ground (arith, v.next_in j, g);
    exclusive = λ q j h e.
        let h' : InRange b q j = record {
          page = omega (arith, h, g);
          unit = omega (arith, h, g);
        } in
        ground (arith, e, g.valid q j h', g.erased q j, v.exclusive q j h');
    ahead = λ q j h le.
        let h' : InRange b q j = record {
          page = omega (arith, h, g);
          unit = omega (arith, h, g);
        } in
        ground (arith, le, g.next, g.erased q j, v.ahead q j h');
  }

  -- On a slot of a valid block `invalidate` succeeds, keeps the invariant and clears the validity
  -- of that slot alone; all else of the block stays.
  pub invalidate_lem :
      IsValid b → (c : Block) × (invalidate b p i ≡ ok c) × IsValid c × Invalidated b p i c
  invalidate_lem v =
      let out = invalidate_slot v.laid_out in
      (out.0, out.1, invalidated-IsValid out.0 v out.2, out.2)

  -- On a slot of a valid block `read` succeeds and reports whether the slot is valid; only if it
  -- is, the time is noted.
  pub read_lem :
      (tick : ℕ)
      → IsValid b
      → read b p i tick
        ≡ ok (valid_at b p i, if valid_at b p i then record b { last_accessed = tick } else b)
  unfolding read
  read_lem tick v = rw (unit_bit-valid b p i v.laid_out r)
