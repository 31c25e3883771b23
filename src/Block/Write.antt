-- ===== src/Block/Write.antt =====
-- `write` of ftl/common/block.cc on every branch, and that it keeps the invariant.
use testing.Common.{
  ℕ, ◌+◌, ◌%◌, ◌^◌, ◌≤◌, ◌<◌, ◌≡◌, ◌∙◌, ap, sym, true, false, arith, ◌==◌, ◌&&◌, if◌then◌else◌,
  length, length-set, set, get_or-set, ok, panic, write_not_sequential, write_not_erased,
}
use testing.Block.{Block, write}
use testing.Block.Slots.{
  valid_at, erased_at, lpn_at, next_of, InRange, unit_bit-erased, retime, retime-IsLaidOut,
}
use testing.Block.Valid.{IsValid}
use testing.Block.Program.{Programmed, program_lem}

-- Slot `(p, i)` of `c` was written with `lpn` at `tick`, and all else is as in `b`.
pub record Written (b : Block) (p i lpn tick : ℕ) (c : Block) : Type 0 where
  pub valid :
      (q j : ℕ)
      → InRange b q j
      → valid_at c q j ≡ (if p == q && i == j then true else valid_at b q j)
  pub erased :
      (q j : ℕ)
      → InRange b q j
      → erased_at c q j ≡ (if p == q && i == j then false else erased_at b q j)
  pub lpns :
      (q j : ℕ) → InRange b q j → lpn_at c q j ≡ (if p == q && i == j then lpn else lpn_at b q j)
  pub next : (j : ℕ) → next_of c j ≡ (if i == j then p + 1 else next_of b j)
  pub idx : c.idx ≡ b.idx
  pub page_count : c.page_count ≡ b.page_count
  pub units : c.io_unit_in_page ≡ b.io_unit_in_page
  pub erases : c.erase_count ≡ b.erase_count
  pub accessed : c.last_accessed ≡ tick

module _ (b c : Block) (p i lpn tick : ℕ) (r : InRange b p i) where
  abbrev touched : Block
  touched = retime b tick b.next_write_page_index

  abbrev advanced : Block
  advanced = retime c c.last_accessed (set c.next_write_page_index i ((p + 1) % 2 ^ 32))

  advance-Written : IsValid b → Programmed touched p i lpn c → Written b p i lpn tick advanced
  unfolding valid_at erased_at lpn_at
  advance-Written v g = record {
    valid = λ q j h. g.valid q j (record { page = h.page; unit = h.unit });
    erased = λ q j h. g.erased q j (record { page = h.page; unit = h.unit });
    lpns = λ q j h. g.lpns q j (record { page = h.page; unit = h.unit });
    next = λ j. ground (
      arith,
      r,
      v.small,
      v.next_units,
      g.frame,
      get_or-set c.next_write_page_index i j (p + 1) 0
          (rw (g.frame.next) (omega (arith, r, v.next_units))),
    );
    idx = g.frame.idx;
    page_count = g.frame.page_count;
    units = g.frame.units;
    erases = g.frame.erases;
    accessed = g.frame.accessed;
  }

  back : Written b p i lpn tick advanced → (q j : ℕ) → InRange advanced q j → InRange b q j
  back w q j h = record { page = omega (arith, h, w); unit = omega (arith, h, w) }

  advance-IsValid :
      IsValid b
      → next_of b i ≤ p
      → Programmed touched p i lpn c
      → Written b p i lpn tick advanced
      → IsValid advanced
  advance-IsValid v old g w = record {
    laid_out = retime-IsLaidOut c _ _ g.laid_out;
    next_units =
        length-set c.next_write_page_index i _
        ∙ ap length g.frame.next
        ∙ v.next_units
        ∙ sym g.frame.units;
    small = omega (arith, v.small, w);
    next_in = λ j h. ground (arith, w.next j, v.next_in j, w, r);
    exclusive = λ q j h e.
        let h' = back w q j h in
        ground (arith, e, w.valid q j h', w.erased q j h', v.exclusive q j h');
    ahead = λ q j h le.
        let h' = back w q j h in ground (arith, old, le, w.next j, w.erased q j h', v.ahead q j h');
  }

module _ (b : Block) (v : IsValid b) (p i lpn tick : ℕ) (r : InRange b p i) where
  -- On a slot of a valid block that is erased and whose page is at or past the next page of its
  -- unit, `write` succeeds and keeps the invariant: the slot becomes valid and not erased and
  -- holds the logical page, the next page of the unit follows it, the time is noted, and all other
  -- slots and counts stay.
  pub write_lem :
      erased_at b p i ≡ true
      → next_of b i ≤ p
      → (c : Block) × (write b p lpn i tick ≡ ok (true, c)) × IsValid c × Written b p i lpn tick c
  unfolding write
  write_lem e le =
      let r' : InRange (touched b b p i lpn tick r) p i = record { page = r.page; unit = r.unit } in
      let out =
        program_lem (touched b b p i lpn tick r) p i lpn (retime-IsLaidOut b tick _ v.laid_out)
          r' in
      let w = advance-Written b out.0 p i lpn tick r v out.2 in
      (
        advanced b out.0 p i lpn tick r,
        rw (unit_bit-erased b p i v.laid_out r, e) (ground (arith, le, out.1)),
        advance-IsValid b out.0 p i lpn tick r v le out.2 w,
        w,
      )

  -- On a slot of a valid block that is not erased, `write` ends in the panic "Write to non erased
  -- page".
  pub write_not_erased_lem : erased_at b p i ≡ false → write b p lpn i tick ≡ panic write_not_erased
  unfolding write
  write_not_erased_lem e = rw (unit_bit-erased b p i v.laid_out r, e)

  -- On an erased slot of a valid block whose page is before the next page of its unit, `write`
  -- ends in the panic "Write to block should sequential".
  pub write_not_sequential_lem :
      erased_at b p i ≡ true → p < next_of b i → write b p lpn i tick ≡ panic write_not_sequential
  unfolding write
  write_not_sequential_lem e lt = rw (unit_bit-erased b p i v.laid_out r, e) (ground arith)
