-- ===== src/Block/Erase.antt =====
-- `erase` and the constructor of ftl/common/block.cc.
use testing.Common.{
  ℕ, zero, suc, ◌+◌, ◌%◌, ◌^◌, ◌<◌, ◌≡◌, ◌∙◌, ap, sym, inl, inr, refl, true, false, arith, ◌==◌,
  lt→ltb, length, length-map, length-replicate, replicate, get_or, get_or-map, All-get_or, All-map,
  All-replicate, ok, Bool-cases, ==→eq,
}
use testing.Bitset
use testing.Bitset.{Bitset}
use testing.Bitset.Valid
use testing.Bitset.Whole.{test-reset_all, test-set_all, reset_all-IsValid, set_all-IsValid}
use testing.Block.{Block, erase, allocate, create}
use testing.Block.Slots.{
  valid_at, erased_at, lpn_at, page_of, next_of, Sized, Single, Multi, IsLaidOut, InRange,
}
use testing.Block.Valid.{IsValid}

-- Every slot of `c` is erased and none is valid; the next write of every unit is at page 0.
pub record Erased (b c : Block) : Type 0 where
  pub laid_out : IsLaidOut c
  pub valid : (q j : ℕ) → InRange b q j → valid_at c q j ≡ false
  pub erased : (q j : ℕ) → InRange b q j → erased_at c q j ≡ true
  pub lpns : (q j : ℕ) → lpn_at c q j ≡ lpn_at b q j
  pub next : c.next_write_page_index ≡ replicate b.io_unit_in_page 0
  pub idx : c.idx ≡ b.idx
  pub page_count : c.page_count ≡ b.page_count
  pub units : c.io_unit_in_page ≡ b.io_unit_in_page
  pub accessed : c.last_accessed ≡ b.last_accessed
  pub erases : c.erase_count ≡ (b.erase_count + 1) % 2 ^ 32

reset_all-Sized : (n : ℕ) (v : Bitset) → Sized n v → Sized n (Bitset.reset_all v)
reset_all-Sized n v s = record {
  sound = reset_all-IsValid v s.sound.shape;
  size = unfold Bitset.reset_all in s.size;
}

set_all-Sized : (n : ℕ) (v : Bitset) → Sized n v → Sized n (Bitset.set_all v)
set_all-Sized n v s = record {
  sound = set_all-IsValid v s.sound.shape;
  size = unfold Bitset.set_all in s.size;
}

Sized-set_all :
    (n : ℕ) (v : Bitset) (j : ℕ) → Sized n v → j < n → Bitset.test (Bitset.set_all v) j ≡ true
Sized-set_all n v j s h = test-set_all v s.sound.shape j ∙ ground (arith, s)

module _ (b : Block) where
  erase-Single : Single b → Erased b (erase b)
  unfolding erase lpn_at
  erase-Single s =
      let one : (b.io_unit_in_page == 1) ≡ true = ground (arith, s) in
      rw (one, erase)
        (record {
          laid_out = inl (record {
            unit = s.unit;
            valid = reset_all-Sized b.page_count b.p_valid_bits s.valid;
            erased = set_all-Sized b.page_count b.p_erased_bits s.erased;
            lpns = s.lpns;
          });
          valid = λ q j r. unfold valid_at in ground (arith, s, test-reset_all b.p_valid_bits q);
          erased = λ q j r.
              unfold erased_at in
              ground (arith, s, Sized-set_all b.page_count b.p_erased_bits q s.erased r.page);
          lpns = λ q j. refl;
          next = refl;
          idx = refl;
          page_count = refl;
          units = refl;
          accessed = refl;
          erases = refl;
        })

  erase-Multi : Multi b → Erased b (erase b)
  unfolding erase lpn_at
  erase-Multi m =
      let many : (b.io_unit_in_page == 1) ≡ false = ground (arith, m) in
      rw (many, erase)
        (record {
          laid_out = inr (record {
            units = m.units;
            valid =
                All-map (Sized b.io_unit_in_page) (Sized b.io_unit_in_page) Bitset.reset_all
                  (reset_all-Sized b.io_unit_in_page) b.valid_bits m.valid;
            erased =
                All-map (Sized b.io_unit_in_page) (Sized b.io_unit_in_page) Bitset.set_all
                  (set_all-Sized b.io_unit_in_page) b.erased_bits m.erased;
            lpns = m.lpns;
            valid_pages = length-map Bitset.reset_all b.valid_bits ∙ m.valid_pages;
            erased_pages = length-map Bitset.set_all b.erased_bits ∙ m.erased_pages;
            lpn_pages = m.lpn_pages;
          });
          valid = λ q j r.
              unfold valid_at in
              ground (
                arith,
                m,
                get_or-map Bitset.reset_all b.valid_bits q Bitset.empty Bitset.empty
                    (omega (arith, m, r)),
                test-reset_all (page_of b.valid_bits q) j,
              );
          erased = λ q j r.
              unfold erased_at in
              ground (
                arith,
                m,
                get_or-map Bitset.set_all b.erased_bits q Bitset.empty Bitset.empty
                    (omega (arith, m, r)),
                Sized-set_all b.io_unit_in_page (page_of b.erased_bits q) j
                    (All-get_or (Sized b.io_unit_in_page) b.erased_bits q Bitset.empty m.erased
                      (omega (arith, m, r)))
                    r.unit,
              );
          lpns = λ q j. refl;
          next = refl;
          idx = refl;
          page_count = refl;
          units = refl;
          accessed = refl;
          erases = refl;
        })

  erase_slots : IsLaidOut b → Erased b (erase b)
  erase_slots (inl s) = erase-Single s
  erase_slots (inr m) = erase-Multi m

next_of-zeros : (n i : ℕ) → get_or {A = ℕ} (replicate n 0) i 0 ≡ 0
next_of-zeros zero i = refl
next_of-zeros (suc n) zero = refl
next_of-zeros (suc n) (suc i) = next_of-zeros n i

erased-IsValid : (b c : Block) → b.page_count < 2 ^ 32 → Erased b c → IsValid c
erased-IsValid b c small g = record {
  laid_out = g.laid_out;
  next_units = ap length g.next ∙ length-replicate b.io_unit_in_page 0 ∙ sym g.units;
  small = omega (arith, g);
  next_in = λ i h. ground (arith, g.next, next_of-zeros b.io_unit_in_page i);
  exclusive = λ p i r e. ground (arith, e, g.valid p i (back p i r));
  ahead = λ p i r le. g.erased p i (back p i r);
}
  where
    back : (p i : ℕ) → InRange c p i → InRange b p i
    back p i r = record { page = omega (arith, r, g); unit = omega (arith, r, g) }

-- On a block that is laid out for its mode, with a page count below 2^32, `erase` yields a valid
-- block: every slot is erased and none valid, the next write of every unit is at page 0, and the
-- erase count goes up by one in 32 bits.
pub erase_lem :
    (b : Block) → IsLaidOut b → b.page_count < 2 ^ 32 → IsValid (erase b) × Erased b (erase b)
erase_lem b l small = let g = erase_slots b l in (erased-IsValid b (erase b) small g, g)

-- The constructor sets the erase count after its call of `erase`.
recount : Block → ℕ → Block
recount b n = record b { erase_count = n }

recount-IsLaidOut : (b : Block) (n : ℕ) → IsLaidOut b → IsLaidOut (recount b n)
unfolding recount
recount-IsLaidOut b n (inl s) =
    inl (record { unit = s.unit; valid = s.valid; erased = s.erased; lpns = s.lpns })
recount-IsLaidOut b n (inr m) = inr (record {
  units = m.units;
  valid = m.valid;
  erased = m.erased;
  lpns = m.lpns;
  valid_pages = m.valid_pages;
  erased_pages = m.erased_pages;
  lpn_pages = m.lpn_pages;
})

recount-IsValid : (b : Block) (n : ℕ) → IsValid b → IsValid (recount b n)
unfolding recount valid_at erased_at
recount-IsValid b n v = record {
  laid_out = unfold recount in recount-IsLaidOut b n v.laid_out;
  next_units = v.next_units;
  small = v.small;
  next_in = v.next_in;
  exclusive = λ p i r. v.exclusive p i (record { page = r.page; unit = r.unit });
  ahead = λ p i r. v.ahead p i (record { page = r.page; unit = r.unit });
}

module _ (idx count unit : ℕ) (small : count < 2 ^ 32) (word : unit < 2 ^ 32) (pos : 0 < unit) where
  of_size-Sized : (n : ℕ) → n < 2 ^ 32 → Sized n (Bitset.of_size n)
  unfolding Bitset.of_size
  of_size-Sized n h = record { sound = Valid.of_size-IsValid n h; size = ground arith }

  allocate-IsLaidOut : IsLaidOut (allocate idx count unit)
  unfolding allocate
  allocate-IsLaidOut = elim (Bool-cases (unit == 1)) [
    | inl e ↦
        rw (e, allocate)
          (inl (record {
            unit = ==→eq _ _ e;
            valid = of_size-Sized count small;
            erased = of_size-Sized count small;
            lpns = length-replicate count 0;
          }))
    | inr e ↦
        rw (e, allocate)
          (inr (record {
            units = ground arith;
            valid = All-replicate (Sized unit) count _ (of_size-Sized unit word);
            erased = All-replicate (Sized unit) count _ (of_size-Sized unit word);
            lpns = All-replicate (λ l. length l ≡ unit) count _ (length-replicate unit 0);
            valid_pages = length-replicate count _;
            erased_pages = length-replicate count _;
            lpn_pages = length-replicate count _;
          }))
  ]

  -- For a page count and a positive unit count below 2^32, a new block has the number and the
  -- counts asked for and is valid and never erased; every slot of it is erased, and the next write
  -- of every unit is at page 0.
  pub create_lem :
      (b : Block) × (create idx count unit ≡ ok b)
      × IsValid b
      × (b.idx ≡ idx)
      × (b.erase_count ≡ 0)
      × (b.page_count ≡ count)
      × (b.io_unit_in_page ≡ unit)
      × ((i : ℕ) → next_of b i ≡ 0)
      × ((p i : ℕ) → p < count → i < unit → erased_at b p i ≡ true)
  unfolding create recount erased_at
  create_lem =
      let fresh : Block = allocate idx count unit in
      let out = erase_lem fresh allocate-IsLaidOut small in
      let counted : ((erase fresh).page_count ≡ count) × ((erase fresh).io_unit_in_page ≡ unit) =
        (out.1.page_count, out.1.units) in
      (
        recount (erase fresh) 0,
        rw (lt→ltb 0 unit pos),
        recount-IsValid (erase fresh) 0 out.0,
        out.1.idx,
        refl,
        counted.0,
        counted.1,
        λ i. ground (arith, out.1.next, next_of-zeros (allocate idx count unit).io_unit_in_page i),
        λ p i hp hi. out.1.erased p i (record { page = hp; unit = hi }),
      )
