-- ===== src/Block/Program.antt =====
-- What `write` and `invalidate` of ftl/common/block.cc do to the slots of a block.
use testing.Common.{
  ℕ, ◌<◌, ◌≡◌, ◌∙◌, inl, inr, refl, Bool, true, false, List, [], arith, ◌==◌, ◌&&◌, if◌then◌else◌,
  length, length-set, set, get_elem?, get_or, get_or-set, get_elem?-eq-get_or, All-get_or, All-set,
  ok, some,
}
use testing.Bitset
use testing.Bitset.{Bitset}
use testing.Bitset.Valid
use testing.Bitset.Access.{
  test-set_at, test-reset_at, set_at-IsValid, reset_at-IsValid, data_size-set_at,
  data_size-reset_at,
}
use testing.Block.{Block, program, program_unit}
use testing.Block.Slots.{
  valid_at, erased_at, lpn_at, page_of, Sized, Single, Multi, IsLaidOut, InRange,
}

-- The fields that no write to a slot changes.
pub record SameFrame (b c : Block) : Type 0 where
  pub idx : c.idx ≡ b.idx
  pub page_count : c.page_count ≡ b.page_count
  pub units : c.io_unit_in_page ≡ b.io_unit_in_page
  pub next : c.next_write_page_index ≡ b.next_write_page_index
  pub accessed : c.last_accessed ≡ b.last_accessed
  pub erases : c.erase_count ≡ b.erase_count

-- Slot `(p, i)` of `c` is programmed with `lpn`, and all else is as in `b`.
pub record Programmed (b : Block) (p i lpn : ℕ) (c : Block) : Type 0 where
  pub laid_out : IsLaidOut c
  pub frame : SameFrame b c
  pub valid :
      (q j : ℕ)
      → InRange b q j
      → valid_at c q j ≡ (if p == q && i == j then true else valid_at b q j)
  pub erased :
      (q j : ℕ)
      → InRange b q j
      → erased_at c q j ≡ (if p == q && i == j then false else erased_at b q j)
  pub lpns :
      (q j : ℕ) → InRange b q j → lpn_at c q j ≡ (if p == q && i == j then lpn else lpn_at b q j)

set_at-Sized :
    (n : ℕ) (v : Bitset) (i : ℕ) (x : Bool) → Sized n v → i < n → Sized n (Bitset.set_at v i x)
set_at-Sized n v i x s h = record {
  sound = set_at-IsValid v s.sound i (omega (arith, s)) x;
  size = omega (arith, data_size-set_at v i x, s);
}

pub reset_at-Sized :
    (n : ℕ) (v : Bitset) (i : ℕ) → Sized n v → i < n → Sized n (Bitset.reset_at v i)
reset_at-Sized n v i s h = record {
  sound = reset_at-IsValid v s.sound i (omega (arith, s));
  size = omega (arith, data_size-reset_at v i, s);
}

-- The bit that `set_at` and `reset_at` leave at `j`, for a bitset of known size.
Sized-set :
    (n : ℕ) (v : Bitset) (i j : ℕ) (x : Bool)
    → Sized n v
    → i < n
    → Bitset.test (Bitset.set_at v i x) j ≡ (if i == j then x else Bitset.test v j)
Sized-set n v i j x s h = test-set_at v i j x (Valid.in_bounds i s.sound.shape (omega (arith, s)))

pub Sized-reset :
    (n : ℕ) (v : Bitset) (i j : ℕ)
    → Sized n v
    → i < n
    → Bitset.test (Bitset.reset_at v i) j ≡ (if i == j then false else Bitset.test v j)
Sized-reset n v i j s h = test-reset_at v i j (Valid.in_bounds i s.sound.shape (omega (arith, s)))

module _ (b : Block) (p i : ℕ) (r : InRange b p i) where
  -- Bitsets of the pages after page `p` has been given `w`.
  pub test-page_set :
      (bs : List Bitset) (w : Bitset) (q j : ℕ) (x : Bool)
      → length bs ≡ b.page_count
      → ((k : ℕ) → Bitset.test w k ≡ (if i == k then x else Bitset.test (page_of bs p) k))
      → Bitset.test (page_of (set bs p w) q) j
        ≡ (if p == q && i == j then x else Bitset.test (page_of bs q) j)
  test-page_set bs w q j x len hw =
      ground (arith, r, get_or-set bs p q w Bitset.empty (omega (arith, r)), hw j)

  program-Single :
      Single b → (lpn : ℕ) → (c : Block) × (program b p lpn i ≡ ok c) × Programmed b p i lpn c
  unfolding program
  program-Single s lpn = (
    c,
    ground (arith, s),
    record {
      laid_out = inl (record {
        unit = s.unit;
        valid = set_at-Sized b.page_count b.p_valid_bits p true s.valid r.page;
        erased = reset_at-Sized b.page_count b.p_erased_bits p s.erased r.page;
        lpns = length-set b.p_lpns p lpn ∙ s.lpns;
      });
      frame = record {
        idx = refl;
        page_count = refl;
        units = refl;
        next = refl;
        accessed = refl;
        erases = refl;
      };
      valid = λ q j rq.
          unfold valid_at in
          ground (arith, s, r, rq, Sized-set b.page_count b.p_valid_bits p q true s.valid r.page);
      erased = λ q j rq.
          unfold erased_at in
          ground (arith, s, r, rq, Sized-reset b.page_count b.p_erased_bits p q s.erased r.page);
      lpns = λ q j rq.
          unfold lpn_at in
          ground (arith, s, r, rq, get_or-set b.p_lpns p q lpn 0 (omega (arith, s, r)));
    },
  )
    where
      c : Block
      c = record b {
        p_erased_bits = Bitset.reset_at b.p_erased_bits p;
        p_valid_bits = Bitset.set_at b.p_valid_bits p true;
        p_lpns = set b.p_lpns p lpn;
      }

  program-Multi :
      Multi b → (lpn : ℕ) → (c : Block) × (program b p lpn i ≡ ok c) × Programmed b p i lpn c
  unfolding program program_unit
  program-Multi m lpn = (
    c,
    ground (arith, m, at_page b.erased_bits m.erased_pages, at_page b.valid_bits m.valid_pages),
    record {
      laid_out = inr (record {
        units = m.units;
        valid = All-set (Sized b.io_unit_in_page) b.valid_bits p _ m.valid v-Sized;
        erased = All-set (Sized b.io_unit_in_page) b.erased_bits p _ m.erased e-Sized;
        lpns =
            All-set (λ l. length l ≡ b.io_unit_in_page) b.pp_lpns p _ m.lpns
              (length-set row i lpn ∙ row-length);
        valid_pages = length-set b.valid_bits p _ ∙ m.valid_pages;
        erased_pages = length-set b.erased_bits p _ ∙ m.erased_pages;
        lpn_pages = length-set b.pp_lpns p _ ∙ m.lpn_pages;
      });
      frame = record {
        idx = refl;
        page_count = refl;
        units = refl;
        next = refl;
        accessed = refl;
        erases = refl;
      };
      valid = λ q j rq.
          unfold valid_at in
          ground (
            arith,
            m,
            test-page_set b.valid_bits _ q j true m.valid_pages (λ k.
                Sized-set b.io_unit_in_page (page_of b.valid_bits p) i k true old_valid r.unit),
          );
      erased = λ q j rq.
          unfold erased_at in
          ground (
            arith,
            m,
            test-page_set b.erased_bits _ q j false m.erased_pages (λ k.
                Sized-reset b.io_unit_in_page (page_of b.erased_bits p) i k old_erased r.unit),
          );
      lpns = λ q j rq.
          unfold lpn_at in
          ground (
            arith,
            m,
            r,
            get_or-set b.pp_lpns p q (set row i lpn) [] (omega (arith, m, r)),
            get_or-set row i j lpn 0 (omega (arith, row-length, r)),
          );
    },
  )
    where
      row : List ℕ
      row = get_or b.pp_lpns p []

      row-length : length row ≡ b.io_unit_in_page
      row-length =
          All-get_or (λ l. length l ≡ b.io_unit_in_page) b.pp_lpns p [] m.lpns (omega (arith, m, r))

      at_page : (bs : List Bitset) → length bs ≡ b.page_count → get_elem? bs p ≡ some (page_of bs p)
      at_page bs e = get_elem?-eq-get_or bs p Bitset.empty (omega (arith, r))

      old_valid : Sized b.io_unit_in_page (page_of b.valid_bits p)
      old_valid =
          All-get_or (Sized b.io_unit_in_page) b.valid_bits p Bitset.empty m.valid
            (omega (arith, m, r))

      old_erased : Sized b.io_unit_in_page (page_of b.erased_bits p)
      old_erased =
          All-get_or (Sized b.io_unit_in_page) b.erased_bits p Bitset.empty m.erased
            (omega (arith, m, r))

      v-Sized : Sized b.io_unit_in_page (Bitset.set_at (page_of b.valid_bits p) i true)
      v-Sized = set_at-Sized b.io_unit_in_page _ i true old_valid r.unit

      e-Sized : Sized b.io_unit_in_page (Bitset.reset_at (page_of b.erased_bits p) i)
      e-Sized = reset_at-Sized b.io_unit_in_page _ i old_erased r.unit

      c : Block
      c = record b {
        erased_bits = set b.erased_bits p (Bitset.reset_at (page_of b.erased_bits p) i);
        valid_bits = set b.valid_bits p (Bitset.set_at (page_of b.valid_bits p) i true);
        pp_lpns = set b.pp_lpns p (set row i lpn);
      }

-- `program` succeeds on every slot of the block.
pub program_lem :
    (b : Block) (p i lpn : ℕ)
    → IsLaidOut b
    → InRange b p i
    → (c : Block) × (program b p lpn i ≡ ok c) × Programmed b p i lpn c
program_lem b p i lpn (inl s) r = program-Single b p i r s lpn
program_lem b p i lpn (inr m) r = program-Multi b p i r m lpn
