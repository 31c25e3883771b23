-- ===== src/Block/Counts.antt =====
-- The counts of ftl/common/block.cc against the slots of a block.
use native.Mathlib.Nat.{zero-add}
use testing.Common.{
  ℕ, zero, suc, ◌+◌, ◌<◌, ◌≡◌, ◌∙◌, ap, ap₂, sym, subst, inl, inr, refl, Bool, List, [], ◌∷◌, arith,
  ◌==◌, if◌then◌else◌, length, All,
}
use testing.Bitset
use testing.Bitset.{Bitset}
use testing.Bitset.Count.{count_below, count_below-cong, count_below-split, count_lem, any-count}
use testing.Block.{Block, get_valid_page_count, get_valid_page_count_raw, count_any, sum_count}
use testing.Block.Slots.{valid_at, page_of, Sized, Single, Multi, IsLaidOut}

-- How many slots of the `k` pages from page `p` on satisfy `f`, and how many of those pages have
-- such a slot; `n` is the number of units in a page.
pub slots_from : ℕ → ℕ → ℕ → (ℕ → ℕ → Bool) → ℕ
slots_from n p zero f = 0
slots_from n p (suc k) f = count_below n (f p) + slots_from n (suc p) k f

unfoldable pub pages_from : ℕ → ℕ → ℕ → (ℕ → ℕ → Bool) → ℕ
pages_from n p zero f = 0
pages_from n p (suc k) f = (if count_below n (f p) == 0 then 0 else 1) + pages_from n (suc p) k f

pub count-Sized :
    (n : ℕ) (v : Bitset) (f : ℕ → Bool)
    → Sized n v
    → ((j : ℕ) → j < n → Bitset.test v j ≡ f j)
    → Bitset.count v ≡ count_below n f
count-Sized n v f s h =
    count_lem v s.sound
    ∙ ap (λ k. count_below k (Bitset.test v)) s.size
    ∙ count_below-cong n (Bitset.test v) f h

-- The bitsets of the pages `p`, `p + 1`, … agree with `f`.
abbrev Agree : ℕ → List Bitset → ℕ → (ℕ → ℕ → Bool) → Type 0
Agree n [] p f = Unit
Agree n (v ∷ vs) p f = ((j : ℕ) → j < n → Bitset.test v j ≡ f p j) × Agree n vs (suc p) f

sum_count-slots_from :
    (n : ℕ) (vs : List Bitset) (p : ℕ) (f : ℕ → ℕ → Bool)
    → All (Sized n) vs
    → Agree n vs p f
    → sum_count vs ≡ slots_from n p (length vs) f
unfolding sum_count slots_from
sum_count-slots_from n [] p f s h = refl
sum_count-slots_from n (v ∷ vs) p f s h =
    omega (arith, count-Sized n v (f p) s.0 h.0, sum_count-slots_from n vs (suc p) f s.1 h.1)

count_any-pages_from :
    (n : ℕ) (vs : List Bitset) (p : ℕ) (f : ℕ → ℕ → Bool)
    → All (Sized n) vs
    → Agree n vs p f
    → count_any vs ≡ pages_from n p (length vs) f
unfolding count_any pages_from
count_any-pages_from n [] p f s h = refl
count_any-pages_from n (v ∷ vs) p f s h = ground (
  arith,
  any-count v s.0.sound,
  count-Sized n v (f p) s.0 h.0,
  count_any-pages_from n vs (suc p) f s.1 h.1,
)

Agree-of :
    (n : ℕ) (vs : List Bitset) (p : ℕ) (f : ℕ → ℕ → Bool)
    → ((q j : ℕ) → q < length vs → j < n → Bitset.test (page_of vs q) j ≡ f (p + q) j)
    → Agree n vs p f
Agree-of n [] p f h = tt
Agree-of n (v ∷ vs) p f h = (
  λ j hj. ground (arith, h 0 j (omega arith) hj),
  Agree-of n vs (suc p) f (λ q j hq hj.
      let e : p + suc q ≡ suc p + q = omega arith in
      subst (λ t. Bitset.test (page_of vs q) j ≡ f t j) e (h (suc q) j (omega arith) hj)),
)

-- A page of one unit has a slot exactly if that unit is one.
pub count_one : (g : ℕ → Bool) → count_below 1 g ≡ (if g 0 then 1 else 0)
unfolding count_below
count_one g = refl

first_unit :
    (k p : ℕ) (f : ℕ → ℕ → Bool)
    → count_below (suc k) (λ q. f (p + q) 0)
      ≡ count_below 1 (f p) + count_below k (λ q. f (suc p + q) 0)
first_unit k p f =
    count_below-split k 1 (suc k) (λ q. f (p + q) 0) (omega arith) ∙ ap₂ ◌+◌ head rest
  where
    head : count_below 1 (λ q. f (p + q) 0) ≡ count_below 1 (f p)
    head = count_one _ ∙ ap (λ t. if f t 0 then 1 else 0) (omega arith) ∙ sym (count_one (f p))

    rest : count_below k (λ q. f (p + (1 + q)) 0) ≡ count_below k (λ q. f (suc p + q) 0)
    rest = count_below-cong k _ _ (λ q _. ap (λ t. f t 0) (omega arith))

pub one_unit :
    (k p : ℕ) (f : ℕ → ℕ → Bool)
    → (count_below k (λ q. f (p + q) 0) ≡ slots_from 1 p k f)
      × (count_below k (λ q. f (p + q) 0) ≡ pages_from 1 p k f)
unfolding slots_from pages_from
one_unit zero p f = (none_counted (λ q. f (p + q) 0), none_counted (λ q. f (p + q) 0))
  where
    none_counted : (g : ℕ → Bool) → count_below 0 g ≡ 0
    none_counted g = unfold count_below in refl
one_unit (suc k) p f =
    let ih = one_unit k (suc p) f in
    let step = first_unit k p f in
    (omega (arith, step, ih), step ∙ ground (arith, ih, count_one (f p)))

module _ (b : Block) where
  abbrev pages : ℕ
  pages = b.page_count

  abbrev units : ℕ
  units = b.io_unit_in_page

  valid-Single :
      Single b → Bitset.count b.p_valid_bits ≡ count_below pages (λ q. valid_at b (0 + q) 0)
  unfolding valid_at
  valid-Single s =
      count-Sized pages b.p_valid_bits (λ q. valid_at b (0 + q) 0) s.valid
        (λ q hq. ground (arith, s, zero-add q))

  valid-Multi : Multi b → Agree units b.valid_bits 0 (valid_at b)
  unfolding valid_at
  valid-Multi m =
      Agree-of units b.valid_bits 0 (valid_at b) (λ q j hq hj. ground (arith, m, zero-add q))

  -- On a block that is laid out for its mode, `getValidPageCountRaw` is the number of valid slots.
  pub valid_page_count_raw_lem :
      IsLaidOut b → get_valid_page_count_raw b ≡ slots_from units 0 pages (valid_at b)
  unfolding get_valid_page_count_raw
  valid_page_count_raw_lem (inl s) =
      ground (arith, s, valid-Single s, one_unit pages 0 (valid_at b))
  valid_page_count_raw_lem (inr m) =
      ground
        (arith, m, sum_count-slots_from units b.valid_bits 0 (valid_at b) m.valid (valid-Multi m))

  -- On a block that is laid out for its mode, `getValidPageCount` is the number of pages with a
  -- valid slot.
  pub valid_page_count_lem :
      IsLaidOut b → get_valid_page_count b ≡ pages_from units 0 pages (valid_at b)
  unfolding get_valid_page_count
  valid_page_count_lem (inl s) = ground (arith, s, valid-Single s, one_unit pages 0 (valid_at b))
  valid_page_count_lem (inr m) =
      ground
        (arith, m, count_any-pages_from units b.valid_bits 0 (valid_at b) m.valid (valid-Multi m))
