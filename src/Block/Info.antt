-- ===== src/Block/Info.antt =====
-- `getPageInfo` of ftl/common/block.cc in its two modes.
use testing.Common.{
  ℕ, ◌<◌, ◌≡◌, ◌≢◌, ◌∙◌, refl, sym, ap, subst, Bool, true, not, ◌||◌, List, Result, panic,
  io_map_mismatch, inl, inr, ℕ_discrete, [], ◌∷◌, arith, ◌==◌, get_or, get_elem?-eq-get_or,
  All-get_or, ok,
}
use testing.Bitset
use testing.Bitset.{Bitset}
use testing.Bitset.Valid
use testing.Bitset.Count.{count_below, any-count}
use testing.Bitset.Whole.{test-set_all, set_all-IsValid}
use testing.Block.{Block, get_page_info}
use testing.Block.Slots.{valid_at, lpn_at, page_of, Sized, Single, Multi, IsLaidOut}
use testing.Block.Counts.{count-Sized, count_one}

set_all-any : (m : Bitset) → Sized 1 m → Bitset.any (Bitset.set_all m) ≡ true
set_all-any m s =
    let full = set_all-IsValid m s.sound.shape in
    let one =
      count-Sized 1 (Bitset.set_all m) (λ _. true)
        (record { sound = full; size = unfold Bitset.set_all in s.size })
        (λ j hj. test-set_all m s.sound.shape j ∙ ground (arith, s)) in
    ground (arith, any-count (Bitset.set_all m) full, one, count_one (λ _. true))

-- On a block of one unit per page the whole map is set.
get_page_info-Single :
    (b : Block) (p : ℕ) (m : Bitset)
    → Single b
    → Sized 1 m
    → get_page_info b p m ≡ ok (true, lpn_at b p 0 ∷ [], Bitset.set_all m)
unfolding get_page_info lpn_at
get_page_info-Single b p m s h = ground (arith, s, h, set_all-any m h)

-- On a block of several units it is that of the page.
get_page_info-Multi :
    (b : Block) (p : ℕ) (m : Bitset)
    → Multi b
    → p < b.page_count
    → Bitset.size m ≡ b.io_unit_in_page
    → get_page_info b p m
      ≡ ok (Bitset.any (page_of b.valid_bits p), get_or b.pp_lpns p [], page_of b.valid_bits p)
unfolding get_page_info
get_page_info-Multi b p m t h size =
    ground (arith, t, get_elem?-eq-get_or b.valid_bits p Bitset.empty (omega (arith, t)))

-- The result of `getPageInfo`: whether the map has a bit, the logical page of each unit, and the map. A
-- block of several units gives the valid units of the page; a block of one unit gives its unit as valid
-- whether or not it is. A map of another size is a panic.
pub data Informs (b : Block) (p : ℕ) (m : Bitset) : Result (Bool × List ℕ × Bitset) → Type 0 where
  informs :
      (has : Bool) (lpns : List ℕ) (v : Bitset)
      → Bitset.size m ≡ b.io_unit_in_page
      → Sized b.io_unit_in_page v
      → has ≡ not (count_below b.io_unit_in_page (Bitset.test v) == 0)
      → ((j : ℕ) → j < b.io_unit_in_page → get_or lpns j 0 ≡ lpn_at b p j)
      → ((j : ℕ)
          → j < b.io_unit_in_page
          → Bitset.test v j ≡ (b.io_unit_in_page == 1 || valid_at b p j))
      → Informs b p m (ok (has, lpns, v))
  mismatched : Bitset.size m ≢ b.io_unit_in_page → Informs b p m (panic io_map_mismatch)

module _ (b : Block) (p : ℕ) (m : Bitset) where
  wrong_size : Bitset.size m ≢ b.io_unit_in_page → get_page_info b p m ≡ panic io_map_mismatch
  unfolding get_page_info
  wrong_size ne = ground (arith, ne)

  Single-Informs :
      Single b
      → Valid.IsValid m
      → Bitset.size m ≡ b.io_unit_in_page
      → Informs b p m (ok (true, lpn_at b p 0 ∷ [], Bitset.set_all m))
  Single-Informs s sound size =
      let sized : Sized 1 m = record { sound = sound; size = size ∙ s.unit } in
      let full = set_all-IsValid m sound.shape in
      let whole : Sized b.io_unit_in_page (Bitset.set_all m) = record {
        sound = full;
        size = (unfold Bitset.set_all in size);
      } in
      informs true (lpn_at b p 0 ∷ []) (Bitset.set_all m) size whole
        (sym (set_all-any m sized)
          ∙ any-count (Bitset.set_all m) full
          ∙ ap (λ n. not (n == 0))
              (count-Sized b.io_unit_in_page (Bitset.set_all m) (Bitset.test (Bitset.set_all m))
                whole (λ j lt. refl)))
        (λ j lt. let z : j ≡ 0 = omega (arith, s.unit, lt) in rw z refl)
        (λ j lt. test-set_all m sound.shape j ∙ ground (arith, s, lt, size))

  Multi-Informs :
      Multi b
      → p < b.page_count
      → Bitset.size m ≡ b.io_unit_in_page
      → Informs b p m
          (ok (Bitset.any (page_of b.valid_bits p), get_or b.pp_lpns p [], page_of b.valid_bits p))
  unfolding valid_at lpn_at
  Multi-Informs t h size =
      let v = page_of b.valid_bits p in
      let sv =
        All-get_or (Sized b.io_unit_in_page) b.valid_bits p Bitset.empty t.valid
          (omega (arith, t)) in
      informs (Bitset.any v) (get_or b.pp_lpns p []) v size sv
        (any-count v sv.sound
          ∙ ap (λ n. not (n == 0))
              (count-Sized b.io_unit_in_page v (Bitset.test v) sv (λ j lt. refl)))
        (λ j lt. ground (arith, t)) (λ j lt. ground (arith, t))

-- For a page of a laid-out block and a valid map, `getPageInfo` panics exactly if the map has not
-- one bit per unit. Otherwise it gives the logical page of each unit, a map of one bit per unit,
-- and whether that map has a bit set; a bit is set if its unit is valid, and on a block of one
-- unit per page it is set whether or not the page is valid.
pub get_page_info_lem :
    (b : Block) (p : ℕ) (m : Bitset)
    → IsLaidOut b
    → p < b.page_count
    → Valid.IsValid m
    → Informs b p m (get_page_info b p m)
get_page_info_lem b p m laid h sound = elim (ℕ_discrete (Bitset.size m) b.io_unit_in_page) [
  | no ne ↦ subst (Informs b p m) (sym (wrong_size b p m ne)) (mismatched ne)
  | yes e ↦ elim laid [
    | inl s ↦
        subst (Informs b p m)
          (sym (get_page_info-Single b p m s (record { sound = sound; size = e ∙ s.unit })))
          (Single-Informs b p m s sound e)
    | inr t ↦
        subst (Informs b p m) (sym (get_page_info-Multi b p m t h e)) (Multi-Informs b p m t h e)
  ]
]
