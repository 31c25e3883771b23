-- ===== src/Ftl/Fill.antt =====
-- The writes of `initialize` (ftl/page_mapping.cc): every page that is filled ends up stored.
use testing.Common.{
  ℕ, ◌+◌, ◌^◌, ◌≤◌, ◌<◌, ◌≡◌, ◌∙◌, refl, sym, subst, inl, inr, true, false, List, [], ◌∷◌, ◌==◌,
  ==→eq, length, All, arith, Bool-cases, ok,
}
use testing.Bitset
use testing.Bitset.{Bitset}
use testing.Bitset.Valid
use testing.Bitset.Whole.{test-set_all, set_all-IsValid}
use testing.Block.Slots.{Sized}
use testing.Ftl.State.{Ftl, Devices, Param, Request}
use testing.Ftl.Access.{selects}
use testing.Ftl.Write.{write_internal, collect_if_needed}
use testing.Ftl.Start.{fill}
use testing.Ftl.Invariant.{Mapped, Holds, WellFormed}
use testing.Ftl.Stored.{Stored, Wrote, write_pages_lem}

-- The I/O flag of a request for a whole page.
abbrev full_flag : Ftl → Bitset
full_flag s = Bitset.set_all (Bitset.of_size s.io_unit_in_page)

full_flag-Sized : (s : Ftl) → s.io_unit_in_page < 2 ^ 32 → Sized s.io_unit_in_page (full_flag s)
unfolding Bitset.set_all Bitset.of_size
full_flag-Sized s h = record {
  sound =
      set_all-IsValid (Bitset.of_size s.io_unit_in_page)
        (Valid.of_size-IsValid s.io_unit_in_page h).shape;
  size = ground arith;
}

full_flag-selects :
    (s : Ftl) (i : ℕ)
    → s.io_unit_in_page < 2 ^ 32
    → i < s.io_unit_in_page
    → selects s (full_flag s) i ≡ true
full_flag-selects s i h lt =
    let z = full_flag-Sized s h in
    ground (
      arith,
      test-set_all (Bitset.of_size s.io_unit_in_page)
          (Valid.of_size-IsValid s.io_unit_in_page h).shape i,
      of_size-size s,
    )
  where
    of_size-size : (s : Ftl) → (Bitset.of_size s.io_unit_in_page).data_size ≡ s.io_unit_in_page
    of_size-size s = unfold Bitset.of_size in ground arith

-- A write leaves stored what is stored of the other pages.
Stored-others :
    (s t : Ftl) (req : Request) (l i : ℕ)
    → Wrote s req t
    → (l == req.lpn) ≡ false
    → Stored s l i
    → Stored t l i
Stored-others s t req l i w other (ms, m, at, em, x, y, _) =
    let at' = w.others l other ∙ at in
    let x' = subst (λ (p : Param). m.0 < p.total_physical_blocks) (sym w.param) x in
    let (_, each) = w.well_formed.table l ms at' in
    (
      ms,
      m,
      at',
      em,
      x',
      subst (λ (p : Param). m.1 < p.pages_in_block) (sym w.param) y,
      held x' (each i m em (ground arith)),
    )
  where
    held :
        m.0 < t.total_physical_blocks → Mapped t.param t.blocks l i m → Holds t.blocks m.0 m.1 i l
    held x (inl u) = absurd (omega (arith, u))
    held x (inr (_, _, h)) = h

-- All of page `l` is stored.
abbrev pub Whole : Ftl → ℕ → Type 0
Whole s l = (i : ℕ) → i < s.bitset_size → Stored s l i

module _ (d : Devices) (s : Ftl) (lpn : ℕ) (floor : ℕ) (w : WellFormed s)
    (few : s.io_unit_in_page < 2 ^ 32) (calm : (n : ℕ) → floor ≤ n → d.below_threshold n ≡ false)
    (left : floor < s.n_free_blocks) where
  abbrev page_request : Request
  page_request = record { lpn = lpn; io_flag = full_flag s }

  -- With enough free blocks no collection is due.
  write_page_lem :
      (t : ℕ × Ftl) × (write_internal d s page_request 0 false ≡ ok t)
      × Wrote s page_request t.1
      × Whole t.1 lpn
  unfolding write_internal collect_if_needed
  write_page_lem =
      let (r, run, wrote) =
        write_pages_lem d s page_request 0 false w (full_flag-Sized s few) (omega arith) in
      (
        r,
        rw (run, calm r.1.n_free_blocks (omega (arith, wrote.spent))),
        wrote,
        λ i lt.
            let lt' : i < s.bitset_size = omega (arith, wrote.size) in
            wrote.stored i lt' (full_flag-selects s i few (omega (arith, w.shape))),
      )

  write_page-Whole :
      (t : Ftl) → Wrote s page_request t → Whole t lpn → (l : ℕ) → Whole s l → Whole t l
  write_page-Whole t wrote new l old i lt = elim (Bool-cases (l == lpn)) [
    | inl q ↦ subst (λ x. Stored t x i) (sym (==→eq l lpn q)) (new i lt)
    | inr q ↦ Stored-others s t page_request l i wrote q (old i (omega (arith, wrote.size)))
  ]

-- On a well-formed state, while no collection is due at `floor` free blocks or more, and with a
-- free block above that for each page to fill, all writes of the initial filling succeed. Each
-- filled page is stored as a whole afterwards, so is each page that was before, and the state is
-- well-formed.
pub fill_lem :
    (d : Devices) (lpns : List ℕ) (s : Ftl) (floor : ℕ)
    → WellFormed s
    → s.io_unit_in_page < 2 ^ 32
    → ((n : ℕ) → floor ≤ n → d.below_threshold n ≡ false)
    → floor + length lpns ≤ s.n_free_blocks
    → (t : Ftl) × (fill d s lpns ≡ ok t)
      × WellFormed t
      × All (Whole t) lpns
      × ((l : ℕ) → Whole s l → Whole t l)
unfolding fill
fill_lem d [] s floor w few calm left = (s, refl, w, tt, λ l h. h)
fill_lem d (lpn ∷ lpns) s floor w few calm left =
    let (r, run, wrote, new) = write_page_lem d s lpn floor w few calm (omega arith) in
    let few' = subst (λ (p : Param). p.io_unit_in_page < 2 ^ 32) (sym wrote.param) few in
    let (t, rest, w', all, keep) =
      fill_lem d lpns r.1 floor wrote.well_formed few' calm (omega (arith, wrote.spent)) in
    (
      t,
      rw run rest,
      w',
      (keep lpn new, all),
      λ l h. keep l (write_page-Whole d s lpn floor w few calm (omega arith) r.1 wrote new l h),
    )
