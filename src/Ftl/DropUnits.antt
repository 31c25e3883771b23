-- ===== src/Ftl/DropUnits.antt =====
-- The loop of `writeInternal` (ftl/page_mapping.cc) that invalidates the pages that held the data before.
use testing.Common.{
  ℕ, zero, suc, ◌+◌, ◌<◌, ◌≡◌, ◌≢◌, ◌≤◌, ◌∙◌, refl, sym, ap, subst, ==→eq, inl, inr, true, false,
  List, some, ◌==◌, get_elem?, get_elem?-lt, arith, Bool-cases, lt→ltb, ok,
}
use mathlib.Core.Option.{some-injective}
use testing.Common.Maps.{lookup, put}
use testing.Bitset.{Bitset}
use testing.Block.{Block}
use testing.Ftl.State.{Ftl, Mapping}
use testing.Ftl.Access.{selects}
use testing.Ftl.Write.{drop_unit, drop_units}
use testing.Ftl.Invariant.{Mapped, WellFormedBut}
use testing.Ftl.Drop.{dropped, reblock, open_more, mapping, invalidate_mapped}
use testing.Ftl.Clear.{Clear, new-Clear, old-Clear}

-- No slot that was clear holds valid data in the new blocks.
abbrev pub StaysClear : List (ℕ × Block) → List (ℕ × Block) → Type 0
StaysClear bs cs = (k p u : ℕ) → Clear bs k p u → Clear cs k p u

-- The slot that unit `j` leads to, if it leads into the device and the request selects it.
abbrev pub IsCleared : Ftl → Bitset → List Mapping → List (ℕ × Block) → ℕ → Type 0
IsCleared s flag ms bs j =
    (m : Mapping)
    → get_elem? ms j ≡ some m
    → selects s flag j ≡ true
    → m.0 < s.total_physical_blocks
    → m.1 < s.pages_in_block
    → Clear bs m.0 m.1 j

module _ (s : Ftl) (flag : Bitset) (lpn i : ℕ) (ms : List Mapping) (i_in : i < s.bitset_size)
    (w : WellFormedBut lpn (dropped (selects s flag) i) s) (at : lookup lpn s.table ≡ some ms) where
  drop_selected :
      selects s flag i ≡ true
      → (bs : List (ℕ × Block)) × (drop_unit s flag ms i ≡ ok (reblock s bs))
        × WellFormedBut lpn (dropped (selects s flag) (suc i)) (reblock s bs)
        × IsCleared s flag ms bs i
        × StaysClear s.blocks bs
  unfolding drop_unit
  drop_selected sel = by_mapping (mapping s (selects s flag) lpn i ms i_in w at)
    where
      by_mapping :
          (m : Mapping) × (get_elem? ms i ≡ some m) × Mapped s.param s.blocks lpn i m
          → (bs : List (ℕ × Block)) × (drop_unit s flag ms i ≡ ok (reblock s bs))
            × WellFormedBut lpn (dropped (selects s flag) (suc i)) (reblock s bs)
            × IsCleared s flag ms bs i
            × StaysClear s.blocks bs
      by_mapping (m, e, inl u) = (
        s.blocks,
        rw (sel, e) (ground (arith, u)),
        open_more s lpn _ _ (λ j _ q. ground (arith, q)) w,
        λ n en _ x _.
            absurd
              (omega (arith, u.0, x, ap (λ (z : Mapping). z.0) (some-injective _ _ (sym e ∙ en)))),
        λ k p v c. c,
      )
      by_mapping (m, e, inr (x, y, h)) =
          let (b, c, here, run, w', r, g) =
            invalidate_mapped s (selects s flag) lpn i ms i_in w at m e sel x y h in
          (
            put m.0 c s.blocks,
            rw (sel, e) (ground (arith, here, run, lt→ltb _ _ x, lt→ltb _ _ y)),
            w',
            λ n en _ _ _.
                subst (λ (z : Mapping). Clear (put m.0 c s.blocks) (z.0) (z.1) i)
                  (some-injective _ _ (sym e ∙ en))
                  (new-Clear s.param s.blocks m.0 b c here m.1 i r g),
            old-Clear s.param s.blocks m.0 b c here m.1 i r g,
          )

  drop_unit_lem :
      (bs : List (ℕ × Block)) × (drop_unit s flag ms i ≡ ok (reblock s bs))
      × WellFormedBut lpn (dropped (selects s flag) (suc i)) (reblock s bs)
      × IsCleared s flag ms bs i
      × StaysClear s.blocks bs
  drop_unit_lem = elim (Bool-cases (selects s flag i)) [
    | inl sel ↦ drop_selected sel
    | inr e ↦ (
      s.blocks,
      skipped e,
      open_more s lpn _ _ (λ j _ q. ground (arith, q)) w,
      λ m em sel x y. absurd (differ (sym sel ∙ e)),
      λ k p u c. c,
    )
  ]
    where
      skipped : selects s flag i ≡ false → drop_unit s flag ms i ≡ ok s
      skipped e = unfold drop_unit in rw e

      differ : true ≢ false
      differ e = cc

-- The loop from unit `i` on.
pub drop_units_lem :
    (n : ℕ) (s : Ftl) (flag : Bitset) (lpn i : ℕ) (ms : List Mapping)
    → i + n ≡ s.bitset_size
    → WellFormedBut lpn (dropped (selects s flag) i) s
    → lookup lpn s.table ≡ some ms
    → (bs : List (ℕ × Block)) × (drop_units s flag ms n i ≡ ok (reblock s bs))
      × WellFormedBut lpn (selects s flag) (reblock s bs)
      × ((j : ℕ) → i ≤ j → IsCleared s flag ms bs j)
      × StaysClear s.blocks bs
unfolding drop_units
drop_units_lem zero s flag lpn i ms e w at = (
  s.blocks,
  refl,
  open_more s lpn _ _ (λ j lt q. ground (arith, q)) w,
  λ j le m em. absurd (omega (arith, le, get_elem?-lt ms j em, (w.table lpn ms at).0)),
  λ k p u c. c,
)
drop_units_lem (suc n) s flag lpn i ms e w at =
    let (bs, run, w', here, keep) = drop_unit_lem s flag lpn i ms (omega arith) w at in
    let (cs, rest, w'', later, keep') =
      drop_units_lem n (reblock s bs) flag lpn (suc i) ms (omega arith) w' at in
    (
      cs,
      rw run rest,
      w'',
      λ j le. elim (Bool-cases (i == j)) [
        | inl q ↦
            subst (IsCleared s flag ms cs) (==→eq i j q)
              (λ m em sel x y. keep' m.0 m.1 i (here m em sel x y))
        | inr q ↦ later j (ground (arith, q, le))
      ],
      λ k p u c. keep' k p u (keep k p u c),
    )
