-- ===== src/Ftl/TrimUnits.antt =====
-- The loop of `trimInternal` (ftl/page_mapping.cc) over the units of a page.
use testing.Common.{
  ℕ, zero, suc, ◌+◌, ◌≤◌, ◌<◌, ◌≡◌, ◌∙◌, refl, sym, ap, subst, inl, inr, Bool, true, List, none,
  some, ◌==◌, ==→eq, get_elem?, get_elem?-lt, arith, Bool-cases, Option-cases, ok, panic,
  block_not_in_use,
}
use testing.Common.Maps.{lookup, put}
use testing.Block.{Block}
use testing.Ftl.State.{Ftl, Mapping}
use testing.Ftl.Access.{trim_units}
use testing.Ftl.Invariant.{InUse, WellFormedBut}
use testing.Ftl.Drop.{dropped, reblock, mapping, invalidate_mapped}
use testing.Ftl.Clear.{Clear, new-Clear, old-Clear}

abbrev pub every : ℕ → Bool
every i = true

some_inj : {m n : Mapping} → some m ≡ some n → m ≡ n
some_inj e = cc

-- Units from `i` on that lead into the device.
abbrev pub InDevice : Ftl → List Mapping → ℕ → Type 0
InDevice s ms i =
    (j : ℕ) (m : Mapping)
    → i ≤ j
    → get_elem? ms j ≡ some m
    → (m.0 < s.total_physical_blocks) × (m.1 < s.pages_in_block)

pub trim_units_lem :
    (n : ℕ) (s : Ftl) (lpn i : ℕ) (ms : List Mapping)
    → i + n ≡ s.bitset_size
    → WellFormedBut lpn (dropped every i) s
    → lookup lpn s.table ≡ some ms
    → InDevice s ms i
    → (bs : List (ℕ × Block)) × (trim_units s ms n i ≡ ok (reblock s bs))
      × WellFormedBut lpn (dropped every s.bitset_size) (reblock s bs)
      × ((j : ℕ) (m : Mapping) → i ≤ j → get_elem? ms j ≡ some m → Clear bs m.0 m.1 j)
      × ((k p u : ℕ) → Clear s.blocks k p u → Clear bs k p u)
unfolding trim_units
trim_units_lem zero s lpn i ms e w at has = (
  s.blocks,
  refl,
  subst (λ x. WellFormedBut lpn (dropped every x) s) (omega arith) w,
  (λ j m le em. absurd (omega (arith, le, get_elem?-lt ms j em, (w.table lpn ms at).0))),
  λ k p u c. c,
)
trim_units_lem (suc n) s lpn i ms e w at has =
    let (m, em, d) = mapping s every lpn i ms (omega arith) w at in
    elim d [
      | inl u ↦ absurd (omega (arith, u, has i m (omega arith) em))
      | inr (x, y, h) ↦
          let (b, c, here, run, w', r, g) =
            invalidate_mapped s every lpn i ms (omega arith) w at m em refl x y h in
          let (bs, rest, w'', cleared, keep) =
            trim_units_lem n (reblock s (put m.0 c s.blocks)) lpn (suc i) ms (omega arith) w' at
              (λ j k le ek. has j k (omega arith) ek) in
          (
            bs,
            rw (em, here, run) rest,
            w'',
            (λ j n le en. elim (Bool-cases (i == j)) [
              | inl q ↦
                  let same : m ≡ n = some_inj (sym em ∙ ap (get_elem? ms) (==→eq i j q) ∙ en) in
                  subst (λ z. Clear bs (z.0) (z.1) j) same
                    (subst (Clear bs m.0 m.1) (==→eq i j q)
                      (keep m.0 m.1 i (new-Clear s.param s.blocks m.0 b c here m.1 i r g)))
              | inr q ↦ cleared j n (ground (arith, q, le)) en
            ]),
            λ k p u old. keep k p u (old-Clear s.param s.blocks m.0 b c here m.1 i r g k p u old),
          )
    ]

-- No block in use has the index that an unmapped unit has.
unmapped-lookup :
    (s : Ftl) → InUse s.param s.blocks → lookup s.total_physical_blocks s.blocks ≡ none
unmapped-lookup s u = elim (Option-cases (lookup s.total_physical_blocks s.blocks)) [
  | inl e ↦ e
  | inr (b, e) ↦
      absurd (omega (arith, (u s.total_physical_blocks b e).0, (u s.total_physical_blocks b e).1))
]

pub trim_units_unmapped :
    (n : ℕ) (s : Ftl) (lpn i j : ℕ) (ms : List Mapping) (k : Mapping)
    → i + n ≡ s.bitset_size
    → WellFormedBut lpn (dropped every i) s
    → lookup lpn s.table ≡ some ms
    → i ≤ j
    → get_elem? ms j ≡ some k
    → k.0 ≡ s.total_physical_blocks
    → trim_units s ms n i ≡ panic block_not_in_use
unfolding trim_units
trim_units_unmapped zero s lpn i j ms k e w at le ek out =
    absurd (omega (arith, get_elem?-lt ms j ek, (w.table lpn ms at).0))
trim_units_unmapped (suc n) s lpn i j ms k e w at le ek out =
    let (m, em, d) = mapping s every lpn i ms (omega arith) w at in
    elim d [
      | inl u ↦ rw (em, ap (λ x. lookup x s.blocks) u.0 ∙ unmapped-lookup s w.blocks)
      | inr (x, y, h) ↦
          let (b, c, here, run, w', _, _) =
            invalidate_mapped s every lpn i ms (omega arith) w at m em refl x y h in
          rw (em, here, run)
            (trim_units_unmapped n (reblock s (put m.0 c s.blocks)) lpn (suc i) j ms k (omega arith)
              w' at (later m em x) ek out)
    ]
  where
    later : (m : Mapping) → get_elem? ms i ≡ some m → m.0 < s.total_physical_blocks → suc i ≤ j
    later m em x = elim (Bool-cases (i == j)) [
      | inl q ↦
          let same : m ≡ k = some_inj (sym em ∙ ap (get_elem? ms) (==→eq i j q) ∙ ek) in
          absurd (omega (arith, ap (λ (x : Mapping). x.0) same))
      | inr q ↦ ground arith
    ]
