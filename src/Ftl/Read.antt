-- ===== src/Ftl/Read.antt =====
-- The loop of `readInternal` (ftl/page_mapping.cc).
use testing.Common.{
  ℕ, zero, suc, ◌+◌, ◌≤◌, ◌<◌, ◌≡◌, ◌∙◌, refl, sym, ap, ap₂, subst, ◌⊎◌, inl, inr, true, List, [],
  ◌∷◌, some, ◌==◌, get_elem?, get_elem?-eq-get_or, get_or, arith, Bool-cases, ok, max, lt→ltb,
}
use testing.Common.Maps.{lookup, put}
use testing.Block.{Block}
use testing.Block.Slots.{InRange}
use testing.Block.Invalidate.{read_lem}
use testing.Ftl.State.{Ftl, Devices, Mapping, Request, Command, issue, pal_read}
use testing.Ftl.Access.{selects, pal_flag, read_mapped, read_unit, read_units}
use testing.Ftl.Invariant.{Mapped, WellFormed, nothing_open}
use testing.Ftl.Place.{restore}
use testing.Ftl.Stored.{relog-WellFormedBut}
use testing.Ftl.Seen.{seen, seen-Same, put-WellFormed}

-- Command `c` is among those that were issued.
abbrev pub Sent : Command → List Command → Type 0
Sent c [] = ⊥
Sent c (x ∷ xs) = (x ≡ c) ⊎ Sent c xs

-- The read of unit `j` at mapping `m`.
abbrev pub unit_read : Ftl → Request → ℕ → Mapping → Command
unit_read s req j m =
    pal_read (record { block_index = m.0; page_index = m.1; io_flag = pal_flag s req.io_flag j })

-- What reading the units of `ms` from `i` up to `k` does: nothing but reads and their times.
pub record Served (s : Ftl) (req : Request) (ms : List Mapping) (i k : ℕ) (bs : List (ℕ × Block))
    (log : List Command) : Type 0 where
  pub well_formed : WellFormed (restore s bs s.table log)
  pub old : (c : Command) → Sent c s.issued → Sent c log
  pub sent :
      (j : ℕ) (m : Mapping)
      → i ≤ j
      → j < k
      → selects s req.io_flag j ≡ true
      → get_elem? ms j ≡ some m
      → m.0 < s.total_physical_blocks
      → m.1 < s.pages_in_block
      → Sent (unit_read s req j m) log

some_inj : {m n : Mapping} → some m ≡ some n → m ≡ n
some_inj e = cc

module _ (d : Devices) (s : Ftl) (req : Request) (ms : List Mapping) (i tick finished : ℕ)
    (w : WellFormed s) (at : lookup req.lpn s.table ≡ some ms) (lt : i < s.bitset_size) where
  mapping : (m : Mapping) × (get_elem? ms i ≡ some m) × Mapped s.param s.blocks req.lpn i m
  mapping =
      let (len, each) = w.table req.lpn ms at in
      let e = get_elem?-eq-get_or ms i (0, 0) (omega (arith, len)) in
      (get_or ms i (0, 0), e, each i _ e (ground arith))

  abbrev Outcome : Type 0
  Outcome =
      (t : ℕ) × (bs : List (ℕ × Block)) × (log : List Command) × (read_unit d s req ms i tick
          finished
        ≡ ok (t, restore s bs s.table log))
      × Served s req ms i (suc i) bs log

  -- A unit that is not read.
  unread :
      ((m : Mapping)
        → selects s req.io_flag i ≡ true
        → get_elem? ms i ≡ some m
        → m.0 < s.total_physical_blocks
        → Sent (unit_read s req i m) s.issued)
      → Served s req ms i (suc i) s.blocks s.issued
  unread none_here = record {
    well_formed = relog-WellFormedBut s 0 nothing_open s.issued w;
    old = λ c h. h;
    sent = λ j m le below sel e x y. at_unit j (omega arith) m sel e x;
  }
    where
      at_unit :
          (j : ℕ)
          → i ≡ j
          → (m : Mapping) → selects s req.io_flag j ≡ true
          → get_elem? ms j ≡ some m
          → m.0 < s.total_physical_blocks
          → Sent (unit_read s req j m) s.issued
      at_unit j q m sel e x =
          subst (λ z. Sent (unit_read s req z m) s.issued) q
            (none_here m (ap (selects s req.io_flag) q ∙ sel) (ap (get_elem? ms) q ∙ e) x)

  read_unit_lem : Outcome
  unfolding read_unit read_mapped issue
  read_unit_lem = elim (Bool-cases (selects s req.io_flag i)) [
    | inr off ↦ (finished, s.blocks, s.issued, rw off, unread (λ m sel e x. cc))
    | inl sel ↦
        let (m, em, h) = mapping in
        elim h [
          | inl u ↦ (
            finished,
            s.blocks,
            s.issued,
            rw (sel, em) (ground (arith, u)),
            unread (λ n _ e x.
                absurd (omega (arith, u, ap (λ (z : Mapping). z.0) (some_inj (sym em ∙ e))))),
          )
          | inr (x, y, (b, here, v, mine)) ↦
              let f = (w.blocks m.0 b here).0 in
              let r : InRange b m.1 i = record {
                page = omega (arith, f, y);
                unit = omega (arith, f, w.shape, lt);
              } in
              let bs = put m.0 (seen b m.1 i tick) s.blocks in
              let log = unit_read s req i m ∷ s.issued in
              (
                max finished (d.finish s.issued (unit_read s req i m) tick),
                bs,
                log,
                rw (sel, em, lt→ltb _ _ x, lt→ltb _ _ y, here, read_lem b m.1 i r tick f.sound),
                served m em b here log refl,
              )
        ]
  ]
    where
      served :
          (m : Mapping)
          → get_elem? ms i ≡ some m
          → (b : Block) → lookup m.0 s.blocks ≡ some b
          → (log : List Command) → log ≡ (unit_read s req i m ∷ s.issued)
          → Served s req ms i (suc i) (put m.0 (seen b m.1 i tick) s.blocks) log
      served m em b here log is = record {
        well_formed =
            put-WellFormed s m.0 b (seen b m.1 i tick) log w here
              (seen-Same s.param b m.1 i tick (w.blocks m.0 b here).0);
        old = λ c h. subst (Sent c) (sym is) (inr h);
        sent = λ j n le below _ e _ _. subst (Sent (unit_read s req j n)) (sym is) (
            inl (
              ap₂ (unit_read s req) (omega (arith))
                (some_inj (sym em ∙ ap (get_elem? ms) (omega (arith)) ∙ e))));
      }

pub read_units_lem :
    (d : Devices) (n : ℕ) (s : Ftl) (req : Request) (ms : List Mapping) (i tick finished : ℕ)
    → WellFormed s
    → lookup req.lpn s.table ≡ some ms
    → i + n ≡ s.bitset_size
    → (t : ℕ) × (bs : List (ℕ × Block)) × (log : List Command) × (read_units d s req ms n i tick
          finished
        ≡ ok (t, restore s bs s.table log))
      × Served s req ms i s.bitset_size bs log
unfolding read_units
read_units_lem d zero s req ms i tick finished w at e = (
  finished,
  s.blocks,
  s.issued,
  refl,
  record {
    well_formed = relog-WellFormedBut s 0 nothing_open s.issued w;
    old = λ c h. h;
    sent = λ j m le below. absurd (omega arith);
  },
)
read_units_lem d (suc n) s req ms i tick finished w at e =
    let (t, bs, log, run, a) = read_unit_lem d s req ms i tick finished w at (omega arith) in
    let (u, cs, log', rest, b) =
      read_units_lem d n (restore s bs s.table log) req ms (suc i) tick t a.well_formed at
        (omega arith) in
    (
      u,
      cs,
      log',
      rw run rest,
      record {
        well_formed = b.well_formed;
        old = λ c h. b.old c (a.old c h);
        sent = λ j m le below sel em x y. elim (Bool-cases (i == j)) [
          | inl q ↦ b.old _ (a.sent j m le (ground arith) sel em x y)
          | inr q ↦ b.sent j m (ground arith) below sel em x y
        ];
      },
    )
