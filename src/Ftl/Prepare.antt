-- ===== src/Ftl/Prepare.antt =====
-- The first step of `writeInternal` (ftl/page_mapping.cc) as a whole.
use testing.Common.{
  ℕ, ◌≡◌, ◌∙◌, refl, sym, ap, inl, inr, Bool, false, List, none, some, ◌==◌, ==-refl, length,
  length-replicate, replicate, get_elem?, get_elem?-lt, get_elem?-replicate, arith, Bool-cases,
  Option-cases, ok,
}
use testing.Common.Maps.{lookup, insert, lookup-insert}
use testing.Ftl.State.{Ftl, Mapping, Request}
use testing.Ftl.Access.{selects, unmapped}
use testing.Ftl.Write.{prepare}
use testing.Ftl.Invariant.{TableBut, WellFormedBut, WellFormed}
use testing.Ftl.Drop.{dropped, reblock}
use testing.Ftl.DropUnits.{IsCleared, StaysClear, drop_units_lem}

-- What a step of a write of `lpn` leaves alone.
pub record Frame (lpn : ℕ) (s t : Ftl) : Type 0 where
  pub param : t.param ≡ s.param
  pub bitset_size : t.bitset_size ≡ s.bitset_size
  pub random_tweak : t.random_tweak ≡ s.random_tweak
  pub others : (l : ℕ) → (l == lpn) ≡ false → lookup l t.table ≡ lookup l s.table

-- The whole invariant is the invariant but for any units of any page.
pub WellFormed-but : (s : Ftl) (lpn : ℕ) (f : ℕ → Bool) → WellFormed s → WellFormedBut lpn f s
WellFormed-but s lpn f w = record {
  shape = w.shape;
  blocks = w.blocks;
  pool = w.pool;
  counted = w.counted;
  opened = w.opened;
  table =
      λ l ms e. let (len, each) = w.table l ms e in (len, λ i m em _. each i m em (ground arith));
}

-- An empty mapping for a page that has none.
unfoldable pub fresh_mapping : Ftl → ℕ → Ftl
fresh_mapping s lpn = record s { table = insert lpn (replicate s.bitset_size (unmapped s)) s.table }

replicate_elem : (n i : ℕ) (m x : Mapping) → get_elem? (replicate n x) i ≡ some m → m ≡ x
replicate_elem n i m x e = some_inj (
    sym e
    ∙ get_elem?-replicate n x i
        (omega (arith, get_elem?-lt (replicate n x) i e, length-replicate n x)))
  where
    some_inj : some m ≡ some x → m ≡ x
    some_inj q = cc

module _ (s : Ftl) (lpn : ℕ) (f : ℕ → Bool) (w : WellFormed s)
    (new : lookup lpn s.table ≡ none) where
  fresh_table : TableBut s.param s.bitset_size s.blocks (fresh_mapping s lpn).table lpn f
  unfolding fresh_mapping
  fresh_table l ms e = elim (Bool-cases (lpn == l)) [
    | inl q ↦
        let same : replicate s.bitset_size (unmapped s) ≡ ms =
          ground
            (arith, lookup-insert lpn l (replicate s.bitset_size (unmapped s)) s.table, e, q) in
        (
          ap length (sym same) ∙ length-replicate s.bitset_size (unmapped s),
          λ i m em _.
              let mm =
                replicate_elem s.bitset_size i m (unmapped s) (ap (λ x. get_elem? x i) same ∙ em) in
              inl (ap (λ (x : Mapping). x.0) mm, ap (λ (x : Mapping). x.1) mm),
        )
    | inr q ↦
        let (len, each) = w.table l ms (
          ground
            (arith, lookup-insert lpn l (replicate s.bitset_size (unmapped s)) s.table, e, q)) in
        (len, λ i m em _. each i m em (ground arith))
  ]

  pub fresh-WellFormedBut : WellFormedBut lpn f (fresh_mapping s lpn)
  unfolding fresh_mapping
  fresh-WellFormedBut = record {
    shape = record {
      some_page = w.shape.some_page;
      some_unit = w.shape.some_unit;
      units = w.shape.units;
    };
    blocks = w.blocks;
    pool = w.pool;
    counted = w.counted;
    opened = record {
      channels = w.opened.channels;
      current = w.opened.current;
      in_use = w.opened.in_use;
      io_map = w.opened.io_map;
    };
    table = unfold fresh_mapping in fresh_table;
  }

-- What the first step of a write makes of the state: a page without a mapping gets an empty one and no
-- block changes; of a mapped page, the slots of the selected units are invalid and the mapping stays.
pub data Prepared (s : Ftl) (req : Request) (t : Ftl) : Type 0 where
  made :
      lookup req.lpn s.table ≡ none
      → lookup req.lpn t.table ≡ some (replicate s.bitset_size (unmapped s))
      → t.blocks ≡ s.blocks
      → Prepared s req t
  invalidated :
      (ms : List Mapping)
      → lookup req.lpn s.table ≡ some ms
      → t.table ≡ s.table
      → ((j : ℕ) → IsCleared s req.io_flag ms t.blocks j)
      → StaysClear s.blocks t.blocks
      → Prepared s req t

pub Prepared-mapped :
    (s : Ftl) (req : Request) (t : Ftl)
    → Prepared s req t
    → (ms : List Mapping) × (lookup req.lpn t.table ≡ some ms)
Prepared-mapped s req t (made e f g) = (_, f)
Prepared-mapped s req t (invalidated ms e f g h) = (ms, ap (λ m. lookup req.lpn m) f ∙ e)

-- On a well-formed state the first step of a write succeeds. A page without a mapping gets an
-- empty one and no block changes. Of a mapped page, the slot of each selected unit that leads into
-- the device holds no valid data any more, no slot that held none holds some, and the mapping
-- stays. All else of the invariant holds, and the mappings of other pages, the parameters and the
-- count of free blocks stay.
pub prepare_lem :
    (s : Ftl) (req : Request)
    → WellFormed s
    → (t : Ftl) × (prepare s req ≡ ok t)
      × WellFormedBut req.lpn (selects s req.io_flag) t
      × Frame req.lpn s t
      × (t.n_free_blocks ≡ s.n_free_blocks)
      × Prepared s req t
unfolding prepare
prepare_lem s req w = elim (Option-cases (lookup req.lpn s.table)) [
  | inl new ↦ (
    fresh_mapping s req.lpn,
    rw (new, prepare) (unfold fresh_mapping in refl),
    fresh-WellFormedBut s req.lpn (selects s req.io_flag) w new,
    unfold fresh_mapping in
        record {
          param = refl;
          bitset_size = refl;
          random_tweak = refl;
          others = λ l e. lookup-insert req.lpn l _ s.table ∙ ground (arith, e);
        },
    unfold fresh_mapping in refl,
    unfold fresh_mapping in
        made new
          (lookup-insert req.lpn req.lpn (replicate s.bitset_size (unmapped s)) s.table
            ∙ rw (==-refl req.lpn))
          refl,
  )
  | inr (ms, at) ↦
      let (bs, run, w', cleared, keep) =
        drop_units_lem s.bitset_size s req.io_flag req.lpn 0 ms (omega arith)
          (WellFormed-but s req.lpn (dropped (selects s req.io_flag) 0) w) at in
      (
        reblock s bs,
        rw (at, prepare) run,
        w',
        record { param = refl; bitset_size = refl; random_tweak = refl; others = λ l e. refl },
        refl,
        invalidated ms at refl (λ j. cleared j (omega arith)) keep,
      )
]
