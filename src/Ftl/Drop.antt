-- ===== src/Ftl/Drop.antt =====
-- `writeInternal` of ftl/page_mapping.cc up to its new block: the pages that held the data before
-- become invalid, or the page gets an empty mapping.
use testing.Common.{
  ℕ, suc, ◌<◌, ◌≡◌, ◌∙◌, inl, inr, Bool, true, false, List, some, ◌==◌, get_elem?, get_elem?-lt,
  get_elem?-eq-get_or, get_or, ◌&&◌, arith, ltb, ok,
}
use testing.Common.Maps.{lookup, put}
use testing.Block.{Block}
use testing.Block
use testing.Block.Slots.{lpn_at, InRange}
use testing.Block.Invalidate.{invalidate_lem, Invalidated}
use testing.Ftl.State.{Ftl, Mapping}
use testing.Ftl.Access.{unmapped}
use testing.Ftl.Invariant.{Fits, InUse, Pooled, Holds, Mapped, TableBut, WellFormedBut}
use testing.Ftl.Slots.{put-InUse, put-Pooled, put-lookup, put-Holds, TableBut-more}

-- The units below `i` that a request selects.
abbrev pub dropped : (ℕ → Bool) → ℕ → ℕ → Bool
dropped f i j = ltb j i && f j

-- A new map of blocks.
abbrev pub reblock : Ftl → List (ℕ × Block) → Ftl
reblock s bs = record s { blocks = bs }

pub reblock-WellFormedBut :
    (s : Ftl) (bs : List (ℕ × Block)) (lpn : ℕ) (f h : ℕ → Bool)
    → WellFormedBut lpn f s
    → InUse s.param bs
    → Pooled s.param bs s.free_blocks
    → ((j : ℕ) → (d : Block) × (lookup j s.blocks ≡ some d) → (d : Block) × (lookup j bs ≡ some d))
    → TableBut s.param s.bitset_size bs s.table lpn h
    → WellFormedBut lpn h (reblock s bs)
reblock-WellFormedBut s bs lpn f h w u p keep t = record {
  shape = record {
    some_page = w.shape.some_page;
    some_unit = w.shape.some_unit;
    units = w.shape.units;
  };
  blocks = u;
  pool = p;
  counted = w.counted;
  opened = record {
    channels = w.opened.channels;
    current = w.opened.current;
    in_use = λ c k e. keep k (w.opened.in_use c k e);
    io_map = w.opened.io_map;
  };
  table = t;
}

pub open_more :
    (s : Ftl) (lpn : ℕ) (f h : ℕ → Bool)
    → ((i : ℕ) → i < s.bitset_size → f i ≡ true → h i ≡ true)
    → WellFormedBut lpn f s
    → WellFormedBut lpn h s
open_more s lpn f h more w = record {
  shape = w.shape;
  blocks = w.blocks;
  pool = w.pool;
  counted = w.counted;
  opened = w.opened;
  table = TableBut-more s.param s.bitset_size s.blocks s.table lpn f h more w.table;
}

module _ (s : Ftl) (f : ℕ → Bool) (lpn i : ℕ) (ms : List Mapping) (i_in : i < s.bitset_size)
    (w : WellFormedBut lpn (dropped f i) s) (at : lookup lpn s.table ≡ some ms) where
  -- The mapping of unit `i`, which no earlier unit has opened.
  pub mapping : (m : Mapping) × (get_elem? ms i ≡ some m) × Mapped s.param s.blocks lpn i m
  mapping =
      let (len, each) = w.table lpn ms at in
      let m = get_or ms i (unmapped s) in
      let e = get_elem?-eq-get_or ms i (unmapped s) (omega (arith, len)) in
      (m, e, each i m e (ground arith))

  -- Invalidating the slot of `(lpn, i)` leaves all data that is not open.
  invalidated_table :
      (m : Mapping) (b c : Block)
      → lookup m.0 s.blocks ≡ some b
      → lpn_at b m.1 i ≡ lpn
      → m.1 < s.pages_in_block
      → f i ≡ true
      → Invalidated b m.1 i c
      → Fits s.param b
      → TableBut s.param s.bitset_size (put m.0 c s.blocks) s.table lpn (dropped f (suc i))
  invalidated_table m b c here mine page sel g fits l ns e =
      let (len, each) = w.table l ns e in
      (
        len,
        λ j n en closed.
            keep j n (omega (arith, len, get_elem?-lt ns j en)) closed
              (each j n en (ground (arith, closed))),
      )
    where
      keep :
          (j : ℕ) (n : Mapping)
          → j < s.bitset_size
          → ((l == lpn) && dropped f (suc i) j) ≡ false
          → Mapped s.param s.blocks l j n
          → Mapped s.param (put m.0 c s.blocks) l j n
      keep j n lt closed (inl u) = inl u
      keep j n lt closed (inr (x, y, h)) = inr (
        x,
        y,
        put-Holds s.param s.blocks m.0 b c here n.0 n.1 j l h λ _ v q.
            let r : InRange b n.1 j = record {
              page = omega (arith, fits, y);
              unit = omega (arith, fits, w.shape);
            } in
            (g.valid n.1 j r ∙ ground (arith, v, q, mine, closed, sel), g.lpns n.1 j ∙ q),
      )

  -- The slot that a mapping in the device leads to can be invalidated.
  pub invalidate_mapped :
      (m : Mapping)
      → get_elem? ms i ≡ some m
      → f i ≡ true
      → m.0 < s.total_physical_blocks
      → m.1 < s.pages_in_block
      → Holds s.blocks m.0 m.1 i lpn
      → (b c : Block) × (lookup m.0 s.blocks ≡ some b)
        × (Block.invalidate b m.1 i ≡ ok c)
        × WellFormedBut lpn (dropped f (suc i)) (reblock s (put m.0 c s.blocks))
        × InRange b m.1 i
        × Invalidated b m.1 i c
  invalidate_mapped m e sel x y (b, here, v, mine) =
      let fits = (w.blocks m.0 b here).0 in
      let r : InRange b m.1 i = record {
        page = omega (arith, fits, y);
        unit = omega (arith, fits, w.shape, i_in);
      } in
      let (c, run, sound, g) = invalidate_lem b m.1 i r fits.sound in
      let fc : Fits s.param c = record {
        sound = sound;
        pages = g.page_count ∙ fits.pages;
        units = g.units ∙ fits.units;
        inside = omega (arith, fits, g.idx);
      } in
      (
        b,
        c,
        here,
        run,
        reblock-WellFormedBut s (put m.0 c s.blocks) lpn _ _ w
            (put-InUse s.param s.blocks m.0 b c here w.blocks fc (g.idx ∙ (w.blocks m.0 b here).1))
            (put-Pooled s.param s.blocks m.0 b c here s.free_blocks w.pool)
            (put-lookup s.param s.blocks m.0 b c here)
            (invalidated_table m b c here mine y sel g fits),
        r,
        g,
      )
