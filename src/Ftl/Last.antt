-- ===== src/Ftl/Last.antt =====
-- `getLastFreeBlock` of ftl/page_mapping.cc: the block that the next write goes to has a free page.
use testing.Common.{
  ℕ, ◌+◌, ◌≤◌, ◌<◌, ◌≡◌, ◌∙◌, refl, sym, ap, inl, inr, Bool, true, false, List, some, ◌==◌, ==-refl,
  length-set, set, get_elem?, get_elem?-set, get_elem?-eq-get_or, get_or, arith, Bool-cases, ok,
}
use testing.Common.Maps.{lookup, lookup-insert}
use testing.Bitset
use testing.Bitset.{Bitset}
use testing.Bitset.Combine.{and_assign_lem, or_assign_lem}
use testing.Block.{Block}
use testing.Block
use testing.Block.Slots.{next_of, Sized}
use testing.Block.Sequence.{next_of-le_max, max-le}
use testing.Ftl.State.{Ftl}
use testing.Ftl.Pool.{advance, refill, overlaps, next_index, get_last_free_block}
use testing.Ftl.Invariant.{Fits, WellFormedBut}
use testing.Ftl.Prepare.{Frame}
use testing.Ftl.Free.{with_block, get_free_block_lem}

abbrev repoint : Ftl → ℕ → Bitset → Ftl
repoint s index m = record s { last_free_block_index = index; last_free_block_io_map = m }

module _ (s : Ftl) (lpn : ℕ) (f : ℕ → Bool) (w : WellFormedBut lpn f s) where
  repoint-WellFormedBut :
      (index : ℕ) (m : Bitset)
      → index < s.page_count_to_max_perf
      → Sized s.io_unit_in_page m
      → WellFormedBut lpn f (repoint s index m)
  repoint-WellFormedBut index m h z = record {
    shape = record {
      some_page = w.shape.some_page;
      some_unit = w.shape.some_unit;
      units = w.shape.units;
    };
    blocks = w.blocks;
    pool = w.pool;
    counted = w.counted;
    opened = record {
      channels = w.opened.channels;
      current = h;
      in_use = w.opened.in_use;
      io_map = z;
    };
    table = w.table;
  }

  next_index-lt : next_index s < s.page_count_to_max_perf
  unfolding next_index
  next_index-lt = ground (arith, w.opened)

  overlaps_lem : (m : Bitset) → Sized s.io_unit_in_page m → (o : Bool) × (overlaps s m ≡ ok o)
  unfolding overlaps
  overlaps_lem m z = elim (Bool-cases (s.random_tweak)) [
    | inl e ↦
        let (c, run, _) =
          and_assign_lem s.last_free_block_io_map m w.opened.io_map.sound z.sound
            (omega (arith, z, w.opened.io_map)) in
        (Bitset.any c, rw (e, overlaps, run))
    | inr e ↦ (true, rw (e, overlaps))
  ]

  advance_lem :
      (m : Bitset)
      → Sized s.io_unit_in_page m
      → (index : ℕ) × (n : Bitset) × (advance s m ≡ ok (repoint s index n))
        × (index < s.page_count_to_max_perf)
        × Sized s.io_unit_in_page n
  unfolding advance
  advance_lem m z = by_overlap (overlaps_lem m z)
    where
      by_overlap :
          (o : Bool) × (overlaps s m ≡ ok o)
          → (index : ℕ) × (n : Bitset) × (advance s m ≡ ok (repoint s index n))
            × (index < s.page_count_to_max_perf)
            × Sized s.io_unit_in_page n
      by_overlap (true, run) = (next_index s, m, rw (run, advance), next_index-lt, z)
      by_overlap (false, run) =
          let (c, merged, g) =
            or_assign_lem s.last_free_block_io_map m w.opened.io_map.sound z.sound
              (omega (arith, z, w.opened.io_map)) in
          (
            s.last_free_block_index,
            c,
            rw (run, advance, merged),
            w.opened.current,
            record { sound = g.valid; size = g.same_size ∙ w.opened.io_map.size },
          )

-- What `getLastFreeBlock` hands back: a block in use with a free page in every unit.
pub record Ready (lpn : ℕ) (f : ℕ → Bool) (s : Ftl) (k : ℕ) (t : Ftl) : Type 0 where
  pub block : Block
  pub in_use : lookup k t.blocks ≡ some block
  pub fits : Fits s.param block
  pub room : (i : ℕ) → next_of block i < s.pages_in_block
  pub rest : WellFormedBut lpn f t
  pub frame : Frame lpn s t
  pub table : t.table ≡ s.table
  pub spent : s.n_free_blocks ≤ t.n_free_blocks + 1

module _ (s : Ftl) (lpn : ℕ) (f : ℕ → Bool) (w : WellFormedBut lpn f s) where
  -- The block of the current channel has a free page.
  keep_block :
      (k : ℕ) (b : Block)
      → lookup k s.blocks ≡ some b
      → (Block.get_next_write_page_index b == s.pages_in_block) ≡ false
      → Ready lpn f s k s
  keep_block k b at free =
      let fits = (w.blocks k b at).0 in
      record {
        block = b;
        in_use = at;
        fits = fits;
        room = λ i. ground (arith, free, next_of-le_max b i, max-le b fits.sound, fits.pages);
        rest = w;
        frame = record {
          param = refl;
          bitset_size = refl;
          random_tweak = refl;
          others = λ l e. refl;
        };
        table = refl;
        spent = omega arith;
      }

  -- The state after a full block has been replaced by `b`.
  abbrev replaced : Block → List Block → Ftl
  replaced b rest = record (with_block s b rest) {
    last_free_block = set s.last_free_block s.last_free_block_index b.idx;
    reclaim_more = true;
  }

  replaced-WellFormedBut :
      (b : Block) (rest : List Block)
      → WellFormedBut lpn f (with_block s b rest)
      → lookup b.idx (with_block s b rest).blocks ≡ some b
      → WellFormedBut lpn f (replaced b rest)
  replaced-WellFormedBut b rest v here = record {
    shape = record {
      some_page = v.shape.some_page;
      some_unit = v.shape.some_unit;
      units = v.shape.units;
    };
    blocks = v.blocks;
    pool = v.pool;
    counted = v.counted;
    opened = record {
      channels = length-set s.last_free_block s.last_free_block_index b.idx ∙ w.opened.channels;
      current = w.opened.current;
      in_use = λ c k e. elim (Bool-cases (s.last_free_block_index == c)) [
        | inl q ↦
            let new =
              get_elem?-set s.last_free_block s.last_free_block_index c b.idx
                (omega (arith, w.opened)) in
            let same : b.idx ≡ k = ground (arith, new, e, q) in
            (b, ap (λ x. lookup x (with_block s b rest).blocks) (sym same) ∙ here)
        | inr q ↦
            let new =
              get_elem?-set s.last_free_block s.last_free_block_index c b.idx
                (omega (arith, w.opened)) in
            v.opened.in_use c k (ground (arith, new, e, q))
      ];
      io_map = w.opened.io_map;
    };
    table = v.table;
  }

  refill_lem :
      (k : ℕ) (b : Block)
      → get_elem? s.last_free_block s.last_free_block_index ≡ some k
      → lookup k s.blocks ≡ some b
      → 0 < s.n_free_blocks
      → (j : ℕ) × (t : Ftl) × (refill s b ≡ ok t)
        × (get_elem? t.last_free_block t.last_free_block_index ≡ some j)
        × Ready lpn f s j t
  unfolding refill
  refill_lem k b e at left =
      elim (Bool-cases (Block.get_next_write_page_index b == s.pages_in_block)) [
        | inr free ↦ (k, s, rw free, e, keep_block k b at free)
        | inl full ↦
            let (c, rest, run, _, _, blank, v) =
              get_free_block_lem s lpn f w s.last_free_block_index w.opened.current left in
            let here = lookup-insert c.idx c.idx c s.blocks ∙ rw (==-refl c.idx) in
            (
              c.idx,
              replaced c rest,
              rw (full, run),
              get_elem?-set s.last_free_block s.last_free_block_index s.last_free_block_index c.idx
                    (omega (arith, w.opened))
                  ∙ rw (==-refl s.last_free_block_index),
              record {
                block = c;
                in_use = here;
                fits = blank.fits;
                room = λ i. omega (arith, blank.start i, w.shape);
                rest = replaced-WellFormedBut c rest v here;
                frame = record {
                  param = refl;
                  bitset_size = refl;
                  random_tweak = refl;
                  others = λ l e. refl;
                };
                table = refl;
                spent = omega arith;
              },
            )
      ]

-- On a state that is well-formed but for the open units of one page, with a free block left and an
-- I/O flag of one bit per unit, `getLastFreeBlock` succeeds: it finds a block in use of the device
-- with a free page in every unit, keeps that invariant, the table and the parameters, and spends
-- at most one free block.
pub get_last_free_block_lem :
    (s : Ftl) (lpn : ℕ) (f : ℕ → Bool) (m : Bitset)
    → WellFormedBut lpn f s
    → Sized s.io_unit_in_page m
    → 0 < s.n_free_blocks
    → (k : ℕ) × (t : Ftl) × (get_last_free_block s m ≡ ok (k, t)) × Ready lpn f s k t
unfolding get_last_free_block
get_last_free_block_lem s lpn f m w z left =
    let (index, n, run, lt, zn) = advance_lem s lpn f w m z in
    let t = repoint s index n in
    let v = repoint-WellFormedBut s lpn f w index n lt zn in
    let at = get_elem?-eq-get_or s.last_free_block index 0 (omega (arith, lt, w.opened)) in
    let (b, here) = w.opened.in_use index (get_or s.last_free_block index 0) at in
    let (j, u, filled, last, ready) =
      refill_lem t lpn f v (get_or s.last_free_block index 0) b at here left in
    (
      j,
      u,
      rw (run, get_last_free_block, at, here, filled, last),
      record {
        block = ready.block;
        in_use = ready.in_use;
        fits = ready.fits;
        room = ready.room;
        rest = ready.rest;
        frame = record {
          param = ready.frame.param;
          bitset_size = ready.frame.bitset_size;
          random_tweak = ready.frame.random_tweak;
          others = ready.frame.others;
        };
        table = ready.table;
        spent = ready.spent;
      },
    )
