-- ===== src/Ftl/Free.antt =====
-- `getFreeBlock` of ftl/page_mapping.cc: one block moves from the pool to the blocks in use.
use testing.Common.{
  ℕ, ◌+◌, ◌-◌, ◌%◌, ◌<◌, ◌≡◌, refl, sym, ◌≢◌, ◌⊎◌, inl, inr, Bool, List, [], ◌∷◌, none, some, ◌==◌,
  ==→eq, lt→ltb, length, All, arith, Bool-cases, ok,
}
use testing.Common.Maps.{lookup, insert}
use testing.Block.{Block}
use testing.Ftl.State.{Ftl}
use testing.Ftl.Pool.{take_matching, take_free, get_free_block}
use testing.Ftl.Invariant.{Blank, Pooled, Distinct, WellFormedBut}
use testing.Ftl.Slots.{insert-InUse, insert-Pooled, insert-Mapped, insert-lookup}

-- `b` is one of the blocks, and `rest` are the others in their order.
pub data Takes : List Block → Block → List Block → Type 0 where
  here : (b : Block) (bs : List Block) → Takes (b ∷ bs) b bs
  there : (a : Block) {b : Block} {bs cs : List Block} → Takes bs b cs → Takes (a ∷ bs) b (a ∷ cs)

pub Takes-All :
    (P : Block → Type 0) {bs cs : List Block} {b : Block}
    → Takes bs b cs
    → All P bs
    → P b × All P cs
Takes-All P (here b bs) h = h
Takes-All P (there a t) h = let (x, y) = Takes-All P t h.1 in (x, (h.0, y))

pub Takes-length : {bs cs : List Block} {b : Block} → Takes bs b cs → length bs ≡ length cs + 1
Takes-length (here b bs) = omega arith
Takes-length (there a t) = omega (arith, Takes-length t)

flip_ne : (a : Block) (bs : List Block) → All (λ c. c.idx ≢ a.idx) bs → All (λ c. a.idx ≢ c.idx) bs
flip_ne a [] h = tt
flip_ne a (b ∷ bs) h = ((λ e. h.0 (sym e)), flip_ne a bs h.1)

pub Takes-Distinct :
    {bs cs : List Block} {b : Block}
    → Takes bs b cs
    → Distinct bs
    → All (λ c. c.idx ≢ b.idx) cs × Distinct cs
Takes-Distinct (here b bs) d = d
Takes-Distinct (there a {b = b} t) d =
    let (ne, rest) = Takes-Distinct t d.1 in
    let (away, kept) = Takes-All (λ c. c.idx ≢ a.idx) t d.0 in
    (((λ e. away (sym e)), ne), (kept, rest))

-- The search by channel: the first hit, or none at all.
take_matching_lem :
    (channels idx : ℕ) (bs : List Block)
    → ((b : Block) × (rest : List Block) × (take_matching channels idx bs ≡ some (b, rest))
        × Takes bs b rest
        × (b.idx % channels ≡ idx))
      ⊎ ((take_matching channels idx bs ≡ none) × All (λ b. b.idx % channels ≢ idx) bs)
unfolding take_matching
take_matching_lem channels idx [] = inr (refl, tt)
take_matching_lem channels idx (b ∷ bs) = elim (Bool-cases (b.idx % channels == idx)) [
  | inl e ↦ inl (b, bs, rw e, here b bs, ==→eq _ _ e)
  | inr e ↦ elim (take_matching_lem channels idx bs) [
    | inl (c, cs, run, t, m) ↦ inl (c, b ∷ cs, rw (e, run), there b t, m)
    | inr (run, no_match) ↦ inr (rw (e, run), (ground arith, no_match))
  ]
]

-- The block that `getFreeBlock` picks: of the channel if the pool has one, and else the first.
pub take_free_lem :
    (channels idx : ℕ) (bs : List Block)
    → 0 < length bs
    → (b : Block) × (rest : List Block) × (take_free channels idx bs ≡ ok (b, rest))
      × Takes bs b rest
      × ((b.idx % channels ≡ idx) ⊎ All (λ c. c.idx % channels ≢ idx) bs)
unfolding take_free
take_free_lem channels idx [] h = absurd (omega arith)
take_free_lem channels idx (c ∷ cs) h = elim (take_matching_lem channels idx (c ∷ cs)) [
  | inl (b, rest, run, t, m) ↦ (b, rest, rw (run, take_free), t, inl m)
  | inr (run, no_match) ↦ (c, cs, rw (run, take_free), here c cs, inr no_match)
]

-- The state after a block has been taken.
abbrev pub with_block : Ftl → Block → List Block → Ftl
with_block s b rest = record s {
  blocks = insert b.idx b s.blocks;
  free_blocks = rest;
  n_free_blocks = s.n_free_blocks - 1;
}

module _ (s : Ftl) (lpn : ℕ) (f : ℕ → Bool) (w : WellFormedBut lpn f s) where
  taken-WellFormedBut :
      (b : Block) (rest : List Block)
      → Takes s.free_blocks b rest
      → (lookup b.idx s.blocks ≡ none) × Blank s.param b × WellFormedBut lpn f (with_block s b rest)
  taken-WellFormedBut b rest t =
      let (blank, blanks) = Takes-All (Blank s.param) t w.pool.blank in
      let (absent, absents) = Takes-All (λ a. lookup a.idx s.blocks ≡ none) t w.pool.absent in
      let (ne, distinct) = Takes-Distinct t w.pool.distinct in
      let left : Pooled s.param s.blocks rest = record {
        blank = blanks;
        distinct = distinct;
        absent = absents;
      } in
      (
        absent,
        blank,
        record {
          shape = record {
            some_page = w.shape.some_page;
            some_unit = w.shape.some_unit;
            units = w.shape.units;
          };
          blocks = insert-InUse s.param s.blocks b absent w.blocks blank.fits;
          pool = insert-Pooled s.param s.blocks b absent rest ne left;
          counted = omega (arith, w.counted, Takes-length t);
          opened = record {
            channels = w.opened.channels;
            current = w.opened.current;
            in_use = λ c k e.
                let (d, h) = w.opened.in_use c k e in
                (d, insert-lookup s.param s.blocks b absent k d h);
            io_map = w.opened.io_map;
          };
          table = λ l ms e.
              let (len, each) = w.table l ms e in
              (
                len,
                λ i m em closed. insert-Mapped s.param s.blocks b absent l i m (each i m em closed),
              );
        },
      )

  -- On a state that is well-formed but for the open units of one page, with a free block left and
  -- for an index below the count of channels, `getFreeBlock` hands out a blank block of the pool,
  -- of the channel asked for if the pool has one, moves it to the blocks in use and keeps that
  -- invariant.
  pub get_free_block_lem :
      (idx : ℕ)
      → idx < s.page_count_to_max_perf
      → 0 < s.n_free_blocks
      → (b : Block) × (rest : List Block) × (get_free_block s idx ≡ ok (b.idx, with_block s b rest))
        × Takes s.free_blocks b rest
        × ((b.idx % s.page_count_to_max_perf ≡ idx)
            ⊎ All (λ c. c.idx % s.page_count_to_max_perf ≢ idx) s.free_blocks)
        × Blank s.param b
        × WellFormedBut lpn f (with_block s b rest)
  unfolding get_free_block
  get_free_block_lem idx in_range left =
      let (b, rest, run, t, channel) =
        take_free_lem s.page_count_to_max_perf idx s.free_blocks (omega (arith, w.counted)) in
      let (absent, blank, w') = taken-WellFormedBut b rest t in
      (b, rest, rw (lt→ltb _ _ in_range, lt→ltb _ _ left, run, absent), t, channel, blank, w')
