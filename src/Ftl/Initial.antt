-- ===== src/Ftl/Initial.antt =====
-- A new `PageMapping` (ftl/page_mapping.cc) meets the invariant.
use testing.Common.{
  ℕ, zero, suc, ◌+◌, ◌≤◌, ◌<◌, ◌≡◌, ◌∙◌, refl, sym, ap, subst, inl, inr, Bool, true, false, List,
  [], ◌∷◌, none, some, ◌==◌, ==-refl, lt→ltb, length, length-set, length-replicate, set, get_elem?,
  get_elem?-set, get_elem?-lt, All, arith, if◌then◌else◌, Bool-cases, ok,
}
use testing.Common.Maps.{lookup, insert, lookup-insert}
use testing.Bitset
use testing.Bitset.Valid
use testing.Block.{Block}
use testing.Block.Slots.{Sized}
use testing.Ftl.State.{Ftl, Param, Mapping}
use testing.Ftl.Pool.{get_free_block}
use testing.Ftl.Start.{open_channels, closed_mapping, create_mapping}
use testing.Ftl.Invariant.{Blank, InUse, Pooled, Shape, WellFormed}
use testing.Ftl.Slots.{insert-InUse, insert-Pooled, insert-lookup}
use testing.Ftl.Free.{Takes, Takes-All, Takes-length, Takes-Distinct, take_free_lem, with_block}
use testing.Ftl.NewBlocks.{IsSane, Fresh, new_blocks_lem}

-- The state once the channels below `i` are open.
record Opening (p : Param) (i : ℕ) (s : Ftl) : Type 0 where
  pub param : s.param ≡ p
  pub shape : Shape s
  pub blocks : InUse s.param s.blocks
  pub pool : Pooled s.param s.blocks s.free_blocks
  pub counted : s.n_free_blocks ≡ length s.free_blocks
  pub left : s.n_free_blocks + i ≡ s.total_physical_blocks
  pub channels : length s.last_free_block ≡ s.page_count_to_max_perf
  pub index : s.last_free_block_index ≡ 0
  pub in_use :
      (c k : ℕ)
      → c < i
      → get_elem? s.last_free_block c ≡ some k
      → (b : Block) × (lookup k s.blocks ≡ some b)
  pub io_map : Sized s.io_unit_in_page s.last_free_block_io_map
  pub table : s.table ≡ []

module _ (p : Param) (i : ℕ) (s : Ftl) (sane : IsSane p) (o : Opening p i s)
    (lt : i < s.page_count_to_max_perf) where
  -- The state once block `b` is open for channel `i`.
  abbrev open_with : Block → List Block → Ftl
  open_with b rest = record (with_block s b rest) {
    last_free_block = set s.last_free_block i b.idx;
  }

  take_Opening :
      (b : Block) (rest : List Block)
      → Takes s.free_blocks b rest
      → (lookup b.idx s.blocks ≡ none) × Opening p (suc i) (open_with b rest)
  take_Opening b rest t =
      let (blank, blanks) = Takes-All (Blank s.param) t o.pool.blank in
      let (absent, absents) = Takes-All (λ a. lookup a.idx s.blocks ≡ none) t o.pool.absent in
      let (ne, distinct) = Takes-Distinct t o.pool.distinct in
      let left : Pooled s.param s.blocks rest = record {
        blank = blanks;
        distinct = distinct;
        absent = absents;
      } in
      (
        absent,
        record {
          param = o.param;
          shape = record {
            some_page = o.shape.some_page;
            some_unit = o.shape.some_unit;
            units = o.shape.units;
          };
          blocks = insert-InUse s.param s.blocks b absent o.blocks blank.fits;
          pool = insert-Pooled s.param s.blocks b absent rest ne left;
          counted = omega (arith, o.counted, Takes-length t);
          left = omega (arith, o.left, o.counted, Takes-length t);
          channels = length-set s.last_free_block i b.idx ∙ o.channels;
          index = o.index;
          in_use = λ c k below e. elim (Bool-cases (i == c)) [
            | inl q ↦
                let new = get_elem?-set s.last_free_block i c b.idx (omega (arith, o.channels)) in
                let same : b.idx ≡ k = ground (arith, new, e, q) in
                (
                  b,
                  ap (λ x. lookup x (insert b.idx b s.blocks)) (sym same)
                      ∙ lookup-insert b.idx b.idx b s.blocks
                      ∙ rw (==-refl b.idx),
                )
            | inr q ↦
                let new = get_elem?-set s.last_free_block i c b.idx (omega (arith, o.channels)) in
                let (d, at) = o.in_use c k (ground (arith, q)) (ground (arith, new, e, q)) in
                (d, insert-lookup s.param s.blocks b absent k d at)
          ];
          io_map = o.io_map;
          table = o.table;
        },
      )

  open_channel_lem :
      0 < s.n_free_blocks
      → (b : Block) × (rest : List Block) × (get_free_block s i ≡ ok (b.idx, with_block s b rest))
        × Opening p (suc i) (open_with b rest)
  unfolding get_free_block
  open_channel_lem some_left =
      let (b, rest, run, t, _) =
        take_free_lem s.page_count_to_max_perf i s.free_blocks (omega (arith, o.counted)) in
      let (absent, next) = take_Opening b rest t in
      (b, rest, rw (lt→ltb _ _ lt, lt→ltb _ _ some_left, run, absent), next)

open_channels_lem :
    (p : Param) (n i : ℕ) (s : Ftl)
    → IsSane p
    → Opening p i s
    → i + n ≡ s.page_count_to_max_perf
    → (t : Ftl) × (open_channels n i s ≡ ok t) × Opening p p.page_count_to_max_perf t
unfolding open_channels
open_channels_lem p zero i s sane o e = (
  s,
  refl,
  subst (λ x. Opening p x s) (at_end ∙ ap (λ (x : Param). x.page_count_to_max_perf) o.param) o,
)
  where
    at_end : i ≡ s.page_count_to_max_perf
    at_end = omega arith
open_channels_lem p (suc n) i s sane o e =
    let enough : 0 < s.n_free_blocks = omega (
      arith,
      o.left,
      sane.channels,
      o.param,
      ap (λ (x : Param). x.page_count_to_max_perf) o.param,
      ap (λ (x : Param). x.total_physical_blocks) o.param,
    ) in
    let (b, rest, run, next) = open_channel_lem p i s sane o (omega arith) enough in
    let (t, more, done) =
      open_channels_lem p n (suc i) (open_with p i s sane o (omega arith) b rest) sane next
        (omega arith) in
    (t, rw run more, done)

absent-All : (p : Param) (bs : List Block) → All (λ b. lookup {A = Block} b.idx [] ≡ none) bs
unfolding lookup
absent-All p [] = tt
absent-All p (b ∷ bs) = (refl, absent-All p bs)

unit_count :
    (p : Param) (tweak : Bool)
    → IsSane p
    → (0 < (if tweak then p.io_unit_in_page else 1))
      × ((if tweak then p.io_unit_in_page else 1) ≤ p.io_unit_in_page)
unit_count p true h = (h.some_unit, omega arith)
unit_count p false h = (omega arith, omega (arith, h))

closed-Opening :
    (p : Param) (tweak : Bool) (bs : List Block)
    → IsSane p
    → Fresh p p.total_physical_blocks 0 bs
    → Opening p 0 (closed_mapping p tweak bs)
unfolding closed_mapping
closed-Opening p tweak bs h f = record {
  param = refl;
  shape = record {
    some_page = h.some_page;
    some_unit = (unit_count p tweak h).0;
    units = (unit_count p tweak h).1;
  };
  blocks = λ k b e. nothing k e;
  pool = record { blank = f.blank; distinct = f.distinct; absent = absent-All p bs };
  counted = sym f.count;
  left = omega arith;
  channels = length-replicate p.page_count_to_max_perf 0;
  index = refl;
  in_use = λ c k below. absurd (omega arith);
  io_map = record {
    sound = Valid.of_size-IsValid p.io_unit_in_page h.few_units;
    size = unfold Bitset.of_size in ground arith;
  };
  table = refl;
}
  where
    nothing : {A : Type 0} (k : ℕ) {b : Block} → lookup k [] ≡ some b → A
    nothing k e = unfold lookup in cc

-- For sane parameters (positive counts, page and unit counts below 2^32, no more channels than
-- blocks) the constructor succeeds. The new mapping is well-formed, has these parameters, maps no
-- page, and has all blocks free but for one for each channel.
pub create_mapping_lem :
    (p : Param) (tweak : Bool)
    → IsSane p
    → (s : Ftl) × (create_mapping p tweak ≡ ok s)
      × WellFormed s
      × (s.param ≡ p)
      × (s.table ≡ [])
      × (s.n_free_blocks + p.page_count_to_max_perf ≡ p.total_physical_blocks)
unfolding create_mapping
create_mapping_lem p tweak h =
    let (bs, made, f) = new_blocks_lem p p.total_physical_blocks 0 h (omega arith) in
    let o = closed-Opening p tweak bs h f in
    let (s, run, done) =
      open_channels_lem p p.page_count_to_max_perf 0 (closed_mapping p tweak bs) h o
        (unfold closed_mapping in omega arith) in
    let q = ap (λ (x : Param). x.page_count_to_max_perf) done.param in
    (
      s,
      rw made run,
      record {
        shape = done.shape;
        blocks = done.blocks;
        pool = done.pool;
        counted = done.counted;
        opened = record {
          channels = done.channels;
          current = omega (arith, done.index, q, h.some_channel);
          in_use = λ c k e.
              done.in_use c k (omega (arith, get_elem?-lt s.last_free_block c e, done.channels, q))
                e;
          io_map = done.io_map;
        };
        table = λ l ms e. nothing l (sym (ap (lookup l) done.table) ∙ e);
      },
      done.param,
      done.table,
      omega (arith, done.left, ap (λ (x : Param). x.total_physical_blocks) done.param),
    )
  where
    nothing : {A : Type 0} (k : ℕ) {ms : List Mapping} → lookup k [] ≡ some ms → A
    nothing k e = unfold lookup in cc
