-- ===== src/Ftl/NewBlocks.antt =====
-- The blocks that the constructor of `PageMapping` (ftl/page_mapping.cc) makes.
use testing.Common.{
  ℕ, zero, suc, ◌+◌, ◌^◌, ◌≤◌, ◌<◌, ◌≡◌, refl, ◌≢◌, List, [], ◌∷◌, length, All, arith, ok,
}
use testing.Block.{Block}
use testing.Block.Erase.{create_lem}
use testing.Ftl.State.{Param}
use testing.Ftl.Start.{new_blocks}
use testing.Ftl.Invariant.{Blank, Distinct}

-- The counts of a device that can be built.
pub record IsSane (p : Param) : Type 0 where
  pub some_page : 0 < p.pages_in_block
  pub few_pages : p.pages_in_block < 2 ^ 32
  pub some_unit : 0 < p.io_unit_in_page
  pub few_units : p.io_unit_in_page < 2 ^ 32
  pub some_channel : 0 < p.page_count_to_max_perf
  pub channels : p.page_count_to_max_perf ≤ p.total_physical_blocks

-- The blocks from number `i`.
pub record Fresh (p : Param) (n i : ℕ) (bs : List Block) : Type 0 where
  pub blank : All (Blank p) bs
  pub distinct : Distinct bs
  pub above : All (λ b. i ≤ b.idx) bs
  pub count : length bs ≡ n

above_more : (i : ℕ) (bs : List Block) → All (λ b. suc i ≤ b.idx) bs → All (λ b. i ≤ b.idx) bs
above_more i [] h = tt
above_more i (b ∷ bs) h = (omega (arith, h.0), above_more i bs h.1)

above_ne :
    (i k : ℕ) (bs : List Block) → k ≡ i → All (λ b. suc i ≤ b.idx) bs → All (λ b. b.idx ≢ k) bs
above_ne i k [] e h = tt
above_ne i k (b ∷ bs) e h = (omega (arith, h.0), above_ne i k bs e h.1)

pub new_blocks_lem :
    (p : Param) (n i : ℕ)
    → IsSane p
    → i + n ≡ p.total_physical_blocks
    → (bs : List Block) × (new_blocks p n i ≡ ok bs) × Fresh p n i bs
unfolding new_blocks
new_blocks_lem p zero i h e =
    ([], refl, record { blank = tt; distinct = tt; above = tt; count = refl })
new_blocks_lem p (suc n) i h e =
    let (b, made, valid, idx, _, pages, units, start, _) =
      create_lem i p.pages_in_block p.io_unit_in_page h.few_pages h.few_units h.some_unit in
    let (bs, run, f) = new_blocks_lem p n (suc i) h (omega arith) in
    (
      b ∷ bs,
      rw (made, run),
      record {
        blank = (
          record {
            fits = record { sound = valid; pages = pages; units = units; inside = omega arith };
            start = start;
          },
          f.blank,
        );
        distinct = (above_ne i b.idx bs idx f.above, f.distinct);
        above = (omega arith, above_more i bs f.above);
        count = omega (arith, f.count);
      },
    )
