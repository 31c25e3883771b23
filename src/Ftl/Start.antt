-- ===== src/Ftl/Start.antt =====
-- The constructor of `PageMapping` and the writes of `initialize` (ftl/page_mapping.cc).
use testing.Common.{
  ℕ, zero, suc, Bool, false, List, [], ◌∷◌, Result, ok, ◌>>=◌, if◌then◌else◌, set, replicate,
}
use testing.Bitset
use testing.Bitset.{Bitset}
use testing.Block
use testing.Block.{Block}
use testing.Ftl.State.{Ftl, Devices, Param}
use testing.Ftl.Pool.{get_free_block}
use testing.Ftl.Write.{write_internal}

-- The `n` blocks from number `i`.
unfoldable pub new_blocks : Param → ℕ → ℕ → Result (List Block)
new_blocks p zero i = ok []
new_blocks p (suc n) i = do
  b ← Block.create i p.pages_in_block p.io_unit_in_page
  bs ← new_blocks p n (suc i)
  ok (b ∷ bs)

-- A block for each of the `n` channels from channel `i`.
unfoldable pub open_channels : ℕ → ℕ → Ftl → Result Ftl
open_channels zero i s = ok s
open_channels (suc n) i s = do
  (k, t) ← get_free_block s i
  open_channels n (suc i) (record t { last_free_block = set t.last_free_block i k })

-- The state before a block is open.
unfoldable pub closed_mapping : Param → Bool → List Block → Ftl
closed_mapping p tweak free = record {
  param = p;
  table = [];
  blocks = [];
  free_blocks = free;
  n_free_blocks = p.total_physical_blocks;
  last_free_block = replicate p.page_count_to_max_perf 0;
  last_free_block_io_map = Bitset.of_size p.io_unit_in_page;
  last_free_block_index = 0;
  reclaim_more = false;
  random_tweak = tweak;
  bitset_size = if tweak then p.io_unit_in_page else 1;
  gc_count = 0;
  reclaimed_blocks = 0;
  valid_super_page_copies = 0;
  valid_page_copies = 0;
  issued = [];
}

-- The constructor.
unfoldable pub create_mapping : Param → Bool → Result Ftl
unfolding new_blocks open_channels closed_mapping
create_mapping p tweak = do
  free ← new_blocks p p.total_physical_blocks 0
  open_channels p.page_count_to_max_perf 0 (closed_mapping p tweak free)

-- The writes of `initialize`, to the pages `lpns`: in order or drawn at random, as the filling mode has
-- it. No command is sent for them, and each begins at tick 0.
unfoldable pub fill : Devices → Ftl → List ℕ → Result Ftl
fill d s [] = ok s
fill d s (lpn ∷ lpns) = do
  (t, s₁) ←
      write_internal d s
        (record { lpn = lpn; io_flag = Bitset.set_all (Bitset.of_size s.io_unit_in_page) }) 0 false
  fill d s₁ lpns
