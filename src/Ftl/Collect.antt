-- ===== src/Ftl/Collect.antt =====
-- Garbage collection: `calculateVictimWeight`, `selectVictimBlock` and `doGarbageCollection`. The two
-- policies that draw blocks at random are not modelled.
use testing.Common.{
  ℕ, zero, suc, ◌+◌, ◌-◌, ◌*◌, ◌%◌, ◌^◌, true, false, List, [], ◌∷◌, ◌++◌, Result, ok, ◌>>=◌,
  or_panic, ◌==◌, if◌then◌else◌, get_elem?, set, length, max, min, dangling, out_of_range,
  invalid_block, invalid_mapping,
}
use testing.Common.Maps.{lookup, put}
use testing.Bitset
use testing.Bitset.{Bitset}
use testing.Block
use testing.Block.{Block}
use testing.Ftl.State.{
  Ftl, Devices, PalRequest, Command, issue, pal_read, pal_write, dram_read, compute, gc_mode_0,
  gc_mode_1, policy_greedy, policy_cost_benefit, cpu_select_victim_block, cpu_do_garbage_collection,
}
use testing.Ftl.Pool.{get_last_free_block, erase_internal}

-- The weight of one block at `tick`.
unfoldable pub weight : Devices → Ftl → Block → ℕ → ℕ
weight d s b tick = elim (d.evict_policy) [
  | policy_greedy ↦ Block.get_valid_page_count_raw b
  | policy_cost_benefit ↦
      d.cost_benefit (Block.get_valid_page_count_raw b) s.pages_in_block
        ((tick + 2 ^ 64 - b.last_accessed) % 2 ^ 64)
]

-- `calculateVictimWeight`: only full blocks are weighed.
pub victim_weights : Devices → Ftl → ℕ → List (ℕ × Block) → List (ℕ × ℕ)
victim_weights d s tick [] = []
victim_weights d s tick ((i, b) ∷ bs) =
    if Block.get_next_write_page_index b == s.pages_in_block
    then (i, weight d s b tick) ∷ victim_weights d s tick bs
    else victim_weights d s tick bs

unfoldable pub calculate_victim_weight : Devices → Ftl → ℕ → List (ℕ × ℕ)
unfolding victim_weights weight
calculate_victim_weight d s tick = victim_weights d s tick s.blocks

-- How many blocks to reclaim, before the bound by the number of candidates.
unfoldable pub blocks_to_reclaim : Devices → Ftl → ℕ
blocks_to_reclaim d s =
    elim (d.gc_mode) [ gc_mode_0 ↦ d.reclaim_block | gc_mode_1 ↦ d.reclaim_target s.n_free_blocks ]
    + (if s.reclaim_more then s.page_count_to_max_perf else 0)

-- The first blocks of the sorted weights.
pub first_blocks : ℕ → List (ℕ × ℕ) → List ℕ
first_blocks zero ws = []
first_blocks (suc n) [] = []
first_blocks (suc n) ((i, w) ∷ ws) = i ∷ first_blocks n ws

-- `selectVictimBlock`.
unfoldable pub select_victim_block : Devices → Ftl → ℕ → List ℕ × ℕ × Ftl
unfolding first_blocks
select_victim_block d s tick =
    let n = blocks_to_reclaim d s in
    let s₁ = record s { reclaim_more = false } in
    let sorted = d.sort (calculate_victim_weight d s₁ tick) in
    let (t, s₂) = issue d s₁ (compute cpu_select_victim_block) tick in
    (first_blocks (min n (length sorted)) sorted, t, s₂)

-- The requests that a collection gathers before it issues them.
pub record Gathered : Type 0 where
  pub ftl : Ftl
  pub tick : ℕ
  pub reads : List PalRequest
  pub writes : List PalRequest
  pub erases : List PalRequest

-- One unit of one valid page: it moves to the next page of the free block.
pub move_unit : Devices → ℕ → ℕ → ℕ → List ℕ → Bitset → ℕ → Gathered → Result Gathered
move_unit d victim free page lpns bit i g = do
  old ← or_panic (lookup victim g.ftl.blocks) invalid_block
  old' ← Block.invalidate old page i
  lpn ← or_panic (get_elem? lpns i) out_of_range
  let s₁ = record (g.ftl) { blocks = put victim old' g.ftl.blocks }
  ms ← or_panic (lookup lpn s₁.table) invalid_mapping
  let (t, s₂) = issue d s₁ (dram_read (8 * s₁.io_unit_in_page)) g.tick
  m ← or_panic (get_elem? ms i) out_of_range
  new ← or_panic (lookup free s₂.blocks) dangling
  let new_page = Block.get_next_write_page_index_of new i
  (done, new') ← Block.write new new_page lpn i 0
  let flag =
      if s₂.random_tweak then Bitset.set_at (Bitset.reset_all bit) i true else Bitset.set_all bit
  let s₃ = record s₂ {
    table = put lpn (set ms i (free, new_page)) s₂.table;
    blocks = put free new' s₂.blocks;
    valid_page_copies = s₂.valid_page_copies + 1;
  }
  ok (record g {
    ftl = s₃;
    tick = t;
    writes =
        g.writes ++ (record { block_index = free; page_index = new_page; io_flag = flag } ∷ []);
  })

pub move_units : Devices → ℕ → ℕ → ℕ → List ℕ → Bitset → ℕ → ℕ → Gathered → Result Gathered
move_units d victim free page lpns bit zero i g = ok g
move_units d victim free page lpns bit (suc n) i g =
    (if Bitset.test bit i then move_unit d victim free page lpns bit i g else ok g) >>= λ h.
    move_units d victim free page lpns bit n (suc i) h

abbrev read_request : ℕ → ℕ → Bitset → PalRequest
read_request victim page bit = record { block_index = victim; page_index = page; io_flag = bit }

-- One valid page of a victim.
copy_page : Devices → ℕ → ℕ → List ℕ → Bitset → Gathered → Result Gathered
copy_page d victim page lpns bit g = do
  (free, s₁) ← get_last_free_block (g.ftl) bit
  h ←
      move_units d victim free page lpns bit s₁.bitset_size 0
        (record g { ftl = s₁; reads = g.reads ++ (read_request victim page bit ∷ []) })
  let s₂ = h.ftl
  ok (record h { ftl = record s₂ { valid_super_page_copies = s₂.valid_super_page_copies + 1 } })

copy_if_valid : Devices → ℕ → ℕ → Gathered → Result Gathered
copy_if_valid d victim page g = do
  b ← or_panic (lookup victim (g.ftl.blocks)) invalid_block
  (has_data, lpns, bit) ← Block.get_page_info b page (Bitset.of_size (g.ftl.io_unit_in_page))
  if has_data
      then copy_page d victim page lpns (if g.ftl.random_tweak then bit else Bitset.set_all bit) g
      else ok g

pub copy_pages : Devices → ℕ → ℕ → ℕ → Gathered → Result Gathered
copy_pages d victim zero page g = ok g
copy_pages d victim (suc n) page g = do
  h ← copy_if_valid d victim page g
  copy_pages d victim n (suc page) h

-- The request that erases a victim.
abbrev erase_request : Ftl → ℕ → PalRequest
erase_request s victim = record {
  block_index = victim;
  page_index = 0;
  io_flag = Bitset.set_all (Bitset.of_size s.io_unit_in_page);
}

pub gather : Devices → List ℕ → Gathered → Result Gathered
gather d [] g = ok g
gather d (victim ∷ vs) g = do
  b ← or_panic (lookup victim (g.ftl.blocks)) invalid_block
  h ← copy_pages d victim (g.ftl.pages_in_block) 0 g
  gather d vs (record h { erases = h.erases ++ (erase_request (h.ftl) victim ∷ []) })

-- The gathered requests all begin at one tick; the result is the latest end.
pub run_all : Devices → (PalRequest → Command) → List PalRequest → ℕ → ℕ → Ftl → ℕ × Ftl
run_all d kind [] begin finished s = (finished, s)
run_all d kind (r ∷ rs) begin finished s =
    let (t, s₁) = issue d s (kind r) begin in run_all d kind rs begin (max finished t) s₁

pub erase_all : Devices → List PalRequest → ℕ → ℕ → Ftl → Result (ℕ × Ftl)
erase_all d [] begin finished s = ok (finished, s)
erase_all d (r ∷ rs) begin finished s = do
  (t, s₁) ← erase_internal d s r begin
  erase_all d rs begin (max finished t) s₁

collect : Devices → List ℕ → Ftl → ℕ → Result (ℕ × Ftl)
unfolding gather run_all erase_all
collect d victims s tick = do
  g ← gather d victims (record { ftl = s; tick = tick; reads = []; writes = []; erases = [] })
  let (read_done, s₁) = run_all d pal_read g.reads g.tick tick (g.ftl)
  let (write_done, s₂) = run_all d pal_write g.writes read_done tick s₁
  (erase_done, s₃) ← erase_all d g.erases read_done tick s₂
  ok (issue d s₃ (compute cpu_do_garbage_collection) (max write_done erase_done))

-- `doGarbageCollection`.
unfoldable pub do_garbage_collection : Devices → List ℕ → Ftl → ℕ → Result (ℕ × Ftl)
unfolding collect
do_garbage_collection d [] s tick = ok (tick, s)
do_garbage_collection d (v ∷ vs) s tick = collect d (v ∷ vs) s tick
