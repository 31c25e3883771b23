-- ===== src/Ftl/State.antt =====
-- The state of `PageMapping` (ftl/page_mapping.hh) and what it asks of the devices below it.
-- The PAL, the DRAM and the CPU model decide at what tick a command ends. They keep state of their
-- own, so the end is any function of the commands issued before, the command and its begin.
-- Request identifiers are only passed on and are left out.
use testing.Common.{ℕ, Bool, List, ◌∷◌}
use testing.Bitset.{Bitset}
use testing.Block.{Block}

-- `FTL::Parameter`, the fields that the mapping reads.
pub record Param : Type 0 where
  pub total_physical_blocks : ℕ
  pub total_logical_blocks : ℕ
  pub pages_in_block : ℕ
  pub io_unit_in_page : ℕ
  pub page_count_to_max_perf : ℕ

-- `FTL::Request` and `PAL::Request`.
pub record Request : Type 0 where
  pub lpn : ℕ
  pub io_flag : Bitset

pub record PalRequest : Type 0 where
  pub block_index : ℕ
  pub page_index : ℕ
  pub io_flag : Bitset

-- The functions whose latency the CPU model charges.
pub data CpuCall : Type 0 where
  cpu_read : CpuCall
  cpu_write : CpuCall
  cpu_trim : CpuCall
  cpu_format : CpuCall
  cpu_read_internal : CpuCall
  cpu_write_internal : CpuCall
  cpu_trim_internal : CpuCall
  cpu_erase_internal : CpuCall
  cpu_select_victim_block : CpuCall
  cpu_do_garbage_collection : CpuCall

pub data Command : Type 0 where
  pal_read : PalRequest → Command
  pal_write : PalRequest → Command
  pal_erase : PalRequest → Command
  dram_read : ℕ → Command
  dram_write : ℕ → Command
  compute : CpuCall → Command

pub data GcMode : Type 0 where
  gc_mode_0 : GcMode
  gc_mode_1 : GcMode

pub data EvictPolicy : Type 0 where
  policy_greedy : EvictPolicy
  policy_cost_benefit : EvictPolicy

-- The devices, the configuration, and the computations in floating point:
-- `below_threshold n` is `freeBlockRatio() < gcThreshold` at `n` free blocks, `reclaim_target n` the
-- count of GC_MODE_1, `cost_benefit` the weight of a block as the bit pattern of its float, which
-- orders non-negative floats; `sort` is std::sort by weight.
pub record Devices : Type 0 where
  pub finish : List Command → Command → ℕ → ℕ
  pub below_threshold : ℕ → Bool
  pub bad_block_threshold : ℕ
  pub gc_mode : GcMode
  pub evict_policy : EvictPolicy
  pub reclaim_block : ℕ
  pub reclaim_target : ℕ → ℕ
  pub cost_benefit : ℕ → ℕ → ℕ → ℕ
  pub sort : List (ℕ × ℕ) → List (ℕ × ℕ)

abbrev pub Mapping : Type 0
Mapping = ℕ × ℕ

pub record Ftl : Type 0 where
  pub param : Param
  pub open param use *
  pub table : List (ℕ × List Mapping)
  pub blocks : List (ℕ × Block)
  pub free_blocks : List Block
  pub n_free_blocks : ℕ
  pub last_free_block : List ℕ
  pub last_free_block_io_map : Bitset
  pub last_free_block_index : ℕ
  pub reclaim_more : Bool
  pub random_tweak : Bool
  pub bitset_size : ℕ
  pub gc_count : ℕ
  pub reclaimed_blocks : ℕ
  pub valid_super_page_copies : ℕ
  pub valid_page_copies : ℕ
  pub issued : List Command

-- A command begins at `tick`; the result is the tick at which it ends.
unfoldable pub issue : Devices → Ftl → Command → ℕ → ℕ × Ftl
issue d s c tick = (d.finish s.issued c tick, record s { issued = c ∷ s.issued })
