-- ===== src/Icl/Cache.antt =====
-- `GenericCache` of icl/generic_cache.cc and .hh: its lines, parameters and state, and the devices that
-- it calls. The random policy, which draws from std::random_device, stays out.
pub mod Lookup
pub mod Evict
pub mod Read
pub mod Write
pub mod Range
pub mod Search
pub mod Room
pub mod Lines
pub mod Clean
pub mod NoWrite
pub mod Invalid
pub mod Written
mod Tests
use testing.Common.{
  ℕ, ◌+◌, ◌-◌, ◌*◌, ◌/◌, ◌%◌, ◌^◌, max, List, [], ◌∷◌, length, get_or, set, replicate, Bool, true,
  false, Option, none, if◌then◌else◌, ◌==◌,
}
use testing.Ftl.State.{Request}
use testing.Bitset.{of_size, set_at}
use testing.Hil.Request.{IclRequest}

pub record Line : Type 0 where
  pub tag : ℕ
  pub last_accessed : ℕ
  pub inserted_at : ℕ
  pub dirty : Bool
  pub valid : Bool

-- `Line()`.
abbrev pub empty_line : Line
empty_line = record { tag = 0; last_accessed = 0; inserted_at = 0; dirty = false; valid = false }

-- What the cache asks of the flash translation layer, the DRAM and the firmware. A line of the DRAM is
-- named by its set and way.
pub data Command : Type 0 where
  ftl_read : Request → Command
  ftl_write : Request → Command
  ftl_trim : Request → Command
  ftl_format : (slpn nlp : ℕ) → Command
  dram_read : Option (ℕ × ℕ) → ℕ → Command
  dram_write : Option (ℕ × ℕ) → ℕ → Command
  dram_scheduling : Bool → Command
  compute_read : Command
  compute_write : Command
  compute_flush : Command
  compute_trim : Command
  compute_format : Command

pub data Policy : Type 0 where
  fifo : Policy
  least_recently_used : Policy

pub data Mode : Type 0 where
  superpage : Mode
  all_flash : Mode

-- The parameters that the constructor reads or computes. `latency` is that of the metadata,
-- `ratio_met` the floating-point test on the bytes of a sequential stream.
pub record Config : Type 0 where
  pub parallel_io : ℕ
  pub line_count_in_super_page : ℕ
  pub line_count_in_max_io : ℕ
  pub line_size : ℕ
  pub set_size : ℕ
  pub way_size : ℕ
  pub prefetch_io_count : ℕ
  pub ratio_met : ℕ → Bool
  pub use_read_caching : Bool
  pub use_write_caching : Bool
  pub use_read_prefetch : Bool
  pub super_page : Bool
  pub prefetch_mode : Mode
  pub evict_mode : Mode
  pub policy : Policy
  pub latency : ℕ

-- The values that the configuration file gives, and `getInfo` of the translation layer.
pub record Settings : Type 0 where
  pub page_size : ℕ
  pub page_count_to_max_perf : ℕ
  pub io_unit_in_page : ℕ
  pub cache_size : ℕ
  pub ways : ℕ
  pub random_io_tweak : Bool
  pub prefetch_count : ℕ
  pub met : ℕ → Bool
  pub read_caching : Bool
  pub write_caching : Bool
  pub read_prefetch : Bool
  pub prefetch_granularity : Mode
  pub evict_granularity : Mode
  pub evict_policy : Policy
  pub cache_latency : ℕ

-- The sizes of the constructor.
unfoldable pub configure : Settings → Config
configure c =
    let own_line = c.page_size / c.io_unit_in_page in
    let line = if c.random_io_tweak then own_line else c.page_size in
    let lines = if c.random_io_tweak then c.io_unit_in_page else 1 in
    record {
      parallel_io = c.page_count_to_max_perf;
      line_count_in_super_page = lines;
      line_count_in_max_io = c.page_count_to_max_perf * lines;
      line_size = line;
      set_size = if c.ways == 0 then 1 else max (c.cache_size / line / c.ways) 1;
      way_size = if c.ways == 0 then max (c.cache_size / line) 1 else c.ways;
      prefetch_io_count = c.prefetch_count;
      ratio_met = c.met;
      use_read_caching = c.read_caching;
      use_write_caching = c.write_caching;
      use_read_prefetch = c.read_prefetch;
      super_page = if own_line == c.page_size then false else true;
      prefetch_mode = c.prefetch_granularity;
      evict_mode = c.evict_granularity;
      policy = c.evict_policy;
      latency = c.cache_latency;
    }

-- `SequentialDetect`, with the fields of `lastRequest` that it reads.
pub record Detect : Type 0 where
  pub enabled : Bool
  pub last_slpn : ℕ
  pub last_offset : ℕ
  pub last_length : ℕ
  pub hit_counter : ℕ
  pub access_counter : ℕ

pub record Stat : Type 0 where
  pub read_requests : ℕ
  pub write_requests : ℕ
  pub read_hits : ℕ
  pub write_hits : ℕ

abbrev pub Pointer : Type 0
Pointer = Option (ℕ × ℕ)

-- `evict` holds the pointers of `evictData`, a row per line of a super page and a column per flash.
pub record Cache : Type 0 where
  pub lines : List (List Line)
  pub evict : List (List Pointer)
  pub detect : Detect
  pub prefetch_trigger : ℕ
  pub last_prefetched : ℕ
  pub stat : Stat
  pub issued : List Command

-- The constructor, with caching on. The prefetched position is not set before it is used.
unfoldable pub create : Config → Cache
create c = record {
  lines = replicate c.set_size (replicate c.way_size empty_line);
  evict = replicate c.line_count_in_super_page (replicate c.parallel_io none);
  detect = record {
    enabled = false;
    last_slpn = 0;
    last_offset = 0;
    last_length = 0;
    hit_counter = 0;
    access_counter = 0;
  };
  prefetch_trigger = 2 ^ 64 - 1;
  last_prefetched = 0;
  stat = record { read_requests = 0; write_requests = 0; read_hits = 0; write_hits = 0 };
  issued = [];
}

-- The tick at which a command ends, given the commands before it, newest first, and its beginning.
abbrev pub Finish : Type 0
Finish = List Command → Command → ℕ → ℕ

unfoldable pub issue : Finish → Command → ℕ → Cache → ℕ × Cache
issue finish c tick s = (finish s.issued c tick, record s { issued = c ∷ s.issued })

-- A command that takes no time.
unfoldable pub note : Command → Cache → Cache
note c s = record s { issued = c ∷ s.issued }

-- `cacheData[set]` and `cacheData[set][way]`.
unfoldable pub ways_of : Cache → ℕ → List Line
ways_of s index = get_or s.lines index []

unfoldable pub line_at : Cache → ℕ × ℕ → Line
unfolding ways_of
line_at s at = get_or (ways_of s at.0) at.1 empty_line

unfoldable pub put_line : ℕ × ℕ → Line → Cache → Cache
unfolding ways_of
put_line at line s = record s { lines = set s.lines at.0 (set (ways_of s at.0) at.1 line) }

-- `FTL::Request(lineCountInSuperPage)`, then the unit of `unit`.
unfoldable pub unit_request : Config → (lpn unit : ℕ) → Request
unit_request c lpn unit = record {
  lpn = lpn;
  io_flag = set_at (of_size c.line_count_in_super_page) unit true;
}

-- `FTL::Request(lineCountInSuperPage, req)`.
unfoldable pub request_of : Config → IclRequest → Request
unfolding unit_request
request_of c req =
    unit_request c (req.icl_range.slpn / c.line_count_in_super_page)
      (req.icl_range.slpn % c.line_count_in_super_page)
