-- ===== src/Icl/Cache/Lookup.antt =====
-- The searches of icl/generic_cache.cc over the ways of a set.
use testing.Common.{
  ℕ, suc, ◌+◌, ◌-◌, ◌*◌, ◌/◌, ◌%◌, ◌^◌, List, [], ◌∷◌, true, false, ◌&&◌, if◌then◌else◌, ◌==◌, ltb,
  leb,
}
use testing.Hil.Request.{IclRequest}
use testing.Icl.Cache.{Line, Policy, fifo, least_recently_used, Config, Cache, Detect, ways_of}

-- `calcSetIndex`.
unfoldable pub calc_set_index : Config → ℕ → ℕ
calc_set_index c lca = lca % c.set_size

-- `calcIOPosition`: the row and the column.
unfoldable pub calc_io_position : Config → ℕ → ℕ × ℕ
calc_io_position c lca =
    let tmp = lca % c.line_count_in_max_io in
    (tmp % c.line_count_in_super_page, tmp / c.line_count_in_super_page)

abbrev pub max_tick : ℕ
max_tick = 2 ^ 64 - 1

-- The loop of `getEmptyWay` from way `i`: the way found, and the tick.
unfoldable pub empty_from : ℕ → List Line → (i found least tick : ℕ) → ℕ × ℕ
empty_from latency [] i found least tick = (found, tick)
empty_from latency (line ∷ rest) i found least tick =
    if line.valid
    then empty_from latency rest (suc i) found least tick
    else if ltb line.inserted_at least
    then empty_from latency rest (suc i) i line.inserted_at (tick + latency * 8)
    else empty_from latency rest (suc i) found least (tick + latency * 8)

-- `getEmptyWay`: the way that was emptied first, or the number of ways.
unfoldable pub get_empty_way : Config → Cache → (index tick : ℕ) → ℕ × ℕ
unfolding empty_from ways_of
get_empty_way c s index tick = empty_from c.latency (ways_of s index) 0 c.way_size max_tick tick

-- The loop of `getValidWay` from way `i`.
unfoldable pub valid_from : ℕ → ℕ → List Line → (i tick : ℕ) → ℕ × ℕ
valid_from latency lca [] i tick = (i, tick)
valid_from latency lca (line ∷ rest) i tick =
    if line.valid && line.tag == lca
    then (i, tick + latency * 8)
    else valid_from latency lca rest (suc i) (tick + latency * 8)

-- `getValidWay`: the way that holds the line, or the number of ways.
unfoldable pub get_valid_way : Config → Cache → (lca tick : ℕ) → ℕ × ℕ
unfolding valid_from ways_of calc_set_index
get_valid_way c s lca tick = valid_from c.latency lca (ways_of s (calc_set_index c lca)) 0 tick

-- The time that the policy orders lines by.
unfoldable pub age : Policy → Line → ℕ
age fifo line = line.inserted_at
age least_recently_used line = line.last_accessed

-- The loop of `evictFunction` from way `i`.
unfoldable pub oldest_from : ℕ → Policy → List Line → (i found least tick : ℕ) → ℕ × ℕ
unfolding age
oldest_from latency policy [] i found least tick = (found, tick)
oldest_from latency policy (line ∷ rest) i found least tick =
    if ltb (age policy line) least
    then oldest_from latency policy rest (suc i) i (age policy line) (tick + latency * 8)
    else oldest_from latency policy rest (suc i) found least (tick + latency * 8)

-- `evictFunction`.
unfoldable pub evict_function : Config → Cache → (index tick : ℕ) → ℕ × ℕ
unfolding oldest_from ways_of
evict_function c s index tick = oldest_from c.latency c.policy (ways_of s index) 0 0 max_tick tick

-- `checkSequential`.
unfoldable pub check_sequential : Config → IclRequest → Detect → Detect
check_sequential c req d =
    let follows =
      (d.last_slpn * c.line_size + d.last_offset + d.last_length) % 2 ^ 64
      == (req.icl_range.slpn * c.line_size + req.icl_offset) % 2 ^ 64 in
    let hits = (d.hit_counter + 1) % 2 ^ 32 in
    let bytes = (d.access_counter + d.last_offset + d.last_length) % 2 ^ 32 in
    record {
      enabled =
          if follows
          then (if d.enabled then true else leb c.prefetch_io_count hits && c.ratio_met bytes)
          else false;
      last_slpn = req.icl_range.slpn;
      last_offset = req.icl_offset;
      last_length = req.icl_length;
      hit_counter = if follows then (if d.enabled then d.hit_counter else hits) else 0;
      access_counter = if follows then (if d.enabled then d.access_counter else bytes) else 0;
    }
