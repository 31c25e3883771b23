-- ===== src/Icl/Cache/Write.antt =====
-- `GenericCache::write` of icl/generic_cache.cc.
use testing.Common.{
  ℕ, zero, suc, ◌+◌, ◌-◌, ◌*◌, max, List, [], ◌∷◌, Bool, true, false, ◌||◌, none, some, Result, ok,
  panic, corrupted, ◌>>=◌, if◌then◌else◌, ◌==◌, ltb,
}
use testing.Hil.Request.{IclRequest}
use testing.Icl.Cache.{
  Line, Config, Cache, Mode, superpage, all_flash, Pointer, Finish, ftl_write, dram_read,
  dram_write, dram_scheduling, compute_write, issue, note, ways_of, line_at, put_line, request_of,
}
use testing.Icl.Cache.Lookup.{calc_set_index, calc_io_position, get_empty_way, get_valid_way}
use testing.Icl.Cache.Evict.{pointer_at, put_pointer, compare_function, evict_cache}

-- The loop over all lines from `way` of a set: each position gets the oldest of its valid lines.
unfoldable pub mark_ways : Config → (index way : ℕ) → List Line → Cache → Cache
unfolding calc_io_position pointer_at put_pointer compare_function
mark_ways c index way [] s = s
mark_ways c index way (line ∷ rest) s =
    let at = calc_io_position c line.tag in
    mark_ways c index (suc way) rest (
      if line.valid
      then put_pointer at (compare_function c s (pointer_at s at) (some (index, way))) s
      else s)

unfoldable pub mark_sets : Config → (count index : ℕ) → Cache → Cache
unfolding mark_ways ways_of
mark_sets c zero index s = s
mark_sets c (suc count) index s =
    mark_sets c count (suc index) (mark_ways c index 0 (ways_of s index) s)

-- With MODE_SUPERPAGE the oldest line of a row ends in its last column.
unfoldable pub merge_columns : Config → (row count col : ℕ) → Cache → Cache
unfolding pointer_at put_pointer compare_function
merge_columns c row zero col s = s
merge_columns c row (suc count) col s =
    let older = compare_function c s (pointer_at s (row, col)) (pointer_at s (row, suc col)) in
    merge_columns c row count (suc col)
      (put_pointer (row, col) none (put_pointer (row, suc col) older s))

unfoldable pub merge_rows : Config → (count row : ℕ) → Cache → Cache
unfolding merge_columns
merge_rows c zero row s = s
merge_rows c (suc count) row s =
    merge_rows c count (suc row) (merge_columns c row (c.parallel_io - 1) 0 s)

-- Whether a line of the set is among those to evict.
unfoldable pub names_set : Config → Cache → ℕ → Pointer → Bool
unfolding calc_set_index line_at
names_set c s index none = false
names_set c s index (some p) = calc_set_index c (line_at s p).tag == index

unfoldable pub have_columns : Config → Cache → (index row count col : ℕ) → Bool
unfolding names_set pointer_at
have_columns c s index row zero col = false
have_columns c s index row (suc count) col =
    names_set c s index (pointer_at s (row, col)) || have_columns c s index row count (suc col)

unfoldable pub have_rows : Config → Cache → (index count row : ℕ) → Bool
unfolding have_columns
have_rows c s index zero row = false
have_rows c s index (suc count) row =
    have_columns c s index row c.parallel_io 0 || have_rows c s index count (suc row)

-- The oldest valid line of a set.
unfoldable pub oldest_valid : Config → Cache → (index way : ℕ) → List Line → Pointer → Pointer
unfolding compare_function
oldest_valid c s index way [] p = p
oldest_valid c s index way (line ∷ rest) p =
    oldest_valid c s index (suc way) rest
      (if line.valid then compare_function c s p (some (index, way)) else p)

unfoldable pub is_superpage : Mode → Bool
is_superpage superpage = true
is_superpage all_flash = false

-- All lines that leave to make room in the set `index`.
unfoldable pub select_lines : Config → ℕ → Cache → Cache
unfolding mark_sets merge_rows is_superpage have_rows oldest_valid ways_of calc_io_position line_at
    put_pointer
select_lines c index s =
    let marked = mark_sets c c.set_size 0 s in
    let merged =
      if is_superpage c.evict_mode
      then merge_rows c c.line_count_in_super_page 0 marked
      else marked in
    if have_rows c merged index c.line_count_in_super_page 0
    then merged
    else elim (oldest_valid c merged index 0 (ways_of merged index) none) [
      | none ↦ merged
      | some p ↦ put_pointer (calc_io_position c (line_at merged p).tag) (some p) merged
    ]

-- The line that takes the data.
unfoldable pub written_line : (slpn at : ℕ) → Bool → Line
written_line slpn at dirty = record {
  tag = slpn;
  last_accessed = at;
  inserted_at = at;
  dirty = dirty;
  valid = true;
}

-- There is no room: lines are evicted first.
unfoldable pub write_evicting : Finish → Config → IclRequest → ℕ → Cache → Result (ℕ × Cache)
unfolding calc_set_index select_lines evict_cache get_empty_way issue written_line put_line
write_evicting finish c req tick s =
    let slpn = req.icl_range.slpn in
    let index = calc_set_index c slpn in
    let at = tick + c.latency * c.set_size * c.way_size * 8 in
    let t = evict_cache finish c at true (select_lines c index s) in
    let (way, then_at) = get_empty_way c t index at in
    if way == c.way_size
    then panic corrupted
    else (let (done, u) = issue finish (dram_write (some (index, way)) req.icl_length) then_at t in
        ok (done, put_line (index, way) (written_line slpn done true) u))

-- The line `at` takes the data, a hit or an empty way. On a hit it has this tag already.
unfoldable pub write_line :
    Finish → IclRequest → ℕ × ℕ → Bool → (flash tick : ℕ) → Cache → ℕ × Cache
unfolding line_at put_line written_line issue
write_line finish req at dirty flash tick s =
    let ready = max tick (line_at s at).inserted_at in
    issue finish (dram_write (some at) req.icl_length) ready
      (put_line at (written_line req.icl_range.slpn (if dirty then ready else flash) dirty) s)

unfoldable pub write_cached :
    Finish → Config → IclRequest → Bool → (flash tick : ℕ) → Cache → Result (Bool × ℕ × Cache)
unfolding calc_set_index get_valid_way get_empty_way write_line write_evicting
write_cached finish c req dirty flash tick s =
    let slpn = req.icl_range.slpn in
    let index = calc_set_index c slpn in
    let (way, at) = get_valid_way c s slpn tick in
    let (free, then_at) = get_empty_way c s index at in
    if way == c.way_size
    then (if free == c.way_size
        then (write_evicting finish c req then_at s >>= λ r. ok (false, r.0, r.1))
        else (let (done, u) = write_line finish req (index, free) dirty flash then_at s in
            ok (true, done, u)))
    else (let (done, u) = write_line finish req (index, way) dirty flash at s in ok (true, done, u))

unfoldable pub count_write : Bool → Cache → Cache
count_write hit s =
    let n = s.stat in
    record s {
      stat = record n {
        write_requests = n.write_requests + 1;
        write_hits = if hit then n.write_hits + 1 else n.write_hits;
      };
    }

-- Data of a whole line is written through at once.
unfoldable pub write_through : Finish → Config → IclRequest → Bool → ℕ → Cache → ℕ × Cache
unfolding issue request_of
write_through finish c req dirty tick s =
    if dirty then (tick, s) else issue finish (ftl_write (request_of c req)) tick s

-- Without write caching.
unfoldable pub write_uncached :
    Finish → Config → IclRequest → Bool → (flash tick : ℕ) → Cache → ℕ × Cache
unfolding issue note request_of
write_uncached finish c req dirty flash tick s =
    let (at, t) =
      (if dirty then issue finish (ftl_write (request_of c req)) tick s else (flash, s)) in
    let (done, u) =
      issue finish (dram_read none req.icl_length) at (note (dram_scheduling false) t) in
    (done, note (dram_scheduling true) u)

-- `write`: whether the data went to the cache without an eviction, the tick, and the state.
unfoldable pub write : Finish → Config → IclRequest → ℕ → Cache → Result (Bool × ℕ × Cache)
unfolding write_through write_cached write_uncached count_write issue
write finish c req tick s =
    let dirty = ltb req.icl_length c.line_size in
    let (flash, t) = write_through finish c req dirty tick s in
    if c.use_write_caching
    then (write_cached finish c req dirty flash tick t >>= λ r.
        let (hit, at, u) = r in
        let (done, v) = issue finish compute_write at u in ok (hit, done, count_write hit v))
    else (let (done, u) = write_uncached finish c req dirty flash tick t in
        ok (false, done, count_write false u))
