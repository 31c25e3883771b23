-- ===== src/Icl/Cache/Read.antt =====
-- `GenericCache::read` of icl/generic_cache.cc.
use testing.Common.{
  ℕ, zero, suc, ◌+◌, ◌-◌, ◌/◌, ◌%◌, ◌^◌, max, List, [], ◌∷◌, ◌++◌, Bool, true, false, ◌&&◌, ◌||◌,
  not, none, some, if◌then◌else◌, ◌==◌,
}
use testing.Hil.Request.{IclRequest}
use testing.Icl.Cache.{
  Line, Config, Cache, Mode, superpage, all_flash, Finish, ftl_read, dram_read, dram_write,
  dram_scheduling, compute_read, issue, note, line_at, put_line, unit_request, request_of,
}
use testing.Icl.Cache.Lookup.{
  calc_set_index, calc_io_position, get_empty_way, get_valid_way, evict_function, check_sequential,
}
use testing.Icl.Cache.Evict.{put_pointer, evict_cache}

-- A page to read, and the set and way that it goes to.
abbrev pub Fill : Type 0
Fill = ℕ × (ℕ × ℕ)

-- The way for a page, and a dirty line that stands there marked for eviction.
unfoldable pub make_room : Config → (index tick : ℕ) → Cache → (ℕ × ℕ) × Cache
unfolding get_empty_way evict_function line_at put_pointer calc_io_position
make_room c index tick s =
    let (way, begin_at) = get_empty_way c s index tick in
    if way == c.way_size
    then (let (victim, then_at) = evict_function c s index begin_at in
        let line = line_at s (index, victim) in
        (
          (victim, then_at),
          if line.dirty
              then put_pointer (calc_io_position c line.tag) (some (index, victim)) s
              else s,
        ))
    else ((way, begin_at), s)

-- The line once it is taken for a page that is to be read.
unfoldable pub claimed_line : ℕ → Line → Line
claimed_line at line = record line {
  last_accessed = at;
  inserted_at = at;
  dirty = false;
  valid = true;
}

-- The loop that looks for the pages from `lca`, `count` of them, that are not cached.
unfoldable pub find_room :
    Config → (tick count lca : ℕ) → List Fill × ℕ × Cache → List Fill × ℕ × Cache
unfolding get_valid_way make_room claimed_line put_line line_at calc_set_index
find_room c tick zero lca r = r
find_room c tick (suc count) lca (fills, finished, s) =
    let (way, begin_at) = get_valid_way c s lca tick in
    let index = calc_set_index c lca in
    let ((taken, at), t) = make_room c index begin_at s in
    find_room c tick count (suc lca) (
      if way == c.way_size
      then (
        fills ++ ((lca, (index, taken)) ∷ []),
        max finished at,
        put_line (index, taken) (claimed_line at (line_at t (index, taken))) t,
      )
      else (fills, finished, s))

-- The loop that reads the pages. The tick of the page that was asked for is the one that counts.
unfoldable pub read_pages : Finish → Config → (slpn tick : ℕ) → List Fill → ℕ × Cache → ℕ × Cache
unfolding unit_request issue line_at put_line
read_pages finish c slpn tick [] r = r
read_pages finish c slpn tick ((lca, at) ∷ rest) (finished, s) =
    let req =
      unit_request c (lca / c.line_count_in_super_page) (lca % c.line_count_in_super_page) in
    let (read_at, t) = issue finish (ftl_read req) tick s in
    let (stored_at, u) =
      issue finish (dram_write (some at) c.line_size) (line_at s at).inserted_at t in
    let begin_at = max read_at stored_at in
    read_pages finish c slpn tick rest (
      if lca == slpn then begin_at else finished,
      put_line at
          (record (line_at u at) { last_accessed = begin_at; inserted_at = begin_at; tag = lca }) u,
    )

unfoldable pub is_all : Mode → Bool
is_all superpage = false
is_all all_flash = true

-- How many pages are read.
unfoldable pub page_count : Config → Cache → ℕ
unfolding is_all
page_count c s =
    if s.detect.enabled
    then (if is_all c.prefetch_mode || not c.super_page
        then c.line_count_in_max_io
        else c.line_count_in_super_page)
    else 1

-- A read-ahead turns the scheduling of the DRAM off and sets the position of the next prefetch.
unfoldable pub begin_ahead : (slpn count : ℕ) → Cache → Cache
unfolding note
begin_ahead slpn count s =
    if s.detect.enabled
    then record (note (dram_scheduling false) s) {
      prefetch_trigger = (slpn + count / 2) % 2 ^ 64;
      last_prefetched = (slpn + count) % 2 ^ 64;
    }
    else s

-- Room is made, what stood there is evicted, and the pages are read.
unfoldable pub fill_pages : Finish → Config → (slpn rounds tick : ℕ) → Cache → ℕ × Cache
unfolding find_room evict_cache read_pages
fill_pages finish c slpn rounds tick s =
    let (fills, found_at, t) = find_room c tick rounds slpn ([], tick, s) in
    read_pages finish c slpn found_at fills (found_at, evict_cache finish c found_at true t)

-- A read-ahead turns the scheduling on again, and a prefetch takes no time of the request.
unfoldable pub end_ahead : (ahead hit : Bool) → (arrived : ℕ) → ℕ × Cache → ℕ × Cache
unfolding note
end_ahead ahead hit arrived (finished, s) =
    if ahead
    then (if hit then arrived else finished, note (dram_scheduling true) s)
    else (finished, s)

-- The part from the label on: the pages from `slpn` are read from flash. `hit` is a prefetch.
unfoldable pub read_flash :
    Finish → Config → (slpn : ℕ) → (hit : Bool) → (arrived tick : ℕ) → Cache → ℕ × Cache
unfolding page_count begin_ahead fill_pages end_ahead
read_flash finish c slpn hit arrived tick s =
    let count = page_count c s in
    let rounds = (slpn + count) % 2 ^ 64 - slpn in
    end_ahead s.detect.enabled hit arrived
      (fill_pages finish c slpn rounds tick (begin_ahead slpn count s))

unfoldable pub detect_sequential : Config → IclRequest → Cache → Cache
unfolding check_sequential
detect_sequential c req s =
    if c.use_read_prefetch then record s { detect = check_sequential c req s.detect } else s

-- A hit: the line is waited for and read.
unfoldable pub read_hit : Finish → IclRequest → ℕ × ℕ → ℕ → Cache → ℕ × Cache
unfolding issue line_at put_line
read_hit finish req at tick s =
    let line = line_at s at in
    let ready = max tick line.inserted_at in
    issue finish (dram_read (some at) req.icl_length) ready
      (put_line at (record line { last_accessed = ready }) s)

-- With read caching: whether it hit, the tick, and the state.
unfoldable pub read_cached : Finish → Config → IclRequest → ℕ → Cache → Bool × ℕ × Cache
unfolding detect_sequential get_valid_way read_hit read_flash calc_set_index
read_cached finish c req tick s =
    let slpn = req.icl_range.slpn in
    let t = detect_sequential c req s in
    let (way, at) = get_valid_way c t slpn tick in
    if way == c.way_size
    then (let (done, v) = read_flash finish c slpn false tick at t in (false, done, v))
    else (let (hit_at, u) = read_hit finish req (calc_set_index c slpn, way) at t in
        if c.use_read_prefetch && slpn == u.prefetch_trigger
        then (let (done, v) = read_flash finish c u.last_prefetched true hit_at at u in
            (true, done, v))
        else (true, hit_at, u))

unfoldable pub count_read : Bool → Cache → Cache
count_read hit s =
    let n = s.stat in
    record s {
      stat = record n {
        read_requests = n.read_requests + 1;
        read_hits = if hit then n.read_hits + 1 else n.read_hits;
      };
    }

-- `read`: whether it hit, the tick at which it ends, and the state.
unfoldable pub read : Finish → Config → IclRequest → ℕ → Cache → Bool × ℕ × Cache
unfolding read_cached count_read issue request_of
read finish c req tick s =
    if c.use_read_caching
    then (let (hit, at, t) = read_cached finish c req tick s in
        let (done, u) = issue finish compute_read at t in (hit, done, count_read hit u))
    else (let (at, t) = issue finish (dram_write none req.icl_length) tick s in
        let (done, u) = issue finish (ftl_read (request_of c req)) at t in
        (false, done, count_read false u))
