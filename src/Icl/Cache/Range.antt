-- ===== src/Icl/Cache/Range.antt =====
-- `flush`, `trim` and `format` of icl/generic_cache.cc, which work on a range of pages.
use testing.Common.{
  List, [], ◌∷◌, ℕ, zero, suc, ◌+◌, ◌-◌, ◌*◌, ◌/◌, ◌%◌, ◌^◌, max, Bool, true, false, ◌&&◌, ◌||◌,
  if◌then◌else◌, ◌==◌, ltb, leb,
}
use testing.Bitset.{Bitset, of_size, set_at}
use testing.Ftl.State.{Request}
use testing.Hil.Request.{LpnRange}
use testing.Icl.Cache.{
  Line, Config, Cache, Command, Finish, ftl_write, ftl_trim, ftl_format, compute_flush,
  compute_trim, compute_format, issue, line_at, put_line,
}
use testing.Icl.Cache.Lookup.{calc_set_index, get_valid_way}

-- `line.tag >= range.slpn && line.tag < range.slpn + range.nlp`; a line that is not valid has a tag too.
unfoldable pub in_range : LpnRange → ℕ → Bool
in_range range tag = leb range.slpn tag && ltb tag ((range.slpn + range.nlp) % 2 ^ 64)

-- The tick, the finishing tick, the I/O flag, which gathers the units of all lines so far, and the state.
pub record Pass : Type 0 where
  pub tick : ℕ
  pub finished : ℕ
  pub flag : Bitset
  pub cache : Cache

-- One line: if it is in range and `sends` allows, a request goes out; in range it becomes invalid.
unfoldable pub pass_line :
    Finish → Config → (Request → Command) → (Line → Bool) → LpnRange → ℕ × ℕ → Pass → Pass
unfolding in_range line_at put_line issue
pass_line finish c command sends range at p =
    let line = line_at p.cache at in
    let now = p.tick + c.latency * 8 in
    if in_range range line.tag
    then (if sends line
        then (let flag = set_at p.flag (line.tag % c.line_count_in_super_page) true in
            let req : Request = record {
              lpn = line.tag / c.line_count_in_super_page;
              io_flag = flag;
            } in
            let (done, s) = issue finish (command req) now p.cache in
            record {
              tick = now;
              finished = max p.finished done;
              flag = flag;
              cache = put_line at (record line { valid = false }) s;
            })
        else record p { tick = now; cache = put_line at (record line { valid = false }) p.cache })
    else record p { tick = now }

-- `count` ways of a set, from `way`.
unfoldable pub pass_ways :
    Finish
    → Config
    → (Request → Command)
    → (Line → Bool)
    → LpnRange
    → (index count way : ℕ) → Pass
    → Pass
unfolding pass_line
pass_ways finish c command sends range index zero way p = p
pass_ways finish c command sends range index (suc count) way p =
    pass_ways finish c command sends range index count (suc way)
      (pass_line finish c command sends range (index, way) p)

-- `count` sets, from `index`.
unfoldable pub pass_sets :
    Finish
    → Config
    → (Request → Command)
    → (Line → Bool)
    → LpnRange
    → (count index : ℕ) → Pass
    → Pass
unfolding pass_ways
pass_sets finish c command sends range zero index p = p
pass_sets finish c command sends range (suc count) index p =
    pass_sets finish c command sends range count (suc index)
      (pass_ways finish c command sends range index c.way_size 0 p)

unfoldable pub start_pass : Config → ℕ → Cache → Pass
start_pass c tick s = record {
  tick = tick;
  finished = tick;
  flag = of_size c.line_count_in_super_page;
  cache = s;
}

-- `flush`: dirty lines are written.
unfoldable pub flush : Finish → Config → LpnRange → ℕ → Cache → ℕ × Cache
unfolding pass_sets start_pass issue
flush finish c range tick s =
    if c.use_read_caching || c.use_write_caching
    then (let p =
          pass_sets finish c ftl_write (λ line. line.dirty) range c.set_size 0
            (start_pass c tick s) in
        issue finish compute_flush (max p.tick p.finished) p.cache)
    else (tick, s)

-- `trim`: the lines of the range are trimmed in flash; a page without a line is not.
unfoldable pub trim : Finish → Config → LpnRange → ℕ → Cache → ℕ × Cache
unfolding pass_sets start_pass issue
trim finish c range tick s =
    if c.use_read_caching || c.use_write_caching
    then (let p =
          pass_sets finish c ftl_trim (λ line. true) range c.set_size 0 (start_pass c tick s) in
        issue finish compute_trim (max p.tick p.finished) p.cache)
    else (tick, s)

-- The loop of `format`: the cached pages become invalid.
unfoldable pub drop_pages : Config → (count lpn : ℕ) → ℕ × Cache → ℕ × Cache
unfolding calc_set_index get_valid_way line_at put_line
drop_pages c zero lpn r = r
drop_pages c (suc count) lpn (tick, s) =
    let (way, at) = get_valid_way c s lpn tick in
    let place : ℕ × ℕ = (calc_set_index c lpn, way) in
    drop_pages c count ((lpn + 1) % 2 ^ 64) (
      at,
      if way == c.way_size
          then s
          else put_line place (record (line_at s place) { valid = false }) s,
    )

-- `format`; the page count wraps around below 1.
unfoldable pub format : Finish → Config → LpnRange → ℕ → Cache → ℕ × Cache
unfolding drop_pages issue
format finish c range tick s =
    let (at, t) =
      (if c.use_read_caching || c.use_write_caching
        then drop_pages c range.nlp range.slpn (tick, s)
        else (tick, s)) in
    let pages = ((range.nlp + 2 ^ 64 - 1) % 2 ^ 64 / c.line_count_in_super_page + 1) % 2 ^ 64 in
    let (formatted, u) =
      issue finish (ftl_format (range.slpn / c.line_count_in_super_page) pages) at t in
    issue finish compute_format formatted u

-- `getStatValues` and `resetStatValues`.
unfoldable get_stat_values : Cache → List ℕ
get_stat_values s =
    let n = s.stat in n.read_requests ∷ n.read_hits ∷ n.write_requests ∷ n.write_hits ∷ []

unfoldable reset_stat_values : Cache → Cache
reset_stat_values s = record s {
  stat = record { read_requests = 0; write_requests = 0; read_hits = 0; write_hits = 0 };
}
