-- ===== src/Icl/Cache/Evict.antt =====
-- The eviction of icl/generic_cache.cc: `compareFunction` and `evictCache`.
use testing.Common.{
  ℕ, zero, suc, ◌/◌, max, [], get_or, set, Bool, false, ◌&&◌, none, some, if◌then◌else◌, ltb,
}
use testing.Icl.Cache.{
  Line, Config, Cache, Pointer, Finish, ftl_write, issue, line_at, put_line, unit_request,
}
use testing.Icl.Cache.Lookup.{age}

-- `evictData[row][col]`.
unfoldable pub pointer_at : Cache → ℕ × ℕ → Pointer
pointer_at s at = get_or (get_or s.evict at.0 []) at.1 none

unfoldable pub put_pointer : ℕ × ℕ → Pointer → Cache → Cache
put_pointer at p s = record s { evict = set s.evict at.0 (set (get_or s.evict at.0 []) at.1 p) }

-- `compareFunction`: the older of two lines; of two lines of one age, the second.
unfoldable pub compare_function : Config → Cache → Pointer → Pointer → Pointer
unfolding age line_at
compare_function c s none q = q
compare_function c s (some p) none = some p
compare_function c s (some p) (some q) =
    if ltb (age c.policy (line_at s p)) (age c.policy (line_at s q)) then some p else some q

-- The line once it is evicted: written back at `at`, and given up if `flush`.
unfoldable pub evicted_line : Bool → ℕ → Line → Line
evicted_line flush at line = record {
  tag = if flush then 0 else line.tag;
  last_accessed = at;
  inserted_at = at;
  dirty = false;
  valid = if flush then false else line.valid;
}

-- A line that is valid and dirty is written back: the tick at which that ends.
unfoldable pub write_back : Finish → Config → (tick row : ℕ) → Line → Cache → ℕ × Cache
unfolding unit_request issue
write_back finish c tick row line s =
    if line.valid && line.dirty
    then issue finish (ftl_write (unit_request c (line.tag / c.line_count_in_super_page) row)) tick
        s
    else (tick, s)

-- One round of `evictCache`: the finishing tick so far, and the state.
unfoldable pub evict_one : Finish → Config → (tick : ℕ) → Bool → ℕ × ℕ → ℕ × Cache → ℕ × Cache
unfolding pointer_at put_pointer line_at put_line write_back evicted_line
evict_one finish c tick flush at (finished, s) = elim (pointer_at s at) [
  | none ↦ (finished, s)
  | some p ↦
      let line = line_at s p in
      let (begin_at, t) = write_back finish c tick at.0 line s in
      (max finished begin_at, put_pointer at none (put_line p (evicted_line flush begin_at line) t))
]

-- `count` columns of a row, from `col`.
unfoldable pub evict_columns :
    Finish → Config → (tick : ℕ) → Bool → (row count col : ℕ) → ℕ × Cache → ℕ × Cache
unfolding evict_one
evict_columns finish c tick flush row zero col r = r
evict_columns finish c tick flush row (suc count) col r =
    evict_columns finish c tick flush row count (suc col)
      (evict_one finish c tick flush (row, col) r)

-- `count` rows, from `row`.
unfoldable pub evict_rows :
    Finish → Config → (tick : ℕ) → Bool → (count row : ℕ) → ℕ × Cache → ℕ × Cache
unfolding evict_columns
evict_rows finish c tick flush zero row r = r
evict_rows finish c tick flush (suc count) row r =
    evict_rows finish c tick flush count (suc row)
      (evict_columns finish c tick flush row c.parallel_io 0 r)

-- `evictCache`. The tick is passed by value, so the caller does not see when it finishes.
unfoldable pub evict_cache : Finish → Config → (tick : ℕ) → Bool → Cache → Cache
unfolding evict_rows
evict_cache finish c tick flush s =
    (evict_rows finish c tick flush c.line_count_in_super_page 0 (tick, s)).1
