-- ===== src/Icl/Cache/Written.antt =====
-- icl/generic_cache.cc: a page that was written is found afterwards.
use testing.Common.{
  ℕ, ◌<◌, ◌≤◌, [], length, get_or, set, All, All-get_or, get_or-set, Bool, true, false,
  if◌then◌else◌, ◌==◌, ltb, ok, ◌≡◌, ◌≢◌, refl, ap, ◌∙◌, sym, subst, arith, ◌⊎◌, inl, inr,
  ℕ_discrete, dec_lt, ==-refl, ne→==,
}
use testing.Hil.Request.{IclRequest}
use testing.Icl.Cache.{
  Line, empty_line, Config, Cache, Finish, issue, put_line, ways_of, compute_write,
}
use testing.Icl.Cache.Lookup.{calc_set_index, get_empty_way, get_valid_way, max_tick}
use testing.Icl.Cache.Write.{
  written_line, write_line, write_cached, write_through, count_write, write,
}
use testing.Icl.Cache.Room.{IsEmptied, get_empty_way-IsFound}
use testing.Icl.Cache.Search.{holds, get_valid_way_lem}

-- The lines fill their table: `set_size` sets of `way_size` ways.
pub record IsShaped (c : Config) (s : Cache) : Type 0 where
  pub sets : length s.lines ≡ c.set_size
  pub ways : All (λ set_lines. length set_lines ≡ c.way_size) s.lines

ways_of-length :
    (c : Config) (s : Cache) (i : ℕ)
    → IsShaped c s
    → i < c.set_size
    → length (ways_of s i) ≡ c.way_size
unfolding ways_of
ways_of-length c s i h lt =
    All-get_or (λ l. length l ≡ c.way_size) s.lines i [] h.ways (omega (arith, h.sets))

-- A line of the table that was written is there.
line_at_inside :
    (c : Config) (s : Cache) (i j : ℕ) (line : Line)
    → IsShaped c s
    → i < c.set_size
    → j < c.way_size
    → get_or (ways_of (put_line (i, j) line s) i) j empty_line ≡ line
unfolding ways_of put_line
line_at_inside c s i j line h set_in way_in =
    let outer =
      get_or-set s.lines i i (set (get_or s.lines i []) j line) [] (omega (arith, h.sets)) in
    let inner =
      get_or-set (get_or s.lines i []) j j line empty_line
        (subst (λ n. j < n) (sym (ways_of-length c s i h set_in)) way_in) in
    ap (λ l. get_or l j empty_line)
      (outer
        ∙ ap (λ b. if b then set (get_or s.lines i []) j line else get_or s.lines i []) (==-refl i))
    ∙ inner
    ∙ ap (λ b. if b then line else get_or (get_or s.lines i []) j empty_line) (==-refl j)

set_index-in : (c : Config) (lca : ℕ) → 1 ≤ c.set_size → calc_set_index c lca < c.set_size
unfolding calc_set_index
set_index-in c lca h = omega arith

-- The search finds a page that some way of its set holds.
found_within :
    (c : Config) (s : Cache) (lca tick j : ℕ)
    → holds lca (get_or (ways_of s (calc_set_index c lca)) j empty_line) ≡ true
    → j < c.way_size
    → (get_valid_way c s lca tick).0 < c.way_size
found_within c s lca tick j h small =
    let first = get_valid_way_lem c s lca tick in
    elim (dec_lt j (get_valid_way c s lca tick).0) [
      | yes lt ↦ absurd (true-ne (sym h ∙ first.before j lt))
      | no ne ↦ omega (arith, ne)
    ]
  where
    true-ne : true ≢ false
    true-ne e = cc

-- The page `slpn` stands in a way of its set, dirty if the data was less than a line.
pub record IsStored (c : Config) (t : Cache) (slpn : ℕ) (dirty : Bool) : Type 0 where
  pub way : ℕ
  pub way_in : way < c.way_size
  pub when : ℕ
  pub stored :
      get_or (ways_of t (calc_set_index c slpn)) way empty_line ≡ written_line slpn when dirty

pub IsStored-found :
    (c : Config) (t : Cache) (slpn : ℕ) (dirty : Bool) (tick : ℕ)
    → IsStored c t slpn dirty
    → (get_valid_way c t slpn tick).0 < c.way_size
unfolding written_line
IsStored-found c t slpn dirty tick h =
    found_within c t slpn tick h.way (ap (holds slpn) h.stored ∙ ==-refl slpn) h.way_in

write_line-IsStored :
    (finish : Finish) (c : Config) (req : IclRequest) (j : ℕ) (dirty : Bool) (flash tick : ℕ)
    (s : Cache)
    → IsShaped c s
    → calc_set_index c req.icl_range.slpn < c.set_size
    → j < c.way_size
    → IsStored c
        (write_line finish req (calc_set_index c req.icl_range.slpn, j) dirty flash tick s).1
        req.icl_range.slpn
        dirty
unfolding write_line issue ways_of
write_line-IsStored finish c req j dirty flash tick s h set_in way_in = record {
  way = j;
  way_in = way_in;
  when = _;
  stored = line_at_inside c s (calc_set_index c req.icl_range.slpn) j _ h set_in way_in;
}

-- There is room if the page is cached, or a way of its set is free, and was filled last before the
-- largest tick.
unfoldable pub HasRoom : Config → Cache → (slpn : ℕ) → Type 0
HasRoom c s slpn =
    let lines = ways_of s (calc_set_index c slpn) in
    ((j : ℕ) × (j < c.way_size) × (holds slpn (get_or lines j empty_line) ≡ true))
    ⊎ ((j : ℕ) × (j < c.way_size) × IsEmptied max_tick (get_or lines j empty_line))

-- What the searches answer when there is room.
searches :
    (c : Config) (s : Cache) (slpn tick : ℕ)
    → IsShaped c s
    → calc_set_index c slpn < c.set_size
    → HasRoom c s slpn
    → ((get_valid_way c s slpn tick).0 < c.way_size)
      ⊎ ((get_empty_way c s (calc_set_index c slpn) (get_valid_way c s slpn tick).1).0 < c.way_size)
unfolding HasRoom
searches c s slpn tick h set_in (inl (j, lt, e)) = inl (found_within c s slpn tick j e lt)
searches c s slpn tick h set_in (inr (j, lt, e)) =
    let full = ways_of-length c s (calc_set_index c slpn) h set_in in
    let free =
      get_empty_way-IsFound c s (calc_set_index c slpn) (get_valid_way c s slpn tick).1 j
        (omega (arith, full)) e in
    inr (omega (arith, full, free.at, free.inside))

write_cached-IsStored :
    (finish : Finish) (c : Config) (req : IclRequest) (dirty : Bool) (flash tick : ℕ) (s : Cache)
    → IsShaped c s
    → 1 ≤ c.set_size
    → HasRoom c s req.icl_range.slpn
    → (done : ℕ) × (t : Cache) × (write_cached finish c req dirty flash tick s ≡ ok (true, done, t))
      × IsStored c t req.icl_range.slpn dirty
unfolding write_cached
write_cached-IsStored finish c req dirty flash tick s h some_set room =
    let slpn = req.icl_range.slpn in
    let index = calc_set_index c slpn in
    let set_in : index < c.set_size = set_index-in c slpn some_set in
    let full = ways_of-length c s index h set_in in
    let found = get_valid_way c s slpn tick in
    let free = get_empty_way c s index found.1 in
    elim (ℕ_discrete found.0 c.way_size) [
      | no ne ↦
          let within = (get_valid_way_lem c s slpn tick).within in
          let r = write_line finish req (index, found.0) dirty flash found.1 s in
          (
            r.0,
            r.1,
            rw (ne→== found.0 c.way_size ne, write_cached) refl,
            write_line-IsStored finish c req found.0 dirty flash found.1 s h set_in
                (omega (arith, full, within, ne)),
          )
      | yes e ↦
          let free_in : free.0 < c.way_size = elim (searches c s slpn tick h set_in room) [
            | inl lt ↦ absurd (omega (arith, e, lt))
            | inr lt ↦ lt
          ] in
          let r = write_line finish req (index, free.0) dirty flash free.1 s in
          (
            r.0,
            r.1,
            rw
                (
                  ap (λ n. n == c.way_size) e ∙ ==-refl c.way_size,
                  ne→== free.0 c.way_size (λ q. omega (arith, q, free_in)),
                  write_cached,
                )
                refl,
            write_line-IsStored finish c req free.0 dirty flash free.1 s h set_in free_in,
          )
    ]

-- Writing through changes no line.
write_through-keeps :
    (finish : Finish) (c : Config) (req : IclRequest) (dirty : Bool) (slpn tick : ℕ) (s : Cache)
    → IsShaped c s
    → HasRoom c s slpn
    → IsShaped c (write_through finish c req dirty tick s).1
      × HasRoom c (write_through finish c req dirty tick s).1 slpn
unfolding write_through issue HasRoom ways_of
write_through-keeps finish c req true slpn tick s h room =
    (record { sets = h.sets; ways = h.ways }, room)
write_through-keeps finish c req false slpn tick s h room =
    (record { sets = h.sets; ways = h.ways }, room)

-- The last command and the count change no line.
counted-IsStored :
    (finish : Finish) (c : Config) (hit : Bool) (done slpn : ℕ) (dirty : Bool) (t : Cache)
    → IsStored c t slpn dirty
    → IsStored c (count_write hit (issue finish compute_write done t).1) slpn dirty
unfolding count_write issue ways_of
counted-IsStored finish c hit done slpn dirty t h = record {
  way = h.way;
  way_in = h.way_in;
  when = h.when;
  stored = h.stored;
}

-- On a cache whose lines fill their table of one set or more, with write caching on, and if a
-- valid way of its set holds the page, or a way of it is free and was filled last before the
-- largest tick, `write` succeeds and reports a hit; afterwards a way of the set holds the page,
-- dirty exactly if the data was shorter than a line, and `getValidWay` finds the page.
pub write-IsStored :
    (finish : Finish) (c : Config) (req : IclRequest) (tick : ℕ) (s : Cache)
    → IsShaped c s
    → 1 ≤ c.set_size
    → c.use_write_caching ≡ true
    → HasRoom c s req.icl_range.slpn
    → (done : ℕ) × (t : Cache) × (write finish c req tick s ≡ ok (true, done, t))
      × IsStored c t req.icl_range.slpn (ltb req.icl_length c.line_size)
      × ((later : ℕ) → (get_valid_way c t req.icl_range.slpn later).0 < c.way_size)
unfolding write
write-IsStored finish c req tick s h some_set caching room =
    let slpn = req.icl_range.slpn in
    let dirty = ltb req.icl_length c.line_size in
    let through = write_through finish c req dirty tick s in
    let kept = write_through-keeps finish c req dirty slpn tick s h room in
    let (at, t, run, stored) =
      write_cached-IsStored finish c req dirty through.0 tick through.1 kept.0 some_set kept.1 in
    let counted = counted-IsStored finish c true at slpn dirty t stored in
    let u = count_write true (issue finish compute_write at t).1 in
    (
      (issue finish compute_write at t).0,
      u,
      rw (caching, run, write) refl,
      counted,
      λ later. IsStored-found c u slpn dirty later counted,
    )
