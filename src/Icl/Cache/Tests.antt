-- ===== src/Icl/Cache/Tests.antt =====
-- Runs of icl/generic_cache.cc.
use testing.Common.{
  ℕ, zero, suc, ◌+◌, ◌<◌, ◌≤◌, [], length, get_or, Bool, true, false, ltb, Result, ok, none, ◌≡◌,
  refl, inr, arith,
}
use testing.Hil.Request.{IclRequest}
use testing.Icl.Cache.{empty_line, Config, Cache, Finish, superpage, fifo, create, line_at, ways_of}
use testing.Icl.Cache.Lookup.{age, evict_function, get_valid_way, calc_set_index, max_tick}
use testing.Icl.Cache.Evict.{pointer_at}
use testing.Icl.Cache.Read.{read}
use testing.Icl.Cache.Write.{write}
use testing.Icl.Cache.Range.{flush}
use testing.Icl.Cache.Search.{IsFirstHolding, get_valid_way_lem, evict_function_lem}
use testing.Icl.Cache.Clean.{ftl_writes}
use testing.Icl.Cache.NoWrite.{ftl_writes-read}
use testing.Icl.Cache.Invalid.{dropped, flush_lem}
use testing.Icl.Cache.Written.{IsShaped, IsStored, HasRoom, write-IsStored}

-- Every command takes 3 ticks.
abbrev finish : Finish
finish before c tick = tick + 3

-- Two sets of one way, of lines of 4096 bytes.
abbrev small : Config
small = record {
  parallel_io = 2;
  line_count_in_super_page = 1;
  line_count_in_max_io = 2;
  line_size = 4096;
  set_size = 2;
  way_size = 1;
  prefetch_io_count = 1;
  ratio_met = λ n. false;
  use_read_caching = true;
  use_write_caching = true;
  use_read_prefetch = false;
  super_page = false;
  prefetch_mode = superpage;
  evict_mode = superpage;
  policy = fifo;
  latency = 1;
}

abbrev page : ℕ → ℕ → IclRequest
page slpn bytes = record {
  icl_id = 1;
  icl_sub_id = 1;
  icl_offset = 0;
  icl_length = bytes;
  icl_range = record { slpn = slpn; nlp = 1 };
  icl_user = 0;
  icl_prio = 0;
}

fresh-IsShaped : IsShaped small (create small)
unfolding create
fresh-IsShaped = record { sets = refl; ways = (refl, (refl, tt)) }

fresh_idle : (at : ℕ × ℕ) → pointer_at (create small) at ≡ none
unfolding create pointer_at
fresh_idle (zero, zero) = refl
fresh_idle (zero, suc zero) = refl
fresh_idle (zero, suc (suc j)) = refl
fresh_idle (suc i, j) = refl

ftl_writes-read_example :
    ftl_writes (read finish small (page 0 4096) 10 (create small)).2.issued
    ≡ ftl_writes (create small).issued
ftl_writes-read_example = ftl_writes-read finish small (page 0 4096) 10 (create small) fresh_idle

fresh-HasRoom : HasRoom small (create small) 0
unfolding create HasRoom calc_set_index ways_of
fresh-HasRoom = inr (0, omega arith, record { free = refl; before = omega arith })

write-IsStored_example :
    (done : ℕ) × (t : Cache) × (write finish small (page 0 512) 10 (create small)
      ≡ ok (true, done, t))
    × IsStored small t 0 (ltb 512 4096)
    × ((later : ℕ) → (get_valid_way small t 0 later).0 < 1)
write-IsStored_example =
    write-IsStored finish small (page 0 512) 10 (create small) fresh-IsShaped (omega arith) refl
      fresh-HasRoom

flush_example :
    line_at (flush finish small (record { slpn = 0; nlp = 4 }) 10 (create small)).1 (1, 0)
    ≡ dropped (record { slpn = 0; nlp = 4 }) (line_at (create small) (1, 0))
flush_example =
    flush_lem finish small (record { slpn = 0; nlp = 4 }) 10 (create small) refl 1 0 (omega arith)
      (omega arith)

get_valid_way_example :
    IsFirstHolding 0
      (ways_of (create small) (calc_set_index small 0))
      (get_valid_way small (create small) 0 10).0
get_valid_way_example = get_valid_way_lem small (create small) 0 10

some_way : 1 ≤ length (ways_of (create small) 0)
unfolding create ways_of
some_way = omega arith

young : age fifo (get_or (ways_of (create small) 0) 0 empty_line) < max_tick
unfolding create ways_of age
young = omega arith

evict_function_example :
    let way = (evict_function small (create small) 0 10).0 in
    (way < length (ways_of (create small) 0))
    × ((j : ℕ)
        → j < length (ways_of (create small) 0)
        → age fifo (get_or (ways_of (create small) 0) way empty_line)
          ≤ age fifo (get_or (ways_of (create small) 0) j empty_line))
evict_function_example = evict_function_lem small (create small) 0 10 some_way young

-- A page that was written in part is lost when a read needs its line: nothing is written to flash, and
-- the page is no longer cached.
after_write : Result (Bool × ℕ × Cache) → Cache
after_write (ok r) = r.2
after_write _ = create small

abbrev lost : Cache
lost =
    (read finish small (page 2 4096) 50
      (after_write (write finish small (page 0 512) 10 (create small)))).2

nothing_written : ftl_writes lost.issued ≡ []
unfolding create read write after_write ftl_writes
nothing_written = refl

not_cached : ((get_valid_way small lost 0 90).0 ≡ 1) × ((get_valid_way small lost 2 90).0 ≡ 1)
unfolding create read write after_write get_valid_way
not_cached = (refl, refl)
