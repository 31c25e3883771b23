-- ===== src/Icl/Cache/NoWrite.antt =====
-- icl/generic_cache.cc: a read, with all that it evicts, writes nothing to flash.
use testing.Common.{
  ℕ, ◌+◌, ◌-◌, ◌%◌, ◌^◌, List, [], ◌∷◌, Bool, true, false, ◌&&◌, none, some, ◌==◌, ◌≡◌, refl, ◌∙◌,
  sym, inl, inr, Bool-cases,
}
use testing.Hil.Request.{IclRequest}
use testing.Icl.Cache.{Config, Cache, Finish, issue, note, ways_of, line_at, put_line}
use testing.Icl.Cache.Lookup.{calc_set_index, get_valid_way}
use testing.Icl.Cache.Evict.{pointer_at, evict_cache}
use testing.Icl.Cache.Read.{
  Fill, find_room, read_pages, begin_ahead, page_count, fill_pages, end_ahead, read_flash, read_hit,
  detect_sequential, read_cached, count_read, read,
}
use testing.Icl.Cache.Clean.{ftl_writes, IsClean, IsQuiet, find_room-IsQuiet, evict_rows-IsQuiet}

-- The lines that were read go to their places.
read_pages-wrote :
    (finish : Finish) (c : Config) (slpn tick : ℕ) (fills : List Fill) (r : ℕ × Cache)
    → ftl_writes (read_pages finish c slpn tick fills r).1.issued ≡ ftl_writes r.1.issued
unfolding read_pages issue put_line ftl_writes
read_pages-wrote finish c slpn tick [] r = refl
read_pages-wrote finish c slpn tick ((lca, at) ∷ rest) (finished, s) =
    read_pages-wrote finish c slpn tick rest (_, _)

fill_pages-wrote :
    (finish : Finish) (c : Config) (slpn rounds tick : ℕ) (s : Cache)
    → IsClean s
    → ftl_writes (fill_pages finish c slpn rounds tick s).1.issued ≡ ftl_writes s.issued
unfolding fill_pages evict_cache
fill_pages-wrote finish c slpn rounds tick s h =
    let found = find_room c tick rounds slpn ([], tick, s) in
    let q = find_room-IsQuiet c tick rounds slpn ([], tick, s) h in
    read_pages-wrote finish c slpn found.1 found.0 (_, _)
    ∙ (evict_rows-IsQuiet finish c found.1 true c.line_count_in_super_page 0 (found.1, found.2)
        q.clean).wrote
    ∙ q.wrote

begin_ahead-IsQuiet :
    (slpn count : ℕ) (s : Cache) → IsClean s → IsQuiet s (begin_ahead slpn count s)
unfolding begin_ahead note ftl_writes IsClean pointer_at line_at ways_of
begin_ahead-IsQuiet slpn count s h = elim (Bool-cases s.detect.enabled) [
  | inl t ↦ rw (t, begin_ahead) (record { wrote = refl; clean = h })
  | inr f ↦ rw (f, begin_ahead) (record { wrote = refl; clean = h })
]

end_ahead-wrote :
    (ahead hit : Bool) (arrived : ℕ) (r : ℕ × Cache)
    → ftl_writes (end_ahead ahead hit arrived r).1.issued ≡ ftl_writes r.1.issued
unfolding end_ahead note ftl_writes
end_ahead-wrote true hit arrived r = refl
end_ahead-wrote false hit arrived r = refl

read_flash-wrote :
    (finish : Finish) (c : Config) (slpn : ℕ) (hit : Bool) (arrived tick : ℕ) (s : Cache)
    → IsClean s
    → ftl_writes (read_flash finish c slpn hit arrived tick s).1.issued ≡ ftl_writes s.issued
unfolding read_flash
read_flash-wrote finish c slpn hit arrived tick s h =
    let q = begin_ahead-IsQuiet slpn (page_count c s) s h in
    end_ahead-wrote s.detect.enabled hit arrived _
    ∙ fill_pages-wrote finish c slpn ((slpn + page_count c s) % 2 ^ 64 - slpn) tick
        (begin_ahead slpn (page_count c s) s) q.clean
    ∙ q.wrote

-- Between the operations nothing is marked for eviction.
abbrev pub IsIdle : Cache → Type 0
IsIdle s = (at : ℕ × ℕ) → pointer_at s at ≡ none

IsIdle-IsClean : (s : Cache) → IsIdle s → IsClean s
unfolding IsClean
IsIdle-IsClean s idle at p e = absurd (none-ne (sym (idle at) ∙ e))
  where
    none-ne : {q : ℕ × ℕ} → none ≡ some q → ⊥
    none-ne h = cc

read_hit-wrote :
    (finish : Finish) (req : IclRequest) (at : ℕ × ℕ) (tick : ℕ) (s : Cache)
    → IsIdle s
    → (ftl_writes (read_hit finish req at tick s).1.issued ≡ ftl_writes s.issued)
      × IsIdle (read_hit finish req at tick s).1
unfolding read_hit issue put_line ftl_writes pointer_at
read_hit-wrote finish req at tick s idle = (refl, idle)

detect_sequential-wrote :
    (c : Config) (req : IclRequest) (s : Cache)
    → IsIdle s
    → (ftl_writes (detect_sequential c req s).issued ≡ ftl_writes s.issued)
      × IsIdle (detect_sequential c req s)
unfolding detect_sequential pointer_at
detect_sequential-wrote c req s idle = elim (Bool-cases c.use_read_prefetch) [
  | inl t ↦ rw (t, detect_sequential) (refl, idle)
  | inr f ↦ rw (f, detect_sequential) (refl, idle)
]

read_cached-wrote :
    (finish : Finish) (c : Config) (req : IclRequest) (tick : ℕ) (s : Cache)
    → IsIdle s
    → ftl_writes (read_cached finish c req tick s).2.issued ≡ ftl_writes s.issued
unfolding read_cached
read_cached-wrote finish c req tick s idle =
    let slpn = req.icl_range.slpn in
    let t = detect_sequential c req s in
    let started = detect_sequential-wrote c req s idle in
    let found = get_valid_way c t slpn tick in
    elim (Bool-cases (found.0 == c.way_size)) [
      | inl e ↦
          rw (e, read_cached)
            (read_flash-wrote finish c slpn false tick found.1 t (IsIdle-IsClean t started.1)
              ∙ started.0)
      | inr e ↦
          let at : ℕ × ℕ = (calc_set_index c slpn, found.0) in
          let hit = read_hit-wrote finish req at found.1 t started.1 in
          let u = (read_hit finish req at found.1 t).1 in
          elim (Bool-cases (c.use_read_prefetch && slpn == u.prefetch_trigger)) [
            | inl f ↦
                rw (e, f, read_cached)
                  (read_flash-wrote finish c u.last_prefetched true _ found.1 u
                      (IsIdle-IsClean u hit.1)
                    ∙ hit.0
                    ∙ started.0)
            | inr f ↦ rw (e, f, read_cached) (hit.0 ∙ started.0)
          ]
    ]

-- When nothing is marked for eviction before it, `read` writes nothing to flash, on a hit, a miss,
-- a read-ahead or a prefetch, although it evicts lines to make room and also if those were dirty.
pub ftl_writes-read :
    (finish : Finish) (c : Config) (req : IclRequest) (tick : ℕ) (s : Cache)
    → ((at : ℕ × ℕ) → pointer_at s at ≡ none)
    → ftl_writes (read finish c req tick s).2.issued ≡ ftl_writes s.issued
unfolding read issue count_read ftl_writes
ftl_writes-read finish c req tick s idle = elim (Bool-cases c.use_read_caching) [
  | inl t ↦ rw (t, read) (read_cached-wrote finish c req tick s idle)
  | inr f ↦ rw (f, read) refl
]
