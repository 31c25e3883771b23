-- ===== src/Icl/Cache/Clean.antt =====
-- icl/generic_cache.cc: what a read marks for eviction is not dirty.
use testing.Common.{
  ℕ, zero, suc, ◌/◌, List, [], ◌∷◌, Bool, true, false, ◌&&◌, none, some, if◌then◌else◌, ◌==◌, ◌≡◌,
  refl, ap, ◌∙◌, sym, subst, ◌⊎◌, inl, inr, Bool-cases, Option-cases,
}
use testing.Ftl.State.{Request}
use testing.Icl.Cache.{
  Line, Config, Cache, Command, Finish, ftl_write, issue, line_at, put_line, unit_request,
}
use testing.Icl.Cache.Lookup.{
  calc_set_index, calc_io_position, get_empty_way, get_valid_way, evict_function,
}
use testing.Icl.Cache.Evict.{
  pointer_at, put_pointer, write_back, evicted_line, evict_one, evict_columns, evict_rows,
}
use testing.Icl.Cache.Read.{Fill, make_room, claimed_line, find_room}
use testing.Icl.Cache.Lines.{
  line_at-put_line, pointer_at-put_pointer, line_at_self, pointer_at-put_line, line_at-put_pointer,
  put_line-put_pointer,
}

-- The requests that were written to flash, newest first.
unfoldable pub ftl_writes : List Command → List Request
ftl_writes [] = []
ftl_writes (ftl_write req ∷ rest) = req ∷ ftl_writes rest
ftl_writes (_ ∷ rest) = ftl_writes rest

-- What is marked for eviction is not dirty.
unfoldable pub IsClean : Cache → Type 0
IsClean s = (at p : ℕ × ℕ) → pointer_at s at ≡ some p → (line_at s p).dirty ≡ false

pub record IsQuiet (s t : Cache) : Type 0 where
  pub wrote : ftl_writes t.issued ≡ ftl_writes s.issued
  pub clean : IsClean t

-- A line that is not dirty keeps a clean state clean, and lets its place be marked.
pub put_line-IsClean :
    (s : Cache) (at : ℕ × ℕ) (line : Line)
    → line.dirty ≡ false
    → IsClean s
    → IsClean (put_line at line s)
unfolding IsClean
put_line-IsClean s at line d h b p e = elim (line_at-put_line s at p line) [
  | inl g ↦ ap (λ l. l.dirty) g ∙ h b p (sym (pointer_at-put_line s at b line) ∙ e)
  | inr (_, g) ↦ ap (λ l. l.dirty) g ∙ d
]

pub put_pointer-IsClean :
    (s : Cache) (pos at : ℕ × ℕ)
    → (line_at s at).dirty ≡ false
    → IsClean s
    → IsClean (put_pointer pos (some at) s)
unfolding IsClean
put_pointer-IsClean s pos at d h b p e = elim (pointer_at-put_pointer s pos b (some at)) [
  | inl g ↦ ap (λ l. l.dirty) (line_at-put_pointer s pos p (some at)) ∙ h b p (sym g ∙ e)
  | inr (_, g) ↦
      let same : at ≡ p = cc in
      ap (λ l. l.dirty) (line_at-put_pointer s pos p (some at))
      ∙ subst (λ q. (line_at s q).dirty ≡ false) same d
]

pub drop_pointer-IsClean : (s : Cache) (pos : ℕ × ℕ) → IsClean s → IsClean (put_pointer pos none s)
unfolding IsClean
drop_pointer-IsClean s pos h b p e = elim (pointer_at-put_pointer s pos b none) [
  | inl g ↦ ap (λ l. l.dirty) (line_at-put_pointer s pos p none) ∙ h b p (sym g ∙ e)
  | inr (_, g) ↦ cc
]

pub written-clean :
    (s : Cache) (at : ℕ × ℕ) (line : Line)
    → line.dirty ≡ false
    → (line_at (put_line at line s) at).dirty ≡ false
written-clean s at line d = elim (line_at_self s at line) [
  | inl e ↦ ap (λ l. l.dirty) e ∙ d
  | inr e ↦ ap (λ l. l.dirty) e
]

pub marked-IsClean :
    (s : Cache) (pos at : ℕ × ℕ) (line : Line)
    → line.dirty ≡ false
    → IsClean s
    → IsClean (put_line at line (put_pointer pos (some at) s))
marked-IsClean s pos at line d h =
    subst IsClean (sym (put_line-put_pointer s at pos line (some at))) (
      put_pointer-IsClean (put_line at line s) pos at (written-clean s at line d)
        (put_line-IsClean s at line d h))

pub IsMarked : (s t : Cache) (at : ℕ × ℕ) → Type 0
IsMarked s t at = (t ≡ s) ⊎ ((pos : ℕ × ℕ) × (t ≡ put_pointer pos (some at) s))

pub make_room-IsMarked :
    (c : Config) (index tick : ℕ) (s : Cache)
    → IsMarked s (make_room c index tick s).1 (index, (make_room c index tick s).0.0)
unfolding make_room IsMarked
make_room-IsMarked c index tick s =
    either (get_empty_way c s index tick) _
      (Bool-cases ((get_empty_way c s index tick).0 == c.way_size))
  where
    victim : ℕ → ℕ × ℕ
    victim begin_at = evict_function c s index begin_at

    either :
        (r : ℕ × ℕ) (b : Bool)
        → (b ≡ true) ⊎ (b ≡ false)
        → let made : (ℕ × ℕ) × Cache =
            if b
            then (
              victim r.1,
              if (line_at s (index, (victim r.1).0)).dirty
                  then put_pointer
                      (calc_io_position c (line_at s (index, (victim r.1).0)).tag)
                      (some (index, (victim r.1).0))
                      s
                  else s,
            )
            else (r, s) in
          IsMarked s made.1 (index, made.0.0)
    either r true h = elim (Bool-cases (line_at s (index, (victim r.1).0)).dirty) [
      | inl d ↦ rw d (inr (_, refl))
      | inr d ↦ rw d (inl refl)
    ]
    either r false h = inl refl

pub taken-IsQuiet :
    (s t : Cache) (at : ℕ × ℕ) (line : Line)
    → line.dirty ≡ false
    → IsClean s
    → IsMarked s t at
    → IsQuiet s (put_line at line t)
unfolding IsMarked put_line put_pointer
taken-IsQuiet s t at line d h (inl e) =
    rw e (record { wrote = refl; clean = put_line-IsClean s at line d h })
taken-IsQuiet s t at line d h (inr (pos, e)) =
    rw e (record { wrote = refl; clean = marked-IsClean s pos at line d h })

pub IsQuiet-trans : {s t u : Cache} → IsQuiet s t → IsQuiet t u → IsQuiet s u
IsQuiet-trans p q = record { wrote = q.wrote ∙ p.wrote; clean = q.clean }

pub find_room-IsQuiet :
    (c : Config) (tick count lca : ℕ) (r : List Fill × ℕ × Cache)
    → IsClean r.2
    → IsQuiet r.2 (find_room c tick count lca r).2
unfolding find_room claimed_line
find_room-IsQuiet c tick zero lca r h = record { wrote = refl; clean = h }
find_room-IsQuiet c tick (suc count) lca (fills, finished, s) h =
    elim (Bool-cases ((get_valid_way c s lca tick).0 == c.way_size)) [
      | inl e ↦
          rw (e, find_room)
            (let index = calc_set_index c lca in
              let made = make_room c index (get_valid_way c s lca tick).1 s in
              let q =
                taken-IsQuiet s made.1 (index, made.0.0)
                  (claimed_line made.0.1 (line_at made.1 (index, made.0.0))) refl h
                  (make_room-IsMarked c index (get_valid_way c s lca tick).1 s) in
              IsQuiet-trans q (find_room-IsQuiet c tick count (suc lca) (_, _, _) q.clean))
      | inr e ↦ rw (e, find_room) (find_room-IsQuiet c tick count (suc lca) (fills, finished, s) h)
    ]

-- A clean line that is evicted is not written.
pub write_back-clean :
    (finish : Finish) (c : Config) (tick row : ℕ) (line : Line) (s : Cache)
    → line.dirty ≡ false
    → write_back finish c tick row line s ≡ (tick, s)
unfolding write_back
write_back-clean finish c tick row line s d = skip line.valid line.dirty d
  where
    skip :
        (v b : Bool)
        → b ≡ false
        → (if v && b
            then issue finish
                (ftl_write (unit_request c (line.tag / c.line_count_in_super_page) row))
                tick
                s
            else (tick, s))
          ≡ (tick, s)
    skip v true e = cc
    skip true false e = refl
    skip false false e = refl

pub evicted-IsQuiet :
    (s t : Cache) (at p : ℕ × ℕ) (line : Line)
    → line.dirty ≡ false
    → IsClean s
    → t ≡ s
    → IsQuiet s (put_pointer at none (put_line p line t))
unfolding put_pointer put_line
evicted-IsQuiet s t at p line d h e = rw e (record {
  wrote = refl;
  clean = drop_pointer-IsClean (put_line p line s) at (put_line-IsClean s p line d h);
})

pub evict_one-IsQuiet :
    (finish : Finish) (c : Config) (tick : ℕ) (flush : Bool) (at : ℕ × ℕ) (r : ℕ × Cache)
    → IsClean r.1
    → IsQuiet r.1 (evict_one finish c tick flush at r).1
unfolding evict_one evicted_line IsClean
evict_one-IsQuiet finish c tick flush at (finished, s) h = elim (Option-cases (pointer_at s at)) [
  | inl e ↦ rw (e, evict_one) (record { wrote = refl; clean = h })
  | inr (p, e) ↦
      rw (e, evict_one)
        (evicted-IsQuiet s _ at p _ refl h
          (ap (λ r. r.1) (write_back-clean finish c tick at.0 (line_at s p) s (h at p e))))
]

pub evict_columns-IsQuiet :
    (finish : Finish) (c : Config) (tick : ℕ) (flush : Bool) (row count col : ℕ) (r : ℕ × Cache)
    → IsClean r.1
    → IsQuiet r.1 (evict_columns finish c tick flush row count col r).1
unfolding evict_columns
evict_columns-IsQuiet finish c tick flush row zero col r h = record { wrote = refl; clean = h }
evict_columns-IsQuiet finish c tick flush row (suc count) col r h =
    let q = evict_one-IsQuiet finish c tick flush (row, col) r h in
    IsQuiet-trans q (evict_columns-IsQuiet finish c tick flush row count (suc col) _ q.clean)

pub evict_rows-IsQuiet :
    (finish : Finish) (c : Config) (tick : ℕ) (flush : Bool) (count row : ℕ) (r : ℕ × Cache)
    → IsClean r.1
    → IsQuiet r.1 (evict_rows finish c tick flush count row r).1
unfolding evict_rows
evict_rows-IsQuiet finish c tick flush zero row r h = record { wrote = refl; clean = h }
evict_rows-IsQuiet finish c tick flush (suc count) row r h =
    let q = evict_columns-IsQuiet finish c tick flush row c.parallel_io 0 r h in
    IsQuiet-trans q (evict_rows-IsQuiet finish c tick flush count (suc row) _ q.clean)
