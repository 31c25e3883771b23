-- ===== src/Icl/Cache/Invalid.antt =====
-- icl/generic_cache.cc: which lines `flush` and `trim` give up.
use testing.Common.{
  ℕ, zero, suc, ◌+◌, ◌<◌, ◌≤◌, Bool, true, false, ◌||◌, if◌then◌else◌, ◌≡◌, refl, ap, ◌∙◌, sym,
  subst, arith, inl, inr, Bool-cases, ℕ_discrete,
}
use testing.Ftl.State.{Request}
use testing.Hil.Request.{LpnRange}
use testing.Icl.Cache.{
  Line, Config, Cache, Command, Finish, ftl_write, ftl_trim, issue, line_at, put_line, ways_of,
}
use testing.Icl.Cache.Range.{
  in_range, Pass, pass_line, pass_ways, pass_sets, start_pass, flush, trim,
}
use testing.Icl.Cache.Lines.{line_at-put_line, line_at_self}

-- A line once its range is given up.
unfoldable pub dropped : LpnRange → Line → Line
dropped range line = if in_range range line.tag then record line { valid = false } else line

dropped_idem :
    (range : LpnRange) (line : Line) → dropped range (dropped range line) ≡ dropped range line
unfolding dropped
dropped_idem range line = elim (Bool-cases (in_range range line.tag)) [
  | inl t ↦ rw (t, dropped) (rw (t, dropped) refl)
  | inr f ↦ rw (f, dropped) (rw (f, dropped) refl)
]

dropped-in :
    (range : LpnRange) (line : Line)
    → in_range range line.tag ≡ true
    → dropped range line ≡ record line { valid = false }
unfolding dropped
dropped-in range line e = rw (e, dropped) refl

dropped-out :
    (range : LpnRange) (line : Line) → in_range range line.tag ≡ false → dropped range line ≡ line
unfolding dropped
dropped-out range line e = rw (e, dropped) refl

data IsTouched (range : LpnRange) (s t : Cache) (q : ℕ × ℕ) : Type 0 where
  same : line_at t q ≡ line_at s q → IsTouched range s t q
  gone : line_at t q ≡ dropped range (line_at s q) → IsTouched range s t q

abbrev IsGone : LpnRange → Cache → Cache → ℕ × ℕ → Type 0
IsGone range s t q = line_at t q ≡ dropped range (line_at s q)

module _ (range : LpnRange) (s t u : Cache) (q : ℕ × ℕ) where
  IsTouched-IsGone : IsTouched range s t q → IsGone range t u q → IsGone range s u q
  IsTouched-IsGone (same e) h = h ∙ ap (dropped range) e
  IsTouched-IsGone (gone e) h = h ∙ ap (dropped range) e ∙ dropped_idem range (line_at s q)

  IsGone-IsTouched : IsGone range s t q → IsTouched range t u q → IsGone range s u q
  IsGone-IsTouched h (same e) = e ∙ h
  IsGone-IsTouched h (gone e) = e ∙ ap (dropped range) h ∙ dropped_idem range (line_at s q)

  IsTouched-trans : IsTouched range s t q → IsTouched range t u q → IsTouched range s u q
  IsTouched-trans (same e) (same f) = same (f ∙ e)
  IsTouched-trans (gone e) f = gone (IsGone-IsTouched e f)
  IsTouched-trans (same e) (gone f) = gone (f ∙ ap (dropped range) e)

-- The line at `at` is given up if it is in range.
drop_at : LpnRange → ℕ × ℕ → Cache → Cache
drop_at range at s =
    if in_range range (line_at s at).tag
    then put_line at (record (line_at s at) { valid = false }) s
    else s

drop_at-IsTouched :
    (range : LpnRange) (at q : ℕ × ℕ) (s : Cache) → IsTouched range s (drop_at range at s) q
unfolding drop_at
drop_at-IsTouched range at q s = elim (Bool-cases (in_range range (line_at s at).tag)) [
  | inl t ↦
      rw (t, drop_at)
        (elim (line_at-put_line s at q (record (line_at s at) { valid = false })) [
          | inl e ↦ same e
          | inr (e, f) ↦ gone (
              f
              ∙ subst (λ b. record (line_at s at) { valid = false } ≡ dropped range (line_at s b)) e
                  (sym (dropped-in range (line_at s at) t)))
        ])
  | inr f ↦ rw (f, drop_at) (same refl)
]

drop_at-IsGone :
    (range : LpnRange) (at : ℕ × ℕ) (s : Cache) → IsGone range s (drop_at range at s) at
unfolding drop_at
drop_at-IsGone range at s = elim (Bool-cases (in_range range (line_at s at).tag)) [
  | inl t ↦ rw (t, drop_at) (self t ∙ sym (dropped-in range (line_at s at) t))
  | inr f ↦ rw (f, drop_at) (sym (dropped-out range (line_at s at) f))
]
  where
    off : Line
    off = record (line_at s at) { valid = false }

    self : in_range range (line_at s at).tag ≡ true → line_at (put_line at off s) at ≡ off
    self t = elim (line_at-put_line s at at off) [
      | inr (_, f) ↦ f
      | inl e ↦ elim (line_at_self s at off) [
        | inl f ↦ f
        | inr f ↦ f ∙ ap {A = Line} (λ line. record line { valid = false }) (sym f ∙ e)
      ]
    ]

module _ (finish : Finish) (c : Config) (command : Request → Command) (sends : Line → Bool)
    (range : LpnRange) where
  -- One line of a pass, for the lines that are read afterwards.
  pass_line-drop_at :
      (at q : ℕ × ℕ) (p : Pass)
      → line_at (pass_line finish c command sends range at p).cache q
        ≡ line_at (drop_at range at p.cache) q
  unfolding pass_line drop_at issue line_at put_line ways_of
  pass_line-drop_at at q p = elim (Bool-cases (in_range range (line_at p.cache at).tag)) [
    | inl t ↦ elim (Bool-cases (sends (line_at p.cache at))) [
      | inl u ↦ rw (t, u, pass_line, drop_at) refl
      | inr u ↦ rw (t, u, pass_line, drop_at) refl
    ]
    | inr f ↦ rw (f, pass_line, drop_at) refl
  ]

  pass_line-IsTouched :
      (at q : ℕ × ℕ) (p : Pass)
      → IsTouched range p.cache (pass_line finish c command sends range at p).cache q
  pass_line-IsTouched at q p = along (drop_at-IsTouched range at q p.cache)
    where
      along :
          IsTouched range p.cache (drop_at range at p.cache) q
          → IsTouched range p.cache (pass_line finish c command sends range at p).cache q
      along (same e) = same (pass_line-drop_at at q p ∙ e)
      along (gone e) = gone (pass_line-drop_at at q p ∙ e)

  pass_ways-IsTouched :
      (index count way : ℕ) (q : ℕ × ℕ) (p : Pass)
      → IsTouched range p.cache (pass_ways finish c command sends range index count way p).cache q
  unfolding pass_ways
  pass_ways-IsTouched index zero way q p = same refl
  pass_ways-IsTouched index (suc count) way q p =
      IsTouched-trans range _ _ _ q (pass_line-IsTouched (index, way) q p) (
        pass_ways-IsTouched index count (suc way) q
          (pass_line finish c command sends range (index, way) p))

  pass_ways-IsGone :
      (index count way j : ℕ) (p : Pass)
      → way ≤ j
      → j < way + count
      → IsGone range p.cache
          (pass_ways finish c command sends range index count way p).cache
          (index, j)
  unfolding pass_ways
  pass_ways-IsGone index zero way j p lo hi = absurd (omega arith)
  pass_ways-IsGone index (suc count) way j p lo hi = elim (ℕ_discrete way j) [
    | yes e ↦
        let now =
          pass_line-drop_at (index, way) (index, way) p
          ∙ drop_at-IsGone range (index, way) p.cache in
        subst
          (λ k.
            IsGone range p.cache
              (pass_ways finish c command sends range index (suc count) way p).cache (index, k))
          e
          (IsGone-IsTouched range p.cache
            (pass_line finish c command sends range (index, way) p).cache
            (pass_ways finish c command sends range index (suc count) way p).cache (index, way) now
            (pass_ways-IsTouched index count (suc way) (index, way)
              (pass_line finish c command sends range (index, way) p)))
    | no ne ↦
        IsTouched-IsGone range p.cache (pass_line finish c command sends range (index, way) p).cache
          (pass_ways finish c command sends range index (suc count) way p).cache (index, j)
          (pass_line-IsTouched (index, way) (index, j) p)
          (pass_ways-IsGone index count (suc way) j
            (pass_line finish c command sends range (index, way) p) (omega (arith, ne))
            (omega arith))
  ]

  pass_sets-IsTouched :
      (count index : ℕ) (q : ℕ × ℕ) (p : Pass)
      → IsTouched range p.cache (pass_sets finish c command sends range count index p).cache q
  unfolding pass_sets
  pass_sets-IsTouched zero index q p = same refl
  pass_sets-IsTouched (suc count) index q p =
      IsTouched-trans range _ _ _ q (pass_ways-IsTouched index c.way_size 0 q p) (
        pass_sets-IsTouched count (suc index) q
          (pass_ways finish c command sends range index c.way_size 0 p))

  pass_sets-IsGone :
      (count index i j : ℕ) (p : Pass)
      → index ≤ i
      → i < index + count
      → j < c.way_size
      → IsGone range p.cache (pass_sets finish c command sends range count index p).cache (i, j)
  unfolding pass_sets
  pass_sets-IsGone zero index i j p lo hi small = absurd (omega arith)
  pass_sets-IsGone (suc count) index i j p lo hi small = elim (ℕ_discrete index i) [
    | yes e ↦
        subst
          (λ k.
            IsGone range p.cache (pass_sets finish c command sends range (suc count) index p).cache
              (k, j))
          e
          (IsGone-IsTouched range p.cache
            (pass_ways finish c command sends range index c.way_size 0 p).cache
            (pass_sets finish c command sends range (suc count) index p).cache (index, j)
            (pass_ways-IsGone index c.way_size 0 j p (omega arith) (omega arith))
            (pass_sets-IsTouched count (suc index) (index, j)
              (pass_ways finish c command sends range index c.way_size 0 p)))
    | no ne ↦
        IsTouched-IsGone range p.cache
          (pass_ways finish c command sends range index c.way_size 0 p).cache
          (pass_sets finish c command sends range (suc count) index p).cache (i, j)
          (pass_ways-IsTouched index c.way_size 0 (i, j) p)
          (pass_sets-IsGone count (suc index) i j
            (pass_ways finish c command sends range index c.way_size 0 p) (omega (arith, ne))
            (omega arith) small)
  ]

module _ (finish : Finish) (c : Config) (range : LpnRange) (tick : ℕ) (s : Cache)
    (on : (c.use_read_caching || c.use_write_caching) ≡ true) (i j : ℕ) (set_in : i < c.set_size)
    (way_in : j < c.way_size) where
  -- With caching on, `flush` of a range makes every line whose tag lies in the range invalid, and
  -- keeps the rest of the line, its dirty flag too; every other line is unchanged.
  pub flush_lem : line_at (flush finish c range tick s).1 (i, j) ≡ dropped range (line_at s (i, j))
  unfolding flush start_pass issue line_at ways_of
  flush_lem =
      rw (on, flush)
        (pass_sets-IsGone finish c ftl_write (λ line. line.dirty) range c.set_size 0 i j
          (start_pass c tick s) (omega arith) (omega arith) way_in)

  pub trim_lem : line_at (trim finish c range tick s).1 (i, j) ≡ dropped range (line_at s (i, j))
  unfolding trim start_pass issue line_at ways_of
  trim_lem =
      rw (on, trim)
        (pass_sets-IsGone finish c ftl_trim (λ line. true) range c.set_size 0 i j
          (start_pass c tick s) (omega arith) (omega arith) way_in)
