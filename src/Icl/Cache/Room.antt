-- ===== src/Icl/Cache/Room.antt =====
-- `getEmptyWay` of icl/generic_cache.cc: it finds a free way if there is one.
use testing.Common.{
  ℕ, zero, suc, ◌+◌, ◌*◌, ◌<◌, List, [], ◌∷◌, length, get_or, true, false, ltb, lt→ltb, ◌≡◌, arith,
  inl, inr, Bool-cases,
}
use testing.Icl.Cache.{Line, empty_line, Config, Cache, ways_of}
use testing.Icl.Cache.Lookup.{empty_from, get_empty_way, max_tick}
use testing.Icl.Cache.Search.{
  IsFree, no_way, free_way, empty_from-valid, empty_from-free, empty_from-IsFree,
}

-- A line that is free, and was filled last before `least`.
pub record IsEmptied (least : ℕ) (line : Line) : Type 0 where
  pub free : line.valid ≡ false
  pub before : line.inserted_at < least

-- `way` is one of the ways from `i` on, and its line is not valid.
pub record IsFound (lines : List Line) (i way : ℕ) : Type 0 where
  pub offset : ℕ
  pub at : way ≡ i + offset
  pub inside : offset < length lines
  pub free : (get_or lines offset empty_line).valid ≡ false

module _ (line : Line) (rest : List Line) (i way : ℕ) where
  IsFound-later : IsFound rest (suc i) way → IsFound (line ∷ rest) i way
  IsFound-later h = record {
    offset = suc h.offset;
    at = omega (arith, h.at);
    inside = omega (arith, h.inside);
    free = h.free;
  }

  IsFound-here : line.valid ≡ false → IsFree rest (suc i) i way → IsFound (line ∷ rest) i way
  IsFound-here f (no_way e) = record {
    offset = 0;
    at = omega arith;
    inside = omega arith;
    free = f;
  }
  IsFound-here f (free_way k e lt g) = record {
    offset = suc k;
    at = omega arith;
    inside = omega arith;
    free = g;
  }

empty_from-IsFound :
    (latency : ℕ) (lines : List Line) (i found least tick k : ℕ)
    → k < length lines
    → IsEmptied least (get_or lines k empty_line)
    → IsFound lines i (empty_from latency lines i found least tick).0
empty_from-IsFound latency [] i found least tick k lt h = absurd (omega arith)
empty_from-IsFound latency (line ∷ rest) i found least tick zero lt h =
    rw (empty_from-free latency line rest i found least tick true h.free (lt→ltb _ _ h.before)) (
      IsFound-here line rest i _ h.free
        (empty_from-IsFree latency rest (suc i) i line.inserted_at (tick + latency * 8)))
empty_from-IsFound latency (line ∷ rest) i found least tick (suc k) lt h =
    elim (Bool-cases line.valid) [
      | inl t ↦ rw (empty_from-valid latency line rest i found least tick t) (
          IsFound-later line rest i _
            (empty_from-IsFound latency rest (suc i) found least tick k (omega arith) h))
      | inr f ↦ elim (Bool-cases (ltb line.inserted_at least)) [
        | inl t ↦ rw (empty_from-free latency line rest i found least tick true f t) (
            IsFound-here line rest i _ f
              (empty_from-IsFree latency rest (suc i) i line.inserted_at (tick + latency * 8)))
        | inr g ↦ rw (empty_from-free latency line rest i found least tick false f g) (
            IsFound-later line rest i _ (
              empty_from-IsFound latency rest (suc i) found least (tick + latency * 8) k
                (omega arith) h))
      ]
    ]

-- If a line of the set is free, and was filled last before the largest tick, a free way is found.
pub get_empty_way-IsFound :
    (c : Config) (s : Cache) (index tick k : ℕ)
    → k < length (ways_of s index)
    → IsEmptied max_tick (get_or (ways_of s index) k empty_line)
    → IsFound (ways_of s index) 0 (get_empty_way c s index tick).0
unfolding get_empty_way
get_empty_way-IsFound c s index tick k lt h =
    empty_from-IsFound c.latency (ways_of s index) 0 c.way_size max_tick tick k lt h
