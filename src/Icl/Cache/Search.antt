-- ===== src/Icl/Cache/Search.antt =====
-- icl/generic_cache.cc: which way the searches find.
use testing.Common.{
  ℕ, zero, suc, ◌+◌, ◌*◌, ◌<◌, ◌≤◌, List, [], ◌∷◌, length, get_or, Bool, true, false, ◌&&◌,
  if◌then◌else◌, ◌==◌, ltb, ◌≡◌, refl, ap, ap₂, ◌∙◌, subst, arith, ltb→lt, inl, inr, Bool-cases,
}
use native.Mathlib.Nat.{le_refl}
use testing.Icl.Cache.{Line, empty_line, Policy, Config, Cache, ways_of}
use testing.Icl.Cache.Lookup.{
  empty_from, valid_from, get_valid_way, age, oldest_from, evict_function, calc_set_index, max_tick,
}

-- A line that a search for `lca` stops at.
abbrev pub holds : ℕ → Line → Bool
holds lca line = line.valid && line.tag == lca

-- `way` is the first way of a set that holds `lca`, or there is none and it is their number.
pub record IsFirstHolding (lca : ℕ) (lines : List Line) (way : ℕ) : Type 0 where
  pub within : way ≤ length lines
  pub found : way < length lines → holds lca (get_or lines way empty_line) ≡ true
  pub before : (j : ℕ) → j < way → holds lca (get_or lines j empty_line) ≡ false

each_cons :
    (P : Line → Type 0) (line : Line) (rest : List Line) (n : ℕ)
    → P line
    → ((j : ℕ) → j < n → P (get_or rest j empty_line))
    → (j : ℕ) → j < suc n
    → P (get_or (line ∷ rest) j empty_line)
each_cons P line rest n here below zero h = here
each_cons P line rest n here below (suc j) h = below j (omega arith)

valid_from-shift :
    (latency lca : ℕ) (lines : List Line) (i tick : ℕ)
    → (way : ℕ) × ((valid_from latency lca lines i tick).0 ≡ i + way) × IsFirstHolding lca lines way
unfolding valid_from
valid_from-shift latency lca [] i tick = (
  0,
  omega arith,
  record {
    within = omega arith;
    found = λ h. absurd (omega arith);
    before = λ j h. absurd (omega arith);
  },
)
valid_from-shift latency lca (line ∷ rest) i tick = elim (Bool-cases (holds lca line)) [
  | inl t ↦ (
    0,
    rw (t, valid_from) (omega arith),
    record { within = omega arith; found = λ h. t; before = λ j h. absurd (omega arith) },
  )
  | inr f ↦
      let (way, e, first) = valid_from-shift latency lca rest (suc i) (tick + latency * 8) in
      (
        suc way,
        rw (f, valid_from) (omega (arith, e)),
        record {
          within = omega (arith, first.within);
          found = λ h. first.found (omega (arith, h));
          before = each_cons (λ l. holds lca l ≡ false) line rest way f first.before;
        },
      )
]

-- The loop of the eviction functions keeps `found`, if no age is below the bound, or finds the least.
data Oldest (policy : Policy) (lines : List Line) (i found least way : ℕ) : Type 0 where
  kept :
      way ≡ found
      → ((j : ℕ) → j < length lines → least ≤ age policy (get_or lines j empty_line))
      → Oldest policy lines i found least way
  older :
      (k : ℕ)
      → way ≡ i + k
      → k < length lines
      → age policy (get_or lines k empty_line) < least
      → ((j : ℕ)
          → j < length lines
          → age policy (get_or lines k empty_line) ≤ age policy (get_or lines j empty_line))
      → Oldest policy lines i found least way

module _ (policy : Policy) (line : Line) (rest : List Line) (i found least way : ℕ) where
  Oldest-newer :
      least ≤ age policy line
      → Oldest policy rest (suc i) found least way
      → Oldest policy (line ∷ rest) i found least way
  Oldest-newer h (kept e all) =
      kept e (each_cons (λ l. least ≤ age policy l) line rest (length rest) h all)
  Oldest-newer h (older k e lt less all) = older (suc k) (omega arith) (omega arith) less (
      each_cons (λ l. age policy (get_or rest k empty_line) ≤ age policy l) line rest (length rest)
        (omega arith) all)

  Oldest-older :
      age policy line < least
      → Oldest policy rest (suc i) i (age policy line) way
      → Oldest policy (line ∷ rest) i found least way
  Oldest-older h (kept e all) =
      older 0 (omega arith) (omega arith) h
        (each_cons (λ l. age policy line ≤ age policy l) line rest (length rest) (le_refl _) all)
  Oldest-older h (older k e lt less all) = older (suc k) (omega arith) (omega arith) (omega arith) (
      each_cons (λ l. age policy (get_or rest k empty_line) ≤ age policy l) line rest (length rest)
        (omega arith) all)

oldest_from-Oldest :
    (latency : ℕ) (policy : Policy) (lines : List Line) (i found least tick : ℕ)
    → Oldest policy lines i found least (oldest_from latency policy lines i found least tick).0
unfolding oldest_from
oldest_from-Oldest latency policy [] i found least tick = kept refl (λ j h. absurd (omega arith))
oldest_from-Oldest latency policy (line ∷ rest) i found least tick =
    elim (Bool-cases (ltb (age policy line) least)) [
      | inl t ↦
          rw (t, oldest_from)
            (Oldest-older policy line rest i found least _ (ltb→lt _ _ t) (
              oldest_from-Oldest latency policy rest (suc i) i (age policy line)
                (tick + latency * 8)))
      | inr f ↦
          rw (f, oldest_from)
            (Oldest-newer policy line rest i found least _ (ground (arith, f))
              (oldest_from-Oldest latency policy rest (suc i) found least (tick + latency * 8)))
    ]

-- For a set of at least one way whose first line has an age below the largest tick, the eviction
-- function finds a way of the set, and no line of the set is older by the policy, the insertion
-- time for FIFO and the last access for LRU.
pub evict_function_lem :
    (c : Config) (s : Cache) (index tick : ℕ)
    → 1 ≤ length (ways_of s index)
    → age c.policy (get_or (ways_of s index) 0 empty_line) < max_tick
    → let way = (evict_function c s index tick).0 in
      (way < length (ways_of s index))
      × ((j : ℕ)
          → j < length (ways_of s index)
          → age c.policy (get_or (ways_of s index) way empty_line)
            ≤ age c.policy (get_or (ways_of s index) j empty_line))
unfolding evict_function
evict_function_lem c s index tick some_way young =
    least_way (oldest_from-Oldest c.latency c.policy (ways_of s index) 0 0 max_tick tick)
  where
    least_way :
        {way : ℕ}
        → Oldest c.policy (ways_of s index) 0 0 max_tick way
        → (way < length (ways_of s index))
          × ((j : ℕ)
              → j < length (ways_of s index)
              → age c.policy (get_or (ways_of s index) way empty_line)
                ≤ age c.policy (get_or (ways_of s index) j empty_line))
    least_way (kept e all) = absurd (omega (arith, all 0 (omega arith)))
    least_way (older k e lt less all) = let same : _ ≡ k = e ∙ omega arith in rw same (lt, all)

-- `getValidWay` finds the first way of the set of a page that is valid and has its tag, or the
-- number of ways if there is none.
pub get_valid_way_lem :
    (c : Config) (s : Cache) (lca tick : ℕ)
    → IsFirstHolding lca (ways_of s (calc_set_index c lca)) (get_valid_way c s lca tick).0
unfolding get_valid_way
get_valid_way_lem c s lca tick =
    let (way, e, first) =
      valid_from-shift c.latency lca (ways_of s (calc_set_index c lca)) 0 tick in
    subst (IsFirstHolding lca (ways_of s (calc_set_index c lca))) (omega (arith, e)) first

-- `getEmptyWay` finds a way of the set that is not valid, or keeps its first answer.
pub data IsFree (lines : List Line) (i found way : ℕ) : Type 0 where
  no_way : way ≡ found → IsFree lines i found way
  free_way :
      (k : ℕ)
      → way ≡ i + k
      → k < length lines
      → (get_or lines k empty_line).valid ≡ false
      → IsFree lines i found way

module _ (line : Line) (rest : List Line) (i found way : ℕ) where
  IsFree-later : IsFree rest (suc i) found way → IsFree (line ∷ rest) i found way
  IsFree-later (no_way e) = no_way e
  IsFree-later (free_way k e lt f) = free_way (suc k) (omega arith) (omega arith) f

  pub IsFree-here :
      line.valid ≡ false → IsFree rest (suc i) i way → IsFree (line ∷ rest) i found way
  IsFree-here f (no_way e) = free_way 0 (omega arith) (omega arith) f
  IsFree-here f (free_way k e lt g) = free_way (suc k) (omega arith) (omega arith) g

module _ (latency : ℕ) (line : Line) (rest : List Line) (i found least tick : ℕ) where
  pub empty_from-valid :
      line.valid ≡ true
      → empty_from latency (line ∷ rest) i found least tick
        ≡ empty_from latency rest (suc i) found least tick
  unfolding empty_from
  empty_from-valid e =
      ap
        (λ b.
          if b
          then empty_from latency rest (suc i) found least tick
          else if ltb line.inserted_at least
          then empty_from latency rest (suc i) i line.inserted_at (tick + latency * 8)
          else empty_from latency rest (suc i) found least (tick + latency * 8))
        e

  pub empty_from-free :
      (b : Bool)
      → line.valid ≡ false
      → ltb line.inserted_at least ≡ b
      → empty_from latency (line ∷ rest) i found least tick ≡ (
          if b
          then empty_from latency rest (suc i) i line.inserted_at (tick + latency * 8)
          else empty_from latency rest (suc i) found least (tick + latency * 8))
  unfolding empty_from
  empty_from-free b e f =
      ap₂
        (λ a b.
          if a
          then empty_from latency rest (suc i) found least tick
          else if b
          then empty_from latency rest (suc i) i line.inserted_at (tick + latency * 8)
          else empty_from latency rest (suc i) found least (tick + latency * 8))
        e f

pub empty_from-IsFree :
    (latency : ℕ) (lines : List Line) (i found least tick : ℕ)
    → IsFree lines i found (empty_from latency lines i found least tick).0
empty_from-IsFree latency [] i found least tick = no_way empty_from_end
  where
    empty_from_end : (empty_from latency [] i found least tick).0 ≡ found
    empty_from_end = unfold empty_from in refl
empty_from-IsFree latency (line ∷ rest) i found least tick = elim (Bool-cases line.valid) [
  | inl t ↦
      rw (empty_from-valid latency line rest i found least tick t)
        (IsFree-later line rest i found _ (empty_from-IsFree latency rest (suc i) found least tick))
  | inr f ↦ elim (Bool-cases (ltb line.inserted_at least)) [
    | inl t ↦ rw (empty_from-free latency line rest i found least tick true f t) (
        IsFree-here line rest i found _ f
          (empty_from-IsFree latency rest (suc i) i line.inserted_at (tick + latency * 8)))
    | inr g ↦ rw (empty_from-free latency line rest i found least tick false f g) (
        IsFree-later line rest i found _
          (empty_from-IsFree latency rest (suc i) found least (tick + latency * 8)))
  ]
]
