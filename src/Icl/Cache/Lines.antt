-- ===== src/Icl/Cache/Lines.antt =====
-- icl/generic_cache.cc: how a write of a line, or of a pointer of `evictData`, is seen by a read.
use testing.Common.{
  ℕ, zero, suc, List, [], ◌∷◌, get_or, set, none, ◌≡◌, refl, ap, ap₂, ◌∙◌, ◌⊎◌, inl, inr,
}
use testing.Icl.Cache.{Line, empty_line, Cache, Pointer, ways_of, line_at, put_line}
use testing.Icl.Cache.Evict.{pointer_at, put_pointer}

-- A write out of bounds changes nothing, so every element is an old one or the new one.
pub get_or-set-cases {ℓ} :
    {A : Type ℓ} (xs : List A) (i j : ℕ) (v d : A)
    → (get_or (set xs i v) j d ≡ get_or xs j d) ⊎ ((i ≡ j) × (get_or (set xs i v) j d ≡ v))
get_or-set-cases [] i j v d = inl refl
get_or-set-cases (x ∷ xs) zero zero v d = inr (refl, refl)
get_or-set-cases (x ∷ xs) zero (suc j) v d = inl refl
get_or-set-cases (x ∷ xs) (suc i) zero v d = inl refl
get_or-set-cases (x ∷ xs) (suc i) (suc j) v d = elim (get_or-set-cases xs i j v d) [
  | inl e ↦ inl e
  | inr (e, f) ↦ inr (ap suc e, f)
]

-- A line after a write of `line` at `at`.
pub line_at-put_line :
    (s : Cache) (at q : ℕ × ℕ) (line : Line)
    → (line_at (put_line at line s) q ≡ line_at s q)
      ⊎ ((at ≡ q) × (line_at (put_line at line s) q ≡ line))
unfolding line_at put_line ways_of
line_at-put_line s at q line =
    elim (get_or-set-cases s.lines at.0 q.0 (set (ways_of s at.0) at.1 line) []) [
      | inl e ↦ inl (ap (λ ways. get_or ways q.1 empty_line) e)
      | inr (e, f) ↦ elim (get_or-set-cases (ways_of s at.0) at.1 q.1 line empty_line) [
        | inl g ↦ inl (
            ap (λ ways. get_or ways q.1 empty_line) f
            ∙ g
            ∙ ap (λ i. get_or (ways_of s i) q.1 empty_line) e)
        | inr (g, h) ↦ inr (ap₂ (λ i j. (i, j)) e g, ap (λ ways. get_or ways q.1 empty_line) f ∙ h)
      ]
    ]

-- A pointer after a write of `p` at `at`.
pub pointer_at-put_pointer :
    (s : Cache) (at b : ℕ × ℕ) (p : Pointer)
    → (pointer_at (put_pointer at p s) b ≡ pointer_at s b)
      ⊎ ((at ≡ b) × (pointer_at (put_pointer at p s) b ≡ p))
unfolding pointer_at put_pointer
pointer_at-put_pointer s at b p =
    elim (get_or-set-cases s.evict at.0 b.0 (set (get_or s.evict at.0 []) at.1 p) []) [
      | inl e ↦ inl (ap (λ row. get_or row b.1 none) e)
      | inr (e, f) ↦ elim (get_or-set-cases (get_or s.evict at.0 []) at.1 b.1 p none) [
        | inl g ↦ inl (
            ap (λ row. get_or row b.1 none) f
            ∙ g
            ∙ ap (λ i. get_or (get_or s.evict i []) b.1 none) e)
        | inr (g, h) ↦ inr (ap₂ (λ i j. (i, j)) e g, ap (λ row. get_or row b.1 none) f ∙ h)
      ]
    ]

get_or-set_self {ℓ} :
    {A : Type ℓ} (xs : List A) (i : ℕ) (v d : A)
    → (get_or (set xs i v) i d ≡ v) ⊎ (get_or (set xs i v) i d ≡ d)
get_or-set_self [] i v d = inr refl
get_or-set_self (x ∷ xs) zero v d = inl refl
get_or-set_self (x ∷ xs) (suc i) v d = get_or-set_self xs i v d

-- A line that was written to is the one written, or lies outside and reads as empty.
pub line_at_self :
    (s : Cache) (at : ℕ × ℕ) (line : Line)
    → (line_at (put_line at line s) at ≡ line) ⊎ (line_at (put_line at line s) at ≡ empty_line)
unfolding line_at put_line ways_of
line_at_self s at line = elim (get_or-set_self s.lines at.0 (set (ways_of s at.0) at.1 line) []) [
  | inl e ↦ elim (get_or-set_self (ways_of s at.0) at.1 line empty_line) [
    | inl f ↦ inl (ap (λ ways. get_or ways at.1 empty_line) e ∙ f)
    | inr f ↦ inr (ap (λ ways. get_or ways at.1 empty_line) e ∙ f)
  ]
  | inr e ↦ inr (ap (λ ways. get_or ways at.1 empty_line) e)
]

pub pointer_at_self :
    (s : Cache) (at : ℕ × ℕ) (p : Pointer)
    → (pointer_at (put_pointer at p s) at ≡ p) ⊎ (pointer_at (put_pointer at p s) at ≡ none)
unfolding pointer_at put_pointer
pointer_at_self s at p =
    elim (get_or-set_self s.evict at.0 (set (get_or s.evict at.0 []) at.1 p) []) [
      | inl e ↦ elim (get_or-set_self (get_or s.evict at.0 []) at.1 p none) [
        | inl f ↦ inl (ap (λ row. get_or row at.1 none) e ∙ f)
        | inr f ↦ inr (ap (λ row. get_or row at.1 none) e ∙ f)
      ]
      | inr e ↦ inr (ap (λ row. get_or row at.1 none) e)
    ]

-- Lines and pointers are apart.
pub pointer_at-put_line :
    (s : Cache) (at b : ℕ × ℕ) (line : Line) → pointer_at (put_line at line s) b ≡ pointer_at s b
unfolding pointer_at put_line
pointer_at-put_line s at b line = refl

pub line_at-put_pointer :
    (s : Cache) (at q : ℕ × ℕ) (p : Pointer) → line_at (put_pointer at p s) q ≡ line_at s q
unfolding line_at ways_of put_pointer
line_at-put_pointer s at q p = refl

pub put_line-put_pointer :
    (s : Cache) (at pos : ℕ × ℕ) (line : Line) (p : Pointer)
    → put_line at line (put_pointer pos p s) ≡ put_pointer pos p (put_line at line s)
unfolding put_line ways_of put_pointer
put_line-put_pointer s at pos line p = refl
