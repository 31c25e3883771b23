-- ===== src/Ftl/Slots.antt =====
-- How the invariant fares when one block in use changes, or one is added (ftl/page_mapping.cc).
use testing.Common.{
  ℕ, ◌<◌, ◌≡◌, ◌∙◌, sym, ap, subst, ◌≢◌, inl, inr, Bool, true, false, List, [], ◌∷◌, none, some,
  ◌==◌, ==→eq, ne→==, get_elem?-lt, All, arith, if◌then◌else◌, Bool-cases,
}
use testing.Common.Maps.{lookup, put, insert, lookup-put, lookup-insert}
use testing.Block.{Block}
use testing.Block.Slots.{valid_at, lpn_at}
use testing.Ftl.State.{Param, Mapping}
use testing.Ftl.Invariant.{Fits, InUse, Pooled, Holds, Mapped, TableBut}

pub some_inj : {b c : Block} → some b ≡ some c → b ≡ c
some_inj e = cc

module _ (g : Param) (bs : List (ℕ × Block)) (k : ℕ) (b c : Block) (at : lookup k bs ≡ some b) where
  -- Looking up a block after block `k` has become `c`.
  pub found : (j : ℕ) → lookup j (put k c bs) ≡ (if k == j then some c else lookup j bs)
  found j = lookup-put k j c b bs at

  pub put-InUse : InUse g bs → Fits g c → c.idx ≡ k → InUse g (put k c bs)
  put-InUse u f e j d h = elim (Bool-cases (k == j)) [
    | inl q ↦
        let same : c ≡ d = some_inj (ground (arith, found j, h, q)) in
        let here : k ≡ j = ==→eq k j q in
        (subst (Fits g) same f, ap (λ (x : Block). x.idx) (sym same) ∙ e ∙ here)
    | inr q ↦ u j d (ground (arith, found j, h, q))
  ]

  put-All-absent :
      (free : List Block)
      → All (λ a. lookup a.idx bs ≡ none) free
      → All (λ a. lookup a.idx (put k c bs) ≡ none) free
  put-All-absent [] h = tt
  put-All-absent (a ∷ free) h = (ground (arith, found a.idx, h.0, at), put-All-absent free h.1)

  pub put-Pooled : (free : List Block) → Pooled g bs free → Pooled g (put k c bs) free
  put-Pooled free p = record {
    blank = p.blank;
    distinct = p.distinct;
    absent = put-All-absent free p.absent;
  }

  pub put-lookup :
      (j : ℕ)
      → (d : Block) × (lookup j bs ≡ some d)
      → (d : Block) × (lookup j (put k c bs) ≡ some d)
  put-lookup j (d, h) = elim (Bool-cases (k == j)) [
    | inl q ↦ (c, found j ∙ rw q)
    | inr q ↦ (d, found j ∙ rw q h)
  ]

  -- Data elsewhere, and data that the change keeps, is still held.
  pub put-Holds :
      (j p i lpn : ℕ)
      → Holds bs j p i lpn
      → (k ≡ j
          → valid_at b p i ≡ true
          → lpn_at b p i ≡ lpn
          → (valid_at c p i ≡ true) × (lpn_at c p i ≡ lpn))
      → Holds (put k c bs) j p i lpn
  put-Holds j p i lpn (d, h, v, l) keep = elim (Bool-cases (k == j)) [
    | inl q ↦
        let here : k ≡ j = ==→eq k j q in
        let same : d ≡ b = some_inj (sym h ∙ ap (λ x. lookup x bs) (sym here) ∙ at) in
        let kept =
          keep here (subst (λ x. valid_at x p i ≡ true) same v)
            (subst (λ x. lpn_at x p i ≡ lpn) same l) in
        (c, found j ∙ rw q, kept.0, kept.1)
    | inr q ↦ (d, found j ∙ rw q h, v, l)
  ]

module _ (g : Param) (bs : List (ℕ × Block)) (c : Block) (free : lookup c.idx bs ≡ none) where
  pub added : (j : ℕ) → lookup j (insert c.idx c bs) ≡ (if c.idx == j then some c else lookup j bs)
  added j = lookup-insert c.idx j c bs

  other : (j : ℕ) (d : Block) → lookup j bs ≡ some d → (c.idx == j) ≡ false
  other j d h = elim (Bool-cases (c.idx == j)) [
    | inl q ↦ absurd_none (sym free ∙ ap (λ x. lookup x bs) (==→eq _ _ q) ∙ h)
    | inr q ↦ q
  ]
    where
      absurd_none : {A : Type 0} → none ≡ some d → A
      absurd_none e = cc

  pub insert-lookup :
      (j : ℕ) (d : Block) → lookup j bs ≡ some d → lookup j (insert c.idx c bs) ≡ some d
  insert-lookup j d h = added j ∙ rw (other j d h) h

  pub insert-InUse : InUse g bs → Fits g c → InUse g (insert c.idx c bs)
  insert-InUse u f j d h = elim (Bool-cases (c.idx == j)) [
    | inl q ↦
        let same : c ≡ d = some_inj (ground (arith, added j, h, q)) in
        (subst (Fits g) same f, ap (λ (x : Block). x.idx) (sym same) ∙ ==→eq _ _ q)
    | inr q ↦ u j d (ground (arith, added j, h, q))
  ]

  pub insert-Holds : (j p i lpn : ℕ) → Holds bs j p i lpn → Holds (insert c.idx c bs) j p i lpn
  insert-Holds j p i lpn (d, h, v, l) = (d, insert-lookup j d h, v, l)

  insert-absent :
      (pool : List Block)
      → All (λ a. a.idx ≢ c.idx) pool
      → All (λ a. lookup a.idx bs ≡ none) pool
      → All (λ a. lookup a.idx (insert c.idx c bs) ≡ none) pool
  insert-absent [] n h = tt
  insert-absent (a ∷ pool) n h =
      (added a.idx ∙ rw (ne→== c.idx a.idx (λ e. n.0 (sym e))) h.0, insert-absent pool n.1 h.1)

  -- The other free blocks stay a pool.
  pub insert-Pooled :
      (pool : List Block)
      → All (λ a. a.idx ≢ c.idx) pool
      → Pooled g bs pool
      → Pooled g (insert c.idx c bs) pool
  insert-Pooled pool n p = record {
    blank = p.blank;
    distinct = p.distinct;
    absent = insert-absent pool n p.absent;
  }

  pub insert-Mapped :
      (lpn i : ℕ) (m : Mapping) → Mapped g bs lpn i m → Mapped g (insert c.idx c bs) lpn i m
  insert-Mapped lpn i m (inl u) = inl u
  insert-Mapped lpn i m (inr (x, y, h)) = inr (x, y, insert-Holds m.0 m.1 i lpn h)

-- More units open.
pub TableBut-more :
    (g : Param) (n : ℕ) (bs : List (ℕ × Block)) (t : List (ℕ × List Mapping)) (lpn : ℕ)
    (f h : ℕ → Bool)
    → ((i : ℕ) → i < n → f i ≡ true → h i ≡ true)
    → TableBut g n bs t lpn f
    → TableBut g n bs t lpn h
TableBut-more g n bs t lpn f h more w l ms at =
    let (len, each) = w l ms at in
    (
      len,
      λ i m e closed.
          each i m e (ground (arith, closed, more i (omega (arith, len, get_elem?-lt ms i e)))),
    )
