-- ===== src/Ftl/Order.antt =====
-- The reverse search of `eraseInternal` (ftl/page_mapping.cc) keeps the free list in the order of the
-- erase counts.
use mathlib.Core.List.{reverse, reverse-cons, reverse-append, reverse-reverse, append_assoc}
use testing.Common.{
  ◌≤◌, ◌<◌, ◌≡◌, ◌∙◌, refl, sym, ap, subst, inl, inr, List, [], ◌∷◌, ◌++◌, All, ok, arith, leb,
  Bool-cases, length,
}
use testing.Block.{Block}
use testing.Ftl.Pool.{place_back, insert_free}

-- The erase counts do not go down along the list.
abbrev pub Ascending : List Block → Type 0
Ascending [] = Unit
Ascending (b ∷ bs) = All (λ c. b.erase_count ≤ c.erase_count) bs × Ascending bs

All-append : (P : Block → Type 0) (xs ys : List Block) → All P xs → All P ys → All P (xs ++ ys)
All-append P [] ys h k = k
All-append P (x ∷ xs) ys h k = (h.0, All-append P xs ys h.1 k)

All-of-append : (P : Block → Type 0) (xs ys : List Block) → All P (xs ++ ys) → All P xs × All P ys
All-of-append P [] ys h = (tt, h)
All-of-append P (x ∷ xs) ys h = let (a, b) = All-of-append P xs ys h.1 in ((h.0, a), b)

All-reverse : (P : Block → Type 0) (xs : List Block) → All P xs → All P (reverse xs)
All-reverse P [] h = tt
All-reverse P (x ∷ xs) h =
    subst (All P) (sym (reverse-cons x xs))
      (All-append P (reverse xs) (x ∷ []) (All-reverse P xs h.1) (h.0, tt))

All-map :
    (P Q : Block → Type 0) → ((b : Block) → P b → Q b) → (xs : List Block) → All P xs → All Q xs
All-map P Q f [] h = tt
All-map P Q f (x ∷ xs) h = (f x h.0, All-map P Q f xs h.1)

-- In an ascending list, what stands before a block was erased at most as often.
before-le :
    (xs ys : List Block) (x : Block)
    → Ascending (xs ++ (x ∷ ys))
    → All (λ c. c.erase_count ≤ x.erase_count) xs
before-le [] ys x h = tt
before-le (y ∷ xs) ys x h = ((All-of-append _ xs (x ∷ ys) h.0).1.0, before-le xs ys x h.1)

insert-Ascending :
    (xs ys : List Block) (b : Block)
    → Ascending (xs ++ ys)
    → All (λ c. c.erase_count ≤ b.erase_count) xs
    → All (λ c. b.erase_count < c.erase_count) ys
    → Ascending (xs ++ (b ∷ ys))
insert-Ascending [] ys b h low high = (All-map _ _ (λ c lt. omega arith) ys high, h)
insert-Ascending (x ∷ xs) ys b h low high =
    let (near, far) = All-of-append _ xs ys h.0 in
    (All-append _ xs (b ∷ ys) near (low.0, far), insert-Ascending xs ys b h.1 low.1 high)

-- The block at the head of a list was erased at most as often as `b`.
abbrev Stops : Block → List Block → Type 0
Stops b [] = Unit
Stops b (x ∷ xs) = x.erase_count ≤ b.erase_count

place_back_lem :
    (b : Block) (bs : List Block)
    → (us vs : List Block) × (bs ≡ us ++ vs)
      × (place_back b bs ≡ us ++ (b ∷ vs))
      × All (λ c. b.erase_count < c.erase_count) us
      × Stops b vs
unfolding place_back
place_back_lem b [] = ([], [], refl, refl, tt, tt)
place_back_lem b (x ∷ xs) = elim (Bool-cases (leb x.erase_count b.erase_count)) [
  | inl e ↦ ([], x ∷ xs, refl, rw e, tt, ground arith)
  | inr e ↦
      let (us, vs, split, run, high, stop) = place_back_lem b xs in
      (x ∷ us, vs, ap (λ z. x ∷ z) split, rw e (ap (λ z. x ∷ z) run), (ground arith, high), stop)
]

-- What stands before the new block, from the end of the search.
low_before :
    (b : Block) (vs ys : List Block)
    → Stops b vs
    → Ascending (reverse vs ++ ys)
    → All (λ c. c.erase_count ≤ b.erase_count) (reverse vs)
low_before b [] ys stop h = tt
low_before b (x ∷ vs) ys stop h =
    let shape = reverse-cons x vs in
    let h' = subst Ascending (ap (λ z. z ++ ys) shape ∙ append_assoc (reverse vs) (x ∷ []) ys) h in
    let low =
      All-map _ (λ c. c.erase_count ≤ b.erase_count) (λ c le. omega (arith, le, stop)) (reverse vs)
        (before-le (reverse vs) ys x h') in
    subst (All _) (sym shape) (All-append _ (reverse vs) (x ∷ []) low (stop, tt))

-- On a free list that is not empty and in ascending order of the erase counts, the reverse search
-- of `eraseInternal` puts the block right after the last one that was erased at most as often: all
-- before it were erased at most as often, all after it more often, and the order holds.
pub insert_free_lem :
    (b : Block) (free : List Block)
    → 0 < length free
    → Ascending free
    → (before after : List Block) × (free ≡ before ++ after)
      × (insert_free b free ≡ ok (before ++ (b ∷ after)))
      × All (λ c. c.erase_count ≤ b.erase_count) before
      × All (λ c. b.erase_count < c.erase_count) after
      × Ascending (before ++ (b ∷ after))
unfolding insert_free
insert_free_lem b [] some_block h = absurd (omega arith)
insert_free_lem b (x ∷ xs) some_block h =
    let (us, vs, split, run, high, stop) = place_back_lem b (reverse (x ∷ xs)) in
    let whole = sym (reverse-reverse (x ∷ xs)) ∙ ap reverse split ∙ reverse-append us vs in
    let placed =
      ap reverse run
      ∙ reverse-append us (b ∷ vs)
      ∙ ap (λ z. z ++ reverse us) (reverse-cons b vs)
      ∙ append_assoc (reverse vs) (b ∷ []) (reverse us) in
    let up = subst Ascending whole h in
    let low = low_before b vs (reverse us) stop up in
    let high' = All-reverse _ us high in
    (
      reverse vs,
      reverse us,
      whole,
      ap ok placed,
      low,
      high',
      insert-Ascending (reverse vs) (reverse us) b up low high',
    )
