-- ===== src/Ftl/Clear.antt =====
-- Slots without valid data, while blocks in use change (ftl/page_mapping.cc).
use testing.Common.{
  ℕ, ◌≡◌, ◌∙◌, sym, ap, subst, inl, inr, false, List, some, ◌==◌, ==→eq, ==-refl, arith, Bool-cases,
}
use testing.Common.Maps.{lookup, put}
use testing.Block.{Block}
use testing.Block.Slots.{valid_at, InRange}
use testing.Block.Invalidate.{Invalidated}
use testing.Ftl.State.{Param}
use testing.Ftl.Slots.{found, some_inj}

-- Page `p` of block `k` holds no valid data in unit `i`.
abbrev pub Clear : List (ℕ × Block) → ℕ → ℕ → ℕ → Type 0
Clear bs k p i = (b : Block) × (lookup k bs ≡ some b) × InRange b p i × (valid_at b p i ≡ false)

module _ (g : Param) (bs : List (ℕ × Block)) (k : ℕ) (b c : Block) (at : lookup k bs ≡ some b)
    (p i : ℕ) (r : InRange b p i) (h : Invalidated b p i c) where
  forward : (q j : ℕ) → InRange b q j → InRange c q j
  forward q j t = record { page = omega (arith, t, h.page_count); unit = omega (arith, t, h.units) }

  -- The slot that was invalidated is clear.
  pub new-Clear : Clear (put k c bs) k p i
  new-Clear = (
    c,
    found g bs k b c at k ∙ rw (==-refl k),
    forward p i r,
    h.valid p i r ∙ rw (==-refl p, ==-refl i),
  )

  -- A slot that was clear before is clear still.
  pub old-Clear : (j q u : ℕ) → Clear bs j q u → Clear (put k c bs) j q u
  old-Clear j q u (d, e, t, v) = elim (Bool-cases (k == j)) [
    | inl same ↦
        let is : d ≡ b = some_inj (sym e ∙ ap (λ x. lookup x bs) (sym (==→eq k j same)) ∙ at) in
        let t' = subst (λ x. InRange x q u) is t in
        let v' = subst (λ x. valid_at x q u ≡ false) is v in
        (c, found g bs k b c at j ∙ rw same, forward q u t', h.valid q u t' ∙ ground (arith, v'))
    | inr other ↦ (d, found g bs k b c at j ∙ rw other e, t, v)
  ]
