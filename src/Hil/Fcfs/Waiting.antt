-- ===== src/Hil/Fcfs/Waiting.antt =====
-- hil/scheduler/fcfs_scheduler.cc: when the round-robin loop finds a request, and whose it is.
use testing.Common.{
  ℕ, suc, ◌≤◌, List, [], ◌∷◌, ◌++◌, length, none, some, ◌==◌, ◌≡◌, ◌≢◌, refl, subst, ◌∙◌, sym,
  arith, All, ◌⊎◌, inl, inr, Option-cases, Bool-cases,
}
use testing.Common.Maps.{lookup}
use testing.Hil.Request.{Request}
use testing.Hil.Fcfs.{UserAccount, Users, new_account}
use testing.Hil.Fcfs.Dispatch.{start_from, scan}
use testing.Hil.Fcfs.Accounts.{Ascending, account, account_old, account_new}
use testing.Hil.Fcfs.Scan.{first_waiting, above, upto, IsKnown, scan_lem}

List-cases :
    (l : List Request) → (l ≡ []) ⊎ ((req : Request) × (left : List Request) × (l ≡ req ∷ left))
List-cases [] = inl refl
List-cases (req ∷ left) = inr (req, left, refl)

pub All-imp :
    (P Q : ℕ × UserAccount → Type 0) (m : Users)
    → ((e : ℕ × UserAccount) → P e → Q e)
    → All P m
    → All Q m
All-imp P Q [] f h = tt
All-imp P Q (e ∷ m) f h = (f e h.0, All-imp P Q m f h.1)

All-append : (P : ℕ × UserAccount → Type 0) (l m : Users) → All P l → All P m → All P (l ++ m)
All-append P [] m hl hm = hm
All-append P (e ∷ l) m hl hm = (hl.0, All-append P l m hl.1 hm)

-- What holds of all entries holds of those on either side of `last`, and conversely.
All-above : (P : ℕ × UserAccount → Type 0) (last : ℕ) (m : Users) → All P m → All P (above last m)
unfolding above
All-above P last [] h = tt
All-above P last ((k, a) ∷ m) h = ground (arith, All-above P last m)

All-upto : (P : ℕ × UserAccount → Type 0) (last : ℕ) (m : Users) → All P m → All P (upto last m)
unfolding upto
All-upto P last [] h = tt
All-upto P last ((k, a) ∷ m) h = ground (arith, All-upto P last m)

All-split : (P : ℕ × UserAccount → Type 0) (l m : Users) → All P (l ++ m) → All P l × All P m
All-split P [] m h = (tt, h)
All-split P (e ∷ l) m h = let rest = All-split P l m h.1 in ((h.0, rest.0), rest.1)

All-sides :
    (P : ℕ × UserAccount → Type 0) (last : ℕ) (m : Users)
    → All P (above last m)
    → All P (upto last m)
    → All P m
unfolding above upto
All-sides P last [] h g = tt
All-sides P last ((k, a) ∷ m) h g = ground (arith, All-sides P last m)

-- The map gives each entry back.
pub entries-lookup :
    (low : ℕ) (m : Users) → Ascending low m → All (λ e. (low ≤ e.0) × (lookup e.0 m ≡ some e.1)) m
unfolding lookup
entries-lookup low [] asc = tt
entries-lookup low ((k, a) ∷ m) asc = (
  (asc.0, ground arith),
  All-imp _ _ m (λ e h. (omega arith, ground (arith, h))) (entries-lookup (suc k) m asc.1),
)

some-inj {ℓ} : {A : Type ℓ} {x y : A} → some x ≡ some y → x ≡ y
some-inj h = cc

some-ne {ℓ} : {A : Type ℓ} {x : A} → some x ≢ none
some-ne h = cc

first_waiting_end : (queue_of : UserAccount → List Request) → first_waiting queue_of [] ≡ none
unfolding first_waiting
first_waiting_end queue_of = refl

module _ (queue_of : UserAccount → List Request) where
  first_waiting-skip :
      (k : ℕ) (a : UserAccount) (m : Users)
      → queue_of a ≡ []
      → first_waiting queue_of ((k, a) ∷ m) ≡ first_waiting queue_of m
  unfolding first_waiting
  first_waiting-skip k a m e = rw (e, first_waiting) refl

  first_waiting-take :
      (k : ℕ) (a : UserAccount) (m : Users) (req : Request) (left : List Request)
      → queue_of a ≡ req ∷ left
      → first_waiting queue_of ((k, a) ∷ m) ≡ some (k, a, req, left)
  unfolding first_waiting
  first_waiting-take k a m req left e = rw (e, first_waiting) refl

  first_waiting-none :
      (m : Users) → first_waiting queue_of m ≡ none → All (λ e. queue_of e.1 ≡ []) m
  first_waiting-none [] h = tt
  first_waiting-none ((k, a) ∷ m) h = elim (List-cases (queue_of a)) [
    | inl e ↦ (e, first_waiting-none m (sym (first_waiting-skip k a m e) ∙ h))
    | inr (req, left, e) ↦ absurd (some-ne (sym (first_waiting-take k a m req left e) ∙ h))
  ]

  -- The request that is found heads the queue of an entry.
  first_waiting-some :
      (P : ℕ × UserAccount → Type 0) (m : Users)
      → All P m
      → (found : ℕ × UserAccount × Request × List Request) → first_waiting queue_of m ≡ some found
      → P (found.0, found.1) × (queue_of found.1 ≡ found.2 ∷ found.3)
  first_waiting-some P [] all found h = absurd (some-ne (sym h ∙ first_waiting_end queue_of))
  first_waiting-some P ((k, a) ∷ m) all found h = elim (List-cases (queue_of a)) [
    | inl e ↦ first_waiting-some P m all.1 found (sym (first_waiting-skip k a m e) ∙ h)
    | inr (r, l, e) ↦
        subst (λ x. P (x.0, x.1) × (queue_of x.1 ≡ x.2 ∷ x.3))
          (some-inj (sym (first_waiting-take k a m r l e) ∙ h)) (all.0, e)
  ]

  -- A request that the loop finds heads the queue of the account that it names.
  pub scan-found :
      (last : ℕ) (users : Users)
      → Ascending 0 users
      → IsKnown last users
      → (found : ℕ × UserAccount × Request × List Request)
      → scan queue_of users (length users) (start_from last users) ≡ some found
      → (lookup found.0 users ≡ some found.1) × (queue_of found.1 ≡ found.2 ∷ found.3)
  scan-found last users asc known found e =
      let entries =
        All-imp _ (λ e. lookup e.0 users ≡ some e.1) users (λ e h. h.1)
          (entries-lookup 0 users asc) in
      first_waiting-some (λ e. lookup e.0 users ≡ some e.1) (above last users ++ upto last users)
        (All-append _ (above last users) (upto last users) (All-above _ last users entries)
          (All-upto _ last users entries))
        found (sym (scan_lem queue_of last users asc known) ∙ e)

  lookup-All :
      (P : UserAccount → Type 0) (uid : ℕ) (acc : UserAccount) (m : Users)
      → All (λ e. P e.1) m
      → lookup uid m ≡ some acc
      → P acc
  unfolding lookup
  lookup-All P uid acc [] h e = cc
  lookup-All P uid acc ((k, a) ∷ m) h e = elim (Bool-cases (k == uid)) [
    | inl t ↦ subst P (ground (arith, t, e)) h.0
    | inr f ↦ lookup-All P uid acc m h.1 (ground (arith, f, e))
  ]

  -- If it finds none, no user waits.
  pub scan-none :
      (last : ℕ) (users : Users)
      → Ascending 0 users
      → IsKnown last users
      → queue_of new_account ≡ []
      → scan queue_of users (length users) (start_from last users) ≡ none
      → (uid : ℕ) → queue_of (account uid users) ≡ []
  scan-none last users asc known empty e uid =
      let sides =
        All-split _ (above last users) (upto last users)
          (first_waiting-none _ (sym (scan_lem queue_of last users asc known) ∙ e)) in
      let all = All-sides (λ e. queue_of e.1 ≡ []) last users sides.0 sides.1 in
      elim (Option-cases (lookup uid users)) [
        | inl none_there ↦ rw (account_new uid users none_there) empty
        | inr (acc, there) ↦
            rw (account_old uid users acc there)
              (lookup-All (λ a. queue_of a ≡ []) uid acc users all there)
      ]
