-- ===== src/Hil/Fcfs/Scan.antt =====
-- hil/scheduler/fcfs_scheduler.cc: whom the loop of `tryDispatchHost` and `tryDispatchISC` finds.
use testing.Common.{
  ℕ, zero, suc, ◌+◌, ◌<◌, ◌≤◌, List, [], ◌∷◌, ◌++◌, length, Option, none, some, if◌then◌else◌, ltb,
  ◌⊎◌, inl, inr, ◌≡◌, refl, ap, ◌∙◌, sym, arith, length-append, Option-cases,
}
use testing.Common.Maps.{lookup}
use testing.Hil.Request.{Request}
use testing.Hil.Fcfs.{UserAccount, Users}
use testing.Hil.Fcfs.Dispatch.{find_from, start_from, wrap, scan}
use testing.Hil.Fcfs.Accounts.{Ascending}

abbrev pub Found : Type 0
Found = Option (ℕ × UserAccount × Request × List Request)

-- The first user of a list with a request in the queue that `queue_of` selects.
unfoldable pub first_waiting : (UserAccount → List Request) → Users → Found
first_waiting queue_of [] = none
first_waiting queue_of ((uid, acc) ∷ rest) = elim (queue_of acc) [
  | [] ↦ first_waiting queue_of rest
  | req ∷ left ↦ some (uid, acc, req, left)
]

-- The users above `last`, and those up to it.
unfoldable pub above : ℕ → Users → Users
above last [] = []
above last ((k, acc) ∷ rest) = if ltb last k then (k, acc) ∷ above last rest else above last rest

unfoldable pub upto : ℕ → Users → Users
upto last [] = []
upto last ((k, acc) ∷ rest) = if ltb last k then upto last rest else (k, acc) ∷ upto last rest

module _ (queue_of : UserAccount → List Request) where
  -- From the start of the map no round wraps around, if there are entries enough.
  scan_front :
      (users front rest : Users)
      → scan queue_of users (length front) (front ++ rest) ≡ first_waiting queue_of front
  unfolding scan wrap first_waiting
  scan_front users [] rest = refl
  scan_front users ((uid, acc) ∷ front) rest = ground (arith, scan_front users front rest)

  scan_end : (users : Users) (n : ℕ) → scan queue_of users n [] ≡ scan queue_of users n users
  unfolding scan wrap
  scan_end users zero = refl
  scan_end [] (suc n) = refl
  scan_end (entry ∷ rest) (suc n) = refl

  scan_wraps :
      (front back it : Users) (n : ℕ)
      → n ≡ length it + length front
      → scan queue_of (front ++ back) n it ≡ first_waiting queue_of (it ++ front)
  unfolding scan wrap first_waiting
  scan_wraps front back [] n e =
      let same : n ≡ length front = omega arith in
      rw same (scan_end (front ++ back) (length front) ∙ scan_front (front ++ back) front back)
  scan_wraps front back ((uid, acc) ∷ it) zero e = absurd (omega arith)
  scan_wraps front back ((uid, acc) ∷ it) (suc n) e =
      ground (arith, scan_wraps front back it n (omega arith))

  -- One lap from where the iterator stands.
  pub scan_lap :
      (front it : Users)
      → scan queue_of (front ++ it) (length (front ++ it)) it ≡ first_waiting queue_of (it ++ front)
  scan_lap front it = scan_wraps front it it _ (omega (arith, length-append front it))

above_all :
    (last low : ℕ) (m : Users)
    → last < low
    → Ascending low m
    → (above last m ≡ m) × (upto last m ≡ [])
unfolding above upto
above_all last low [] h asc = (refl, refl)
above_all last low ((k, acc) ∷ m) h asc = ground (arith, above_all last (suc k) m)

lookup-ge :
    (uid low : ℕ) (acc : UserAccount) (m : Users)
    → Ascending low m
    → lookup uid m ≡ some acc
    → low ≤ uid
unfolding lookup
lookup-ge uid low acc [] asc e = cc
lookup-ge uid low acc ((k, a) ∷ m) asc e = ground (arith, lookup-ge uid (suc k) acc m)

-- Where `find` stands, for a user of the map.
find_from-above :
    (last low : ℕ) (acc : UserAccount) (m : Users)
    → Ascending low m
    → lookup last m ≡ some acc
    → (find_from last m ≡ (last, acc) ∷ above last m) × (m ≡ upto last m ++ above last m)
unfolding find_from above upto lookup
find_from-above last low acc [] asc e = cc
find_from-above last low acc ((k, a) ∷ m) asc e = ground (
  arith,
  lookup-ge last (suc k) acc m,
  above_all last (suc k) m,
  find_from-above last (suc k) acc m,
)

find_from-none : (last : ℕ) (m : Users) → lookup last m ≡ none → find_from last m ≡ []
unfolding find_from lookup
find_from-none last [] e = refl
find_from-none last ((k, a) ∷ m) e = ground (arith, find_from-none last m)

-- `last` is no user before the first dispatch; then it is one of the map.
abbrev pub IsKnown : ℕ → Users → Type 0
IsKnown last users = (last ≡ 0) ⊎ ((acc : UserAccount) × (lookup last users ≡ some acc))

known-none : (last : ℕ) (users : Users) → IsKnown last users → lookup last users ≡ none → last ≡ 0
known-none last users (inl z) e = z
known-none last users (inr (acc, f)) e = cc

start_from_end :
    (last : ℕ) (users : Users) → find_from last users ≡ [] → start_from last users ≡ users
unfolding start_from
start_from_end last users e = rw (e, start_from) refl

start_from_last :
    (last : ℕ) (users : Users) (entry : ℕ × UserAccount)
    → find_from last users ≡ entry ∷ []
    → start_from last users ≡ users
unfolding start_from
start_from_last last users entry e = rw (e, start_from) refl

start_from_next :
    (last : ℕ) (users rest : Users) (entry next : ℕ × UserAccount)
    → find_from last users ≡ entry ∷ next ∷ rest
    → start_from last users ≡ next ∷ rest
unfolding start_from
start_from_next last users rest entry next e = rw (e, start_from) refl

append-nil : (m : Users) → m ++ [] ≡ m
append-nil [] = refl
append-nil (x ∷ m) = ap (λ r. x ∷ r) (append-nil m)

not_zero-Ascending : (m : Users) → Ascending 0 m → lookup 0 m ≡ none → Ascending 1 m
unfolding lookup
not_zero-Ascending [] asc e = tt
not_zero-Ascending ((k, a) ∷ m) asc e = ground arith

module _ (queue_of : UserAccount → List Request) where
  whole_lap :
      (users : Users) → scan queue_of users (length users) users ≡ first_waiting queue_of users
  whole_lap users = scan_lap queue_of [] users ∙ ap (first_waiting queue_of) (append-nil users)

  scan_after :
      (last : ℕ) (acc : UserAccount) (users over low : Users)
      → find_from last users ≡ (last, acc) ∷ over
      → users ≡ low ++ over
      → scan queue_of users (length users) (start_from last users)
        ≡ first_waiting queue_of (over ++ low)
  scan_after last acc users [] low e split =
      rw (start_from_last last users _ e)
        (whole_lap users ∙ ap (first_waiting queue_of) (split ∙ append-nil low))
  scan_after last acc users (next ∷ rest) low e split =
      rw (start_from_next last users rest _ next e, split) (scan_lap queue_of low (next ∷ rest))

  -- On a map of users in ascending order, where the last choice is 0 or a user of the map, one lap
  -- of the loop from the iterator after the last choice finds the first user with a waiting
  -- request among the users above the last choice, followed by those up to it.
  pub scan_lem :
      (last : ℕ) (users : Users)
      → Ascending 0 users
      → IsKnown last users
      → scan queue_of users (length users) (start_from last users)
        ≡ first_waiting queue_of (above last users ++ upto last users)
  scan_lem last users asc known = elim (Option-cases (lookup last users)) [
    | inl e ↦
        let zero_last : last ≡ 0 = known-none last users known e in
        let all =
          above_all 0 1 users (omega arith) (not_zero-Ascending users asc (rw (← zero_last) e)) in
        rw (start_from_end last users (find_from-none last users e), zero_last, all.0, all.1)
          (whole_lap users ∙ ap (first_waiting queue_of) (sym (append-nil users)))
    | inr (acc, e) ↦
        let at = find_from-above last 0 acc users asc e in
        scan_after last acc users (above last users) (upto last users) at.0 at.1
  ]
