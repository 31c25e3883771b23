-- ===== src/Hil/Credit/Refill/Capped.antt =====
-- hil/scheduler/credit_scheduler.cc: the refill stays below the caps, and catches up with the tick.
use testing.Common.{
  ℕ, zero, suc, ◌+◌, ◌%◌, ◌^◌, min, ◌≤◌, ◌<◌, [], ◌∷◌, Bool, true, false, ◌&&◌, if◌then◌else◌, leb,
  ltb, ◌≡◌, arith, inl, inr, Bool-cases,
}
use testing.Hil.Credit.{Account, Accounts, Credit, Setup}
use testing.Hil.Credit.Refill.{
  Shares, Spill, whole, no_request, count_idle, each_user, sum_users, takes_slo, takes_be, headroom,
  total_demand, grant, add_credit, give_slo, spill_of, has_spill, give_be, refill_users,
  refill_phase, is_due, refill_from, refill,
}

abbrev pub IsCapped : Account → Type 0
IsCapped acc = acc.credit ≤ acc.credit_cap

-- Every account of the map is capped.
abbrev pub AllCapped : Accounts → Type 0
AllCapped [] = Unit
AllCapped ((uid, acc) ∷ rest) = IsCapped acc × AllCapped rest

each_user-AllCapped :
    (change : ℕ → Account → Account)
    → ((uid : ℕ) (acc : Account) → IsCapped acc → IsCapped (change uid acc))
    → (m : Accounts) → AllCapped m
    → AllCapped (each_user change m)
unfolding each_user
each_user-AllCapped change keep [] h = tt
each_user-AllCapped change keep ((uid, acc) ∷ rest) (h, hs) =
    (keep uid acc h, each_user-AllCapped change keep rest hs)

pub if_keeps {ℓ ℓ'} :
    {A : Type ℓ} (P : A → Type ℓ') (b : Bool) (x y : A) → P x → P y → P (if b then x else y)
if_keeps P true x y h k = h
if_keeps P false x y h k = k

add_credit-IsCapped :
    (phase amount : ℕ) (acc : Account)
    → IsCapped acc
    → IsCapped (add_credit phase (min amount (headroom acc)) acc)
unfolding add_credit headroom
add_credit-IsCapped phase amount acc h = ground arith

count_idle-IsCapped : (acc : Account) → IsCapped acc → IsCapped (count_idle acc)
unfolding count_idle
count_idle-IsCapped acc h =
    ground (
      arith,
      Bool-cases acc.is_active,
      Bool-cases (no_request acc.queue && no_request acc.queue_isc),
    )

give_slo-IsCapped :
    (f : Shares) (phase total uid : ℕ) (acc : Account)
    → IsCapped acc
    → IsCapped (give_slo f phase total uid acc)
unfolding give_slo grant
give_slo-IsCapped f phase total uid acc h =
    if_keeps IsCapped (takes_slo acc) (add_credit phase (grant f phase total uid acc) acc) acc
      (if_keeps (λ amount. IsCapped (add_credit phase amount acc)) (leb total f.capacity)
        (min (f.target phase uid) (headroom acc))
        (min (f.scaled total (f.target phase uid)) (headroom acc))
        (add_credit-IsCapped phase (f.target phase uid) acc h)
        (add_credit-IsCapped phase (f.scaled total (f.target phase uid)) acc h))
      h

give_be-IsCapped :
    (f : Shares) (spill : Spill) (active_weight phase uid : ℕ) (acc : Account)
    → IsCapped acc
    → IsCapped (give_be f spill active_weight phase uid acc)
unfolding give_be
give_be-IsCapped f spill active_weight phase uid acc h =
    let amount = f.share spill acc.weight active_weight phase uid in
    if_keeps IsCapped (takes_be acc) (add_credit phase (min amount (headroom acc)) acc) acc
      (add_credit-IsCapped phase amount acc h) h

refill_users-AllCapped :
    (f : Shares) (phase : ℕ) (users : Accounts)
    → AllCapped users
    → AllCapped (refill_users f phase users)
unfolding refill_users
refill_users-AllCapped f phase users h =
    let counted = each_user (λ uid acc. count_idle acc) users in
    let active_slo = sum_users takes_slo (λ uid acc. acc.weight) counted in
    let active_be = sum_users takes_be (λ uid acc. acc.weight) counted in
    let total = total_demand f phase counted in
    let by_slo = each_user (give_slo f phase total) counted in
    let served = if ltb 0 active_slo then by_slo else counted in
    let spill = if ltb 0 active_slo then spill_of f phase total counted else whole in
    let hc : AllCapped counted =
      each_user-AllCapped (λ uid acc. count_idle acc) (λ uid. count_idle-IsCapped) users h in
    let hs : AllCapped served =
      if_keeps AllCapped (ltb 0 active_slo) by_slo counted
        (each_user-AllCapped (give_slo f phase total) (give_slo-IsCapped f phase total) counted hc)
        hc in
    if_keeps AllCapped (has_spill f spill && ltb 0 active_be)
      (each_user (give_be f spill active_be phase) served) served
      (each_user-AllCapped (give_be f spill active_be phase)
        (give_be-IsCapped f spill active_be phase) served hs)
      hs

refill_from-AllCapped :
    (f : Shares) (c : Setup) (fuel now : ℕ) (s : Credit)
    → AllCapped s.users
    → AllCapped (refill_from f c fuel now s).users
unfolding refill_from refill_phase
refill_from-AllCapped f c zero now s h = h
refill_from-AllCapped f c (suc fuel) now s h =
    if_keeps (λ (t : Credit). AllCapped t.users) (is_due now s)
      (refill_from f c fuel now (refill_phase f c s)) s
      (refill_from-AllCapped f c fuel now (refill_phase f c s)
        (refill_users-AllCapped f s.next_refill s.users h))
      h

-- The refill of every phase that is due keeps each account within its cap, whatever the demands and
-- shares that the floating point gives.
pub refill_lem :
    (f : Shares) (c : Setup) (now : ℕ) (s : Credit)
    → AllCapped s.users
    → AllCapped (refill f c now s).users
unfolding refill
refill_lem f c now s h = refill_from-AllCapped f c (suc now) now s h

due_le : (now : ℕ) (s : Credit) → is_due now s ≡ true → s.next_refill ≤ now
unfolding is_due
due_le now s h = ground (arith, Bool-cases s.timer_started)

later_phase :
    (next period now fuel : ℕ)
    → next ≤ now
    → 1 ≤ period
    → now + period < 2 ^ 64
    → now < next + suc fuel
    → now < (next + period) % 2 ^ 64 + fuel
later_phase next period now fuel due pos small enough = omega arith

is_due_later :
    (c : Setup) (f : Shares) (fuel now : ℕ) (s : Credit)
    → 1 ≤ c.period
    → now + c.period < 2 ^ 64
    → now < s.next_refill + fuel
    → is_due now (refill_from f c fuel now s) ≡ false
unfolding refill_from refill_phase is_due
is_due_later c f zero now s pos small enough = ground (arith, Bool-cases s.timer_started)
is_due_later c f (suc fuel) now s pos small enough = elim (Bool-cases (is_due now s)) [
  | inl t ↦
      rw (t, refill_from)
        (is_due_later c f fuel now (refill_phase f c s) pos small
          (later_phase s.next_refill c.period now fuel (due_le now s t) pos small enough))
  | inr e ↦ rw (e, refill_from) e
]

-- With a period of at least one tick, and while the tick plus a period stays below 2^64, the loop
-- over the phases ends with no phase left that is due.
pub refill-is_due :
    (f : Shares) (c : Setup) (now : ℕ) (s : Credit)
    → 1 ≤ c.period
    → now + c.period < 2 ^ 64
    → is_due now (refill f c now s) ≡ false
unfolding refill
refill-is_due f c now s pos small = is_due_later c f (suc now) now s pos small (omega arith)
