-- ===== src/Hil/Credit/Refill.antt =====
-- The refill of `tick` of hil/scheduler/credit_scheduler.cc. What it computes in floating point, with the
-- fractions that are carried from one phase to the next, is a parameter.
pub mod Capped
use testing.Common.{
  ℕ, zero, suc, ◌+◌, ◌-◌, ◌%◌, ◌^◌, min, List, [], ◌∷◌, Bool, true, false, ◌&&◌, not, if◌then◌else◌,
  ltb, leb,
}
use testing.Hil.Request.{Request}
use testing.Hil.Credit.{Account, Accounts, Credit, Setup}

-- What is left for the users without a target: the budget of the phase, or a number of pages of it.
pub data Spill : Type 0 where
  whole : Spill
  pages : ℕ → Spill

-- `capacity` is the budget of a phase in whole pages. `target` is what a user with a target demands in a
-- phase, `scaled` a demand when all of them exceed the capacity, `share` the share in what is spilled.
pub record Shares : Type 0 where
  pub capacity : ℕ
  pub has_budget : Bool
  pub target : (phase uid : ℕ) → ℕ
  pub scaled : (total demand : ℕ) → ℕ
  pub share : Spill → (weight active_weight phase uid : ℕ) → ℕ

unfoldable pub no_request : List Request → Bool
no_request [] = true
no_request (_ ∷ _) = false

unfoldable pub count_idle : Account → Account
unfolding no_request
count_idle acc =
    if acc.is_active
    then (if no_request acc.queue && no_request acc.queue_isc
        then (if ltb acc.idle_periods (2 ^ 32 - 1)
            then record acc { idle_periods = acc.idle_periods + 1 }
            else acc)
        else record acc { idle_periods = 0 })
    else acc

-- A loop over the users that changes each account by itself.
unfoldable pub each_user : (ℕ → Account → Account) → Accounts → Accounts
each_user change [] = []
each_user change ((uid, acc) ∷ rest) = (uid, change uid acc) ∷ each_user change rest

-- A loop that sums over the users of a kind.
unfoldable pub sum_users : (Account → Bool) → (ℕ → Account → ℕ) → Accounts → ℕ
sum_users kind amount [] = 0
sum_users kind amount ((uid, acc) ∷ rest) =
    let later = sum_users kind amount rest in
    if kind acc then (amount uid acc + later) % 2 ^ 64 else later

unfoldable pub takes_slo : Account → Bool
takes_slo acc = acc.is_active && acc.is_slo

unfoldable pub takes_be : Account → Bool
takes_be acc = acc.is_active && not acc.is_slo

unfoldable pub headroom : Account → ℕ
headroom acc = if leb acc.credit_cap acc.credit then 0 else acc.credit_cap - acc.credit

unfoldable pub total_demand : Shares → (phase : ℕ) → Accounts → ℕ
unfolding sum_users takes_slo
total_demand f phase users = sum_users takes_slo (λ uid acc. f.target phase uid) users

unfoldable pub grant : Shares → (phase total uid : ℕ) → Account → ℕ
unfolding headroom
grant f phase total uid acc =
    if leb total f.capacity
    then min (f.target phase uid) (headroom acc)
    else min (f.scaled total (f.target phase uid)) (headroom acc)

unfoldable pub add_credit : (phase amount : ℕ) → Account → Account
add_credit phase amount acc = record acc {
  credit = (acc.credit + amount) % 2 ^ 64;
  last_refill = phase;
}

-- The third round: `users[sd.uid]` is the account that the demand was computed from.
unfoldable pub give_slo : Shares → (phase total uid : ℕ) → Account → Account
unfolding takes_slo grant add_credit
give_slo f phase total uid acc =
    if takes_slo acc then add_credit phase (grant f phase total uid acc) acc else acc

unfoldable pub spill_of : Shares → (phase total : ℕ) → Accounts → Spill
unfolding sum_users takes_slo grant
spill_of f phase total users =
    if leb total f.capacity
    then pages ((f.capacity + 2 ^ 64 - sum_users takes_slo (grant f phase total) users) % 2 ^ 64)
    else pages 0

unfoldable pub has_spill : Shares → Spill → Bool
has_spill f whole = f.has_budget
has_spill f (pages n) = ltb 0 n

unfoldable pub give_be : Shares → Spill → (active_weight phase uid : ℕ) → Account → Account
unfolding takes_be headroom add_credit
give_be f spill active_weight phase uid acc =
    if takes_be acc
    then add_credit phase (min (f.share spill acc.weight active_weight phase uid) (headroom acc))
        acc
    else acc

-- The users with a target first, then the others.
unfoldable pub refill_users : Shares → (phase : ℕ) → Accounts → Accounts
unfolding each_user count_idle sum_users takes_slo takes_be give_slo total_demand spill_of has_spill
    give_be
refill_users f phase users =
    let counted = each_user (λ uid acc. count_idle acc) users in
    let active_slo = sum_users takes_slo (λ uid acc. acc.weight) counted in
    let active_be = sum_users takes_be (λ uid acc. acc.weight) counted in
    let total = total_demand f phase counted in
    let served = if ltb 0 active_slo then each_user (give_slo f phase total) counted else counted in
    let spill = if ltb 0 active_slo then spill_of f phase total counted else whole in
    if has_spill f spill && ltb 0 active_be
    then each_user (give_be f spill active_be phase) served
    else served

-- One phase.
unfoldable pub refill_phase : Shares → Setup → Credit → Credit
unfolding refill_users
refill_phase f c s = record s {
  users = refill_users f s.next_refill s.users;
  next_refill = (s.next_refill + c.period) % 2 ^ 64;
}

unfoldable pub is_due : (now : ℕ) → Credit → Bool
is_due now s = s.timer_started && leb s.next_refill now

-- The phases that are due, at most `fuel` of them.
unfoldable pub refill_from : Shares → Setup → (fuel now : ℕ) → Credit → Credit
unfolding refill_phase is_due
refill_from f c zero now s = s
refill_from f c (suc fuel) now s =
    let later = refill_from f c fuel now (refill_phase f c s) in if is_due now s then later else s

-- Each phase moves the next one on by a period of at least one tick.
unfoldable pub refill : Shares → Setup → (now : ℕ) → Credit → Credit
unfolding refill_from
refill f c now s = refill_from f c (suc now) now s
