-- ===== src/Hil/Credit/Ledger.antt =====
-- hil/scheduler/credit_scheduler.cc: what an update, a charge and a dispatch do to an account.
use testing.Common.{
  ℕ, ◌+◌, ◌%◌, ◌^◌, ◌≤◌, List, Bool, true, none, some, if◌then◌else◌, ◌==◌, ◌≡◌, refl, ap, sym,
  arith, ℕ_discrete, ==-refl, ne→==, leb→le, inl, inr, Option-cases,
}
use testing.Common.Maps.{lookup, lookup-put, lookup-insert}
use testing.Hil.Request.{Request}
use testing.Hil.Fcfs.{Icl, icl_call, request_pages}
use testing.Hil.Credit.{Account, Accounts, Credit, Setup, new_account, account, with_user, charge}
use testing.Hil.Credit.Serve.{count_window, dispatch_icl, can_pay, pay, pop_queue, pop_isc}

-- Credit and consumption together.
unfoldable pub budget : Account → ℕ
budget acc = (acc.credit + acc.total_consumed) % 2 ^ 64

-- What serving leaves alone.
abbrev pub ledger : Account → ℕ × ℕ
ledger acc = (budget acc, acc.pending_gates)

pub account_new :
    (c : Setup) (uid : ℕ) (m : Accounts) → lookup uid m ≡ none → account c uid m ≡ new_account c
unfolding account
account_new c uid m e = rw (e, account) refl

pub account_old :
    (c : Setup) (uid : ℕ) (m : Accounts) (acc : Account)
    → lookup uid m ≡ some acc
    → account c uid m ≡ acc
unfolding account
account_old c uid m acc e = rw (e, account) refl

lookup-with_user :
    (c : Setup) (uid v : ℕ) (change : Account → Account) (m : Accounts)
    → lookup v (with_user c uid change m)
      ≡ (if uid == v then some (change (account c uid m)) else lookup v m)
unfolding with_user
lookup-with_user c uid v change m = elim (Option-cases (lookup uid m)) [
  | inl e ↦ rw (e, with_user, account_new c uid m e) (lookup-insert uid v _ m)
  | inr (acc, e) ↦
      rw (e, with_user, account_old c uid m acc e) (lookup-put uid v (change acc) acc m e)
]

account-with_user :
    (c : Setup) (uid v : ℕ) (change : Account → Account) (m : Accounts)
    → account c v (with_user c uid change m)
      ≡ (if uid == v then change (account c v m) else account c v m)
unfolding account
account-with_user c uid v change m = ground (arith, lookup-with_user c uid v change m)

pub with_user-ledger :
    (c : Setup) (uid v : ℕ) (change : Account → Account) (m : Accounts)
    → ledger (change (account c uid m)) ≡ ledger (account c uid m)
    → ledger (account c v (with_user c uid change m)) ≡ ledger (account c v m)
with_user-ledger c uid v change m h = elim (ℕ_discrete uid v) [
  | yes e ↦ rw (sym e, account-with_user c uid uid change m, ==-refl uid) h
  | no ne ↦ rw (account-with_user c uid v change m, ne→== uid v ne) refl
]

-- The ledgers of all users stay.
abbrev pub Kept : Setup → Credit → Credit → Type 0
Kept c s t = (v : ℕ) → ledger (account c v t.users) ≡ ledger (account c v s.users)

charge-budget :
    (host : Bool) (pages : ℕ) (acc : Account)
    → pages ≤ acc.credit
    → budget (charge host pages acc) ≡ budget acc
unfolding budget charge
charge-budget host pages acc h = ground arith

charge-ledger :
    (host : Bool) (pages : ℕ) (acc : Account)
    → pages ≤ acc.credit
    → ledger (charge host pages acc) ≡ ledger acc
unfolding charge
charge-ledger host pages acc h = ap (λ b. (b, acc.pending_gates)) (charge-budget host pages acc h)

pub pay-Kept :
    (c : Setup) (uid : ℕ) (host : Bool) (pages : ℕ) (s : Credit)
    → can_pay c uid pages s ≡ true
    → Kept c s (pay c uid host pages s)
unfolding can_pay pay
pay-Kept c uid host pages s h = λ v.
    with_user-ledger c uid v (charge host pages) s.users
      (charge-ledger host pages (account c uid s.users) (leb→le _ _ h))

pub dispatch_icl-Kept :
    (c : Setup) (icl : Icl) (req : Request) (now : ℕ) (s : Credit)
    → Kept c s (dispatch_icl c icl req now s).1
unfolding dispatch_icl budget count_window
dispatch_icl-Kept c icl req now s = elim (Option-cases (icl_call req)) [
  | inl e ↦ rw (e, dispatch_icl) (λ v. refl)
  | inr (call, e) ↦
      rw (e, dispatch_icl)
        (λ v. with_user-ledger c req.user_id v (count_window (request_pages req)) s.users refl)
]

pub pop_queue-ledger :
    (left : List Request) (acc : Account) → ledger (pop_queue left acc) ≡ ledger acc
unfolding budget pop_queue
pop_queue-ledger left acc = refl

pub pop_isc-ledger : (left : List Request) (acc : Account) → ledger (pop_isc left acc) ≡ ledger acc
unfolding budget pop_isc
pop_isc-ledger left acc = refl
