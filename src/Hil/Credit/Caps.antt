-- ===== src/Hil/Credit/Caps.antt =====
-- hil/scheduler/credit_scheduler.cc: each operation leaves the accounts below their caps.
use testing.Common.{
  ℕ, min, List, [], ◌∷◌, ◌++◌, Bool, true, false, if◌then◌else◌, ◌==◌, ◌≡◌, refl, sym, arith, inl,
  inr, Bool-cases, Option-cases, subst,
}
use testing.Common.Maps.{lookup, put}
use testing.Hil.Request.{Request}
use testing.Hil.Fcfs.{Icl, icl_call, request_pages}
use testing.Hil.Credit.{
  Account, Accounts, Credit, Setup, new_account, account, with_user, charge, is_gate, enqueue,
  activate, start_timer, submit, ensure_active_user, take_credit, use_credit, take_credit_isc,
  use_credit_isc,
}
use testing.Hil.Credit.Serve.{
  get_or_create, count_window, dispatch_icl, can_pay, pay, serve_admin, submit_isc_request,
  pop_queue, pop_isc,
}
use testing.Hil.Credit.Ledger.{account_new, account_old}
use testing.Hil.Credit.Start.{init_account, init_users}
use testing.Hil.Credit.Steps.{Steps}
use testing.Hil.Credit.Refill.Capped.{IsCapped, AllCapped, if_keeps}

account-IsCapped : (c : Setup) (uid : ℕ) (m : Accounts) → AllCapped m → IsCapped (account c uid m)
unfolding account lookup new_account
account-IsCapped c uid [] h = omega arith
account-IsCapped c uid ((j, acc) ∷ m) (h, hs) = elim (Bool-cases (j == uid)) [
  | inl t ↦ rw (t, account, lookup) h
  | inr f ↦ rw (f, account, lookup) (account-IsCapped c uid m hs)
]

put-AllCapped :
    (uid : ℕ) (acc : Account) (m : Accounts)
    → IsCapped acc
    → AllCapped m
    → AllCapped (put uid acc m)
unfolding put
put-AllCapped uid acc [] new h = tt
put-AllCapped uid acc ((j, old) ∷ m) new (h, hs) =
    if_keeps AllCapped (j == uid) ((j, acc) ∷ m) ((j, old) ∷ put uid acc m) (new, hs)
      (h, put-AllCapped uid acc m new hs)

with_user-AllCapped :
    (c : Setup) (uid : ℕ) (change : Account → Account) (m : Accounts)
    → IsCapped (change (account c uid m))
    → AllCapped m
    → AllCapped (with_user c uid change m)
unfolding with_user account
with_user-AllCapped c uid change m new h = elim (Option-cases (lookup uid m)) [
  | inl e ↦ rw (e, with_user) (subst (λ acc. IsCapped (change acc)) (account_new c uid m e) new, h)
  | inr (acc, e) ↦
      rw (e, with_user)
        (put-AllCapped uid (change acc) m
          (subst (λ a. IsCapped (change a)) (account_old c uid m acc e) new) h)
]

-- An update that keeps any account capped.
update-AllCapped :
    (c : Setup) (uid : ℕ) (change : Account → Account) (m : Accounts)
    → ((acc : Account) → IsCapped acc → IsCapped (change acc))
    → AllCapped m
    → AllCapped (with_user c uid change m)
update-AllCapped c uid change m keep h =
    with_user-AllCapped c uid change m (keep (account c uid m) (account-IsCapped c uid m h)) h

charge-IsCapped :
    (host : Bool) (pages : ℕ) (acc : Account) → IsCapped acc → IsCapped (charge host pages acc)
unfolding charge
charge-IsCapped host pages acc h = omega arith

activate-IsCapped : (now : ℕ) (acc : Account) → IsCapped acc → IsCapped (activate now acc)
unfolding activate
activate-IsCapped now acc h =
    if_keeps IsCapped acc.is_active acc
      (record acc { is_active = true; credit = 0; idle_periods = 0; last_refill = now }) h
      (omega arith)

enqueue-IsCapped : (req : Request) (acc : Account) → IsCapped acc → IsCapped (enqueue req acc)
unfolding enqueue
enqueue-IsCapped req acc h = if_keeps IsCapped (is_gate req.op) _ _ h h

start_timer-users : (c : Setup) (now : ℕ) (s : Credit) → (start_timer c now s).users ≡ s.users
unfolding start_timer
start_timer-users c now s = elim (Bool-cases s.timer_started) [
  | inl t ↦ rw (t, start_timer) refl
  | inr f ↦ rw (f, start_timer) refl
]

timed-AllCapped :
    (c : Setup) (now : ℕ) (active : Bool) (t : Credit)
    → AllCapped t.users
    → AllCapped (if active then t else start_timer c now t).users
timed-AllCapped c now active t h =
    if_keeps (λ (u : Credit). AllCapped u.users) active t (start_timer c now t) h
      (subst AllCapped (sym (start_timer-users c now t)) h)

pub submit-AllCapped :
    (c : Setup) (now : ℕ) (req : Request) (s : Credit)
    → AllCapped s.users
    → AllCapped (submit c now req s).users
unfolding submit
submit-AllCapped c now req s h =
    let change : Account → Account = λ acc. activate now (enqueue req acc) in
    let t : Credit = record s { users = with_user c req.user_id change s.users } in
    let active = (account c req.user_id s.users).is_active in
    if_keeps (λ (u : Credit). AllCapped u.users) (req.user_id == 0)
      (record s { admin = s.admin ++ (req ∷ []) }) (if active then t else start_timer c now t) h
      (timed-AllCapped c now active t (
        update-AllCapped c req.user_id change s.users
          (λ acc k. activate-IsCapped now (enqueue req acc) (enqueue-IsCapped req acc k)) h))

pub ensure_active_user-AllCapped :
    (c : Setup) (now uid : ℕ) (s : Credit)
    → AllCapped s.users
    → AllCapped (ensure_active_user c now uid s).users
unfolding ensure_active_user
ensure_active_user-AllCapped c now uid s h =
    timed-AllCapped c now (account c uid s.users).is_active
      (record s { users = with_user c uid (activate now) s.users })
      (update-AllCapped c uid (activate now) s.users (activate-IsCapped now) h)

pay-AllCapped :
    (c : Setup) (uid : ℕ) (host : Bool) (pages : ℕ) (s : Credit)
    → AllCapped s.users
    → AllCapped (pay c uid host pages s).users
unfolding pay
pay-AllCapped c uid host pages s h =
    update-AllCapped c uid (charge host pages) s.users (charge-IsCapped host pages) h

pub submit_isc_request-AllCapped :
    (c : Setup) (now uid pages : ℕ) (s : Credit)
    → AllCapped s.users
    → AllCapped (submit_isc_request c now uid pages s).users
unfolding submit_isc_request
submit_isc_request-AllCapped c now uid pages s h =
    let t = ensure_active_user c now uid s in
    let ht = ensure_active_user-AllCapped c now uid s h in
    if_keeps (λ (u : Credit). AllCapped u.users) (can_pay c uid pages t) _ _
      (pay-AllCapped c uid false pages t ht) ht

pub use_credit-AllCapped :
    (c : Setup) (uid used : ℕ) (s : Credit)
    → AllCapped s.users
    → AllCapped (use_credit c uid used s).users
unfolding use_credit take_credit
use_credit-AllCapped c uid used s h =
    update-AllCapped c uid (take_credit used) s.users (λ acc k. omega arith) h

pub use_credit_isc-AllCapped :
    (c : Setup) (uid used : ℕ) (s : Credit)
    → AllCapped s.users
    → AllCapped (use_credit_isc c uid used s).users
unfolding use_credit_isc take_credit_isc
use_credit_isc-AllCapped c uid used s h =
    update-AllCapped c uid (take_credit_isc used) s.users
      (λ acc k. charge-IsCapped false (min used acc.credit) acc k) h

dispatch_icl-AllCapped :
    (c : Setup) (icl : Icl) (req : Request) (now : ℕ) (s : Credit)
    → AllCapped s.users
    → AllCapped (dispatch_icl c icl req now s).1.users
unfolding dispatch_icl count_window
dispatch_icl-AllCapped c icl req now s h = elim (Option-cases (icl_call req)) [
  | inl e ↦ rw (e, dispatch_icl) h
  | inr (call, e) ↦
      rw (e, dispatch_icl)
        (update-AllCapped c req.user_id (count_window (request_pages req)) s.users (λ acc k. k) h)
]

pub serve_admin-AllCapped :
    (c : Setup) (icl : Icl) (reqs : List Request) (now : ℕ) (s : Credit)
    → AllCapped s.users
    → AllCapped (serve_admin c icl reqs (now, s)).1.users
unfolding serve_admin
serve_admin-AllCapped c icl [] now s h = h
serve_admin-AllCapped c icl (req ∷ rest) now s h =
    let r = dispatch_icl c icl req now s in
    serve_admin-AllCapped c icl rest r.0 r.1 (dispatch_icl-AllCapped c icl req now s h)

pub cap_steps : (c : Setup) (icl : Icl) → Steps c icl (λ m n. AllCapped m → AllCapped n)
unfolding pop_queue pop_isc get_or_create
cap_steps c icl = record {
  stays = λ m h. h;
  follows = λ h i k. i (h k);
  creates = λ uid s. update-AllCapped c uid (λ acc. acc) s.users (λ acc k. k);
  pays = λ uid host pages s t. pay-AllCapped c uid host pages s;
  dispatches = dispatch_icl-AllCapped c icl;
  pops = λ uid left m. update-AllCapped c uid (pop_queue left) m (λ acc k. k);
  pops_isc = λ uid left m. update-AllCapped c uid (pop_isc left) m (λ acc k. k);
}

pub init_users-AllCapped :
    (c : Setup) (now : ℕ) (uids : List ℕ) (m : Accounts)
    → AllCapped m
    → AllCapped (init_users c now uids m)
unfolding init_users init_account
init_users-AllCapped c now [] m h = h
init_users-AllCapped c now (uid ∷ rest) m h =
    init_users-AllCapped c now rest (with_user c uid (init_account now) m)
      (update-AllCapped c uid (init_account now) m (λ acc k. omega arith) h)
