-- ===== src/Hil/Credit.antt =====
-- `CreditScheduler` of hil/scheduler/credit_scheduler.cc and .hh: its accounts, the submission of
-- requests, and the charges. The shares that a refill computes in floating point stay out, and with
-- them the refill.
pub mod Start
pub mod Steps
pub mod Ledger
pub mod Budget
pub mod Serve
pub mod Refill
pub mod Caps
pub mod Reach
pub mod Tests
use testing.Common.{
  ℕ, zero, suc, ◌+◌, ◌-◌, ◌*◌, ◌/◌, ◌%◌, ◌^◌, min, List, [], ◌∷◌, ◌++◌, length, Bool, true, false,
  ◌||◌, ◌&&◌, not, Option, none, some, if◌then◌else◌, ◌==◌, ltb, leb,
}
use testing.Common.Maps.{lookup, put, insert}
use testing.Hil.Request.{Request, OpType, read_op, write_op, credit_only, isc_result}
use testing.Hil.Fcfs.{IclCall, Icl, is_host, icl_call, request_pages}

pub record Account : Type 0 where
  pub weight : ℕ
  pub credit_cap : ℕ
  pub credit : ℕ
  pub total_consumed : ℕ
  pub consumed_host : ℕ
  pub consumed_isc : ℕ
  pub is_slo : Bool
  pub is_active : Bool
  pub last_refill : ℕ
  pub idle_periods : ℕ
  pub pending_gates : ℕ
  pub queue : List Request
  pub queue_isc : List Request
  pub win_host_pages : ℕ
  pub win_host_ios : ℕ

abbrev pub Accounts : Type 0
Accounts = List (ℕ × Account)

pub record Deferred : Type 0 where
  pub req : Request
  pub pages : ℕ
  pub defer_time : ℕ

-- `DeferredCustom`, a callback that waits for credit.
pub record Custom : Type 0 where
  pub uid : ℕ
  pub pages : ℕ
  pub defer_time : ℕ

-- `ISCDeferredRequest`.
pub record IscRequest : Type 0 where
  pub uid : ℕ
  pub pages_needed : ℕ
  pub submit_tick : ℕ
  pub estimated_latency : ℕ

-- `timer` lists the ticks at which the refill event was scheduled, `resumed` the callbacks that were
-- called, each with its user and tick, newest first. Neither a callback nor the
-- cache layer calls the scheduler again.
pub record Credit : Type 0 where
  pub admin : List Request
  pub users : Accounts
  pub last_chosen : ℕ
  pub last_chosen_isc : ℕ
  pub timer_started : Bool
  pub next_refill : ℕ
  pub deferred : List Deferred
  pub deferred_isc : List Custom
  pub isc_requests : List IscRequest
  pub timer : List ℕ
  pub resumed : List (ℕ × ℕ)
  pub calls : List IclCall

-- The period of the refill, and the cap of a new account, which the source computes in floating point.
pub record Setup : Type 0 where
  pub period : ℕ
  pub cap : ℕ

unfoldable pub new_account : Setup → Account
new_account c = record {
  weight = 1;
  credit_cap = c.cap;
  credit = 0;
  total_consumed = 0;
  consumed_host = 0;
  consumed_isc = 0;
  is_slo = false;
  is_active = false;
  last_refill = 0;
  idle_periods = 0;
  pending_gates = 0;
  queue = [];
  queue_isc = [];
  win_host_pages = 0;
  win_host_ios = 0;
}

-- The account that `getOrCreateUser` returns.
unfoldable pub account : Setup → ℕ → Accounts → Account
unfolding lookup new_account
account c uid users = elim (lookup uid users) [ none ↦ new_account c | some acc ↦ acc ]

-- An update of it.
unfoldable pub with_user : Setup → ℕ → (Account → Account) → Accounts → Accounts
unfolding lookup put new_account
with_user c uid change users = elim (lookup uid users) [
  | none ↦ insert uid (change (new_account c)) users
  | some acc ↦ put uid (change acc) users
]

unfoldable pub is_gate : OpType → Bool
is_gate credit_only = true
is_gate isc_result = true
is_gate _ = false

unfoldable pub counts_gate : OpType → ℕ
counts_gate credit_only = 1
counts_gate _ = 0

-- A gate goes in front of the tasks, another request behind the host requests.
unfoldable pub enqueue : Request → Account → Account
unfolding is_gate counts_gate
enqueue req acc =
    if is_gate req.op
    then record acc {
      pending_gates = (acc.pending_gates + counts_gate req.op) % 2 ^ 64;
      queue_isc = req ∷ acc.queue_isc;
    }
    else record acc { queue = acc.queue ++ (req ∷ []) }

unfoldable pub activate : ℕ → Account → Account
activate now acc =
    if acc.is_active
    then acc
    else record acc { is_active = true; credit = 0; idle_periods = 0; last_refill = now }

-- The timer starts with the first user that becomes active.
unfoldable pub start_timer : Setup → ℕ → Credit → Credit
start_timer c now s = if s.timer_started then s else record s {
  timer_started = true;
  next_refill = (now + c.period) % 2 ^ 64;
  timer = (now + c.period) % 2 ^ 64 ∷ s.timer;
}

-- `submitRequest`; `now` is the tick of the simulator.
unfoldable pub submit : Setup → ℕ → Request → Credit → Credit
unfolding enqueue activate start_timer account with_user
submit c now req s =
    if req.user_id == 0
    then record s { admin = s.admin ++ (req ∷ []) }
    else (let was_active = (account c req.user_id s.users).is_active in
        let t : Credit = record s {
          users = with_user c req.user_id (λ acc. activate now (enqueue req acc)) s.users;
        } in
        if was_active then t else start_timer c now t)

-- `ensureActiveUser`.
unfoldable pub ensure_active_user : Setup → (now uid : ℕ) → Credit → Credit
unfolding activate start_timer account with_user
ensure_active_user c now uid s =
    let was_active = (account c uid s.users).is_active in
    let t : Credit = record s { users = with_user c uid (activate now) s.users } in
    if was_active then t else start_timer c now t

-- `submitISCDeferred`.
unfoldable pub submit_isc_deferred : (now uid pages : ℕ) → Credit → Credit
submit_isc_deferred now uid pages s = record s {
  deferred_isc = s.deferred_isc ++ ((record { uid = uid; pages = pages; defer_time = now }) ∷ []);
}

-- Pages that there is credit for are charged, to the host or to tasks.
unfoldable pub charge : Bool → ℕ → Account → Account
charge host pages acc = record acc {
  credit = acc.credit - pages;
  total_consumed = (acc.total_consumed + pages) % 2 ^ 64;
  consumed_host = if host then (acc.consumed_host + pages) % 2 ^ 64 else acc.consumed_host;
  consumed_isc = if host then acc.consumed_isc else (acc.consumed_isc + pages) % 2 ^ 64;
}

-- `useCredit`: at most what there is, and to neither class.
unfoldable pub take_credit : ℕ → Account → Account
take_credit used acc =
    let take = min used acc.credit in
    record acc { credit = acc.credit - take; total_consumed = (acc.total_consumed + take) % 2 ^ 64 }

unfoldable pub use_credit : Setup → (uid used : ℕ) → Credit → Credit
unfolding with_user take_credit
use_credit c uid used s = record s { users = with_user c uid (take_credit used) s.users }

-- `useCreditISC`.
unfoldable pub take_credit_isc : ℕ → Account → Account
unfolding charge
take_credit_isc used acc = charge false (min used acc.credit) acc

unfoldable pub use_credit_isc : Setup → (uid used : ℕ) → Credit → Credit
unfolding with_user take_credit_isc
use_credit_isc c uid used s = record s { users = with_user c uid (take_credit_isc used) s.users }

-- `checkCredit`: also the first request of a user passes.
unfoldable pub check_credit : ℕ → ℕ → Credit → Bool
unfolding lookup
check_credit uid need s = elim (lookup uid s.users) [
  | none ↦ true
  | some acc ↦
      leb need acc.credit || (acc.credit == 0 && ltb 0 acc.credit_cap && acc.total_consumed == 0)
]

-- `pendingForUser`, `getUserCredit` and `getUserWeight`.
unfoldable pub pending_for_user : ℕ → Credit → Bool
unfolding lookup
pending_for_user uid s = elim (lookup uid s.users) [
  | none ↦ false
  | some acc ↦ not (acc.pending_gates == 0)
]

unfoldable pub get_user_credit : ℕ → Credit → ℕ
unfolding lookup
get_user_credit uid s = elim (lookup uid s.users) [ none ↦ 0 | some acc ↦ acc.credit ]

unfoldable pub get_user_weight : ℕ → Credit → ℕ
unfolding lookup
get_user_weight uid s = elim (lookup uid s.users) [ none ↦ 1 | some acc ↦ acc.weight ]
