-- ===== src/Hil/Fcfs.antt =====
-- `FCFSScheduler` of hil/scheduler/fcfs_scheduler.cc and .hh: one queue of host requests and one of
-- in-storage tasks per user, served round-robin.
pub mod Dispatch
pub mod Stats
pub mod Accounts
pub mod Scan
pub mod Waiting
pub mod Serve
pub mod Tasks
pub mod Balance
pub mod Owned
pub mod Invariant
pub mod Reach
pub mod Fifo
pub mod Dispatched
pub mod Backlog
mod Tests
use testing.Common.{
  ℕ, zero, suc, ◌+◌, ◌-◌, ◌*◌, ◌/◌, ◌%◌, ◌^◌, List, [], ◌∷◌, ◌++◌, length, Bool, true, false, ◌||◌,
  not, Option, none, some, if◌then◌else◌, ◌==◌, ltb, leb,
}
use testing.Common.Maps.{lookup, put}
use testing.Hil.Request.{Request, IclRequest, OpType, read_op, write_op, to_icl}

pub record UserAccount : Type 0 where
  pub total_consumed : ℕ
  pub consumed_host : ℕ
  pub consumed_isc : ℕ
  pub is_active : Bool
  pub queue : List Request
  pub queue_isc : List Request

abbrev pub Users : Type 0
Users = List (ℕ × UserAccount)

-- A call of the cache layer: `pICL->read` or `pICL->write`.
pub data IclCall : Type 0 where
  read_call : IclRequest → IclCall
  write_call : IclRequest → IclCall

-- The cache layer: the tick at which a call ends, given the calls before it, newest first.
abbrev pub Icl : Type 0
Icl = List IclCall → IclCall → ℕ → ℕ

pub record Fcfs : Type 0 where
  pub current_tick : ℕ
  pub users : Users
  pub stat_users : List ℕ
  pub last_chosen : ℕ
  pub last_chosen_isc : ℕ
  pub last_report : ℕ
  pub calls : List IclCall

abbrev pub report_interval : ℕ
report_interval = 1000000000

abbrev pub page_size : ℕ
page_size = 4096

abbrev pub is_empty {ℓ} : {A : Type ℓ} → List A → Bool
is_empty [] = true
is_empty (x ∷ rest) = false

unfoldable pub new_account : UserAccount
new_account = record {
  total_consumed = 0;
  consumed_host = 0;
  consumed_isc = 0;
  is_active = false;
  queue = [];
  queue_isc = [];
}

-- `users[uid] = account` of the ordered map.
unfoldable pub insert_sorted : ℕ → UserAccount → Users → Users
insert_sorted uid acc [] = (uid, acc) ∷ []
insert_sorted uid acc ((k, v) ∷ rest) =
    if ltb uid k
    then (uid, acc) ∷ (k, v) ∷ rest
    else if uid == k
    then (uid, acc) ∷ rest
    else (k, v) ∷ insert_sorted uid acc rest

-- `getOrCreateUser`: the account, and the map that now has it.
unfoldable pub get_or_create : ℕ → Users → UserAccount × Users
unfolding lookup new_account insert_sorted
get_or_create uid users = elim (lookup uid users) [
  | some acc ↦ (acc, users)
  | none ↦ (new_account, insert_sorted uid new_account users)
]

-- An update of the account that `getOrCreateUser` returns by reference.
unfoldable pub with_user : ℕ → (UserAccount → UserAccount) → Users → Users
unfolding get_or_create put
with_user uid change users = let found = get_or_create uid users in put uid (change found.0) found.1

unfoldable pub create_users : List ℕ → Users → Users
unfolding get_or_create
create_users [] users = users
create_users (uid ∷ rest) users = create_users rest (get_or_create uid users).1

-- The constructor.
unfoldable pub create : Fcfs
unfolding create_users
create = record {
  current_tick = 0;
  users = create_users (1001 ∷ 1002 ∷ []) [];
  stat_users = 1001 ∷ 1002 ∷ [];
  last_chosen = 0;
  last_chosen_isc = 0;
  last_report = 0;
  calls = [];
}

unfoldable pub push_host : Request → UserAccount → UserAccount
push_host req acc = record acc { queue = acc.queue ++ (req ∷ []); is_active = true }

unfoldable pub push_isc : Request → UserAccount → UserAccount
push_isc req acc = record acc { queue_isc = acc.queue_isc ++ (req ∷ []); is_active = true }

-- `submitRequest`.
unfoldable pub submit : Request → Fcfs → Fcfs
unfolding with_user push_host
submit req s = record s { users = with_user req.user_id (push_host req) s.users }

-- `submitRequestISC`: under `uid`, whatever user the request names.
unfoldable pub submit_isc : ℕ → Request → Fcfs → Fcfs
unfolding with_user push_isc
submit_isc uid req s = record s { users = with_user uid (push_isc req) s.users }

unfoldable pub is_host : OpType → Bool
is_host read_op = true
is_host write_op = true
is_host _ = false

-- `recordPageConsumptionByOpType`: reads and writes count as host pages.
unfoldable pub charge : ℕ → OpType → UserAccount → UserAccount
unfolding is_host
charge pages op acc = record acc {
  total_consumed = (acc.total_consumed + pages) % 2 ^ 64;
  consumed_host = if is_host op then (acc.consumed_host + pages) % 2 ^ 64 else acc.consumed_host;
  consumed_isc = if is_host op then acc.consumed_isc else (acc.consumed_isc + pages) % 2 ^ 64;
}

unfoldable pub record_consumption : ℕ → ℕ → OpType → Users → Users
unfolding with_user charge
record_consumption uid pages op users = with_user uid (charge pages op) users

-- `recordPageConsumption`, which nothing calls.
unfoldable record_page_consumption : ℕ → ℕ → Bool → Users → Users
unfolding with_user
record_page_consumption uid pages is_isc users =
    let add : UserAccount → UserAccount = λ acc. record acc {
      total_consumed = (acc.total_consumed + pages) % 2 ^ 64;
      consumed_host = if is_isc then acc.consumed_host else (acc.consumed_host + pages) % 2 ^ 64;
      consumed_isc = if is_isc then (acc.consumed_isc + pages) % 2 ^ 64 else acc.consumed_isc;
    } in
    with_user uid add users

unfoldable pub request_pages : Request → ℕ
request_pages req = (req.length + page_size - 1) % 2 ^ 64 / page_size

-- The call that `dispatchICL` makes, if any.
unfoldable pub icl_call : Request → Option IclCall
icl_call req = elim req.op [
  | read_op ↦ some (read_call (to_icl req))
  | write_op ↦ some (write_call (to_icl req))
  | _ ↦ none
]

-- `dispatchICL`: the cache layer moves the scheduler's own tick, which it is passed by reference.
unfoldable pub dispatch_icl : Icl → Request → Fcfs → Fcfs
unfolding icl_call
dispatch_icl icl req s = elim (icl_call req) [
  | none ↦ s
  | some call ↦ record s { current_tick = icl s.calls call s.current_tick; calls = call ∷ s.calls }
]

-- `dispatchRequest`.
unfoldable pub dispatch_request : Icl → Request → Fcfs → Fcfs
unfolding record_consumption request_pages dispatch_icl
dispatch_request icl req s =
    dispatch_icl icl req
      (record s { users = record_consumption req.user_id (request_pages req) req.op s.users })
