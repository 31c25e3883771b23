-- ===== src/Hil/Credit/Start.antt =====
-- The constructor of hil/scheduler/credit_scheduler.cc: three users for the statistics, none active.
use testing.Common.{ℕ, List, [], ◌∷◌, false}
use testing.Hil.Credit.{Account, Accounts, Credit, Setup, with_user}

abbrev pub stat_users : List ℕ
stat_users = 1001 ∷ 1002 ∷ 1003 ∷ []

unfoldable pub init_account : (now : ℕ) → Account → Account
init_account now acc = record acc { is_active = false; credit = 0; last_refill = now }

unfoldable pub init_users : Setup → (now : ℕ) → List ℕ → Accounts → Accounts
unfolding init_account with_user
init_users c now [] users = users
init_users c now (uid ∷ rest) users =
    init_users c now rest (with_user c uid (init_account now) users)

unfoldable pub create : Setup → (now : ℕ) → Credit
unfolding init_users
create c now = record {
  admin = [];
  users = init_users c now stat_users [];
  last_chosen = 0;
  last_chosen_isc = 0;
  timer_started = false;
  next_refill = 0;
  deferred = [];
  deferred_isc = [];
  isc_requests = [];
  timer = [];
  resumed = [];
  calls = [];
}
