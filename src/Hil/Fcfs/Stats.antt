-- ===== src/Hil/Fcfs/Stats.antt =====
-- The statistics of hil/scheduler/fcfs_scheduler.cc and its test for waiting requests.
use testing.Common.{
  ℕ, zero, suc, ◌+◌, ◌%◌, ◌^◌, List, [], ◌∷◌, ◌++◌, Bool, false, ◌||◌, not, none, some,
  if◌then◌else◌,
}
use testing.Common.Maps.{lookup}
use testing.Hil.Fcfs.{Users, Fcfs, is_empty, create_users}

-- `pendingForUser`.
unfoldable pub pending_for_user : ℕ → Fcfs → Bool
unfolding lookup
pending_for_user uid s = elim (lookup uid s.users) [
  | none ↦ false
  | some acc ↦ not (is_empty acc.queue) || not (is_empty acc.queue_isc)
]

-- `resetStatValues`: it drops the accounts with the requests that wait in them.
unfoldable pub reset_stat_values : Fcfs → Fcfs
unfolding create_users
reset_stat_values s = record s {
  users = create_users s.stat_users [];
  last_report = 0;
  last_chosen = 0;
  last_chosen_isc = 0;
}

-- The values of `getStatValues` as integers: three for each of the users 1001 to 1020, the total, and
-- how many are active.
unfoldable pub user_values : ℕ → Users → List ℕ
unfolding lookup
user_values uid users = elim (lookup uid users) [
  | none ↦ 0 ∷ 0 ∷ 0 ∷ []
  | some acc ↦ acc.total_consumed ∷ acc.consumed_host ∷ acc.consumed_isc ∷ []
]

unfoldable pub values_from : ℕ → ℕ → Users → List ℕ
unfolding user_values
values_from zero uid users = []
values_from (suc count) uid users = user_values uid users ++ values_from count (suc uid) users

unfoldable pub sum_consumed : Users → ℕ
sum_consumed [] = 0
sum_consumed ((uid, acc) ∷ rest) = (acc.total_consumed + sum_consumed rest) % 2 ^ 64

unfoldable pub count_active : Users → ℕ
count_active [] = 0
count_active ((uid, acc) ∷ rest) =
    if acc.is_active then suc (count_active rest) else count_active rest

unfoldable pub get_stat_values : Fcfs → List ℕ
unfolding values_from sum_consumed count_active
get_stat_values s =
    values_from 20 1001 s.users ++ (sum_consumed s.users ∷ count_active s.users ∷ [])
