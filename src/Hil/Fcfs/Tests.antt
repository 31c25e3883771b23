-- ===== src/Hil/Fcfs/Tests.antt =====
-- Runs of hil/scheduler/fcfs_scheduler.cc.
use testing.Common.{ℕ, ◌+◌, ◌≤◌, List, [], ◌∷◌, ◌++◌, length, true, false, ◌⊎◌, ◌≡◌, refl, arith}
use testing.Hil.Request.{Request, read_op, isc_get}
use testing.Hil.Fcfs.{Icl, Fcfs, create, submit}
use testing.Hil.Fcfs.Dispatch.{tick, start_from, scan, try_dispatch_host}
use testing.Hil.Fcfs.Scan.{first_waiting, above, upto, scan_lem}
use testing.Hil.Fcfs.Serve.{IsServed, waiting, try_dispatch_host_lem}
use testing.Hil.Fcfs.Invariant.{WellFormed}
use testing.Hil.Fcfs.Reach.{Reachable, created, then_step, submits, Reachable-WellFormed}
use testing.Hil.Fcfs.Fifo.{leaving, host_choice, after, Event, submitted, ticked, left_by, of_user}
use testing.Hil.Fcfs.Backlog.{backlog, ticks, ticks_lem}

-- A cache layer that takes 5 ticks per call.
abbrev icl : Icl
icl calls call now = now + 5

abbrev a_read : ℕ → ℕ → Request
a_read id user = record {
  req_id = id;
  req_sub_id = 0;
  offset = 0;
  length = 8192;
  range = record { slpn = 0; nlp = 2 };
  user_id = user;
  prio = 0;
  op = read_op;
}

abbrev a_task : ℕ → ℕ → Request
a_task id user = record (a_read id user) { op = isc_get }

abbrev busy : Fcfs
busy = submit (a_read 2 1002) (submit (a_read 1 1001) create)

busy-Reachable : Reachable icl busy
busy-Reachable =
    then_step (then_step created (submits create (a_read 1 1001))) (submits _ (a_read 2 1002))

abbrev busy-WellFormed : WellFormed busy
busy-WellFormed = Reachable-WellFormed icl busy busy-Reachable

Reachable-WellFormed_example : WellFormed busy
Reachable-WellFormed_example = Reachable-WellFormed icl busy busy-Reachable

scan_example :
    scan (λ acc. acc.queue) busy.users (length busy.users) (start_from busy.last_chosen busy.users)
    ≡ first_waiting
        (λ acc. acc.queue)
        (above busy.last_chosen busy.users ++ upto busy.last_chosen busy.users)
scan_example =
    scan_lem (λ acc. acc.queue) busy.last_chosen busy.users busy-WellFormed.tidy.ascending
      busy-WellFormed.known

try_dispatch_host_example :
    (((try_dispatch_host icl busy).0 ≡ true)
      × (uid : ℕ) × (request : Request) × IsServed uid request busy (try_dispatch_host icl busy).1)
    ⊎ ((try_dispatch_host icl busy ≡ (false, busy)) × ((uid : ℕ) → waiting busy uid ≡ []))
try_dispatch_host_example =
    try_dispatch_host_lem icl busy busy-WellFormed.tidy.ascending busy-WellFormed.known

abbrev events : List Event
events = submitted (a_read 3 1001) ∷ ticked 10 ∷ ticked 20 ∷ []

busy_backlog : backlog busy.users ≤ 2
unfolding backlog submit create
busy_backlog = omega arith

ticks_example : waiting (ticks icl (10 ∷ 20 ∷ []) busy) 1001 ≡ []
ticks_example = ticks_lem icl (10 ∷ 20 ∷ []) busy busy-WellFormed busy_backlog 1001

served_in_turn : of_user 1001 (left_by icl busy events) ≡ a_read 1 1001 ∷ []
unfolding of_user left_by submit create leaving host_choice scan after start_from tick
served_in_turn = refl
