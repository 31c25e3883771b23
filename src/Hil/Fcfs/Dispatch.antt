-- ===== src/Hil/Fcfs/Dispatch.antt =====
-- The round-robin dispatch of hil/scheduler/fcfs_scheduler.cc.
use testing.Common.{
  ℕ, zero, suc, ◌+◌, ◌-◌, ◌%◌, ◌^◌, List, [], ◌∷◌, length, Bool, true, false, Option, none, some,
  if◌then◌else◌, ◌==◌, leb,
}
use testing.Common.Maps.{put}
use testing.Hil.Request.{Request}
use testing.Hil.Fcfs.{UserAccount, Users, Icl, Fcfs, report_interval, submit, dispatch_request}

-- `users.find(uid)`: an iterator is the rest of the map from where it stands.
unfoldable pub find_from : ℕ → Users → Users
find_from uid [] = []
find_from uid ((k, acc) ∷ rest) = if k == uid then (k, acc) ∷ rest else find_from uid rest

-- The user after `last`, or the first one.
unfoldable pub start_from : ℕ → Users → Users
unfolding find_from
start_from last users = elim (find_from last users) [
  | [] ↦ users
  | _ ∷ [] ↦ users
  | _ ∷ next ∷ rest ↦ next ∷ rest
]

-- `if (it == users.end()) it = users.begin()`.
unfoldable pub wrap : Users → Users → Users
wrap users [] = users
wrap users (entry ∷ rest) = entry ∷ rest

-- The loop of `tryDispatchHost` and `tryDispatchISC`, up to the request it takes: each round looks at
-- the queue of one user.
unfoldable pub scan :
    (UserAccount → List Request)
    → Users
    → ℕ
    → Users
    → Option (ℕ × UserAccount × Request × List Request)
unfolding wrap
scan queue_of users zero it = none
scan queue_of users (suc rounds) it = elim (wrap users it) [
  | [] ↦ none
  | (uid, acc) ∷ rest ↦ elim (queue_of acc) [
    | [] ↦ scan queue_of users rounds rest
    | req ∷ left ↦ some (uid, acc, req, left)
  ]
]

-- `tryDispatchHost`.
unfoldable pub try_dispatch_host : Icl → Fcfs → Bool × Fcfs
unfolding start_from scan put dispatch_request
try_dispatch_host icl s =
    elim (scan (λ acc. acc.queue) s.users (length s.users) (start_from s.last_chosen s.users)) [
      | none ↦ (false, s)
      | some (uid, acc, req, left) ↦ (
        true,
        dispatch_request icl req
            (record s { users = put uid (record acc { queue = left }) s.users; last_chosen = uid }),
      )
    ]

-- `tryDispatchISC`.
unfoldable pub try_dispatch_isc : Icl → Fcfs → Bool × Fcfs
unfolding start_from scan put dispatch_request
try_dispatch_isc icl s =
    elim (scan (λ acc. acc.queue_isc) s.users (length s.users)
      (start_from s.last_chosen_isc s.users)) [
        | none ↦ (false, s)
        | some (uid, acc, req, left) ↦ (
          true,
          dispatch_request icl req (record s {
            users = put uid (record acc { queue_isc = left }) s.users;
            last_chosen_isc = uid;
          }),
        )
      ]

-- `schedule`: one host request, then one in-storage task.
unfoldable pub schedule : Icl → Fcfs → Fcfs
unfolding try_dispatch_host try_dispatch_isc
schedule icl s = (try_dispatch_isc icl (try_dispatch_host icl s).1).1

-- `tick`; the report that it prints changes nothing else.
unfoldable pub tick : Icl → ℕ → Fcfs → Fcfs
unfolding schedule
tick icl now s = schedule icl (record s {
  current_tick = now;
  last_report =
      if leb report_interval ((now + 2 ^ 64 - s.last_report) % 2 ^ 64) then now else s.last_report;
})

-- `processUntil`: the completion tick of the caller. The latency is that of the firmware, as the cpu
-- model counts it.
unfoldable pub process_until : Icl → ℕ → Request → ℕ → Fcfs → ℕ × Fcfs
unfolding submit tick
process_until icl latency req completion s =
    ((completion + latency) % 2 ^ 64, tick icl completion (submit req s))
