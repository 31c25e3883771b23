-- ===== src/Hil/Fcfs/Backlog.antt =====
-- hil/scheduler/fcfs_scheduler.cc: how many host requests wait, and how long the scheduler takes to
-- serve them.
use testing.Common.{
  ℕ, ◌+◌, ◌-◌, ◌≤◌, ◌%◌, ◌^◌, leb, List, [], ◌∷◌, length, none, some, if◌then◌else◌, ◌≡◌, refl, ap,
  ◌∙◌, subst, arith, inl, inr, Option-cases, ==-refl, All,
}
use testing.Common.Maps.{lookup, put}
use testing.Hil.Request.{Request, OpType}
use testing.Hil.Fcfs.{
  UserAccount, Users, Icl, Fcfs, report_interval, new_account, insert_sorted, get_or_create,
  with_user, charge, record_consumption, request_pages, dispatch_request,
}
use testing.Hil.Fcfs.Dispatch.{
  start_from, scan, try_dispatch_host, try_dispatch_isc, schedule, tick,
}
use testing.Hil.Fcfs.Accounts.{
  account, account_old, lookup-get_or_create, get_or_create_new, get_or_create_old,
}
use testing.Hil.Fcfs.Waiting.{scan-none, scan-found, entries-lookup, All-imp}
use testing.Hil.Fcfs.Serve.{waiting, host_none, host_found, new_queue, dispatch_request-users}
use testing.Hil.Fcfs.Tasks.{isc_found, isc_none}
use testing.Hil.Fcfs.Invariant.{WellFormed, tick-WellFormed, try_dispatch_host-WellFormed}

-- The host requests that wait, of all users.
unfoldable pub backlog : Users → ℕ
backlog [] = 0
backlog ((uid, acc) ∷ rest) = length acc.queue + backlog rest

backlog-put :
    (uid : ℕ) (acc new : UserAccount) (m : Users)
    → lookup uid m ≡ some acc
    → backlog (put uid new m) + length acc.queue ≡ backlog m + length new.queue
unfolding backlog put lookup
backlog-put uid acc new [] e = cc
backlog-put uid acc new ((k, a) ∷ m) e = ground (arith, backlog-put uid acc new m)

backlog-insert_sorted :
    (uid : ℕ) (acc : UserAccount) (m : Users)
    → lookup uid m ≡ none
    → backlog (insert_sorted uid acc m) ≡ backlog m + length acc.queue
unfolding backlog insert_sorted lookup
backlog-insert_sorted uid acc [] e = omega arith
backlog-insert_sorted uid acc ((k, a) ∷ m) e = ground (arith, backlog-insert_sorted uid acc m)

backlog-get_or_create : (uid : ℕ) (m : Users) → backlog (get_or_create uid m).1 ≡ backlog m
unfolding new_account
backlog-get_or_create uid m = elim (Option-cases (lookup uid m)) [
  | inl e ↦ rw (get_or_create_new uid m e) (backlog-insert_sorted uid new_account m e ∙ omega arith)
  | inr (acc, e) ↦ rw (get_or_create_old uid m acc e) refl
]

-- An update that keeps the host queue keeps the backlog.
backlog-charge :
    (uid pages : ℕ) (op : OpType) (m : Users)
    → backlog (record_consumption uid pages op m) ≡ backlog m
unfolding record_consumption with_user charge
backlog-charge uid pages op m =
    let found = get_or_create uid m in
    let at = lookup-get_or_create uid uid m in
    omega (
      arith,
      backlog-get_or_create uid m,
      backlog-put uid (account uid m) (charge pages op found.0) found.1
          (at.1 ∙ ap (λ b. if b then some (account uid m) else lookup uid m) (==-refl uid)),
      ap (λ a. length a.queue) at.0,
    )

backlog-dispatch_request :
    (icl : Icl) (req : Request) (s : Fcfs)
    → backlog (dispatch_request icl req s).users ≡ backlog s.users
backlog-dispatch_request icl req s =
    ap backlog (dispatch_request-users icl req s)
    ∙ backlog-charge req.user_id (request_pages req) req.op s.users

-- No request waits if there is none in any account.
backlog_zero :
    (m n : Users)
    → All (λ e. account e.0 m ≡ e.1) n
    → ((uid : ℕ) → (account uid m).queue ≡ [])
    → backlog n ≡ 0
unfolding backlog
backlog_zero m [] h empty = refl
backlog_zero m ((k, a) ∷ n) h empty =
    let none_here : a.queue ≡ [] = subst (λ b. b.queue ≡ []) h.0 (empty k) in
    omega (arith, ap length none_here, backlog_zero m n h.1 empty)

host-backlog :
    (icl : Icl) (s : Fcfs)
    → WellFormed s
    → backlog (try_dispatch_host icl s).1.users ≡ backlog s.users - 1
host-backlog icl s h =
    elim (Option-cases
      (scan (λ acc. acc.queue) s.users (length s.users) (start_from s.last_chosen s.users))) [
        | inl e ↦
            let empty =
              scan-none (λ acc. acc.queue) s.last_chosen s.users h.tidy.ascending h.known new_queue
                e in
            let each =
              All-imp _ (λ e. account e.0 s.users ≡ e.1) s.users
                (λ e g. account_old e.0 s.users e.1 g.1)
                (entries-lookup 0 s.users h.tidy.ascending) in
            let nothing = backlog_zero s.users s.users each empty in
            rw (host_none icl s e) (omega (arith, nothing))
        | inr (found, e) ↦
            let heads =
              scan-found (λ acc. acc.queue) s.last_chosen s.users h.tidy.ascending h.known found
                e in
            let popped : UserAccount = record found.1 { queue = found.3 } in
            rw (host_found icl s found e) (
              omega (
                arith,
                backlog-dispatch_request icl found.2
                    (record s { users = put found.0 popped s.users; last_chosen = found.0 }),
                backlog-put found.0 found.1 popped s.users heads.0,
                ap length heads.1,
              ))
      ]

isc-backlog :
    (icl : Icl) (s : Fcfs)
    → WellFormed s
    → backlog (try_dispatch_isc icl s).1.users ≡ backlog s.users
isc-backlog icl s h =
    elim (Option-cases (
      scan (λ acc. acc.queue_isc) s.users (length s.users)
        (start_from s.last_chosen_isc s.users))) [
          | inl e ↦ rw (isc_none icl s e) refl
          | inr (found, e) ↦
              let heads =
                scan-found (λ acc. acc.queue_isc) s.last_chosen_isc s.users h.tidy.ascending
                  h.known_isc found e in
              let popped : UserAccount = record found.1 { queue_isc = found.3 } in
              rw (isc_found icl s found e) (
                omega (
                  arith,
                  backlog-dispatch_request icl found.2
                      (record s { users = put found.0 popped s.users; last_chosen_isc = found.0 }),
                  backlog-put found.0 found.1 popped s.users heads.0,
                ))
        ]

tick-backlog :
    (icl : Icl) (now : ℕ) (s : Fcfs)
    → WellFormed s
    → backlog (tick icl now s).users ≡ backlog s.users - 1
unfolding tick schedule
tick-backlog icl now s h =
    let started : Fcfs = record s {
      current_tick = now;
      last_report =
          if leb report_interval ((now + 2 ^ 64 - s.last_report) % 2 ^ 64)
          then now
          else s.last_report;
    } in
    let well : WellFormed started = record {
      tidy = h.tidy;
      known = h.known;
      known_isc = h.known_isc;
      owned = h.owned;
    } in
    isc-backlog icl (try_dispatch_host icl started).1
      (try_dispatch_host-WellFormed icl started well)
    ∙ host-backlog icl started well

-- The ticks at the given times.
unfoldable pub ticks : Icl → List ℕ → Fcfs → Fcfs
ticks icl [] s = s
ticks icl (now ∷ later) s = ticks icl later (tick icl now s)

account-backlog : (uid : ℕ) (m : Users) → length (account uid m).queue ≤ backlog m
unfolding backlog account new_account lookup
account-backlog uid [] = omega arith
account-backlog uid ((k, a) ∷ m) = ground (arith, account-backlog uid m)

length-zero : (l : List Request) → length l ≡ 0 → l ≡ []
length-zero [] e = refl
length-zero (r ∷ l) e = absurd (omega arith)

-- On a well-formed state of the scheduler, after at least as many ticks as host requests wait,
-- whatever their times, no host request of any user waits.
pub ticks_lem :
    (icl : Icl) (nows : List ℕ) (s : Fcfs)
    → WellFormed s
    → backlog s.users ≤ length nows
    → (uid : ℕ) → waiting (ticks icl nows s) uid ≡ []
unfolding ticks
ticks_lem icl [] s h enough uid = length-zero _ (omega (arith, account-backlog uid s.users))
ticks_lem icl (now ∷ later) s h enough uid =
    ticks_lem icl later (tick icl now s) (tick-WellFormed icl now s h)
      (omega (arith, tick-backlog icl now s h)) uid
