-- ===== src/Hil/Fcfs/Invariant.antt =====
-- hil/scheduler/fcfs_scheduler.cc: the invariant of the scheduler, and that its operations keep it.
use testing.Common.{ℕ, length, ◌≡◌, refl, sym, subst, inl, inr, Option-cases, All}
use testing.Hil.Request.{Request, OpType}
use testing.Hil.Fcfs.{
  UserAccount, Users, Icl, Fcfs, push_host, push_isc, charge, request_pages, record_consumption,
  dispatch_request, submit, submit_isc,
}
use testing.Hil.Fcfs.Dispatch.{
  start_from, scan, try_dispatch_host, try_dispatch_isc, schedule, tick,
}
use testing.Hil.Fcfs.Scan.{IsKnown}
use testing.Hil.Fcfs.Waiting.{scan-found}
use testing.Hil.Fcfs.Serve.{
  put_keeps, host_found, host_none, dispatch_request-keeps, dispatch_request-users, with_user-keeps,
}
use testing.Hil.Fcfs.Tasks.{isc_found, isc_none}
use testing.Hil.Fcfs.Balance.{
  IsTidy, charge-queue, charge-IsBalanced, with_user-IsTidy, with_user-IsKnown, put-IsKnown,
  put-there, put-IsTidy,
}
use testing.Hil.Fcfs.Owned.{IsOwned, pop-IsOwned, push-IsOwned}

pub record WellFormed (s : Fcfs) : Type 0 where
  pub tidy : IsTidy s.users
  pub known : IsKnown s.last_chosen s.users
  pub known_isc : IsKnown s.last_chosen_isc s.users
  -- A request waits for the host in the queue of the user that it names.
  pub owned : IsOwned s.users

-- The users and the two positions are all that the invariant reads.
abbrev Core : Users → ℕ → ℕ → Type 0
Core m last last_isc = IsTidy m × IsKnown last m × IsKnown last_isc m × IsOwned m

record_consumption-Core :
    (uid pages last last_isc : ℕ) (op : OpType) (m : Users)
    → Core m last last_isc
    → Core (record_consumption uid pages op m) last last_isc
unfolding record_consumption
record_consumption-Core uid pages last last_isc op m h = (
  with_user-IsTidy uid (charge pages op) m (charge-IsBalanced pages op) h.0,
  with_user-IsKnown uid last (charge pages op) m h.1,
  with_user-IsKnown uid last_isc (charge pages op) m h.2,
  λ v.
      subst (All (λ r. r.user_id ≡ v))
        (sym (with_user-keeps (λ a. a.queue) (charge pages op) (charge-queue pages op) uid v m))
        (h.3 v),
)

from_core : (s : Fcfs) → Core s.users s.last_chosen s.last_chosen_isc → WellFormed s
from_core s h = record { tidy = h.0; known = h.1; known_isc = h.2; owned = h.3 }

dispatch_request-WellFormed :
    (icl : Icl) (req : Request) (s : Fcfs) → WellFormed s → WellFormed (dispatch_request icl req s)
dispatch_request-WellFormed icl req s h =
    let keeps = dispatch_request-keeps icl req s in
    from_core (dispatch_request icl req s) (
      rw (dispatch_request-users icl req s, keeps.1, keeps.2)
        (record_consumption-Core req.user_id (request_pages req) s.last_chosen s.last_chosen_isc
          req.op s.users (h.tidy, h.known, h.known_isc, h.owned)))

pub try_dispatch_host-WellFormed :
    (icl : Icl) (s : Fcfs) → WellFormed s → WellFormed (try_dispatch_host icl s).1
try_dispatch_host-WellFormed icl s h =
    elim (Option-cases
      (scan (λ acc. acc.queue) s.users (length s.users) (start_from s.last_chosen s.users))) [
        | inl e ↦ rw (host_none icl s e) h
        | inr (found, e) ↦
            let heads =
              scan-found (λ acc. acc.queue) s.last_chosen s.users h.tidy.ascending h.known found
                e in
            let popped : UserAccount = record found.1 { queue = found.3 } in
            rw (host_found icl s found e) (
              dispatch_request-WellFormed icl found.2 _ (record {
                tidy = put-IsTidy found.0 found.1 popped s.users heads.0 refl h.tidy;
                known = put-there found.0 found.1 popped s.users heads.0;
                known_isc =
                    put-IsKnown found.0 s.last_chosen_isc found.1 popped s.users heads.0
                      h.known_isc;
                owned = pop-IsOwned found.0 found.1 popped s.users heads.0 found.2 heads.1 h.owned;
              }))
      ]

pub try_dispatch_isc-WellFormed :
    (icl : Icl) (s : Fcfs) → WellFormed s → WellFormed (try_dispatch_isc icl s).1
try_dispatch_isc-WellFormed icl s h =
    elim (Option-cases (
      scan (λ acc. acc.queue_isc) s.users (length s.users)
        (start_from s.last_chosen_isc s.users))) [
          | inl e ↦ rw (isc_none icl s e) h
          | inr (found, e) ↦
              let heads =
                scan-found (λ acc. acc.queue_isc) s.last_chosen_isc s.users h.tidy.ascending
                  h.known_isc found e in
              let popped : UserAccount = record found.1 { queue_isc = found.3 } in
              rw (isc_found icl s found e) (
                dispatch_request-WellFormed icl found.2 _ (record {
                  tidy = put-IsTidy found.0 found.1 popped s.users heads.0 refl h.tidy;
                  known = put-IsKnown found.0 s.last_chosen found.1 popped s.users heads.0 h.known;
                  known_isc = put-there found.0 found.1 popped s.users heads.0;
                  owned = λ v.
                      subst (All (λ r. r.user_id ≡ v))
                        (sym
                          (put_keeps found.0 found.1 popped s.users heads.0 (λ a. a.queue) refl v))
                        (h.owned v);
                }))
        ]

schedule-WellFormed : (icl : Icl) (s : Fcfs) → WellFormed s → WellFormed (schedule icl s)
unfolding schedule
schedule-WellFormed icl s h =
    try_dispatch_isc-WellFormed icl (try_dispatch_host icl s).1
      (try_dispatch_host-WellFormed icl s h)

pub tick-WellFormed : (icl : Icl) (now : ℕ) (s : Fcfs) → WellFormed s → WellFormed (tick icl now s)
unfolding tick
tick-WellFormed icl now s h =
    schedule-WellFormed icl _
      (record { tidy = h.tidy; known = h.known; known_isc = h.known_isc; owned = h.owned })

pub submit-WellFormed : (req : Request) (s : Fcfs) → WellFormed s → WellFormed (submit req s)
unfolding submit push_host
submit-WellFormed req s h = record {
  tidy = with_user-IsTidy req.user_id (push_host req) s.users (λ a b. b) h.tidy;
  known = with_user-IsKnown req.user_id s.last_chosen (push_host req) s.users h.known;
  known_isc = with_user-IsKnown req.user_id s.last_chosen_isc (push_host req) s.users h.known_isc;
  owned = push-IsOwned req s.users h.owned;
}

pub submit_isc-WellFormed :
    (uid : ℕ) (req : Request) (s : Fcfs) → WellFormed s → WellFormed (submit_isc uid req s)
unfolding submit_isc push_isc
submit_isc-WellFormed uid req s h = record {
  tidy = with_user-IsTidy uid (push_isc req) s.users (λ a b. b) h.tidy;
  known = with_user-IsKnown uid s.last_chosen (push_isc req) s.users h.known;
  known_isc = with_user-IsKnown uid s.last_chosen_isc (push_isc req) s.users h.known_isc;
  owned = λ v.
      subst (All (λ r. r.user_id ≡ v))
        (sym (with_user-keeps (λ a. a.queue) (push_isc req) (λ a. refl) uid v s.users)) (h.owned v);
}
