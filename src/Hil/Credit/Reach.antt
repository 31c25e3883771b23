-- ===== src/Hil/Credit/Reach.antt =====
-- hil/scheduler/credit_scheduler.cc: the states that its operations reach, and that their accounts stay below the caps.
use testing.Common.{ℕ, []}
use testing.Hil.Request.{Request}
use testing.Hil.Fcfs.{Icl}
use testing.Hil.Credit.{
  Credit, Setup, submit, ensure_active_user, submit_isc_deferred, use_credit, use_credit_isc,
}
use testing.Hil.Credit.Serve.{serve_admin, submit_isc_request, serve}
use testing.Hil.Credit.Start.{stat_users, create}
use testing.Hil.Credit.Steps.{serve_step}
use testing.Hil.Credit.Refill.{Shares, refill}
use testing.Hil.Credit.Refill.Capped.{AllCapped, refill_lem}
use testing.Hil.Credit.Caps.{
  submit-AllCapped, ensure_active_user-AllCapped, submit_isc_request-AllCapped,
  use_credit-AllCapped, use_credit_isc-AllCapped, serve_admin-AllCapped, cap_steps,
  init_users-AllCapped,
}

-- One operation; the arguments that a caller gives are any.
pub data Step (f : Shares) (c : Setup) (icl : Icl) : Credit → Credit → Type 0 where
  submits : (now : ℕ) (req : Request) (s : Credit) → Step f c icl s (submit c now req s)
  defers : (now uid pages : ℕ) (s : Credit) → Step f c icl s (submit_isc_deferred now uid pages s)
  requests :
      (now uid pages : ℕ) (s : Credit) → Step f c icl s (submit_isc_request c now uid pages s)
  activates : (now uid : ℕ) (s : Credit) → Step f c icl s (ensure_active_user c now uid s)
  uses : (uid used : ℕ) (s : Credit) → Step f c icl s (use_credit c uid used s)
  uses_isc : (uid used : ℕ) (s : Credit) → Step f c icl s (use_credit_isc c uid used s)
  admits :
      (now : ℕ) (s : Credit)
      → Step f c icl s (serve_admin c icl s.admin (now, record s { admin = [] })).1
  refills : (now : ℕ) (s : Credit) → Step f c icl s (refill f c now s)
  serves : (now : ℕ) (s : Credit) → Step f c icl s (serve c icl (now, s)).1

pub data Reachable (f : Shares) (c : Setup) (icl : Icl) : Credit → Type 0 where
  created : (now : ℕ) → Reachable f c icl (create c now)
  then_step : {s t : Credit} → Reachable f c icl s → Step f c icl s t → Reachable f c icl t

Step-AllCapped :
    (f : Shares) (c : Setup) (icl : Icl) {s t : Credit}
    → Step f c icl s t
    → AllCapped s.users
    → AllCapped t.users
unfolding submit_isc_deferred
Step-AllCapped f c icl (submits now req s) h = submit-AllCapped c now req s h
Step-AllCapped f c icl (defers now uid pages s) h = h
Step-AllCapped f c icl (requests now uid pages s) h =
    submit_isc_request-AllCapped c now uid pages s h
Step-AllCapped f c icl (activates now uid s) h = ensure_active_user-AllCapped c now uid s h
Step-AllCapped f c icl (uses uid used s) h = use_credit-AllCapped c uid used s h
Step-AllCapped f c icl (uses_isc uid used s) h = use_credit_isc-AllCapped c uid used s h
Step-AllCapped f c icl (admits now s) h =
    serve_admin-AllCapped c icl s.admin now (record s { admin = [] }) h
Step-AllCapped f c icl (refills now s) h = refill_lem f c now s h
Step-AllCapped f c icl (serves now s) h = serve_step (cap_steps c icl) now s h

-- In every state that the constructor, submissions, deferrals, requests of in-storage computing,
-- activations, direct charges, admin requests, refills of the phases that are due and the serving
-- part of `tick` reach, no account holds more credit than its cap, whatever the demands and shares
-- that the floating point gives.
pub Reachable-AllCapped :
    (f : Shares) (c : Setup) (icl : Icl) (s : Credit) → Reachable f c icl s → AllCapped s.users
unfolding create
Reachable-AllCapped f c icl _ (created now) = init_users-AllCapped c now stat_users [] tt
Reachable-AllCapped f c icl _ (then_step r h) =
    Step-AllCapped f c icl h (Reachable-AllCapped f c icl _ r)
