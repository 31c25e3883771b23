-- ===== src/Hil/Credit/Tests.antt =====
-- Runs of hil/scheduler/credit_scheduler.cc.
use testing.Common.{arith, ◌/◌, ℕ, ◌+◌, [], ◌∷◌, true, false, ◌≡◌, refl}
use testing.Common.Maps.{put, lookup}
use testing.Hil.Request.{Request, read_op, credit_only}
use testing.Hil.Fcfs.{Icl}
use testing.Hil.Credit.{
  Credit, Setup, account, with_user, submit, pending_for_user, get_user_credit,
}
use testing.Hil.Credit.Serve.{serve}
use testing.Hil.Credit.Refill.{Shares, is_due, refill, refill_from}
use testing.Hil.Credit.Refill.Capped.{AllCapped, refill-is_due}
use testing.Hil.Credit.Start.{create}
use testing.Hil.Credit.Reach.{created, then_step, submits, refills, Reachable-AllCapped}
use testing.Hil.Credit.Ledger.{budget}
use testing.Hil.Credit.Budget.{serve_lem, pending_for_user-serve}

-- A cache layer that takes 5 ticks per call.
abbrev icl : Icl
icl calls call now = now + 5

abbrev setup : Setup
setup = record { period = 1000; cap = 2400 }

abbrev idle : Credit
idle = record {
  admin = [];
  users = [];
  last_chosen = 0;
  last_chosen_isc = 0;
  timer_started = false;
  next_refill = 0;
  deferred = [];
  deferred_isc = [];
  isc_requests = [];
  timer = [];
  resumed = [];
  calls = [];
}

abbrev a_read : ℕ → Request
a_read id = record {
  req_id = id;
  req_sub_id = 0;
  offset = 0;
  length = 8192;
  range = record { slpn = 0; nlp = 2 };
  user_id = 1001;
  prio = 0;
  op = read_op;
}

abbrev a_gate : Request
a_gate = record (a_read 3) { length = 0; op = credit_only }

-- A user with two reads of two pages, a gate, and credit for one read.
abbrev busy : Credit
busy =
    let s = submit setup 0 a_gate (submit setup 0 (a_read 2) (submit setup 0 (a_read 1) idle)) in
    record s { users = with_user setup 1001 (λ acc. record acc { credit = 3 }) s.users }

serve_example :
    budget (account setup 1001 (serve setup icl (10, busy)).1.users)
    ≡ budget (account setup 1001 busy.users)
serve_example = serve_lem setup icl 10 busy 1001

serve-pending_example :
    pending_for_user 1001 (serve setup icl (10, busy)).1 ≡ pending_for_user 1001 busy
serve-pending_example = pending_for_user-serve setup icl 10 busy 1001

gate_pends : pending_for_user 1001 busy ≡ true
unfolding pending_for_user lookup with_user submit
gate_pends = refl

starts_timer : busy.timer ≡ 1000 ∷ []
unfolding submit
starts_timer = refl

-- A budget of 12 pages per phase; demands and shares of 6 pages.
abbrev shares : Shares
shares = record {
  capacity = 12;
  has_budget = true;
  target = λ phase uid. 6;
  scaled = λ total demand. demand / 2;
  share = λ spill weight active_weight phase uid. 6;
}

-- A user submits a read and the first phase is refilled.
abbrev refilled : Credit
refilled = refill shares setup 1000 (submit setup 0 (a_read 1) (create setup 0))

Reachable-AllCapped_example : AllCapped refilled.users
Reachable-AllCapped_example =
    Reachable-AllCapped shares setup icl refilled
      (then_step (then_step (created 0) (submits 0 (a_read 1) (create setup 0))) (refills 1000 _))

refills_once : get_user_credit 1001 refilled ≡ 6
unfolding get_user_credit refill lookup put with_user submit create
refills_once = refl

refill-is_due_example : is_due 2500 (refill shares setup 2500 busy) ≡ false
refill-is_due_example = refill-is_due shares setup 2500 busy (omega arith) (omega arith)

-- The phases at 1000 and 2000 add 6 pages each.
refills_twice : get_user_credit 1001 (refill_from shares setup 3 2500 busy) ≡ 15
unfolding get_user_credit refill_from lookup put with_user submit
refills_twice = refl
