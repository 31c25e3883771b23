-- ===== src/Hil/Fcfs/Fifo.antt =====
-- hil/scheduler/fcfs_scheduler.cc: the order in which the host requests of a user are dispatched.
use testing.Common.{
  ℕ, ◌+◌, ◌-◌, ◌%◌, ◌^◌, leb, List, [], ◌∷◌, ◌++◌, length, Bool, true, false, none, some,
  if◌then◌else◌, ◌==◌, ◌≡◌, refl, ap, ◌∙◌, sym, subst, arith, inl, inr, Option-cases, ==-refl,
  ne→==, ℕ_discrete, All,
}
use testing.Hil.Request.{Request}
use testing.Hil.Fcfs.{
  UserAccount, Icl, Fcfs, report_interval, push_host, push_isc, submit, submit_isc,
}
use testing.Hil.Fcfs.Dispatch.{
  start_from, scan, try_dispatch_host, try_dispatch_isc, schedule, tick, process_until,
}
use testing.Hil.Fcfs.Accounts.{account, account-with_user}
use testing.Hil.Fcfs.Serve.{waiting, IsServed, host_none, host-IsServed, with_user-keeps}
use testing.Hil.Fcfs.Tasks.{try_dispatch_isc_lem}
use testing.Hil.Fcfs.Invariant.{
  WellFormed, submit-WellFormed, submit_isc-WellFormed, try_dispatch_host-WellFormed,
  tick-WellFormed,
}

pub data Event : Type 0 where
  submitted : Request → Event
  submitted_isc : ℕ → Request → Event
  ticked : ℕ → Event
  processed : (req : Request) (latency now : ℕ) → Event

-- The request that `tryDispatchHost` takes, if any.
unfoldable pub host_choice : Fcfs → List Request
host_choice s =
    elim (scan (λ acc. acc.queue) s.users (length s.users) (start_from s.last_chosen s.users)) [
      | none ↦ []
      | some found ↦ found.2 ∷ []
    ]

unfoldable pub after : Icl → Fcfs → Event → Fcfs
after icl s (submitted req) = submit req s
after icl s (submitted_isc uid req) = submit_isc uid req s
after icl s (ticked now) = tick icl now s
after icl s (processed req latency now) = (process_until icl latency req now s).1

unfoldable pub run : Icl → Fcfs → List Event → Fcfs
run icl s [] = s
run icl s (event ∷ events) = run icl (after icl s event) events

-- What enters the host queues by an event, and what leaves them.
unfoldable pub entering : Event → List Request
entering (submitted req) = req ∷ []
entering (processed req latency now) = req ∷ []
entering _ = []

unfoldable pub leaving : Fcfs → Event → List Request
leaving s (ticked now) = host_choice s
leaving s (processed req latency now) = host_choice (submit req s)
leaving s _ = []

unfoldable pub entered : List Event → List Request
entered [] = []
entered (event ∷ events) = entering event ++ entered events

unfoldable pub left_by : Icl → Fcfs → List Event → List Request
left_by icl s [] = []
left_by icl s (event ∷ events) = leaving s event ++ left_by icl (after icl s event) events

-- The requests of one user, in order.
unfoldable pub of_user : ℕ → List Request → List Request
of_user v [] = []
of_user v (req ∷ rest) = if req.user_id == v then req ∷ of_user v rest else of_user v rest

of_user-append : (v : ℕ) (l m : List Request) → of_user v (l ++ m) ≡ of_user v l ++ of_user v m
unfolding of_user
of_user-append v [] m = refl
of_user-append v (req ∷ l) m = ground (arith, of_user-append v l m)

append_assoc : (l m n : List Request) → (l ++ m) ++ n ≡ l ++ (m ++ n)
append_assoc [] m n = refl
append_assoc (r ∷ l) m n = ap (λ k. r ∷ k) (append_assoc l m n)

pub append-nil : (l : List Request) → l ++ [] ≡ l
append-nil [] = refl
append-nil (r ∷ l) = ap (λ k. r ∷ k) (append-nil l)

submit-waiting :
    (req : Request) (s : Fcfs) (v : ℕ)
    → waiting (submit req s) v ≡ waiting s v ++ of_user v (req ∷ [])
unfolding submit push_host of_user
submit-waiting req s v =
    ap (λ a. a.queue) (account-with_user req.user_id v (push_host req) s.users)
    ∙ either (req.user_id == v)
  where
    either :
        (b : Bool)
        → (if b then push_host req (account v s.users) else account v s.users).queue
          ≡ waiting s v ++ (if b then req ∷ [] else [])
    either true = refl
    either false = sym (append-nil (waiting s v))

-- A dispatch takes the oldest request of its user.
host-waiting :
    (icl : Icl) (s : Fcfs) (v : ℕ)
    → WellFormed s
    → waiting s v ≡ of_user v (host_choice s) ++ waiting (try_dispatch_host icl s).1 v
unfolding host_choice of_user
host-waiting icl s v h =
    elim (Option-cases
      (scan (λ acc. acc.queue) s.users (length s.users) (start_from s.last_chosen s.users))) [
        | inl e ↦ rw (e, host_choice, host_none icl s e) refl
        | inr (found, e) ↦
            rw (e, host_choice)
              (served found (host-IsServed icl s found h.tidy.ascending h.known e))
      ]
  where
    served :
        (found : ℕ × UserAccount × Request × List Request)
        → IsServed found.0 found.2 s (try_dispatch_host icl s).1
        → waiting s v ≡ of_user v (found.2 ∷ []) ++ waiting (try_dispatch_host icl s).1 v
    served found i =
        let named : found.2.user_id ≡ found.0 =
          (subst (All (λ r. r.user_id ≡ found.0)) i.head_is (h.owned found.0)).0 in
        elim (ℕ_discrete v found.0) [
          | yes e ↦
              subst
                (λ u.
                  waiting s u ≡ of_user u (found.2 ∷ []) ++ waiting (try_dispatch_host icl s).1 u)
                (sym e)
                (i.head_is
                  ∙ ap
                      (λ b.
                        (if b then found.2 ∷ [] else [])
                        ++ waiting (try_dispatch_host icl s).1 found.0)
                      (sym (ap (λ u. u == found.0) named ∙ ==-refl found.0)))
          | no ne ↦
              sym (i.others v ne)
              ∙ ap (λ b. (if b then found.2 ∷ [] else []) ++ waiting (try_dispatch_host icl s).1 v)
                  (sym (ne→== found.2.user_id v (λ e. ne (sym e ∙ named))))
        ]

isc-waiting :
    (icl : Icl) (s : Fcfs) (v : ℕ)
    → WellFormed s
    → waiting (try_dispatch_isc icl s).1 v ≡ waiting s v
isc-waiting icl s v h = elim (try_dispatch_isc_lem icl s h.tidy.ascending h.known_isc) [
  | inl (taken, uid, req, i) ↦ i.host_requests v
  | inr (same, idle) ↦ ap (λ r. waiting r.1 v) same
]

pub tick-waiting :
    (icl : Icl) (now : ℕ) (s : Fcfs) (v : ℕ)
    → WellFormed s
    → waiting s v ≡ of_user v (host_choice s) ++ waiting (tick icl now s) v
unfolding tick schedule host_choice
tick-waiting icl now s v h =
    let started : Fcfs = record s {
      current_tick = now;
      last_report =
          if leb report_interval ((now + 2 ^ 64 - s.last_report) % 2 ^ 64)
          then now
          else s.last_report;
    } in
    let well : WellFormed started = record {
      tidy = h.tidy;
      known = h.known;
      known_isc = h.known_isc;
      owned = h.owned;
    } in
    let served = (try_dispatch_host icl started).1 in
    host-waiting icl started v well
    ∙ ap (λ l. of_user v (host_choice s) ++ l)
        (sym (isc-waiting icl served v (try_dispatch_host-WellFormed icl started well)))

after-WellFormed :
    (icl : Icl) (s : Fcfs) (event : Event) → WellFormed s → WellFormed (after icl s event)
unfolding after process_until
after-WellFormed icl s (submitted req) h = submit-WellFormed req s h
after-WellFormed icl s (submitted_isc uid req) h = submit_isc-WellFormed uid req s h
after-WellFormed icl s (ticked now) h = tick-WellFormed icl now s h
after-WellFormed icl s (processed req latency now) h =
    tick-WellFormed icl now (submit req s) (submit-WellFormed req s h)

after-waiting :
    (icl : Icl) (s : Fcfs) (event : Event) (v : ℕ)
    → WellFormed s
    → waiting s v ++ of_user v (entering event)
      ≡ of_user v (leaving s event) ++ waiting (after icl s event) v
unfolding after entering leaving submit_isc push_isc of_user process_until
after-waiting icl s (submitted req) v h = sym (submit-waiting req s v)
after-waiting icl s (submitted_isc uid req) v h =
    append-nil (waiting s v)
    ∙ sym (with_user-keeps (λ a. a.queue) (push_isc req) (λ a. refl) uid v s.users)
after-waiting icl s (ticked now) v h = append-nil (waiting s v) ∙ tick-waiting icl now s v h
after-waiting icl s (processed req latency now) v h =
    sym (submit-waiting req s v) ∙ tick-waiting icl now (submit req s) v (submit-WellFormed req s h)

-- For each user, what waits and enters is what leaves and waits then.
pub run_waiting :
    (icl : Icl) (s : Fcfs) (events : List Event) (v : ℕ)
    → WellFormed s
    → waiting s v ++ of_user v (entered events)
      ≡ of_user v (left_by icl s events) ++ waiting (run icl s events) v
unfolding run entered left_by of_user
run_waiting icl s [] v h = append-nil (waiting s v)
run_waiting icl s (event ∷ events) v h =
    let t = after icl s event in
    ap (λ l. waiting s v ++ l) (of_user-append v (entering event) (entered events))
    ∙ sym (append_assoc (waiting s v) _ _)
    ∙ ap (λ l. l ++ of_user v (entered events)) (after-waiting icl s event v h)
    ∙ append_assoc (of_user v (leaving s event)) (waiting t v) _
    ∙ ap (λ l. of_user v (leaving s event) ++ l)
        (run_waiting icl t events v (after-WellFormed icl s event h))
    ∙ sym (append_assoc (of_user v (leaving s event)) (of_user v (left_by icl t events)) _)
    ∙ ap (λ l. l ++ waiting (run icl t events) v)
        (sym (of_user-append v (leaving s event) (left_by icl t events)))
