-- ===== src/Hil/Credit/Serve.antt =====
-- The part of `tick` of hil/scheduler/credit_scheduler.cc that serves requests, after the refill, and
-- the queue of in-storage requests.
use testing.Common.{
  ℕ, zero, suc, ◌+◌, ◌-◌, ◌*◌, ◌/◌, ◌%◌, ◌^◌, List, [], ◌∷◌, ◌++◌, length, map, Bool, true, false,
  none, some, if◌then◌else◌, ◌==◌, leb,
}
use testing.Hil.Request.{Request}
use testing.Hil.Fcfs.{Icl, is_host, icl_call, request_pages}
use testing.Hil.Credit.{
  Account, Deferred, Custom, IscRequest, Credit, Setup, account, with_user, charge,
  ensure_active_user,
}

unfoldable pub count_window : ℕ → Account → Account
count_window pages acc = record acc {
  win_host_pages = (acc.win_host_pages + pages) % 2 ^ 64;
  win_host_ios = (acc.win_host_ios + 1) % 2 ^ 64;
}

-- `dispatchICL`: the tick, which the cache layer moves, and the state.
unfoldable pub dispatch_icl : Setup → Icl → Request → ℕ → Credit → ℕ × Credit
unfolding icl_call request_pages with_user count_window
dispatch_icl c icl req now s = elim (icl_call req) [
  | none ↦ (now, s)
  | some call ↦ (
    icl s.calls call now,
    record s {
      calls = call ∷ s.calls;
      users = with_user c req.user_id (count_window (request_pages req)) s.users;
    },
  )
]

-- The admin requests, all of them.
unfoldable pub serve_admin : Setup → Icl → List Request → ℕ × Credit → ℕ × Credit
unfolding dispatch_icl
serve_admin c icl [] r = r
serve_admin c icl (req ∷ rest) (now, s) = serve_admin c icl rest (dispatch_icl c icl req now s)

-- `getOrCreateUser`, where its account is only read.
unfoldable pub get_or_create : Setup → (uid : ℕ) → Credit → Credit
unfolding with_user
get_or_create c uid s = record s { users = with_user c uid (λ acc. acc) s.users }

unfoldable pub can_pay : Setup → (uid pages : ℕ) → Credit → Bool
unfolding account
can_pay c uid pages s = leb pages (account c uid s.users).credit

unfoldable pub pay : Setup → (uid : ℕ) → Bool → (pages : ℕ) → Credit → Credit
unfolding with_user charge
pay c uid host pages s = record s { users = with_user c uid (charge host pages) s.users }

-- The requests that were deferred: those with credit are charged and dispatched, the others wait on.
unfoldable pub serve_deferred : Setup → Icl → List Deferred → ℕ × Credit → ℕ × Credit
unfolding can_pay pay dispatch_icl is_host get_or_create
serve_deferred c icl [] r = r
serve_deferred c icl (d ∷ rest) (now, r) = serve_deferred c icl rest (
    let s = get_or_create c d.req.user_id r in
    if can_pay c d.req.user_id d.pages s
    then dispatch_icl c icl d.req now (pay c d.req.user_id (is_host d.req.op) d.pages s)
    else (now, record s { deferred = s.deferred ++ (d ∷ []) }))

-- The callbacks that were deferred.
unfoldable pub serve_custom : Setup → (now : ℕ) → List Custom → Credit → Credit
unfolding can_pay pay get_or_create
serve_custom c now [] r = r
serve_custom c now (d ∷ rest) r = serve_custom c now rest (
    let s = get_or_create c d.uid r in
    if can_pay c d.uid d.pages s
    then (let t = pay c d.uid false d.pages s in record t { resumed = (d.uid, now) ∷ t.resumed })
    else record s { deferred_isc = s.deferred_isc ++ (d ∷ []) })

-- The loop of `processISCRequests`.
unfoldable pub serve_isc_requests : Setup → (now : ℕ) → List IscRequest → Credit → Credit
unfolding can_pay pay get_or_create
serve_isc_requests c now [] r = r
serve_isc_requests c now (d ∷ rest) r = serve_isc_requests c now rest (
    let s = get_or_create c d.uid r in
    if can_pay c d.uid d.pages_needed s
    then (let t = pay c d.uid false d.pages_needed s in
        record t {
          resumed =
              (d.uid, (d.submit_tick + (now + 2 ^ 64 - d.submit_tick) % 2 ^ 64) % 2 ^ 64)
              ∷ t.resumed;
        })
    else record s { isc_requests = s.isc_requests ++ (d ∷ []) })

-- `predictISCLatency`.
unfoldable pub predict_isc_latency : ℕ → Credit → ℕ
predict_isc_latency pages s =
    ((pages + 99) % 2 ^ 64 / 100 * 10000000 + length s.isc_requests * 10000000 % 2 ^ 64 / 2)
    % 2 ^ 64

-- `submitISCRequest`, with a context.
unfoldable pub submit_isc_request : Setup → (now uid pages : ℕ) → Credit → Credit
unfolding ensure_active_user can_pay pay predict_isc_latency
submit_isc_request c now uid pages s =
    let t = ensure_active_user c now uid s in
    if can_pay c uid pages t
    then (let u = pay c uid false pages t in record u { resumed = (uid, now) ∷ u.resumed })
    else record t {
      isc_requests =
          t.isc_requests
          ++ ((record {
            uid = uid;
            pages_needed = pages;
            submit_tick = now;
            estimated_latency = predict_isc_latency pages t;
          })
              ∷ []);
    }

unfoldable pub defer : Request → ℕ → Credit → Credit
unfolding request_pages
defer req now s = record s {
  deferred =
      s.deferred ++ ((record { req = req; pages = request_pages req; defer_time = now }) ∷ []);
}

unfoldable pub pop_queue : List Request → Account → Account
pop_queue left acc = record acc { queue = left }

unfoldable pub pop_isc : List Request → Account → Account
pop_isc left acc = record acc { queue_isc = left }

-- One round for a host request of the user `uid`: whether it was dispatched. `tryDispatchWithCredit`
-- charges it or defers it.
unfoldable pub try_host : Setup → Icl → (uid : ℕ) → ℕ × Credit → Bool × ℕ × Credit
unfolding account with_user can_pay pay dispatch_icl is_host request_pages defer pop_queue
    get_or_create
try_host c icl uid (now, r) = elim (account c uid r.users).queue [
  | [] ↦ (false, now, r)
  | req ∷ left ↦
      let pages = request_pages req in
      let s = get_or_create c req.user_id r in
      if can_pay c req.user_id pages s
      then (let t = pay c req.user_id (is_host req.op) pages s in
          let u : Credit = record t {
            last_chosen = uid;
            users = with_user c uid (pop_queue left) t.users;
          } in
          let (then_at, v) = dispatch_icl c icl req now u in (true, then_at, v))
      else (let t = defer req now s in
          (false, now, record t { users = with_user c uid (pop_queue left) t.users }))
]

-- One round for a task of the user `uid`; its pages are those of the user.
unfoldable pub try_isc : Setup → (uid : ℕ) → ℕ × Credit → Bool × ℕ × Credit
unfolding account with_user can_pay pay request_pages defer pop_isc
try_isc c uid (now, s) = elim (account c uid s.users).queue_isc [
  | [] ↦ (false, now, s)
  | req ∷ left ↦
      let pages = request_pages req in
      if can_pay c uid pages s
      then (let t = pay c uid false pages s in
          (
            true,
            now,
            record t { last_chosen_isc = uid; users = with_user c uid (pop_isc left) t.users },
          ))
      else (let t = defer req now s in
          (false, now, record t { users = with_user c uid (pop_isc left) t.users }))
]

-- The loop of `try_dispatch_class`: one lap over the users, up to the first dispatch.
unfoldable pub lap : (ℕ → ℕ × Credit → Bool × ℕ × Credit) → List ℕ → ℕ × Credit → Bool × ℕ × Credit
lap round [] (now, s) = (false, now, s)
lap round (uid ∷ rest) r =
    let (dispatched, now, s) = round uid r in
    let later = lap round rest (now, s) in if dispatched then (true, now, s) else later

-- The users in the order of a lap: after `last`, and then from the start.
unfoldable pub keys_after : ℕ → List ℕ → List ℕ
keys_after last [] = []
keys_after last (uid ∷ rest) = if uid == last then rest else keys_after last rest

unfoldable pub keys_upto : ℕ → List ℕ → List ℕ
keys_upto last [] = []
keys_upto last (uid ∷ rest) = if uid == last then uid ∷ [] else uid ∷ keys_upto last rest

unfoldable pub lap_order : ℕ → Credit → List ℕ
unfolding keys_after keys_upto
lap_order last s = let keys = map (λ e. e.0) s.users in keys_after last keys ++ keys_upto last keys

unfoldable pub try_class_isc : Setup → ℕ × Credit → Bool × ℕ × Credit
unfolding lap lap_order try_isc
try_class_isc c (now, s) = lap (try_isc c) (lap_order s.last_chosen_isc s) (now, s)

unfoldable pub try_class_host : Setup → Icl → ℕ × Credit → Bool × ℕ × Credit
unfolding lap lap_order try_host
try_class_host c icl (now, s) = lap (try_host c icl) (lap_order s.last_chosen s) (now, s)

-- The dispatch loop of `tick`: tasks first; at most `rounds` dispatches.
unfoldable pub dispatch_all : Setup → Icl → (rounds : ℕ) → ℕ × Credit → ℕ × Credit
unfolding try_class_isc try_class_host
dispatch_all c icl zero r = r
dispatch_all c icl (suc rounds) r =
    let (isc, now, s) = try_class_isc c r in
    let (host, then_at, t) = try_class_host c icl (now, s) in
    let again = dispatch_all c icl rounds (if isc then (now, s) else (then_at, t)) in
    if isc then again else if host then again else (then_at, t)

abbrev pub max_dispatch : ℕ
max_dispatch = 4096

-- `tick` from the deferred requests on.
unfoldable pub serve : Setup → Icl → ℕ × Credit → ℕ × Credit
unfolding serve_deferred serve_custom serve_isc_requests dispatch_all
serve c icl (now, s) =
    let (at, t) = serve_deferred c icl s.deferred (now, record s { deferred = [] }) in
    let u = serve_custom c at t.deferred_isc (record t { deferred_isc = [] }) in
    let v = serve_isc_requests c at u.isc_requests (record u { isc_requests = [] }) in
    dispatch_all c icl max_dispatch (at, v)
