-- ===== src/Hil/Credit/Steps.antt =====
-- hil/scheduler/credit_scheduler.cc: a relation of the accounts that each step of serving is in is one
-- that all of serving is in.
use testing.Common.{
  ℕ, suc, zero, List, [], ◌∷◌, ◌++◌, Bool, true, false, if◌then◌else◌, ◌≡◌, refl, ◌⊎◌, inl, inr,
  Bool-cases,
}
use testing.Hil.Request.{Request}
use testing.Hil.Fcfs.{Icl, is_host, request_pages}
use testing.Hil.Credit.{Accounts, Deferred, Custom, IscRequest, Credit, Setup, account, with_user}
use testing.Hil.Credit.Serve.{
  dispatch_icl, get_or_create, can_pay, pay, serve_deferred, serve_custom, serve_isc_requests,
  defer, pop_queue, pop_isc, try_host, try_isc, lap, lap_order, try_class_isc, try_class_host,
  dispatch_all, max_dispatch, serve,
}

queue_cases :
    (q : List Request) → (q ≡ []) ⊎ ((req : Request) × (left : List Request) × (q ≡ req ∷ left))
queue_cases [] = inl refl
queue_cases (req ∷ left) = inr (req, left, refl)

-- The accounts before a step, and those after it.
pub record Steps {ℓ} (c : Setup) (icl : Icl) (R : Accounts → Accounts → Type ℓ) : Type ℓ where
  pub stays : (m : Accounts) → R m m
  pub follows : {m n o : Accounts} → R m n → R n o → R m o
  pub creates : (uid : ℕ) (s : Credit) → R s.users (get_or_create c uid s).users
  pub pays :
      (uid : ℕ) (host : Bool) (pages : ℕ) (s : Credit)
      → can_pay c uid pages s ≡ true
      → R s.users (pay c uid host pages s).users
  pub dispatches :
      (req : Request) (now : ℕ) (s : Credit) → R s.users (dispatch_icl c icl req now s).1.users
  pub pops :
      (uid : ℕ) (left : List Request) (m : Accounts) → R m (with_user c uid (pop_queue left) m)
  pub pops_isc :
      (uid : ℕ) (left : List Request) (m : Accounts) → R m (with_user c uid (pop_isc left) m)

module _ {ℓ} {c : Setup} {icl : Icl} {R : Accounts → Accounts → Type ℓ} (k : Steps c icl R) where
  serve_deferred_step :
      (ds : List Deferred) (now : ℕ) (s : Credit)
      → R s.users (serve_deferred c icl ds (now, s)).1.users
  unfolding serve_deferred
  serve_deferred_step [] now r = k.stays r.users
  serve_deferred_step (d ∷ ds) now r =
      let s = get_or_create c d.req.user_id r in
      let begun = k.creates d.req.user_id r in
      elim (Bool-cases (can_pay c d.req.user_id d.pages s)) [
        | inl t ↦
            let paid = pay c d.req.user_id (is_host d.req.op) d.pages s in
            let q = dispatch_icl c icl d.req now paid in
            rw (t, serve_deferred)
              (k.follows
                (k.follows (k.follows begun (k.pays d.req.user_id (is_host d.req.op) d.pages s t))
                  (k.dispatches d.req now paid))
                (serve_deferred_step ds q.0 q.1))
        | inr f ↦
            rw (f, serve_deferred)
              (k.follows begun
                (serve_deferred_step ds now (record s { deferred = s.deferred ++ (d ∷ []) })))
      ]

  serve_custom_step :
      (now : ℕ) (ds : List Custom) (s : Credit) → R s.users (serve_custom c now ds s).users
  unfolding serve_custom
  serve_custom_step now [] s = k.stays s.users
  serve_custom_step now (d ∷ ds) r =
      let s = get_or_create c d.uid r in
      let begun = k.creates d.uid r in
      elim (Bool-cases (can_pay c d.uid d.pages s)) [
        | inl t ↦
            let paid = pay c d.uid false d.pages s in
            rw (t, serve_custom)
              (k.follows (k.follows begun (k.pays d.uid false d.pages s t))
                (serve_custom_step now ds (record paid { resumed = (d.uid, now) ∷ paid.resumed })))
        | inr f ↦
            rw (f, serve_custom)
              (k.follows begun
                (serve_custom_step now ds (record s { deferred_isc = s.deferred_isc ++ (d ∷ []) })))
      ]

  serve_isc_requests_step :
      (now : ℕ) (ds : List IscRequest) (s : Credit)
      → R s.users (serve_isc_requests c now ds s).users
  unfolding serve_isc_requests
  serve_isc_requests_step now [] s = k.stays s.users
  serve_isc_requests_step now (d ∷ ds) r =
      let s = get_or_create c d.uid r in
      let begun = k.creates d.uid r in
      elim (Bool-cases (can_pay c d.uid d.pages_needed s)) [
        | inl t ↦
            rw (t, serve_isc_requests)
              (k.follows (k.follows begun (k.pays d.uid false d.pages_needed s t))
                (serve_isc_requests_step now ds _))
        | inr f ↦
            rw (f, serve_isc_requests)
              (k.follows begun (
                serve_isc_requests_step now ds
                  (record s { isc_requests = s.isc_requests ++ (d ∷ []) })))
      ]

  try_isc_step : (uid now : ℕ) (s : Credit) → R s.users (try_isc c uid (now, s)).2.users
  unfolding try_isc defer
  try_isc_step uid now s = elim (queue_cases (account c uid s.users).queue_isc) [
    | inl e ↦ rw (e, try_isc) (k.stays s.users)
    | inr (req, left, e) ↦ elim (Bool-cases (can_pay c uid (request_pages req) s)) [
      | inl t ↦
          let paid = pay c uid false (request_pages req) s in
          rw (e, t, try_isc)
            (k.follows (k.pays uid false (request_pages req) s t) (k.pops_isc uid left paid.users))
      | inr f ↦ rw (e, f, try_isc) (k.pops_isc uid left s.users)
    ]
  ]

  try_host_step : (uid now : ℕ) (s : Credit) → R s.users (try_host c icl uid (now, s)).2.users
  unfolding try_host defer
  try_host_step uid now r = elim (queue_cases (account c uid r.users).queue) [
    | inl e ↦ rw (e, try_host) (k.stays r.users)
    | inr (req, left, e) ↦
        let s = get_or_create c req.user_id r in
        let begun = k.creates req.user_id r in
        elim (Bool-cases (can_pay c req.user_id (request_pages req) s)) [
          | inl t ↦
              let paid = pay c req.user_id (is_host req.op) (request_pages req) s in
              rw (e, t, try_host)
                (k.follows
                  (k.follows
                    (k.follows begun (k.pays req.user_id (is_host req.op) (request_pages req) s t))
                    (k.pops uid left paid.users))
                  (k.dispatches req now (record paid {
                    last_chosen = uid;
                    users = with_user c uid (pop_queue left) paid.users;
                  })))
          | inr f ↦ rw (e, f, try_host) (k.follows begun (k.pops uid left s.users))
        ]
  ]

  chosen_step {ℓ'} :
      {A : Type ℓ'} (s : Credit) (state : A → Credit) (b : Bool) (x y : A)
      → R s.users (state x).users
      → R s.users (state y).users
      → R s.users (state (if b then x else y)).users
  chosen_step s state true x y h i = h
  chosen_step s state false x y h i = i

  lap_step :
      (round : ℕ → ℕ × Credit → Bool × ℕ × Credit)
      → ((uid now : ℕ) (s : Credit) → R s.users (round uid (now, s)).2.users)
      → (keys : List ℕ) (now : ℕ) (s : Credit) → R s.users (lap round keys (now, s)).2.users
  unfolding lap
  lap_step round keep [] now s = k.stays s.users
  lap_step round keep (uid ∷ rest) now s =
      let (b, at, t) = round uid (now, s) in
      chosen_step s (λ r. r.2) b (true, at, t) (lap round rest (at, t)) (keep uid now s)
        (k.follows (keep uid now s) (lap_step round keep rest at t))

  dispatch_all_step :
      (rounds now : ℕ) (s : Credit) → R s.users (dispatch_all c icl rounds (now, s)).1.users
  unfolding dispatch_all try_class_isc try_class_host
  dispatch_all_step zero now s = k.stays s.users
  dispatch_all_step (suc rounds) now s =
      let (isc, at, t) = try_class_isc c (now, s) in
      let (host, then_at, u) = try_class_host c icl (at, t) in
      let by_isc : R s.users t.users =
        lap_step (try_isc c) try_isc_step (lap_order s.last_chosen_isc s) now s in
      let by_host : R s.users u.users =
        k.follows by_isc
          (lap_step (try_host c icl) try_host_step (lap_order t.last_chosen t) at t) in
      let next = if isc then (at, t) else (then_at, u) in
      let state : ℕ × Credit → Credit = λ r. r.1 in
      let again : R s.users (dispatch_all c icl rounds next).1.users =
        k.follows (chosen_step s state isc (at, t) (then_at, u) by_isc by_host)
          (dispatch_all_step rounds next.0 next.1) in
      chosen_step s state isc (dispatch_all c icl rounds next)
        (if host then dispatch_all c icl rounds next else (then_at, u)) again
        (chosen_step s state host (dispatch_all c icl rounds next) (then_at, u) again by_host)

  pub serve_step : (now : ℕ) (s : Credit) → R s.users (serve c icl (now, s)).1.users
  unfolding serve
  serve_step now s =
      let (at, t) = serve_deferred c icl s.deferred (now, record s { deferred = [] }) in
      let u = serve_custom c at t.deferred_isc (record t { deferred_isc = [] }) in
      let w = serve_isc_requests c at u.isc_requests (record u { isc_requests = [] }) in
      k.follows
        (k.follows
          (k.follows (serve_deferred_step s.deferred now (record s { deferred = [] }))
            (serve_custom_step at t.deferred_isc (record t { deferred_isc = [] })))
          (serve_isc_requests_step at u.isc_requests (record u { isc_requests = [] })))
        (dispatch_all_step max_dispatch at w)
