-- ===== src/Hil/Fcfs/Serve.antt =====
-- hil/scheduler/fcfs_scheduler.cc: what one dispatch does to the queues of all users.
use testing.Common.{
  ℕ, List, [], ◌∷◌, length, Bool, true, false, none, some, if◌then◌else◌, ◌==◌, ◌≡◌, ◌≢◌, refl, ap,
  ◌∙◌, sym, arith, ◌⊎◌, inl, inr, Option-cases, ne→==, ==-refl, ℕ_discrete,
}
use testing.Common.Maps.{lookup, put, lookup-put}
use testing.Hil.Request.{Request, OpType}
use testing.Hil.Fcfs.{
  UserAccount, Users, Icl, Fcfs, new_account, with_user, charge, request_pages, record_consumption,
  icl_call, dispatch_icl, dispatch_request,
}
use testing.Hil.Fcfs.Dispatch.{start_from, scan, try_dispatch_host}
use testing.Hil.Fcfs.Accounts.{Ascending, account, account_old, account-with_user}
use testing.Hil.Fcfs.Scan.{IsKnown}
use testing.Hil.Fcfs.Waiting.{scan-found, scan-none}

-- The queues, as functions of the user.
abbrev pub waiting : Fcfs → ℕ → List Request
waiting s uid = (account uid s.users).queue

abbrev pub waiting_isc : Fcfs → ℕ → List Request
waiting_isc s uid = (account uid s.users).queue_isc

-- `dispatchICL` moves the tick and makes a call.
record SameButTick (s t : Fcfs) : Type 0 where
  same_users : t.users ≡ s.users
  same_chosen : t.last_chosen ≡ s.last_chosen
  same_chosen_isc : t.last_chosen_isc ≡ s.last_chosen_isc

dispatch_icl-SameButTick :
    (icl : Icl) (req : Request) (s : Fcfs) → SameButTick s (dispatch_icl icl req s)
unfolding dispatch_icl
dispatch_icl-SameButTick icl req s = elim (Option-cases (icl_call req)) [
  | inl e ↦
      rw (e, dispatch_icl)
        (record { same_users = refl; same_chosen = refl; same_chosen_isc = refl })
  | inr (call, e) ↦
      rw (e, dispatch_icl)
        (record { same_users = refl; same_chosen = refl; same_chosen_isc = refl })
]

-- A write of the account of `uid`, which is in the map.
module _ (uid : ℕ) (acc new : UserAccount) (m : Users) (there : lookup uid m ≡ some acc) where
  pub put-account : (v : ℕ) → account v (put uid new m) ≡ (if uid == v then new else account v m)
  unfolding account
  put-account v = ground (arith, lookup-put uid v new acc m there)

  pub put_self : account uid (put uid new m) ≡ new
  put_self = put-account uid ∙ ap (λ b. if b then new else account uid m) (==-refl uid)

  pub put_other : (v : ℕ) → v ≢ uid → account v (put uid new m) ≡ account v m
  put_other v ne =
      put-account v ∙ ap (λ b. if b then new else account v m) (ne→== uid v (λ e. ne (sym e)))

  pub put_keeps {ℓ} :
      {B : Type ℓ} (f : UserAccount → B)
      → f new ≡ f acc
      → (v : ℕ) → f (account v (put uid new m)) ≡ f (account v m)
  put_keeps f same v = elim (ℕ_discrete v uid) [
    | yes e ↦ rw e (ap f put_self ∙ same ∙ ap f (sym (account_old uid m acc there)))
    | no ne ↦ ap f (put_other v ne)
  ]

-- A part of the accounts that an update keeps.
pub with_user-keeps {ℓ} :
    {B : Type ℓ} (f : UserAccount → B) (change : UserAccount → UserAccount)
    → ((a : UserAccount) → f (change a) ≡ f a)
    → (uid v : ℕ) (m : Users) → f (account v (with_user uid change m)) ≡ f (account v m)
with_user-keeps f change keep uid v m = ap f (account-with_user uid v change m) ∙ either (uid == v)
  where
    either : (b : Bool) → f (if b then change (account v m) else account v m) ≡ f (account v m)
    either true = keep (account v m)
    either false = refl

-- Accounting leaves the queues alone.
record_consumption-queue :
    (uid pages v : ℕ) (op : OpType) (m : Users)
    → ((account v (record_consumption uid pages op m)).queue ≡ (account v m).queue)
      × ((account v (record_consumption uid pages op m)).queue_isc ≡ (account v m).queue_isc)
unfolding record_consumption charge
record_consumption-queue uid pages v op m = (
  with_user-keeps (λ a. a.queue) (charge pages op) (λ a. refl) uid v m,
  with_user-keeps (λ a. a.queue_isc) (charge pages op) (λ a. refl) uid v m,
)

pub dispatch_request-keeps :
    (icl : Icl) (req : Request) (s : Fcfs)
    → ((v : ℕ)
        → (waiting (dispatch_request icl req s) v ≡ waiting s v)
          × (waiting_isc (dispatch_request icl req s) v ≡ waiting_isc s v))
      × ((dispatch_request icl req s).last_chosen ≡ s.last_chosen)
      × ((dispatch_request icl req s).last_chosen_isc ≡ s.last_chosen_isc)
unfolding dispatch_request
dispatch_request-keeps icl req s =
    let charged : Fcfs = record s {
      users = record_consumption req.user_id (request_pages req) req.op s.users;
    } in
    let same = dispatch_icl-SameButTick icl req charged in
    (
      λ v.
          let queues = record_consumption-queue req.user_id (request_pages req) v req.op s.users in
          (
            ap (λ m. (account v m).queue) same.same_users ∙ queues.0,
            ap (λ m. (account v m).queue_isc) same.same_users ∙ queues.1,
          ),
      same.same_chosen,
      same.same_chosen_isc,
    )

pub dispatch_request-users :
    (icl : Icl) (req : Request) (s : Fcfs)
    → (dispatch_request icl req s).users
      ≡ record_consumption req.user_id (request_pages req) req.op s.users
unfolding dispatch_request
dispatch_request-users icl req s =
    let charged : Fcfs = record s {
      users = record_consumption req.user_id (request_pages req) req.op s.users;
    } in
    let same = dispatch_icl-SameButTick icl req charged in same.same_users

-- A dispatch of `request` from the host queue of `uid`.
pub record IsServed (uid : ℕ) (request : Request) (s t : Fcfs) : Type 0 where
  pub head_is : waiting s uid ≡ request ∷ waiting t uid
  pub others : (v : ℕ) → v ≢ uid → waiting t v ≡ waiting s v
  pub tasks : (v : ℕ) → waiting_isc t v ≡ waiting_isc s v
  pub chosen : t.last_chosen ≡ uid

pub new_queue : new_account.queue ≡ []
unfolding new_account
new_queue = refl

module _ (icl : Icl) (s : Fcfs) where
  pub host_found :
      (found : ℕ × UserAccount × Request × List Request)
      → scan (λ acc. acc.queue) s.users (length s.users) (start_from s.last_chosen s.users)
        ≡ some found
      → try_dispatch_host icl s ≡ (
        true,
        dispatch_request icl found.2 (record s {
          users = put found.0 (record found.1 { queue = found.3 }) s.users;
          last_chosen = found.0;
        }),
      )
  unfolding try_dispatch_host
  host_found found e = rw (e, try_dispatch_host) refl

  pub host_none :
      scan (λ acc. acc.queue) s.users (length s.users) (start_from s.last_chosen s.users) ≡ none
      → try_dispatch_host icl s ≡ (false, s)
  unfolding try_dispatch_host
  host_none e = rw (e, try_dispatch_host) refl

  pub host-IsServed :
      (found : ℕ × UserAccount × Request × List Request)
      → Ascending 0 s.users
      → IsKnown s.last_chosen s.users
      → scan (λ acc. acc.queue) s.users (length s.users) (start_from s.last_chosen s.users)
        ≡ some found
      → IsServed found.0 found.2 s (try_dispatch_host icl s).1
  host-IsServed found asc known e =
      let heads = scan-found (λ acc. acc.queue) s.last_chosen s.users asc known found e in
      let popped : UserAccount = record found.1 { queue = found.3 } in
      let taken : Fcfs = record s { users = put found.0 popped s.users; last_chosen = found.0 } in
      let keeps = dispatch_request-keeps icl found.2 taken in
      let at = account_old found.0 s.users found.1 heads.0 in
      rw (host_found found e) (record {
        head_is =
            ap (λ a. a.queue) at
            ∙ heads.1
            ∙ ap (λ l. found.2 ∷ l)
                (sym (
                  (keeps.0 found.0).0
                  ∙ ap (λ a. a.queue) (put_self found.0 found.1 popped s.users heads.0)));
        others = λ v ne.
            (keeps.0 v).0
            ∙ ap (λ a. a.queue) (put_other found.0 found.1 popped s.users heads.0 v ne);
        tasks = λ v.
            (keeps.0 v).1
            ∙ put_keeps found.0 found.1 popped s.users heads.0 (λ a. a.queue_isc) refl v;
        chosen = keeps.1;
      })

  -- On a map of users in ascending order, where the last choice is 0 or a user of the map,
  -- `tryDispatchHost` either returns true, takes the oldest request of one user, who becomes the
  -- last choice, and keeps all other queues of host requests and of tasks, or returns false,
  -- changes nothing, and no host request of any user waits.
  pub try_dispatch_host_lem :
      Ascending 0 s.users
      → IsKnown s.last_chosen s.users
      → (((try_dispatch_host icl s).0 ≡ true)
          × (uid : ℕ) × (request : Request) × IsServed uid request s (try_dispatch_host icl s).1)
        ⊎ ((try_dispatch_host icl s ≡ (false, s)) × ((uid : ℕ) → waiting s uid ≡ []))
  try_dispatch_host_lem asc known =
      elim (Option-cases
        (scan (λ acc. acc.queue) s.users (length s.users) (start_from s.last_chosen s.users))) [
          | inl e ↦ inr (
            host_none e,
            λ uid. scan-none (λ acc. acc.queue) s.last_chosen s.users asc known new_queue e uid,
          )
          | inr (found, e) ↦ inl (
            ap (λ r. r.0) (host_found found e),
            found.0,
            found.2,
            host-IsServed found asc known e,
          )
        ]
