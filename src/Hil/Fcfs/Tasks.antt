-- ===== src/Hil/Fcfs/Tasks.antt =====
-- hil/scheduler/fcfs_scheduler.cc: what one dispatch of an in-storage task does to the queues.
use testing.Common.{
  ℕ, List, [], ◌∷◌, length, true, false, none, some, ◌≡◌, ◌≢◌, refl, ap, ◌∙◌, sym, ◌⊎◌, inl, inr,
  Option-cases,
}
use testing.Common.Maps.{put}
use testing.Hil.Request.{Request}
use testing.Hil.Fcfs.{UserAccount, Icl, Fcfs, new_account, dispatch_request}
use testing.Hil.Fcfs.Dispatch.{start_from, scan, try_dispatch_isc}
use testing.Hil.Fcfs.Accounts.{Ascending, account_old}
use testing.Hil.Fcfs.Scan.{IsKnown}
use testing.Hil.Fcfs.Waiting.{scan-found, scan-none}
use testing.Hil.Fcfs.Serve.{
  waiting, waiting_isc, put_self, put_other, put_keeps, dispatch_request-keeps,
}

-- A dispatch of `request` from the task queue of `uid`.
pub record IsTaken (uid : ℕ) (request : Request) (s t : Fcfs) : Type 0 where
  pub head_is : waiting_isc s uid ≡ request ∷ waiting_isc t uid
  pub others : (v : ℕ) → v ≢ uid → waiting_isc t v ≡ waiting_isc s v
  pub host_requests : (v : ℕ) → waiting t v ≡ waiting s v
  pub chosen : t.last_chosen_isc ≡ uid

new_queue_isc : new_account.queue_isc ≡ []
unfolding new_account
new_queue_isc = refl

module _ (icl : Icl) (s : Fcfs) where
  pub isc_found :
      (found : ℕ × UserAccount × Request × List Request)
      → scan (λ acc. acc.queue_isc) s.users (length s.users) (start_from s.last_chosen_isc s.users)
        ≡ some found
      → try_dispatch_isc icl s ≡ (
        true,
        dispatch_request icl found.2 (record s {
          users = put found.0 (record found.1 { queue_isc = found.3 }) s.users;
          last_chosen_isc = found.0;
        }),
      )
  unfolding try_dispatch_isc
  isc_found found e = rw (e, try_dispatch_isc) refl

  pub isc_none :
      scan (λ acc. acc.queue_isc) s.users (length s.users) (start_from s.last_chosen_isc s.users)
        ≡ none
      → try_dispatch_isc icl s ≡ (false, s)
  unfolding try_dispatch_isc
  isc_none e = rw (e, try_dispatch_isc) refl

  isc-IsTaken :
      (found : ℕ × UserAccount × Request × List Request)
      → Ascending 0 s.users
      → IsKnown s.last_chosen_isc s.users
      → scan (λ acc. acc.queue_isc) s.users (length s.users) (start_from s.last_chosen_isc s.users)
        ≡ some found
      → IsTaken found.0 found.2 s (try_dispatch_isc icl s).1
  isc-IsTaken found asc known e =
      let heads = scan-found (λ acc. acc.queue_isc) s.last_chosen_isc s.users asc known found e in
      let popped : UserAccount = record found.1 { queue_isc = found.3 } in
      let taken : Fcfs = record s {
        users = put found.0 popped s.users;
        last_chosen_isc = found.0;
      } in
      let keeps = dispatch_request-keeps icl found.2 taken in
      let at = account_old found.0 s.users found.1 heads.0 in
      rw (isc_found found e) (record {
        head_is =
            ap (λ a. a.queue_isc) at
            ∙ heads.1
            ∙ ap (λ l. found.2 ∷ l)
                (sym (
                  (keeps.0 found.0).1
                  ∙ ap (λ a. a.queue_isc) (put_self found.0 found.1 popped s.users heads.0)));
        others = λ v ne.
            (keeps.0 v).1
            ∙ ap (λ a. a.queue_isc) (put_other found.0 found.1 popped s.users heads.0 v ne);
        host_requests = λ v.
            (keeps.0 v).0 ∙ put_keeps found.0 found.1 popped s.users heads.0 (λ a. a.queue) refl v;
        chosen = keeps.2;
      })

  -- `tryDispatchISC`, in a state whose map is in order.
  pub try_dispatch_isc_lem :
      Ascending 0 s.users
      → IsKnown s.last_chosen_isc s.users
      → (((try_dispatch_isc icl s).0 ≡ true)
          × (uid : ℕ) × (request : Request) × IsTaken uid request s (try_dispatch_isc icl s).1)
        ⊎ ((try_dispatch_isc icl s ≡ (false, s)) × ((uid : ℕ) → waiting_isc s uid ≡ []))
  try_dispatch_isc_lem asc known =
      elim (Option-cases (
        scan (λ acc. acc.queue_isc) s.users (length s.users)
          (start_from s.last_chosen_isc s.users))) [
            | inl e ↦ inr (
              isc_none e,
              λ uid.
                  scan-none (λ acc. acc.queue_isc) s.last_chosen_isc s.users asc known new_queue_isc
                    e uid,
            )
            | inr (found, e) ↦
                inl (
                  ap (λ r. r.0) (isc_found found e),
                  found.0,
                  found.2,
                  isc-IsTaken found asc known e,
                )
          ]
