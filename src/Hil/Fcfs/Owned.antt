-- ===== src/Hil/Fcfs/Owned.antt =====
-- hil/scheduler/fcfs_scheduler.cc: a host request waits with the user that it names.
use testing.Common.{
  ℕ, List, [], ◌∷◌, ◌++◌, some, if◌then◌else◌, ◌==◌, ◌≡◌, ap, ◌∙◌, sym, subst, ==-refl, ne→==,
  ℕ_discrete, All,
}
use testing.Common.Maps.{lookup, put}
use testing.Hil.Request.{Request}
use testing.Hil.Fcfs.{UserAccount, Users, with_user, push_host}
use testing.Hil.Fcfs.Accounts.{account, account_old, account-with_user}
use testing.Hil.Fcfs.Serve.{put_self, put_other}

abbrev pub IsOwned : Users → Type 0
IsOwned m = (v : ℕ) → All (λ r. r.user_id ≡ v) (account v m).queue

pub pop-IsOwned :
    (uid : ℕ) (acc new : UserAccount) (m : Users)
    → lookup uid m ≡ some acc
    → (req : Request) → acc.queue ≡ req ∷ new.queue
    → IsOwned m
    → IsOwned (put uid new m)
pop-IsOwned uid acc new m there req head h v = elim (ℕ_discrete v uid) [
  | yes e ↦
      let before : All (λ r. r.user_id ≡ v) (req ∷ new.queue) =
        subst (All (λ r. r.user_id ≡ v))
          (ap (λ u. (account u m).queue) e ∙ ap (λ a. a.queue) (account_old uid m acc there) ∙ head)
          (h v) in
      subst (λ u. All (λ r. r.user_id ≡ v) (account u (put uid new m)).queue) (sym e)
        (subst (λ a. All (λ r. r.user_id ≡ v) a.queue) (sym (put_self uid acc new m there))
          before.1)
  | no ne ↦
      subst (λ a. All (λ r. r.user_id ≡ v) a.queue) (sym (put_other uid acc new m there v ne)) (h v)
]

pub All-push :
    (v : ℕ) (req : Request) (l : List Request)
    → req.user_id ≡ v
    → All (λ r. r.user_id ≡ v) l
    → All (λ r. r.user_id ≡ v) (l ++ (req ∷ []))
All-push v req [] e h = (e, tt)
All-push v req (r ∷ l) e h = (h.0, All-push v req l e h.1)

pub push-IsOwned :
    (req : Request) (m : Users) → IsOwned m → IsOwned (with_user req.user_id (push_host req) m)
unfolding push_host
push-IsOwned req m h v = elim (ℕ_discrete v req.user_id) [
  | yes e ↦
      subst (λ a. All (λ r. r.user_id ≡ v) a.queue)
        (sym (
          account-with_user req.user_id v (push_host req) m
          ∙ ap (λ b. if b then push_host req (account v m) else account v m)
              (ap (λ u. req.user_id == u) e ∙ ==-refl req.user_id)))
        (All-push v req (account v m).queue (sym e) (h v))
  | no ne ↦
      subst (λ a. All (λ r. r.user_id ≡ v) a.queue)
        (sym (
          account-with_user req.user_id v (push_host req) m
          ∙ ap (λ b. if b then push_host req (account v m) else account v m)
              (ne→== req.user_id v (λ e. ne (sym e)))))
        (h v)
]
