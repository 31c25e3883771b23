-- ===== src/Hil/Fcfs/Reach.antt =====
-- hil/scheduler/fcfs_scheduler.cc: what holds of every state that the scheduler reaches.
use testing.Common.{ℕ, List, [], ◌∷◌, ◌≡◌, refl, ◌∙◌, sym, subst, inl, All}
use testing.Hil.Request.{Request}
use testing.Hil.Fcfs.{
  Users, Icl, Fcfs, new_account, get_or_create, create_users, create, submit, submit_isc,
}
use testing.Hil.Fcfs.Dispatch.{tick, process_until}
use testing.Hil.Fcfs.Stats.{reset_stat_values}
use testing.Hil.Fcfs.Accounts.{Ascending, account, get_or_create-Ascending, get_or_create-account}
use testing.Hil.Fcfs.Balance.{IsBalanced, IsTidy}
use testing.Hil.Fcfs.Owned.{IsOwned}
use testing.Hil.Fcfs.Invariant.{
  WellFormed, submit-WellFormed, submit_isc-WellFormed, tick-WellFormed,
}

-- `create_users` adds accounts that are new.
create_users-account :
    (uids : List ℕ) (v : ℕ) (m : Users) → account v (create_users uids m) ≡ account v m
unfolding create_users
create_users-account [] v m = refl
create_users-account (uid ∷ uids) v m =
    create_users-account uids v (get_or_create uid m).1 ∙ get_or_create-account uid v m

create_users-Ascending :
    (uids : List ℕ) (m : Users) → Ascending 0 m → Ascending 0 (create_users uids m)
unfolding create_users
create_users-Ascending [] m h = h
create_users-Ascending (uid ∷ uids) m h =
    create_users-Ascending uids _ (get_or_create-Ascending uid m h)

empty-IsBalanced : (v : ℕ) → IsBalanced (account v [])
unfolding account new_account
empty-IsBalanced v = refl

fresh-IsTidy : (uids : List ℕ) → IsTidy (create_users uids [])
fresh-IsTidy uids = record {
  ascending = create_users-Ascending uids [] tt;
  balanced = λ v. subst IsBalanced (sym (create_users-account uids v [])) (empty-IsBalanced v);
}

fresh-IsOwned : (uids : List ℕ) → IsOwned (create_users uids [])
unfolding account new_account
fresh-IsOwned uids v =
    subst (λ a. All (λ r. r.user_id ≡ v) a.queue) (sym (create_users-account uids v [])) tt

create-WellFormed : WellFormed create
unfolding create
create-WellFormed = record {
  tidy = fresh-IsTidy (1001 ∷ 1002 ∷ []);
  known = inl refl;
  known_isc = inl refl;
  owned = fresh-IsOwned (1001 ∷ 1002 ∷ []);
}

reset_stat_values-WellFormed : (s : Fcfs) → WellFormed (reset_stat_values s)
unfolding reset_stat_values
reset_stat_values-WellFormed s = record {
  tidy = fresh-IsTidy s.stat_users;
  known = inl refl;
  known_isc = inl refl;
  owned = fresh-IsOwned s.stat_users;
}

-- The calls that the host interface layer makes.
pub data Step (icl : Icl) : Fcfs → Fcfs → Type 0 where
  submits : (s : Fcfs) (req : Request) → Step icl s (submit req s)
  submits_isc : (s : Fcfs) (uid : ℕ) (req : Request) → Step icl s (submit_isc uid req s)
  ticks : (s : Fcfs) (now : ℕ) → Step icl s (tick icl now s)
  processes :
      (s : Fcfs) (req : Request) (latency now : ℕ)
      → Step icl s (process_until icl latency req now s).1
  resets : (s : Fcfs) → Step icl s (reset_stat_values s)

pub data Reachable (icl : Icl) : Fcfs → Type 0 where
  created : Reachable icl create
  then_step : {s t : Fcfs} → Reachable icl s → Step icl s t → Reachable icl t

Step-WellFormed : (icl : Icl) {s t : Fcfs} → Step icl s t → WellFormed s → WellFormed t
unfolding process_until
Step-WellFormed icl (submits s req) h = submit-WellFormed req s h
Step-WellFormed icl (submits_isc s uid req) h = submit_isc-WellFormed uid req s h
Step-WellFormed icl (ticks s now) h = tick-WellFormed icl now s h
Step-WellFormed icl (processes s req latency now) h =
    tick-WellFormed icl now _ (submit-WellFormed req s h)
Step-WellFormed icl (resets s) h = reset_stat_values-WellFormed s

-- Every state that submissions, submissions of tasks, ticks, `processUntil` and `resetStatValues`
-- reach from the constructor is well-formed: the users ascend, both last choices are 0 or users of
-- the map, the total of each account is the sum of its two counters modulo 2^64, and a host
-- request waits with the user that it names.
pub Reachable-WellFormed : (icl : Icl) (s : Fcfs) → Reachable icl s → WellFormed s
Reachable-WellFormed icl s created = create-WellFormed
Reachable-WellFormed icl s (then_step r st) = Step-WellFormed icl st (Reachable-WellFormed icl _ r)
