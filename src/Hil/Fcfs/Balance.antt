-- ===== src/Hil/Fcfs/Balance.antt =====
-- hil/scheduler/fcfs_scheduler.cc: the counters of the accounts, and the positions of the last choice.
use testing.Common.{
  ℕ, ◌+◌, ◌%◌, ◌^◌, Bool, true, false, some, if◌then◌else◌, ◌==◌, ◌≡◌, refl, ap, ◌∙◌, sym, subst,
  arith, inl, inr, Bool-cases, ==-refl,
}
use testing.Common.Maps.{lookup, put, lookup-put}
use testing.Hil.Request.{OpType}
use testing.Hil.Fcfs.{UserAccount, Users, with_user, is_host, charge}
use testing.Hil.Fcfs.Accounts.{
  Ascending, account, account-with_user, lookup-with_user, put-Ascending, with_user-Ascending,
}
use testing.Hil.Fcfs.Scan.{IsKnown}
use testing.Hil.Fcfs.Serve.{put_keeps}

-- What is charged in total is what is charged to the host and to tasks.
abbrev pub IsBalanced : UserAccount → Type 0
IsBalanced acc = acc.total_consumed ≡ (acc.consumed_host + acc.consumed_isc) % 2 ^ 64

pub record IsTidy (m : Users) : Type 0 where
  pub ascending : Ascending 0 m
  pub balanced : (v : ℕ) → IsBalanced (account v m)

pub charge-queue :
    (pages : ℕ) (op : OpType) (acc : UserAccount) → (charge pages op acc).queue ≡ acc.queue
unfolding charge
charge-queue pages op acc = refl

pub charge-IsBalanced :
    (pages : ℕ) (op : OpType) (acc : UserAccount)
    → IsBalanced acc
    → IsBalanced (charge pages op acc)
unfolding charge
charge-IsBalanced pages op acc h = ground (arith, Bool-cases (is_host op))

pub with_user-IsTidy :
    (uid : ℕ) (change : UserAccount → UserAccount) (m : Users)
    → ((a : UserAccount) → IsBalanced a → IsBalanced (change a))
    → IsTidy m
    → IsTidy (with_user uid change m)
with_user-IsTidy uid change m keep h = record {
  ascending = with_user-Ascending uid change m h.ascending;
  balanced = λ v. subst IsBalanced (sym (account-with_user uid v change m)) (either v (uid == v));
}
  where
    either : (v : ℕ) (b : Bool) → IsBalanced (if b then change (account v m) else account v m)
    either v true = keep (account v m) (h.balanced v)
    either v false = h.balanced v

pub with_user-IsKnown :
    (uid last : ℕ) (change : UserAccount → UserAccount) (m : Users)
    → IsKnown last m
    → IsKnown last (with_user uid change m)
with_user-IsKnown uid last change m (inl z) = inl z
with_user-IsKnown uid last change m (inr (acc, there)) = elim (Bool-cases (uid == last)) [
  | inl t ↦ inr (
    change (account uid m),
    lookup-with_user uid last change m
        ∙ ap (λ b. if b then some (change (account uid m)) else lookup last m) t,
  )
  | inr f ↦ inr (
    acc,
    lookup-with_user uid last change m
        ∙ ap (λ b. if b then some (change (account uid m)) else lookup last m) f
        ∙ there,
  )
]

-- What `lookup` finds after the entry of `uid` is written.
pub put-IsKnown :
    (uid last : ℕ) (acc new : UserAccount) (m : Users)
    → lookup uid m ≡ some acc
    → IsKnown last m
    → IsKnown last (put uid new m)
put-IsKnown uid last acc new m there (inl z) = inl z
put-IsKnown uid last acc new m there (inr (a, at)) = elim (Bool-cases (uid == last)) [
  | inl t ↦
      inr (
        new,
        lookup-put uid last new acc m there ∙ ap (λ b. if b then some new else lookup last m) t,
      )
  | inr f ↦ inr (
    a,
    lookup-put uid last new acc m there ∙ ap (λ b. if b then some new else lookup last m) f ∙ at,
  )
]

pub put-there :
    (uid : ℕ) (acc new : UserAccount) (m : Users)
    → lookup uid m ≡ some acc
    → IsKnown uid (put uid new m)
put-there uid acc new m there = inr (
  new,
  lookup-put uid uid new acc m there ∙ ap (λ b. if b then some new else lookup uid m) (==-refl uid),
)

abbrev pub counters : UserAccount → ℕ × ℕ × ℕ
counters acc = (acc.total_consumed, acc.consumed_host, acc.consumed_isc)

pub put-IsTidy :
    (uid : ℕ) (acc new : UserAccount) (m : Users)
    → lookup uid m ≡ some acc
    → counters new ≡ counters acc
    → IsTidy m
    → IsTidy (put uid new m)
put-IsTidy uid acc new m there same h = record {
  ascending = put-Ascending 0 uid new m h.ascending;
  balanced = λ v.
      subst (λ c. c.0 ≡ (c.1 + c.2) % 2 ^ 64) (sym (put_keeps uid acc new m there counters same v))
        (h.balanced v);
}
