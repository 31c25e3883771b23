-- ===== src/Hil/Fcfs/Accounts.antt =====
-- hil/scheduler/fcfs_scheduler.cc: what an update does to each account, and the order of the map.
use testing.Common.{
  ℕ, suc, ◌≤◌, [], ◌∷◌, none, some, if◌then◌else◌, ◌==◌, ◌≡◌, refl, arith, Option-cases, inl, inr,
}
use testing.Common.Maps.{lookup, put, lookup-put}
use testing.Hil.Fcfs.{UserAccount, Users, new_account, insert_sorted, get_or_create, with_user}

-- The account of a user; one that is not in the map counts as new.
unfoldable pub account : ℕ → Users → UserAccount
unfolding lookup new_account
account uid users = elim (lookup uid users) [ none ↦ new_account | some acc ↦ acc ]

lookup-insert_sorted :
    (k j : ℕ) (v : UserAccount) (m : Users)
    → lookup k m ≡ none
    → lookup j (insert_sorted k v m) ≡ (if k == j then some v else lookup j m)
unfolding lookup insert_sorted
lookup-insert_sorted k j v [] h = refl
lookup-insert_sorted k j v ((i, w) ∷ m) h = ground (arith, lookup-insert_sorted k j v m)

pub get_or_create_new :
    (uid : ℕ) (m : Users)
    → lookup uid m ≡ none
    → get_or_create uid m ≡ (new_account, insert_sorted uid new_account m)
unfolding get_or_create
get_or_create_new uid m e = rw (e, get_or_create) refl

pub get_or_create_old :
    (uid : ℕ) (m : Users) (acc : UserAccount)
    → lookup uid m ≡ some acc
    → get_or_create uid m ≡ (acc, m)
unfolding get_or_create
get_or_create_old uid m acc e = rw (e, get_or_create) refl

pub account_new : (uid : ℕ) (m : Users) → lookup uid m ≡ none → account uid m ≡ new_account
unfolding account
account_new uid m e = rw (e, account) refl

pub account_old :
    (uid : ℕ) (m : Users) (acc : UserAccount) → lookup uid m ≡ some acc → account uid m ≡ acc
unfolding account
account_old uid m acc e = rw (e, account) refl

-- The account is in the map that `getOrCreateUser` leaves, and no other has changed.
pub lookup-get_or_create :
    (uid j : ℕ) (m : Users)
    → ((get_or_create uid m).0 ≡ account uid m)
      × (lookup j (get_or_create uid m).1 ≡ (if uid == j then some (account uid m) else lookup j m))
lookup-get_or_create uid j m = elim (Option-cases (lookup uid m)) [
  | inl e ↦
      rw (get_or_create_new uid m e, account_new uid m e)
        (refl, lookup-insert_sorted uid j new_account m e)
  | inr (acc, e) ↦
      rw (get_or_create_old uid m acc e, account_old uid m acc e) (refl, ground (arith, e))
]

pub lookup-with_user :
    (uid j : ℕ) (change : UserAccount → UserAccount) (m : Users)
    → lookup j (with_user uid change m)
      ≡ (if uid == j then some (change (account uid m)) else lookup j m)
unfolding with_user
lookup-with_user uid j change m =
    let at_uid = (lookup-get_or_create uid uid m).1 in
    let there : lookup uid (get_or_create uid m).1 ≡ some (account uid m) =
      ground (arith, at_uid) in
    ground (
      arith,
      lookup-put uid j (change (get_or_create uid m).0) (account uid m) (get_or_create uid m).1
          there,
      lookup-get_or_create uid j m,
    )

-- An update changes the account of its user alone.
pub account-with_user :
    (uid j : ℕ) (change : UserAccount → UserAccount) (m : Users)
    → account j (with_user uid change m) ≡ (if uid == j then change (account j m) else account j m)
unfolding account
account-with_user uid j change m = ground (arith, lookup-with_user uid j change m)

-- A new account counts as one that is not there.
pub get_or_create-account :
    (uid v : ℕ) (m : Users) → account v (get_or_create uid m).1 ≡ account v m
unfolding account
get_or_create-account uid v m = ground (arith, lookup-get_or_create uid v m)

-- The keys ascend, the first of them from `low`.
abbrev pub Ascending : ℕ → Users → Type 0
Ascending low [] = Unit
Ascending low ((k, acc) ∷ rest) = (low ≤ k) × Ascending (suc k) rest

pub put-Ascending :
    (low k : ℕ) (v : UserAccount) (m : Users) → Ascending low m → Ascending low (put k v m)
unfolding put
put-Ascending low k v [] h = h
put-Ascending low k v ((i, w) ∷ m) h = ground (arith, put-Ascending (suc i) k v m)

insert_sorted-Ascending :
    (low k : ℕ) (v : UserAccount) (m : Users)
    → low ≤ k
    → Ascending low m
    → Ascending low (insert_sorted k v m)
unfolding insert_sorted
insert_sorted-Ascending low k v [] lo h = (lo, tt)
insert_sorted-Ascending low k v ((i, w) ∷ m) lo h =
    ground (arith, insert_sorted-Ascending (suc i) k v m)

pub get_or_create-Ascending :
    (uid : ℕ) (m : Users) → Ascending 0 m → Ascending 0 (get_or_create uid m).1
unfolding get_or_create
get_or_create-Ascending uid m h = elim (Option-cases (lookup uid m)) [
  | inl e ↦
      rw (get_or_create_new uid m e) (insert_sorted-Ascending 0 uid new_account m (omega arith) h)
  | inr (acc, e) ↦ rw (get_or_create_old uid m acc e) h
]

pub with_user-Ascending :
    (uid : ℕ) (change : UserAccount → UserAccount) (m : Users)
    → Ascending 0 m
    → Ascending 0 (with_user uid change m)
unfolding with_user
with_user-Ascending uid change m h = put-Ascending 0 uid _ _ (get_or_create-Ascending uid m h)
