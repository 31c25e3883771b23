-- ===== src/Hil/Credit/Budget.antt =====
-- hil/scheduler/credit_scheduler.cc: serving moves credit to what was consumed, and neither makes
-- credit nor loses it.
use testing.Common.{ℕ, not, ◌==◌, ◌≡◌, refl, ap, ◌∙◌, sym, inl, inr, Option-cases}
use testing.Common.Maps.{lookup}
use testing.Hil.Fcfs.{Icl}
use testing.Hil.Credit.{Credit, Setup, new_account, account, pending_for_user}
use testing.Hil.Credit.Serve.{get_or_create, pop_queue, pop_isc, serve}
use testing.Hil.Credit.Steps.{Steps, serve_step}
use testing.Hil.Credit.Ledger.{
  ledger, budget, with_user-ledger, Kept, pay-Kept, dispatch_icl-Kept, pop_queue-ledger,
  pop_isc-ledger,
}

ledger_steps :
    (c : Setup) (icl : Icl)
    → Steps c icl (λ m n. (v : ℕ) → ledger (account c v n) ≡ ledger (account c v m))
unfolding get_or_create
ledger_steps c icl = record {
  stays = λ m v. refl;
  follows = λ h i v. i v ∙ h v;
  creates = λ uid s v. with_user-ledger c uid v (λ acc. acc) s.users refl;
  pays = pay-Kept c;
  dispatches = dispatch_icl-Kept c icl;
  pops = λ uid left m v.
      with_user-ledger c uid v (pop_queue left) m (pop_queue-ledger left (account c uid m));
  pops_isc = λ uid left m v.
      with_user-ledger c uid v (pop_isc left) m (pop_isc-ledger left (account c uid m));
}

serve-Kept : (c : Setup) (icl : Icl) (now : ℕ) (s : Credit) → Kept c s (serve c icl (now, s)).1
serve-Kept c icl now s = serve_step (ledger_steps c icl) now s

-- The part of `tick` of the credit scheduler that serves deferred requests and callbacks, in-
-- storage requests and the queues keeps, for each user, the sum of its credit and its total
-- consumption, modulo 2^64.
pub serve_lem :
    (c : Setup) (icl : Icl) (now : ℕ) (s : Credit) (v : ℕ)
    → budget (account c v (serve c icl (now, s)).1.users) ≡ budget (account c v s.users)
serve_lem c icl now s v = ap (λ l. l.0) (serve-Kept c icl now s v)

pending_lem :
    (c : Setup) (v : ℕ) (s : Credit)
    → pending_for_user v s ≡ not ((account c v s.users).pending_gates == 0)
unfolding pending_for_user account new_account
pending_lem c v s = elim (Option-cases (lookup v s.users)) [
  | inl e ↦ rw (e, pending_for_user, account) refl
  | inr (acc, e) ↦ rw (e, pending_for_user, account) refl
]

-- The part of `tick` of the credit scheduler that serves requests, also the dispatch of a gate,
-- never changes whether `pendingForUser` reports a pending gate of a user.
pub pending_for_user-serve :
    (c : Setup) (icl : Icl) (now : ℕ) (s : Credit) (v : ℕ)
    → pending_for_user v (serve c icl (now, s)).1 ≡ pending_for_user v s
pending_for_user-serve c icl now s v =
    pending_lem c v (serve c icl (now, s)).1
    ∙ ap (λ l. not (l.1 == 0)) (serve-Kept c icl now s v)
    ∙ sym (pending_lem c v s)
