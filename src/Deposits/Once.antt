-- ===== src/Deposits/Once.antt =====
-- Runs of src/deposit-watcher.js for one agent: reports, polls, reconciliations, restores, notifications and their
-- retries, dismissals and restarts, and what is kept of each transaction over them.
pub mod Counts
pub mod Entries
pub mod Credits
pub mod Commits
pub mod Reports
pub mod Records
pub mod Undone
pub mod Lengths
pub mod Excess
pub mod Candidates
pub mod Restores
pub mod Upkeep
pub mod Passes
pub mod Runs
use j41_sovagent_dispatcher.Prelude.{
  ℕ, zero, suc, ◌+◌, ◌≤◌, ◌<◌, String, ℤ, Bool, true, false, not, ◌&&◌, Option, none, some, List,
  [], ◌∷◌, keep, any, length, ◌≡◌, str_eq, if◌then◌else◌,
}
use j41_sovagent_dispatcher.Deposits.{
  Processed, PendingDeposit, Reversed, Deposits, Undoing, debited, Desk, Move, credited,
  debited_back,
}
use j41_sovagent_dispatcher.Deposits.Ledger.{has_txid, remembers, credited_txid_cap}
use j41_sovagent_dispatcher.Deposits.Sender.{Platform}
use j41_sovagent_dispatcher.Deposits.Credit.{Fate, restart, clear_notify_owed}
use j41_sovagent_dispatcher.Deposits.Report.{report_verified_deposit}
use j41_sovagent_dispatcher.Deposits.Poll.{poll_one, poll_sweep}
use j41_sovagent_dispatcher.Deposits.Evidence.{Pass, Lookup}
use j41_sovagent_dispatcher.Deposits.Reconcile.{reconcile_one}
use j41_sovagent_dispatcher.Deposits.Pass.{backfill, with_flags, Node, reconcile_locked}
use j41_sovagent_dispatcher.Deposits.Notify.{Sent, retry_pending_notifies}
use j41_sovagent_dispatcher.Deposits.Operator.{dismiss_deposit_anomaly}
use j41_sovagent_dispatcher.Deposits.Recheck.{is_candidate, is_restorable, recheck_one}

-- What happens to the deposits of the agent: whole operations, and single steps of sweeps and passes. A recheck is of the
-- candidate at a place in the list of candidates. A retry carries the ledger that it loaded, since it saves that later.
pub data Event : Type 0 where
  reports : Platform → Bool → Fate → String → String → ℤ → ℕ → Event
  polls : Option (Option ℕ) → Bool → Fate → PendingDeposit → ℕ → Event
  reconciles : Fate → Pass → String → Lookup → Event
  rechecks : Fate → ℕ → ℕ → Option (Option ℕ) → Event
  is_notified : String → Event
  adopts : ℕ → Event
  interrupts : Event
  retries : Bool → Bool → (Processed → Sent) → ℕ → Deposits → Event
  dismisses : String → ℕ → String → Event
  restarts : Event
  sweeps : (String → Option (Option ℕ)) → Bool → (String → Fate) → ℕ → Event
  passes : Node → ℕ → Event

abbrev pub nth {ℓ} : {A : Type ℓ} → ℕ → List A → Option A
nth n [] = none
nth zero (x ∷ xs) = some x
nth (suc n) (x ∷ xs) = nth n xs

abbrev pub recheck_at : Fate → ℕ → Desk → Option Reversed → Option (Option ℕ) → Desk
recheck_at fate now k none status = k
recheck_at fate now k (some e) status = recheck_one fate now k e status

unfoldable pub step : Desk → Event → Desk
step k (reports pf notifies fate buyer txid amount now) =
    (report_verified_deposit pf notifies fate k buyer txid amount now).1
step k (polls status notifies fate p now) = (poll_one status notifies fate k p now).1
step k (reconciles fate pass txid look) = reconcile_one fate pass k txid look
step k (rechecks fate now n status) =
    recheck_at fate now k (nth n (keep (is_candidate now) k.deposits.reversed)) status
step k (is_notified txid) = clear_notify_owed k txid
step k (adopts now) = backfill now k
step k interrupts = with_flags k
step k (retries saves has_key send now loaded) =
    (retry_pending_notifies saves has_key send now loaded k).1
step k (dismisses reason now txid) = (dismiss_deposit_anomaly reason now k txid).1
step k restarts = restart k
step k (sweeps status notifies fate now) = poll_sweep status notifies fate k.deposits.pending k now
step k (passes node now) = (reconcile_locked node now k).1

-- How many transactions an event can add to the list of credited ones.
abbrev pub touches : Desk → Event → ℕ
touches k (reports pf notifies fate buyer txid amount now) = 1
touches k (polls status notifies fate p now) = 1
touches k (rechecks fate now n status) = 1
touches k (sweeps status notifies fate now) = length k.deposits.pending
touches k (passes node now) = length k.deposits.reversed + length k.deposits.processed
touches k _ = 0

-- The ledger that a retry loaded is still in the file when it saves, where it does.
abbrev pub IsCurrent : Desk → Event → Type 0
IsCurrent k (retries true true send now loaded) = loaded ≡ k.deposits
IsCurrent k _ = Unit

-- Before each event the list of credited transactions has room for what the event can add, and the retries save what is
-- still in the file.
abbrev pub IsSafe : Desk → List Event → Type 0
IsSafe k [] = Unit
IsSafe k (e ∷ es) =
    (length k.deposits.credited_txids + touches k e ≤ credited_txid_cap)
    × IsCurrent k e
    × IsSafe (step k e) es

unfoldable pub run : Desk → List Event → Desk
run k [] = k
run k (e ∷ es) = run (step k e) es

-- How often the transaction was credited, and debited back.
abbrev pub credits : String → List Move → ℕ
credits t [] = 0
credits t (credited u ∷ ms) = let n = credits t ms in if str_eq u t then suc n else n
credits t (debited_back u ∷ ms) = credits t ms

abbrev pub debits : String → List Move → ℕ
debits t [] = 0
debits t (credited u ∷ ms) = debits t ms
debits t (debited_back u ∷ ms) = let n = debits t ms in if str_eq u t then suc n else n

abbrev pub count {ℓ} : {A : Type ℓ} → (A → Bool) → List A → ℕ
count p [] = 0
count p (x ∷ xs) = let n = count p xs in if p x then suc n else n

-- A record whose credit was taken back, and which is still in the log.
abbrev pub is_debited : Undoing → Bool
is_debited debited = true
is_debited _ = false

abbrev pub is_marked : String → Processed → Bool
is_marked t r = has_txid t r && is_debited r.reversal

-- An entry that may be restored, and was debited.
abbrev pub is_owed : String → Reversed → Bool
is_owed t e = is_restorable t e && e.was_debited

-- What is kept of one transaction.
pub record At (t : String) (d : Deposits) (ms : List Move) : Type 0 where
  pub once : credits t ms ≤ suc (debits t ms)
  pub known : debits t ms < credits t ms → remembers t d.credited_txids ≡ true
  pub back : 1 ≤ count (is_owed t) d.reversed → credits t ms ≤ debits t ms
  pub redo : 1 ≤ count (is_marked t) d.processed → credits t ms ≤ debits t ms
  pub single : count (has_txid t) d.processed + count (is_restorable t) d.reversed ≤ 1
  pub logged : 1 ≤ count (has_txid t) d.processed → remembers t d.credited_txids ≡ true

abbrev pub Invariant : Desk → Type 0
Invariant k = (t : String) → At t k.deposits k.moves
