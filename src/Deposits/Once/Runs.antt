-- ===== src/Deposits/Once/Runs.antt =====
-- Whole runs of src/deposit-watcher.js for one agent.
use j41_sovagent_dispatcher.Prelude.{
  ℕ, suc, ◌+◌, ◌≤◌, String, true, false, List, [], ◌∷◌, keep, length, ◌≡◌, refl, arith,
}
use j41_sovagent_dispatcher.Deposits.{Deposits, Desk}
use j41_sovagent_dispatcher.Deposits.Ledger.{credited_txid_cap}
use j41_sovagent_dispatcher.Deposits.Credit.{restart}
use j41_sovagent_dispatcher.Deposits.Recheck.{is_candidate}
use j41_sovagent_dispatcher.Deposits.Once.{
  Event, reports, polls, reconciles, rechecks, is_notified, adopts, interrupts, retries, dismisses,
  restarts, sweeps, passes, touches, IsCurrent, IsSafe, nth, step, run, credits, debits, Invariant,
}
use j41_sovagent_dispatcher.Deposits.Once.Commits.{Kept}
use j41_sovagent_dispatcher.Deposits.Once.Reports.{report-Kept, poll-Kept, clear_notify-Kept}
use j41_sovagent_dispatcher.Deposits.Once.Passes.{sweep-Kept, pass-Kept}
use j41_sovagent_dispatcher.Deposits.Once.Upkeep.{
  backfill-Kept, with_flags-Kept, retry-Kept, unsaved-same, keyless-same, dismiss-Kept,
}
use j41_sovagent_dispatcher.Deposits.Once.Undone.{reconcile-Kept}
use j41_sovagent_dispatcher.Deposits.Once.Restores.{recheck_at-Kept}

step-Kept :
    (n : ℕ) (k : Desk) (e : Event)
    → n + touches k e ≤ credited_txid_cap
    → IsCurrent k e
    → Kept n k
    → Kept (n + touches k e) (step k e)
unfolding step restart
step-Kept n k (reports pf notifies fate buyer txid amount now) room current h =
    let one = report-Kept n notifies fate (omega (arith, room)) pf k buyer txid amount now h in
    let (i, b) = one in (i, omega (arith, b))
step-Kept n k (polls status notifies fate p now) room current h =
    let (i, b) = poll-Kept n notifies fate (omega (arith, room)) status k p now h in
    (i, omega (arith, b))
step-Kept n k (reconciles fate pass txid look) room current h =
    let (i, b) = reconcile-Kept n k fate pass txid look h in (i, omega (arith, b))
step-Kept n k (rechecks fate now m status) room current h =
    let (i, b) =
      recheck_at-Kept n (omega (arith, room)) fate now k h m status
        (nth m (keep (is_candidate now) k.deposits.reversed)) refl in
    (i, omega (arith, b))
step-Kept n k (is_notified t) room current h =
    let (i, b) = clear_notify-Kept n k t h in (i, omega (arith, b))
step-Kept n k (adopts now) room current h =
    let (i, b) = backfill-Kept n now k h in (i, omega (arith, b))
step-Kept n k interrupts room current h =
    let (i, b) = with_flags-Kept n k h in (i, omega (arith, b))
step-Kept n k (retries true true send now loaded) room current h =
    rw current (let (i, b) = retry-Kept n true true send now k h in (i, omega (arith, b)))
step-Kept n k (retries false has_key send now loaded) room current h =
    rw (unsaved-same has_key send now loaded k) (h.0, omega (arith, h.1))
step-Kept n k (retries true false send now loaded) room current h =
    rw (keyless-same true send now loaded k) (h.0, omega (arith, h.1))
step-Kept n k (dismisses reason now txid) room current h =
    let (i, b) = dismiss-Kept n reason now k txid h in (i, omega (arith, b))
step-Kept n k restarts room current h = (h.0, omega (arith, h.1))
step-Kept n k (sweeps status notifies fate now) room current h =
    sweep-Kept n status notifies fate k.deposits.pending k now room h
step-Kept n k (passes node now) room current h =
    pass-Kept node now n (n + touches k (passes node now)) room k (omega arith) h

run-Kept : (k : Desk) (es : List Event) → IsSafe k es → Invariant k → Invariant (run k es)
unfolding run
run-Kept k [] safe h = h
run-Kept k (e ∷ es) (room, current, safe) h =
    let n = length k.deposits.credited_txids in
    run-Kept (step k e) es safe (step-Kept n k e room current (h, omega arith)).0

abbrev pub no_deposits : Deposits
no_deposits = record { processed = []; pending = []; reversed = []; credited_txids = [] }

start-Invariant : (k : Desk) → k.deposits ≡ no_deposits → k.moves ≡ [] → Invariant k
start-Invariant k d m t = record {
  once = rw m (omega arith);
  known = λ h. absurd (omega (arith, rw m at h));
  back = λ h. rw m (omega arith);
  redo = λ h. rw m (omega arith);
  single = rw d (omega arith);
  logged = λ h. absurd (omega (arith, rw d at h));
}

-- Over any run of reports, sweeps, passes, notifications, retries, dismissals and restarts from an empty ledger, wherever the
-- process dies or a write fails in between, no transaction was credited more than once over what was debited
-- back for it. Two conditions: the list of credited transactions, which holds 10000, has room before each
-- operation for what it can add (one for a report, one for each pending deposit of a sweep and for each
-- record of a pass); and nothing else wrote the ledger between the load and the save of a retry.
pub run_once :
    (k : Desk) (es : List Event)
    → k.deposits ≡ no_deposits
    → k.moves ≡ []
    → IsSafe k es
    → (t : String) → credits t (run k es).moves ≤ suc (debits t (run k es).moves)
run_once k es d m safe t = (run-Kept k es safe (start-Invariant k d m) t).once
