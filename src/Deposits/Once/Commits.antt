-- ===== src/Deposits/Once/Commits.antt =====
-- The writes of a credit in src/deposit-watcher.js, one after another, and what is kept after each.
use j41_sovagent_dispatcher.Prelude.{
  ℕ, suc, ◌≤◌, ◌<◌, String, ℤ, Bool, false, List, length, ◌≡◌, arith,
}
use j41_sovagent_dispatcher.Meter.{Locked, busy, done}
use j41_sovagent_dispatcher.Deposits.{Processed, untouched, Desk}
use j41_sovagent_dispatcher.Deposits.Ledger.{
  has_credited_txid, credited_txid_cap, record_credit_intent, finalize_credit,
}
use j41_sovagent_dispatcher.Deposits.Credit.{
  Fate, intent_unsaved, dies_before_money, meter_locked, dies_after_money, unsettled, completes,
  restart, with_intent, with_money, after_money, settled, commit_credit, acquires,
}
use j41_sovagent_dispatcher.Deposits.Credit.Money.{with_money-elim}
use j41_sovagent_dispatcher.Deposits.Once.{Invariant}
use j41_sovagent_dispatcher.Deposits.Once.Counts.{length-remember-le}
use j41_sovagent_dispatcher.Deposits.Once.Entries.{finalize-has_txid, finalize-marked}
use j41_sovagent_dispatcher.Deposits.Once.Credits.{
  At-mono, Ready, At-credited, At-intent, intent-Ready,
}

-- The invariant, with a bound on the transactions that are remembered.
abbrev pub Kept : ℕ → Desk → Type 0
Kept n k = Invariant k × (length k.deposits.credited_txids ≤ n)

pub widen : (n : ℕ) (k : Desk) → Kept n k → Kept (suc n) k
widen n k (i, b) = (i, omega (arith, b))

pub with_money-Kept :
    (n : ℕ) (k : Desk) (r : Processed) (canonical : String) (aliases : List String) (lock : Bool)
    (now : ℕ)
    → Kept n k
    → Ready r.txid k.deposits k.moves
    → Kept n (with_money k r canonical aliases lock now).1
with_money-Kept n k r canonical aliases lock now (i, b) ready =
    with_money-elim (Kept n) k r canonical aliases lock now (i, b)
      (λ file. (λ t. At-credited t r.txid k.deposits k.moves ready (i t), b))

settled-Kept : (n : ℕ) (k : Desk) (r : Processed) (now : ℕ) → Kept n k → Kept n (settled k r now)
unfolding finalize_credit
settled-Kept n k r now (i, b) = (
  λ t.
      At-mono t k.deposits (finalize_credit k.deposits r.txid now) k.moves
        (record {
          has = omega (arith, finalize-has_txid t r.txid now k.deposits.processed);
          marked = omega (arith, finalize-marked t r.txid now k.deposits.processed);
          restorable = omega arith;
          owed = omega arith;
          kept = λ h. h;
        })
        (i t),
  b,
)

after_money-Kept :
    (n : ℕ) (fate : Fate) (m : Locked ℤ × Desk) (r : Processed) (now : ℕ)
    → Kept n m.1
    → Kept n (after_money fate m r now).1
unfolding restart
after_money-Kept n fate (busy, k) r now h = h
after_money-Kept n dies_after_money (done balance, k) r now h = h
after_money-Kept n completes (done balance, k) r now h = settled-Kept n k r now h
after_money-Kept n intent_unsaved (done balance, k) r now h = h
after_money-Kept n dies_before_money (done balance, k) r now h = h
after_money-Kept n meter_locked (done balance, k) r now h = h
after_money-Kept n unsettled (done balance, k) r now h = h

module _ (n : ℕ) (k : Desk) (r : Processed) (now : ℕ) (plain : r.reversal ≡ untouched)
    (new : has_credited_txid k.deposits r.txid ≡ false) (room : n < credited_txid_cap)
    (kept : Kept n k) where
  fits : length k.deposits.credited_txids < credited_txid_cap
  fits = omega (arith, kept.1, room)

  intent-Kept : Kept (suc n) (with_intent k r now)
  unfolding record_credit_intent
  intent-Kept = (
    λ t. At-intent k.deposits r now k.moves plain new fits t (kept.0 r.txid) (kept.0 t),
    omega (arith, length-remember-le r.txid k.deposits.credited_txids fits, kept.1),
  )

  paid-Kept :
      (fate : Fate) (canonical : String) (aliases : List String)
      → Kept
          (suc n)
          (after_money fate
            (with_money (with_intent k r now) r canonical aliases (acquires fate) now)
            r
            now).1
  paid-Kept fate canonical aliases =
      after_money-Kept (suc n) fate
        (with_money (with_intent k r now) r canonical aliases (acquires fate) now) r now
        (with_money-Kept (suc n) (with_intent k r now) r canonical aliases (acquires fate) now
          intent-Kept (intent-Ready k.deposits r now k.moves plain new fits (kept.0 r.txid)))

  -- Wherever a credit of a new transaction stops, what is kept stays kept.
  pub commit_credit-Kept :
      (fate : Fate) (canonical : String) (aliases : List String)
      → Kept (suc n) (commit_credit fate k r canonical aliases now).1
  unfolding commit_credit restart
  commit_credit-Kept intent_unsaved canonical aliases = widen n k kept
  commit_credit-Kept dies_before_money canonical aliases = intent-Kept
  commit_credit-Kept meter_locked canonical aliases = paid-Kept meter_locked canonical aliases
  commit_credit-Kept dies_after_money canonical aliases =
      paid-Kept dies_after_money canonical aliases
  commit_credit-Kept unsettled canonical aliases = paid-Kept unsettled canonical aliases
  commit_credit-Kept completes canonical aliases = paid-Kept completes canonical aliases
