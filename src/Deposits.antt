-- ===== src/Deposits.antt =====
-- src/deposit-watcher.js: the deposits of one seller's agent. This file has the data of deposits.json. Amounts are
-- satoshis, times are milliseconds.
pub mod Ledger
pub mod Identity
pub mod Sender
pub mod Credit
pub mod Report
pub mod Poll
pub mod Evidence
pub mod Reconcile
pub mod Recheck
pub mod Pass
pub mod Notify
pub mod Operator
pub mod Audit
pub mod Submit
pub mod Anomalies
pub mod Once
mod Tests
use j41_sovagent_dispatcher.Prelude.{
  ℕ, ◌*◌, ℤ, pos, ltb_ℤ, leb_ℤ, String, Number, finite, Bool, true, false, Option, none, some, List,
  [], if◌then◌else◌,
}
use j41_sovagent_dispatcher.Meter.{MeterFile}

-- How far the undoing of a credit has come.
pub data Undoing : Type 0 where
  untouched debiting debited recredited : Undoing

-- The notification that the platform is owed.
pub data GaveUp : Type 0 where
  rejected exhausted : GaveUp

pub record Notice : Type 0 where
  pub owed : Bool
  pub attempts : ℕ
  pub next_at : Option ℕ
  pub gave_up : Option GaveUp

-- A record of `processed`. A flag that is absent is `false`, a time that is absent is `none`; the texts of
-- reasons are left out; `skipped` is `reconcileBackfillSkipped`.
pub record Processed : Type 0 where
  pub txid : String
  pub buyer : String
  pub amount : ℤ
  pub confirmations : Option ℕ
  pub crediting : Bool
  pub intent_at : Option ℕ
  pub credited_at : Option ℕ
  pub unconfirmed : Bool
  pub misses : ℕ
  pub first_miss_at : Option ℕ
  pub first_miss_height : Option ℕ
  pub reversal : Undoing
  pub needs_operator : Bool
  pub withheld : Bool
  pub resolved_at : Option ℕ
  pub skipped : Bool
  pub resolving : Bool
  pub notice : Notice

pub record PendingDeposit : Type 0 where
  pub txid : String
  pub buyer : String
  pub amount : ℤ
  pub required : ℕ

-- An entry of `reversed`. `was_debited` is `debited === true`.
pub record Reversed : Type 0 where
  pub txid : String
  pub buyer : String
  pub amount : ℤ
  pub reversed_at : ℕ
  pub was_debited : Bool
  pub restoring : Bool
  pub restored_at : Option ℕ
  pub needs_operator : Bool
  pub resolved_at : Option ℕ
  pub resolving : Bool

pub record Deposits : Type 0 where
  pub processed : List Processed
  pub pending : List PendingDeposit
  pub reversed : List Reversed
  pub credited_txids : List String

-- A move of money on the meter that returned, with its transaction.
pub data Move : Type 0 where
  credited debited_back : String → Move

-- What the process keeps and writes for one agent: deposits.json, the claims in memory, the balance file, the times of the
-- recent reversals in memory, and the
-- moves that were made on it, the latest first.
pub record Desk : Type 0 where
  pub deposits : Deposits
  pub claims : List String
  pub meter : MeterFile
  pub recent_reversals : List ℕ
  pub moves : List Move

abbrev pub in_coins : ℕ → ℤ
in_coins n = pos (n * 100_000_000)

-- `requiredConfirmations`.
unfoldable pub required_confirmations : ℤ → ℕ
required_confirmations amount =
    if ltb_ℤ amount (in_coins 2) then 0 else if leb_ℤ amount (in_coins 10) then 1 else 6

abbrev pub max_zero : ℤ → ℤ
max_zero z = if ltb_ℤ z (pos 0) then pos 0 else z

abbrev pub min_ℤ : ℤ → ℤ → ℤ
min_ℤ a b = if ltb_ℤ b a then b else a

-- `clampCredit` of src/deposit-credit.js; `none` is an amount that is missing.
unfoldable pub clamp_credit : ℤ → Option Number → ℤ
clamp_credit expected none = expected
clamp_credit expected (some (finite c)) = max_zero (min_ℤ expected c)
clamp_credit expected (some _) = expected
