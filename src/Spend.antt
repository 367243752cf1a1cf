-- ===== src/Spend.antt =====
-- src/spend-policy.js: the outbound-money policy. This file has its data: the files that it keeps
-- on disk, gathered in `World`, and what the gate is asked and answers. Amounts are satoshis.
pub mod RateLimits
pub mod Addresses
pub mod SendHistory
pub mod Answers
pub mod Gate
pub mod Session
mod Tests
use j41_sovagent_dispatcher.Prelude.{
  ℕ, ℤ, String, Number, Bool, Option, none, List, Dict, pos, true, false,
}

-- A JSON file: absent, unreadable, or parsed.
pub data File {ℓ} (A : Type ℓ) : Type ℓ where
  missing corrupt : File A
  holds : A → File A

pub record Entry : Type 0 where
  pub address : String
  pub job_id : String

pub record Allowlist : Type 0 where
  pub permanent : List Entry
  pub operator : List Entry
  pub active_jobs : List Entry

pub record SendRecord : Type 0 where
  pub timestamp : ℕ
  pub amount : ℤ

pub record History : Type 0 where
  pub global : List SendRecord
  pub per_job : Dict (List SendRecord)

-- The parsed history file; a member of the wrong type is `none`.
pub record RawHistory : Type 0 where
  pub global : Option (List SendRecord)
  pub per_job : Option (Dict (List SendRecord))

-- `max_value_multiplier` is counted in hundredths: 110 is 1.1. A member that is no number is NaN.
pub record RawLimits : Type 0 where
  pub max_sends_per_job : Number
  pub max_value_multiplier : Number
  pub max_sends_per_hour : Number
  pub cooldown_ms : Number

pub record Limits : Type 0 where
  pub max_sends_per_job : ℤ
  pub max_value_multiplier : ℤ
  pub max_sends_per_hour : ℤ
  pub cooldown_ms : Number

pub data LimitKey : Type 0 where
  sends_per_job value_multiplier sends_per_hour : LimitKey

-- The `kind` strings; `other` is any string that is not one of them.
pub data Kind : Type 0 where
  refund payment deposit fleet_transfer fee_sweep : Kind
  other : String → Kind

-- The texts of the refusals.
pub data Reason : Type 0 where
  unknown_kind uninterpretable_amount refund_not_in_allowlist payee_not_expected : Reason
  suspended max_sends exceeds_price hourly_limit cooldown_active : Reason
  uninterpretable_cap over_cap ledger_unwritable : Reason

pub data Check : Type 0 where
  skip pass fail warn : Check

pub record Checks : Type 0 where
  pub suspension : Check
  pub counterparty : Check
  pub per_job_cap : Check
  pub value_ceiling : Check
  pub hourly_cap : Check
  pub cooldown : Check
  pub absolute_cap : Check

pub record Decision : Type 0 where
  pub allowed : Bool
  pub retryable : Bool
  pub reason : Option Reason
  pub checks : Checks

-- The argument of `gateExternalSend`. An amount that arrives as text is the number that it spells.
pub record Send : Type 0 where
  pub kind : Kind
  pub job_id : String
  pub to_address : String
  pub amount : Number
  pub amount_sats : Option Number
  pub job_price : Number
  pub expected_recipients : Option (List String)
  pub now : ℕ

-- What every line of the ledger begins with.
pub record LedgerBase : Type 0 where
  pub ts : ℕ
  pub kind : Kind
  pub job_id : Option String
  pub to_address : Option String
  pub amount_sats : Option Number

pub data LedgerLine : Type 0 where
  gate_decision : LedgerBase → Decision → LedgerLine
  broadcast_outcome : LedgerBase → Option String → Option String → LedgerLine

-- The files under ~/.j41, and whether a write to each would succeed. `config` is what
-- `loadDispatcherConfig().refund_limits` gives, or `none` where loading throws.
pub record World : Type 0 where
  pub allowlist : File Allowlist
  pub allowlist_writable : Bool
  pub history : File RawHistory
  pub history_writable : Bool
  pub suspended_file : Bool
  pub suspended_writable : Bool
  pub config : Option RawLimits
  pub clamped_keys : List LimitKey
  pub ledger : List LedgerLine
  pub ledger_writable : Bool

-- A fresh installation with no `refund_limits` in its configuration.
abbrev pub fresh : World
fresh = record {
  allowlist = missing;
  allowlist_writable = true;
  history = missing;
  history_writable = true;
  suspended_file = false;
  suspended_writable = true;
  config = none;
  clamped_keys = List.[];
  ledger = List.[];
  ledger_writable = true;
}
