-- ===== src/Meter.antt =====
-- src/credit-meter.js: the prepaid balances of the buyers of one agent. Amounts are counted in a unit
-- small enough that every rate and deposit is a whole number of it.
pub mod Aliases
pub mod Merged
pub mod Credit
pub mod Balance
pub mod Deposits
pub mod Low
pub mod Prices
pub mod Reserve
pub mod Broken
pub mod Reversal
mod Tests
use j41_sovagent_dispatcher.Prelude.{
  ℕ, ℤ, pos, String, Number, Bool, true, false, Option, none, some, List, [], Dict,
}

-- What was used of one model. A count of tokens is a whole number.
pub record Usage : Type 0 where
  pub requests : ℕ
  pub input_tokens : ℕ
  pub output_tokens : ℕ
  pub cost : ℤ

-- A number that is not finite is written as null, which computes as 0 when it is read back; the
-- amounts here are what the file holds.
pub record Buyer : Type 0 where
  pub balance : ℤ
  pub total_deposited : ℤ
  pub total_spent : ℤ
  pub last_activity : ℕ
  pub last_deposit_txid : Option String
  pub last_reversed_txid : Option String
  pub low_notified_at : Option ℕ
  pub usage : Dict Usage

pub record Meters : Type 0 where
  pub buyers : Dict Buyer
  pub aliases : Dict String

-- credit-meters.json; `none` is a file that is absent or that does not parse.
abbrev pub MeterFile : Type 0
MeterFile = Option Meters

abbrev pub no_meters : Meters
no_meters = record { buyers = []; aliases = [] }

abbrev pub load_meters : MeterFile → Meters
load_meters none = no_meters
load_meters (some m) = m

-- tmp and rename: the file holds the new meters.
abbrev pub save_meters : Meters → MeterFile
save_meters m = some m

-- The answer of a mutation under the file lock. `busy` is the error METER_LOCK_BUSY.
pub data Locked {ℓ} (A : Type ℓ) : Type ℓ where
  busy : Locked A
  done : A → Locked A

-- `withMeterLock`: a mutation runs without the lock too, unless it fails closed.
unfoldable pub with_meter_lock {ℓ} :
    {A : Type ℓ} → Bool → Bool → A × MeterFile → MeterFile → Locked A × MeterFile
with_meter_lock true fail_closed (a, after) before = (done a, after)
with_meter_lock false true (a, after) before = (busy, before)
with_meter_lock false false (a, after) before = (done a, after)

abbrev pub new_buyer : ℕ → Buyer
new_buyer now = record {
  balance = pos 0;
  total_deposited = pos 0;
  total_spent = pos 0;
  last_activity = now;
  last_deposit_txid = none;
  last_reversed_txid = none;
  low_notified_at = none;
  usage = [];
}

-- An entry of `modelPricing`.
pub record Pricing : Type 0 where
  pub model : String
  pub input_token_rate : Number
  pub output_token_rate : Number
