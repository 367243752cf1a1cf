-- ===== src/Deposits/Operator.antt =====
-- What an operator does about a deposit in src/deposit-watcher.js: crediting an anomaly and dismissing it. Who resolves
-- and the texts of resolutions are left out.
pub mod Justified
use j41_sovagent_dispatcher.Prelude.{
  ℕ, leb, sub_ℕ, ltb_ℤ, ℤ, pos, ◌+ℤ◌, ◌-ℤ◌, String, Bool, true, false, not, ◌&&◌, ◌||◌, Option,
  none, some, List, [], ◌∷◌, ◌++◌, any, get, str_eq, if◌then◌else◌,
}
use j41_sovagent_dispatcher.Meter.{MeterFile, Meters, Buyer, load_meters, Locked, busy, done}
use j41_sovagent_dispatcher.Meter.Aliases.{resolve_buyer_key}
use j41_sovagent_dispatcher.Deposits.{Processed, Reversed, Deposits, Desk}
use j41_sovagent_dispatcher.Deposits.Ledger.{
  has_txid, intent, trim_processed, remember_credited_txid,
}
use j41_sovagent_dispatcher.Deposits.Credit.{
  Fate, intent_unsaved, dies_before_money, meter_locked, dies_after_money, unsettled, completes,
  restart, with_money,
}

abbrev pub stuck_crediting_ms : ℕ
stuck_crediting_ms = 300_000

abbrev pub is_unset : Option ℕ → Bool
is_unset none = true
is_unset (some t) = false

abbrev pub is_past : ℕ → Option ℕ → Bool
is_past now none = true
is_past now (some at) = not (ltb_ℤ (sub_ℕ now at) (pos stuck_crediting_ms))

-- `_isStuckCrediting`.
unfoldable pub is_stuck_crediting : ℕ → Processed → Bool
is_stuck_crediting now r = r.crediting && (is_unset r.resolved_at && is_past now r.intent_at)

-- `_isUnresolvedAnomaly`, of a record and of an entry, which is never mid-credit.
unfoldable pub is_unresolved : ℕ → Processed → Bool
is_unresolved now r = is_unset r.resolved_at && (r.needs_operator || is_stuck_crediting now r)

abbrev pub is_unresolved_entry : Reversed → Bool
is_unresolved_entry e = is_unset e.resolved_at && e.needs_operator

abbrev pub is_anomaly : ℕ → String → Processed → Bool
is_anomaly now txid r = has_txid txid r && is_unresolved now r

abbrev pub is_anomalous_entry : String → Reversed → Bool
is_anomalous_entry txid e = str_eq e.txid txid && is_unresolved_entry e

abbrev pub find {ℓ} : {A : Type ℓ} → (A → Bool) → List A → Option A
find p [] = none
find p (x ∷ xs) = if p x then some x else find p xs

-- The first that fits is replaced.
abbrev pub replace {ℓ} : {A : Type ℓ} → (A → Bool) → A → List A → List A
replace p new [] = []
replace p new (x ∷ xs) = if p x then new ∷ xs else x ∷ replace p new xs

pub data Found : Type 0 where
  nowhere : Found
  in_processed : Processed → Found
  in_reversed : Reversed → Found

abbrev pub found_entry : Option Reversed → Found
found_entry none = nowhere
found_entry (some e) = in_reversed e

abbrev pub found_in : Deposits → String → Option Processed → Found
found_in d txid none = found_entry (find (is_anomalous_entry txid) d.reversed)
found_in d txid (some r) = in_processed r

-- `_findAnomaly`.
unfoldable pub find_anomaly : ℕ → Deposits → String → Found
find_anomaly now d txid = found_in d txid (find (is_anomaly now txid) d.processed)

-- What the operator is answered; `thrown` is an error of a write.
pub data Resolution : Type 0 where
  reason_required verify_failed not_confirmed not_found resolve_interrupted thrown : Resolution
  resolved : ℤ → Resolution

-- The record of an anomaly while its credit is under way, and after it.
abbrev pub with_record : ℕ → Deposits → String → Processed → Deposits
with_record now d txid new = record d { processed = replace (is_anomaly now txid) new d.processed }

abbrev pub with_entry : Deposits → String → Reversed → Deposits
with_entry d txid new = record d { reversed = replace (is_anomalous_entry txid) new d.reversed }

abbrev pub resolved_record : ℕ → Processed → Processed
resolved_record now r = record r {
  resolving = false;
  resolved_at = some now;
  needs_operator = false;
}

abbrev pub first_set : Option ℕ → ℕ → Option ℕ
first_set none now = some now
first_set (some t) now = some t

abbrev pub resolved_entry : ℕ → Reversed → Reversed
resolved_entry now e = record e {
  resolving = false;
  resolved_at = some now;
  needs_operator = false;
  restored_at = first_set e.restored_at now;
}

-- The record that the operator's credit leaves in the log.
abbrev pub operator_record : String → String → ℤ → ℕ → ℕ → Processed
operator_record txid buyer amount blocks now =
    record (intent txid buyer amount (some blocks) false now) {
      crediting = false;
      intent_at = none;
      credited_at = some now;
    }

-- The last save: the transaction is in the log and is remembered.
abbrev pub remembered : Deposits → Processed → Deposits
remembered d r = record d {
  processed =
      trim_processed
        (if any (has_txid r.txid) d.processed then d.processed else d.processed ++ r ∷ []);
  credited_txids = remember_credited_txid r.txid d.credited_txids;
}

-- The writes of the operator's credit: the stamp, the money, and the settled anomaly.
unfoldable pub credit_anomaly :
    Fate → ℕ → Desk → Processed → Deposits → Deposits → Resolution × Desk
credit_anomaly fate now k r stamped settled =
    let begun = record k { deposits = stamped } in
    let (answer, paid) = with_money begun r r.buyer [] true now in
    elim fate [
      | intent_unsaved ↦ (thrown, k)
      | dies_before_money ↦ (thrown, restart begun)
      | meter_locked ↦ (thrown, begun)
      | dies_after_money ↦ (thrown, restart paid)
      | unsettled ↦ (thrown, paid)
      | completes ↦ (resolved r.amount, record paid { deposits = settled })
    ]

unfoldable pub credit_found : Fate → ℕ → ℕ → Desk → String → Found → Resolution × Desk
credit_found fate now blocks k txid nowhere = (not_found, k)
credit_found fate now blocks k txid (in_processed r) =
    let log = operator_record txid r.buyer r.amount blocks now in
    if r.resolving
    then (resolve_interrupted, k)
    else credit_anomaly fate now k log
        (with_record now k.deposits txid (record r { resolving = true }))
        (remembered (with_record now k.deposits txid (resolved_record now r)) log)
credit_found fate now blocks k txid (in_reversed e) =
    let log = operator_record txid e.buyer e.amount blocks now in
    if e.resolving
    then (resolve_interrupted, k)
    else credit_anomaly fate now k log (with_entry k.deposits txid (record e { resolving = true }))
        (remembered (with_entry k.deposits txid (resolved_entry now e)) log)

-- `creditDepositAnomaly`; `status` is what `getTxStatus` answers, `none` where it throws.
unfoldable pub credit_deposit_anomaly :
    Option (Option ℕ) → Fate → ℕ → Desk → String → Resolution × Desk
credit_deposit_anomaly none fate now k txid = (verify_failed, k)
credit_deposit_anomaly (some none) fate now k txid = (not_confirmed, k)
credit_deposit_anomaly (some (some blocks)) fate now k txid =
    if leb 1 blocks
    then credit_found fate now blocks k txid (find_anomaly now k.deposits txid)
    else (not_confirmed, k)

abbrev pub dismiss_found : ℕ → Desk → String → Found → Resolution × Desk
dismiss_found now k txid nowhere = (not_found, k)
dismiss_found now k txid (in_processed r) = (
  resolved r.amount,
  record k {
    deposits =
        with_record now k.deposits txid
          (record r { resolved_at = some now; needs_operator = false });
  },
)
dismiss_found now k txid (in_reversed e) = (
  resolved e.amount,
  record k {
    deposits =
        with_entry k.deposits txid (record e { resolved_at = some now; needs_operator = false });
  },
)

-- `dismissDepositAnomaly`.
unfoldable pub dismiss_deposit_anomaly : String → ℕ → Desk → String → Resolution × Desk
dismiss_deposit_anomaly reason now k txid =
    if str_eq reason ""
    then (reason_required, k)
    else dismiss_found now k txid (find_anomaly now k.deposits txid)
