-- ===== src/Deposits/Audit.antt =====
-- The audit of a buyer's meter against the ledger, in src/deposit-watcher.js.
use j41_sovagent_dispatcher.Prelude.{
  ℤ, pos, ◌+ℤ◌, ◌-ℤ◌, String, not, ◌&&◌, Option, none, some, List, [], ◌∷◌, get, str_eq,
  if◌then◌else◌,
}
use j41_sovagent_dispatcher.Meter.{Buyer, load_meters}
use j41_sovagent_dispatcher.Meter.Aliases.{resolve_buyer_key}
use j41_sovagent_dispatcher.Deposits.{Processed, Reversed, Desk}
use j41_sovagent_dispatcher.Deposits.Operator.{is_unset}

abbrev pub credited_to : String → List Processed → ℤ
credited_to buyer [] = pos 0
credited_to buyer (r ∷ rs) =
    let rest = credited_to buyer rs in
    if str_eq r.buyer buyer && not r.crediting then r.amount +ℤ rest else rest

abbrev pub debited_from : String → List Reversed → ℤ
debited_from buyer [] = pos 0
debited_from buyer (e ∷ es) =
    let rest = debited_from buyer es in
    if str_eq e.buyer buyer && (e.was_debited && is_unset e.restored_at)
    then e.amount +ℤ rest
    else rest

pub record Audit : Type 0 where
  pub expected : ℤ
  pub actual : Option ℤ
  pub delta : Option ℤ
  pub balance : Option ℤ

abbrev pub audit_of : ℤ → Option Buyer → Audit
audit_of expected none = record { expected = expected; actual = none; delta = none; balance = none }
audit_of expected (some b) = record {
  expected = expected;
  actual = some b.total_deposited;
  delta = some (b.total_deposited -ℤ expected);
  balance = some b.balance;
}

-- `reconcileMeterAgainstLedger`.
unfoldable pub reconcile_meter_against_ledger : Desk → String → Audit
reconcile_meter_against_ledger k buyer =
    audit_of (credited_to buyer k.deposits.processed -ℤ debited_from buyer k.deposits.reversed)
      (get (load_meters k.meter).buyers (resolve_buyer_key (load_meters k.meter) buyer))
