-- ===== src/Deposits/Pass/Tests.antt =====
-- Passes, retries, the operator's credits and the list of anomalies of src/deposit-watcher.js at concrete inputs.
use j41_sovagent_dispatcher.Prelude.{
  Bool, Option, length, ℕ, ◌+◌, ◌*◌, ◌≤◌, pos, ◌+ℤ◌, ◌-ℤ◌, true, false, none, some, [], ◌∷◌, get,
  put, delete, finite, ◌≡◌, refl, arith,
}
use j41_sovagent_dispatcher.Meter.{Buyer, new_buyer, with_meter_lock}
use j41_sovagent_dispatcher.Meter.Aliases.{resolve_buyer_key, ensure_buyer, same_tx}
use j41_sovagent_dispatcher.Meter.Credit.{reverse_deposit, reverse}
use j41_sovagent_dispatcher.Deposits.{Deposits, Processed, Desk, debited_back}
use j41_sovagent_dispatcher.Deposits.Ledger.{intent}
use j41_sovagent_dispatcher.Deposits.Credit.{completes}
use j41_sovagent_dispatcher.Deposits.Anomalies.{
  Stat, Listing, Cached, listing_of, list_deposit_anomalies_for_agent,
}
use j41_sovagent_dispatcher.Deposits.Evidence.{
  ChainInfo, synced_view, throws, lookup_of, unknown, Pass, expire_reversals, is_evident,
}
use j41_sovagent_dispatcher.Deposits.Reconcile.{
  find_live, set_live, close_reversal, debit, miss, reconcile_live, reconcile_one,
}
use j41_sovagent_dispatcher.Deposits.Pass.{
  adopt, backfill, Node, still_synced, reconcile_open, reconcile_synced, recheck_all,
  recheck_reversals, reconcile_locked, open_of,
}
use j41_sovagent_dispatcher.Deposits.Recheck.{recheck_one}
use j41_sovagent_dispatcher.Deposits.Pass.Debits.{debits_made, Grounded, reconcile_one-Grounded}
use j41_sovagent_dispatcher.Deposits.Pass.Window.{recent}
use j41_sovagent_dispatcher.Deposits.Pass.Guards.{
  Trusted, reconcile_locked-budget, reconcile_locked-Trusted,
}
use j41_sovagent_dispatcher.Deposits.Notify.{Tick, postponed, sends_over}
use j41_sovagent_dispatcher.Deposits.Notify.Bounded.{sends_over-bound}
use j41_sovagent_dispatcher.Deposits.Operator.{
  is_unresolved, is_stuck_crediting, credit_deposit_anomaly,
}
use j41_sovagent_dispatcher.Deposits.Operator.Justified.{
  Justified, credit_deposit_anomaly-Justified,
}
use j41_sovagent_dispatcher.Deposits.Audit.{reconcile_meter_against_ledger}
use j41_sovagent_dispatcher.Deposits.Once.Runs.{no_deposits}

-- A pass that sees the chain ten minutes and thirty blocks later.
abbrev pass_at : ℕ → ℕ → Pass
pass_at now height = record {
  now = now;
  height = some height;
  first_height = height;
  suspended = false;
  budget = 10;
}

-- A credit of 90 without a confirmation, whose transaction was missed twice.
abbrev missing : Processed
missing = record (intent "t1" "buyer@" (pos 90) (some 0) true 0) {
  crediting = false;
  credited_at = some 0;
  misses = 2;
  first_miss_at = some 1;
  first_miss_height = some 60;
}

abbrev ninety : Buyer
ninety = record (new_buyer 0) {
  balance = pos 90;
  total_deposited = pos 90;
  last_deposit_txid = some "t1";
}

abbrev held : Desk
held = record {
  deposits = record {
    processed = missing ∷ [];
    pending = [];
    reversed = [];
    credited_txids = "t1" ∷ [];
  };
  claims = [];
  meter = some (record { buyers = ("buyer@", ninety) ∷ []; aliases = [] });
  recent_reversals = [];
  moves = [];
}

abbrev chain : ChainInfo
chain = record {
  block_height = finite (pos 100);
  longest_chain = finite (pos 100);
  connections = finite (pos 8);
  testnet = some true;
}

abbrev node : Node
node = record {
  enabled = true;
  mainnet = false;
  supported = true;
  before = some chain;
  after = some chain;
  status = λ t. throws (some "TX_NOT_FOUND");
  suspended = false;
  budget = 10;
  fate = λ t. completes;
  restore_fate = λ t. completes;
}

reconcile_one-Grounded_example :
    Grounded completes
      (pass_at 700_000 100)
      held
      "t1"
      unknown
      (reconcile_one completes (pass_at 700_000 100) held "t1" unknown)
reconcile_one-Grounded_example =
    reconcile_one-Grounded completes (pass_at 700_000 100) held "t1" unknown

-- Everything that a pass computes with.
pass_open : Node → ℕ → Desk → Desk
unfolding reconcile_locked backfill adopt still_synced synced_view lookup_of reconcile_synced
    reconcile_open reconcile_one find_live set_live reconcile_live miss debit close_reversal
    is_evident expire_reversals recheck_reversals recheck_all reverse_deposit reverse
    with_meter_lock ensure_buyer resolve_buyer_key same_tx get put delete ◌-ℤ◌ ◌+ℤ◌ recheck_one
    reconcile_meter_against_ledger
pass_open node now k = (reconcile_locked node now k).1

debited_once : (reconcile_locked node 700_000 held).1.moves ≡ debited_back "t1" ∷ []
unfolding pass_open
debited_once = refl

-- The ledger and the meter agree before the reversal, and the audit reports a difference after it.
audit_before : (reconcile_meter_against_ledger held "buyer@").delta ≡ some (pos 0)
unfolding pass_open
audit_before = refl

audit_after :
    (reconcile_meter_against_ledger (reconcile_locked node 700_000 held).1 "buyer@").delta
    ≡ some (pos 90)
unfolding pass_open
audit_after = refl

reconcile_locked-budget_example :
    debits_made (reconcile_locked node 700_000 held).1.moves + recent 700_000 held ≤ 0 + 10
unfolding expire_reversals
reconcile_locked-budget_example = reconcile_locked-budget node 700_000 held (omega arith)

reconcile_locked-Trusted_example :
    (node.enabled ≡ true) × Trusted node (open_of (backfill 700_000 held))
unfolding pass_open
reconcile_locked-Trusted_example = reconcile_locked-Trusted node 700_000 held (omega arith)

abbrev owing : Desk
owing = record held {
  deposits = record held.deposits {
    processed =
        record missing {
          notice = record { owed = true; attempts = 0; next_at = none; gave_up = none };
        }
        ∷ [];
  };
}

abbrev tick : ℕ → Bool → Tick
tick now saves = record { now = now; has_key = true; send = λ r. postponed; saves = saves }

-- The save of the first tick fails, so the second does not wait.
sends_over-bound_example :
    sends_over owing (tick 1 false ∷ tick 2 true ∷ tick 130_000 true ∷ []) ≤ 8 * 1 + 1 * 1
sends_over-bound_example =
    sends_over-bound owing (tick 1 false ∷ tick 2 true ∷ tick 130_000 true ∷ [])

abbrev flagged_desk : Desk
flagged_desk = record held {
  deposits = record held.deposits { processed = record missing { needs_operator = true } ∷ [] };
}

credit_deposit_anomaly-Justified_example :
    Justified
      (some (some 3))
      9
      flagged_desk
      "t1"
      (credit_deposit_anomaly (some (some 3)) completes 9 flagged_desk "t1").1
credit_deposit_anomaly-Justified_example =
    credit_deposit_anomaly-Justified (some (some 3)) completes 9 flagged_desk "t1"

-- A credit that died before its money, listed before and after it counts as stuck, while the file stays the same.
abbrev dying : Deposits
dying = record no_deposits {
  processed = intent "t3" "buyer@" (pos 5) (some 1) false 0 ∷ [];
  credited_txids = "t3" ∷ [];
}

abbrev stat : Stat
stat = record { mtime = 7; size = 300 }

list_open : Option Stat → ℕ → Deposits → Cached → Listing × Cached
unfolding list_deposit_anomalies_for_agent listing_of is_unresolved is_stuck_crediting
list_open = list_deposit_anomalies_for_agent

stuck_listed :
    length (list_deposit_anomalies_for_agent (some stat) 400_000 dying none).0.needs_operator ≡ 1
unfolding list_open
stuck_listed = refl

stuck_hidden :
    length
      (list_deposit_anomalies_for_agent
        (some stat)
        400_000
        dying
        (list_deposit_anomalies_for_agent (some stat) 1 dying none).1).0.needs_operator
    ≡ 0
unfolding list_open
stuck_hidden = refl
