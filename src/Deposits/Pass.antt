-- ===== src/Deposits/Pass.antt =====
-- A whole pass of the reconciliation in src/deposit-watcher.js: the adoption of old credits, the gates on the node, the
-- lookups, the records one after another, and the restores. The counts that it returns are left out.
pub mod Debits
pub mod Restored
pub mod Window
pub mod Guards
mod Tests
use j41_sovagent_dispatcher.Prelude.{
  ℕ, ◌==◌, leb, ltb_ℤ, sub_ℕ, pos, String, Number, finite, Bool, true, false, not, ◌&&◌, ◌||◌,
  Option, none, some, List, [], ◌∷◌, keep, if◌then◌else◌,
}
use j41_sovagent_dispatcher.Deposits.{Processed, Reversed, Desk}
use j41_sovagent_dispatcher.Deposits.Credit.{Fate, completes}
use j41_sovagent_dispatcher.Deposits.Evidence.{
  ChainInfo, synced_view, StatusAnswer, throws, answers, Lookup, lookup_of, is_systemic, Pass,
}
use j41_sovagent_dispatcher.Deposits.Reconcile.{reconcile_one}
use j41_sovagent_dispatcher.Deposits.Recheck.{flag_all, is_candidate, recheck_one}

abbrev pub reconcile_backfill_max_age_ms : ℕ
reconcile_backfill_max_age_ms = 86_400_000

abbrev pub is_zero_count : Option ℕ → Bool
is_zero_count none = false
is_zero_count (some n) = n == 0

-- A credit from before the reconciliation.
abbrev pub adopt_at : ℕ → Processed → Option ℕ → Processed
adopt_at now r none = record r { skipped = true }
adopt_at now r (some at) =
    if ltb_ℤ (pos reconcile_backfill_max_age_ms) (sub_ℕ now at)
    then record r { skipped = true }
    else record r { unconfirmed = true; misses = 0 }

unfoldable pub adopt : ℕ → Processed → Processed
adopt now r =
    if r.unconfirmed || (r.crediting || (not (is_zero_count r.confirmations) || r.skipped))
    then r
    else adopt_at now r r.credited_at

abbrev pub adopt_all : ℕ → List Processed → List Processed
adopt_all now [] = []
adopt_all now (r ∷ rs) = adopt now r ∷ adopt_all now rs

-- `_backfillPrePortZeroConf`.
unfoldable pub backfill : ℕ → Desk → Desk
backfill now k = record k {
  deposits = record k.deposits { processed = adopt_all now k.deposits.processed };
}

-- What the pass reads from the node, the platform and the configuration. A chain info is `none` where the call throws.
pub record Node : Type 0 where
  pub enabled : Bool
  pub mainnet : Bool
  pub supported : Bool
  pub before : Option ChainInfo
  pub after : Option ChainInfo
  pub status : String → StatusAnswer
  pub suspended : Bool
  pub budget : ℕ
  pub fate : String → Fate
  pub restore_fate : String → Fate

pub data PassState : Type 0 where
  disabled idle inert_unsynced systemic armed inert_no_flag : PassState

-- The height, where it is a positive number.
abbrev pub height_of : Option ChainInfo → ℕ
height_of none = 0
height_of (some ci) = elim ci.block_height [ finite z ↦ elim z [ pos n ↦ n | _ ↦ 0 ] | _ ↦ 0 ]

-- The node is synced at the end too, and did not fall back.
unfoldable pub still_synced : Node → Bool
still_synced node =
    synced_view node.after node.mainnet && leb (height_of node.before) (height_of node.after)

abbrev pub pass_of : Node → ℕ → Pass
pass_of node now = record {
  now = now;
  height = if still_synced node then some (height_of node.before) else none;
  first_height = height_of node.before;
  suspended = node.suspended;
  budget = node.budget;
}

abbrev pub look_at : Node → String → Lookup
look_at node txid = lookup_of node.supported (node.status txid)

abbrev pub lookups : Node → List Processed → List Lookup
lookups node [] = []
lookups node (r ∷ rs) = look_at node r.txid ∷ lookups node rs

-- A write that fails ends the pass.
abbrev pub goes_on : Fate → Bool
goes_on completes = true
goes_on _ = false

-- The third phase, over the records that were open, and whether it came to its end.
unfoldable pub reconcile_open : Node → ℕ → Desk → List Processed → Bool × Desk
reconcile_open node now k [] = (true, k)
reconcile_open node now k (r ∷ rs) =
    let after =
      reconcile_one (node.fate r.txid) (pass_of node now) k r.txid (look_at node r.txid) in
    let rest = reconcile_open node now after rs in
    if goes_on (node.fate r.txid) then rest else (false, after)

abbrev pub read_count : StatusAnswer → Option (Option ℕ)
read_count (throws code) = none
read_count (answers count) = some count

unfoldable pub recheck_all : Node → ℕ → Desk → List Reversed → Desk
recheck_all node now k [] = k
recheck_all node now k (e ∷ es) =
    let after = recheck_one (node.restore_fate e.txid) now k e (read_count (node.status e.txid)) in
    let rest = recheck_all node now after es in
    if goes_on (node.restore_fate e.txid) then rest else after

abbrev pub with_flags : Desk → Desk
with_flags k = record k { deposits = record k.deposits { reversed = flag_all k.deposits.reversed } }

-- `_recheckReversals`.
unfoldable pub recheck_reversals : Node → ℕ → Desk → Desk
recheck_reversals node now k =
    recheck_all node now (with_flags k) (keep (is_candidate now) (with_flags k).deposits.reversed)

abbrev pub open_of : Desk → List Processed
open_of k = keep (λ r. r.unconfirmed) k.deposits.processed

abbrev pub then_recheck : Node → ℕ → Bool × Desk → Desk
then_recheck node now (true, k) = recheck_reversals node now k
then_recheck node now (false, k) = k

abbrev pub state_of : Node → PassState
state_of node =
    if node.supported then if still_synced node then armed else inert_unsynced else inert_no_flag

-- A pass over the records that are open.
unfoldable pub reconcile_synced : Node → ℕ → Desk → List Processed → PassState × Desk
reconcile_synced node now k rs =
    if not (synced_view node.before node.mainnet)
    then (inert_unsynced, recheck_reversals node now k)
    else if is_systemic (lookups node rs)
    then (systemic, recheck_reversals node now k)
    else (state_of node, then_recheck node now (reconcile_open node now k rs))

abbrev pub reconcile_adopted : Node → ℕ → Desk → List Processed → PassState × Desk
reconcile_adopted node now k [] = (idle, recheck_reversals node now k)
reconcile_adopted node now k (r ∷ rs) = reconcile_synced node now k (r ∷ rs)

-- `_reconcileLocked`.
unfoldable pub reconcile_locked : Node → ℕ → Desk → PassState × Desk
reconcile_locked node now k =
    if node.enabled
    then reconcile_adopted node now (backfill now k) (open_of (backfill now k))
    else (disabled, k)
