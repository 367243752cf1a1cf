-- ===== src/Deposits/Recheck.antt =====
-- The restoring of reversals whose transaction is confirmed after all, in src/deposit-watcher.js.
use j41_sovagent_dispatcher.Prelude.{
  ℕ, leb, ltb_ℤ, sub_ℕ, pos, String, Bool, true, false, not, ◌&&◌, Option, none, some, List, [],
  ◌∷◌, ◌++◌, any, str_eq, if◌then◌else◌,
}
use j41_sovagent_dispatcher.Deposits.{Processed, Reversed, Deposits, Desk}
use j41_sovagent_dispatcher.Deposits.Ledger.{
  has_txid, is_unrestored, intent, remember_credited_txid, trim_processed,
}
use j41_sovagent_dispatcher.Deposits.Credit.{
  Fate, intent_unsaved, dies_before_money, meter_locked, completes, restart, with_money,
}

abbrev pub reversal_recheck_window_ms : ℕ
reversal_recheck_window_ms = 86_400_000

-- An interrupted restore is flagged.
abbrev pub flag_interrupted : Reversed → Reversed
flag_interrupted e =
    if e.restoring && not e.needs_operator then record e { needs_operator = true } else e

abbrev pub flag_all : List Reversed → List Reversed
flag_all [] = []
flag_all (e ∷ es) = flag_interrupted e ∷ flag_all es

-- An entry that may be restored.
abbrev pub is_candidate : ℕ → Reversed → Bool
is_candidate now e =
    elim e.restored_at [ none ↦ true | some t ↦ false ]
    && (not e.restoring
        && (not (str_eq e.txid "")
            && not (ltb_ℤ (pos reversal_recheck_window_ms) (sub_ℕ now e.reversed_at))))

-- The first entry of the transaction that is not restored is flagged.
unfoldable pub flag_unproven : String → List Reversed → List Reversed
flag_unproven txid [] = []
flag_unproven txid (e ∷ es) =
    if is_unrestored txid e
    then record e { needs_operator = true } ∷ es
    else e ∷ flag_unproven txid es

abbrev pub is_restorable : String → Reversed → Bool
is_restorable txid e = is_unrestored txid e && not e.restoring

unfoldable pub find_restorable : String → List Reversed → Option Reversed
find_restorable txid [] = none
find_restorable txid (e ∷ es) = if is_restorable txid e then some e else find_restorable txid es

unfoldable pub set_restoring : String → List Reversed → List Reversed
set_restoring txid [] = []
set_restoring txid (e ∷ es) =
    if is_restorable txid e then record e { restoring = true } ∷ es else e ∷ set_restoring txid es

-- The first entry that is being restored is settled.
unfoldable pub set_restored : String → ℕ → List Reversed → List Reversed
set_restored txid now [] = []
set_restored txid now (e ∷ es) =
    if str_eq e.txid txid && e.restoring
    then record e { restoring = false; restored_at = some now } ∷ es
    else e ∷ set_restored txid now es

-- The record that a restore puts back into the log.
abbrev pub restored_record : Reversed → ℕ → ℕ → Processed
restored_record e blocks now = record (intent e.txid e.buyer e.amount (some blocks) false now) {
  crediting = false;
  intent_at = none;
  credited_at = some now;
}

-- The save before the money: the entry is marked and the transaction is remembered again.
abbrev pub restore_intent : Deposits → Reversed → ℕ → ℕ → Deposits
restore_intent d e blocks now = record d {
  processed = trim_processed (
      if any (has_txid e.txid) d.processed
      then d.processed
      else d.processed ++ restored_record e blocks now ∷ []);
  reversed = set_restoring e.txid d.reversed;
  credited_txids = remember_credited_txid e.txid d.credited_txids;
}

abbrev pub restore_settled : Desk → String → ℕ → Desk
restore_settled k txid now = record k {
  deposits = record k.deposits { reversed = set_restored txid now k.deposits.reversed };
}

unfoldable pub restore : Fate → ℕ → ℕ → Desk → Reversed → Desk
restore fate now blocks k e =
    let begun = record k { deposits = restore_intent k.deposits e blocks now } in
    let (answer, paid) = with_money begun (restored_record e blocks now) e.buyer [] true now in
    elim fate [
      | intent_unsaved ↦ k
      | dies_before_money ↦ restart begun
      | meter_locked ↦ begun
      | completes ↦ restore_settled paid e.txid now
      | _ ↦ restart paid
    ]

abbrev pub restore_found : Fate → ℕ → ℕ → Desk → Option Reversed → Desk
restore_found fate now blocks k none = k
restore_found fate now blocks k (some e) = restore fate now blocks k e

abbrev pub restore_at : Fate → ℕ → Option ℕ → Desk → String → Desk
restore_at fate now none k txid = k
restore_at fate now (some blocks) k txid =
    if leb 1 blocks
    then restore_found fate now blocks k (find_restorable txid k.deposits.reversed)
    else k

-- The body of the loop of `_recheckReversals` for one candidate; `status` is `none` where the lookup throws.
unfoldable pub recheck_one : Fate → ℕ → Desk → Reversed → Option (Option ℕ) → Desk
recheck_one fate now k e status =
    if e.was_debited
    then elim status [ none ↦ k | some blocks ↦ restore_at fate now blocks k e.txid ]
    else record k {
      deposits = record k.deposits { reversed = flag_unproven e.txid k.deposits.reversed };
    }
