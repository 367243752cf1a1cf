-- ===== src/Deposits/Reconcile.antt =====
-- The reconciliation of credits that were given before a confirmation, in src/deposit-watcher.js.
use j41_sovagent_dispatcher.Prelude.{
  ℕ, ◌-◌, ltb, leb, String, Bool, true, false, not, ◌&&◌, ◌||◌, Option, none, some, List, [], ◌∷◌,
  ◌++◌, keep, length, str_eq, if◌then◌else◌,
}
use j41_sovagent_dispatcher.Meter.Credit.{reverse_deposit}
use j41_sovagent_dispatcher.Deposits.{
  Processed, Reversed, Undoing, untouched, debiting, debited, recredited, Desk, debited_back,
}
use j41_sovagent_dispatcher.Deposits.Ledger.{has_txid, last_of, release_txid}
use j41_sovagent_dispatcher.Deposits.Credit.{
  Fate, intent_unsaved, dies_before_money, meter_locked, dies_after_money, unsettled, completes,
  acquires, restart, with_money,
}
use j41_sovagent_dispatcher.Deposits.Evidence.{
  Lookup, transient, unknown, seen, expire_reversals, Pass, missed, is_evident,
}

abbrev pub is_live_record : String → Processed → Bool
is_live_record txid r = has_txid txid r && r.unconfirmed

unfoldable pub find_live : String → List Processed → Option Processed
find_live txid [] = none
find_live txid (r ∷ rs) = if is_live_record txid r then some r else find_live txid rs

-- The record that `find_live` finds is replaced.
unfoldable pub set_live : String → Processed → List Processed → List Processed
set_live txid new [] = []
set_live txid new (r ∷ rs) = if is_live_record txid r then new ∷ rs else r ∷ set_live txid new rs

abbrev pub with_live : Desk → String → Processed → Desk
with_live k txid new = record k {
  deposits = record k.deposits { processed = set_live txid new k.deposits.processed };
}

-- `_clearMissRun`.
abbrev pub clear_misses : Processed → Processed
clear_misses r = record r { misses = 0; first_miss_at = none; first_miss_height = none }

abbrev pub retire_withheld : ℕ → Processed → Processed
retire_withheld now r =
    if r.withheld
    then record r { withheld = false; needs_operator = false; resolved_at = some now }
    else r

-- The record of a credit whose transaction is confirmed.
abbrev pub confirmed : ℕ → ℕ → Processed → Processed
confirmed now blocks r = record (clear_misses (retire_withheld now r)) {
  unconfirmed = false;
  confirmations = some blocks;
  reversal = untouched;
}

-- The buyer is credited again, where the reversal was completed.
abbrev pub recredit : Fate → ℕ → ℕ → Desk → Processed → Desk
recredit fate now blocks k r =
    let flagged = with_live k r.txid (record r { reversal = recredited }) in
    elim fate [
      | intent_unsaved ↦ k
      | dies_before_money ↦ restart flagged
      | completes ↦
          let (answer, after) = with_money flagged r r.buyer [] true now in
          with_live after r.txid (confirmed now blocks r)
      | meter_locked ↦ flagged
      | _ ↦ let (answer, after) = with_money flagged r r.buyer [] true now in restart after
    ]

abbrev pub confirm_as : Fate → ℕ → ℕ → Desk → Processed → Undoing → Desk
confirm_as fate now blocks k r debited = recredit fate now blocks k r
confirm_as fate now blocks k r untouched = with_live k r.txid (confirmed now blocks r)
confirm_as fate now blocks k r _ =
    with_live k r.txid (confirmed now blocks (record r { needs_operator = true }))

unfoldable pub confirm : Fate → ℕ → ℕ → Desk → Processed → Desk
confirm fate now blocks k r = confirm_as fate now blocks k r r.reversal

abbrev pub is_begun : Undoing → Bool
is_begun debiting = true
is_begun debited = true
is_begun _ = false

abbrev pub is_open_entry : Reversed → Bool
is_open_entry e = e.needs_operator || elim e.restored_at [ none ↦ true | some t ↦ false ]

abbrev pub cap_reversed : List Reversed → List Reversed
cap_reversed es =
    if ltb 1000 (length es)
    then keep is_open_entry es
      ++ last_of (1000 - length (keep is_open_entry es)) (keep (λ e. not (is_open_entry e)) es)
    else es

-- The record leaves the log for the list of reversals, and, where the debit is certain, the transaction is
-- forgotten so that it can be reported again.
unfoldable pub close_reversal : Desk → Processed → Bool → ℕ → Desk
close_reversal k r certain now = record k {
  deposits = record k.deposits {
    processed = keep (λ q. not (has_txid r.txid q)) k.deposits.processed;
    reversed = cap_reversed (
        k.deposits.reversed
        ++ record {
          txid = r.txid;
          buyer = r.buyer;
          amount = r.amount;
          reversed_at = now;
          was_debited = certain;
          restoring = false;
          restored_at = none;
          needs_operator = false;
          resolved_at = none;
          resolving = false;
        }
          ∷ []);
    credited_txids =
        if certain
        then keep (λ t. not (str_eq t r.txid)) k.deposits.credited_txids
        else k.deposits.credited_txids;
  };
  claims = if certain then release_txid r.txid k.claims else k.claims;
}

-- The debit: the intent, the money, its mark, and the closing.
unfoldable pub debit : Fate → ℕ → Desk → Processed → Desk
debit fate now k r =
    let begun = with_live k r.txid (record r { reversal = debiting }) in
    let (answer, file) =
      reverse_deposit begun.meter (acquires fate) r.buyer r.amount (some r.txid) now in
    let taken = record begun { meter = file; moves = debited_back r.txid ∷ begun.moves } in
    let marked = with_live taken r.txid (record r { reversal = debited }) in
    elim fate [
      | intent_unsaved ↦ k
      | dies_before_money ↦ restart begun
      | meter_locked ↦ begun
      | dies_after_money ↦ restart taken
      | unsettled ↦ restart marked
      | completes ↦ record (close_reversal marked r true now) {
        recent_reversals = k.recent_reversals ++ now ∷ [];
      }
    ]

-- A record whose transaction the chain does not know, and whose credit is proven.
unfoldable pub miss : Fate → Pass → Desk → Processed → Desk
miss fate pass k r =
    let again = missed pass r in
    let recent = expire_reversals pass.now k.recent_reversals in
    if is_begun r.reversal
    then close_reversal k again false pass.now
    else if not (is_evident pass again)
    then with_live k r.txid again
    else if pass.suspended
    then k
    else if leb pass.budget (length recent)
    then record (with_live k r.txid (record again { needs_operator = true; withheld = true })) {
      recent_reversals = recent;
    }
    else debit fate pass.now (record k { recent_reversals = recent }) again

-- The body of the third phase for one record.
unfoldable pub reconcile_live : Fate → Pass → Desk → Processed → Lookup → Desk
reconcile_live fate pass k r transient = k
reconcile_live fate pass k r (seen c) =
    if leb 1 c then confirm fate pass.now c k r else with_live k r.txid (clear_misses r)
reconcile_live fate pass k r unknown =
    if r.crediting
    then with_live k r.txid (record r { needs_operator = true })
    else miss fate pass k r

abbrev pub reconcile_found : Fate → Pass → Desk → Lookup → Option Processed → Desk
reconcile_found fate pass k look none = k
reconcile_found fate pass k look (some r) = reconcile_live fate pass k r look

unfoldable pub reconcile_one : Fate → Pass → Desk → String → Lookup → Desk
reconcile_one fate pass k txid look =
    reconcile_found fate pass k look (find_live txid k.deposits.processed)
