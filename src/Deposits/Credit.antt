-- ===== src/Deposits/Credit.antt =====
-- The credit of a deposit in src/deposit-watcher.js: the intent, the money, the settled record, and what is left where the
-- process dies or a write fails in between. One agent's reports, polls and reconciliations run one at a
-- time, under the deposit lock.
pub mod Money
use j41_sovagent_dispatcher.Prelude.{
  ℕ, ℤ, String, Bool, true, false, none, some, List, [], ◌∷◌, if◌then◌else◌,
}
use j41_sovagent_dispatcher.Meter.{Locked, busy, done}
use j41_sovagent_dispatcher.Meter.Credit.{credit_deposit}
use j41_sovagent_dispatcher.Deposits.{Processed, Desk, credited}
use j41_sovagent_dispatcher.Deposits.Ledger.{has_txid, record_credit_intent, finalize_credit}

-- What happens to the writes of a credit, in their order: the intent is not saved; the process dies after it; the
-- meter is locked; the process dies after the money; the settled record is not saved; all of it is done.
pub data Fate : Type 0 where
  intent_unsaved dies_before_money meter_locked dies_after_money unsettled completes : Fate

pub data Committed : Type 0 where
  not_saved died locked_out : Committed
  landed : ℤ → Committed

abbrev pub acquires : Fate → Bool
acquires meter_locked = false
acquires _ = true

-- The process is started again: its memory is gone.
unfoldable pub restart : Desk → Desk
restart k = record k { claims = []; recent_reversals = [] }

abbrev pub with_intent : Desk → Processed → ℕ → Desk
with_intent k r now = record k { deposits = record_credit_intent k.deposits r now }

-- The answer of the meter, with the move that it made.
abbrev pub with_money : Desk → Processed → String → List String → Bool → ℕ → Locked ℤ × Desk
with_money k r canonical aliases lock now =
    let (answer, file) = credit_deposit k.meter lock canonical aliases r.amount (some r.txid) now in
    elim answer [
      | busy ↦ (busy, k)
      | done balance ↦ (done balance, record k { meter = file; moves = credited r.txid ∷ k.moves })
    ]

abbrev pub settled : Desk → Processed → ℕ → Desk
settled k r now = record k { deposits = finalize_credit k.deposits r.txid now }

abbrev pub after_money : Fate → Locked ℤ × Desk → Processed → ℕ → Committed × Desk
after_money fate (busy, k) r now = (locked_out, k)
after_money dies_after_money (done balance, k) r now = (died, restart k)
after_money completes (done balance, k) r now = (landed balance, settled k r now)
after_money _ (done balance, k) r now = (landed balance, k)

unfoldable pub commit_credit : Fate → Desk → Processed → String → List String → ℕ → Committed × Desk
commit_credit intent_unsaved k r canonical aliases now = (not_saved, k)
commit_credit dies_before_money k r canonical aliases now = (died, restart (with_intent k r now))
commit_credit fate k r canonical aliases now =
    after_money fate (with_money (with_intent k r now) r canonical aliases (acquires fate) now) r
      now

-- The first record of the transaction owes a notification, unless it was given up.
unfoldable pub mark_owed : String → List Processed → List Processed
mark_owed txid [] = []
mark_owed txid (r ∷ rs) =
    if has_txid txid r
    then elim r.notice.gave_up [
      | some g ↦ r ∷ rs
      | none ↦ record r { notice = record r.notice { owed = true } } ∷ rs
    ]
    else r ∷ mark_owed txid rs

unfoldable pub mark_notify_owed : Desk → String → Desk
mark_notify_owed k txid = record k {
  deposits = record k.deposits { processed = mark_owed txid k.deposits.processed };
}

unfoldable pub clear_owed : String → List Processed → List Processed
clear_owed txid [] = []
clear_owed txid (r ∷ rs) =
    if has_txid txid r
    then if r.notice.owed
      then record r { notice = record r.notice { owed = false; attempts = 0; next_at = none } } ∷ rs
      else r ∷ rs
    else r ∷ clear_owed txid rs

unfoldable pub clear_notify_owed : Desk → String → Desk
clear_notify_owed k txid = record k {
  deposits = record k.deposits { processed = clear_owed txid k.deposits.processed };
}
