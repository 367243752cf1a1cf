-- ===== src/Deposits/Poll.antt =====
-- The poll of pending deposits in src/deposit-watcher.js.
use j41_sovagent_dispatcher.Prelude.{
  ℕ, leb, String, Bool, true, false, Option, none, some, List, [], ◌∷◌, if◌then◌else◌,
}
use j41_sovagent_dispatcher.Deposits.{PendingDeposit, Desk}
use j41_sovagent_dispatcher.Deposits.Ledger.{has_credited_txid, intent, claim_txid, release_txid}
use j41_sovagent_dispatcher.Deposits.Credit.{
  Fate, Committed, not_saved, died, locked_out, landed, commit_credit, mark_notify_owed,
}

-- `confirmations >= required`: never, where the count is missing.
abbrev pub is_enough : Option ℕ → ℕ → Bool
is_enough none required = false
is_enough (some c) required = leb required c

-- Whether the process is still there, and what it keeps.
abbrev pub polled : Bool → String → Committed × Desk → Bool × Desk
polled notifies txid (not_saved, k) = (true, record k { claims = release_txid txid k.claims })
polled notifies txid (died, k) = (false, k)
polled notifies txid (locked_out, k) = (true, k)
polled notifies txid (landed balance, k) = (true, if notifies then mark_notify_owed k txid else k)

abbrev pub drop_claim : Desk → String → Bool × Desk
drop_claim k txid = (true, record k { claims = release_txid txid k.claims })

unfoldable pub poll_claimed :
    Bool → Fate → Desk → PendingDeposit → ℕ → Option (Option ℕ) → Bool × Desk
poll_claimed notifies fate k p now none = drop_claim k p.txid
poll_claimed notifies fate k p now (some confirmations) =
    if is_enough confirmations p.required
    then if has_credited_txid k.deposits p.txid
      then drop_claim k p.txid
      else polled notifies p.txid (
          commit_credit fate k (intent p.txid p.buyer p.amount confirmations false now) p.buyer []
            now)
    else drop_claim k p.txid

-- The body of the loop for one pending deposit. `status` is what `getTxStatus` answers, `none` where it throws.
unfoldable pub poll_one : Option (Option ℕ) → Bool → Fate → Desk → PendingDeposit → ℕ → Bool × Desk
poll_one status notifies fate k p now =
    let (won, claims) = claim_txid k p.txid in
    if won
    then poll_claimed notifies fate (record k { claims = claims }) p now status
    else (true, k)

-- `_pollPendingSweep`, over the pending deposits that the pass read at its start.
unfoldable pub poll_sweep :
    (String → Option (Option ℕ)) → Bool → (String → Fate) → List PendingDeposit → Desk → ℕ → Desk
poll_sweep status notifies fate [] k now = k
poll_sweep status notifies fate (p ∷ ps) k now =
    let (alive, after) = poll_one (status p.txid) notifies (fate p.txid) k p now in
    let rest = poll_sweep status notifies fate ps after now in if alive then rest else after
