-- ===== src/Deposits/Pass/Restored.antt =====
-- The restores of src/deposit-watcher.js on the moves of money.
use j41_sovagent_dispatcher.Prelude.{
  if-elim, ℕ, leb, String, true, List, [], ◌∷◌, Option, none, some, keep, ◌≡◌, refl, arith,
}
use j41_sovagent_dispatcher.Deposits.{Reversed, Desk}
use j41_sovagent_dispatcher.Deposits.Credit.{
  Fate, intent_unsaved, dies_before_money, meter_locked, dies_after_money, unsettled, completes,
  restart,
}
use j41_sovagent_dispatcher.Deposits.Recheck.{
  find_restorable, restored_record, restore, restore_found, restore_at, recheck_one, is_candidate,
}
use j41_sovagent_dispatcher.Deposits.Pass.{
  Node, goes_on, recheck_all, recheck_reversals, with_flags, read_count,
}
use j41_sovagent_dispatcher.Deposits.Pass.Debits.{debits_made, with_money-Calm}

restore-debits :
    (fate : Fate) (now blocks : ℕ) (k : Desk) (o : Option Reversed)
    → debits_made (restore_found fate now blocks k o).moves ≡ debits_made k.moves
unfolding restore restart
restore-debits fate now blocks k none = refl
restore-debits intent_unsaved now blocks k (some e) = refl
restore-debits dies_before_money now blocks k (some e) = refl
restore-debits meter_locked now blocks k (some e) = refl
restore-debits dies_after_money now blocks k (some e) =
    (with_money-Calm _ (restored_record e blocks now) e.buyer [] true now).0
restore-debits unsettled now blocks k (some e) =
    (with_money-Calm _ (restored_record e blocks now) e.buyer [] true now).0
restore-debits completes now blocks k (some e) =
    (with_money-Calm _ (restored_record e blocks now) e.buyer [] true now).0

restore_at-debits :
    (fate : Fate) (now : ℕ) (count : Option ℕ) (k : Desk) (txid : String)
    → debits_made (restore_at fate now count k txid).moves ≡ debits_made k.moves
restore_at-debits fate now none k txid = refl
restore_at-debits fate now (some blocks) k txid =
    if-elim (λ (a : Desk). debits_made a.moves ≡ debits_made k.moves) (leb 1 blocks) _ _
      (λ _. restore-debits fate now blocks k (find_restorable txid k.deposits.reversed)) (λ _. refl)

recheck_one-debits :
    (fate : Fate) (now : ℕ) (k : Desk) (e : Reversed) (status : Option (Option ℕ))
    → debits_made (recheck_one fate now k e status).moves ≡ debits_made k.moves
unfolding recheck_one
recheck_one-debits fate now k e none = ground arith
recheck_one-debits fate now k e (some count) =
    if-elim (λ (a : Desk). debits_made a.moves ≡ debits_made k.moves) e.was_debited _ _
      (λ _. restore_at-debits fate now count k e.txid) (λ _. refl)

module _ (node : Node) (now : ℕ) where
  recheck_all-debits :
      (k : Desk) (es : List Reversed)
      → debits_made (recheck_all node now k es).moves ≡ debits_made k.moves
  unfolding recheck_all
  recheck_all-debits k [] = refl
  recheck_all-debits k (e ∷ es) =
      let after =
        recheck_one (node.restore_fate e.txid) now k e (read_count (node.status e.txid)) in
      let one =
        recheck_one-debits (node.restore_fate e.txid) now k e (read_count (node.status e.txid)) in
      let rest = recheck_all-debits after es in
      if-elim (λ (a : Desk). debits_made a.moves ≡ debits_made k.moves)
        (goes_on (node.restore_fate e.txid)) _ _ (λ _. omega (arith, one, rest)) (λ _. one)

  pub recheck-debits :
      (k : Desk) → debits_made (recheck_reversals node now k).moves ≡ debits_made k.moves
  unfolding recheck_reversals
  recheck-debits k =
      recheck_all-debits (with_flags k) (keep (is_candidate now) (with_flags k).deposits.reversed)
