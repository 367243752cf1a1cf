-- ===== src/Deposits/Once/Excess.antt =====
-- Whether every entry of a transaction that may be restored was debited, over the restores of src/deposit-watcher.js.
use j41_sovagent_dispatcher.Prelude.{
  if-elim, ℕ, ◌+◌, ◌≤◌, String, true, leb, Option, none, some, List, [], ◌∷◌, ◌≡◌, arith,
}
use j41_sovagent_dispatcher.Deposits.{Reversed, Desk}
use j41_sovagent_dispatcher.Deposits.Credit.{
  Fate, intent_unsaved, dies_before_money, meter_locked, dies_after_money, unsettled, completes,
  restart,
}
use j41_sovagent_dispatcher.Deposits.Credit.Money.{with_money-elim}
use j41_sovagent_dispatcher.Deposits.Recheck.{
  is_restorable, find_restorable, flag_unproven, set_restoring, set_restored, restored_record,
  restore_intent, restore_settled, restore, restore_found, restore_at, recheck_one,
}
use j41_sovagent_dispatcher.Deposits.Once.{count, is_owed}

abbrev pub AllOwed : String → List Reversed → Type 0
AllOwed t es = count (is_restorable t) es ≤ count (is_owed t) es

restoring-excess :
    (t u : String) (es : List Reversed)
    → count (is_restorable t) (set_restoring u es) + count (is_owed t) es
      ≤ count (is_owed t) (set_restoring u es) + count (is_restorable t) es
unfolding set_restoring
restoring-excess t u [] = omega arith
restoring-excess t u (e ∷ es) = ground (arith, restoring-excess t u es)

restored-excess :
    (t u : String) (now : ℕ) (es : List Reversed)
    → count (is_restorable t) (set_restored u now es) + count (is_owed t) es
      ≤ count (is_owed t) (set_restored u now es) + count (is_restorable t) es
unfolding set_restored
restored-excess t u now [] = omega arith
restored-excess t u now (e ∷ es) = ground (arith, restored-excess t u now es)

flag-excess :
    (t u : String) (es : List Reversed)
    → count (is_restorable t) (flag_unproven u es) + count (is_owed t) es
      ≤ count (is_owed t) (flag_unproven u es) + count (is_restorable t) es
unfolding flag_unproven
flag-excess t u [] = omega arith
flag-excess t u (e ∷ es) = ground (arith, flag-excess t u es)

module _ (t : String) (fate : Fate) (now : ℕ) (k : Desk) (h : AllOwed t k.deposits.reversed) where
  abbrev Owed : Desk → Type 0
  Owed a = AllOwed t a.deposits.reversed

  restore-AllOwed : (blocks : ℕ) (o : Option Reversed) → Owed (restore_found fate now blocks k o)
  unfolding restore restart
  restore-AllOwed blocks none = h
  restore-AllOwed blocks (some e) =
      let begun = record k { deposits = restore_intent k.deposits e blocks now } in
      let armed : Owed begun = omega (arith, h, restoring-excess t e.txid k.deposits.reversed) in
      let paid =
        with_money-elim Owed begun (restored_record e blocks now) e.buyer [] true now armed
          (λ file. armed) in
      elim fate as (λ f. Owed (restore f now blocks k e)) [
        | intent_unsaved ↦ h
        | dies_before_money ↦ armed
        | meter_locked ↦ armed
        | dies_after_money ↦ paid
        | unsettled ↦ paid
        | completes ↦
            let settled : AllOwed t (set_restored e.txid now begun.deposits.reversed) =
              omega (arith, armed, restored-excess t e.txid now begun.deposits.reversed) in
            with_money-elim (λ a. Owed (restore_settled a e.txid now)) begun
              (restored_record e blocks now) e.buyer [] true now settled (λ file. settled)
      ]

  at-AllOwed : (o : Option ℕ) (u : String) → Owed (restore_at fate now o k u)
  at-AllOwed none u = h
  at-AllOwed (some blocks) u =
      if-elim Owed (leb 1 blocks) _ _
        (λ _. restore-AllOwed blocks (find_restorable u k.deposits.reversed)) (λ _. h)

  pub recheck-AllOwed :
      (e : Reversed) (status : Option (Option ℕ)) → Owed (recheck_one fate now k e status)
  unfolding recheck_one
  recheck-AllOwed e none =
      if-elim Owed e.was_debited _ _ (λ _. h)
        (λ _. omega (arith, h, flag-excess t e.txid k.deposits.reversed))
  recheck-AllOwed e (some o) =
      if-elim Owed e.was_debited _ _ (λ _. at-AllOwed o e.txid)
        (λ _. omega (arith, h, flag-excess t e.txid k.deposits.reversed))

find-restorable :
    (t : String) (es : List Reversed) (q : Reversed)
    → find_restorable t es ≡ some q
    → 1 ≤ count (is_restorable t) es
unfolding find_restorable
find-restorable t [] q at = absurd (cc at)
find-restorable t (e ∷ es) q at = ground (arith, at, find-restorable t es q)

-- One that can be restored is owed.
pub find-owed :
    (t : String) (es : List Reversed) (q : Reversed)
    → find_restorable t es ≡ some q
    → AllOwed t es
    → 1 ≤ count (is_owed t) es
find-owed t es q at h = omega (arith, h, find-restorable t es q at)
