-- ===== src/Deposits/Operator/Justified.antt =====
-- When an operator's decision in src/deposit-watcher.js moves money.
use j41_sovagent_dispatcher.Prelude.{
  if-elim, ℕ, ◌≤◌, leb, String, Bool, true, false, Option, none, some, List, [], ◌∷◌, ◌≡◌, ◌⊎◌, inl,
  inr, refl, arith,
}
use j41_sovagent_dispatcher.Deposits.{Processed, Deposits, Desk, Move, credited}
use j41_sovagent_dispatcher.Deposits.Credit.{
  Fate, intent_unsaved, dies_before_money, meter_locked, dies_after_money, unsettled, completes,
  restart, with_money,
}
use j41_sovagent_dispatcher.Deposits.Credit.Money.{with_money-elim}
use j41_sovagent_dispatcher.Deposits.Operator.{
  Found, nowhere, in_processed, in_reversed, find_anomaly, Resolution, credit_anomaly, credit_found,
  credit_deposit_anomaly, operator_record,
}

abbrev Paid : Desk → String → Desk → Type 0
Paid k txid after = (after.moves ≡ k.moves) ⊎ (after.moves ≡ credited txid ∷ k.moves)

with_money-Paid :
    (k : Desk) (r : Processed) (canonical : String) (aliases : List String) (lock : Bool) (now : ℕ)
    → Paid k r.txid (with_money k r canonical aliases lock now).1
with_money-Paid k r canonical aliases lock now =
    with_money-elim (Paid k r.txid) k r canonical aliases lock now (inl refl) (λ file. inr refl)

credit_anomaly-Paid :
    (fate : Fate) (now : ℕ) (k : Desk) (r : Processed) (stamped settled : Deposits)
    → Paid k r.txid (credit_anomaly fate now k r stamped settled).1
unfolding credit_anomaly restart
credit_anomaly-Paid intent_unsaved now k r stamped settled = inl refl
credit_anomaly-Paid dies_before_money now k r stamped settled = inl refl
credit_anomaly-Paid meter_locked now k r stamped settled = inl refl
credit_anomaly-Paid dies_after_money now k r stamped settled =
    with_money-Paid (record k { deposits = stamped }) r r.buyer [] true now
credit_anomaly-Paid unsettled now k r stamped settled =
    with_money-Paid (record k { deposits = stamped }) r r.buyer [] true now
credit_anomaly-Paid completes now k r stamped settled =
    with_money-Paid (record k { deposits = stamped }) r r.buyer [] true now

-- An unresolved anomaly whose credit is not under way.
abbrev pub Open : Found → Type 0
Open nowhere = ⊥
Open (in_processed r) = r.resolving ≡ false
Open (in_reversed e) = e.resolving ≡ false

abbrev Once : Desk → String → Found → Desk → Type 0
Once k txid f after = (after.moves ≡ k.moves) ⊎ ((after.moves ≡ credited txid ∷ k.moves) × Open f)

keeps-Once :
    (ms before : List Move) (txid : String) (f : Found)
    → Open f
    → (ms ≡ before) ⊎ (ms ≡ credited txid ∷ before)
    → (ms ≡ before) ⊎ ((ms ≡ credited txid ∷ before) × Open f)
keeps-Once ms before txid f o (inl e) = inl e
keeps-Once ms before txid f o (inr e) = inr (e, o)

found-Once :
    (fate : Fate) (now blocks : ℕ) (k : Desk) (txid : String) (f : Found)
    → Once k txid f (credit_found fate now blocks k txid f).1
unfolding credit_found
found-Once fate now blocks k txid nowhere = inl refl
found-Once fate now blocks k txid (in_processed r) =
    if-elim (λ (a : Resolution × Desk). Once k txid (in_processed r) a.1) r.resolving _ _
      (λ _. inl refl)
      (λ o.
        keeps-Once _ k.moves txid (in_processed r) o
          (credit_anomaly-Paid fate now k (operator_record txid r.buyer r.amount blocks now) _ _))
found-Once fate now blocks k txid (in_reversed e) =
    if-elim (λ (a : Resolution × Desk). Once k txid (in_reversed e) a.1) e.resolving _ _
      (λ _. inl refl)
      (λ o.
        keeps-Once _ k.moves txid (in_reversed e) o
          (credit_anomaly-Paid fate now k (operator_record txid e.buyer e.amount blocks now) _ _))

abbrev pub Justified : Option (Option ℕ) → ℕ → Desk → String → Desk → Type 0
Justified status now k txid after =
    (after.moves ≡ k.moves)
    ⊎ ((after.moves ≡ credited txid ∷ k.moves)
        × Open (find_anomaly now k.deposits txid)
        × (blocks : ℕ) × (status ≡ some (some blocks))
        × (1 ≤ blocks))

-- An operator's credit moves money at most once, only for the transaction it names, and only where that is confirmed by a
-- block and is an unresolved anomaly with no credit under way.
pub credit_deposit_anomaly-Justified :
    (status : Option (Option ℕ)) (fate : Fate) (now : ℕ) (k : Desk) (txid : String)
    → Justified status now k txid (credit_deposit_anomaly status fate now k txid).1
unfolding credit_deposit_anomaly
credit_deposit_anomaly-Justified none fate now k txid = inl refl
credit_deposit_anomaly-Justified (some none) fate now k txid = inl refl
credit_deposit_anomaly-Justified (some (some blocks)) fate now k txid =
    if-elim (λ (a : Resolution × Desk). Justified (some (some blocks)) now k txid a.1)
      (leb 1 blocks) _ _
      (λ b. elim (found-Once fate now blocks k txid (find_anomaly now k.deposits txid)) [
        | inl e ↦ inl e
        | inr (e, o) ↦ inr (e, o, blocks, refl, ground (arith, b))
      ])
      (λ _. inl refl)
