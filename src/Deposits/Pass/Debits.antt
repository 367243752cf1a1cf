-- ===== src/Deposits/Pass/Debits.antt =====
-- The debits of one record in a reconciliation of src/deposit-watcher.js.
use j41_sovagent_dispatcher.Prelude.{
  if-elim, ℕ, suc, not, ◌<◌, leb, String, Bool, true, false, List, [], ◌∷◌, ◌++◌, Option, none,
  some, length, ◌≡◌, ◌⊎◌, inl, inr, refl, arith,
}
use j41_sovagent_dispatcher.Deposits.{
  Processed, untouched, debiting, debited, recredited, Desk, Move, credited, debited_back,
}
use j41_sovagent_dispatcher.Deposits.Credit.{
  Fate, intent_unsaved, dies_before_money, meter_locked, dies_after_money, unsettled, completes,
  restart, with_money,
}
use j41_sovagent_dispatcher.Deposits.Credit.Money.{with_money-elim}
use j41_sovagent_dispatcher.Deposits.Evidence.{
  Lookup, transient, unknown, seen, expire_reversals, Pass, missed, is_evident,
}
use j41_sovagent_dispatcher.Deposits.Reconcile.{
  find_live, with_live, recredit, confirm_as, confirm, is_begun, close_reversal, debit, miss,
  reconcile_live, reconcile_found, reconcile_one,
}
use j41_sovagent_dispatcher.Deposits.Pass.{goes_on}

-- How many debits there were.
abbrev pub debits_made : List Move → ℕ
debits_made [] = 0
debits_made (credited t ∷ ms) = debits_made ms
debits_made (debited_back t ∷ ms) = suc (debits_made ms)

-- Nothing is debited, and the reversals that count stay.
abbrev pub Calm : Pass → Fate → Desk → Desk → Type 0
Calm pass fate k after =
    (debits_made after.moves ≡ debits_made k.moves)
    × (goes_on fate ≡ true
        → (after.recent_reversals ≡ k.recent_reversals)
          ⊎ (after.recent_reversals ≡ expire_reversals pass.now k.recent_reversals))

-- What a debit of a record rests on.
abbrev pub Grounds : Pass → Desk → Processed → Type 0
Grounds pass k r =
    (r.crediting ≡ false)
    × (is_begun r.reversal ≡ false)
    × (is_evident pass (missed pass r) ≡ true)
    × (pass.suspended ≡ false)
    × (length (expire_reversals pass.now k.recent_reversals) < pass.budget)

abbrev pub Debited : Pass → Fate → Desk → Processed → Desk → Type 0
Debited pass fate k r after =
    Grounds pass k r
    × (debits_made after.moves ≡ suc (debits_made k.moves))
    × (goes_on fate ≡ true
        → after.recent_reversals ≡ expire_reversals pass.now k.recent_reversals ++ pass.now ∷ [])

pub with_money-Calm :
    (k : Desk) (r : Processed) (canonical : String) (aliases : List String) (lock : Bool) (now : ℕ)
    → (debits_made (with_money k r canonical aliases lock now).1.moves ≡ debits_made k.moves)
      × ((with_money k r canonical aliases lock now).1.recent_reversals ≡ k.recent_reversals)
with_money-Calm k r canonical aliases lock now =
    with_money-elim
      (λ a. (debits_made a.moves ≡ debits_made k.moves) × (a.recent_reversals ≡ k.recent_reversals))
      k r canonical aliases lock now (refl, refl) (λ file. (refl, refl))

module _ (pass : Pass) (k : Desk) (r : Processed) where
  recredit-Calm : (fate : Fate) (blocks : ℕ) → Calm pass fate k (recredit fate pass.now blocks k r)
  unfolding restart
  recredit-Calm intent_unsaved blocks = (refl, λ _. inl refl)
  recredit-Calm dies_before_money blocks = (refl, λ h. absurd (cc h))
  recredit-Calm meter_locked blocks = (refl, λ h. absurd (cc h))
  recredit-Calm dies_after_money blocks = (
    (with_money-Calm (with_live k r.txid (record r { reversal = recredited })) r r.buyer [] true
        pass.now).0,
    λ h. absurd (cc h),
  )
  recredit-Calm unsettled blocks = (
    (with_money-Calm (with_live k r.txid (record r { reversal = recredited })) r r.buyer [] true
        pass.now).0,
    λ h. absurd (cc h),
  )
  recredit-Calm completes blocks =
      let (m, s) =
        with_money-Calm (with_live k r.txid (record r { reversal = recredited })) r r.buyer [] true
          pass.now in
      (m, λ _. inl s)

  confirm-Calm : (fate : Fate) (blocks : ℕ) → Calm pass fate k (confirm fate pass.now blocks k r)
  unfolding confirm
  confirm-Calm fate blocks =
      elim r.reversal as (λ u. Calm pass fate k (confirm_as fate pass.now blocks k r u)) [
        | untouched ↦ (refl, λ _. inl refl)
        | debiting ↦ (refl, λ _. inl refl)
        | debited ↦ recredit-Calm fate blocks
        | recredited ↦ (refl, λ _. inl refl)
      ]

  abbrev pub Outcome : Fate → Desk → Type 0
  Outcome fate after = Calm pass fate k after ⊎ Debited pass fate k r after

  debit-Outcome :
      (fate : Fate)
      → Grounds pass k r
      → Outcome fate (
          debit fate pass.now
            (record k { recent_reversals = expire_reversals pass.now k.recent_reversals })
            (missed pass r))
  unfolding debit close_reversal restart
  debit-Outcome intent_unsaved g = inl (refl, λ _. inr refl)
  debit-Outcome dies_before_money g = inl (refl, λ h. absurd (cc h))
  debit-Outcome meter_locked g = inl (refl, λ _. inr refl)
  debit-Outcome dies_after_money g = inr (g, refl, λ h. absurd (cc h))
  debit-Outcome unsettled g = inr (g, refl, λ h. absurd (cc h))
  debit-Outcome completes g = inr (g, refl, λ _. refl)

  miss-Outcome : (fate : Fate) → r.crediting ≡ false → Outcome fate (miss fate pass k r)
  unfolding miss close_reversal
  miss-Outcome fate c =
      if-elim (Outcome fate) (is_begun r.reversal) _ _ (λ _. inl (refl, λ _. inl refl))
        (λ b.
          if-elim (Outcome fate) (not (is_evident pass (missed pass r))) _ _
            (λ _. inl (refl, λ _. inl refl))
            (λ e.
              if-elim (Outcome fate) pass.suspended _ _ (λ _. inl (refl, λ _. inl refl))
                (λ s.
                  if-elim (Outcome fate)
                    (leb pass.budget (length (expire_reversals pass.now k.recent_reversals))) _ _
                    (λ _. inl (refl, λ _. inr refl))
                    (λ l. debit-Outcome fate (c, b, ground (arith, e), s, ground (arith, l))))))

  live-Outcome :
      (fate : Fate) (look : Lookup)
      → Calm pass fate k (reconcile_live fate pass k r look)
        ⊎ ((look ≡ unknown) × Debited pass fate k r (reconcile_live fate pass k r look))
  unfolding reconcile_live
  live-Outcome fate transient = inl (refl, λ _. inl refl)
  live-Outcome fate (seen c) = inl (
      if-elim (Calm pass fate k) (leb 1 c) _ _ (λ _. confirm-Calm fate c)
        (λ _. (refl, λ _. inl refl)))
  live-Outcome fate unknown =
      if-elim (λ (a : Desk). Calm pass fate k a ⊎ ((unknown ≡ unknown) × Debited pass fate k r a))
        r.crediting _ _ (λ _. inl (refl, λ _. inl refl))
        (λ c. elim (miss-Outcome fate c) [ inl a ↦ inl a | inr b ↦ inr (refl, b) ])

abbrev pub Grounded : Fate → Pass → Desk → String → Lookup → Desk → Type 0
Grounded fate pass k txid look after =
    Calm pass fate k after
    ⊎ ((look ≡ unknown)
        × (r : Processed) × (find_live txid k.deposits.processed ≡ some r)
        × Debited pass fate k r after)

found-Grounded :
    (fate : Fate) (pass : Pass) (k : Desk) (txid : String) (look : Lookup) (o : Option Processed)
    → find_live txid k.deposits.processed ≡ o
    → Grounded fate pass k txid look (reconcile_found fate pass k look o)
found-Grounded fate pass k txid look none at = inl (refl, λ _. inl refl)
found-Grounded fate pass k txid look (some r) at = elim (live-Outcome pass k r fate look) [
  | inl a ↦ inl a
  | inr b ↦ inr (b.0, r, at, b.1)
]

-- A record is debited only where the lookup says that the chain does not know its transaction, its credit is settled, no
-- reversal of it began, the misses and the time and the blocks since the first of them are enough, the
-- financial suspension is off and the budget of the hour is not used up.
pub reconcile_one-Grounded :
    (fate : Fate) (pass : Pass) (k : Desk) (txid : String) (look : Lookup)
    → Grounded fate pass k txid look (reconcile_one fate pass k txid look)
unfolding reconcile_one
reconcile_one-Grounded fate pass k txid look =
    found-Grounded fate pass k txid look (find_live txid k.deposits.processed) refl
