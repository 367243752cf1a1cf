-- ===== src/Deposits/Once/Lengths.antt =====
-- How long the list of reversals of src/deposit-watcher.js becomes.
use j41_sovagent_dispatcher.Prelude.{
  if-elim, ℕ, zero, suc, ◌-◌, ◌+◌, ◌≤◌, String, Bool, true, not, leb, Option, none, some, List, [],
  ◌∷◌, ◌++◌, keep, drop, length, length-append, ◌≡◌, arith,
}
use j41_sovagent_dispatcher.Deposits.{
  Processed, Reversed, untouched, debiting, debited, recredited, Desk,
}
use j41_sovagent_dispatcher.Deposits.Ledger.{last_of}
use j41_sovagent_dispatcher.Deposits.Credit.{
  Fate, intent_unsaved, dies_before_money, meter_locked, dies_after_money, unsettled, completes,
  restart,
}
use j41_sovagent_dispatcher.Deposits.Credit.Money.{with_money-elim}
use j41_sovagent_dispatcher.Deposits.Evidence.{
  Lookup, transient, unknown, seen, expire_reversals, Pass, missed, is_evident,
}
use j41_sovagent_dispatcher.Deposits.Reconcile.{
  find_live, with_live, recredit, confirm_as, confirm, is_begun, is_open_entry, cap_reversed,
  close_reversal, debit, miss, reconcile_live, reconcile_found, reconcile_one,
}

length-split {ℓ} :
    {A : Type ℓ} (p : A → Bool) (xs : List A)
    → length (keep p xs) + length (keep (λ x. not (p x)) xs) ≡ length xs
length-split p [] = omega arith
length-split p (x ∷ xs) = ground (arith, length-split p xs)

length-drop {ℓ} : {A : Type ℓ} (n : ℕ) (xs : List A) → length (drop n xs) ≤ length xs
length-drop zero xs = omega arith
length-drop (suc n) [] = omega arith
length-drop (suc n) (x ∷ xs) = omega (arith, length-drop n xs)

length-last {ℓ} : {A : Type ℓ} (n : ℕ) (xs : List A) → length (last_of n xs) ≤ length xs
length-last n xs = ground (arith, length-drop (length xs - n) xs)

length-cap : (es : List Reversed) → length (cap_reversed es) ≤ length es
length-cap es = ground (
  arith,
  length-split is_open_entry es,
  length-append (keep is_open_entry es)
      (last_of (1000 - length (keep is_open_entry es)) (keep (λ e. not (is_open_entry e)) es)),
  length-last (1000 - length (keep is_open_entry es)) (keep (λ e. not (is_open_entry e)) es),
)

close-Longer :
    (es : List Reversed) (e : Reversed) → length (cap_reversed (es ++ e ∷ [])) ≤ suc (length es)
close-Longer es e = omega (arith, length-cap (es ++ e ∷ []), length-append es (e ∷ []))

module _ (pass : Pass) (k : Desk) (r : Processed) where
  -- At most one entry is added.
  abbrev Longer : Desk → Type 0
  Longer a = length a.deposits.reversed ≤ suc (length k.deposits.reversed)

  recredit-Longer : (fate : Fate) (blocks : ℕ) → Longer (recredit fate pass.now blocks k r)
  unfolding restart
  recredit-Longer fate blocks =
      let flagged = with_live k r.txid (record r { reversal = recredited }) in
      let paid =
        with_money-elim Longer flagged r r.buyer [] true pass.now (omega arith)
          (λ file. omega arith) in
      elim fate as (λ f. Longer (recredit f pass.now blocks k r)) [
        | intent_unsaved ↦ omega arith
        | dies_before_money ↦ omega arith
        | meter_locked ↦ omega arith
        | dies_after_money ↦ paid
        | unsettled ↦ paid
        | completes ↦ paid
      ]

  confirm-Longer : (fate : Fate) (blocks : ℕ) → Longer (confirm fate pass.now blocks k r)
  unfolding confirm
  confirm-Longer fate blocks =
      elim r.reversal as (λ u. Longer (confirm_as fate pass.now blocks k r u)) [
        | untouched ↦ omega arith
        | debiting ↦ omega arith
        | debited ↦ recredit-Longer fate blocks
        | recredited ↦ omega arith
      ]

  debit-Longer :
      (fate : Fate) (recent : List ℕ) (q : Processed)
      → Longer (debit fate pass.now (record k { recent_reversals = recent }) q)
  unfolding debit close_reversal restart
  debit-Longer fate recent q =
      elim fate as (λ f. Longer (debit f pass.now (record k { recent_reversals = recent }) q)) [
        | intent_unsaved ↦ omega arith
        | dies_before_money ↦ omega arith
        | meter_locked ↦ omega arith
        | dies_after_money ↦ omega arith
        | unsettled ↦ omega arith
        | completes ↦ close-Longer k.deposits.reversed _
      ]

  miss-Longer : (fate : Fate) → Longer (miss fate pass k r)
  unfolding miss close_reversal
  miss-Longer fate =
      let again = missed pass r in
      let recent = expire_reversals pass.now k.recent_reversals in
      if-elim Longer (is_begun r.reversal) _ _ (λ _. close-Longer k.deposits.reversed _)
        (λ _.
          if-elim Longer (not (is_evident pass again)) _ _ (λ _. omega arith)
            (λ _.
              if-elim Longer pass.suspended _ _ (λ _. omega arith)
                (λ _.
                  if-elim Longer (leb pass.budget (length recent)) _ _ (λ _. omega arith)
                    (λ _. debit-Longer fate recent again))))

  live-Longer : (fate : Fate) (look : Lookup) → Longer (reconcile_live fate pass k r look)
  unfolding reconcile_live
  live-Longer fate transient = omega arith
  live-Longer fate (seen c) =
      if-elim Longer (leb 1 c) _ _ (λ _. confirm-Longer fate c) (λ _. omega arith)
  live-Longer fate unknown =
      if-elim Longer r.crediting _ _ (λ _. omega arith) (λ _. miss-Longer fate)

found-Longer :
    (fate : Fate) (pass : Pass) (k : Desk) (look : Lookup) (o : Option Processed)
    → length (reconcile_found fate pass k look o).deposits.reversed
      ≤ suc (length k.deposits.reversed)
found-Longer fate pass k look none = omega arith
found-Longer fate pass k look (some r) = live-Longer pass k r fate look

pub reconcile-Longer :
    (fate : Fate) (pass : Pass) (k : Desk) (txid : String) (look : Lookup)
    → length (reconcile_one fate pass k txid look).deposits.reversed
      ≤ suc (length k.deposits.reversed)
unfolding reconcile_one
reconcile-Longer fate pass k txid look =
    found-Longer fate pass k look (find_live txid k.deposits.processed)
