-- ===== src/Deposits/Once/Undone.antt =====
-- The invariant of each transaction over the reconciliations of src/deposit-watcher.js, wherever they stop.
use mathlib.Core.Bool.{false≢true}
use j41_sovagent_dispatcher.Prelude.{
  if-elim, ℕ, ◌≤◌, String, Bool, true, false, not, Option, none, some, [], ◌∷◌, length, leb, ◌≡◌,
  refl, sym, subst, ap, ◌∙◌, arith, eq_refl,
}
use j41_sovagent_dispatcher.Meter.Credit.{reverse_deposit}
use j41_sovagent_dispatcher.Deposits.{
  Processed, Undoing, untouched, debiting, debited, recredited, Desk, debited_back,
}
use j41_sovagent_dispatcher.Deposits.Ledger.{has_txid}
use j41_sovagent_dispatcher.Deposits.Credit.{
  Fate, intent_unsaved, dies_before_money, meter_locked, dies_after_money, unsettled, completes,
  restart, with_money,
}
use j41_sovagent_dispatcher.Deposits.Evidence.{
  Pass, Lookup, transient, unknown, seen, missed, is_evident, expire_reversals,
}
use j41_sovagent_dispatcher.Deposits.Reconcile.{
  is_live_record, find_live, with_live, clear_misses, confirmed, recredit, confirm, confirm_as,
  is_begun, close_reversal, debit, miss, reconcile_live, reconcile_found, reconcile_one,
}
use j41_sovagent_dispatcher.Deposits.Once.{credits, debits, is_debited, count}
use j41_sovagent_dispatcher.Deposits.Once.Entries.{find_live-txid, find-set_live}
use j41_sovagent_dispatcher.Deposits.Once.Commits.{Kept, with_money-Kept}
use j41_sovagent_dispatcher.Deposits.Once.Records.{
  with_money-deposits, At-debited, with_live-Kept, marked-Kept, recredit-Ready, closed-Kept,
}

confirmed-txid : (now blocks : ℕ) (r : Processed) → (confirmed now blocks r).txid ≡ r.txid
confirmed-txid now blocks r = ground arith

is_live_record-own : (r : Processed) → r.unconfirmed ≡ true → is_live_record r.txid r ≡ true
is_live_record-own r h = ground (arith, eq_refl r.txid)

module _ (n : ℕ) (k : Desk) (r : Processed) (found : find_live r.txid k.deposits.processed ≡ some r)
    (kept : Kept n k) where
  is_open : r.unconfirmed ≡ true
  is_open = (find_live-txid r.txid k.deposits.processed r found).1

  -- The record changes in other ways than its mark.
  changed :
      (new : Processed)
      → new.txid ≡ r.txid
      → (is_debited new.reversal ≡ true → is_debited r.reversal ≡ true)
      → Kept n (with_live k r.txid new)
  changed new same mark = with_live-Kept n k r new found same mark kept

  confirmed-Kept :
      (now blocks : ℕ) (new : Processed)
      → new.txid ≡ r.txid
      → Kept n (with_live k r.txid (confirmed now blocks new))
  confirmed-Kept now blocks new same =
      changed (confirmed now blocks new) (confirmed-txid now blocks new ∙ same) (λ h. ground arith)

  module _ (now blocks : ℕ) (was : is_debited r.reversal ≡ true) where
    abbrev flag : Processed
    flag = record r { reversal = recredited }

    abbrev flagged : Desk
    flagged = with_live k r.txid flag

    flagged-Kept : Kept n flagged
    flagged-Kept = changed flag refl (λ h. was)

    abbrev paid : Desk
    paid = (with_money flagged r r.buyer [] true now).1

    paid-Kept : Kept n paid
    paid-Kept =
        with_money-Kept n flagged r r.buyer [] true now flagged-Kept
          (recredit-Ready n k r flag found refl was refl kept)

    paid-found : find_live r.txid paid.deposits.processed ≡ some flag
    paid-found =
        ap (λ d. find_live r.txid d.processed) (with_money-deposits flagged r r.buyer [] true now)
        ∙ find-set_live r.txid k.deposits.processed r flag found (is_live_record-own r is_open)

    done-Kept : Kept n (with_live paid r.txid (confirmed now blocks r))
    done-Kept =
        with_live-Kept n paid flag (confirmed now blocks r) paid-found (confirmed-txid now blocks r)
          (λ h. ground arith) paid-Kept

    recredit-Kept : (fate : Fate) → Kept n (recredit fate now blocks k r)
    unfolding restart
    recredit-Kept intent_unsaved = kept
    recredit-Kept dies_before_money = flagged-Kept
    recredit-Kept meter_locked = flagged-Kept
    recredit-Kept dies_after_money = paid-Kept
    recredit-Kept unsettled = paid-Kept
    recredit-Kept completes = done-Kept

  module _ (pass : Pass) (now : ℕ) (lock : Bool) where
    abbrev intended : Processed
    intended = record (missed pass r) { reversal = debiting }

    abbrev mark : Processed
    mark = record (missed pass r) { reversal = debited }

    abbrev begun : Desk
    begun = with_live k r.txid intended

    begun-Kept : Kept n begun
    begun-Kept = changed intended refl (λ h. ground arith)

    abbrev taken : Desk
    taken = record begun {
      meter = (reverse_deposit begun.meter lock r.buyer r.amount (some r.txid) now).1;
      moves = debited_back r.txid ∷ begun.moves;
    }

    taken-Kept : Kept n taken
    taken-Kept =
        (λ t. At-debited t r.txid begun.deposits begun.moves (begun-Kept.0 t), begun-Kept.1)

    gone : credits r.txid taken.moves ≤ debits r.txid taken.moves
    gone = ground (arith, (kept.0 r.txid).once, eq_refl r.txid)

    begun-found : find_live r.txid begun.deposits.processed ≡ some intended
    begun-found =
        find-set_live r.txid k.deposits.processed r intended found (is_live_record-own r is_open)

    abbrev marked : Desk
    marked = with_live taken r.txid mark

    marked_desk-Kept : Kept n marked
    marked_desk-Kept = marked-Kept n taken intended mark begun-found refl gone taken-Kept

    marked-there : 1 ≤ count (has_txid r.txid) marked.deposits.processed
    marked-there =
        (find_live-txid r.txid marked.deposits.processed mark (
          find-set_live r.txid begun.deposits.processed intended mark begun-found
            (is_live_record-own r is_open))).2

    closed_desk-Kept : Kept n (close_reversal marked (missed pass r) true now)
    closed_desk-Kept =
        closed-Kept n marked (missed pass r) true now marked-there (λ h. gone) marked_desk-Kept

  debit-Kept : (fate : Fate) (pass : Pass) (now : ℕ) → Kept n (debit fate now k (missed pass r))
  unfolding debit restart
  debit-Kept intent_unsaved pass now = kept
  debit-Kept dies_before_money pass now = begun-Kept pass now true
  debit-Kept meter_locked pass now = begun-Kept pass now true
  debit-Kept dies_after_money pass now = taken-Kept pass now true
  debit-Kept unsettled pass now = marked_desk-Kept pass now true
  debit-Kept completes pass now = closed_desk-Kept pass now true

module _ (n : ℕ) (k : Desk) (r : Processed) (found : find_live r.txid k.deposits.processed ≡ some r)
    (kept : Kept n k) where
  confirm-Kept :
      (fate : Fate) (now blocks : ℕ) (u : Undoing)
      → r.reversal ≡ u
      → Kept n (confirm_as fate now blocks k r u)
  confirm-Kept fate now blocks debited e =
      recredit-Kept n k r found kept now blocks (rw e refl) fate
  confirm-Kept fate now blocks untouched e = confirmed-Kept n k r found kept now blocks r refl
  confirm-Kept fate now blocks debiting e =
      confirmed-Kept n k r found kept now blocks (record r { needs_operator = true }) refl
  confirm-Kept fate now blocks recredited e =
      confirmed-Kept n k r found kept now blocks (record r { needs_operator = true }) refl

  miss-Kept : (fate : Fate) (pass : Pass) → Kept n (miss fate pass k r)
  unfolding miss
  miss-Kept fate pass =
      let again = missed pass r in
      let recent = expire_reversals pass.now k.recent_reversals in
      if-elim (Kept n) (is_begun r.reversal) _ _
        (λ _.
          closed-Kept n k again false pass.now
            (find_live-txid r.txid k.deposits.processed r found).2 (λ h. absurd (false≢true h))
            kept)
        (λ _.
          if-elim (Kept n) (not (is_evident pass again)) _ _
            (λ _. changed n k r found kept again refl (λ h. h))
            (λ _.
              if-elim (Kept n) pass.suspended _ _ (λ _. kept)
                (λ _.
                  if-elim (Kept n) (leb pass.budget (length recent)) _ _
                    (λ _.
                      changed n k r found kept
                        (record again { needs_operator = true; withheld = true }) refl (λ h. h))
                    (λ _.
                      debit-Kept n (record k { recent_reversals = recent }) r found kept fate pass
                        pass.now))))

  live-Kept :
      (fate : Fate) (pass : Pass) (look : Lookup) → Kept n (reconcile_live fate pass k r look)
  unfolding reconcile_live confirm
  live-Kept fate pass transient = kept
  live-Kept fate pass (seen c) =
      if-elim (Kept n) (leb 1 c) _ _ (λ _. confirm-Kept fate pass.now c r.reversal refl)
        (λ _. changed n k r found kept (clear_misses r) refl (λ h. h))
  live-Kept fate pass unknown =
      if-elim (Kept n) r.crediting _ _
        (λ _. changed n k r found kept (record r { needs_operator = true }) refl (λ h. h))
        (λ _. miss-Kept fate pass)

found-Kept :
    (n : ℕ) (k : Desk) (fate : Fate) (pass : Pass) (txid : String) (look : Lookup)
    (o : Option Processed)
    → find_live txid k.deposits.processed ≡ o
    → Kept n k
    → Kept n (reconcile_found fate pass k look o)
found-Kept n k fate pass txid look none e kept = kept
found-Kept n k fate pass txid look (some r) e kept =
    let same = (find_live-txid txid k.deposits.processed r e).0 in
    live-Kept n k r (subst (λ t. find_live t k.deposits.processed ≡ some r) (sym same) e) kept fate
      pass look

pub reconcile-Kept :
    (n : ℕ) (k : Desk) (fate : Fate) (pass : Pass) (txid : String) (look : Lookup)
    → Kept n k
    → Kept n (reconcile_one fate pass k txid look)
unfolding reconcile_one
reconcile-Kept n k fate pass txid look kept =
    found-Kept n k fate pass txid look (find_live txid k.deposits.processed) refl kept
