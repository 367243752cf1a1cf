-- ===== src/Deposits/Once/Reports.antt =====
-- The invariant of each transaction over the reports and polls of src/deposit-watcher.js.
use j41_sovagent_dispatcher.Prelude.{
  if-elim, ℕ, suc, ◌<◌, String, ℤ, Bool, Option, none, some, List, refl, arith, if◌then◌else◌,
}
use j41_sovagent_dispatcher.Deposits.{PendingDeposit, Desk, required_confirmations}
use j41_sovagent_dispatcher.Deposits.Ledger.{has_credited_txid, credited_txid_cap, claim_txid}
use j41_sovagent_dispatcher.Deposits.Sender.{
  Verification, Platform, Standing, refused, going, check_sender,
}
use j41_sovagent_dispatcher.Deposits.Credit.{
  Fate, Committed, not_saved, died, locked_out, landed, mark_notify_owed, clear_notify_owed,
}
use j41_sovagent_dispatcher.Deposits.Report.{
  ReportAnswer, answer_of, report_credit, report_status, report_bound, report_claimed,
  report_verified_deposit, is_short, add_pending, released,
}
use j41_sovagent_dispatcher.Deposits.Poll.{is_enough, polled, poll_claimed, poll_one}
use j41_sovagent_dispatcher.Deposits.Once.Entries.{
  mark_owed-has_txid, mark_owed-marked, clear_owed-has_txid, clear_owed-marked,
}
use j41_sovagent_dispatcher.Deposits.Once.Credits.{At-mono}
use j41_sovagent_dispatcher.Deposits.Once.Commits.{Kept, widen, commit_credit-Kept}

mark_notify-Kept : (n : ℕ) (k : Desk) (t : String) → Kept n k → Kept n (mark_notify_owed k t)
unfolding mark_notify_owed
mark_notify-Kept n k u (i, b) = (
  λ t.
      At-mono t k.deposits (mark_notify_owed k u).deposits k.moves
        (record {
          has = omega (arith, mark_owed-has_txid t u k.deposits.processed);
          marked = omega (arith, mark_owed-marked t u k.deposits.processed);
          restorable = omega arith;
          owed = omega arith;
          kept = λ h. h;
        })
        (i t),
  b,
)

pub clear_notify-Kept : (n : ℕ) (k : Desk) (t : String) → Kept n k → Kept n (clear_notify_owed k t)
unfolding clear_notify_owed
clear_notify-Kept n k u (i, b) = (
  λ t.
      At-mono t k.deposits (clear_notify_owed k u).deposits k.moves
        (record {
          has = omega (arith, clear_owed-has_txid t u k.deposits.processed);
          marked = omega (arith, clear_owed-marked t u k.deposits.processed);
          restorable = omega arith;
          owed = omega arith;
          kept = λ h. h;
        })
        (i t),
  b,
)

notified-Kept :
    (n : ℕ) (notifies : Bool) (k : Desk) (t : String)
    → Kept n k
    → Kept n (if notifies then mark_notify_owed k t else k)
notified-Kept n notifies k t h =
    if-elim (Kept n) notifies _ _ (λ _. mark_notify-Kept n k t h) (λ _. h)

answer_of-Kept :
    (n : ℕ) (notifies : Bool) (t : String) (c : Committed × Desk)
    → Kept n c.1
    → Kept n (answer_of notifies t c).1
answer_of-Kept n notifies t (not_saved, k) h = h
answer_of-Kept n notifies t (died, k) h = h
answer_of-Kept n notifies t (locked_out, k) h = h
answer_of-Kept n notifies t (landed balance, k) h = notified-Kept n notifies k t h

polled-Kept :
    (n : ℕ) (notifies : Bool) (t : String) (c : Committed × Desk)
    → Kept n c.1
    → Kept n (polled notifies t c).1
polled-Kept n notifies t (not_saved, k) h = h
polled-Kept n notifies t (died, k) h = h
polled-Kept n notifies t (locked_out, k) h = h
polled-Kept n notifies t (landed balance, k) h = notified-Kept n notifies k t h

module _ (n : ℕ) (notifies : Bool) (fate : Fate) (room : n < credited_txid_cap) where
  pending-Kept :
      (k : Desk) (p : PendingDeposit)
      → Kept n k
      → Kept n (record k { deposits = add_pending k.deposits p })
  pending-Kept k p (i, b) =
      if-elim (λ d. Kept n (record k { deposits = d })) _ _ _ (λ _. (i, b))
        (λ _. (
          λ t. record {
            once = (i t).once;
            known = (i t).known;
            back = (i t).back;
            redo = (i t).redo;
            single = (i t).single;
            logged = (i t).logged;
          },
          b,
        ))

  waiting-Kept :
      (k : Desk) (p : PendingDeposit) (claims : List String)
      → Kept n k
      → Kept (suc n) (record k { deposits = add_pending k.deposits p; claims = claims })
  waiting-Kept k p claims h = let (i, b) = pending-Kept k p h in (i, omega (arith, b))

  report_status-Kept :
      (pf : Platform) (k : Desk) (buyer txid : String) (amount : ℤ) (v : Verification) (now : ℕ)
      (status : Option (Option ℕ))
      → Kept n k
      → Kept (suc n) (report_status pf notifies fate k buyer txid amount v now status).1
  unfolding report_status report_credit
  report_status-Kept pf k buyer txid amount v now none h = widen n k h
  report_status-Kept pf k buyer txid amount v now (some c) h =
      if-elim (λ (a : ReportAnswer × Desk). Kept (suc n) a.1)
        (is_short c (required_confirmations amount)) _ _
        (λ _.
          waiting-Kept k
            (record {
              txid = txid;
              buyer = buyer;
              amount = amount;
              required = required_confirmations amount;
            })
            (released k txid).claims h)
        (λ _.
          if-elim (λ (a : ReportAnswer × Desk). Kept (suc n) a.1)
            (has_credited_txid k.deposits txid) _ _ (λ _. widen n k h)
            (λ new.
              answer_of-Kept (suc n) notifies txid _
                (commit_credit-Kept n k _ now refl new room h fate _ _)))

  report_bound-Kept :
      (pf : Platform) (k : Desk) (buyer txid : String) (amount : ℤ) (now : ℕ) (s : Standing)
      → Kept n k
      → Kept (suc n) (report_bound pf notifies fate k buyer txid amount now s).1
  report_bound-Kept pf k buyer txid amount now (refused r) h = widen n k h
  report_bound-Kept pf k buyer txid amount now (going accepted w) h =
      report_status-Kept pf k buyer txid amount w now pf.status h

  report_claimed-Kept :
      (pf : Platform) (k : Desk) (buyer txid : String) (amount : ℤ) (now : ℕ)
      (v : Option Verification)
      → Kept n k
      → Kept (suc n) (report_claimed pf notifies fate k buyer txid amount now v).1
  report_claimed-Kept pf k buyer txid amount now none h = widen n k h
  report_claimed-Kept pf k buyer txid amount now (some v) h =
      report_bound-Kept pf k buyer txid amount now (check_sender pf buyer v) h

  pub report-Kept :
      (pf : Platform) (k : Desk) (buyer txid : String) (amount : ℤ) (now : ℕ)
      → Kept n k
      → Kept (suc n) (report_verified_deposit pf notifies fate k buyer txid amount now).1
  unfolding report_verified_deposit
  report-Kept pf k buyer txid amount now h =
      if-elim (λ (a : ReportAnswer × Desk). Kept (suc n) a.1) (claim_txid k txid).0 _ _
        (λ _. report_claimed-Kept pf _ buyer txid amount now pf.verify h) (λ _. widen n k h)

  poll_claimed-Kept :
      (k : Desk) (p : PendingDeposit) (now : ℕ) (status : Option (Option ℕ))
      → Kept n k
      → Kept (suc n) (poll_claimed notifies fate k p now status).1
  unfolding poll_claimed
  poll_claimed-Kept k p now none h = widen n k h
  poll_claimed-Kept k p now (some c) h =
      if-elim (λ (a : Bool × Desk). Kept (suc n) a.1) (is_enough c p.required) _ _
        (λ _.
          if-elim (λ (a : Bool × Desk). Kept (suc n) a.1) (has_credited_txid k.deposits p.txid) _ _
            (λ _. widen n k h)
            (λ new.
              polled-Kept (suc n) notifies p.txid _
                (commit_credit-Kept n k _ now refl new room h fate _ _)))
        (λ _. widen n k h)

  pub poll-Kept :
      (status : Option (Option ℕ)) (k : Desk) (p : PendingDeposit) (now : ℕ)
      → Kept n k
      → Kept (suc n) (poll_one status notifies fate k p now).1
  unfolding poll_one
  poll-Kept status k p now h =
      if-elim (λ (a : Bool × Desk). Kept (suc n) a.1) (claim_txid k p.txid).0 _ _
        (λ _. poll_claimed-Kept _ p now status h) (λ _. widen n k h)
