-- ===== src/Deposits/Once/Restores.antt =====
-- The invariant of each transaction over the restores of src/deposit-watcher.js, wherever they stop.
use j41_sovagent_dispatcher.Prelude.{
  if-elim, ℕ, suc, ◌+◌, ◌≤◌, ◌<◌, String, true, ◌||◌, Option, none, some, List, [], ◌∷◌, ◌++◌, any,
  keep, length, leb, ◌≡◌, refl, sym, subst, arith, str_eq, eq_refl, if◌then◌else◌,
}
use j41_sovagent_dispatcher.Deposits.{Processed, Reversed, Deposits, Desk}
use j41_sovagent_dispatcher.Deposits.Ledger.{has_txid, remembers, credited_txid_cap}
use j41_sovagent_dispatcher.Deposits.Credit.{
  Fate, intent_unsaved, dies_before_money, meter_locked, dies_after_money, unsettled, completes,
  restart, with_money,
}
use j41_sovagent_dispatcher.Deposits.Recheck.{
  is_candidate, is_restorable, find_restorable, flag_unproven, restored_record, restore_intent,
  restore_settled, restore, restore_found, restore_at, recheck_one,
}
use j41_sovagent_dispatcher.Deposits.Once.{credits, debits, count, nth, recheck_at, is_marked, At}
use j41_sovagent_dispatcher.Deposits.Once.Counts.{
  num, count-append, count-trim_processed-le, remembers-remember, length-remember-le,
}
use j41_sovagent_dispatcher.Deposits.Once.Entries.{
  set_restoring-restorable, set_restoring-owed, find_restorable-txid, set_restored-restorable,
  set_restored-owed, flag-restorable, flag-owed,
}
use j41_sovagent_dispatcher.Deposits.Once.Credits.{At-mono, Ready, marked-le}
use j41_sovagent_dispatcher.Deposits.Once.Commits.{Kept, widen, with_money-Kept}
use j41_sovagent_dispatcher.Deposits.Once.Records.{owed-le}
use j41_sovagent_dispatcher.Deposits.Once.Excess.{AllOwed, find-owed}
use j41_sovagent_dispatcher.Deposits.Once.Candidates.{candidate-owed}

module _ (n : ℕ) (k : Desk) (e : Reversed) (blocks now : ℕ) (room : n < credited_txid_cap)
    (found : find_restorable e.txid k.deposits.reversed ≡ some e)
    (gone : credits e.txid k.moves ≤ debits e.txid k.moves) (kept : Kept n k) where
  fits : length k.deposits.credited_txids < credited_txid_cap
  fits = omega (arith, kept.1, room)

  abbrev armed : Deposits
  armed = restore_intent k.deposits e blocks now

  abbrev logged_again : List Processed
  logged_again =
      if any (has_txid e.txid) k.deposits.processed
      then k.deposits.processed
      else k.deposits.processed ++ restored_record e blocks now ∷ []

  armed-has :
      (t : String)
      → count (has_txid t) armed.processed
        ≤ count (has_txid t) k.deposits.processed + (if str_eq e.txid t then 1 else 0)
  armed-has t = ground (
    arith,
    count-trim_processed-le (has_txid t) logged_again,
    count-append (has_txid t) k.deposits.processed (restored_record e blocks now ∷ []),
  )

  armed-marked :
      (t : String) → count (is_marked t) armed.processed ≤ count (is_marked t) k.deposits.processed
  armed-marked t = ground (
    arith,
    count-trim_processed-le (is_marked t) logged_again,
    count-append (is_marked t) k.deposits.processed (restored_record e blocks now ∷ []),
  )

  armed-restorable :
      (t : String)
      → count (is_restorable t) armed.reversed + (if str_eq e.txid t then 1 else 0)
        ≡ count (is_restorable t) k.deposits.reversed
  unfolding num
  armed-restorable t = ground (arith, set_restoring-restorable t e.txid k.deposits.reversed e found)

  armed-kept :
      (t : String)
      → remembers t armed.credited_txids
        ≡ (remembers t k.deposits.credited_txids || str_eq e.txid t)
  armed-kept t = remembers-remember e.txid k.deposits.credited_txids fits t

  armed-At : (t : String) → At t armed k.moves
  armed-At t =
      let a = kept.0 t in
      record {
        once = a.once;
        known = λ h. ground (arith, a.known h, armed-kept t);
        back = λ h. a.back (omega (arith, h, set_restoring-owed t e.txid k.deposits.reversed));
        redo = λ h. a.redo (omega (arith, h, armed-marked t));
        single = ground (arith, a.single, armed-has t, armed-restorable t);
        logged = λ h. ground (arith, a.logged, armed-has t, armed-kept t);
      }

  armed-Ready : Ready e.txid armed k.moves
  armed-Ready =
      let a = kept.0 e.txid in
      record {
        fresh = gone;
        kept = ground (arith, armed-kept e.txid, eq_refl e.txid);
        no_owed = ground (
          arith,
          owed-le e.txid armed.reversed,
          armed-restorable e.txid,
          a.single,
          eq_refl e.txid,
        );
        no_marked = ground (
          arith,
          armed-marked e.txid,
          marked-le e.txid k.deposits.processed,
          armed-restorable e.txid,
          a.single,
          eq_refl e.txid,
        );
      }

  abbrev begun : Desk
  begun = record k { deposits = armed }

  begun-Kept : Kept (suc n) begun
  begun-Kept =
      (armed-At, omega (arith, length-remember-le e.txid k.deposits.credited_txids fits, kept.1))

  abbrev paid : Desk
  paid = (with_money begun (restored_record e blocks now) e.buyer [] true now).1

  paid-Kept : Kept (suc n) paid
  paid-Kept =
      with_money-Kept (suc n) begun (restored_record e blocks now) e.buyer [] true now begun-Kept
        armed-Ready

  settled-Kept : Kept (suc n) (restore_settled paid e.txid now)
  settled-Kept = (
    λ t.
        At-mono t paid.deposits (restore_settled paid e.txid now).deposits paid.moves
          (record {
            has = omega arith;
            marked = omega arith;
            restorable = omega (arith, set_restored-restorable t e.txid now paid.deposits.reversed);
            owed = omega (arith, set_restored-owed t e.txid now paid.deposits.reversed);
            kept = λ h. h;
          })
          (paid-Kept.0 t),
    paid-Kept.1,
  )

  restore-Kept : (fate : Fate) → Kept (suc n) (restore fate now blocks k e)
  unfolding restore restart
  restore-Kept intent_unsaved = widen n k kept
  restore-Kept dies_before_money = begun-Kept
  restore-Kept meter_locked = begun-Kept
  restore-Kept dies_after_money = paid-Kept
  restore-Kept unsettled = paid-Kept
  restore-Kept completes = settled-Kept

flagged-Kept :
    (n : ℕ) (k : Desk) (u : String)
    → Kept n k
    → Kept n (record k {
      deposits = record k.deposits { reversed = flag_unproven u k.deposits.reversed };
    })
flagged-Kept n k u (i, b) = (
  λ t.
      At-mono t k.deposits _ k.moves
        (record {
          has = omega arith;
          marked = omega arith;
          restorable = omega (arith, flag-restorable t u k.deposits.reversed);
          owed = omega (arith, flag-owed t u k.deposits.reversed);
          kept = λ h. h;
        })
        (i t),
  b,
)

module _ (n : ℕ) (room : n < credited_txid_cap) (fate : Fate) (now : ℕ) (k : Desk)
    (kept : Kept n k) where
  module _ (u : String) (owed : AllOwed u k.deposits.reversed) where
    found-Kept :
        (blocks : ℕ) (o : Option Reversed)
        → find_restorable u k.deposits.reversed ≡ o
        → Kept (suc n) (restore_found fate now blocks k o)
    found-Kept blocks none e = widen n k kept
    found-Kept blocks (some q) e =
        let same = find_restorable-txid u k.deposits.reversed q e in
        restore-Kept n k q blocks now room
          (subst (λ t. find_restorable t k.deposits.reversed ≡ some q) (sym same) e)
          (subst (λ t. credits t k.moves ≤ debits t k.moves) (sym same)
            ((kept.0 u).back (find-owed u k.deposits.reversed q e owed)))
          kept fate

    at-Kept : (o : Option ℕ) → Kept (suc n) (restore_at fate now o k u)
    at-Kept none = widen n k kept
    at-Kept (some blocks) =
        if-elim (Kept (suc n)) (leb 1 blocks) _ _
          (λ _. found-Kept blocks (find_restorable u k.deposits.reversed) refl)
          (λ _. widen n k kept)

    status-Kept :
        (status : Option (Option ℕ))
        → Kept
            (suc n)
            (elim status as (λ _. Desk) [ none ↦ k | some o ↦ restore_at fate now o k u ])
    status-Kept none = widen n k kept
    status-Kept (some o) = at-Kept o

  pub recheck-Kept :
      (e : Reversed) (status : Option (Option ℕ))
      → (e.was_debited ≡ true → AllOwed e.txid k.deposits.reversed)
      → Kept (suc n) (recheck_one fate now k e status)
  unfolding recheck_one
  recheck-Kept e status owed =
      if-elim (Kept (suc n)) e.was_debited _ _ (λ h. status-Kept e.txid (owed h) status)
        (λ _. let (i, b) = flagged-Kept n k e.txid kept in (i, omega (arith, b)))

  pub recheck_at-Kept :
      (m : ℕ) (status : Option (Option ℕ)) (o : Option Reversed)
      → nth m (keep (is_candidate now) k.deposits.reversed) ≡ o
      → Kept (suc n) (recheck_at fate now k o status)
  recheck_at-Kept m status none at = widen n k kept
  recheck_at-Kept m status (some e) at =
      recheck-Kept e status (λ h.
        omega (arith, candidate-owed now m k.deposits.reversed e at h, (kept.0 e.txid).single))
