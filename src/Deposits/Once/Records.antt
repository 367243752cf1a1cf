-- ===== src/Deposits/Once/Records.antt =====
-- What is kept of each transaction of src/deposit-watcher.js where a record is replaced, or its money moves.
use j41_sovagent_dispatcher.Prelude.{
  ℕ, ◌+◌, ◌≤◌, length-keep-le, String, ℤ, Bool, true, false, not, ◌&&◌, none, some, List, [], ◌∷◌,
  ◌++◌, length, ◌≡◌, refl, arith, str_eq, eq_iff, eq_refl, if◌then◌else◌,
}
use j41_sovagent_dispatcher.Meter.{Locked, busy, done}
use j41_sovagent_dispatcher.Meter.Credit.{credit_deposit}
use j41_sovagent_dispatcher.Deposits.{Processed, Reversed, Deposits, Desk, Move, debited_back}
use j41_sovagent_dispatcher.Deposits.Ledger.{has_txid, remembers}
use j41_sovagent_dispatcher.Deposits.Credit.{with_money}
use j41_sovagent_dispatcher.Deposits.Reconcile.{find_live, set_live, with_live, close_reversal}
use j41_sovagent_dispatcher.Deposits.Recheck.{is_restorable}
use j41_sovagent_dispatcher.Deposits.Once.{
  credits, debits, count, is_debited, is_marked, is_owed, At, Invariant,
}
use j41_sovagent_dispatcher.Deposits.Once.Counts.{
  num, count-append, count-keep-le, count_mono, remembers-forget,
}
use j41_sovagent_dispatcher.Deposits.Once.Entries.{
  count-set_live, find_live-txid, without-has_txid, count-cap_reversed-le,
}
use j41_sovagent_dispatcher.Deposits.Once.Credits.{At-mono, Ready, marked-le}
use j41_sovagent_dispatcher.Deposits.Once.Commits.{Kept}

pub owed-le : (t : String) (es : List Reversed) → count (is_owed t) es ≤ count (is_restorable t) es
owed-le t es = count_mono (is_owed t) (is_restorable t) es (λ e h. ground arith)

-- The money of a credit leaves the deposits file alone.
pub with_money-deposits :
    (k : Desk) (r : Processed) (canonical : String) (aliases : List String) (lock : Bool) (now : ℕ)
    → (with_money k r canonical aliases lock now).1.deposits ≡ k.deposits
with_money-deposits k r canonical aliases lock now =
    elim (credit_deposit k.meter lock canonical aliases r.amount (some r.txid) now).0
      as (λ a.
        (elim a as (λ _. Locked ℤ × Desk) [
          | busy ↦ (busy, k)
          | done balance ↦ (
            done balance,
            record k {
              meter = (credit_deposit k.meter lock canonical aliases r.amount (some r.txid) now).1;
              moves = Move.credited r.txid ∷ k.moves;
            },
          )
        ]).1.deposits
        ≡ k.deposits) [ busy ↦ refl | done balance ↦ refl ]

pub At-debited :
    (t x : String) (d : Deposits) (ms : List Move) → At t d ms → At t d (debited_back x ∷ ms)
At-debited t x d ms a = record {
  once = ground (arith, a.once);
  known = λ h. a.known (ground arith);
  back = λ h. ground (arith, a.back h);
  redo = λ h. ground (arith, a.redo h);
  single = a.single;
  logged = a.logged;
}

module _ (n : ℕ) (k : Desk) (r new : Processed)
    (found : find_live r.txid k.deposits.processed ≡ some r) (same : new.txid ≡ r.txid) where
  abbrev replaced : List Processed
  replaced = set_live r.txid new k.deposits.processed

  replaced-has :
      (t : String) → count (has_txid t) replaced ≡ count (has_txid t) k.deposits.processed
  unfolding num
  replaced-has t =
      ground (arith, count-set_live (has_txid t) r.txid k.deposits.processed r new found, same)

  replaced-marked :
      (t : String)
      → count (is_marked t) replaced + num (is_marked t r)
        ≡ count (is_marked t) k.deposits.processed + num (is_marked t new)
  replaced-marked t = count-set_live (is_marked t) r.txid k.deposits.processed r new found

  -- A record that is not marked as debited, unless the old one was, takes the old one's place.
  pub with_live-Kept :
      (is_debited new.reversal ≡ true → is_debited r.reversal ≡ true)
      → Kept n k
      → Kept n (with_live k r.txid new)
  unfolding num
  with_live-Kept unmarked (i, b) = (
    λ t.
        At-mono t k.deposits (with_live k r.txid new).deposits k.moves
          (record {
            has = omega (arith, replaced-has t);
            marked = ground (arith, replaced-marked t, same);
            restorable = omega arith;
            owed = omega arith;
            kept = λ h. h;
          })
          (i t),
    b,
  )

  -- A record that is marked as debited, once its transaction is not credited.
  pub marked-Kept :
      credits r.txid k.moves ≤ debits r.txid k.moves → Kept n k → Kept n (with_live k r.txid new)
  unfolding num
  marked-Kept gone (i, b) = (
    λ t. record {
      once = (i t).once;
      known = (i t).known;
      back = (i t).back;
      redo = λ h. ground (arith, (i t).redo, replaced-marked t, same, gone, eq_iff r.txid t);
      single = omega (arith, (i t).single, replaced-has t);
      logged = λ h. (i t).logged (omega (arith, replaced-has t, h));
    },
    b,
  )

  -- A record that was marked as debited is credited again, once the mark is gone.
  pub recredit-Ready :
      is_debited r.reversal ≡ true
      → is_debited new.reversal ≡ false
      → Kept n k
      → Ready r.txid (with_live k r.txid new).deposits k.moves
  unfolding num
  recredit-Ready was now_not (i, b) =
      let (t_eq, live, there) = find_live-txid r.txid k.deposits.processed r found in
      let own = i r.txid in
      record {
        fresh = own.redo (ground (arith, replaced-marked r.txid, eq_refl r.txid, same));
        kept = own.logged there;
        no_owed = omega (arith, own.single, there, owed-le r.txid k.deposits.reversed);
        no_marked = ground (
          arith,
          replaced-marked r.txid,
          eq_refl r.txid,
          same,
          marked-le r.txid k.deposits.processed,
          own.single,
        );
      }

module _ (n : ℕ) (k : Desk) (r : Processed) (certain : Bool) (now : ℕ)
    (there : 1 ≤ count (has_txid r.txid) k.deposits.processed)
    (gone : certain ≡ true → credits r.txid k.moves ≤ debits r.txid k.moves) where
  abbrev closed : Deposits
  closed = (close_reversal k r certain now).deposits

  abbrev entry : Reversed
  entry = record {
    txid = r.txid;
    buyer = r.buyer;
    amount = r.amount;
    reversed_at = now;
    was_debited = certain;
    restoring = false;
    restored_at = none;
    needs_operator = false;
    resolved_at = none;
    resolving = false;
  }

  closed-counts :
      (t : String)
      → (count (has_txid t) closed.processed
          ≡ (if str_eq r.txid t then 0 else count (has_txid t) k.deposits.processed))
        × (count (is_marked t) closed.processed ≤ count (is_marked t) k.deposits.processed)
        × (count (is_restorable t) closed.reversed
            ≤ count (is_restorable t) k.deposits.reversed + (if str_eq r.txid t then 1 else 0))
        × (count (is_owed t) closed.reversed
            ≤ count (is_owed t) k.deposits.reversed + (if str_eq r.txid t && certain then 1 else 0))
  unfolding close_reversal
  closed-counts t = (
    without-has_txid t r.txid k.deposits.processed,
    count-keep-le (is_marked t) (λ q. not (has_txid r.txid q)) k.deposits.processed,
    ground (
      arith,
      count-cap_reversed-le (is_restorable t) (k.deposits.reversed ++ entry ∷ []),
      count-append (is_restorable t) k.deposits.reversed (entry ∷ []),
    ),
    ground (
      arith,
      count-cap_reversed-le (is_owed t) (k.deposits.reversed ++ entry ∷ []),
      count-append (is_owed t) k.deposits.reversed (entry ∷ []),
    ),
  )

  closed-kept :
      (t : String)
      → remembers t closed.credited_txids ≡ (
          if certain
          then not (str_eq r.txid t) && remembers t k.deposits.credited_txids
          else remembers t k.deposits.credited_txids)
  unfolding close_reversal
  closed-kept t = ground (arith, remembers-forget t r.txid k.deposits.credited_txids)

  closed-length : length closed.credited_txids ≤ length k.deposits.credited_txids
  unfolding close_reversal
  closed-length =
      ground (arith, length-keep-le (λ t. not (str_eq t r.txid)) k.deposits.credited_txids)

  closed-At : Invariant k → (t : String) → At t closed k.moves
  closed-At i t =
      let (has, marked, restorable, owed) = closed-counts t in
      record {
        once = (i t).once;
        known = λ h. ground (arith, (i t).known h, closed-kept t, gone, eq_iff r.txid t);
        back = λ h. ground (arith, (i t).back, owed, gone, eq_iff r.txid t);
        redo = λ h. (i t).redo (omega (arith, marked, h));
        single = ground (arith, (i t).single, has, restorable, there, eq_iff r.txid t);
        logged = λ h. ground (arith, (i t).logged, has, closed-kept t);
      }

  -- A reversal is closed: with certainty, once its transaction is not credited, or without.
  pub closed-Kept : Kept n k → Kept n (close_reversal k r certain now)
  unfolding close_reversal
  closed-Kept (i, b) = (closed-At i, omega (arith, closed-length, b))
