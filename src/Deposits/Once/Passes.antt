-- ===== src/Deposits/Once/Passes.antt =====
-- The invariant of each transaction over whole sweeps and whole passes of src/deposit-watcher.js.
use j41_sovagent_dispatcher.Prelude.{
  if-elim, ℕ, suc, ◌+◌, ◌≤◌, String, Bool, true, false, not, Option, some, List, [], ◌∷◌, keep,
  length, length-keep-le, ◌≡◌, refl, arith,
}
use j41_sovagent_dispatcher.Deposits.{Processed, PendingDeposit, Reversed, Desk}
use j41_sovagent_dispatcher.Deposits.Ledger.{credited_txid_cap}
use j41_sovagent_dispatcher.Deposits.Credit.{Fate}
use j41_sovagent_dispatcher.Deposits.Poll.{poll_one, poll_sweep}
use j41_sovagent_dispatcher.Deposits.Evidence.{synced_view, is_systemic}
use j41_sovagent_dispatcher.Deposits.Reconcile.{reconcile_one}
use j41_sovagent_dispatcher.Deposits.Recheck.{is_candidate, flag_all, recheck_one}
use j41_sovagent_dispatcher.Deposits.Pass.{
  adopt_all, backfill, Node, PassState, pass_of, look_at, lookups, goes_on, reconcile_open,
  read_count, recheck_all, with_flags, recheck_reversals, open_of, then_recheck, reconcile_synced,
  reconcile_adopted, reconcile_locked,
}
use j41_sovagent_dispatcher.Deposits.Once.{nth}
use j41_sovagent_dispatcher.Deposits.Once.Commits.{Kept}
use j41_sovagent_dispatcher.Deposits.Once.Reports.{poll-Kept}
use j41_sovagent_dispatcher.Deposits.Once.Undone.{reconcile-Kept}
use j41_sovagent_dispatcher.Deposits.Once.Excess.{AllOwed, recheck-AllOwed}
use j41_sovagent_dispatcher.Deposits.Once.Candidates.{candidate-owed}
use j41_sovagent_dispatcher.Deposits.Once.Restores.{recheck-Kept}
use j41_sovagent_dispatcher.Deposits.Once.Lengths.{reconcile-Longer}
use j41_sovagent_dispatcher.Deposits.Once.Upkeep.{backfill-Kept, with_flags-Kept}

-- A bound may be raised.
pub Kept-raise : (n m : ℕ) (k : Desk) → n ≤ m → Kept n k → Kept m k
Kept-raise n m k h (i, b) = (i, omega (arith, b, h))

pub sweep-Kept :
    (n : ℕ) (status : String → Option (Option ℕ)) (notifies : Bool) (fate : String → Fate)
    (ps : List PendingDeposit) (k : Desk) (now : ℕ)
    → n + length ps ≤ credited_txid_cap
    → Kept n k
    → Kept (n + length ps) (poll_sweep status notifies fate ps k now)
unfolding poll_sweep
sweep-Kept n status notifies fate [] k now room h = Kept-raise n (n + 0) k (omega arith) h
sweep-Kept n status notifies fate (p ∷ ps) k now room h =
    let after = (poll_one (status p.txid) notifies (fate p.txid) k p now).1 in
    let one = poll-Kept n notifies (fate p.txid) (omega (arith, room)) (status p.txid) k p now h in
    if-elim (Kept (n + suc (length ps))) (poll_one (status p.txid) notifies (fate p.txid) k p now).0
      _ _
      (λ _.
        Kept-raise (suc n + length ps) (n + suc (length ps))
          (poll_sweep status notifies fate ps after now) (omega arith)
          (sweep-Kept (suc n) status notifies fate ps after now (omega (arith, room)) one))
      (λ _. Kept-raise (suc n) (n + suc (length ps)) after (omega arith) one)

-- What each candidate rests on.
abbrev Sure : Desk → List Reversed → Type 0
Sure k [] = Unit
Sure k (e ∷ es) = (e.was_debited ≡ true → AllOwed e.txid k.deposits.reversed) × Sure k es

Sure-mono :
    (k after : Desk) (es : List Reversed)
    → ((t : String) → AllOwed t k.deposits.reversed → AllOwed t after.deposits.reversed)
    → Sure k es
    → Sure after es
Sure-mono k after [] f h = tt
Sure-mono k after (e ∷ es) f (h, hs) = (λ d. f e.txid (h d), Sure-mono k after es f hs)

Sure-nth :
    (k : Desk) (es : List Reversed)
    → ((m : ℕ) (e : Reversed)
        → nth m es ≡ some e
        → e.was_debited ≡ true
        → AllOwed e.txid k.deposits.reversed)
    → Sure k es
Sure-nth k [] f = tt
Sure-nth k (e ∷ es) f = (f 0 e refl, Sure-nth k es (λ m q h. f (suc m) q h))

candidates-Sure :
    (n now : ℕ) (k : Desk) → Kept n k → Sure k (keep (is_candidate now) k.deposits.reversed)
candidates-Sure n now k kept = Sure-nth k (keep (is_candidate now) k.deposits.reversed) (λ m e at d.
    omega (arith, candidate-owed now m k.deposits.reversed e at d, (kept.0 e.txid).single))

length-adopt_all : (now : ℕ) (rs : List Processed) → length (adopt_all now rs) ≡ length rs
length-adopt_all now [] = refl
length-adopt_all now (r ∷ rs) = omega (arith, length-adopt_all now rs)

length-flag_all : (es : List Reversed) → length (flag_all es) ≡ length es
length-flag_all [] = refl
length-flag_all (e ∷ es) = omega (arith, length-flag_all es)

module _ (node : Node) (now : ℕ) where
  all-Kept :
      (n : ℕ) (k : Desk) (es : List Reversed)
      → n + length es ≤ credited_txid_cap
      → Kept n k
      → Sure k es
      → Kept (n + length es) (recheck_all node now k es)
  unfolding recheck_all
  all-Kept n k [] room h sure = Kept-raise n (n + 0) k (omega arith) h
  all-Kept n k (e ∷ es) room h (s, ss) =
      let fate = node.restore_fate e.txid in
      let status = read_count (node.status e.txid) in
      let after = recheck_one fate now k e status in
      let one = recheck-Kept n (omega (arith, room)) fate now k h e status s in
      if-elim (Kept (n + suc (length es))) (goes_on fate) _ _
        (λ _.
          Kept-raise (suc n + length es) (n + suc (length es)) (recheck_all node now after es)
            (omega arith)
            (all-Kept (suc n) after es (omega (arith, room)) one
              (Sure-mono k after es (λ t o. recheck-AllOwed t fate now k o e status) ss)))
        (λ _. Kept-raise (suc n) (n + suc (length es)) after (omega arith) one)

  reversals-Kept :
      (n m : ℕ) (k : Desk)
      → n + length k.deposits.reversed ≤ m
      → m ≤ credited_txid_cap
      → Kept n k
      → Kept m (recheck_reversals node now k)
  unfolding recheck_reversals
  reversals-Kept n m k fits room h =
      let k' = with_flags k in
      let cands = keep (is_candidate now) k'.deposits.reversed in
      let small = length-keep-le (is_candidate now) k'.deposits.reversed in
      let same = length-flag_all k.deposits.reversed in
      let kept = with_flags-Kept n k h in
      Kept-raise (n + length cands) m (recheck_all node now k' cands)
        (omega (arith, fits, small, same))
        (all-Kept n k' cands (omega (arith, fits, room, small, same)) kept
          (candidates-Sure n now k' kept))

  open-Kept :
      (n : ℕ) (k : Desk) (rs : List Processed)
      → Kept n k
      → Kept n (reconcile_open node now k rs).1
        × (length (reconcile_open node now k rs).1.deposits.reversed
            ≤ length k.deposits.reversed + length rs)
  unfolding reconcile_open
  open-Kept n k [] h = (h, omega arith)
  open-Kept n k (r ∷ rs) h =
      let fate = node.fate r.txid in
      let after = reconcile_one fate (pass_of node now) k r.txid (look_at node r.txid) in
      let one = reconcile-Kept n k fate (pass_of node now) r.txid (look_at node r.txid) h in
      let longer = reconcile-Longer fate (pass_of node now) k r.txid (look_at node r.txid) in
      if-elim
        (λ (a : Bool × Desk).
          Kept n a.1
          × (length a.1.deposits.reversed ≤ length k.deposits.reversed + suc (length rs)))
        (goes_on fate) _ _
        (λ _. let (x, l) = open-Kept n after rs one in (x, omega (arith, l, longer)))
        (λ _. (one, omega (arith, longer)))

  module _ (n m : ℕ) (room : m ≤ credited_txid_cap) where
    then-Kept :
        (o : Bool × Desk)
        → n + length o.1.deposits.reversed ≤ m
        → Kept n o.1
        → Kept m (then_recheck node now o)
    then-Kept (true, k) fits h = reversals-Kept n m k fits room h
    then-Kept (false, k) fits h = Kept-raise n m k (omega (arith, fits)) h

    synced-Kept :
        (k : Desk) (rs : List Processed)
        → n + (length k.deposits.reversed + length rs) ≤ m
        → Kept n k
        → Kept m (reconcile_synced node now k rs).1
    unfolding reconcile_synced
    synced-Kept k rs fits h =
        if-elim (λ (a : PassState × Desk). Kept m a.1) (not (synced_view node.before node.mainnet))
          _ _ (λ _. reversals-Kept n m k (omega (arith, fits)) room h)
          (λ _.
            if-elim (λ (a : PassState × Desk). Kept m a.1) (is_systemic (lookups node rs)) _ _
              (λ _. reversals-Kept n m k (omega (arith, fits)) room h)
              (λ _.
                let (x, l) = open-Kept n k rs h in
                then-Kept (reconcile_open node now k rs) (omega (arith, fits, l)) x))

    adopted-Kept :
        (k : Desk) (rs : List Processed)
        → n + (length k.deposits.reversed + length rs) ≤ m
        → Kept n k
        → Kept m (reconcile_adopted node now k rs).1
    adopted-Kept k [] fits h = reversals-Kept n m k (omega (arith, fits)) room h
    adopted-Kept k (r ∷ rs) fits h = synced-Kept k (r ∷ rs) fits h

    pub pass-Kept :
        (k : Desk)
        → n + (length k.deposits.reversed + length k.deposits.processed) ≤ m
        → Kept n k
        → Kept m (reconcile_locked node now k).1
    unfolding reconcile_locked backfill
    pass-Kept k fits h =
        if-elim (λ (a : PassState × Desk). Kept m a.1) node.enabled _ _
          (λ _.
            adopted-Kept (backfill now k) (open_of (backfill now k))
              (omega (
                arith,
                fits,
                length-keep-le (λ (r : Processed). r.unconfirmed)
                    (backfill now k).deposits.processed,
                length-adopt_all now k.deposits.processed,
              ))
              (backfill-Kept n now k h))
          (λ _. Kept-raise n m k (omega (arith, fits)) h)
