-- ===== src/Deposits/Once/Credits.antt =====
-- The invariant of each transaction over a credit of src/deposit-watcher.js, wherever it stops.
use j41_sovagent_dispatcher.Prelude.{
  ℕ, ◌+◌, ◌≤◌, ◌<◌, String, Bool, true, false, ◌||◌, List, [], ◌∷◌, ◌++◌, any, length, ◌≡◌, refl,
  arith, str_eq, eq_iff, eq_refl, if◌then◌else◌,
}
use j41_sovagent_dispatcher.Deposits.{Processed, Deposits, untouched, Move, credited}
use j41_sovagent_dispatcher.Deposits.Ledger.{
  has_txid, has_credited_txid, remembers, credited_txid_cap, record_credit_intent,
}
use j41_sovagent_dispatcher.Deposits.Recheck.{is_restorable}
use j41_sovagent_dispatcher.Deposits.Once.{credits, debits, count, is_marked, is_owed, At}
use j41_sovagent_dispatcher.Deposits.Once.Counts.{
  count-append, count-trim_processed-le, count_mono, remembers-remember,
}
use j41_sovagent_dispatcher.Deposits.Once.Entries.{settle-restorable, settle-owed}

-- Nothing of the transaction is new: no count grows, and it is not forgotten.
pub record Shrinks (t : String) (d e : Deposits) : Type 0 where
  pub has : count (has_txid t) e.processed ≤ count (has_txid t) d.processed
  pub marked : count (is_marked t) e.processed ≤ count (is_marked t) d.processed
  pub restorable : count (is_restorable t) e.reversed ≤ count (is_restorable t) d.reversed
  pub owed : count (is_owed t) e.reversed ≤ count (is_owed t) d.reversed
  pub kept : remembers t d.credited_txids ≡ true → remembers t e.credited_txids ≡ true

pub At-mono : (t : String) (d e : Deposits) (ms : List Move) → Shrinks t d e → At t d ms → At t e ms
At-mono t d e ms s a = record {
  once = a.once;
  known = λ h. s.kept (a.known h);
  back = λ h. a.back (omega (arith, s.owed, h));
  redo = λ h. a.redo (omega (arith, s.marked, h));
  single = omega (arith, a.single, s.has, s.restorable);
  logged = λ h. s.kept (a.logged (omega (arith, s.has, h)));
}

-- A transaction that may be credited now.
pub record Ready (x : String) (d : Deposits) (ms : List Move) : Type 0 where
  pub fresh : credits x ms ≤ debits x ms
  pub kept : remembers x d.credited_txids ≡ true
  pub no_owed : count (is_owed x) d.reversed ≡ 0
  pub no_marked : count (is_marked x) d.processed ≡ 0

pub At-credited :
    (t x : String) (d : Deposits) (ms : List Move)
    → Ready x d ms
    → At t d ms
    → At t d (credited x ∷ ms)
At-credited t x d ms ready a = record {
  once = ground (arith, a.once, ready.fresh, eq_iff x t);
  known = λ h. ground (arith, a.known, ready.kept, eq_iff x t);
  back = λ h. ground (arith, a.back h, ready.no_owed, eq_iff x t);
  redo = λ h. ground (arith, a.redo h, ready.no_marked, eq_iff x t);
  single = a.single;
  logged = a.logged;
}

count-any {ℓ} : {A : Type ℓ} (p : A → Bool) (xs : List A) → any p xs ≡ false → count p xs ≡ 0
count-any p [] h = refl
count-any p (x ∷ xs) h = ground (arith, count-any p xs)

pub marked-le : (t : String) (rs : List Processed) → count (is_marked t) rs ≤ count (has_txid t) rs
marked-le t rs = count_mono (is_marked t) (has_txid t) rs (λ r h. ground arith)

module _ (d : Deposits) (r : Processed) (now : ℕ) (ms : List Move) (plain : r.reversal ≡ untouched)
    (new : has_credited_txid d r.txid ≡ false)
    (room : length d.credited_txids < credited_txid_cap) where
  unremembered : remembers r.txid d.credited_txids ≡ false
  unfolding has_credited_txid
  unremembered = ground arith

  unlogged : count (has_txid r.txid) d.processed ≡ 0
  unfolding has_credited_txid
  unlogged = count-any (has_txid r.txid) d.processed (ground arith)

  abbrev after : Deposits
  after = record_credit_intent d r now

  intent-counts :
      (t : String)
      → (count (has_txid t) after.processed
          ≤ count (has_txid t) d.processed + (if str_eq r.txid t then 1 else 0))
        × (count (is_marked t) after.processed ≤ count (is_marked t) d.processed)
        × (count (is_restorable t) after.reversed
            ≡ (if str_eq r.txid t then 0 else count (is_restorable t) d.reversed))
        × (count (is_owed t) after.reversed
            ≡ (if str_eq r.txid t then 0 else count (is_owed t) d.reversed))
        × (remembers t after.credited_txids ≡ (remembers t d.credited_txids || str_eq r.txid t))
  unfolding record_credit_intent
  intent-counts t = (
    ground (
      arith,
      count-trim_processed-le (has_txid t) (d.processed ++ r ∷ []),
      count-append (has_txid t) d.processed (r ∷ []),
    ),
    ground (
      arith,
      count-trim_processed-le (is_marked t) (d.processed ++ r ∷ []),
      count-append (is_marked t) d.processed (r ∷ []),
    ),
    settle-restorable t r.txid now d.reversed,
    settle-owed t r.txid now d.reversed,
    remembers-remember r.txid d.credited_txids room t,
  )

  pub At-intent : (t : String) → At r.txid d ms → At t d ms → At t after ms
  At-intent t own a =
      let (has, marked, restorable, owed, kept) = intent-counts t in
      record {
        once = a.once;
        known = λ h. ground (arith, a.known h);
        back = λ h. ground (arith, a.back);
        redo = λ h. ground (arith, a.redo);
        single = ground (arith, a.single, unlogged, eq_iff r.txid t);
        logged = λ h. ground (arith, a.logged, eq_iff r.txid t);
      }

  pub intent-Ready : At r.txid d ms → Ready r.txid after ms
  intent-Ready own =
      let (has, marked, restorable, owed, kept) = intent-counts r.txid in
      record {
        fresh = ground (arith, own.known, unremembered);
        kept = ground (arith, eq_refl r.txid);
        no_owed = ground (arith, eq_refl r.txid);
        no_marked = omega (arith, marked, marked-le r.txid d.processed, unlogged);
      }
