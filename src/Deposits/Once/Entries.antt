-- ===== src/Deposits/Once/Entries.antt =====
-- What the operations on the records of src/deposit-watcher.js do to counts of them.
use j41_sovagent_dispatcher.Prelude.{
  ℕ, ◌+◌, ◌-◌, ◌≤◌, String, Bool, true, not, ◌&&◌, some, List, [], ◌∷◌, keep, length, ◌≡◌, refl,
  arith, str_eq, eq_iff, if◌then◌else◌,
}
use j41_sovagent_dispatcher.Deposits.{Processed, Reversed}
use j41_sovagent_dispatcher.Deposits.Ledger.{
  has_txid, settle_entry, settle_reversed, finalize_processed,
}
use j41_sovagent_dispatcher.Deposits.Credit.{mark_owed, clear_owed}
use j41_sovagent_dispatcher.Deposits.Reconcile.{
  is_live_record, find_live, set_live, cap_reversed, is_open_entry,
}
use j41_sovagent_dispatcher.Deposits.Recheck.{
  is_restorable, find_restorable, set_restoring, set_restored, flag_unproven,
}
use j41_sovagent_dispatcher.Deposits.Once.{count, is_marked, is_owed}
use j41_sovagent_dispatcher.Deposits.Once.Counts.{num, count-kept}

entry-restorable :
    (t u : String) (now : ℕ) (e : Reversed)
    → is_restorable t (settle_entry u now e) ≡ (not (str_eq u t) && is_restorable t e)
unfolding settle_entry
entry-restorable t u now e = ground (arith, eq_iff u t, eq_iff e.txid u, eq_iff e.txid t)

entry-debited :
    (u : String) (now : ℕ) (e : Reversed) → (settle_entry u now e).was_debited ≡ e.was_debited
unfolding settle_entry
entry-debited u now e = ground arith

-- Settling the entries of a transaction leaves none of it to restore, and the others as they were.
pub settle-restorable :
    (t u : String) (now : ℕ) (es : List Reversed)
    → count (is_restorable t) (settle_reversed u now es)
      ≡ (if str_eq u t then 0 else count (is_restorable t) es)
unfolding settle_reversed
settle-restorable t u now [] = ground arith
settle-restorable t u now (e ∷ es) =
    ground (arith, settle-restorable t u now es, entry-restorable t u now e)

pub settle-owed :
    (t u : String) (now : ℕ) (es : List Reversed)
    → count (is_owed t) (settle_reversed u now es)
      ≡ (if str_eq u t then 0 else count (is_owed t) es)
unfolding settle_reversed
settle-owed t u now [] = ground arith
settle-owed t u now (e ∷ es) =
    ground (arith, settle-owed t u now es, entry-restorable t u now e, entry-debited u now e)

pub finalize-has_txid :
    (t u : String) (now : ℕ) (rs : List Processed)
    → count (has_txid t) (finalize_processed u now rs) ≡ count (has_txid t) rs
unfolding finalize_processed
finalize-has_txid t u now [] = refl
finalize-has_txid t u now (r ∷ rs) = ground (arith, finalize-has_txid t u now rs)

pub finalize-marked :
    (t u : String) (now : ℕ) (rs : List Processed)
    → count (is_marked t) (finalize_processed u now rs) ≡ count (is_marked t) rs
unfolding finalize_processed
finalize-marked t u now [] = refl
finalize-marked t u now (r ∷ rs) = ground (arith, finalize-marked t u now rs)

pub mark_owed-has_txid :
    (t u : String) (rs : List Processed)
    → count (has_txid t) (mark_owed u rs) ≡ count (has_txid t) rs
unfolding mark_owed
mark_owed-has_txid t u [] = refl
mark_owed-has_txid t u (r ∷ rs) = ground (arith, mark_owed-has_txid t u rs)

pub mark_owed-marked :
    (t u : String) (rs : List Processed)
    → count (is_marked t) (mark_owed u rs) ≡ count (is_marked t) rs
unfolding mark_owed
mark_owed-marked t u [] = refl
mark_owed-marked t u (r ∷ rs) = ground (arith, mark_owed-marked t u rs)

pub clear_owed-has_txid :
    (t u : String) (rs : List Processed)
    → count (has_txid t) (clear_owed u rs) ≡ count (has_txid t) rs
unfolding clear_owed
clear_owed-has_txid t u [] = refl
clear_owed-has_txid t u (r ∷ rs) = ground (arith, clear_owed-has_txid t u rs)

pub clear_owed-marked :
    (t u : String) (rs : List Processed)
    → count (is_marked t) (clear_owed u rs) ≡ count (is_marked t) rs
unfolding clear_owed
clear_owed-marked t u [] = refl
clear_owed-marked t u (r ∷ rs) = ground (arith, clear_owed-marked t u rs)

-- Replacing the record that was found trades one for the other in every count.
pub count-set_live :
    (p : Processed → Bool) (u : String) (rs : List Processed) (r new : Processed)
    → find_live u rs ≡ some r
    → count p (set_live u new rs) + num (p r) ≡ count p rs + num (p new)
unfolding find_live set_live num
count-set_live p u [] r new h = ground arith
count-set_live p u (q ∷ rs) r new h = ground (arith, count-set_live p u rs r new)

pub find_live-txid :
    (u : String) (rs : List Processed) (r : Processed)
    → find_live u rs ≡ some r
    → (r.txid ≡ u) × (r.unconfirmed ≡ true) × (1 ≤ count (has_txid u) rs)
unfolding find_live
find_live-txid u [] r h = ground arith
find_live-txid u (q ∷ rs) r h = ground (arith, find_live-txid u rs r, eq_iff q.txid u)

-- The record that replaces another is found in its place.
pub find-set_live :
    (u : String) (rs : List Processed) (r new : Processed)
    → find_live u rs ≡ some r
    → is_live_record u new ≡ true
    → find_live u (set_live u new rs) ≡ some new
unfolding find_live set_live
find-set_live u [] r new h l = ground arith
find-set_live u (q ∷ rs) r new h l = ground (arith, find-set_live u rs r new)

pub without-has_txid :
    (t u : String) (rs : List Processed)
    → count (has_txid t) (keep (λ q. not (has_txid u q)) rs)
      ≡ (if str_eq u t then 0 else count (has_txid t) rs)
without-has_txid t u [] = ground arith
without-has_txid t u (r ∷ rs) =
    ground (arith, without-has_txid t u rs, eq_iff u t, eq_iff r.txid u, eq_iff r.txid t)

pub count-cap_reversed-le :
    (p : Reversed → Bool) (es : List Reversed) → count p (cap_reversed es) ≤ count p es
count-cap_reversed-le p es =
    ground (arith, count-kept p is_open_entry (1000 - length (keep is_open_entry es)) es)

-- An entry that is found is no longer to be restored once it is marked.
pub set_restoring-restorable :
    (t u : String) (es : List Reversed) (e : Reversed)
    → find_restorable u es ≡ some e
    → count (is_restorable t) (set_restoring u es) + num (str_eq u t) ≡ count (is_restorable t) es
unfolding find_restorable set_restoring num
set_restoring-restorable t u [] e h = ground arith
set_restoring-restorable t u (q ∷ es) e h =
    ground (arith, set_restoring-restorable t u es e, eq_iff u t, eq_iff q.txid u, eq_iff q.txid t)

pub set_restoring-owed :
    (t u : String) (es : List Reversed)
    → count (is_owed t) (set_restoring u es) ≤ count (is_owed t) es
unfolding set_restoring
set_restoring-owed t u [] = omega arith
set_restoring-owed t u (q ∷ es) = ground (arith, set_restoring-owed t u es)

pub find_restorable-txid :
    (u : String) (es : List Reversed) (e : Reversed) → find_restorable u es ≡ some e → e.txid ≡ u
unfolding find_restorable
find_restorable-txid u [] e h = ground arith
find_restorable-txid u (q ∷ es) e h = ground (arith, find_restorable-txid u es e, eq_iff q.txid u)

pub set_restored-restorable :
    (t u : String) (now : ℕ) (es : List Reversed)
    → count (is_restorable t) (set_restored u now es) ≡ count (is_restorable t) es
unfolding set_restored
set_restored-restorable t u now [] = refl
set_restored-restorable t u now (q ∷ es) = ground (arith, set_restored-restorable t u now es)

pub set_restored-owed :
    (t u : String) (now : ℕ) (es : List Reversed)
    → count (is_owed t) (set_restored u now es) ≡ count (is_owed t) es
unfolding set_restored
set_restored-owed t u now [] = refl
set_restored-owed t u now (q ∷ es) = ground (arith, set_restored-owed t u now es)

pub flag-restorable :
    (t u : String) (es : List Reversed)
    → count (is_restorable t) (flag_unproven u es) ≡ count (is_restorable t) es
unfolding flag_unproven
flag-restorable t u [] = refl
flag-restorable t u (q ∷ es) = ground (arith, flag-restorable t u es)

pub flag-owed :
    (t u : String) (es : List Reversed)
    → count (is_owed t) (flag_unproven u es) ≡ count (is_owed t) es
unfolding flag_unproven
flag-owed t u [] = refl
flag-owed t u (q ∷ es) = ground (arith, flag-owed t u es)
