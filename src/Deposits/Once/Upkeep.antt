-- ===== src/Deposits/Once/Upkeep.antt =====
-- The invariant of each transaction over the writes of src/deposit-watcher.js that move no money.
use j41_sovagent_dispatcher.Prelude.{
  if-elim, ltb, ◌&&◌, ℕ, String, Bool, true, false, Option, none, some, List, [], ◌∷◌, ◌≡◌, refl,
  arith, str_eq,
}
use j41_sovagent_dispatcher.Deposits.{Processed, Reversed, Deposits, Desk}
use j41_sovagent_dispatcher.Deposits.Ledger.{has_txid}
use j41_sovagent_dispatcher.Deposits.Recheck.{is_restorable, flag_all}
use j41_sovagent_dispatcher.Deposits.Pass.{adopt, adopt_all, backfill, with_flags}
use j41_sovagent_dispatcher.Deposits.Notify.{Sent, retry_all, retry_pending_notifies}
use j41_sovagent_dispatcher.Deposits.Operator.{
  find, replace, is_anomaly, is_anomalous_entry, found_entry, found_in, find_anomaly, Resolution,
  dismiss_found, dismiss_deposit_anomaly,
}
use j41_sovagent_dispatcher.Deposits.Once.{count, is_marked, is_owed}
use j41_sovagent_dispatcher.Deposits.Once.Credits.{At-mono}
use j41_sovagent_dispatcher.Deposits.Once.Commits.{Kept}

-- Records with the same transactions and the same marks, and entries with the same states.
abbrev Alike : List Processed → List Processed → Type 0
Alike rs qs =
    (t : String)
    → (count (has_txid t) qs ≡ count (has_txid t) rs)
      × (count (is_marked t) qs ≡ count (is_marked t) rs)

abbrev AlikeEntries : List Reversed → List Reversed → Type 0
AlikeEntries es fs =
    (t : String)
    → (count (is_restorable t) fs ≡ count (is_restorable t) es)
      × (count (is_owed t) fs ≡ count (is_owed t) es)

module _ (n : ℕ) (k : Desk) (kept : Kept n k) where
  processed-Kept :
      (qs : List Processed)
      → Alike k.deposits.processed qs
      → Kept n (record k { deposits = record k.deposits { processed = qs } })
  processed-Kept qs alike = (
    λ t.
        At-mono t k.deposits _ k.moves
          (record {
            has = omega (arith, (alike t).0);
            marked = omega (arith, (alike t).1);
            restorable = omega arith;
            owed = omega arith;
            kept = λ h. h;
          })
          (kept.0 t),
    kept.1,
  )

  reversed-Kept :
      (fs : List Reversed)
      → AlikeEntries k.deposits.reversed fs
      → Kept n (record k { deposits = record k.deposits { reversed = fs } })
  reversed-Kept fs alike = (
    λ t.
        At-mono t k.deposits _ k.moves
          (record {
            has = omega arith;
            marked = omega arith;
            restorable = omega (arith, (alike t).0);
            owed = omega (arith, (alike t).1);
            kept = λ h. h;
          })
          (kept.0 t),
    kept.1,
  )

adopt-Alike : (now : ℕ) (rs : List Processed) → Alike rs (adopt_all now rs)
unfolding adopt
adopt-Alike now [] t = (refl, refl)
adopt-Alike now (r ∷ rs) t = ground (arith, adopt-Alike now rs t)

flag_all-Alike : (es : List Reversed) → AlikeEntries es (flag_all es)
flag_all-Alike [] t = (refl, refl)
flag_all-Alike (e ∷ es) t = ground (arith, flag_all-Alike es t)

retry-Alike :
    (send : Processed → Sent) (now : ℕ) (rs : List Processed) → Alike rs (retry_all send now rs).1
unfolding retry_all
retry-Alike send now [] t = (refl, refl)
retry-Alike send now (r ∷ rs) t = ground (arith, retry-Alike send now rs t)

-- The first that fits is replaced by one that a test does not tell from it.
replace-count {ℓ} :
    {A : Type ℓ} (p q : A → Bool) (x new : A) (xs : List A)
    → find p xs ≡ some x
    → q new ≡ q x
    → count q (replace p new xs) ≡ count q xs
replace-count p q x new [] at h = refl
replace-count p q x new (y ∷ ys) at h = ground (arith, replace-count p q x new ys)

pub backfill-Kept : (n now : ℕ) (k : Desk) → Kept n k → Kept n (backfill now k)
unfolding backfill
backfill-Kept n now k h =
    processed-Kept n k h (adopt_all now k.deposits.processed) (adopt-Alike now k.deposits.processed)

pub with_flags-Kept : (n : ℕ) (k : Desk) → Kept n k → Kept n (with_flags k)
with_flags-Kept n k h =
    reversed-Kept n k h (flag_all k.deposits.reversed) (flag_all-Alike k.deposits.reversed)

pub retry-Kept :
    (n : ℕ) (saves has_key : Bool) (send : Processed → Sent) (now : ℕ) (k : Desk)
    → Kept n k
    → Kept n (retry_pending_notifies saves has_key send now k.deposits k).1
unfolding retry_pending_notifies
retry-Kept n saves has_key send now k h =
    let (sent, after) = retry_all send now k.deposits.processed in
    if-elim (λ (a : ℕ × Desk). Kept n a.1) has_key _ _
      (λ _.
        if-elim (Kept n) (saves && ltb 0 sent) _ _
          (λ _. processed-Kept n k h after (retry-Alike send now k.deposits.processed)) (λ _. h))
      (λ _. h)

-- A retry that cannot save, or has no key, leaves the file alone, whatever it loaded.
pub unsaved-same :
    (has_key : Bool) (send : Processed → Sent) (now : ℕ) (loaded : Deposits) (k : Desk)
    → (retry_pending_notifies false has_key send now loaded k).1 ≡ k
unfolding retry_pending_notifies
unsaved-same true send now loaded k = refl
unsaved-same false send now loaded k = refl

pub keyless-same :
    (saves : Bool) (send : Processed → Sent) (now : ℕ) (loaded : Deposits) (k : Desk)
    → (retry_pending_notifies saves false send now loaded k).1 ≡ k
unfolding retry_pending_notifies
keyless-same saves send now loaded k = refl

module _ (n now : ℕ) (k : Desk) (txid : String) (kept : Kept n k) where
  entry-Kept :
      (o : Option Reversed)
      → find (is_anomalous_entry txid) k.deposits.reversed ≡ o
      → Kept n (dismiss_found now k txid (found_entry o)).1
  entry-Kept none at = kept
  entry-Kept (some e) at = reversed-Kept n k kept _ (λ t. (
    replace-count (is_anomalous_entry txid) (is_restorable t) e _ k.deposits.reversed at refl,
    replace-count (is_anomalous_entry txid) (is_owed t) e _ k.deposits.reversed at refl,
  ))

  record-Kept :
      (o : Option Processed)
      → find (is_anomaly now txid) k.deposits.processed ≡ o
      → Kept n (dismiss_found now k txid (found_in k.deposits txid o)).1
  record-Kept none at = entry-Kept (find (is_anomalous_entry txid) k.deposits.reversed) refl
  record-Kept (some r) at = processed-Kept n k kept _ (λ t. (
    replace-count (is_anomaly now txid) (has_txid t) r _ k.deposits.processed at refl,
    replace-count (is_anomaly now txid) (is_marked t) r _ k.deposits.processed at refl,
  ))

pub dismiss-Kept :
    (n : ℕ) (reason : String) (now : ℕ) (k : Desk) (txid : String)
    → Kept n k
    → Kept n (dismiss_deposit_anomaly reason now k txid).1
unfolding dismiss_deposit_anomaly find_anomaly
dismiss-Kept n reason now k txid h =
    if-elim (λ (a : Resolution × Desk). Kept n a.1) (str_eq reason "") _ _ (λ _. h)
      (λ _. record-Kept n now k txid h (find (is_anomaly now txid) k.deposits.processed) refl)
