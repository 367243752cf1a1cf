-- ===== src/Deposits/Once/Counts.antt =====
-- What the operations on the lists of src/deposit-watcher.js do to counts of them.
use j41_sovagent_dispatcher.Prelude.{
  ℕ, suc, ◌+◌, ◌-◌, ◌≤◌, ◌<◌, String, Bool, true, false, not, ◌&&◌, ◌||◌, List, [], ◌∷◌, ◌++◌, keep,
  drop, length, ◌≡◌, refl, arith, str_eq, eq_iff, length-append, zero,
}
use j41_sovagent_dispatcher.Deposits.{Processed}
use j41_sovagent_dispatcher.Deposits.Ledger.{
  trim_processed, processed_audit_cap, is_open_record, last_of, remembers, remember_credited_txid,
  credited_txid_cap,
}
use j41_sovagent_dispatcher.Deposits.Once.{count}

unfoldable pub num : Bool → ℕ
num true = 1
num false = 0

module _ {ℓ} {A : Type ℓ} (p : A → Bool) where
  pub count-append : (xs ys : List A) → count p (xs ++ ys) ≡ count p xs + count p ys
  count-append [] ys = omega arith
  count-append (x ∷ xs) ys = ground (arith, count-append xs ys)

  pub count-keep-le : (q : A → Bool) (xs : List A) → count p (keep q xs) ≤ count p xs
  count-keep-le q [] = omega arith
  count-keep-le q (x ∷ xs) = ground (arith, count-keep-le q xs)

  pub count-drop-le : (n : ℕ) (xs : List A) → count p (drop n xs) ≤ count p xs
  count-drop-le zero xs = omega arith
  count-drop-le (suc n) [] = omega arith
  count-drop-le (suc n) (x ∷ xs) = ground (arith, count-drop-le n xs)

  pub count-last_of-le : (n : ℕ) (xs : List A) → count p (last_of n xs) ≤ count p xs
  count-last_of-le n xs = ground (arith, count-drop-le (length xs - n) xs)

  pub count-split :
      (q : A → Bool) (xs : List A)
      → count p (keep q xs) + count p (keep (λ x. not (q x)) xs) ≡ count p xs
  count-split q [] = refl
  count-split q (x ∷ xs) = ground (arith, count-split q xs)

  pub count-kept :
      (q : A → Bool) (n : ℕ) (xs : List A)
      → count p (keep q xs ++ last_of n (keep (λ x. not (q x)) xs)) ≤ count p xs
  count-kept q n xs = omega (
    arith,
    count-append (keep q xs) (last_of n (keep (λ x. not (q x)) xs)),
    count-last_of-le n (keep (λ x. not (q x)) xs),
    count-split q xs,
  )

  -- A stronger test counts at most as many.
  pub count_mono :
      (q : A → Bool) (xs : List A) → ((x : A) → p x ≡ true → q x ≡ true) → count p xs ≤ count q xs
  count_mono q [] h = omega arith
  count_mono q (x ∷ xs) h = ground (arith, h x, count_mono q xs h)

pub count-trim_processed-le :
    (p : Processed → Bool) (rs : List Processed) → count p (trim_processed rs) ≤ count p rs
unfolding trim_processed
count-trim_processed-le p rs =
    ground (
      arith,
      count-kept p is_open_record (processed_audit_cap - length (keep is_open_record rs)) rs,
    )

remembers-append :
    (t u : String) (ts : List String) → remembers t (ts ++ u ∷ []) ≡ (remembers t ts || str_eq u t)
remembers-append t u [] = ground arith
remembers-append t u (s ∷ ts) = ground (arith, remembers-append t u ts)

module _ (u : String) (ts : List String) (room : length ts < credited_txid_cap) where
  -- While there is room, a transaction is remembered exactly if it was, or is the new one.
  pub remembers-remember :
      (t : String) → remembers t (remember_credited_txid u ts) ≡ (remembers t ts || str_eq u t)
  unfolding remember_credited_txid
  remembers-remember t =
      ground (arith, remembers-append t u ts, length-append ts (u ∷ []), eq_iff u t)

  pub length-remember-le : length (remember_credited_txid u ts) ≤ suc (length ts)
  unfolding remember_credited_txid
  length-remember-le = ground (arith, length-append ts (u ∷ []))

pub remembers-forget :
    (t u : String) (ts : List String)
    → remembers t (keep (λ s. not (str_eq s u)) ts) ≡ (not (str_eq u t) && remembers t ts)
remembers-forget t u [] = ground arith
remembers-forget t u (s ∷ ts) =
    ground (arith, remembers-forget t u ts, eq_iff s u, eq_iff s t, eq_iff u t)
