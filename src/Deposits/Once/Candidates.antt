-- ===== src/Deposits/Once/Candidates.antt =====
-- The candidates of a restore in src/deposit-watcher.js.
use j41_sovagent_dispatcher.Prelude.{
  ℕ, zero, suc, ◌≤◌, Bool, true, some, List, [], ◌∷◌, keep, ◌≡◌, arith, eq_refl,
}
use j41_sovagent_dispatcher.Deposits.{Reversed}
use j41_sovagent_dispatcher.Deposits.Recheck.{is_candidate}
use j41_sovagent_dispatcher.Deposits.Once.{count, nth, is_owed}
use j41_sovagent_dispatcher.Deposits.Once.Counts.{count-keep-le}

nth-count {ℓ} :
    {A : Type ℓ} (p : A → Bool) (m : ℕ) (xs : List A) (x : A)
    → nth m xs ≡ some x
    → p x ≡ true
    → 1 ≤ count p xs
nth-count p m [] x e h = ground arith
nth-count p zero (y ∷ ys) x e h = ground arith
nth-count p (suc m) (y ∷ ys) x e h = ground (arith, nth-count p m ys x)

nth-keep {ℓ} :
    {A : Type ℓ} (q : A → Bool) (m : ℕ) (xs : List A) (x : A)
    → nth m (keep q xs) ≡ some x
    → q x ≡ true
nth-keep q m [] x e = ground arith
nth-keep q zero (y ∷ ys) x e = ground (arith, nth-keep q zero ys x)
nth-keep q (suc m) (y ∷ ys) x e = ground (arith, nth-keep q m ys x, nth-keep q (suc m) ys x)

-- A candidate that was debited is owed.
pub candidate-owed :
    (now m : ℕ) (es : List Reversed) (e : Reversed)
    → nth m (keep (is_candidate now) es) ≡ some e
    → e.was_debited ≡ true
    → 1 ≤ count (is_owed e.txid) es
candidate-owed now m es e at h = omega (
  arith,
  nth-count (is_owed e.txid) m (keep (is_candidate now) es) e at
      (ground (arith, nth-keep (is_candidate now) m es e at, eq_refl e.txid)),
  count-keep-le (is_owed e.txid) (is_candidate now) es,
)
