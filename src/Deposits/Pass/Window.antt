-- ===== src/Deposits/Pass/Window.antt =====
-- The reversals of the last hour that src/deposit-watcher.js counts.
use j41_sovagent_dispatcher.Prelude.{
  ℕ, suc, ltb_ℤ, sub_ℕ, pos, Bool, false, List, [], ◌∷◌, ◌++◌, length, ◌≡◌, arith, length-append,
}
use j41_sovagent_dispatcher.Deposits.{Desk}
use j41_sovagent_dispatcher.Deposits.Evidence.{expire_reversals, reversal_budget_window_ms}

-- The reversals that count, at the time of the pass.
abbrev pub recent : ℕ → Desk → ℕ
recent now k = length (expire_reversals now k.recent_reversals)

abbrev is_old : ℕ → ℕ → Bool
is_old now t = ltb_ℤ (pos reversal_budget_window_ms) (sub_ℕ now t)

is_old-now : (now : ℕ) → is_old now now ≡ false
is_old-now now = ground arith

pub expire-expire :
    (now : ℕ) (ts : List ℕ)
    → (length (expire_reversals now (expire_reversals now ts)) ≡ length (expire_reversals now ts))
      × (length (expire_reversals now (expire_reversals now ts ++ now ∷ []))
          ≡ suc (length (expire_reversals now ts)))
unfolding expire_reversals
expire-expire now [] = ground (arith, is_old-now now)
expire-expire now (t ∷ ts) = ground (arith, expire-expire now ts, length-append ts (now ∷ []))
