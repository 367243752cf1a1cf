-- ===== src/Deposits/Credit/Money.antt =====
-- What the meter's answer to a credit in src/deposit-watcher.js can leave behind.
use j41_sovagent_dispatcher.Prelude.{ℕ, ℤ, String, Bool, some, List, ◌∷◌}
use j41_sovagent_dispatcher.Meter.{MeterFile, Locked, busy, done}
use j41_sovagent_dispatcher.Meter.Credit.{credit_deposit}
use j41_sovagent_dispatcher.Deposits.{Processed, Desk, credited}
use j41_sovagent_dispatcher.Deposits.Credit.{with_money}

-- What holds of the desk before, and of it with the credit made, holds after the answer.
pub with_money-elim {ℓ} :
    (P : Desk → Type ℓ) (k : Desk) (r : Processed) (canonical : String) (aliases : List String)
    (lock : Bool) (now : ℕ)
    → P k
    → ((file : MeterFile) → P (record k { meter = file; moves = credited r.txid ∷ k.moves }))
    → P (with_money k r canonical aliases lock now).1
with_money-elim P k r canonical aliases lock now same paid =
    let file = (credit_deposit k.meter lock canonical aliases r.amount (some r.txid) now).1 in
    elim (credit_deposit k.meter lock canonical aliases r.amount (some r.txid) now).0
      as (λ a.
        P
          (elim a as (λ _. Locked ℤ × Desk) [
            | busy ↦ (busy, k)
            | done balance ↦
                (done balance, record k { meter = file; moves = credited r.txid ∷ k.moves })
          ]).1) [ busy ↦ same | done balance ↦ paid file ]
