-- ===== src/FeeTank/Laws.antt =====
-- The split of the coins and the plan of src/fee-tank.js.
use j41_sovagent_dispatcher.Prelude.{
  ℕ, ◌+◌, ◌*◌, ◌≤◌, ◌<◌, pos, String, finite, true, false, Option, none, some, List, [], ◌∷◌, any,
  ◌≡◌, ◌⊎◌, refl, arith,
}
use j41_sovagent_dispatcher.FeeTank.{
  Utxo, sum, sats_of, pays_fees, summarize_utxos, fee_sats, default_min_sweep_sats, Pending,
  is_pending, sweep_pending_backstop_ms, plan_fee_sweep, plan_amount,
}

-- The satoshis of every entry that counts.
unfoldable pub total : List (Option Utxo) → ℕ
total [] = 0
total (none ∷ us) = total us
total (some u ∷ us) = sats_of u + total us

-- Nothing of value is lost or counted twice when the coins are split in two.
pub summarize_utxos-total :
    (us : List (Option Utxo)) (r_address : String)
    → let s = summarize_utxos us r_address in sum s.fee_utxos + sum s.sweepable_utxos ≡ total us
unfolding summarize_utxos total sum
summarize_utxos-total [] r = refl
summarize_utxos-total (none ∷ us) r = summarize_utxos-total us r
summarize_utxos-total (some u ∷ us) r = ground (arith, summarize_utxos-total us r)

-- None of the coins that are to be swept is the tank's own.
pub sweepable-any :
    (us : List (Option Utxo)) (r_address : String)
    → any (pays_fees r_address) (summarize_utxos us r_address).sweepable_utxos ≡ false
unfolding summarize_utxos
sweepable-any [] r = refl
sweepable-any (none ∷ us) r = sweepable-any us r
sweepable-any (some u ∷ us) r = ground (arith, sweepable-any us r)

-- A plan to sweep, in numbers.
pub record Sweeps (tank sweepable floor : ℕ) (pending : Option Pending) (now amount : ℕ)
    : Type 0 where
  pub low : tank < floor * fee_sats
  pub free : is_pending pending now sweep_pending_backstop_ms ≡ false
  pub conserves : amount + fee_sats ≡ sweepable
  pub pays : fee_sats ≤ amount
  pub worth : (tank < fee_sats) ⊎ (default_min_sweep_sats ≤ sweepable)

-- A plan to sweep is made below the floor alone, while no sweep is pending; what it moves and the fee
-- are together what is there; and it moves at least one write's fee, and the minimum if the tank can still pay.
pub plan_fee_sweep-Sweeps :
    (tank sweepable floor : ℕ) (pending : Option Pending) (now : ℕ)
    → let p = plan_fee_sweep (finite (pos tank)) (finite (pos sweepable)) floor pending now in
      p.sweep ≡ true → Sweeps tank sweepable floor pending now p.amount_sats
unfolding plan_fee_sweep plan_amount
plan_fee_sweep-Sweeps tank sweepable floor pending now h = record {
  low = ground arith;
  free = ground arith;
  conserves = ground arith;
  pays = ground arith;
  worth = ground arith;
}
