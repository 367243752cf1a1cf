-- ===== src/FeeTank/Cycle/Alerts.antt =====
-- The alert of an empty tank in src/cli.js, and the sweep that a low tank gets.
use j41_sovagent_dispatcher.Prelude.{
  ℕ, ◌+◌, ◌*◌, ◌≤◌, ◌<◌, String, true, false, Option, some, List, [], ◌∷◌, length, ◌≡◌, ◌⊎◌, inl,
  inr, refl, arith, str_eq, Bool-cases, leb, ◌-◌, ◌↔◌,
}
use j41_sovagent_dispatcher.FeeTank.{
  Utxo, sum, summarize_utxos, fee_sats, default_min_sweep_sats, is_pending,
  sweep_pending_backstop_ms, plan_amount, plan_fee_sweep, execute_fee_sweep, answered, Swept, swept,
  missing_key, nothing_to_sweep, non_positive_amount, refusing_r_inputs, build_failed,
  broadcast_rejected, no_txid, Plan, Reason, needs_external_funding, invalid_balances, above_floor,
  sweep_pending, below_floor_unfunded, below_min_sweep, below_floor,
}
use j41_sovagent_dispatcher.FeeTank.Laws.{sweepable-any}
use j41_sovagent_dispatcher.FeeTank.Cycle.{
  Network, Round, State, tank_empty, no_alert, alert_after, settle_sweep, noted, check_fee_tank,
  resolve_own_r_address, plan_of,
}
use j41_sovagent_dispatcher.FeeTank.Cycle.Sound.{
  payment_of, check_fee_tank-reads, check_coins-stays, check_coins-sweeps, result_of,
}

-- A round that reads the coins, at an address that is not disputed, with sums that are safe integers.
pub record Reads (r : Round) (r_address : String) (coins : List (Option Utxo)) : Type 0 where
  pub read : r.coins ≡ some coins
  pub own : resolve_own_r_address r.derived r.platform_address ≡ some r_address
  pub tank_safe : sum (summarize_utxos coins r_address).fee_utxos ≤ 9_007_199_254_740_991
  pub sweepable_safe : sum (summarize_utxos coins r_address).sweepable_utxos ≤ 9_007_199_254_740_991

sum-length : (us : List Utxo) → sum us ≡ 0 ⊎ leb (length us) 0 ≡ false
unfolding sum
sum-length [] = inl refl
sum-length (u ∷ us) = inr (ground arith)

settle_sweep-alert :
    (r : Round) (r_address : String) (st : State) (result : Swept)
    → (settle_sweep r r_address st result).tank.alert ≡ st.tank.alert
settle_sweep-alert r a st (swept txid amount inputs) = refl
settle_sweep-alert r a st missing_key = refl
settle_sweep-alert r a st nothing_to_sweep = refl
settle_sweep-alert r a st non_positive_amount = refl
settle_sweep-alert r a st refusing_r_inputs = refl
settle_sweep-alert r a st build_failed = refl
settle_sweep-alert r a st broadcast_rejected = refl
settle_sweep-alert r a st no_txid = refl

module _ (net : Network) (floor : ℕ) (r : Round) (r_address : String) (coins : List (Option Utxo))
    (st : State) (reads : Reads r r_address coins) where
  abbrev tank : ℕ
  tank = sum (summarize_utxos coins r_address).fee_utxos

  abbrev sweepable : ℕ
  sweepable = sum (summarize_utxos coins r_address).sweepable_utxos

  -- The tank is below its floor and no sweep is pending.
  abbrev pub IsLow : Type 0
  IsLow =
      (tank < floor * fee_sats)
      × (is_pending st.tank.pending r.now sweep_pending_backstop_ms ≡ false)

  abbrev plan : Plan
  plan = plan_of floor r r_address coins st.tank.pending

  plan-low : IsLow → plan ≡ plan_amount tank sweepable
  unfolding plan_fee_sweep
  plan-low low = ground (arith, reads.tank_safe, reads.sweepable_safe, low.0, low.1)

  after_alert : (check_fee_tank net floor r st).tank.alert ≡ alert_after plan.reason st.tank.alert
  after_alert = elim (Bool-cases plan.sweep) [
    | inr stays ↦
        rw
          (
            check_fee_tank-reads net floor r r_address coins st reads.read reads.own,
            check_coins-stays net floor r r_address coins st stays,
          )
          refl
    | inl sweeps ↦
        rw
          (
            check_fee_tank-reads net floor r r_address coins st reads.read reads.own,
            check_coins-sweeps net floor r r_address coins st sweeps,
          )
          (settle_sweep-alert r r_address (noted floor r r_address coins st)
            (result_of net floor r r_address coins plan.amount_sats))
  ]

  needs-stuck : plan.reason ≡ needs_external_funding → IsLow × (tank < fee_sats) × (sweepable ≡ 0)
  unfolding plan_fee_sweep plan_amount
  needs-stuck h = ground arith

  alert-needs :
      (reason : Reason) → alert_after reason no_alert ≡ tank_empty → reason ≡ needs_external_funding
  alert-needs needs_external_funding h = refl
  alert-needs invalid_balances h = ground arith
  alert-needs above_floor h = ground arith
  alert-needs sweep_pending h = ground arith
  alert-needs below_floor_unfunded h = ground arith
  alert-needs below_min_sweep h = ground arith
  alert-needs below_floor h = ground arith

  -- Where the coins are read at an address that is not disputed, with sums that are safe integers, and no alert
  -- stood: the tank is reported as empty exactly if it is below its floor, cannot pay one fee, has
  -- nothing to sweep, and has no sweep pending.
  pub check_fee_tank-raises :
      st.tank.alert ≡ no_alert
      → ((check_fee_tank net floor r st).tank.alert ≡ tank_empty)
        ↔ (IsLow × (tank < fee_sats) × (sweepable ≡ 0))
  unfolding plan_amount
  check_fee_tank-raises quiet = (
    λ h. needs-stuck (alert-needs plan.reason (rw (after_alert, quiet) at h)),
    λ s. rw after_alert (ground (arith, plan-low s.0, s.1, s.2)),
  )

  -- Where the coins are read at an address that is not disputed, with sums that are safe integers: an alert of an
  -- empty tank stays though the tank can pay a fee again, as long as the tank is below its floor with no
  -- sweep pending, and what could be swept is more than nothing but below the minimum.
  pub check_fee_tank-stale :
      st.tank.alert ≡ tank_empty
      → IsLow
      → fee_sats ≤ tank
      → 1 ≤ sweepable
      → sweepable < default_min_sweep_sats
      → (check_fee_tank net floor r st).tank.alert ≡ tank_empty
  unfolding plan_amount
  check_fee_tank-stale stands low pays some_left small =
      rw after_alert (ground (arith, plan-low low))

  abbrev pub IsEnough : Type 0
  IsEnough =
      (default_min_sweep_sats ≤ sweepable) ⊎ ((tank < fee_sats) × (fee_sats + fee_sats ≤ sweepable))

  plan-sweeps :
      IsLow
      → IsEnough
      → (plan.sweep ≡ true) × (plan.amount_sats ≡ sweepable - fee_sats) × (1 ≤ plan.amount_sats)
  unfolding plan_amount
  plan-sweeps low enough = ground (arith, plan-low low)

  result-swept :
      (amount : ℕ) (hex txid : String)
      → str_eq r.wif "" ≡ false
      → str_eq r_address "" ≡ false
      → 1 ≤ amount
      → 1 ≤ sweepable
      → net.build (payment_of net floor r r_address coins amount) ≡ some hex
      → net.broadcast hex ≡ answered (some txid)
      → result_of net floor r r_address coins amount
        ≡ swept txid amount (length (summarize_utxos coins r_address).sweepable_utxos)
  unfolding execute_fee_sweep
  result-swept amount hex txid wif own some_amount some_coins built sent =
      let us = (summarize_utxos coins r_address).sweepable_utxos in
      ground (arith, sum-length us, sweepable-any coins r_address)

  -- Where the coins are read at an address that is not disputed, with sums that are safe integers, and neither key
  -- nor address is empty: a round that finds the tank below its floor, no sweep pending, and enough to sweep
  -- (the minimum, or two fees for a tank that cannot pay one) does sweep, if the payment of all of it less the
  -- fee can be built and its broadcast answers with a txid.
  pub check_fee_tank-refills :
      (hex txid : String)
      → IsLow
      → IsEnough
      → str_eq r.wif "" ≡ false
      → str_eq r_address "" ≡ false
      → net.build (payment_of net floor r r_address coins (sweepable - fee_sats)) ≡ some hex
      → net.broadcast hex ≡ answered (some txid)
      → (check_fee_tank net floor r st).sweeps ≡ r.now ∷ st.sweeps
  check_fee_tank-refills hex txid low enough wif own built sent =
      let (sweeps, amount, some_amount) = plan-sweeps low enough in
      rw
        (
          check_fee_tank-reads net floor r r_address coins st reads.read reads.own,
          check_coins-sweeps net floor r r_address coins st sweeps,
          result-swept plan.amount_sats hex txid wif own some_amount
              (omega (arith, amount, some_amount)) (rw amount built) sent,
        )
        refl
