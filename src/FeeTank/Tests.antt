-- ===== src/FeeTank/Tests.antt =====
-- The fee tank of src/fee-tank.js at concrete coins.
use j41_sovagent_dispatcher.Prelude.{
  ℕ, ◌+◌, ◌<◌, pos, finite, nan, Option, none, some, List, [], ◌∷◌, ◌≡◌, ◌⊎◌, ◌↔◌, inl, refl, arith,
}
use j41_sovagent_dispatcher.Spend.{fresh}
use j41_sovagent_dispatcher.FeeTank.{
  Utxo, sum, summarize_utxos, plan_fee_sweep, plan_amount, answered, execute_fee_sweep,
}
use j41_sovagent_dispatcher.FeeTank.Laws.{
  total, summarize_utxos-total, Sweeps, plan_fee_sweep-Sweeps,
}
use j41_sovagent_dispatcher.FeeTank.Cycle.{
  Network, Round, State, no_alert, tank_empty, resolve_own_r_address, check_coins, check_fee_tank,
  run_rounds,
}
use j41_sovagent_dispatcher.FeeTank.Cycle.Whole.{IsIdle, IsSwept, check_fee_tank-cases}
use j41_sovagent_dispatcher.FeeTank.Cycle.Spacing.{IsSpaced, run_rounds-IsSpaced}
use j41_sovagent_dispatcher.FeeTank.Cycle.Alerts.{
  Reads, IsLow, check_fee_tank-raises, check_fee_tank-stale, check_fee_tank-refills,
}

abbrev net : Network
net = record { build = λ p. some "signed"; broadcast = λ hex. answered (some "t1") }

-- What is in the tank, an entry that is null, one that is no amount, and earnings.
abbrev coins : ℕ → ℕ → List (Option Utxo)
coins tank earned =
    some (record { address = some "R"; satoshis = finite (pos tank) })
    ∷ none
    ∷ some (record { address = some "i"; satoshis = nan })
    ∷ some (record { address = some "i"; satoshis = finite (pos earned) })
    ∷ []

abbrev round : ℕ → ℕ → ℕ → Round
round tank earned now = record {
  agent_id = "agent";
  wif = "key";
  derived = some "R";
  platform_address = some "R";
  coins = some (coins tank earned);
  now = now;
}

abbrev quiet : State
quiet = record {
  tank = record { pending = none; alert = no_alert; last = none };
  world = fresh;
  sweeps = [];
}

abbrev alarmed : State
alarmed = record {
  tank = record { pending = none; alert = tank_empty; last = none };
  world = fresh;
  sweeps = [];
}

-- The second round comes too early, the third does not.
three_rounds :
    (run_rounds net 100
      (round 5_000 300_000 0 ∷ round 5_000 300_000 60_000 ∷ round 5_000 300_000 1_800_000 ∷ [])
      quiet).sweeps
    ≡ 1_800_000 ∷ 0 ∷ []
unfolding run_rounds check_fee_tank check_coins resolve_own_r_address plan_fee_sweep plan_amount
    execute_fee_sweep summarize_utxos sum
three_rounds = refl

summarize_utxos-total_example :
    let s = summarize_utxos (coins 5_000 300_000) "R" in
    sum s.fee_utxos + sum s.sweepable_utxos ≡ total (coins 5_000 300_000)
summarize_utxos-total_example = summarize_utxos-total (coins 5_000 300_000) "R"

plan_fee_sweep-Sweeps_example :
    Sweeps 5_000 300_000 100 none 0
      (plan_fee_sweep (finite (pos 5_000)) (finite (pos 300_000)) 100 none 0).amount_sats
plan_fee_sweep-Sweeps_example =
    plan_fee_sweep-Sweeps 5_000 300_000 100 none 0 (unfold plan_fee_sweep plan_amount in refl)

check_fee_tank-cases_example :
    let after = check_fee_tank net 100 (round 5_000 300_000 7) quiet in
    IsIdle quiet after ⊎ IsSwept net 100 (round 5_000 300_000 7) quiet after
check_fee_tank-cases_example = check_fee_tank-cases net 100 (round 5_000 300_000 7) quiet

run_rounds-IsSpaced_example :
    IsSpaced
      (run_rounds net 100 (round 5_000 300_000 0 ∷ round 5_000 300_000 1_800_000 ∷ []) quiet).sweeps
run_rounds-IsSpaced_example =
    run_rounds-IsSpaced net 100 (round 5_000 300_000 0 ∷ round 5_000 300_000 1_800_000 ∷ []) quiet
      refl

small_read : Reads (round 5_000 0 7) "R" (coins 5_000 0)
unfolding resolve_own_r_address summarize_utxos sum
small_read = record {
  read = refl;
  own = refl;
  tank_safe = omega arith;
  sweepable_safe = omega arith;
}

paying_read : Reads (round 20_000 100_000 7) "R" (coins 20_000 100_000)
unfolding resolve_own_r_address summarize_utxos sum
paying_read = record {
  read = refl;
  own = refl;
  tank_safe = omega arith;
  sweepable_safe = omega arith;
}

earning_read : Reads (round 5_000 300_000 7) "R" (coins 5_000 300_000)
unfolding resolve_own_r_address summarize_utxos sum
earning_read = record {
  read = refl;
  own = refl;
  tank_safe = omega arith;
  sweepable_safe = omega arith;
}

check_fee_tank-raises_example :
    ((check_fee_tank net 100 (round 5_000 0 7) quiet).tank.alert ≡ tank_empty) ↔ (
      IsLow net 100 (round 5_000 0 7) "R" (coins 5_000 0) quiet small_read
      × (sum (summarize_utxos (coins 5_000 0) "R").fee_utxos < 10_000)
      × (sum (summarize_utxos (coins 5_000 0) "R").sweepable_utxos ≡ 0))
check_fee_tank-raises_example =
    check_fee_tank-raises net 100 (round 5_000 0 7) "R" (coins 5_000 0) quiet small_read refl

check_fee_tank-stale_example :
    (check_fee_tank net 100 (round 20_000 100_000 7) alarmed).tank.alert ≡ tank_empty
unfolding summarize_utxos sum
check_fee_tank-stale_example =
    check_fee_tank-stale net 100 (round 20_000 100_000 7) "R" (coins 20_000 100_000) alarmed
      paying_read refl (omega arith, refl) (omega arith) (omega arith) (omega arith)

check_fee_tank-refills_example :
    (check_fee_tank net 100 (round 5_000 300_000 7) quiet).sweeps ≡ 7 ∷ []
unfolding summarize_utxos sum
check_fee_tank-refills_example =
    check_fee_tank-refills net 100 (round 5_000 300_000 7) "R" (coins 5_000 300_000) quiet
      earning_read "signed" "t1" (omega arith, refl) (inl (omega arith)) refl refl refl refl
