-- ===== src/FeeTank/Cycle/Sound.antt =====
-- What a sweep of src/fee-tank.js broadcasts, and when one is broadcast.
use j41_sovagent_dispatcher.Prelude.{
  ℕ, suc, ◌+◌, ◌≤◌, pos, String, finite, true, false, Option, some, List, ◌∷◌, any, length, ◌≡◌,
  ◌∙◌, ◌⊎◌, inl, inr, refl, sym, subst, arith, Bool-cases,
}
use j41_sovagent_dispatcher.FeeTank.{
  Utxo, sum, summarize_utxos, pays_fees, fee_sats, writes_affordable, Payment, answered, Swept,
  swept, send_sweep, execute_fee_sweep, Plan, is_pending, sweep_pending_backstop_ms,
}
use j41_sovagent_dispatcher.FeeTank.Laws.{plan_fee_sweep-Sweeps, sweepable-any}
use j41_sovagent_dispatcher.FeeTank.Cycle.Sends.{
  IsFailed, IsBroadcast, send_sweep-cases, settle_sweep-failed,
}
use j41_sovagent_dispatcher.FeeTank.Cycle.{
  Network, Round, State, plan_of, check_coins, check_fee_tank, resolve_own_r_address, settle_sweep,
  noted,
}

-- A payment that was built and broadcast: it goes to the agent's own address, spends none of the
-- tank's coins, gives out exactly what it takes in, and buys at least one more write.
pub record Refill (net : Network) (r : Round) (r_address : String) (coins : List (Option Utxo))
    : Type 0 where
  pub payment : Payment
  pub hex : String
  pub txid : String
  pub built : net.build payment ≡ some hex
  pub sent : net.broadcast hex ≡ answered (some txid)
  pub own : payment.to_address ≡ r_address
  pub foreign : any (pays_fees r_address) payment.utxos ≡ false
  pub conserves : payment.amount_sats + payment.fee ≡ sum payment.utxos
  pub buys :
      let tank = sum (summarize_utxos coins r_address).fee_utxos in
      suc (writes_affordable (finite (pos tank)) fee_sats)
      ≤ writes_affordable (finite (pos (tank + payment.amount_sats))) fee_sats

buys_one :
    (tank amount : ℕ)
    → fee_sats ≤ amount
    → suc (writes_affordable (finite (pos tank)) fee_sats)
      ≤ writes_affordable (finite (pos (tank + amount))) fee_sats
unfolding writes_affordable
buys_one tank amount h = omega arith

module _ (net : Network) (floor : ℕ) (r : Round) (r_address : String)
    (coins : List (Option Utxo)) where
  abbrev pub own_coins : List Utxo
  own_coins = (summarize_utxos coins r_address).sweepable_utxos

  abbrev pub payment_of : ℕ → Payment
  payment_of amount = record {
    wif = r.wif;
    to_address = r_address;
    amount_sats = amount;
    utxos = own_coins;
    fee = fee_sats;
  }

  abbrev pub result_of : ℕ → Swept
  result_of amount = execute_fee_sweep net.build net.broadcast r.wif r_address own_coins amount

  sends_or_fails :
      (amount : ℕ)
      → (result_of amount
          ≡ send_sweep net.broadcast (payment_of amount) (net.build (payment_of amount)))
        ⊎ IsFailed (result_of amount)
  unfolding execute_fee_sweep
  sends_or_fails amount = ground arith

  result-cases :
      (amount : ℕ)
      → ((txid : String) × (result_of amount ≡ swept txid amount (length own_coins))
          × IsBroadcast net (payment_of amount) txid)
        ⊎ IsFailed (result_of amount)
  result-cases amount = elim (sends_or_fails amount) [
    | inr failed ↦ inr failed
    | inl e ↦ elim (send_sweep-cases net (payment_of amount)) [
      | inl (txid, s, b) ↦ inl (txid, e ∙ s, b)
      | inr failed ↦ inr (subst IsFailed (sym e) failed)
    ]
  ]

  abbrev pub plan_for : State → Plan
  plan_for st = plan_of floor r r_address coins st.tank.pending

  -- No sweep is made.
  abbrev pub Kept : State → State → Type 0
  Kept st after =
      (after.tank.pending ≡ st.tank.pending) × (after.world ≡ st.world) × (after.sweeps ≡ st.sweeps)

  -- A sweep is made, which was free to be made, and is set as pending.
  abbrev pub Made : State → State → Type 0
  Made st after =
      (is_pending st.tank.pending r.now sweep_pending_backstop_ms ≡ false)
      × (after.sweeps ≡ r.now ∷ st.sweeps)
      × ((txid : String) × (after.tank.pending ≡ some (record { txid = txid; at = some r.now })))
      × Refill net r r_address coins

  pub check_coins-stays :
      (st : State)
      → (plan_for st).sweep ≡ false
      → check_coins net floor r r_address coins st ≡ noted floor r r_address coins st
  unfolding check_coins
  check_coins-stays st h = ground arith

  pub check_coins-sweeps :
      (st : State)
      → (plan_for st).sweep ≡ true
      → check_coins net floor r r_address coins st
        ≡ settle_sweep r r_address
            (noted floor r r_address coins st)
            (result_of (plan_for st).amount_sats)
  unfolding check_coins
  check_coins-sweeps st h = ground arith

  refill :
      (st : State) (txid : String)
      → (plan_for st).sweep ≡ true
      → IsBroadcast net (payment_of (plan_for st).amount_sats) txid
      → Refill net r r_address coins
  refill st txid h (hex, built, sent) =
      let s = summarize_utxos coins r_address in
      let plan =
        plan_fee_sweep-Sweeps (sum s.fee_utxos) (sum s.sweepable_utxos) floor st.tank.pending r.now
          h in
      record {
        payment = payment_of (plan_for st).amount_sats;
        hex = hex;
        txid = txid;
        built = built;
        sent = sent;
        own = refl;
        foreign = sweepable-any coins r_address;
        conserves = plan.conserves;
        buys = buys_one (sum s.fee_utxos) (plan_for st).amount_sats plan.pays;
      }

  -- A round that reads the agent's coins either leaves the pending sweep, the files and the list of sweeps as they
  -- were, or it makes a sweep while none is pending and sets it as pending. A sweep is a payment that was
  -- built and broadcast: it goes to the agent's own address, spends none of that address's coins, its
  -- amount and fee are what it takes in, and it buys at least one more write.
  pub check_coins-cases :
      (st : State)
      → let after = check_coins net floor r r_address coins st in Kept st after ⊎ Made st after
  check_coins-cases st = elim (Bool-cases (plan_for st).sweep) [
    | inr stays ↦ inl (rw (check_coins-stays st stays) (refl, refl, refl))
    | inl sweeps ↦ elim (result-cases (plan_for st).amount_sats) [
      | inr failed ↦ inl (
          rw
            (
              check_coins-sweeps st sweeps,
              settle_sweep-failed r r_address (noted floor r r_address coins st) _ failed,
            )
            (refl, refl, refl))
      | inl (txid, e, b) ↦
          let s = summarize_utxos coins r_address in
          inr (
            rw (check_coins-sweeps st sweeps, e)
              (
                (plan_fee_sweep-Sweeps (sum s.fee_utxos) (sum s.sweepable_utxos) floor
                    st.tank.pending r.now sweeps).free,
                refl,
                (txid, refl),
                refill st txid sweeps b,
              ))
    ]
  ]

  -- A round at an address that is not disputed, once its coins are read.
  pub check_fee_tank-reads :
      (st : State)
      → r.coins ≡ some coins
      → resolve_own_r_address r.derived r.platform_address ≡ some r_address
      → check_fee_tank net floor r st ≡ check_coins net floor r r_address coins st
  unfolding check_fee_tank
  check_fee_tank-reads st e d = ground arith
