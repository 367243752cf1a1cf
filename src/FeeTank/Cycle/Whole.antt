-- ===== src/FeeTank/Cycle/Whole.antt =====
-- A whole round of checkFeeTanks in src/cli.js, from the agent's key to the payment.
use j41_sovagent_dispatcher.Prelude.{
  ℕ, String, Option, none, some, List, ◌≡◌, ◌⊎◌, inl, inr, refl, arith, Option-cases, eq_iff,
}
use j41_sovagent_dispatcher.FeeTank.{Utxo}
use j41_sovagent_dispatcher.FeeTank.Cycle.{
  Network, Round, State, disputed_address, check_fee_tank, resolve_own_r_address,
}
use j41_sovagent_dispatcher.FeeTank.Cycle.Sound.{Made, check_coins-cases, check_fee_tank-reads}

-- No sweep is made.
abbrev pub IsIdle : State → State → Type 0
IsIdle st after =
    (after.tank.pending ≡ st.tank.pending) × (after.world ≡ st.world) × (after.sweeps ≡ st.sweeps)

-- A sweep is made to the address of the agent's own key, which the platform's, where it names one, agrees with.
pub record IsSwept (net : Network) (floor : ℕ) (r : Round) (st after : State) : Type 0 where
  pub own_address : String
  pub coins : List (Option Utxo)
  pub derived : r.derived ≡ some own_address
  pub agreed : (r.platform_address ≡ none) ⊎ (r.platform_address ≡ some own_address)
  pub read : r.coins ≡ some coins
  pub made : Made net floor r own_address coins st after

resolve-derived :
    (derived platform : Option String) (a : String)
    → resolve_own_r_address derived platform ≡ some a
    → (derived ≡ some a) × ((platform ≡ none) ⊎ (platform ≡ some a))
unfolding resolve_own_r_address
resolve-derived none platform a h = absurd (cc h)
resolve-derived (some d) none a h = (h, inl refl)
resolve-derived (some d) (some p) a h = ground (arith, h, eq_iff p d)

check_fee_tank-unread :
    (net : Network) (floor : ℕ) (r : Round) (st : State)
    → r.coins ≡ none
    → check_fee_tank net floor r st ≡ st
unfolding check_fee_tank
check_fee_tank-unread net floor r st e = ground (arith, e)

check_fee_tank-disputed :
    (net : Network) (floor : ℕ) (r : Round) (coins : List (Option Utxo)) (st : State)
    → r.coins ≡ some coins
    → resolve_own_r_address r.derived r.platform_address ≡ none
    → check_fee_tank net floor r st
      ≡ record st { tank = record st.tank { alert = disputed_address } }
unfolding check_fee_tank
check_fee_tank-disputed net floor r coins st e f = ground (arith, e, f)

-- A round either leaves the pending sweep, the files and the list of sweeps as they were, or it makes a sweep while none
-- is pending and sets it as pending. A sweep is a payment that was built and broadcast: it goes to the address
-- that is derived from the agent's own key, with which the platform's agrees where it names one, it spends
-- none of that address's coins, its amount and fee are what it takes in, and it buys at least one more write.
pub check_fee_tank-cases :
    (net : Network) (floor : ℕ) (r : Round) (st : State)
    → let after = check_fee_tank net floor r st in IsIdle st after ⊎ IsSwept net floor r st after
check_fee_tank-cases net floor r st = elim (Option-cases r.coins) [
  | inl e ↦ inl (rw (check_fee_tank-unread net floor r st e) (refl, refl, refl))
  | inr (coins, e) ↦ elim (Option-cases (resolve_own_r_address r.derived r.platform_address)) [
    | inl f ↦ inl (rw (check_fee_tank-disputed net floor r coins st e f) (refl, refl, refl))
    | inr (a, f) ↦
        let (derived, agreed) = resolve-derived r.derived r.platform_address a f in
        rw (check_fee_tank-reads net floor r a coins st e f)
          (elim (check_coins-cases net floor r a coins st) [
            | inl kept ↦ inl kept
            | inr made ↦ inr (record {
              own_address = a;
              coins = coins;
              derived = derived;
              agreed = agreed;
              read = e;
              made = made;
            })
          ])
  ]
]
