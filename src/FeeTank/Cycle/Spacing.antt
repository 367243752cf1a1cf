-- ===== src/FeeTank/Cycle/Spacing.antt =====
-- The sweeps of one agent over a run of rounds of src/fee-tank.js.
use j41_sovagent_dispatcher.Prelude.{
  ℕ, ◌+◌, ◌≤◌, String, false, Option, none, some, List, [], ◌∷◌, ◌≡◌, ◌⊎◌, inl, inr, refl, arith,
  Option-cases,
}
use j41_sovagent_dispatcher.FeeTank.{Utxo, Pending, is_pending, sweep_pending_backstop_ms}
use j41_sovagent_dispatcher.FeeTank.Cycle.{
  Network, Round, State, check_coins, check_fee_tank, resolve_own_r_address, run_rounds,
}
use j41_sovagent_dispatcher.FeeTank.Cycle.Sound.{check_coins-cases, check_fee_tank-reads}

-- Times, the latest first, each at least the backstop after the one before it.
abbrev pub IsSpaced : List ℕ → Type 0
IsSpaced [] = Unit
IsSpaced (t ∷ []) = Unit
IsSpaced (t ∷ s ∷ rest) = (s + sweep_pending_backstop_ms ≤ t) × IsSpaced (s ∷ rest)

-- The latest sweep is the one that is pending.
abbrev Tracks : Option Pending → List ℕ → Type 0
Tracks pending [] = Unit
Tracks pending (t ∷ rest) = (txid : String) × (pending ≡ some (record { txid = txid; at = some t }))

abbrev Invariant : State → Type 0
Invariant st = Tracks st.tank.pending st.sweeps × IsSpaced st.sweeps

add_sweep :
    (pending : Option Pending) (sweeps : List ℕ) (now : ℕ)
    → is_pending pending now sweep_pending_backstop_ms ≡ false
    → Tracks pending sweeps
    → IsSpaced sweeps
    → IsSpaced (now ∷ sweeps)
add_sweep pending [] now free t s = tt
add_sweep pending (last ∷ rest) now free (txid, e) s = (ground arith, s)

coins-Invariant :
    (net : Network) (floor : ℕ) (r : Round) (r_address : String) (coins : List (Option Utxo))
    (st : State)
    → Invariant st
    → Invariant (check_coins net floor r r_address coins st)
coins-Invariant net floor r r_address coins st (t, s) =
    elim (check_coins-cases net floor r r_address coins st) [
      | inl (p, w, e) ↦ rw (p, e) (t, s)
      | inr (free, e, (txid, p), refill) ↦
          rw (p, e) ((txid, refl), add_sweep st.tank.pending st.sweeps r.now free t s)
    ]

unread :
    (net : Network) (floor : ℕ) (r : Round) (st : State)
    → (r.coins ≡ none) ⊎ (resolve_own_r_address r.derived r.platform_address ≡ none)
    → let after = check_fee_tank net floor r st in
      (after.tank.pending ≡ st.tank.pending) × (after.sweeps ≡ st.sweeps)
unfolding check_fee_tank
unread net floor r st h = ground arith

unread-Invariant :
    (net : Network) (floor : ℕ) (r : Round) (st : State)
    → (r.coins ≡ none) ⊎ (resolve_own_r_address r.derived r.platform_address ≡ none)
    → Invariant st
    → Invariant (check_fee_tank net floor r st)
unread-Invariant net floor r st h i = let (p, s) = unread net floor r st h in rw (p, s) i

round-Invariant :
    (net : Network) (floor : ℕ) (r : Round) (st : State)
    → Invariant st
    → Invariant (check_fee_tank net floor r st)
round-Invariant net floor r st i = elim (Option-cases r.coins) [
  | inl e ↦ unread-Invariant net floor r st (inl e) i
  | inr (coins, e) ↦ elim (Option-cases (resolve_own_r_address r.derived r.platform_address)) [
    | inl d ↦ unread-Invariant net floor r st (inr d) i
    | inr (r_address, d) ↦
        rw (check_fee_tank-reads net floor r r_address coins st e d)
          (coins-Invariant net floor r r_address coins st i)
  ]
]

run-Invariant :
    (net : Network) (floor : ℕ) (rounds : List Round) (st : State)
    → Invariant st
    → Invariant (run_rounds net floor rounds st)
unfolding run_rounds
run-Invariant net floor [] st i = i
run-Invariant net floor (r ∷ rs) st i =
    run-Invariant net floor rs (check_fee_tank net floor r st) (round-Invariant net floor r st i)

-- Over any run of rounds, whatever the network answers and however the clock moves, two sweeps of an
-- agent are at least thirty minutes apart.
pub run_rounds-IsSpaced :
    (net : Network) (floor : ℕ) (rounds : List Round) (st : State)
    → st.sweeps ≡ []
    → IsSpaced (run_rounds net floor rounds st).sweeps
run_rounds-IsSpaced net floor rounds st e = (run-Invariant net floor rounds st (rw e (tt, tt))).1
