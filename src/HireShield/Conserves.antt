-- ===== src/HireShield/Conserves.antt =====
-- The value that a plan of src/hire-shield.js moves.
use mathlib.Core.Bool.{false≢true}
use j41_sovagent_dispatcher.Prelude.{
  ℕ, ◌+◌, ◌≤◌, pos, finite, none, some, List, [], ◌∷◌, ◌≡◌, arith, ◌⊎◌, inl, inr, sym, subst, ◌∙◌,
  Bool, true, false, Number, refl, ◌-◌,
}
use j41_sovagent_dispatcher.HireShield.{
  note_too_small, SpendInput, SpendPlan, Planned, refused, planned, plan_hire_spend, plan_scripts,
  plan_outputs, nulldata_script, amount_from,
}

-- What the outputs carry.
abbrev pub value_of {ℓ} : {A : Type ℓ} → List (A × ℕ) → ℕ
value_of [] = 0
value_of ((place, sats) ∷ rest) = sats + value_of rest

abbrev sats : Number → ℕ
sats n = elim (amount_from 1 n) [ none ↦ 0 | some a ↦ a ]

abbrev data_of : SpendInput → List ℕ
data_of input = elim (nulldata_script input.tag) [ none ↦ [] | some s ↦ s ]

-- The plan that is made, where one is.
abbrev outcome : SpendInput → ℕ → Planned
outcome input note =
    plan_outputs input note (sats input.labour) (sats input.platform_fee) (sats input.miner_fee)
      (data_of input)

abbrev is_planned : Planned → Bool
is_planned (refused c) = false
is_planned (planned p) = true

scripts-outcome :
    (input : SpendInput) (note labour platform miner : ℕ)
    → (is_planned (plan_scripts input note labour platform miner) ≡ false)
      ⊎ ((plan_scripts input note labour platform miner
            ≡ plan_outputs input note labour platform miner (data_of input))
          × (miner ≤ 100_000))
unfolding plan_scripts
scripts-outcome input note labour platform miner = ground arith

hire-outcome :
    (input : SpendInput) (note : ℕ)
    → input.note_value ≡ finite (pos note)
    → (is_planned (plan_hire_spend input) ≡ false)
      ⊎ ((plan_hire_spend input ≡ outcome input note) × (sats input.miner_fee ≤ 100_000))
unfolding plan_hire_spend
hire-outcome input note e = ground (
  arith,
  scripts-outcome input note (sats input.labour) (sats input.platform_fee) (sats input.miner_fee),
)

abbrev IsWhole : ℕ → ℕ → Planned → Type 0
IsWhole note fee (refused c) = Unit
IsWhole note fee (planned p) =
    (value_of p.transparent_outputs + value_of p.shielded_outputs + p.fee ≡ note) × (p.fee ≡ fee)

outputs-cases :
    (input : SpendInput) (note labour platform miner : ℕ) (nulldata : List ℕ)
    → let paid : List (List ℕ × ℕ) =
        (input.seller_script, labour) ∷ (input.fee_script, platform) ∷ (nulldata, 0) ∷ [] in
      let result = plan_outputs input note labour platform miner nulldata in
      let outlay = labour + platform + miner in
      (result ≡ refused note_too_small)
      ⊎ ((note ≡ outlay)
          × (result
              ≡ planned
                  (record { transparent_outputs = paid; shielded_outputs = []; fee = miner })))
      ⊎ ((outlay ≤ note)
          × (result
              ≡ planned (record {
                transparent_outputs = paid;
                shielded_outputs = (input.change_address, note - outlay) ∷ [];
                fee = miner;
              })))
unfolding plan_outputs
outputs-cases input note labour platform miner nulldata = ground arith

outputs-IsWhole :
    (input : SpendInput) (note labour platform miner : ℕ) (nulldata : List ℕ)
    → IsWhole note miner (plan_outputs input note labour platform miner nulldata)
outputs-IsWhole input note labour platform miner nulldata =
    elim (outputs-cases input note labour platform miner nulldata) [
      | inl e ↦ rw e tt
      | inr (inl (all_of_it, e)) ↦ rw e (omega (arith, all_of_it), refl)
      | inr (inr (fits, e)) ↦ rw e (omega (arith, fits), refl)
    ]

-- A plan that is made for a note spends it whole: what the transparent outputs, the change and the fee
-- carry is the note's value, and the fee is at most 100000 satoshis.
pub plan_hire_spend-conserves :
    (input : SpendInput) (note : ℕ) (p : SpendPlan)
    → input.note_value ≡ finite (pos note)
    → plan_hire_spend input ≡ planned p
    → (value_of p.transparent_outputs + value_of p.shielded_outputs + p.fee ≡ note)
      × (p.fee ≤ 100_000)
plan_hire_spend-conserves input note p e h = elim (hire-outcome input note e) [
  | inl off ↦ absurd (false≢true (sym (rw h at off)))
  | inr (same, small) ↦
      let whole : IsWhole note (sats input.miner_fee) (planned p) =
        subst (IsWhole note (sats input.miner_fee)) (sym same ∙ h) (
          outputs-IsWhole input note (sats input.labour) (sats input.platform_fee)
            (sats input.miner_fee) (data_of input)) in
      (whole.0, omega (arith, whole.1, small))
]
