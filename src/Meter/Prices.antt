-- ===== src/Meter/Prices.antt =====
-- The cost of tokens in src/credit-meter.js.
use j41_sovagent_dispatcher.Prelude.{
  ℕ, ℤ, pos, negsuc, ◌+ℤ◌, ◌*ℤ◌, ◌≤ℤ◌, leb_ℤ, String, Number, finite, infinite, neg_infinite, nan,
  ◌&&◌, some, List, ◌≡◌, ◌⊎◌, refl, arith, Bool-cases, Option-cases, inl, inr, *ℤ_parts, +ℤ_parts,
}
use j41_sovagent_dispatcher.Meter.{Pricing}
use j41_sovagent_dispatcher.Meter.Credit.{find_pricing, cost_at, calculate_cost}

mul_nonneg : (n : ℕ) (z : ℤ) → pos 0 ≤ℤ z → pos 0 ≤ℤ pos n *ℤ z
mul_nonneg n (pos z) h = omega (arith, *ℤ_parts (pos n) (pos z))
mul_nonneg n (negsuc z) h = absurd (omega arith)

cost_at_nonneg :
    (ir or : Number) (input output : ℕ) (c : ℤ) → cost_at ir or input output ≡ finite c → pos 0 ≤ℤ c
unfolding cost_at
cost_at_nonneg (finite ir) (finite or) input output c h = ground (
  arith,
  mul_nonneg input ir,
  mul_nonneg output or,
  +ℤ_parts (pos input *ℤ ir) (pos output *ℤ or),
)
cost_at_nonneg (finite ir) infinite input output c h = absurd (ground arith)
cost_at_nonneg (finite ir) neg_infinite input output c h = absurd (ground arith)
cost_at_nonneg (finite ir) nan input output c h = absurd (ground arith)
cost_at_nonneg _ or input output c h = absurd (ground arith)

pub calculate_cost_nonneg :
    (pricing : List Pricing) (model : String) (input output : ℕ) (c : ℤ)
    → calculate_cost pricing model input output ≡ finite c
    → pos 0 ≤ℤ c
unfolding calculate_cost
calculate_cost_nonneg pricing model input output c h =
    elim (Option-cases (find_pricing pricing model)) [
      | inl e ↦ ground arith
      | inr (p, e) ↦
          cost_at_nonneg p.input_token_rate p.output_token_rate input output c
            (rw (e, calculate_cost) at h)
    ]

cost_at_cases :
    (ir or : Number) (input output : ℕ)
    → ((c : ℤ) × (cost_at ir or input output ≡ finite c)) ⊎ (cost_at ir or input output ≡ infinite)
unfolding cost_at
cost_at_cases (finite ir) (finite or) input output =
    elim (Bool-cases (leb_ℤ (pos 0) ir && leb_ℤ (pos 0) or)) [
      | inl good ↦ inl (pos input *ℤ ir +ℤ pos output *ℤ or, rw good)
      | inr bad ↦ inr (rw bad)
    ]
cost_at_cases (finite ir) infinite input output = inr refl
cost_at_cases (finite ir) neg_infinite input output = inr refl
cost_at_cases (finite ir) nan input output = inr refl
cost_at_cases _ or input output = inr refl

pub calculate_cost_cases :
    (pricing : List Pricing) (model : String) (input output : ℕ)
    → ((c : ℤ) × (calculate_cost pricing model input output ≡ finite c))
      ⊎ (calculate_cost pricing model input output ≡ infinite)
unfolding calculate_cost
calculate_cost_cases pricing model input output = elim (Option-cases (find_pricing pricing model)) [
  | inl e ↦ rw (e, calculate_cost) (inl (pos 0, refl))
  | inr (p, e) ↦
      rw (e, calculate_cost) (cost_at_cases p.input_token_rate p.output_token_rate input output)
]

pub calculate_cost_priced :
    (pricing : List Pricing) (model : String) (input output : ℕ) (p : Pricing)
    → find_pricing pricing model ≡ some p
    → calculate_cost pricing model input output
      ≡ cost_at p.input_token_rate p.output_token_rate input output
unfolding calculate_cost
calculate_cost_priced pricing model input output p e = rw (e, calculate_cost) refl
