-- ===== src/Spend/Gate/Reads.antt =====
-- What the steps of the gate in src/spend-policy.js leave alone.
use j41_sovagent_dispatcher.Prelude.{
  ℕ, ℤ, String, Number, finite, infinite, neg_infinite, nan, List, ◌≡◌, refl, arith,
}
use j41_sovagent_dispatcher.Spend.{
  Send, World, RawLimits, LimitKey, sends_per_job, value_multiplier, sends_per_hour,
}
use j41_sovagent_dispatcher.Spend.Addresses.{load_financial_allowlist}
use j41_sovagent_dispatcher.Spend.RateLimits.{
  effective_limits, dispatcher_rate_limits, clamp, limits_of, hard_max_value_multiplier,
  hard_max_sends_per_job, hard_max_sends_per_hour,
}
use j41_sovagent_dispatcher.Spend.SendHistory.{load_send_history, check_dispatcher_rate_limit}
use j41_sovagent_dispatcher.Spend.Gate.{price_for_limit, counterparty_ok}

-- The parts of the world that the gate only reads.
pub record SameFunds (v w : World) : Type 0 where
  pub history : v.history ≡ w.history
  pub running : v.suspended_file ≡ w.suspended_file
  pub config : v.config ≡ w.config
  pub ledger : v.ledger ≡ w.ledger
  pub writable : v.ledger_writable ≡ w.ledger_writable
  pub kept : v.history_writable ≡ w.history_writable

clamp_keys :
    (key : LimitKey) (val : Number) (hard : ℤ) (ks ls : List LimitKey)
    → (clamp key val hard ks).0 ≡ (clamp key val hard ls).0
unfolding clamp
clamp_keys key (finite z) hard ks ls = ground arith
clamp_keys key infinite hard ks ls = refl
clamp_keys key neg_infinite hard ks ls = refl
clamp_keys key nan hard ks ls = refl

limits_of_keys : (l : RawLimits) (ks ls : List LimitKey) → (limits_of l ks).0 ≡ (limits_of l ls).0
unfolding limits_of
limits_of_keys l ks ls =
    let ks₁ = (clamp sends_per_job l.max_sends_per_job hard_max_sends_per_job ks).1 in
    let ls₁ = (clamp sends_per_job l.max_sends_per_job hard_max_sends_per_job ls).1 in
    ground (
      arith,
      clamp_keys sends_per_job l.max_sends_per_job hard_max_sends_per_job ks ls,
      clamp_keys value_multiplier l.max_value_multiplier hard_max_value_multiplier ks₁ ls₁,
      clamp_keys sends_per_hour l.max_sends_per_hour hard_max_sends_per_hour
          (clamp value_multiplier l.max_value_multiplier hard_max_value_multiplier ks₁).1
          (clamp value_multiplier l.max_value_multiplier hard_max_value_multiplier ls₁).1,
    )

-- The limits in force depend on the configuration alone.
pub limits-SameFunds :
    {v w : World} → SameFunds v w → (effective_limits v).0 ≡ (effective_limits w).0
unfolding effective_limits dispatcher_rate_limits
limits-SameFunds {v} {w} h =
    ground
      (arith, h.config, limits_of_keys (dispatcher_rate_limits w) v.clamped_keys w.clamped_keys)

pub load-SameFunds : {v w : World} → SameFunds v w → load_send_history v ≡ load_send_history w
unfolding load_send_history
load-SameFunds h = rw h.history

pub effective-SameFunds : (w : World) → SameFunds (effective_limits w).1 w
unfolding effective_limits
effective-SameFunds w = ground arith

pub counterparty-SameFunds : (w : World) (s : Send) → SameFunds (counterparty_ok w s).1 w
unfolding counterparty_ok load_financial_allowlist
counterparty-SameFunds w s = ground arith

pub price-SameFunds :
    (w : World) (s : Send) (amount : ℤ) → SameFunds (price_for_limit w s amount).1 w
unfolding price_for_limit
price-SameFunds w s amount = ground (arith, effective-SameFunds w)

pub check-SameFunds :
    (w : World) (key : String) (amount : ℤ) (price : Number) (now : ℕ)
    → SameFunds (check_dispatcher_rate_limit w key amount price now).1 w
unfolding check_dispatcher_rate_limit
check-SameFunds w key amount price now = effective-SameFunds w

pub SameFunds-trans : {u v w : World} → SameFunds u v → SameFunds v w → SameFunds u w
SameFunds-trans h k = ground arith
