-- ===== src/Spend/RateLimits/Ceilings.antt =====
-- The limits of src/spend-policy.js and their compiled ceilings.
use j41_sovagent_dispatcher.Prelude.{
  ℤ, ◌≤ℤ◌, Number, finite, infinite, neg_infinite, nan, List, arith,
}
use j41_sovagent_dispatcher.Spend.{RawLimits, Limits, LimitKey, World}
use j41_sovagent_dispatcher.Spend.RateLimits.{
  hard_max_value_multiplier, hard_max_sends_per_job, hard_max_sends_per_hour, clamp, limits_of,
  effective_limits, dispatcher_rate_limits,
}

pub record WithinCeilings (l : Limits) : Type 0 where
  pub per_job : l.max_sends_per_job ≤ℤ hard_max_sends_per_job
  pub multiplier : l.max_value_multiplier ≤ℤ hard_max_value_multiplier
  pub per_hour : l.max_sends_per_hour ≤ℤ hard_max_sends_per_hour

clamp-le :
    (key : LimitKey) (val : Number) (hard : ℤ) (keys : List LimitKey)
    → (clamp key val hard keys).0 ≤ℤ hard
unfolding clamp
clamp-le key (finite z) hard keys = ground arith
clamp-le key infinite hard keys = omega arith
clamp-le key neg_infinite hard keys = omega arith
clamp-le key nan hard keys = omega arith

pub limits_of-WithinCeilings :
    (l : RawLimits) (keys : List LimitKey) → WithinCeilings (limits_of l keys).0
unfolding limits_of
limits_of-WithinCeilings l keys = record {
  per_job = clamp-le _ l.max_sends_per_job hard_max_sends_per_job _;
  multiplier = clamp-le _ l.max_value_multiplier hard_max_value_multiplier _;
  per_hour = clamp-le _ l.max_sends_per_hour hard_max_sends_per_hour _;
}

-- Whatever the configuration holds, the limits in force lie within the ceilings.
pub effective_limits-WithinCeilings : (w : World) → WithinCeilings (effective_limits w).0
unfolding effective_limits
effective_limits-WithinCeilings w =
    limits_of-WithinCeilings (dispatcher_rate_limits w) w.clamped_keys
