-- ===== src/Spend/SendHistory/Permitted.antt =====
-- What a permission of the rate limiter in src/spend-policy.js says.
use j41_sovagent_dispatcher.Prelude.{
  ℕ, ℤ, pos, ◌≤ℤ◌, ◌<ℤ◌, ◌+ℤ◌, ◌*ℤ◌, String, Number, Bool, false, length, keep, last?, ◌≡◌, arith,
}
use j41_sovagent_dispatcher.Spend.{History, Limits}
use j41_sovagent_dispatcher.Spend.SendHistory.{
  sends_of, total_sent, is_recent, price_or, is_cooling, rate_limit, permitted,
}

pub record WithinBudget (lim : Limits) (h : History) (job_id : String) (amount : ℤ) (price : Number)
    (now : ℕ) : Type 0 where
  pub count_left : pos (length (sends_of job_id h)) <ℤ lim.max_sends_per_job
  pub value_left :
      (total_sent (sends_of job_id h) +ℤ amount) *ℤ pos 100
      ≤ℤ price_or price amount *ℤ lim.max_value_multiplier
  pub hour_left : pos (length (keep (is_recent now) h.global)) <ℤ lim.max_sends_per_hour
  pub cooled : is_cooling (last? (sends_of job_id h)) lim now ≡ false

pub rate_limit-WithinBudget :
    (lim : Limits) (stopped : Bool) (h : History) (job_id : String) (amount : ℤ) (price : Number)
    (now : ℕ)
    → rate_limit lim stopped h job_id amount price now ≡ permitted
    → (stopped ≡ false) × WithinBudget lim h job_id amount price now
unfolding rate_limit
rate_limit-WithinBudget lim stopped h job_id amount price now e = ground arith

pub rate_limit_of-WithinBudget :
    (lim : Limits) (stopped : Bool) (h : History) (job_id : String) (amount : ℤ) (price : Number)
    (now : ℕ)
    → stopped ≡ false
    → WithinBudget lim h job_id amount price now
    → rate_limit lim stopped h job_id amount price now ≡ permitted
unfolding rate_limit
rate_limit_of-WithinBudget lim stopped h job_id amount price now e b = ground arith
