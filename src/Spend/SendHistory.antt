-- ===== src/Spend/SendHistory.antt =====
-- The send history of src/spend-policy.js and the rate limiter that reads it.
pub mod Permitted
pub mod Laws
use j41_sovagent_dispatcher.Prelude.{
  ℕ, ◌-◌, ℤ, pos, sub_ℕ, ltb_ℤ, leb_ℤ, ◌+ℤ◌, ◌*ℤ◌, ltb, String, Number, finite, ltb_num, Bool, true,
  false, Option, none, some, List, [], ◌∷◌, ◌++◌, Dict, get, put, length, keep, drop, last?,
  if◌then◌else◌,
}
use j41_sovagent_dispatcher.Spend.{
  missing, corrupt, holds, SendRecord, History, Limits, Reason, suspended, max_sends, exceeds_price,
  hourly_limit, cooldown_active, World,
}
use j41_sovagent_dispatcher.Spend.RateLimits.{effective_limits}

abbrev pub or_empty {ℓ} : {A : Type ℓ} → Option (List A) → List A
or_empty none = []
or_empty (some xs) = xs

unfoldable pub load_send_history : World → History
load_send_history w = elim w.history [
  | missing ↦ record { global = []; per_job = [] }
  | corrupt ↦ record { global = []; per_job = [] }
  | holds raw ↦ record { global = or_empty raw.global; per_job = or_empty raw.per_job }
]

-- A failed write is logged and otherwise ignored.
unfoldable pub save_send_history : World → History → World
save_send_history w h =
    if w.history_writable
    then record w { history = holds (record { global = some h.global; per_job = some h.per_job }) }
    else w

abbrev pub is_financially_suspended : World → Bool
is_financially_suspended w = w.suspended_file

unfoldable pub set_financial_suspended : World → Bool → World
set_financial_suspended w on = if w.suspended_writable then record w { suspended_file = on } else w

-- `H.perJob[jobId] || []`.
abbrev pub sends_of : String → History → List SendRecord
sends_of job_id h = or_empty (get h.per_job job_id)

unfoldable pub total_sent : List SendRecord → ℤ
total_sent [] = pos 0
total_sent (r ∷ rs) = r.amount +ℤ total_sent rs

-- `r.timestamp > now - 3_600_000`.
abbrev pub is_recent : ℕ → SendRecord → Bool
is_recent now r = ltb_ℤ (sub_ℕ now 3_600_000) (pos r.timestamp)

pub data RateResult : Type 0 where
  permitted : RateResult
  refused : Bool → Reason → RateResult

-- `price = Number.isFinite(jobPrice) && jobPrice > 0 ? jobPrice : amount`.
abbrev pub price_or : Number → ℤ → ℤ
price_or (finite p) amount = if ltb_ℤ (pos 0) p then p else amount
price_or _ amount = amount

-- Whether the last send to the job is too near.
abbrev pub is_cooling : Option SendRecord → Limits → ℕ → Bool
is_cooling none lim now = false
is_cooling (some r) lim now = ltb_num (finite (sub_ℕ now r.timestamp)) lim.cooldown_ms

-- The tests of `checkDispatcherRateLimit` in their order. The first answer that is `true` refuses.
unfoldable pub rate_limit : Limits → Bool → History → String → ℤ → Number → ℕ → RateResult
rate_limit lim stopped h job_id amount job_price now =
    let sends = sends_of job_id h in
    if stopped
    then refused true suspended
    else if leb_ℤ lim.max_sends_per_job (pos (length sends))
    then refused false max_sends
    else if ltb_ℤ (price_or job_price amount *ℤ lim.max_value_multiplier)
        ((total_sent sends +ℤ amount) *ℤ pos 100)
    then refused false exceeds_price
    else if leb_ℤ lim.max_sends_per_hour (pos (length (keep (is_recent now) h.global)))
    then refused true hourly_limit
    else if is_cooling (last? sends) lim now
    then refused true cooldown_active
    else permitted

unfoldable pub check_dispatcher_rate_limit : World → String → ℤ → Number → ℕ → RateResult × World
check_dispatcher_rate_limit w job_id amount job_price now =
    let (lim, w₁) = effective_limits w in
    (
      rate_limit lim (is_financially_suspended w₁) (load_send_history w₁) job_id amount job_price
          now,
      w₁,
    )

-- `JSON.stringify` writes a number that is not finite as null, which adds nothing to a sum.
abbrev pub stored_amount : Number → ℤ
stored_amount (finite z) = z
stored_amount _ = pos 0

-- The most recently added 5000 keys.
abbrev trim : Dict (List SendRecord) → Dict (List SendRecord)
trim m = if ltb 5000 (length m) then drop (length m - 5000) m else m

-- The body of `_recordDispatcherSendLocked` between the load and the save.
unfoldable pub record_send : History → String → Number → ℕ → History
record_send h job_id amount now =
    let r : SendRecord = record { timestamp = now; amount = stored_amount amount } in
    record {
      global = keep (is_recent now) (h.global ++ r ∷ []);
      per_job = trim (put h.per_job job_id (sends_of job_id h ++ r ∷ []));
    }

unfoldable pub record_dispatcher_send : World → String → Number → ℕ → World
record_dispatcher_send w job_id amount now =
    save_send_history w (record_send (load_send_history w) job_id amount now)
