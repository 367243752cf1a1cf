-- ===== src/Spend/Answers.antt =====
-- What the gate of src/spend-policy.js answers with: kinds, limiter keys, amounts in satoshis and the
-- ledger line of a decision.
use j41_sovagent_dispatcher.Prelude.{
  ℕ, pos, ltb_ℤ, String, Number, finite, Bool, true, false, Option, none, some, [], ◌∷◌, ◌++◌,
  str_eq, if◌then◌else◌,
}
use j41_sovagent_dispatcher.Spend.{
  Kind, refund, payment, deposit, fleet_transfer, fee_sweep, other, Reason, suspended, max_sends,
  exceeds_price, hourly_limit, cooldown_active, ledger_unwritable, skip, fail, Checks, Decision,
  Send, LedgerBase, gate_decision, World,
}

-- Membership in `EXTERNAL_KINDS` and `KNOWN_KINDS`.
abbrev pub is_external : Kind → Bool
is_external refund = true
is_external payment = true
is_external deposit = true
is_external _ = false

abbrev pub is_known : Kind → Bool
is_known (other s) = false
is_known _ = true

infixr 65 ◌+++◌
abbrev pub ◌+++◌ : String → String → String
s +++ t = Prim.Native.String.◌++◌ s t

abbrev pub kind_text : Kind → String
kind_text refund = "refund"
kind_text payment = "payment"
kind_text deposit = "deposit"
kind_text fleet_transfer = "fleet_transfer"
kind_text fee_sweep = "fee_sweep"
kind_text (other s) = s

-- A refund keeps the bare job id; every other kind has its own namespace.
unfoldable pub limiter_key : Kind → String → String
limiter_key refund job_id = job_id
limiter_key kind job_id = kind_text kind +++ ":" +++ job_id

-- `_amountSats`.
unfoldable pub amount_sats : Number → Option Number
amount_sats (finite z) = if ltb_ℤ (pos 0) z then some (finite z) else none
amount_sats _ = none

-- `s || null`.
abbrev or_null : String → Option String
or_null s = if str_eq s "" then none else some s

-- `amountSats != null ? amountSats : _amountSats(amount)`.
unfoldable pub sats_of : Option Number → Number → Option Number
unfolding amount_sats
sats_of (some n) amount = some n
sats_of none amount = amount_sats amount

unfoldable pub ledger_base : Kind → String → String → Number → Option Number → ℕ → LedgerBase
ledger_base kind job_id to_address amount override now = record {
  ts = now;
  kind = kind;
  job_id = or_null job_id;
  to_address = or_null to_address;
  amount_sats = sats_of override amount;
}

abbrev pub no_checks : Checks
no_checks = record {
  suspension = skip;
  counterparty = skip;
  per_job_cap = skip;
  value_ceiling = skip;
  hourly_cap = skip;
  cooldown = skip;
  absolute_cap = skip;
}

-- `_rateCheckField`.
abbrev pub rate_check_field : Checks → Reason → Checks
rate_check_field c max_sends = record c { per_job_cap = fail }
rate_check_field c exceeds_price = record c { value_ceiling = fail }
rate_check_field c hourly_limit = record c { hourly_cap = fail }
rate_check_field c cooldown_active = record c { cooldown = fail }
rate_check_field c suspended = record c { suspension = fail }
rate_check_field c _ = c

-- `finish`: an answer is logged first, and what cannot be logged is not allowed.
unfoldable pub finish : World → Send → Bool → Bool → Option Reason → Checks → Decision × World
finish w s allowed retryable reason checks =
    let base = ledger_base s.kind s.job_id s.to_address s.amount s.amount_sats s.now in
    let decision : Decision = record {
      allowed = allowed;
      retryable = retryable;
      reason = reason;
      checks = checks;
    } in
    if w.ledger_writable
    then (decision, record w { ledger = w.ledger ++ gate_decision base decision ∷ [] })
    else if allowed
    then (
      record {
        allowed = false;
        retryable = true;
        reason = some ledger_unwritable;
        checks = checks;
      },
      w,
    )
    else (decision, w)
