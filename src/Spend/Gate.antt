-- ===== src/Spend/Gate.antt =====
-- `gateExternalSend` and `recordSendOutcome` of src/spend-policy.js: the one way out for money.
pub mod Reads
pub mod Allowed
pub mod Bounded
pub mod Refusals
use j41_sovagent_dispatcher.Prelude.{
  ℕ, ℤ, pos, ltb_ℤ, ◌+ℤ◌, ◌*ℤ◌, String, Number, finite, ltb_num, Bool, true, false, Option, none,
  some, List, [], ◌∷◌, ◌++◌, any, str_eq, if◌then◌else◌,
}
use j41_sovagent_dispatcher.Spend.{
  Kind, refund, payment, deposit, fleet_transfer, fee_sweep, other, Reason, unknown_kind,
  uninterpretable_amount, refund_not_in_allowlist, payee_not_expected, suspended, max_sends,
  exceeds_price, hourly_limit, cooldown_active, uninterpretable_cap, over_cap, ledger_unwritable,
  Check, skip, pass, fail, warn, Checks, Decision, Send, LedgerBase, gate_decision,
  broadcast_outcome, World, Limits,
}
use j41_sovagent_dispatcher.Spend.RateLimits.{hard_max_single_send_sats, effective_limits}
use j41_sovagent_dispatcher.Spend.Answers.{
  amount_sats, finish, is_external, is_known, kind_text, ledger_base, limiter_key, no_checks,
  rate_check_field, sats_of, ◌+++◌,
}
use j41_sovagent_dispatcher.Spend.Addresses.{load_financial_allowlist, is_address_in_allowlist}
use j41_sovagent_dispatcher.Spend.SendHistory.{
  load_send_history, is_financially_suspended, sends_of, total_sent, RateResult, permitted, refused,
  check_dispatcher_rate_limit, record_dispatcher_send,
}

abbrev max_ℤ : ℤ → ℤ → ℤ
max_ℤ a b = if ltb_ℤ a b then b else a

abbrev positive_or_zero : Number → ℤ
positive_or_zero (finite z) = max_ℤ (pos 0) z
positive_or_zero _ = pos 0

-- `depositScopedJobPrice`.
unfoldable pub deposit_scoped_job_price : Limits → ℤ → Number → ℤ → ℤ
deposit_scoped_job_price lim amount job_price already_sent =
    let scoped = amount *ℤ lim.max_sends_per_job in
    let covered = max_ℤ (pos 0) already_sent +ℤ amount in
    max_ℤ (max_ℤ (positive_or_zero job_price) scoped) covered

-- `depositAlreadySent`.
abbrev deposit_already_sent : World → String → ℤ
deposit_already_sent w key = total_sent (sends_of key (load_send_history w))

-- The price that the value ceiling is computed from, by kind.
unfoldable pub price_for_limit : World → Send → ℤ → Number × World
price_for_limit w s amount = elim s.kind [
  | deposit ↦
      let (lim, w₁) = effective_limits w in
      (
        finite (
            deposit_scoped_job_price lim amount s.job_price
              (deposit_already_sent w (limiter_key deposit s.job_id))),
        w₁,
      )
  | _ ↦ (s.job_price, w)
]

abbrev pub expects : Option (List String) → String → Bool
expects none address = false
expects (some xs) address = any (λ a. str_eq a address) xs

-- The counterparty check, by kind.
unfoldable pub counterparty_ok : World → Send → Bool × World
counterparty_ok w s = elim s.kind [
  | refund ↦
      let (list, w₁) = load_financial_allowlist w in (is_address_in_allowlist list s.to_address, w₁)
  | _ ↦ (expects s.expected_recipients s.to_address, w)
]

abbrev pub counterparty_reason : Kind → Reason
counterparty_reason refund = refund_not_in_allowlist
counterparty_reason _ = payee_not_expected

abbrev pub over_hard_cap : Number → Bool
over_hard_cap sats = ltb_num (finite hard_max_single_send_sats) sats

-- Step 3 for an external kind: the absolute cap is terminal, also where it cannot be read.
unfoldable pub cap_external : World → Send → Option Number → Checks → Decision × World
cap_external w s none c =
    finish w s false false (some uninterpretable_cap) (record c { absolute_cap = fail })
cap_external w s (some sats) c =
    if over_hard_cap sats
    then finish w s false false (some over_cap) (record c { absolute_cap = fail })
    else finish w s true false none (record c { absolute_cap = pass })

-- Step 3 for a self-directed kind: the cap only warns.
abbrev cap_check : Option Number → Check
cap_check none = warn
cap_check (some sats) = if over_hard_cap sats then warn else pass

abbrev pub rate_passed : Checks → Checks
rate_passed c = record c {
  suspension = pass;
  per_job_cap = pass;
  value_ceiling = pass;
  hourly_cap = pass;
  cooldown = pass;
}

unfoldable pub after_rate : World → Send → RateResult → Checks → Decision × World
after_rate w s (refused retryable reason) c =
    finish w s false retryable (some reason) (rate_check_field c reason)
after_rate w s permitted c = cap_external w s (sats_of s.amount_sats s.amount) (rate_passed c)

-- Step 2 for an external kind, on the limiter's key.
unfoldable pub rate_external : World → Send → ℤ → Checks → Decision × World
rate_external w s amount c =
    let (price, w₁) = price_for_limit w s amount in
    let (result, w₂) =
      check_dispatcher_rate_limit w₁ (limiter_key s.kind s.job_id) amount price s.now in
    after_rate w₂ s result c

-- Steps 1 to 3 for an external kind whose amount is a finite positive number.
unfoldable pub gate_amount : World → Send → ℤ → Decision × World
gate_amount w s amount =
    let (authorised, w₁) = counterparty_ok w s in
    if authorised
    then rate_external w₁ s amount (record no_checks { counterparty = pass })
    else finish w₁ s false false (some (counterparty_reason s.kind))
        (record no_checks { counterparty = fail })

unfoldable pub gate_external : World → Send → Number → Decision × World
gate_external w s (finite amount) =
    if ltb_ℤ (pos 0) amount
    then gate_amount w s amount
    else finish w s false false (some uninterpretable_amount) no_checks
gate_external w s _ = finish w s false false (some uninterpretable_amount) no_checks

-- A self-directed kind is subject to the kill switch alone.
unfoldable pub gate_self : World → Send → Decision × World
gate_self w s =
    if is_financially_suspended w
    then finish w s false true (some suspended) (record no_checks { suspension = fail })
    else finish w s true false none (record no_checks {
      suspension = pass;
      absolute_cap = cap_check (sats_of s.amount_sats s.amount);
    })

unfoldable pub gate_external_send : World → Send → Decision × World
gate_external_send w s =
    if is_known s.kind
    then if is_external s.kind then gate_external w s s.amount else gate_self w s
    else finish w s false false (some unknown_kind) no_checks

-- Money has moved: an external kind uses up the budget that the gate read, and the audit line is
-- written if it can be.
unfoldable pub record_send_outcome : World → Send → Option String → Option String → World
record_send_outcome w s txid denial =
    let w₁ =
      if is_external s.kind
      then record_dispatcher_send w (limiter_key s.kind s.job_id) s.amount s.now
      else w in
    if w₁.ledger_writable
    then record w₁ {
      ledger =
          w₁.ledger
          ++ broadcast_outcome
              (ledger_base s.kind s.job_id s.to_address s.amount s.amount_sats s.now) txid denial
            ∷ [];
    }
    else w₁
