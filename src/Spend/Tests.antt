-- ===== src/Spend/Tests.antt =====
-- The outbound-money policy of src/spend-policy.js at concrete inputs.
use j41_sovagent_dispatcher.Prelude.{
  ◌≤◌, pos, finite, nan, infinite, true, false, none, some, List, [], ◌∷◌, get, put, ◌+ℤ◌, ◌*ℤ◌,
  length, keep, ◌≡◌, ◌≢◌, refl, arith, any, str_eq,
}
use j41_sovagent_dispatcher.Spend.{
  refund, payment, other, Send, World, Decision, fresh, unknown_kind, exceeds_price,
  cooldown_active,
}
use j41_sovagent_dispatcher.Spend.RateLimits.{
  dispatcher_rate_limits, clamp, limits_of, effective_limits,
}
use j41_sovagent_dispatcher.Spend.RateLimits.Ceilings.{
  WithinCeilings, effective_limits-WithinCeilings,
}
use j41_sovagent_dispatcher.Spend.Addresses.{
  load_financial_allowlist, is_address_in_allowlist, add_active_job_to_allowlist,
  remove_active_job_from_allowlist, add_to_refund_allowlist,
}
use j41_sovagent_dispatcher.Spend.Addresses.Laws.{
  add_active_job-allows, remove_active_job-gone, add_to_refund-allows,
}
use j41_sovagent_dispatcher.Spend.SendHistory.{
  load_send_history, save_send_history, sends_of, total_sent, is_recent, rate_limit,
  check_dispatcher_rate_limit, record_send, record_dispatcher_send,
}
use j41_sovagent_dispatcher.Spend.Answers.{limiter_key, amount_sats, sats_of, ledger_base, finish}
use j41_sovagent_dispatcher.Spend.Gate.{
  deposit_scoped_job_price, price_for_limit, counterparty_ok, cap_external, after_rate,
  rate_external, gate_amount, gate_external, gate_self, gate_external_send, record_send_outcome,
}
use j41_sovagent_dispatcher.Spend.Gate.Refusals.{is_transient, gate-Retries, limiter_key-ne}
use j41_sovagent_dispatcher.Spend.Session.{
  recorded, unrecorded, Attempt, Trace, attempt, run_from, run, records_of, records,
}
use j41_sovagent_dispatcher.Spend.Session.Keeps.{Keeps, gate-Keeps}
use j41_sovagent_dispatcher.Spend.Session.Caps.{run-Caps}
use j41_sovagent_dispatcher.Spend.Session.Hourly.{run-Hourly}

-- The gate with all its steps open.
gate_open : World → Send → Decision × World
unfolding gate_external_send gate_external gate_self gate_amount counterparty_ok rate_external
    price_for_limit deposit_scoped_job_price check_dispatcher_rate_limit effective_limits limits_of
    dispatcher_rate_limits clamp load_send_history rate_limit get total_sent ◌*ℤ◌ ◌+ℤ◌ after_rate
    cap_external finish sats_of amount_sats ledger_base limiter_key load_financial_allowlist
    is_address_in_allowlist
gate_open = gate_external_send

session_open : World → List Attempt → World × Trace
unfolding gate_open run run_from attempt record_send_outcome record_dispatcher_send
    save_send_history record_send put
session_open = run

-- 5 VRSC to the expected seller.
abbrev pay : Send
pay = record {
  kind = payment;
  job_id = "job-1";
  to_address = "seller";
  amount = finite (pos 500_000_000);
  amount_sats = none;
  job_price = finite (pos 500_000_000);
  expected_recipients = some ("seller" ∷ []);
  now = 7_200_000;
}

pay_twice :
    (gate_external_send (record_send_outcome fresh pay none none) pay).0.reason ≡ some exceeds_price
unfolding session_open
pay_twice = refl

too_soon :
    (gate_external_send
      (record_send_outcome fresh pay none none)
      (record pay { job_price = finite (pos 2_000_000_000); now = 7_210_000 })).0.reason
    ≡ some cooldown_active
unfolding session_open
too_soon = refl

unknown_kind_refused :
    (gate_external_send fresh (record pay { kind = other "gift" })).0.reason ≡ some unknown_kind
unfolding gate_open
unknown_kind_refused = refl

gate-Retries_example :
    let d = (gate_external_send (record fresh { suspended_file = true }) pay).0 in
    d.retryable ≡ is_transient d.reason
gate-Retries_example = gate-Retries (record fresh { suspended_file = true }) pay

gate-Keeps_example : Keeps (gate_external_send fresh pay).1 fresh
gate-Keeps_example = gate-Keeps fresh pay

limiter_key-ne_example : limiter_key refund "job-1" ≢ limiter_key payment "job-1"
limiter_key-ne_example = limiter_key-ne refund payment "job-1" refl refl (λ e. cc)

-- A configuration that asks for more than the ceilings.
abbrev greedy : World
greedy = record fresh {
  config = some (record {
    max_sends_per_job = finite (pos 5000);
    max_value_multiplier = infinite;
    max_sends_per_hour = finite (pos 101);
    cooldown_ms = nan;
  });
}

effective_limits-WithinCeilings_example : WithinCeilings (effective_limits greedy).0
effective_limits-WithinCeilings_example = effective_limits-WithinCeilings greedy

abbrev attempts : List Attempt
attempts =
    record { send = pay; aftermath = recorded "tx1" 7_200_000 }
    ∷ record { send = record pay { now = 7_210_000 }; aftermath = recorded "tx2" 7_210_500 }
    ∷ record {
      send = record pay { job_id = "job-2"; now = 7_220_000 };
      aftermath = unrecorded "tx3";
    }
    ∷ []

no_history : load_send_history fresh ≡ record { global = []; per_job = [] }
unfolding load_send_history
no_history = refl

run-Caps_example :
    (length (records_of "payment:job-1" (run fresh attempts).1) ≤ 10)
    × (sends_of "payment:job-1" (load_send_history (run fresh attempts).0)
        ≡ records_of "payment:job-1" (run fresh attempts).1)
run-Caps_example =
    run-Caps fresh attempts refl no_history (refl, (refl, (refl, tt))) (omega arith) "payment:job-1"

-- One send is recorded: the second asks for more than the price, the third is broadcast but not recorded.
one_recorded : length (records (run fresh attempts).1) ≡ 1
unfolding session_open
one_recorded = refl

run-Hourly_example : length (keep (is_recent 7_230_000) (records (run fresh attempts).1)) ≤ 100
run-Hourly_example =
    run-Hourly fresh attempts 7_230_000 refl no_history (refl, (refl, (refl, tt)))
      (omega arith, omega arith, (omega arith, omega arith, (omega arith, omega arith, tt)))
      (omega arith)

add_active_job-allows_example :
    is_address_in_allowlist
      (load_financial_allowlist (add_active_job_to_allowlist fresh "job-1" "buyer")).0
      "buyer"
    ≡ true
unfolding load_financial_allowlist
add_active_job-allows_example = (add_active_job-allows fresh "job-1" "buyer" refl refl).0

remove_active_job-gone_example :
    any
      (λ e. str_eq e.job_id "job-1")
      (load_financial_allowlist (remove_active_job_from_allowlist fresh "job-1")).0.active_jobs
    ≡ false
remove_active_job-gone_example = (remove_active_job-gone fresh "job-1" refl).0

add_to_refund-allows_example : (add_to_refund_allowlist fresh "buyer" "job-1").0 ≡ true
add_to_refund-allows_example = (add_to_refund-allows fresh "job-1" "buyer" "job-1").0
