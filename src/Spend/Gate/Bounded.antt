-- ===== src/Spend/Gate/Bounded.antt =====
-- The numbers that the gate of src/spend-policy.js keeps to.
use j41_sovagent_dispatcher.Prelude.{
  ℤ, pos, ◌<◌, ◌≤ℤ◌, ◌<ℤ◌, ◌+ℤ◌, Number, finite, infinite, true, false, Option, none, some, length,
  keep, ◌≡◌, ◌≢◌, sym, ap, ◌∙◌, arith, le-double,
}
use j41_sovagent_dispatcher.Spend.{refund, deposit, Send, World}
use j41_sovagent_dispatcher.Spend.RateLimits.{hard_max_single_send_sats, effective_limits}
use j41_sovagent_dispatcher.Spend.RateLimits.Ceilings.{effective_limits-WithinCeilings}
use j41_sovagent_dispatcher.Spend.Addresses.{load_financial_allowlist, is_address_in_allowlist}
use j41_sovagent_dispatcher.Spend.SendHistory.{
  load_send_history, sends_of, total_sent, is_recent, price_or,
}
use j41_sovagent_dispatcher.Spend.Answers.{is_external, limiter_key, sats_of}
use j41_sovagent_dispatcher.Spend.Gate.{
  over_hard_cap, price_for_limit, counterparty_ok, gate_external_send, expects,
}
use j41_sovagent_dispatcher.Spend.Gate.Allowed.{Authorised, Logged, gate-Authorised}

pub record IsBounded (w : World) (s : Send) (amount : ℤ) : Type 0 where
  pub positive : pos 0 <ℤ amount
  pub running : w.suspended_file ≡ false
  pub refund_payee :
      s.kind ≡ refund → is_address_in_allowlist (load_financial_allowlist w).0 s.to_address ≡ true
  pub other_payee : s.kind ≢ refund → expects s.expected_recipients s.to_address ≡ true
  pub few : length (sends_of (limiter_key s.kind s.job_id) (load_send_history w)) < 10
  pub hourly : length (keep (is_recent s.now) (load_send_history w).global) < 100
  pub value :
      s.kind ≢ deposit
      → total_sent (sends_of (limiter_key s.kind s.job_id) (load_send_history w)) +ℤ amount
        ≤ℤ price_or s.job_price amount +ℤ price_or s.job_price amount
  pub capped : s.amount_sats ≡ none → amount ≤ℤ hard_max_single_send_sats
  pub named_capped :
      (sats : ℤ) → s.amount_sats ≡ some (finite sats) → sats ≤ℤ hard_max_single_send_sats
  pub named_finite : s.amount_sats ≢ some infinite

price_or_nonneg : (n : Number) (amount : ℤ) → pos 0 <ℤ amount → pos 0 ≤ℤ price_or n amount
price_or_nonneg (finite z) amount h = ground arith
price_or_nonneg _ amount h = omega arith

given_price :
    (w : World) (s : Send) (amount : ℤ)
    → s.kind ≢ deposit
    → (price_for_limit w s amount).0 ≡ s.job_price
unfolding price_for_limit
given_price w s amount h = ground arith

payee_of_refund :
    (w : World) (s : Send)
    → (counterparty_ok w s).0 ≡ true
    → s.kind ≡ refund
    → is_address_in_allowlist (load_financial_allowlist w).0 s.to_address ≡ true
unfolding counterparty_ok
payee_of_refund w s h e = ground arith

payee_of_other :
    (w : World) (s : Send)
    → (counterparty_ok w s).0 ≡ true
    → s.kind ≢ refund
    → expects s.expected_recipients s.to_address ≡ true
unfolding counterparty_ok
payee_of_other w s h e = ground arith

cap_of_sats :
    (o : Option Number) (n : Number) (amount : ℤ)
    → sats_of o (finite amount) ≡ some n
    → over_hard_cap n ≡ false
    → o ≡ none
    → amount ≤ℤ hard_max_single_send_sats
unfolding sats_of
cap_of_sats (some m) n amount e under h = absurd (ground arith)
cap_of_sats none n amount e under h = ground arith

cap_of_named :
    (o : Option Number) (n amount : Number) (sats : ℤ)
    → sats_of o amount ≡ some n
    → over_hard_cap n ≡ false
    → o ≡ some (finite sats)
    → sats ≤ℤ hard_max_single_send_sats
unfolding sats_of
cap_of_named none n amount sats e under h = absurd (ground arith)
cap_of_named (some m) n amount sats e under h = ground arith

finite_of_named :
    (o : Option Number) (n amount : Number)
    → sats_of o amount ≡ some n
    → over_hard_cap n ≡ false
    → o ≢ some infinite
unfolding sats_of
finite_of_named none n amount e under h = ground arith
finite_of_named (some m) n amount e under h = ground arith

Authorised-IsBounded :
    (w : World) (s : Send) (amount : ℤ)
    → s.amount ≡ finite amount
    → pos 0 <ℤ amount
    → Authorised w s amount
    → IsBounded w s amount
Authorised-IsBounded w s amount e more a =
    let lim = effective_limits-WithinCeilings w in
    let (n, sats, under) = a.capped in
    record {
      positive = more;
      running = a.running;
      refund_payee = payee_of_refund w s a.payee;
      other_payee = payee_of_other w s a.payee;
      few = omega (arith, a.budget.count_left, lim.per_job);
      hourly = omega (arith, a.budget.hour_left, lim.per_hour);
      value = λ h.
          le-double
            (total_sent (sends_of (limiter_key s.kind s.job_id) (load_send_history w)) +ℤ amount)
            (price_or s.job_price amount) (effective_limits w).0.max_value_multiplier
            (price_or_nonneg s.job_price amount more) lim.multiplier
            (rw (given_price w s amount h) at a.budget.value_left);
      capped = cap_of_sats s.amount_sats n amount (ap (sats_of s.amount_sats) (sym e) ∙ sats) under;
      named_capped = λ z h. cap_of_named s.amount_sats n s.amount z sats under h;
      named_finite = finite_of_named s.amount_sats n s.amount sats under;
    }

pub gate-IsBounded :
    (w : World) (s : Send)
    → is_external s.kind ≡ true
    → (gate_external_send w s).0.allowed ≡ true
    → ((amount : ℤ) × (s.amount ≡ finite amount) × IsBounded w s amount)
      × Logged w s (gate_external_send w s)
gate-IsBounded w s ext h =
    let ((amount, e, more, a), log) = gate-Authorised w s ext h in
    ((amount, e, Authorised-IsBounded w s amount e more a), log)
