-- ===== src/Spend/Session/Keeps.antt =====
-- The gate of src/spend-policy.js and the send history.
use j41_sovagent_dispatcher.Prelude.{
  ℤ, Number, finite, infinite, neg_infinite, nan, Bool, false, Option, none, some, ◌≡◌, arith,
  Bool-cases, inl, inr, ltb_ℤ, pos,
}
use j41_sovagent_dispatcher.Spend.{Reason, Checks, Send, World, unknown_kind}
use j41_sovagent_dispatcher.Spend.SendHistory.{load_send_history, RateResult, permitted, refused}
use j41_sovagent_dispatcher.Spend.Answers.{limiter_key, finish, no_checks}
use j41_sovagent_dispatcher.Spend.Gate.{
  price_for_limit, counterparty_ok, cap_external, after_rate, rate_external, gate_amount,
  gate_external, gate_self, gate_external_send,
}
use j41_sovagent_dispatcher.Spend.Gate.Reads.{
  SameFunds, counterparty-SameFunds, price-SameFunds, check-SameFunds,
}

pub record Keeps (v w : World) : Type 0 where
  pub history : v.history ≡ w.history
  pub kept : v.history_writable ≡ w.history_writable

of_SameFunds : {v w : World} → SameFunds v w → Keeps v w
of_SameFunds h = record { history = h.history; kept = h.kept }

Keeps-trans : {u v w : World} → Keeps u v → Keeps v w → Keeps u w
Keeps-trans h k = ground arith

finish-Keeps :
    (w : World) (s : Send) (allowed retryable : Bool) (reason : Option Reason) (c : Checks)
    → Keeps (finish w s allowed retryable reason c).1 w
unfolding finish
finish-Keeps w s allowed retryable reason c = ground arith

cap-Keeps :
    (w : World) (s : Send) (sats : Option Number) (c : Checks) → Keeps (cap_external w s sats c).1 w
unfolding cap_external finish
cap-Keeps w s none c = ground arith
cap-Keeps w s (some n) c = ground arith

after_rate-Keeps :
    (w : World) (s : Send) (r : RateResult) (c : Checks) → Keeps (after_rate w s r c).1 w
unfolding after_rate
after_rate-Keeps w s (refused retryable reason) c = finish-Keeps w s false _ _ _
after_rate-Keeps w s permitted c = cap-Keeps w s _ _

rate_external-Keeps :
    (w : World) (s : Send) (amount : ℤ) (c : Checks) → Keeps (rate_external w s amount c).1 w
unfolding rate_external
rate_external-Keeps w s amount c =
    let price = price_for_limit w s amount in
    let key = limiter_key s.kind s.job_id in
    Keeps-trans (after_rate-Keeps _ s _ c) (
      Keeps-trans (of_SameFunds (check-SameFunds price.1 key amount price.0 s.now))
        (of_SameFunds (price-SameFunds w s amount)))

gate_amount-Keeps : (w : World) (s : Send) (amount : ℤ) → Keeps (gate_amount w s amount).1 w
unfolding gate_amount
gate_amount-Keeps w s amount =
    let v = (counterparty_ok w s).1 in
    let same = of_SameFunds (counterparty-SameFunds w s) in
    elim (Bool-cases (counterparty_ok w s).0) [
      | inl ok ↦ rw ok (Keeps-trans (rate_external-Keeps v s amount _) same)
      | inr bad ↦ rw bad (Keeps-trans (finish-Keeps v s false _ _ _) same)
    ]

gate_external-Keeps : (w : World) (s : Send) (n : Number) → Keeps (gate_external w s n).1 w
unfolding gate_external
gate_external-Keeps w s (finite amount) = elim (Bool-cases (ltb_ℤ (pos 0) amount)) [
  | inl more ↦ rw more (gate_amount-Keeps w s amount)
  | inr less ↦ rw less (finish-Keeps w s false _ _ _)
]
gate_external-Keeps w s infinite = finish-Keeps w s false _ _ _
gate_external-Keeps w s neg_infinite = finish-Keeps w s false _ _ _
gate_external-Keeps w s nan = finish-Keeps w s false _ _ _

gate_self-Keeps : (w : World) (s : Send) → Keeps (gate_self w s).1 w
unfolding gate_self finish
gate_self-Keeps w s = ground arith

-- Whatever it answers, the gate leaves the send history as it was.
pub gate-Keeps : (w : World) (s : Send) → Keeps (gate_external_send w s).1 w
unfolding gate_external_send
gate-Keeps w s = ground (
  arith,
  gate_external-Keeps w s s.amount,
  gate_self-Keeps w s,
  finish-Keeps w s false false (some unknown_kind) no_checks,
)

pub load-Keeps : {v w : World} → Keeps v w → load_send_history v ≡ load_send_history w
unfolding load_send_history
load-Keeps h = rw h.history
