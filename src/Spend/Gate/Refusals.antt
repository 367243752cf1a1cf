-- ===== src/Spend/Gate/Refusals.antt =====
-- The refusals of the gate in src/spend-policy.js: which may be retried, and what fails closed.
use j41_sovagent_dispatcher.Prelude.{
  ℕ, ℤ, pos, ltb_ℤ, Number, finite, infinite, neg_infinite, nan, String, Bool, true, false, Option,
  none, some, ◌≡◌, ◌≢◌, refl, sym, ap, arith, eq_iff, Bool-cases, inl, inr,
}
use Prim.Native.String.{count}
use mathlib.Core.Bool.{false≢true}
use text.Mathlib.TextLemmas.{length-append, append_inj}
use j41_sovagent_dispatcher.Spend.{
  Kind, refund, payment, deposit, fleet_transfer, fee_sweep, other, Reason, suspended, hourly_limit,
  cooldown_active, ledger_unwritable, unknown_kind, Checks, Decision, Send, World, Limits, History,
}
use j41_sovagent_dispatcher.Spend.SendHistory.{
  RateResult, permitted, refused, rate_limit, check_dispatcher_rate_limit,
}
use j41_sovagent_dispatcher.Spend.Answers.{is_external, limiter_key, finish, no_checks, ◌+++◌}
use j41_sovagent_dispatcher.Spend.Gate.{
  counterparty_ok, cap_external, after_rate, rate_external, gate_amount, gate_external, gate_self,
  gate_external_send,
}

-- The refusals that pass with time; every other one wants an operator.
abbrev pub is_transient : Option Reason → Bool
is_transient (some suspended) = true
is_transient (some hourly_limit) = true
is_transient (some cooldown_active) = true
is_transient (some ledger_unwritable) = true
is_transient _ = false

abbrev Retries : Decision × World → Type 0
Retries (d, w) = d.retryable ≡ is_transient d.reason

finish-Retries :
    (w : World) (s : Send) (allowed retryable : Bool) (reason : Option Reason) (c : Checks)
    → retryable ≡ is_transient reason
    → Retries (finish w s allowed retryable reason c)
unfolding finish
finish-Retries w s allowed retryable reason c h = ground arith

cap-Retries :
    (w : World) (s : Send) (sats : Option Number) (c : Checks) → Retries (cap_external w s sats c)
unfolding cap_external finish
cap-Retries w s none c = ground arith
cap-Retries w s (some n) c = ground arith

abbrev RateRetries : RateResult → Type 0
RateRetries r = (b : Bool) (reason : Reason) → r ≡ refused b reason → b ≡ is_transient (some reason)

rate_limit-Retries :
    (lim : Limits) (stopped : Bool) (h : History) (key : String) (amount : ℤ) (price : Number)
    (now : ℕ)
    → RateRetries (rate_limit lim stopped h key amount price now)
unfolding rate_limit
rate_limit-Retries lim stopped h key amount price now b reason e = ground arith

after_rate-Retries :
    (w : World) (s : Send) (r : RateResult) (c : Checks)
    → RateRetries r
    → Retries (after_rate w s r c)
unfolding after_rate
after_rate-Retries w s (refused b reason) c h = finish-Retries w s false b _ _ (h b reason refl)
after_rate-Retries w s permitted c h = cap-Retries w s _ _

rate_external-Retries :
    (w : World) (s : Send) (amount : ℤ) (c : Checks) → Retries (rate_external w s amount c)
unfolding rate_external check_dispatcher_rate_limit
rate_external-Retries w s amount c = after_rate-Retries _ s _ c (rate_limit-Retries _ _ _ _ _ _ _)

gate_amount-Retries : (w : World) (s : Send) (amount : ℤ) → Retries (gate_amount w s amount)
unfolding gate_amount
gate_amount-Retries w s amount = elim (Bool-cases (counterparty_ok w s).0) [
  | inl ok ↦ rw ok (rate_external-Retries _ s amount _)
  | inr bad ↦ rw bad (finish-Retries _ s false _ _ _ (ground arith))
]

gate_external-Retries : (w : World) (s : Send) (n : Number) → Retries (gate_external w s n)
unfolding gate_external
gate_external-Retries w s (finite amount) = elim (Bool-cases (ltb_ℤ (pos 0) amount)) [
  | inl more ↦ rw more (gate_amount-Retries w s amount)
  | inr less ↦ rw less (finish-Retries w s false _ _ _ refl)
]
gate_external-Retries w s infinite = finish-Retries w s false _ _ _ refl
gate_external-Retries w s neg_infinite = finish-Retries w s false _ _ _ refl
gate_external-Retries w s nan = finish-Retries w s false _ _ _ refl

gate_self-Retries : (w : World) (s : Send) → Retries (gate_self w s)
unfolding gate_self finish
gate_self-Retries w s = ground arith

-- Of every answer of the gate, for every kind: it is marked retryable exactly when its reason is the
-- outage suspension, the hourly limit, the cooldown or a ledger that cannot be written.
pub gate-Retries :
    (w : World) (s : Send)
    → let d = (gate_external_send w s).0 in d.retryable ≡ is_transient d.reason
unfolding gate_external_send
gate-Retries w s = ground (
  arith,
  gate_external-Retries w s s.amount,
  gate_self-Retries w s,
  finish-Retries w s false false (some unknown_kind) no_checks,
)

namespaced_ne : (p j : String) → j ≢ p +++ ":" +++ j
namespaced_ne p j e =
    let colon : count ":" ≡ 1 = refl in
    absurd (omega (arith, ap count e, length-append p (":" +++ j), length-append ":" j, colon))

prefix_ne : (p q j : String) → count p ≡ count q → p ≢ q → p +++ ":" +++ j ≢ q +++ ":" +++ j
prefix_ne p q j c ne e = ne (append_inj e c).0

payment-ne-deposit : ◌≢◌ {A = String} "payment" "deposit"
payment-ne-deposit e = false≢true ((eq_iff "payment" "deposit").1 e)

-- For one job the budgets of different paying kinds are apart: their limiter keys differ.
pub limiter_key-ne :
    (k l : Kind) (job_id : String)
    → is_external k ≡ true
    → is_external l ≡ true
    → k ≢ l
    → limiter_key k job_id ≢ limiter_key l job_id
unfolding limiter_key
limiter_key-ne refund refund j _ _ ne e = ne refl
limiter_key-ne refund payment j _ _ ne e = namespaced_ne "payment" j e
limiter_key-ne refund deposit j _ _ ne e = namespaced_ne "deposit" j e
limiter_key-ne payment refund j _ _ ne e = namespaced_ne "payment" j (sym e)
limiter_key-ne payment payment j _ _ ne e = ne refl
limiter_key-ne payment deposit j _ _ ne e =
    prefix_ne "payment" "deposit" j refl payment-ne-deposit e
limiter_key-ne deposit refund j _ _ ne e = namespaced_ne "deposit" j (sym e)
limiter_key-ne deposit payment j _ _ ne e =
    prefix_ne "deposit" "payment" j refl (λ h. payment-ne-deposit (sym h)) e
limiter_key-ne deposit deposit j _ _ ne e = ne refl
limiter_key-ne fleet_transfer _ _ h _ _ _ = cc
limiter_key-ne fee_sweep _ _ h _ _ _ = cc
limiter_key-ne (other s) _ _ h _ _ _ = cc
limiter_key-ne _ fleet_transfer _ _ h _ _ = cc
limiter_key-ne _ fee_sweep _ _ h _ _ = cc
limiter_key-ne _ (other s) _ _ h _ _ = cc
