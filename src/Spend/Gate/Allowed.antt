-- ===== src/Spend/Gate/Allowed.antt =====
-- What an answer "allowed" of `gateExternalSend` in src/spend-policy.js rests on.
use j41_sovagent_dispatcher.Prelude.{
  ℕ, ℤ, pos, ltb_ℤ, ◌<ℤ◌, String, Number, finite, infinite, neg_infinite, nan, Bool, true, false,
  Option, none, some, [], ◌∷◌, ◌++◌, ◌≡◌, refl, sym, ◌∙◌, subst₂, arith, Bool-cases, ◌≢◌, subst,
  inl, inr,
}
use j41_sovagent_dispatcher.Spend.{
  Kind, refund, other, Reason, Checks, Decision, Send, pass, fail, World, gate_decision,
}
use j41_sovagent_dispatcher.Spend.RateLimits.{effective_limits}
use j41_sovagent_dispatcher.Spend.SendHistory.{
  load_send_history, RateResult, permitted, refused, check_dispatcher_rate_limit,
}
use j41_sovagent_dispatcher.Spend.SendHistory.Permitted.{WithinBudget, rate_limit-WithinBudget}
use j41_sovagent_dispatcher.Spend.Gate.Reads.{
  SameFunds, SameFunds-trans, effective-SameFunds, limits-SameFunds, load-SameFunds,
  counterparty-SameFunds, price-SameFunds, check-SameFunds,
}
use j41_sovagent_dispatcher.Spend.Answers.{
  is_external, is_known, limiter_key, sats_of, ledger_base, finish, no_checks, rate_check_field,
}
use j41_sovagent_dispatcher.Spend.Gate.{
  price_for_limit, counterparty_ok, over_hard_cap, cap_external, after_rate, rate_passed,
  counterparty_reason, rate_external, gate_amount, gate_external, gate_external_send,
}

-- The world after the answer holds the line that records it, and nothing else of the ledger changed.
abbrev pub Logged : World → Send → Decision × World → Type 0
Logged w s (d, w') =
    w'.ledger
    ≡ w.ledger
      ++ gate_decision (ledger_base s.kind s.job_id s.to_address s.amount s.amount_sats s.now) d
        ∷ []

finish-allowed :
    (w : World) (s : Send) (allowed retryable : Bool) (reason : Option Reason) (c : Checks)
    → (finish w s allowed retryable reason c).0.allowed ≡ true
    → (allowed ≡ true) × Logged w s (finish w s allowed retryable reason c)
unfolding finish
finish-allowed w s allowed retryable reason c h = ground arith

finish-denied :
    (w : World) (s : Send) (retryable : Bool) (reason : Option Reason) (c : Checks)
    → (finish w s false retryable reason c).0.allowed ≢ true
unfolding finish
finish-denied w s retryable reason c h = ground arith

cap-allowed :
    (w : World) (s : Send) (sats : Option Number) (c : Checks)
    → (cap_external w s sats c).0.allowed ≡ true
    → ((n : Number) × (sats ≡ some n) × (over_hard_cap n ≡ false))
      × Logged w s (cap_external w s sats c)
unfolding cap_external finish
cap-allowed w s none c h = absurd (ground arith)
cap-allowed w s (some n) c h = ((n, refl, ground arith), ground arith)

after_rate-allowed :
    (w : World) (s : Send) (r : RateResult) (c : Checks)
    → (after_rate w s r c).0.allowed ≡ true
    → (r ≡ permitted)
      × ((n : Number) × (sats_of s.amount_sats s.amount ≡ some n) × (over_hard_cap n ≡ false))
      × Logged w s (after_rate w s r c)
unfolding after_rate
after_rate-allowed w s (refused retryable reason) c h =
    absurd
      (ground (arith, finish-allowed w s false retryable (some reason) (rate_check_field c reason)))
after_rate-allowed w s permitted c h =
    let (n, log) = cap-allowed w s (sats_of s.amount_sats s.amount) (rate_passed c) h in
    (refl, n, log)

-- Everything that the gate has established of an external send when it allows it.
pub record Authorised (w : World) (s : Send) (amount : ℤ) : Type 0 where
  pub payee : (counterparty_ok w s).0 ≡ true
  pub running : w.suspended_file ≡ false
  pub budget :
      WithinBudget
        (effective_limits w).0
        (load_send_history w)
        (limiter_key s.kind s.job_id)
        amount
        (price_for_limit w s amount).0
        s.now
  pub capped : (n : Number) × (sats_of s.amount_sats s.amount ≡ some n) × (over_hard_cap n ≡ false)

-- A permission that the limiter gives in a world with the same funds holds in this one.
check-permitted :
    {v w : World} (key : String) (amount : ℤ) (price : Number) (now : ℕ)
    → SameFunds v w
    → (check_dispatcher_rate_limit v key amount price now).0 ≡ permitted
    → (w.suspended_file ≡ false)
      × WithinBudget (effective_limits w).0 (load_send_history w) key amount price now
unfolding check_dispatcher_rate_limit
check-permitted {v} {w} key amount price now same e =
    let same' = SameFunds-trans (effective-SameFunds v) same in
    let (running, budget) =
      rate_limit-WithinBudget (effective_limits v).0 (effective_limits v).1.suspended_file
        (load_send_history (effective_limits v).1) key amount price now e in
    (
      sym same'.running ∙ running,
      subst₂ (λ l h. WithinBudget l h key amount price now) (limits-SameFunds same)
          (load-SameFunds same') budget,
    )

rate_external-allowed :
    (v w : World) (s : Send) (amount : ℤ) (c : Checks)
    → SameFunds v w
    → (rate_external v s amount c).0.allowed ≡ true
    → (w.suspended_file ≡ false)
      × WithinBudget
          (effective_limits w).0
          (load_send_history w)
          (limiter_key s.kind s.job_id)
          amount
          (price_for_limit v s amount).0
          s.now
      × ((n : Number) × (sats_of s.amount_sats s.amount ≡ some n) × (over_hard_cap n ≡ false))
      × Logged w s (rate_external v s amount c)
unfolding rate_external
rate_external-allowed v w s amount c same h =
    let key = limiter_key s.kind s.job_id in
    let price = price_for_limit v s amount in
    let check = check_dispatcher_rate_limit price.1 key amount price.0 s.now in
    let priced = SameFunds-trans (price-SameFunds v s amount) same in
    let checked = SameFunds-trans (check-SameFunds price.1 key amount price.0 s.now) priced in
    let (e, cap, log) = after_rate-allowed check.1 s check.0 c h in
    let (running, budget) = check-permitted key amount price.0 s.now priced e in
    (running, budget, cap, ground (arith, log, checked.ledger))

-- The price for the ceiling does not depend on what the counterparty check wrote.
pub price_for_limit_same :
    {v w : World} (s : Send) (amount : ℤ)
    → SameFunds v w
    → (price_for_limit v s amount).0 ≡ (price_for_limit w s amount).0
unfolding price_for_limit
price_for_limit_same s amount same = ground (arith, limits-SameFunds same, load-SameFunds same)

gate_amount-allowed :
    (w : World) (s : Send) (amount : ℤ)
    → (gate_amount w s amount).0.allowed ≡ true
    → Authorised w s amount × Logged w s (gate_amount w s amount)
unfolding gate_amount
gate_amount-allowed w s amount h =
    let v = (counterparty_ok w s).1 in
    let same = counterparty-SameFunds w s in
    let c = record no_checks { counterparty = pass } in
    elim (Bool-cases (counterparty_ok w s).0) [
      | inl ok ↦
          let rest = rate_external-allowed v w s amount c same (rw ok at h) in
          (
            record {
              payee = ok;
              running = rest.0;
              budget =
                  subst
                    (λ p.
                      WithinBudget (effective_limits w).0 (load_send_history w)
                        (limiter_key s.kind s.job_id) amount p s.now)
                    (price_for_limit_same s amount same) rest.1;
              capped = rest.2;
            },
            rw ok rest.3,
          )
      | inr bad ↦ absurd (
          finish-denied v s false (some (counterparty_reason s.kind))
            (record no_checks { counterparty = fail }) (rw bad at h))
    ]

gate_external-allowed :
    (w : World) (s : Send) (n : Number)
    → (gate_external w s n).0.allowed ≡ true
    → ((amount : ℤ) × (n ≡ finite amount) × (pos 0 <ℤ amount) × Authorised w s amount)
      × Logged w s (gate_external w s n)
unfolding gate_external
gate_external-allowed w s (finite amount) h = elim (Bool-cases (ltb_ℤ (pos 0) amount)) [
  | inl more ↦
      let (auth, log) = gate_amount-allowed w s amount (rw more at h) in
      ((amount, refl, ground arith, auth), rw more log)
  | inr less ↦ absurd (finish-denied w s false _ _ (rw less at h))
]
gate_external-allowed w s infinite h = absurd (finish-denied w s false _ _ h)
gate_external-allowed w s neg_infinite h = absurd (finish-denied w s false _ _ h)
gate_external-allowed w s nan h = absurd (finish-denied w s false _ _ h)

pub known_of_external : (k : Kind) → is_external k ≡ true → is_known k ≡ true
known_of_external (other s) h = h
known_of_external refund _ = refl
known_of_external _ _ = refl

-- The gate allows an external send only where every one of its checks passes, and then the ledger has
-- one more line, which records the decision.
pub gate-Authorised :
    (w : World) (s : Send)
    → is_external s.kind ≡ true
    → (gate_external_send w s).0.allowed ≡ true
    → ((amount : ℤ) × (s.amount ≡ finite amount) × (pos 0 <ℤ amount) × Authorised w s amount)
      × Logged w s (gate_external_send w s)
unfolding gate_external_send
gate-Authorised w s ext h =
    let known = known_of_external s.kind ext in
    let (auth, log) = gate_external-allowed w s s.amount (rw (known, ext) at h) in
    (auth, rw (known, ext) log)
