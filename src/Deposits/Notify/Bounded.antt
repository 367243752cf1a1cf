-- ===== src/Deposits/Notify/Bounded.antt =====
-- How often the retries of src/deposit-watcher.js send.
use j41_sovagent_dispatcher.Prelude.{
  ℕ, suc, ◌+◌, ◌-◌, ◌*◌, ◌≤◌, true, false, List, [], ◌∷◌, length, ◌≡◌, ◌⊎◌, inl, inr, refl, ◌∙◌,
  Bool-cases, arith, if◌then◌else◌,
}
use j41_sovagent_dispatcher.Deposits.{Processed, Notice, Desk}
use j41_sovagent_dispatcher.Deposits.Notify.{
  Sent, delivered, permanent, postponed, is_owing, after_send, retry_all, retry_pending_notifies,
  Tick, sends_over,
}

-- The sends that a record has left.
abbrev left : Notice → ℕ
left n = if is_owing n then suc (7 - n.attempts) else 0

abbrev all_left : List Processed → ℕ
all_left [] = 0
all_left (r ∷ rs) = left r.notice + all_left rs

left-after :
    (now : ℕ) (s : Sent) (n : Notice) → is_owing n ≡ true → suc (left (after_send now s n)) ≤ left n
unfolding after_send
left-after now delivered n h = ground (arith, h)
left-after now permanent n h = ground (arith, h)
left-after now postponed n h = ground (arith, h)

retry-left :
    (send : Processed → Sent) (now : ℕ) (rs : List Processed)
    → (retry_all send now rs).0 + all_left (retry_all send now rs).1 ≤ all_left rs
unfolding retry_all
retry-left send now [] = omega arith
retry-left send now (r ∷ rs) =
    ground (arith, retry-left send now rs, left-after now (send r) r.notice)

retry-length :
    (send : Processed → Sent) (now : ℕ) (rs : List Processed)
    → length (retry_all send now rs).1 ≡ length rs
unfolding retry_all
retry-length send now [] = refl
retry-length send now (r ∷ rs) = ground (arith, retry-length send now rs)

retry-sent :
    (send : Processed → Sent) (now : ℕ) (rs : List Processed)
    → (retry_all send now rs).0 ≤ length rs
unfolding retry_all
retry-sent send now [] = omega arith
retry-sent send now (r ∷ rs) = ground (arith, retry-sent send now rs)

-- The ticks whose save fails.
abbrev pub unsaved : List Tick → ℕ
unsaved [] = 0
unsaved (t ∷ ts) = let n = unsaved ts in if t.saves then n else suc n

unsaved-fails :
    (t : Tick) (ts : List Tick) (n : ℕ)
    → t.saves ≡ false
    → n * unsaved (t ∷ ts) ≡ n + n * unsaved ts
unsaved-fails t ts n h = rw h (omega arith)

unsaved-any : (t : Tick) (ts : List Tick) (n : ℕ) → n * unsaved ts ≤ n * unsaved (t ∷ ts)
unsaved-any t ts n = elim (Bool-cases t.saves) [
  | inl e ↦ rw e (omega arith)
  | inr e ↦ rw e (omega arith)
]

-- A tick either uses up what is left, or its save fails.
tick-left :
    (k : Desk) (t : Tick)
    → let (sent, after) = retry_pending_notifies t.saves t.has_key t.send t.now k.deposits k in
      (length after.deposits.processed ≡ length k.deposits.processed)
      × ((sent + all_left after.deposits.processed ≤ all_left k.deposits.processed)
          ⊎ ((t.saves ≡ false)
              × (sent ≤ length k.deposits.processed)
              × (all_left after.deposits.processed ≤ all_left k.deposits.processed)))
unfolding retry_pending_notifies
tick-left k t =
    let rs = k.deposits.processed in
    (
      ground (arith, retry-length t.send t.now rs),
      ground (arith, retry-left t.send t.now rs, retry-sent t.send t.now rs),
    )

sends-left :
    (k : Desk) (ts : List Tick) (n : ℕ)
    → length k.deposits.processed ≡ n
    → sends_over k ts ≤ all_left k.deposits.processed + n * unsaved ts
unfolding sends_over
sends-left k [] n h = omega arith
sends-left k (t ∷ ts) n h =
    let after = (retry_pending_notifies t.saves t.has_key t.send t.now k.deposits k).1 in
    let (same, cases) = tick-left k t in
    elim cases [
      | inl uses ↦ omega (arith, sends-left after ts n (same ∙ h), unsaved-any t ts n)
      | inr (fails, few, less) ↦
          omega (arith, sends-left after ts n (same ∙ h), unsaved-fails t ts n fails)
    ]

left-length : (rs : List Processed) → all_left rs ≤ 8 * length rs
left-length [] = omega arith
left-length (r ∷ rs) = ground (arith, left-length rs)

-- However long the poller runs, the retries send at most eight times for each record of the ledger, and once more for each
-- record at each tick whose save fails, where nothing else writes the ledger in between.
pub sends_over-bound :
    (k : Desk) (ts : List Tick)
    → sends_over k ts ≤ 8 * length k.deposits.processed + length k.deposits.processed * unsaved ts
sends_over-bound k ts =
    omega
      (arith, sends-left k ts (length k.deposits.processed) refl, left-length k.deposits.processed)
