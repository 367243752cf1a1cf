-- ===== src/Deposits/Report/Replay.antt =====
-- Reports of src/deposit-watcher.js that are sent again, over the nonces of src/nonce-cache.js.
use j41_sovagent_dispatcher.Prelude.{
  if-elim, ℕ, ◌+◌, ◌*◌, ◌≤◌, ◌<◌, finite, pos, String, Bool, true, false, not, Option, none, some,
  List, [], ◌∷◌, length, ◌≡◌, refl, sym, arith,
}
use j41_sovagent_dispatcher.NonceCache.{
  Outcome, ok, replay, invalid_nonce, signature_invalid, Seen, Event, ttl_of,
  check_nonce_after_verify, run,
}
use j41_sovagent_dispatcher.NonceCache.Replay.{AllBefore, verified_count, check-replays}
use j41_sovagent_dispatcher.Deposits.Identity.{Keys}
use j41_sovagent_dispatcher.Deposits.Report.{
  Report, Auth, authenticated, rejected, lookup_failed, deposit_report_max_age_ms, is_complete,
  is_stale, auth_of, check_signature, verify_deposit_report,
}

-- The time until which the nonce of a report is kept.
abbrev pub kept_until : Report → ℕ
kept_until r = r.timestamp * 1000 + deposit_report_max_age_ms * 2

abbrev nonce_check : ℕ → Report → Seen → ℕ → Outcome × Seen
nonce_check cap r seen now =
    check_nonce_after_verify cap seen true r.nonce (finite (pos (kept_until r))) now

auth-ok : (o : Outcome × Seen) → (auth_of o).0 ≡ authenticated → (o.0 ≡ ok) × ((auth_of o).1 ≡ o.1)
auth-ok (ok, seen) h = (refl, refl)
auth-ok (replay, seen) h = absurd (cc h)
auth-ok (invalid_nonce, seen) h = absurd (cc h)
auth-ok (signature_invalid, seen) h = absurd (cc h)

signature-ok :
    (verify : Report → String → Bool) (cap : ℕ) (keys : Keys) (r : Report) (seen : Seen) (now : ℕ)
    → (check_signature verify cap keys r seen now).0 ≡ authenticated
    → ((nonce_check cap r seen now).0 ≡ ok)
      × ((check_signature verify cap keys r seen now).1 ≡ (nonce_check cap r seen now).1)
unfolding check_signature
signature-ok verify cap keys r seen now h = ground (arith, h, auth-ok (nonce_check cap r seen now))

-- What an authenticated report passed.
abbrev Passed : ℕ → Report → Seen → ℕ → Auth × Seen → Type 0
Passed cap r seen now a =
    a.0 ≡ authenticated
    → (is_stale now r.timestamp ≡ false)
      × ((nonce_check cap r seen now).0 ≡ ok)
      × (a.1 ≡ (nonce_check cap r seen now).1)

authenticated-ok :
    (verify : Report → String → Bool) (keys : String → Option Keys) (cap : ℕ) (r : Report)
    (seen : Seen) (now : ℕ)
    → Passed cap r seen now (verify_deposit_report verify keys cap r seen now)
unfolding verify_deposit_report
authenticated-ok verify keys cap r seen now =
    if-elim (Passed cap r seen now) (not (is_complete r)) _ _ (λ _ h. absurd (cc h))
      (λ _.
        if-elim (Passed cap r seen now) (is_stale now r.timestamp) _ _ (λ _ h. absurd (cc h))
          (λ s.
            elim (keys r.buyer)
              as (λ o. Passed cap r seen now (elim o as (λ _. Auth × Seen) [
                | none ↦ (rejected lookup_failed, seen)
                | some k ↦ check_signature verify cap k r seen now
              ])) [
                | none ↦ λ h. absurd (cc h)
                | some k ↦ λ h. let (o, e) = signature-ok verify cap k r seen now h in (s, o, e)
              ]))

AllBefore-mono : (a b : ℕ) (events : List Event) → a ≤ b → AllBefore a events → AllBefore b events
AllBefore-mono a b [] h before = tt
AllBefore-mono a b (e ∷ rest) h (now, before) =
    (omega (arith, now, h), AllBefore-mono a b rest h before)

fresh-before : (r : Report) (now : ℕ) → is_stale now r.timestamp ≡ false → now < kept_until r
fresh-before r now h = ground (arith, h)

ttl_of-fresh :
    (r : Report) (now : ℕ)
    → is_stale now r.timestamp ≡ false
    → ttl_of (finite (pos (kept_until r))) now ≡ kept_until r
unfolding ttl_of
ttl_of-fresh r now h = ground (arith, fresh-before r now h)

-- A report that is authenticated is never authenticated again, whatever keys the platform then answers: until its nonce
-- expires it is a replay, and after that it is stale. The envelopes and sweeps in between come before the
-- second time, and the verified ones among them fit under the cap of the cache.
pub verify_deposit_report-once :
    (verify : Report → String → Bool) (keys later_keys : String → Option Keys) (cap : ℕ)
    (r : Report) (seen : Seen) (now later : ℕ) (events : List Event)
    → let (answer, after) = verify_deposit_report verify keys cap r seen now in
      answer ≡ authenticated
      → AllBefore later events
      → length after + verified_count events ≤ cap
      → ¬ (
          (verify_deposit_report verify later_keys cap r (run cap after events) later).0
          ≡ authenticated)
verify_deposit_report-once verify keys later_keys cap r seen now later events h before room again =
    let (fresh, accepted, same) = authenticated-ok verify keys cap r seen now h in
    let after = (verify_deposit_report verify keys cap r seen now).1 in
    let (fresh_again, accepted_again, _) =
      authenticated-ok verify later_keys cap r (run cap after events) later again in
    let expires = finite (pos (kept_until r)) in
    let until = ttl_of-fresh r now fresh in
    let live = fresh-before r later fresh_again in
    let refused =
      check-replays cap seen r.nonce expires expires now later events accepted
        (rw until (AllBefore-mono later (kept_until r) events (omega (arith, live)) before))
        (rw (sym same) room) (rw until live) in
    let accepted_later : (nonce_check cap r (run cap (nonce_check cap r seen now).1 events) later).0
        ≡ ok =
      rw (sym same) accepted_again in
    absurd (cc refused)
