-- ===== src/Deposits/Report.antt =====
-- A report of a deposit by its buyer in src/deposit-watcher.js: its authentication, and the half under the lock.
pub mod Replay
use j41_sovagent_dispatcher.Prelude.{
  ℕ, ◌+◌, ◌-◌, ◌*◌, ltb, leb, ℤ, pos, finite, String, Bool, true, false, not, ◌&&◌, ◌||◌, Option,
  none, some, [], ◌∷◌, ◌++◌, any, str_eq, if◌then◌else◌,
}
use j41_sovagent_dispatcher.NonceCache.{Outcome, ok, Seen, check_nonce_after_verify}
use j41_sovagent_dispatcher.Deposits.{
  PendingDeposit, Deposits, Desk, required_confirmations, clamp_credit,
}
use j41_sovagent_dispatcher.Deposits.Ledger.{has_credited_txid, intent, claim_txid, release_txid}
use j41_sovagent_dispatcher.Deposits.Identity.{Keys, resolve_credit_buyer_id}
use j41_sovagent_dispatcher.Deposits.Sender.{
  Verification, Platform, Refusal, already_processed, verification_failed, credit_write_failed,
  Standing, refused, going, check_sender,
}
use j41_sovagent_dispatcher.Deposits.Credit.{
  Fate, Committed, not_saved, died, locked_out, landed, commit_credit, mark_notify_owed,
}

abbrev pub deposit_report_max_age_ms : ℕ
deposit_report_max_age_ms = 300_000

-- A report; a text that is missing is empty, an amount that is missing is `none`, a timestamp that is missing is 0. The
-- timestamp is in seconds.
pub record Report : Type 0 where
  pub buyer : String
  pub seller : String
  pub txid : String
  pub amount : Option ℤ
  pub nonce : String
  pub timestamp : ℕ
  pub signature : String

pub data AuthFailure : Type 0 where
  missing_fields stale lookup_failed multisig_unsupported bad_signature replayed : AuthFailure

pub data Auth : Type 0 where
  authenticated : Auth
  rejected : AuthFailure → Auth

abbrev pub is_complete : Report → Bool
is_complete r =
    not (str_eq r.buyer "")
    && (not (str_eq r.seller "")
        && (not (str_eq r.txid "")
            && (elim r.amount [ none ↦ false | some a ↦ true ]
                && (not (str_eq r.nonce "")
                    && (leb 1 r.timestamp && not (str_eq r.signature ""))))))

-- `Math.abs(Date.now() - ts * 1000) > DEPOSIT_REPORT_MAX_AGE_MS`.
abbrev pub is_stale : ℕ → ℕ → Bool
is_stale now ts =
    ltb deposit_report_max_age_ms (now - ts * 1000)
    || ltb deposit_report_max_age_ms (ts * 1000 - now)

abbrev pub auth_of : Outcome × Seen → Auth × Seen
auth_of (ok, seen) = (authenticated, seen)
auth_of (_, seen) = (rejected replayed, seen)

-- The signature, then the nonce. `verify` is the check of the report's signature against an address.
unfoldable pub check_signature :
    (Report → String → Bool) → ℕ → Keys → Report → Seen → ℕ → Auth × Seen
check_signature verify max_entries keys r seen now =
    if ltb 1 keys.minimum_signatures
    then (rejected multisig_unsupported, seen)
    else if not (any (verify r) keys.primary)
    then (rejected bad_signature, seen)
    else auth_of (
        check_nonce_after_verify max_entries seen true r.nonce
          (finite (pos (r.timestamp * 1000 + deposit_report_max_age_ms * 2))) now)

-- `verifyDepositReport`; `keys` is `none` where the lookup throws.
unfoldable pub verify_deposit_report :
    (Report → String → Bool) → (String → Option Keys) → ℕ → Report → Seen → ℕ → Auth × Seen
verify_deposit_report verify keys max_entries r seen now =
    if not (is_complete r)
    then (rejected missing_fields, seen)
    else if is_stale now r.timestamp
    then (rejected stale, seen)
    else elim (keys r.buyer) [
      | none ↦ (rejected lookup_failed, seen)
      | some k ↦ check_signature verify max_entries k r seen now
    ]

pub data ReportAnswer : Type 0 where
  refusal : Refusal → ReportAnswer
  waiting : ℕ → ReportAnswer
  credited_now : ℤ → ReportAnswer
  no_answer : ReportAnswer

abbrev pub add_pending : Deposits → PendingDeposit → Deposits
add_pending d p =
    if any (λ q. str_eq q.txid p.txid) d.pending
    then d
    else record d { pending = d.pending ++ p ∷ [] }

-- `confirmations < required`: never, where the count is missing.
abbrev pub is_short : Option ℕ → ℕ → Bool
is_short none required = false
is_short (some c) required = ltb c required

abbrev pub count_or_zero : Option ℕ → ℕ
count_or_zero none = 0
count_or_zero (some c) = c

abbrev pub released : Desk → String → Desk
released k txid = record k { claims = release_txid txid k.claims }

-- What the report answers once the credit was tried. `notifies` says whether the agent has a notify context.
abbrev pub answer_of : Bool → String → Committed × Desk → ReportAnswer × Desk
answer_of notifies txid (not_saved, k) = (refusal verification_failed, released k txid)
answer_of notifies txid (died, k) = (no_answer, k)
answer_of notifies txid (locked_out, k) = (refusal credit_write_failed, k)
answer_of notifies txid (landed balance, k) =
    (credited_now balance, if notifies then mark_notify_owed k txid else k)

-- The credit, where the confirmations are not short and the ledger does not have the transaction.
unfoldable pub report_credit :
    Platform
    → Bool
    → Fate
    → Desk
    → String
    → String
    → ℤ
    → Verification
    → Option ℕ
    → ℕ
    → ReportAnswer × Desk
report_credit pf notifies fate k buyer txid amount v confirmations now =
    let (canonical, aliases) = resolve_credit_buyer_id (pf.keys buyer) buyer in
    answer_of notifies txid (
      commit_credit fate k
        (intent txid buyer (clamp_credit amount v.confirmed_amount) confirmations
          (leb (required_confirmations amount) 0 && ltb (count_or_zero confirmations) 1) now)
        canonical aliases now)

-- The confirmations: `none` is a call that throws. `k` has the claim.
unfoldable pub report_status :
    Platform
    → Bool
    → Fate
    → Desk
    → String
    → String
    → ℤ
    → Verification
    → ℕ
    → Option (Option ℕ)
    → ReportAnswer × Desk
report_status pf notifies fate k buyer txid amount v now none =
    (refusal verification_failed, released k txid)
report_status pf notifies fate k buyer txid amount v now (some confirmations) =
    let required = required_confirmations amount in
    if is_short confirmations required
    then (
      waiting (required - count_or_zero confirmations),
      released
          (record k {
            deposits =
                add_pending k.deposits
                  (record { txid = txid; buyer = buyer; amount = amount; required = required });
          })
          txid,
    )
    else if has_credited_txid k.deposits txid
    then (refusal already_processed, released k txid)
    else report_credit pf notifies fate k buyer txid amount v confirmations now

abbrev pub report_bound :
    Platform → Bool → Fate → Desk → String → String → ℤ → ℕ → Standing → ReportAnswer × Desk
report_bound pf notifies fate k buyer txid amount now (refused r) = (refusal r, released k txid)
report_bound pf notifies fate k buyer txid amount now (going accepted w) =
    report_status pf notifies fate k buyer txid amount w now pf.status

abbrev pub report_claimed :
    Platform
    → Bool
    → Fate
    → Desk
    → String
    → String
    → ℤ
    → ℕ
    → Option Verification
    → ReportAnswer × Desk
report_claimed pf notifies fate k buyer txid amount now none =
    (refusal verification_failed, released k txid)
report_claimed pf notifies fate k buyer txid amount now (some v) =
    report_bound pf notifies fate k buyer txid amount now (check_sender pf buyer v)

-- `_reportVerifiedDeposit`.
unfoldable pub report_verified_deposit :
    Platform → Bool → Fate → Desk → String → String → ℤ → ℕ → ReportAnswer × Desk
report_verified_deposit pf notifies fate k buyer txid amount now =
    let (won, claims) = claim_txid k txid in
    if won
    then report_claimed pf notifies fate (record k { claims = claims }) buyer txid amount now
        pf.verify
    else (refusal already_processed, k)
