-- ===== src/Deposits/Notify.antt =====
-- The retries of notifications in src/deposit-watcher.js.
pub mod Bounded
use j41_sovagent_dispatcher.Prelude.{
  ℕ, suc, ◌+◌, ◌*◌, ◌^◌, min, leb, ltb, String, Bool, true, false, not, ◌&&◌, Option, none, some,
  List, [], ◌∷◌, if◌then◌else◌,
}
use j41_sovagent_dispatcher.Deposits.{
  Processed, Notice, GaveUp, rejected, exhausted, Deposits, Desk,
}

abbrev pub notify_max_attempts : ℕ
notify_max_attempts = 8

abbrev pub notify_backoff_base_ms : ℕ
notify_backoff_base_ms = 60_000

abbrev pub notify_backoff_max_ms : ℕ
notify_backoff_max_ms = 900_000

-- What the platform answers to a notification: it has it, it never will, or it could not take it now.
pub data Sent : Type 0 where
  delivered permanent postponed : Sent

-- `_pendingNotifies`.
abbrev pub is_owing : Notice → Bool
is_owing n = n.owed && elim n.gave_up [ none ↦ true | some g ↦ false ]

abbrev pub is_due : ℕ → Option ℕ → Bool
is_due now none = true
is_due now (some t) = leb t now

abbrev pub backoff : ℕ → ℕ
backoff attempts = min (notify_backoff_base_ms * 2 ^ attempts) notify_backoff_max_ms

abbrev pub postpone : ℕ → Notice → ℕ → Notice
postpone now n attempts =
    if leb notify_max_attempts attempts
    then record n { attempts = attempts; owed = false; gave_up = some exhausted }
    else record n { attempts = attempts; next_at = some (now + backoff attempts) }

unfoldable pub after_send : ℕ → Sent → Notice → Notice
after_send now delivered n = record n { owed = false; attempts = 0; next_at = none }
after_send now permanent n = record n { owed = false; gave_up = some rejected }
after_send now postponed n = postpone now n (suc n.attempts)

abbrev pub with_notice : Processed → Notice → Processed
with_notice r n = record r { notice = n }

-- The loop of `retryPendingNotifies`: how often it sends, and the records after it. `send` is what the platform answers.
unfoldable pub retry_all : (Processed → Sent) → ℕ → List Processed → ℕ × List Processed
retry_all send now [] = (0, [])
retry_all send now (r ∷ rs) =
    let (sent, rest) = retry_all send now rs in
    if is_owing r.notice && is_due now r.notice.next_at
    then (suc sent, with_notice r (after_send now (send r) r.notice) ∷ rest)
    else (sent, r ∷ rest)

-- The file after a retry that saves: what it loaded, with the outcomes. A retry that sent nothing saves nothing, and a
-- save that fails is swallowed.
abbrev pub retried : Bool → ℕ → Deposits → List Processed → Desk → Desk
retried saves sent loaded after k =
    if saves && ltb 0 sent then record k { deposits = record loaded { processed = after } } else k

-- `retryPendingNotifies`: it loads the ledger, sends, and then saves over what is in the file by that time; `saves` says
-- whether the save works, and `has_key` whether the context has the seller's key.
unfoldable pub retry_pending_notifies :
    Bool → Bool → (Processed → Sent) → ℕ → Deposits → Desk → ℕ × Desk
retry_pending_notifies saves has_key send now loaded k =
    let (sent, after) = retry_all send now loaded.processed in
    if has_key then (sent, retried saves sent loaded after k) else (0, k)

-- A tick of the poller: the time, what the platform answers, and whether the ledger can be written.
pub record Tick : Type 0 where
  pub now : ℕ
  pub has_key : Bool
  pub send : Processed → Sent
  pub saves : Bool

-- How often the retries send over a list of ticks between which nothing else writes the ledger.
unfoldable pub sends_over : Desk → List Tick → ℕ
sends_over k [] = 0
sends_over k (t ∷ ts) =
    let (sent, after) = retry_pending_notifies t.saves t.has_key t.send t.now k.deposits k in
    sent + sends_over after ts
