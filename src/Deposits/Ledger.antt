-- ===== src/Deposits/Ledger.antt =====
-- The ledger of src/deposit-watcher.js: the list of transactions that were credited, the audit log, and the claims.
use j41_sovagent_dispatcher.Prelude.{
  ℕ, ◌-◌, ℤ, ltb, leb, String, Bool, true, false, not, ◌&&◌, ◌||◌, Option, none, some, List, [],
  ◌∷◌, ◌++◌, length, any, keep, drop, str_eq, if◌then◌else◌,
}
use j41_sovagent_dispatcher.Deposits.{
  Processed, PendingDeposit, Reversed, Deposits, untouched, Notice, Desk,
}

abbrev pub processed_audit_cap : ℕ
processed_audit_cap = 1000

abbrev pub credited_txid_cap : ℕ
credited_txid_cap = 10_000

-- What a file may hold: a list that is missing is `none`.
pub record RawDeposits : Type 0 where
  pub processed : Option (List Processed)
  pub pending : Option (List PendingDeposit)
  pub reversed : Option (List Reversed)
  pub credited_txids : Option (List String)

abbrev pub or_nil {ℓ} : {A : Type ℓ} → Option (List A) → List A
or_nil none = []
or_nil (some xs) = xs

abbrev pub txids_of : List Processed → List String
txids_of [] = []
txids_of (r ∷ rs) = let rest = txids_of rs in if str_eq r.txid "" then rest else r.txid ∷ rest

-- `_normalizeDeposits`; `loadDeposits` gives it a file that is absent or does not parse as an empty object.
unfoldable pub normalize_deposits : RawDeposits → Deposits
normalize_deposits raw = record {
  processed = or_nil raw.processed;
  pending = or_nil raw.pending;
  reversed = or_nil raw.reversed;
  credited_txids = elim raw.credited_txids [
    | some ts ↦ ts
    | none ↦ txids_of (or_nil raw.processed)
  ];
}

abbrev pub remembers : String → List String → Bool
remembers txid ts = any (λ t. str_eq t txid) ts

abbrev pub has_txid : String → Processed → Bool
has_txid txid r = str_eq r.txid txid

unfoldable pub has_credited_txid : Deposits → String → Bool
has_credited_txid d txid = remembers txid d.credited_txids || any (has_txid txid) d.processed

abbrev pub cap_txids : List String → List String
cap_txids ts =
    if ltb credited_txid_cap (length ts) then drop (length ts - credited_txid_cap) ts else ts

unfoldable pub remember_credited_txid : String → List String → List String
remember_credited_txid txid ts = cap_txids (if remembers txid ts then ts else ts ++ txid ∷ [])

abbrev pub is_open_record : Processed → Bool
is_open_record r = r.crediting || (r.unconfirmed || r.needs_operator)

-- `xs.slice(-n)`: at 0 it is the whole list.
abbrev pub last_of {ℓ} : {A : Type ℓ} → ℕ → List A → List A
last_of n xs = if leb n 0 then xs else drop (length xs - n) xs

unfoldable pub trim_processed : List Processed → List Processed
trim_processed rs =
    if leb (length rs) processed_audit_cap
    then rs
    else keep is_open_record rs
      ++ last_of (processed_audit_cap - length (keep is_open_record rs))
          (keep (λ r. not (is_open_record r)) rs)

abbrev pub is_unrestored : String → Reversed → Bool
is_unrestored txid e = str_eq e.txid txid && elim e.restored_at [ none ↦ true | some t ↦ false ]

-- An entry of a transaction that another path credits is settled.
unfoldable pub settle_entry : String → ℕ → Reversed → Reversed
settle_entry txid now e =
    if is_unrestored txid e
    then if e.needs_operator && elim e.resolved_at [ none ↦ true | some t ↦ false ]
      then record e { restored_at = some now; needs_operator = false; resolved_at = some now }
      else record e { restored_at = some now }
    else e

unfoldable pub settle_reversed : String → ℕ → List Reversed → List Reversed
settle_reversed txid now [] = []
settle_reversed txid now (e ∷ es) = settle_entry txid now e ∷ settle_reversed txid now es

abbrev pub no_notice : Notice
no_notice = record { owed = false; attempts = 0; next_at = none; gave_up = none }

-- A record that is written before its money moves.
abbrev pub intent : String → String → ℤ → Option ℕ → Bool → ℕ → Processed
intent txid buyer amount confirmations unconfirmed now = record {
  txid = txid;
  buyer = buyer;
  amount = amount;
  confirmations = confirmations;
  crediting = true;
  intent_at = some now;
  credited_at = none;
  unconfirmed = unconfirmed;
  misses = 0;
  first_miss_at = none;
  first_miss_height = none;
  reversal = untouched;
  needs_operator = false;
  withheld = false;
  resolved_at = none;
  skipped = false;
  resolving = false;
  notice = no_notice;
}

abbrev pub without_pending : String → List PendingDeposit → List PendingDeposit
without_pending txid ps = keep (λ p. not (str_eq p.txid txid)) ps

-- `_recordCreditIntent` up to its save.
unfoldable pub record_credit_intent : Deposits → Processed → ℕ → Deposits
record_credit_intent d r now = record {
  processed = trim_processed (d.processed ++ r ∷ []);
  pending = without_pending r.txid d.pending;
  reversed = settle_reversed r.txid now d.reversed;
  credited_txids = remember_credited_txid r.txid d.credited_txids;
}

-- The first record of the transaction that is mid-credit is settled.
unfoldable pub finalize_processed : String → ℕ → List Processed → List Processed
finalize_processed txid now [] = []
finalize_processed txid now (r ∷ rs) =
    if has_txid txid r && r.crediting
    then record r { crediting = false; intent_at = none; credited_at = some now } ∷ rs
    else r ∷ finalize_processed txid now rs

unfoldable pub finalize_credit : Deposits → String → ℕ → Deposits
finalize_credit d txid now = record d { processed = finalize_processed txid now d.processed }

-- `claimTxid`: whether the claim is won, and the claims after it. The claims are those of one agent.
unfoldable pub claim_txid : Desk → String → Bool × List String
claim_txid k txid =
    if remembers txid k.claims || has_credited_txid k.deposits txid
    then (false, k.claims)
    else (true, txid ∷ k.claims)

unfoldable pub release_txid : String → List String → List String
release_txid txid claims = keep (λ t. not (str_eq t txid)) claims
