-- ===== src/Deposits/Anomalies.antt =====
-- The list of anomalies that src/deposit-watcher.js shows, with its cache, for one agent. The texts of reasons are left
-- out.
use j41_sovagent_dispatcher.Prelude.{
  ℕ, ◌+◌, ◌==◌, ℤ, String, Bool, true, false, ◌&&◌, ◌||◌, Option, none, some, List, [], ◌∷◌, ◌++◌,
  length, if◌then◌else◌,
}
use j41_sovagent_dispatcher.Deposits.{Processed, Reversed, Deposits}
use j41_sovagent_dispatcher.Deposits.Ledger.{last_of}
use j41_sovagent_dispatcher.Deposits.Operator.{is_unresolved, is_unresolved_entry}

-- What `statSync` answers of deposits.json.
pub record Stat : Type 0 where
  pub mtime : ℕ
  pub size : ℕ

pub record OpenRow : Type 0 where
  pub txid : String
  pub buyer : String
  pub amount : ℤ
  pub is_crediting : Bool
  pub misses : ℕ
  pub credited_at : Option ℕ

-- `in_log` says whether the anomaly is in `processed`.
pub record AnomalyRow : Type 0 where
  pub txid : String
  pub buyer : String
  pub amount : ℤ
  pub in_log : Bool

pub record ReversedRow : Type 0 where
  pub txid : String
  pub buyer : String
  pub amount : ℤ
  pub reversed_at : ℕ
  pub was_debited : Bool
  pub restored_at : Option ℕ
  pub restoring : Bool

pub record Listing : Type 0 where
  pub open_rows : List OpenRow
  pub reversed_rows : List ReversedRow
  pub needs_operator : List AnomalyRow

abbrev pub either_time : Option ℕ → Option ℕ → Option ℕ
either_time none at = at
either_time (some t) at = some t

abbrev pub open_rows_of : List Processed → List OpenRow
open_rows_of [] = []
open_rows_of (r ∷ rs) =
    let rest = open_rows_of rs in
    if r.unconfirmed || r.crediting
    then record {
      txid = r.txid;
      buyer = r.buyer;
      amount = r.amount;
      is_crediting = r.crediting;
      misses = r.misses;
      credited_at = either_time r.credited_at r.intent_at;
    }
      ∷ rest
    else rest

abbrev pub anomaly_rows_of : ℕ → List Processed → List AnomalyRow
anomaly_rows_of now [] = []
anomaly_rows_of now (r ∷ rs) =
    let rest = anomaly_rows_of now rs in
    if is_unresolved now r
    then record { txid = r.txid; buyer = r.buyer; amount = r.amount; in_log = true } ∷ rest
    else rest

abbrev pub anomalous_rows_of : List Reversed → List AnomalyRow
anomalous_rows_of [] = []
anomalous_rows_of (e ∷ es) =
    let rest = anomalous_rows_of es in
    if is_unresolved_entry e
    then record { txid = e.txid; buyer = e.buyer; amount = e.amount; in_log = false } ∷ rest
    else rest

abbrev pub reversed_rows_of : List Reversed → List ReversedRow
reversed_rows_of [] = []
reversed_rows_of (e ∷ es) =
    record {
      txid = e.txid;
      buyer = e.buyer;
      amount = e.amount;
      reversed_at = e.reversed_at;
      was_debited = e.was_debited;
      restored_at = e.restored_at;
      restoring = e.restoring;
    }
    ∷ reversed_rows_of es

abbrev pub no_listing : Listing
no_listing = record { open_rows = []; reversed_rows = []; needs_operator = [] }

unfoldable pub listing_of : ℕ → Deposits → Listing
listing_of now d = record {
  open_rows = open_rows_of d.processed;
  reversed_rows = reversed_rows_of (last_of 25 d.reversed);
  needs_operator = anomaly_rows_of now d.processed ++ anomalous_rows_of d.reversed;
}

abbrev pub is_same_stat : Stat → Stat → Bool
is_same_stat a b = (a.mtime == b.mtime) && (a.size == b.size)

-- The cached listing, with the stat it was made at.
abbrev pub Cached : Type 0
Cached = Option (Stat × Listing)

abbrev pub fill : Stat → ℕ → Deposits → Listing × Cached
fill st now d = (listing_of now d, some (st, listing_of now d))

-- `listDepositAnomaliesForAgent`; the stat is `none` where there is no file.
unfoldable pub list_deposit_anomalies_for_agent :
    Option Stat → ℕ → Deposits → Cached → Listing × Cached
list_deposit_anomalies_for_agent none now d cached = (no_listing, cached)
list_deposit_anomalies_for_agent (some st) now d none = fill st now d
list_deposit_anomalies_for_agent (some st) now d (some (at, value)) =
    if is_same_stat at st then (value, some (at, value)) else fill st now d

abbrev pub open_count : List Listing → ℕ
open_count [] = 0
open_count (l ∷ ls) = length l.open_rows + open_count ls

abbrev pub operator_count : List Listing → ℕ
operator_count [] = 0
operator_count (l ∷ ls) = length l.needs_operator + operator_count ls

-- The summary of `listDepositAnomalies`: how many credits are open, and how many need the operator.
unfoldable pub list_deposit_anomalies : List Listing → ℕ × ℕ
list_deposit_anomalies ls = (open_count ls, operator_count ls)
