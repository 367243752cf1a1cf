-- ===== src/Deposits/Evidence.antt =====
-- The evidence that a reconciliation of src/deposit-watcher.js acts on.
use j41_sovagent_dispatcher.Prelude.{
  ℕ, suc, ltb, leb, ltb_num, ltb_ℤ, sub_ℕ, pos, String, Number, finite, is_positive, Bool, true,
  false, not, ◌&&◌, Option, none, some, List, [], ◌∷◌, all, length, str_eq, if◌then◌else◌,
}
use j41_sovagent_dispatcher.Deposits.{Processed}

abbrev pub reconcile_min_misses : ℕ
reconcile_min_misses = 3

abbrev pub reconcile_miss_span_ms : ℕ
reconcile_miss_span_ms = 600_000

abbrev pub reconcile_min_advance_blocks : ℕ
reconcile_min_advance_blocks = 30

abbrev pub reversal_budget_window_ms : ℕ
reversal_budget_window_ms = 3_600_000

-- What `getChainInfo` answers.
pub record ChainInfo : Type 0 where
  pub block_height : Number
  pub longest_chain : Number
  pub connections : Number
  pub testnet : Option Bool

abbrev pub is_on_chain : Option Bool → Bool → Bool
is_on_chain none mainnet = true
is_on_chain (some true) mainnet = not mainnet
is_on_chain (some false) mainnet = mainnet

-- `_syncedView`; `mainnet` says that the network is `verus`.
unfoldable pub synced_view : Option ChainInfo → Bool → Bool
synced_view none mainnet = false
synced_view (some ci) mainnet =
    is_positive ci.block_height
    && (is_positive ci.longest_chain
        && (ltb_num (finite (pos 0)) ci.connections
            && (not (ltb_num ci.block_height ci.longest_chain) && is_on_chain ci.testnet mainnet)))

-- What `getTxStatus` does: it throws, with a code or without, or it answers a count or something unreadable.
pub data StatusAnswer : Type 0 where
  throws : Option String → StatusAnswer
  answers : Option ℕ → StatusAnswer

-- What a lookup says of a transaction.
pub data Lookup : Type 0 where
  transient unknown : Lookup
  seen : ℕ → Lookup

-- `_classifyLookupFailure`, and the reading of an answer.
unfoldable pub lookup_of : Bool → StatusAnswer → Lookup
lookup_of supported (throws none) = transient
lookup_of supported (throws (some code)) =
    if supported && str_eq code "TX_NOT_FOUND" then unknown else transient
lookup_of supported (answers none) = transient
lookup_of supported (answers (some c)) = seen c

abbrev pub is_unknown : Lookup → Bool
is_unknown unknown = true
is_unknown _ = false

-- The whole pass misses: a fault of the backend.
abbrev pub is_systemic : List Lookup → Bool
is_systemic ls = ltb 1 (length ls) && all is_unknown ls

-- `_reversalBudgetAvailable`: the times are dropped from the front, up to the first that counts. The list is that of the
-- process, and here it holds what the agent's own passes put there.
unfoldable pub expire_reversals : ℕ → List ℕ → List ℕ
expire_reversals now [] = []
expire_reversals now (t ∷ ts) =
    let rest = expire_reversals now ts in
    if ltb_ℤ (pos reversal_budget_window_ms) (sub_ℕ now t) then rest else t ∷ ts

-- What a pass knows: `height` is the height that counts, `none` where the node did not stay synced; `first_height` is
-- the height at its start.
pub record Pass : Type 0 where
  pub now : ℕ
  pub height : Option ℕ
  pub first_height : ℕ
  pub suspended : Bool
  pub budget : ℕ

abbrev pub stamp : Option ℕ → ℕ → Option ℕ
stamp none n = some n
stamp (some t) n = if leb t 0 then some n else some t

abbrev pub height_or : Option ℕ → ℕ → ℕ
height_or none h = h
height_or (some p) h = if leb p 0 then h else p

-- One more miss.
abbrev pub missed : Pass → Processed → Processed
missed pass r = record r {
  misses = suc r.misses;
  first_miss_at = stamp r.first_miss_at pass.now;
  first_miss_height = stamp r.first_miss_height (height_or pass.height pass.first_height);
}

abbrev pub spans : Option ℕ → ℕ → ℕ → Bool
spans none now span = false
spans (some first) now span = not (ltb_ℤ (sub_ℕ now first) (pos span))

-- The misses are enough, span long enough, and the node stayed synced and took in enough blocks.
unfoldable pub is_evident : Pass → Processed → Bool
is_evident pass r = elim pass.height [
  | none ↦ false
  | some h ↦
      leb reconcile_min_misses r.misses
      && (spans r.first_miss_at pass.now reconcile_miss_span_ms
          && spans r.first_miss_height h reconcile_min_advance_blocks)
]
