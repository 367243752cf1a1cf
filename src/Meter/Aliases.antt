-- ===== src/Meter/Aliases.antt =====
-- The names of a buyer in src/credit-meter.js: aliases, and the merge of the balances under them.
use j41_sovagent_dispatcher.Prelude.{
  ℕ, ◌+ℤ◌, String, Bool, true, false, not, ◌&&◌, ◌||◌, Option, none, some, List, [], ◌∷◌, Dict, get,
  put, delete, str_eq, if◌then◌else◌,
}
use j41_sovagent_dispatcher.Meter.{Buyer, Meters, new_buyer}

abbrev pub has_buyer : Meters → String → Bool
has_buyer m k = elim (get m.buyers k) [ none ↦ false | some b ↦ true ]

-- `mapped && data.buyers[mapped]`.
abbrev pub mapped_or : Meters → Option String → String → String
mapped_or m none id = id
mapped_or m (some mapped) id = if not (str_eq mapped "") && has_buyer m mapped then mapped else id

unfoldable pub resolve_buyer_key : Meters → String → String
resolve_buyer_key m id =
    if str_eq id "" then id else if has_buyer m id then id else mapped_or m (get m.aliases id) id

unfoldable pub link_all : String → List String → Dict String → Dict String
link_all canonical [] d = d
link_all canonical (a ∷ more) d =
    link_all canonical more (if str_eq a "" || str_eq a canonical then d else put d a canonical)

unfoldable pub link_buyer_aliases : Meters → String → List String → Meters
unfolding link_all
link_buyer_aliases m canonical aliases =
    if str_eq canonical ""
    then m
    else record m { aliases = link_all canonical aliases (put m.aliases canonical canonical) }

-- `other.lastDepositTxid && other.lastDepositTxid === canon.lastDepositTxid`.
unfoldable pub same_tx : Buyer → Buyer → Bool
same_tx other canon = elim other.last_deposit_txid [
  | none ↦ false
  | some t ↦ elim canon.last_deposit_txid [ none ↦ false | some u ↦ str_eq t u ]
]

abbrev or_else : Option String → Option String → Option String
or_else none o = o
or_else (some t) o = some t

-- What the canonical record becomes when it takes in another.
unfoldable pub absorb : Buyer → Buyer → Buyer
absorb canon other = if same_tx other canon then canon else record canon {
  balance = canon.balance +ℤ other.balance;
  total_deposited = canon.total_deposited +ℤ other.total_deposited;
  total_spent = canon.total_spent +ℤ other.total_spent;
  last_deposit_txid = or_else canon.last_deposit_txid other.last_deposit_txid;
}

abbrev pub buyer_or_new : ℕ → Option Buyer → Buyer
buyer_or_new now none = new_buyer now
buyer_or_new now (some b) = b

-- The loop over the aliases; `canon` is the record under `canonical`, which the loop mutates.
unfoldable pub merge_aliases : String → List String → Buyer → Dict Buyer → Dict Buyer
merge_aliases canonical [] canon buyers = buyers
merge_aliases canonical (a ∷ more) canon buyers =
    let next : Buyer × Dict Buyer =
      if str_eq a "" || str_eq a canonical then (canon, buyers) else elim (get buyers a) [
        | none ↦ (canon, buyers)
        | some other ↦ (absorb canon other, delete (put buyers canonical (absorb canon other)) a)
      ] in
    merge_aliases canonical more next.0 next.1

unfoldable pub apply_buyer_aliases : Meters → String → List String → ℕ → Meters
apply_buyer_aliases m canonical aliases now =
    let linked = link_buyer_aliases m canonical aliases in
    if str_eq canonical ""
    then linked
    else let canon = buyer_or_new now (get linked.buyers canonical) in
      record linked {
        buyers = merge_aliases canonical aliases canon (put linked.buyers canonical canon);
      }

-- `ensureBuyer`: the key of the buyer and its record, which is put in if it is not there.
unfoldable pub ensure_buyer : Meters → String → ℕ → String × Buyer × Meters
ensure_buyer m id now =
    let key = resolve_buyer_key m id in
    elim (get m.buyers key) [
      | none ↦ (key, new_buyer now, record m { buyers = put m.buyers key (new_buyer now) })
      | some b ↦ (key, b, m)
    ]
